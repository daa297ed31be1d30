-- ===== src/Text/Numbers/Laws.antt =====
-- Printing a number in hexadecimal and reading it back.
use native.Mathlib.Nat.{pow-suc}
use tiny_s3_proxy.Prelude.{
  ℕ, zero, suc, ◌≤◌, ◌⊎◌, ◌-◌, ◌+◌, ◌*◌, ◌/◌, ◌%◌, ◌^◌, ◌<◌, ◌≡◌, false, some, [], ◌∷◌, inl, inr,
  arith, ◌==◌, Option-cases, Bool-cases, ap, ◌∙◌, sym, All, length, refl,
}
use tiny_s3_proxy.Text.{Bytes}
use tiny_s3_proxy.Text.Numbers.{
  hex_digit, from_digits, parse_hex_u64, nibble, to_hex_before, to_hex, hex_nibble,
  hex_encode_lower, hex_decode_lower,
}

pub hex_digit-nibble : (d : ℕ) → d < 16 → hex_digit (nibble d) ≡ some d
unfolding hex_digit nibble
hex_digit-nibble d h = ground arith

from_digits-nibble :
    (limit acc d : ℕ) (s : Bytes)
    → d < 16
    → acc * 16 + d < limit
    → from_digits hex_digit 16 limit acc (nibble d ∷ s)
      ≡ from_digits hex_digit 16 limit (acc * 16 + d) s
unfolding from_digits
from_digits-nibble limit acc d s h k = ground (arith, hex_digit-nibble d h)

pub from_digits-to_hex_before :
    (fuel limit n : ℕ) (rest : Bytes)
    → n < 16 ^ fuel
    → n < limit
    → from_digits hex_digit 16 limit 0 (to_hex_before fuel n rest)
      ≡ from_digits hex_digit 16 limit n rest
unfolding to_hex_before
from_digits-to_hex_before zero limit n rest h k =
    ap (λ m. from_digits hex_digit 16 limit m rest) (omega arith)
from_digits-to_hex_before (suc fuel) limit n rest h k = elim (Bool-cases (n / 16 == 0)) [
  | inl last ↦
      let small : n < 16 = ground arith in
      rw last (
        from_digits-nibble limit 0 n rest small (omega arith)
        ∙ ap (λ m. from_digits hex_digit 16 limit m rest) (omega arith))
  | inr more ↦
      let fits : n / 16 < 16 ^ fuel = omega (arith, pow-suc 16 fuel) in
      rw more (
        from_digits-to_hex_before fuel limit (n / 16) (nibble (n % 16) ∷ rest) fits (omega arith)
        ∙ (from_digits-nibble limit (n / 16) (n % 16) rest (omega arith) (omega arith)
            ∙ ap (λ m. from_digits hex_digit 16 limit m rest) (omega arith)))
]

nibble-ne-plus : (d : ℕ) → d < 16 → (nibble d == b'+') ≡ false
unfolding nibble
nibble-ne-plus d h = ground arith

-- A digit string that starts with a digit is read as it stands.
parse_hex_u64-nibble :
    (d : ℕ) (s : Bytes)
    → d < 16
    → parse_hex_u64 (nibble d ∷ s) ≡ from_digits hex_digit 16 (2 ^ 64) 0 (nibble d ∷ s)
unfolding parse_hex_u64
parse_hex_u64-nibble d s h = rw (nibble-ne-plus d h)

pub to_hex_before_head :
    (fuel n : ℕ) (rest : Bytes)
    → n < 16 ^ suc fuel
    → (d : ℕ) × (s : Bytes) × (d < 16) × (to_hex_before (suc fuel) n rest ≡ nibble d ∷ s)
unfolding to_hex_before
to_hex_before_head zero n rest h = (n, rest, omega arith, ground arith)
to_hex_before_head (suc fuel) n rest h = elim (Bool-cases (n / 16 == 0)) [
  | inl last ↦ (n, rest, ground arith, rw last)
  | inr more ↦
      let fits : n / 16 < 16 ^ suc fuel = omega (arith, pow-suc 16 (suc fuel)) in
      let (d, s, digit, e) = to_hex_before_head fuel (n / 16) (nibble (n % 16) ∷ rest) fits in
      (d, s, digit, rw more e)
]

-- A u64 printed by `{:x}` is read back.
pub parse_hex_u64-to_hex : (n : ℕ) → n < 2 ^ 64 → parse_hex_u64 (to_hex n) ≡ some n
unfolding from_digits
parse_hex_u64-to_hex n h =
    let (d, s, digit, e) = to_hex_before_head 15 n [] h in
    rw e (
      parse_hex_u64-nibble d s digit
      ∙ (ap (from_digits hex_digit 16 (2 ^ 64) 0) (sym e)
          ∙ from_digits-to_hex_before 16 (2 ^ 64) n [] h h))

hex_nibble-nibble : (d : ℕ) → d < 16 → hex_nibble (nibble d) ≡ some d
unfolding hex_nibble nibble
hex_nibble-nibble d h = ground arith

-- Bytes written as lowercase digit pairs are read back.
pub hex_decode_lower-hex_encode_lower :
    (bytes : Bytes)
    → All (λ b. b < 256) bytes
    → hex_decode_lower (hex_encode_lower bytes) ≡ some bytes
unfolding hex_encode_lower hex_decode_lower
hex_decode_lower-hex_encode_lower [] h = refl
hex_decode_lower-hex_encode_lower (b ∷ bytes) (small, h) = ground (
  arith,
  hex_nibble-nibble (b / 16) (omega arith),
  hex_nibble-nibble (b % 16) (omega arith),
  hex_decode_lower-hex_encode_lower bytes h,
)

pub length-hex_encode_lower : (bytes : Bytes) → length (hex_encode_lower bytes) ≡ 2 * length bytes
unfolding hex_encode_lower
length-hex_encode_lower [] = refl
length-hex_encode_lower (b ∷ bytes) = omega (arith, length-hex_encode_lower bytes)

nibble-hex_nibble : (c d : ℕ) → hex_nibble c ≡ some d → (nibble d ≡ c) × (d < 16)
unfolding hex_nibble nibble
nibble-hex_nibble c d h = ground arith

-- Digit pairs that are read are those that the bytes are written as.
pub hex_encode_lower-hex_decode_lower :
    (s bytes : Bytes) → hex_decode_lower s ≡ some bytes → hex_encode_lower bytes ≡ s
unfolding hex_encode_lower hex_decode_lower
hex_encode_lower-hex_decode_lower [] bytes h = ground (arith, h)
hex_encode_lower-hex_decode_lower (c ∷ []) bytes h = cc
hex_encode_lower-hex_decode_lower (c ∷ d ∷ s) bytes h = elim (Option-cases (hex_nibble c)) [
  | inl e ↦ absurd (ground (arith, e, h))
  | inr (x, e) ↦ elim (Option-cases (hex_nibble d)) [
    | inl f ↦ absurd (ground (arith, e, f, h))
    | inr (y, f) ↦ elim (Option-cases (hex_decode_lower s)) [
      | inl g ↦ absurd (ground (arith, e, f, g, h))
      | inr (rest, g) ↦
          let (first, small) = nibble-hex_nibble c x e in
          let (second, small') = nibble-hex_nibble d y f in
          let tail = hex_encode_lower-hex_decode_lower s rest g in
          let is : bytes ≡ (16 * x + y) ∷ rest = ground (arith, e, f, g, h) in
          let high : (16 * x + y) / 16 ≡ x = omega (arith, small') in
          let low : (16 * x + y) % 16 ≡ y = omega (arith, small') in
          rw (is, high, low, first, second, tail) refl
    ]
  ]
]

abbrev pub IsLowerHexDigit : ℕ → Type 0
IsLowerHexDigit c = ((48 ≤ c) × (c ≤ 57)) ⊎ ((97 ≤ c) × (c ≤ 102))

hex_nibble-IsLowerHexDigit : (c d : ℕ) → hex_nibble c ≡ some d → IsLowerHexDigit c
unfolding hex_nibble
hex_nibble-IsLowerHexDigit c d h = ground arith

IsLowerHexDigit-hex_nibble : (c : ℕ) → IsLowerHexDigit c → (d : ℕ) × (hex_nibble c ≡ some d)
unfolding hex_nibble
IsLowerHexDigit-hex_nibble c (inl h) = (c - 48, ground (arith, h))
IsLowerHexDigit-hex_nibble c (inr h) = (c - 97 + 10, ground (arith, h))

pub hex_decode_lower-IsLowerHexDigit :
    (s bytes : Bytes) → hex_decode_lower s ≡ some bytes → All IsLowerHexDigit s
unfolding hex_decode_lower
hex_decode_lower-IsLowerHexDigit [] bytes h = tt
hex_decode_lower-IsLowerHexDigit (c ∷ []) bytes h = cc
hex_decode_lower-IsLowerHexDigit (c ∷ d ∷ s) bytes h = elim (Option-cases (hex_nibble c)) [
  | inl e ↦ absurd (ground (arith, e, h))
  | inr (x, e) ↦ elim (Option-cases (hex_nibble d)) [
    | inl f ↦ absurd (ground (arith, e, f, h))
    | inr (y, f) ↦ elim (Option-cases (hex_decode_lower s)) [
      | inl g ↦ absurd (ground (arith, e, f, g, h))
      | inr (rest, g) ↦ (
        hex_nibble-IsLowerHexDigit c x e,
        (hex_nibble-IsLowerHexDigit d y f, hex_decode_lower-IsLowerHexDigit s rest g),
      )
    ]
  ]
]

pub IsLowerHexDigit-hex_decode_lower :
    (n : ℕ) (s : Bytes)
    → length s ≡ 2 * n
    → All IsLowerHexDigit s
    → (bytes : Bytes) × (hex_decode_lower s ≡ some bytes)
unfolding hex_decode_lower
IsLowerHexDigit-hex_decode_lower n [] size digits = ([], refl)
IsLowerHexDigit-hex_decode_lower n (c ∷ []) size digits = absurd (omega (arith, size))
IsLowerHexDigit-hex_decode_lower zero (c ∷ d ∷ s) size digits = absurd (omega (arith, size))
IsLowerHexDigit-hex_decode_lower (suc n) (c ∷ d ∷ s) size (first, (second, digits)) =
    let (x, e) = IsLowerHexDigit-hex_nibble c first in
    let (y, f) = IsLowerHexDigit-hex_nibble d second in
    let (rest, g) = IsLowerHexDigit-hex_decode_lower n s (omega (arith, size)) digits in
    ((x * 16 + y) ∷ rest, rw (e, f, g, hex_decode_lower) refl)
