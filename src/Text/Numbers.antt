-- ===== src/Text/Numbers.antt =====
-- Numbers in texts: Rust's `from_str_radix` and `parse`, and hexadecimal digits.
pub mod Laws
use tiny_s3_proxy.Prelude.{
  ℕ, zero, suc, ◌+◌, ◌-◌, ◌*◌, ◌/◌, ◌%◌, ◌^◌, Bool, true, false, ◌&&◌, Option, none, some, List, [],
  ◌∷◌, ltb, leb, ◌==◌, if◌then◌else◌, ◌||◌,
}
use tiny_s3_proxy.Text.{Bytes}

-- char::to_digit(10)
unfoldable pub dec_digit : ℕ → Option ℕ
dec_digit c = if leb b'0' c && leb c b'9' then some (c - b'0') else none

-- char::to_digit(16): either case
unfoldable pub hex_digit : ℕ → Option ℕ
hex_digit c =
    if leb b'0' c && leb c b'9'
    then some (c - b'0')
    else if leb b'a' c && leb c b'f'
    then some (c - b'a' + 10)
    else if leb b'A' c && leb c b'F'
    then some (c - b'A' + 10)
    else none

-- Digits by checked multiplication and addition: `none` on a bad digit and at `limit` or above.
unfoldable pub from_digits : (ℕ → Option ℕ) → (radix limit acc : ℕ) → Bytes → Option ℕ
from_digits digit radix limit acc [] = some acc
from_digits digit radix limit acc (c ∷ s) = elim (digit c) [
  | none ↦ none
  | some d ↦
      let n = acc * radix + d in
      elim (ltb n limit) [ true ↦ from_digits digit radix limit n s | false ↦ none ]
]

-- An empty digit string is an error, also behind a sign.
unfoldable pub unsigned : (ℕ → Option ℕ) → (radix limit : ℕ) → Bytes → Option ℕ
unfolding from_digits
unsigned digit radix limit [] = none
unsigned digit radix limit (c ∷ s) = from_digits digit radix limit 0 (c ∷ s)

-- u64::from_str_radix(s, 16): one leading `+` is allowed
unfoldable pub parse_hex_u64 : Bytes → Option ℕ
unfolding unsigned hex_digit
parse_hex_u64 [] = none
parse_hex_u64 (c ∷ s) =
    if c == b'+' then unsigned hex_digit 16 (2 ^ 64) s else unsigned hex_digit 16 (2 ^ 64) (c ∷ s)

-- A signed integer, `negsuc n` being -(n + 1).
pub data ℤ : Type 0 where
  pos : ℕ → ℤ
  negsuc : ℕ → ℤ

abbrev negated : ℕ → ℤ
negated zero = pos 0
negated (suc n) = negsuc n

abbrev as_pos : Option ℕ → Option ℤ
as_pos none = none
as_pos (some n) = some (pos n)

abbrev as_negated : Option ℕ → Option ℤ
as_negated none = none
as_negated (some n) = some (negated n)

-- s.parse::<i32>() at `half` = 2^31, s.parse::<i64>() at `half` = 2^63
unfoldable pub parse_signed : (half : ℕ) → Bytes → Option ℤ
unfolding unsigned dec_digit
parse_signed half [] = none
parse_signed half (c ∷ s) =
    if c == b'+'
    then as_pos (unsigned dec_digit 10 half s)
    else if c == b'-'
    then as_negated (unsigned dec_digit 10 (half + 1) s)
    else as_pos (unsigned dec_digit 10 half (c ∷ s))

abbrev pub parse_i32 : Bytes → Option ℤ
parse_i32 = parse_signed (2 ^ 31)

abbrev pub parse_i64 : Bytes → Option ℤ
parse_i64 = parse_signed (2 ^ 63)

-- The lowercase digit of a number below 16.
unfoldable pub nibble : ℕ → ℕ
nibble d = if ltb d 10 then b'0' + d else b'a' + (d - 10)

-- `{:x}` of a number, its digits put before `rest`.
unfoldable pub to_hex_before : (fuel n : ℕ) → Bytes → Bytes
unfolding nibble
to_hex_before zero n rest = rest
to_hex_before (suc fuel) n rest =
    let more = to_hex_before fuel (n / 16) (nibble (n % 16) ∷ rest) in
    if n / 16 == 0 then nibble n ∷ rest else more

-- Sixteen digits hold a u64.
abbrev pub to_hex : ℕ → Bytes
to_hex n = to_hex_before 16 n []

-- `b'0'..=b'9' | b'a'..=b'f'`
unfoldable pub is_lower_hex_byte : ℕ → Bool
is_lower_hex_byte b = (leb b'0' b && leb b b'9') || (leb b'a' b && leb b b'f')

-- Two lowercase digits for each byte.
unfoldable pub hex_encode_lower : Bytes → Bytes
unfolding nibble
hex_encode_lower [] = []
hex_encode_lower (b ∷ bytes) = nibble (b / 16) ∷ nibble (b % 16) ∷ hex_encode_lower bytes

-- The value of a lowercase digit.
unfoldable pub hex_nibble : ℕ → Option ℕ
hex_nibble b =
    if leb b'0' b && leb b b'9'
    then some (b - b'0')
    else if leb b'a' b && leb b b'f'
    then some (b - b'a' + 10)
    else none

abbrev pair_byte : Option ℕ → Option ℕ → Option Bytes → Option Bytes
pair_byte (some hi) (some lo) (some rest) = some ((hi * 16 + lo) ∷ rest)
pair_byte _ _ _ = none

-- The bytes of a text of lowercase digit pairs.
unfoldable pub hex_decode_lower : Bytes → Option Bytes
unfolding hex_nibble
hex_decode_lower [] = some []
hex_decode_lower (c ∷ []) = none
hex_decode_lower (c ∷ d ∷ s) = pair_byte (hex_nibble c) (hex_nibble d) (hex_decode_lower s)

decimal_before : (fuel n : ℕ) → Bytes → Bytes
decimal_before zero n rest = rest
decimal_before (suc fuel) n rest =
    let more = decimal_before fuel (n / 10) ((n % 10 + b'0') ∷ rest) in
    if n / 10 == 0 then (n % 10 + b'0') ∷ rest else more

-- n.to_string(): twenty digits hold a u64
unfoldable pub to_decimal : ℕ → Bytes
unfolding decimal_before
to_decimal n = decimal_before 20 n []
