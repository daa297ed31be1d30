-- ===== src/Text.antt =====
-- Rust's `str` and `[u8]`, as lists of bytes, with the operations of `core::str` and `core::num`
-- that the proxy uses.
pub mod Laws
pub mod Numbers
use Prim.Native.Char.{code}
use tiny_s3_proxy.Prelude.{
  ℕ, zero, suc, ◌+◌, ◌-◌, ◌*◌, ◌^◌, String, Bool, true, false, not, ◌&&◌, ◌||◌, Option, none, some,
  List, [], ◌∷◌, ◌++◌, map, reverse, ltb, leb, ◌==◌, if◌then◌else◌, length, is_empty, take, drop,
}

abbrev pub Bytes : Type 0
Bytes = List ℕ

-- The bytes of an ASCII literal.
abbrev pub codes : String → Bytes
codes String.[] = []
codes (String.◌∷◌ c s) = code c ∷ codes s

-- `==` on texts
unfoldable pub bytes_eq : Bytes → Bytes → Bool
bytes_eq [] [] = true
bytes_eq (a ∷ s) (b ∷ t) = a == b && bytes_eq s t
bytes_eq _ _ = false

-- s.strip_prefix(p)
unfoldable pub strip_prefix : Bytes → Bytes → Option Bytes
strip_prefix s [] = some s
strip_prefix [] (c ∷ p) = none
strip_prefix (b ∷ s) (c ∷ p) = let rest = strip_prefix s p in if b == c then rest else none

-- s.starts_with(p)
unfoldable pub starts_with : Bytes → Bytes → Bool
starts_with s [] = true
starts_with [] (c ∷ p) = false
starts_with (b ∷ s) (c ∷ p) = b == c && starts_with s p

-- s.contains(c) for an ASCII character
unfoldable pub contains_byte : ℕ → Bytes → Bool
contains_byte c [] = false
contains_byte c (b ∷ s) = b == c || contains_byte c s

abbrev cons_fst : ℕ → Option (Bytes × Bytes) → Option (Bytes × Bytes)
cons_fst b none = none
cons_fst b (some (l, r)) = some (b ∷ l, r)

-- s.split_once(c)
unfoldable pub split_once : ℕ → Bytes → Option (Bytes × Bytes)
split_once c [] = none
split_once c (b ∷ s) = let rest = split_once c s in if b == c then some ([], s) else cons_fst b rest

abbrev cons_head : ℕ → List Bytes → List Bytes
cons_head b [] = (b ∷ []) ∷ []
cons_head b (l ∷ ls) = (b ∷ l) ∷ ls

-- s.split(c): always at least one piece
unfoldable pub split : ℕ → Bytes → List Bytes
split c [] = [] ∷ []
split c (b ∷ s) = let rest = split c s in if b == c then [] ∷ rest else cons_head b rest

unfoldable pub to_ascii_lowercase : ℕ → ℕ
to_ascii_lowercase c = if leb b'A' c && leb c b'Z' then c + 32 else c

unfoldable pub to_ascii_uppercase : ℕ → ℕ
to_ascii_uppercase c = if leb b'a' c && leb c b'z' then c - 32 else c

unfoldable pub lowercase : Bytes → Bytes
unfolding to_ascii_lowercase
lowercase s = map to_ascii_lowercase s

unfoldable pub uppercase : Bytes → Bytes
unfolding to_ascii_uppercase
uppercase s = map to_ascii_uppercase s

unfoldable pub eq_ignore_ascii_case : Bytes → Bytes → Bool
eq_ignore_ascii_case s t = bytes_eq (lowercase s) (lowercase t)

-- The code points of White_Space that take one, two and three bytes in UTF-8.
is_space1 : ℕ → Bool
is_space1 a = (leb 9 a && leb a 13) || a == 32

is_space2 : ℕ → ℕ → Bool
is_space2 a b = a == 0xc2 && (b == 0x85 || b == 0xa0)

is_space3 : ℕ → ℕ → ℕ → Bool
is_space3 a b c =
    (a == 0xe1 && b == 0x9a && c == 0x80)
    || (a == 0xe2
        && b == 0x80
        && ((leb 0x80 c && leb c 0x8a) || c == 0xa8 || c == 0xa9 || c == 0xaf))
    || (a == 0xe2 && b == 0x81 && c == 0x9f)
    || (a == 0xe3 && b == 0x80 && c == 0x80)

-- s.trim_start(), on the bytes of a UTF-8 text
unfoldable pub trim_start : Bytes → Bytes
unfolding is_space1 is_space2 is_space3
trim_start [] = []
trim_start (a ∷ []) = if is_space1 a then [] else a ∷ []
trim_start (a ∷ b ∷ []) =
    let one = trim_start (b ∷ []) in
    if is_space1 a then one else if is_space2 a b then [] else a ∷ b ∷ []
trim_start (a ∷ b ∷ c ∷ s) =
    let one = trim_start (b ∷ c ∷ s) in
    let two = trim_start (c ∷ s) in
    let three = trim_start s in
    if is_space1 a
    then one
    else if is_space2 a b
    then two
    else if is_space3 a b c
    then three
    else a ∷ b ∷ c ∷ s

-- The same from the other end: the bytes of the text come last byte first.
trim_reversed : Bytes → Bytes
unfolding is_space1 is_space2 is_space3
trim_reversed [] = []
trim_reversed (a ∷ []) = if is_space1 a then [] else a ∷ []
trim_reversed (b ∷ a ∷ []) =
    let one = trim_reversed (a ∷ []) in
    if is_space1 b then one else if is_space2 a b then [] else b ∷ a ∷ []
trim_reversed (c ∷ b ∷ a ∷ s) =
    let one = trim_reversed (b ∷ a ∷ s) in
    let two = trim_reversed (a ∷ s) in
    let three = trim_reversed s in
    if is_space1 c
    then one
    else if is_space2 b c
    then two
    else if is_space3 a b c
    then three
    else c ∷ b ∷ a ∷ s

-- s.trim()
unfoldable pub trim : Bytes → Bytes
unfolding trim_start trim_reversed
trim s = reverse (trim_reversed (reverse (trim_start s)))

-- How many continuation bytes follow a leading byte, and the range of the first of them.
utf8_lead : ℕ → Option (ℕ × ℕ × ℕ)
utf8_lead a =
    if ltb a 0x80
    then some (0, 0x80, 0xbf)
    else if leb 0xc2 a && leb a 0xdf
    then some (1, 0x80, 0xbf)
    else if a == 0xe0
    then some (2, 0xa0, 0xbf)
    else if (leb 0xe1 a && leb a 0xec) || a == 0xee || a == 0xef
    then some (2, 0x80, 0xbf)
    else if a == 0xed
    then some (2, 0x80, 0x9f)
    else if a == 0xf0
    then some (3, 0x90, 0xbf)
    else if leb 0xf1 a && leb a 0xf3
    then some (3, 0x80, 0xbf)
    else if a == 0xf4
    then some (3, 0x80, 0x8f)
    else none

utf8_from : (more lo hi : ℕ) → Bytes → Bool
unfolding utf8_lead
utf8_from zero lo hi [] = true
utf8_from (suc more) lo hi [] = false
utf8_from zero lo hi (b ∷ s) = elim (utf8_lead b) [
  | none ↦ false
  | some (n, l, h) ↦ utf8_from n l h s
]
utf8_from (suc more) lo hi (b ∷ s) = leb lo b && leb b hi && utf8_from more 0x80 0xbf s

-- std::str::from_utf8(s).is_ok()
unfoldable pub is_utf8 : Bytes → Bool
unfolding utf8_from
is_utf8 s = utf8_from 0 0x80 0xbf s
