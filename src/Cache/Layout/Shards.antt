-- ===== src/Cache/Layout/Shards.antt =====
-- The walk and the scan accept the directories and the names of the cache's own keys
-- (src/cache/layout.rs, src/cache/eviction.rs, src/cache/key.rs).
use tiny_s3_proxy.Text.Numbers.Laws.{length-hex_encode_lower}
use tiny_s3_proxy.Auth.Crypto.{Crypto}
use tiny_s3_proxy.Text.Laws.{strip_prefix-append}
use tiny_s3_proxy.Cache.Key.{new, dir_prefix, compute_hash}
use tiny_s3_proxy.Cache.FileSystem.{strip_suffix, strip_suffixes, trim_end_matches}
use tiny_s3_proxy.Prelude.{
  All, [], all, arith, drop, refl, take, true, ℕ, ◌<◌, ◌∷◌, ◌≡◌, ◌/◌, ◌%◌, suc, zero, false, length,
  length-drop, length-take, none, reverse, some, ◌&&◌, ◌++◌, ◌≤◌, length-append, ◌+◌, ◌∙◌,
}
use mathlib.Core.List.{reverse-append, reverse-reverse}
use tiny_s3_proxy.Text.{Bytes, codes, strip_prefix}
use tiny_s3_proxy.Text.Numbers.{hex_encode_lower, nibble}
use tiny_s3_proxy.Cache.Layout.{is_shard_digit, is_hash_shard_name}
use tiny_s3_proxy.Cache.Eviction.Shard.{is_ascii_hexdigit, is_malformed, meta_name}

nibble-is_shard_digit : (d : ℕ) → d < 16 → is_shard_digit (nibble d) ≡ true
unfolding is_shard_digit nibble
nibble-is_shard_digit d h = ground arith

all-hex_encode_lower :
    (bytes : Bytes) → All (λ b. b < 256) bytes → all is_shard_digit (hex_encode_lower bytes) ≡ true
unfolding hex_encode_lower
all-hex_encode_lower [] h = refl
all-hex_encode_lower (b ∷ bytes) h = ground (
  arith,
  nibble-is_shard_digit (b / 16),
  nibble-is_shard_digit (b % 16),
  all-hex_encode_lower bytes h.1,
)

all-is_ascii_hexdigit : (s : Bytes) → all is_shard_digit s ≡ true → all is_ascii_hexdigit s ≡ true
unfolding is_ascii_hexdigit is_shard_digit
all-is_ascii_hexdigit [] h = refl
all-is_ascii_hexdigit (c ∷ s) h = ground (arith, all-is_ascii_hexdigit s)

all-take : (n : ℕ) (s : Bytes) → all is_shard_digit s ≡ true → all is_shard_digit (take n s) ≡ true
all-take zero s h = refl
all-take (suc n) [] h = refl
all-take (suc n) (c ∷ s) h = ground (arith, all-take n s)

all-drop : (n : ℕ) (s : Bytes) → all is_shard_digit s ≡ true → all is_shard_digit (drop n s) ≡ true
all-drop zero s h = h
all-drop (suc n) [] h = refl
all-drop (suc n) (c ∷ s) h = ground (arith, all-drop n s)

All-take : (n : ℕ) (s : Bytes) → All (λ b. b < 256) s → All (λ b. b < 256) (take n s)
All-take zero s h = tt
All-take (suc n) [] h = tt
All-take (suc n) (c ∷ s) h = (h.0, All-take n s h.1)

all-append :
    (xs ys : Bytes)
    → all is_shard_digit (xs ++ ys) ≡ (all is_shard_digit xs && all is_shard_digit ys)
all-append [] ys = refl
all-append (x ∷ xs) ys = ground (arith, all-append xs ys)

all-reverse : (s : Bytes) → all is_shard_digit (reverse s) ≡ all is_shard_digit s
all-reverse [] = refl
all-reverse (c ∷ s) =
    rw (reverse-append (c ∷ []) s) (ground (arith, all-append (reverse s) (c ∷ []), all-reverse s))

strip_suffix-append : (s p : Bytes) → strip_suffix (s ++ p) p ≡ some s
unfolding strip_suffix
strip_suffix-append s p = rw (
  reverse-append s p,
  strip_prefix-append (reverse p) (reverse s),
  reverse-reverse s,
  strip_suffix,
)

strip_prefix_other :
    (s : Bytes) → all is_shard_digit s ≡ true → strip_prefix s (reverse (codes ".meta.json")) ≡ none
unfolding strip_prefix is_shard_digit
strip_prefix_other [] h = refl
strip_prefix_other (c ∷ s) h = ground arith

-- A hash has no such suffix of its own.
strip_suffix-none :
    (s : Bytes) → all is_shard_digit s ≡ true → strip_suffix s (codes ".meta.json") ≡ none
unfolding strip_suffix
strip_suffix-none s h = rw (strip_prefix_other (reverse s) (rw (all-reverse s) h), strip_suffix)

strip_suffixes_lem :
    (n : ℕ) (s : Bytes) → all is_shard_digit s ≡ true → strip_suffixes n s (codes ".meta.json") ≡ s
unfolding strip_suffixes
strip_suffixes_lem zero s h = refl
strip_suffixes_lem (suc n) s h = rw (strip_suffix-none s h, strip_suffixes)

trim_end_matches-meta_name :
    (s : Bytes)
    → all is_shard_digit s ≡ true
    → trim_end_matches (meta_name s) (codes ".meta.json") ≡ s
unfolding trim_end_matches meta_name
trim_end_matches-meta_name s h =
    let long : length (s ++ codes ".meta.json") ≡ suc (length s + 9) =
      length-append s (codes ".meta.json") ∙ omega arith in
    rw
      (
        long,
        trim_end_matches,
        meta_name,
        strip_suffix-append s (codes ".meta.json"),
        strip_suffixes,
      )
      (strip_suffixes_lem (length s + 9) s h)

pub new_is_found :
    (crypto : Crypto) (bucket object_key : Bytes)
    → All (λ b. b < 256) (crypto.sha256 (bucket ++ (0 ∷ object_key)))
    → 16 ≤ length (crypto.sha256 (bucket ++ (0 ∷ object_key)))
    → let key = new crypto bucket object_key in
      let (d1, d2) = dir_prefix key in
      (is_hash_shard_name (some d1) ≡ true)
      × (is_hash_shard_name (some d2) ≡ true)
      × (trim_end_matches (meta_name key.hash) (codes ".meta.json") ≡ key.hash)
      × (is_malformed key.hash ≡ false)
unfolding is_hash_shard_name is_malformed dir_prefix new compute_hash
new_is_found crypto bucket object_key are_bytes long =
    let digest = crypto.sha256 (bucket ++ (0 ∷ object_key)) in
    let hash = hex_encode_lower (take 16 digest) in
    let digits = all-hex_encode_lower (take 16 digest) (All-take 16 digest are_bytes) in
    let len : length hash ≡ 32 =
      omega (arith, length-hex_encode_lower (take 16 digest), length-take 16 digest, long) in
    (
      ground (arith, all-take 2 hash digits, length-take 2 hash, len),
      ground (
        arith,
        all-take 2 (drop 2 hash) (all-drop 2 hash digits),
        length-take 2 (drop 2 hash),
        length-drop 2 hash,
        len,
      ),
      trim_end_matches-meta_name hash digits,
      ground (arith, all-is_ascii_hexdigit hash digits, len),
    )
