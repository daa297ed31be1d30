-- ===== src/S3/Checksum/Laws.antt =====
-- Which header names are accepted.
use mathlib.Core.List.{map-append}
use tiny_s3_proxy.Prelude.{◌≡◌, refl, some, arith, inl, inr, Option-cases, ◌++◌, ◌∷◌, [], ◌∙◌}
use tiny_s3_proxy.Text.{Bytes, codes, eq_ignore_ascii_case, lowercase, to_ascii_lowercase}
use tiny_s3_proxy.Text.Laws.{bytes_eq_iff}
use tiny_s3_proxy.S3.Checksum.{
  ChecksumAlgorithm, split_at_len, strip_prefix_ignore_ascii_case, from_suffix, from_header_name,
  header_name,
}

prefix : Bytes
prefix = codes "x-amz-checksum-"

-- Splitting after the prefix loses nothing.
split_at_len-append :
    (s p head rest : Bytes) → split_at_len s p ≡ some (head, rest) → s ≡ head ++ rest
unfolding split_at_len
split_at_len-append s [] head rest h = ground arith
split_at_len-append [] (c ∷ p) head rest h = cc
split_at_len-append (b ∷ s) (c ∷ p) head rest h = elim (Option-cases (split_at_len s p)) [
  | inl e ↦ ground arith
  | inr ((l, r), e) ↦ ground (arith, split_at_len-append s p l r e)
]

lowercase-append : (s t : Bytes) → lowercase (s ++ t) ≡ lowercase s ++ lowercase t
unfolding lowercase
lowercase-append s t = map-append _ s t

-- The algorithm of a suffix is the one whose header name ends in it.
from_suffix-header_name :
    (s : Bytes) (a : ChecksumAlgorithm)
    → from_suffix s ≡ some a
    → codes "x-amz-checksum-" ++ s ≡ header_name a
unfolding from_suffix header_name
from_suffix-header_name s a h = ground (
  arith,
  bytes_eq_iff s (codes "crc32"),
  bytes_eq_iff s (codes "crc32c"),
  bytes_eq_iff s (codes "crc64nvme"),
  bytes_eq_iff s (codes "sha1"),
  bytes_eq_iff s (codes "sha256"),
)

-- What the case-insensitive prefix test accepts.
strip_prefix_ignore_ascii_case-append :
    (s p rest : Bytes)
    → strip_prefix_ignore_ascii_case s p ≡ some rest
    → lowercase s ≡ lowercase p ++ lowercase rest
unfolding strip_prefix_ignore_ascii_case eq_ignore_ascii_case
strip_prefix_ignore_ascii_case-append s p rest h = elim (Option-cases (split_at_len s p)) [
  | inl e ↦ ground arith
  | inr ((l, r), e) ↦
      let same : lowercase l ≡ lowercase p =
        ground (arith, bytes_eq_iff (lowercase l) (lowercase p)) in
      let kept : r ≡ rest = ground arith in
      rw (split_at_len-append s p l r e) (lowercase-append l r ∙ cc (same, kept))
]

lowercase_prefix :
    (s : Bytes) → lowercase (codes "x-amz-checksum-") ++ s ≡ codes "x-amz-checksum-" ++ s
unfolding lowercase to_ascii_lowercase
lowercase_prefix s = refl

-- An accepted name is the canonical name of its algorithm, in any letter case.
pub lowercase-from_header_name :
    (name : Bytes) (a : ChecksumAlgorithm)
    → from_header_name name ≡ some a
    → lowercase name ≡ header_name a
unfolding from_header_name
lowercase-from_header_name name a h =
    elim (Option-cases (strip_prefix_ignore_ascii_case name (codes "x-amz-checksum-"))) [
      | inl e ↦ ground arith
      | inr (suffix, e) ↦
          strip_prefix_ignore_ascii_case-append name _ suffix e
          ∙ (lowercase_prefix (lowercase suffix)
              ∙ from_suffix-header_name (lowercase suffix) a (ground arith))
    ]
