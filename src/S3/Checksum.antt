-- ===== src/S3/Checksum.antt =====
-- The checksum algorithms of S3 trailers (src/s3/checksum.rs).
pub mod Laws
use tiny_s3_proxy.Prelude.{Option, none, some, if◌then◌else◌, ◌∷◌, ℕ, []}
use tiny_s3_proxy.Text.{Bytes, codes, bytes_eq, eq_ignore_ascii_case, lowercase}

pub data ChecksumAlgorithm : Type 0 where
  crc32 crc32c crc64nvme sha1 sha256 : ChecksumAlgorithm

-- A validated `x-amz-checksum-*` header.
pub record ChecksumHeader : Type 0 where
  pub algorithm : ChecksumAlgorithm
  pub name : Bytes
  pub value : Bytes

-- `split_at(prefix.len())` with the length test before it
unfoldable pub split_at_len : Bytes → Bytes → Option (Bytes × Bytes)
split_at_len s [] = some ([], s)
split_at_len [] (c ∷ p) = none
split_at_len (b ∷ s) (c ∷ p) = elim (split_at_len s p) [
  | none ↦ none
  | some (head, rest) ↦ some (b ∷ head, rest)
]

-- `split_at` panics within a character; the callers' texts are ASCII, and there it is none.
unfoldable pub strip_prefix_ignore_ascii_case : Bytes → Bytes → Option Bytes
unfolding split_at_len
strip_prefix_ignore_ascii_case s prefix = elim (split_at_len s prefix) [
  | none ↦ none
  | some (head, rest) ↦ if eq_ignore_ascii_case head prefix then some rest else none
]

-- The match on the lowercased suffix.
from_suffix : Bytes → Option ChecksumAlgorithm
from_suffix s =
    if bytes_eq s (codes "crc32")
    then some crc32
    else if bytes_eq s (codes "crc32c")
    then some crc32c
    else if bytes_eq s (codes "crc64nvme")
    then some crc64nvme
    else if bytes_eq s (codes "sha1")
    then some sha1
    else if bytes_eq s (codes "sha256")
    then some sha256
    else none

unfoldable pub from_header_name : Bytes → Option ChecksumAlgorithm
unfolding strip_prefix_ignore_ascii_case from_suffix
from_header_name name = elim (strip_prefix_ignore_ascii_case name (codes "x-amz-checksum-")) [
  | none ↦ none
  | some suffix ↦ from_suffix (lowercase suffix)
]

unfoldable pub header_name : ChecksumAlgorithm → Bytes
header_name crc32 = codes "x-amz-checksum-crc32"
header_name crc32c = codes "x-amz-checksum-crc32c"
header_name crc64nvme = codes "x-amz-checksum-crc64nvme"
header_name sha1 = codes "x-amz-checksum-sha1"
header_name sha256 = codes "x-amz-checksum-sha256"

-- Length in bytes of the decoded digest.
unfoldable pub digest_len : ChecksumAlgorithm → ℕ
digest_len crc32 = 4
digest_len crc32c = 4
digest_len crc64nvme = 8
digest_len sha1 = 20
digest_len sha256 = 32
