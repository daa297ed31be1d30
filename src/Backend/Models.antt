-- ===== src/Backend/Models.antt =====
-- Options of backend reads (src/backend/models.rs).
use tiny_s3_proxy.Prelude.{Bool, Option, false, if◌then◌else◌, none, some, true}
use tiny_s3_proxy.Text.{Bytes, bytes_eq, codes}

pub data ChecksumMode : Type 0 where
  enabled : ChecksumMode

unfoldable pub from_header_value : Bytes → Option ChecksumMode
from_header_value value = if bytes_eq value (codes "ENABLED") then some enabled else none

pub record ReadOptions : Type 0 where
  pub checksum_mode : Option ChecksumMode

unfoldable pub wants_checksum_headers : ReadOptions → Bool
wants_checksum_headers options = elim options.checksum_mode [ none ↦ false | some _ ↦ true ]
