-- ===== src/Cache/Metadata.antt =====
-- The metadata of a cached object (src/cache/metadata.rs, and FillId of src/cache/mod.rs). A time
-- is a number of nanoseconds from the earliest one that `chrono` has, and `content_length`, which no
-- code modelled here reads, is the bit pattern of its i64.
use tiny_s3_proxy.Prelude.{Bool, Option, if◌then◌else◌, some, ℕ}
use tiny_s3_proxy.Text.{Bytes, bytes_eq}
use tiny_s3_proxy.Dict.{Dict}

abbrev pub DateTime : Type 0
DateTime = ℕ

abbrev pub FillId : Type 0
FillId = ℕ

pub record CacheMeta : Type 0 where
  pub bucket : Bytes
  pub key : Bytes
  pub etag : Option Bytes
  pub last_modified : Option DateTime
  pub content_type : Option Bytes
  pub content_length : ℕ
  pub cache_written_at : DateTime
  pub fill_id : FillId
  pub metadata_version : ℕ
  pub last_accessed_at : DateTime
  pub hit_count : ℕ
  pub source_status : ℕ
  pub metadata : Dict Bytes
  pub extra_headers : Dict Bytes
  pub head_extra_headers : Dict Bytes
  pub head_checksum_headers : Dict Bytes
  pub checksum_mode_checked : Bool
  pub head_metadata_checked : Bool
  pub head_checksum_checked : Bool

unfoldable pub preserve_head_state : (own current : CacheMeta) → CacheMeta
preserve_head_state own current = record own {
  head_extra_headers = current.head_extra_headers;
  head_checksum_headers = current.head_checksum_headers;
  head_metadata_checked = current.head_metadata_checked;
  head_checksum_checked = current.head_checksum_checked;
}

same_etag : Option Bytes → Option Bytes → (own preserved : CacheMeta) → CacheMeta
same_etag (some a) (some b) own preserved = if bytes_eq a b then preserved else own
same_etag _ _ own preserved = own

unfoldable pub preserve_same_etag_head_state_from : (own current : CacheMeta) → CacheMeta
unfolding same_etag preserve_head_state
preserve_same_etag_head_state_from own current =
    same_etag own.etag current.etag own (preserve_head_state own current)
