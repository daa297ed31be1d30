-- ===== src/Cache/Layout/Tests.antt =====
-- A walk with an unreadable directory, and a key of the cache (src/cache/layout.rs).
use tiny_s3_proxy.Prelude.{[], arith, err, false, none, refl, some, true, ◌∷◌, ◌≡◌}
use tiny_s3_proxy.Text.{Bytes, codes}
use tiny_s3_proxy.Auth.Crypto.{Crypto}
use tiny_s3_proxy.Cache.FileSystem.{FileSystem, IoError, other, trim_end_matches}
use tiny_s3_proxy.Cache.Key.{dir_prefix, new}
use tiny_s3_proxy.Cache.Layout.{
  HashDirCollection, collect_hash_dirs_best_effort, is_hash_shard_name,
}
use tiny_s3_proxy.Cache.Layout.BestEffort.{collect_hash_dirs_best_effort_total}
use tiny_s3_proxy.Cache.Layout.Shards.{new_is_found}
use tiny_s3_proxy.Cache.Eviction.Shard.{is_malformed, meta_name}

abbrev broken : IoError
broken = record { kind = other; message = codes "broken" }

-- Nothing can be read.
abbrev broken_fs : FileSystem (Unit {0})
broken_fs = record {
  read = λ p w. (err broken, w);
  metadata = λ p w. (err broken, w);
  remove_file = λ p w. (err broken, w);
  try_exists = λ p w. (err broken, w);
  read_dir = λ p w. (err broken, w);
  is_dir = λ p w. (err broken, w);
}

walk-broken :
    (collect_hash_dirs_best_effort broken_fs (codes "objects") tt).0
    ≡ some (record { dirs = []; incomplete = true })
unfolding collect_hash_dirs_best_effort
walk-broken = refl

collect_hash_dirs_best_effort_total_example :
    (collection : HashDirCollection) × ((collect_hash_dirs_best_effort broken_fs
        (codes "objects")
        tt).0
      ≡ some collection)
collect_hash_dirs_best_effort_total_example =
    collect_hash_dirs_best_effort_total broken_fs (codes "objects") tt

abbrev digest : Bytes
digest = 0xab ∷ 0xcd ∷ 0x01 ∷ 0x23 ∷ 0x45 ∷ 0x67 ∷ 0x89 ∷ 0xef ∷ 0 ∷ 1 ∷ 2 ∷ 3 ∷ 4 ∷ 5 ∷ 6 ∷ 7 ∷ []

-- Only its digest is used.
abbrev fixed_digest : Crypto
fixed_digest = record {
  sha256 = λ s. digest;
  hmac_sha256 = λ k s. digest;
  checksum = λ a s. digest;
  base64_decode = λ s. none;
  is_der = λ s. false;
  p256_verify = λ k m s. false;
}

new_is_found_example :
    let key = new fixed_digest (codes "b") (codes "k") in
    let (d1, d2) = dir_prefix key in
    (is_hash_shard_name (some d1) ≡ true)
    × (is_hash_shard_name (some d2) ≡ true)
    × (trim_end_matches (meta_name key.hash) (codes ".meta.json") ≡ key.hash)
    × (is_malformed key.hash ≡ false)
new_is_found_example = new_is_found fixed_digest (codes "b") (codes "k") (omega arith) (omega arith)
