-- ===== src/Cache/FileSystem.antt =====
-- The calls of `tokio::fs` that the cache makes, over an unknown world, and the paths that it
-- builds. A call returns its result and the world after it; what other tasks and processes do in
-- between is part of the world, so a world may answer each call as it likes.
pub mod Lawful
pub mod Memory
use tiny_s3_proxy.Prelude.{
  Bool, List, Option, Result, [], err, false, is_empty, length, if◌then◌else◌, none, ok, reverse,
  some, suc, true, zero, ◌++◌, ◌∷◌, ℕ,
}
use tiny_s3_proxy.Text.{Bytes, codes, split_once, starts_with, strip_prefix}

abbrev pub FilePath : Type 0
FilePath = Bytes

-- The kinds of `std::io::ErrorKind` that the code tells apart, and one for the rest.
pub data ErrorKind : Type 0 where
  not_found invalid_data permission_denied other : ErrorKind

-- std::io::Error
pub record IoError : Type 0 where
  pub kind : ErrorKind
  pub message : Bytes

abbrev pub is_not_found : IoError → Bool
is_not_found e = elim e.kind [ not_found ↦ true | _ ↦ false ]

-- Its path, and its name if that is UTF-8.
pub record DirEntry : Type 0 where
  pub path : FilePath
  pub file_name : Option Bytes

pub record FileSystem (W : Type 0) : Type 0 where
  -- tokio::fs::read
  pub read : FilePath → W → Result IoError Bytes × W
  -- tokio::fs::metadata, of which the length is used
  pub metadata : FilePath → W → Result IoError ℕ × W
  -- tokio::fs::remove_file
  pub remove_file : FilePath → W → Result IoError (Unit {0}) × W
  -- tokio::fs::try_exists
  pub try_exists : FilePath → W → Result IoError Bool × W
  -- tokio::fs::read_dir, with what `next_entry` returns before the end of the directory
  pub read_dir : FilePath → W → Result IoError (List (Result IoError DirEntry)) × W
  -- DirEntry::file_type, whether it is a directory
  pub is_dir : DirEntry → W → Result IoError Bool × W

-- s.ends_with(p)
unfoldable pub ends_with : Bytes → Bytes → Bool
ends_with s p = starts_with (reverse s) (reverse p)

-- s.strip_suffix(p)
unfoldable pub strip_suffix : Bytes → Bytes → Option Bytes
strip_suffix s p = elim (strip_prefix (reverse s) (reverse p)) [
  | none ↦ none
  | some rest ↦ some (reverse rest)
]

unfoldable pub strip_suffixes : ℕ → Bytes → Bytes → Bytes
strip_suffixes zero s p = s
strip_suffixes (suc rounds) s p = elim (strip_suffix s p) [
  | none ↦ s
  | some rest ↦ strip_suffixes rounds rest p
]

-- s.trim_end_matches(p): as often as it ends so. The pattern is not empty.
unfoldable pub trim_end_matches : Bytes → Bytes → Bytes
unfolding strip_suffixes strip_suffix
trim_end_matches s p = strip_suffixes (length s) s p

-- dir.join(name), for a name without a slash
unfoldable pub join : FilePath → Bytes → FilePath
join dir name = dir ++ b'/' ∷ name

-- s.rsplit_once(c)
unfoldable pub rsplit_once : ℕ → Bytes → Option (Bytes × Bytes)
rsplit_once c s = elim (split_once c (reverse s)) [
  | none ↦ none
  | some (after, before) ↦ some (reverse before, reverse after)
]

-- What stands before the last dot of a file name, unless nothing does.
unfoldable pub file_stem : Bytes → Bytes
unfolding rsplit_once
file_stem name = elim (rsplit_once b'.' name) [
  | none ↦ name
  | some (stem, extension) ↦ if is_empty stem then name else stem
]

-- path.with_extension(extension), for a path that ends in a file name
unfoldable pub with_extension : FilePath → Bytes → FilePath
unfolding file_stem rsplit_once join
with_extension path extension = elim (rsplit_once b'/' path) [
  | none ↦ file_stem path ++ b'.' ∷ extension
  | some (dir, name) ↦ join dir (file_stem name ++ b'.' ∷ extension)
]

-- path.parent().unwrap()
unfoldable pub parent : FilePath → FilePath
unfolding rsplit_once
parent path = elim (rsplit_once b'/' path) [ none ↦ [] | some (dir, name) ↦ dir ]

-- std::io::Error::new(error.kind(), format!("{operation} {}: {error}", path.display()))
unfoldable pub contextual_io_error : (operation : Bytes) → FilePath → IoError → IoError
contextual_io_error operation path error = record {
  kind = error.kind;
  message = operation ++ codes " " ++ path ++ codes ": " ++ error.message;
}
