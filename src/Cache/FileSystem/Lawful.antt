-- ===== src/Cache/FileSystem/Lawful.antt =====
-- What is documented of the file calls when nobody else writes to the files: a length that is
-- reported is right, a missing file has no bytes, a call that fails changes nothing, and a removal
-- touches no other file. Any call may fail at any time.
use tiny_s3_proxy.Text.{Bytes}
use tiny_s3_proxy.Prelude.{err, ok, true, ℕ, ◌≡◌, ◌≢◌, ◌≤◌, Result, length}
use tiny_s3_proxy.Cache.FileSystem.{FilePath, FileSystem, IoError, is_not_found, DirEntry}

-- A length that a call reports is that of the file; a file that it does not find is empty.
abbrev pub Reports : Result IoError ℕ → (bytes : ℕ) → Type 0
Reports (ok n) bytes = bytes ≡ n
Reports (err e) bytes = is_not_found e ≡ true → bytes ≡ 0

-- What a call reads is all of the file.
abbrev pub Reads : Result IoError Bytes → (bytes : ℕ) → Type 0
Reads (ok text) bytes = bytes ≡ length text
Reads (err e) bytes = Unit

-- A file that a call has removed, or has not found, is empty.
abbrev pub Removes : Result IoError (Unit {0}) → (bytes : ℕ) → Type 0
Removes (ok _) bytes = bytes ≡ 0
Removes (err e) bytes = is_not_found e ≡ true → bytes ≡ 0

pub record IsLawful {W : Type 0} (fs : FileSystem W) (bytes : FilePath → W → ℕ) : Type 0 where
  -- reads and queries change no file
  pub try_exists_keeps : (p q : FilePath) (w : W) → bytes q (fs.try_exists p w).1 ≡ bytes q w
  pub read_dir_keeps : (p q : FilePath) (w : W) → bytes q (fs.read_dir p w).1 ≡ bytes q w
  pub is_dir_keeps : (d : DirEntry) (q : FilePath) (w : W) → bytes q (fs.is_dir d w).1 ≡ bytes q w
  pub read_keeps : (p q : FilePath) (w : W) → bytes q (fs.read p w).1 ≡ bytes q w
  pub metadata_keeps : (p q : FilePath) (w : W) → bytes q (fs.metadata p w).1 ≡ bytes q w
  pub read_reads : (p : FilePath) (w : W) → Reads (fs.read p w).0 (bytes p w)
  pub metadata_reports : (p : FilePath) (w : W) → Reports (fs.metadata p w).0 (bytes p w)
  pub remove_empties :
      (p : FilePath) (w : W) → Removes (fs.remove_file p w).0 (bytes p (fs.remove_file p w).1)
  -- a removal that fails changes nothing, and one that does not touches one file
  pub remove_le : (p q : FilePath) (w : W) → bytes q (fs.remove_file p w).1 ≤ bytes q w
  pub remove_others : (p q : FilePath) (w : W) → q ≢ p → bytes q (fs.remove_file p w).1 ≡ bytes q w
