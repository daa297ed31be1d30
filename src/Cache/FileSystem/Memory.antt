-- ===== src/Cache/FileSystem/Memory.antt =====
-- Files in memory, on which every assumption about the file calls holds. Some of them cannot be
-- removed, and some cannot be measured.
use tiny_s3_proxy.Prelude.{
  Bool, List, Option, Result, [], arith, err, if◌then◌else◌, length, map, none, ok, refl, some,
  true, ℕ, ◌∷◌, ◌≡◌, ◌≢◌, ◌≤◌, Bool-cases, inl, inr,
}
use tiny_s3_proxy.Text.{Bytes, bytes_eq, codes}
use tiny_s3_proxy.Text.Laws.{bytes_eq_iff}
use tiny_s3_proxy.Dict.{Dict, get, is_some}
use tiny_s3_proxy.Cache.FileSystem.{
  DirEntry, ErrorKind, FilePath, FileSystem, IoError, not_found, permission_denied,
}
use tiny_s3_proxy.Cache.FileSystem.Lawful.{IsLawful, Reads, Removes, Reports}

pub record Disk : Type 0 where
  pub files : Dict Bytes
  pub dirs : Dict (List DirEntry)
  pub locked : Bytes → Bool
  pub unreadable : Bytes → Bool

unfoldable pub erase : Bytes → Dict Bytes → Dict Bytes
erase k [] = []
erase k ((j, v) ∷ m) = let rest = erase k m in if bytes_eq j k then rest else (j, v) ∷ rest

get-erase_self : (k : Bytes) (m : Dict Bytes) → get k (erase k m) ≡ none
unfolding get erase
get-erase_self k [] = refl
get-erase_self k ((j, v) ∷ m) = ground (arith, bytes_eq_iff j k, get-erase_self k m)

get-erase_ne : (k j : Bytes) (m : Dict Bytes) → j ≢ k → get j (erase k m) ≡ get j m
unfolding get erase
get-erase_ne k j [] apart = refl
get-erase_ne k j ((i, v) ∷ m) apart =
    ground (arith, bytes_eq_iff i k, bytes_eq_iff i j, get-erase_ne k j m apart)

abbrev failure : ErrorKind → IoError
failure kind = record { kind = kind; message = codes "failed" }

abbrev or_not_found : {A : Type 0} → Option A → Result IoError A
or_not_found none = err (failure not_found)
or_not_found (some a) = ok a

abbrev pub file_length : Option Bytes → ℕ
file_length none = 0
file_length (some text) = length text

unfoldable pub disk_bytes : FilePath → Disk → ℕ
disk_bytes p d = file_length (get p d.files)

unfoldable pub read_file : FilePath → Disk → Result IoError Bytes
read_file p d =
    if d.unreadable p then err (failure permission_denied) else or_not_found (get p d.files)

unfoldable pub measure_file : FilePath → Disk → Result IoError ℕ
measure_file p d = elim (get p d.files) [
  | none ↦ err (failure not_found)
  | some text ↦ if d.unreadable p then err (failure permission_denied) else ok (length text)
]

unfoldable pub delete_file : FilePath → Disk → Result IoError (Unit {0}) × Disk
unfolding erase
delete_file p d = elim (get p d.files) [
  | none ↦ (err (failure not_found), d)
  | some text ↦
      if d.locked p
      then (err (failure permission_denied), d)
      else (ok tt, record d { files = erase p d.files })
]

abbrev pub disk_fs : FileSystem Disk
disk_fs = record {
  read = λ p d. (read_file p d, d);
  metadata = λ p d. (measure_file p d, d);
  remove_file = delete_file;
  try_exists = λ p d. (ok (is_some (get p d.files)), d);
  read_dir = λ p d. (
    or_not_found (elim (get p d.dirs) [ none ↦ none | some entries ↦ some (map ok entries) ]),
    d,
  );
  is_dir = λ entry d. (ok true, d);
}

read_file-Reads : (p : FilePath) (d : Disk) → Reads (read_file p d) (disk_bytes p d)
unfolding read_file disk_bytes
read_file-Reads p d = ground arith

measure_file-Reports : (p : FilePath) (d : Disk) → Reports (measure_file p d) (disk_bytes p d)
unfolding measure_file disk_bytes
measure_file-Reports p d = ground arith

delete_file-Removes :
    (p : FilePath) (d : Disk) → Removes (delete_file p d).0 (disk_bytes p (delete_file p d).1)
unfolding delete_file disk_bytes
delete_file-Removes p d = ground (arith, get-erase_self p d.files)

delete_file_others :
    (p q : FilePath) (d : Disk) → q ≢ p → disk_bytes q (delete_file p d).1 ≡ disk_bytes q d
unfolding delete_file disk_bytes
delete_file_others p q d apart = ground (arith, get-erase_ne p q d.files apart)

delete_file-le : (p q : FilePath) (d : Disk) → disk_bytes q (delete_file p d).1 ≤ disk_bytes q d
unfolding delete_file disk_bytes
delete_file-le p q d = elim (Bool-cases (bytes_eq q p)) [
  | inl same ↦ rw ((bytes_eq_iff q p).0 same) (ground (arith, get-erase_self p d.files))
  | inr apart ↦ ground (arith, bytes_eq_iff q p, get-erase_ne p q d.files)
]

pub disk_fs-IsLawful : IsLawful disk_fs disk_bytes
disk_fs-IsLawful = record {
  try_exists_keeps = λ p q d. refl;
  read_dir_keeps = λ p q d. refl;
  is_dir_keeps = λ e q d. refl;
  read_keeps = λ p q d. refl;
  metadata_keeps = λ p q d. refl;
  read_reads = read_file-Reads;
  metadata_reports = measure_file-Reports;
  remove_empties = delete_file-Removes;
  remove_le = delete_file-le;
  remove_others = delete_file_others;
}
