-- ===== src/Reconcile/Files.antt =====
-- src/reconcile.rs: what the plan does to the files, one call after another.
use config_guard.Base.{
  ℕ, Bool, true, false, List, [], map, Option, none, some, is_some_and, unwrap_or, if◌then◌else◌,
}
use config_guard.Std.Bytes.{Bytes, split}
use config_guard.Std.FilePath.{FilePath, to_path}
use config_guard.Std.FilePath.Parent.{parent}
use config_guard.Std.Number.{to_string}
use config_guard.Reconcile.{Disk, archive_target}

-- What the file system and the clock answer; `none` is a failure, of the clock a time before 1970.
pub record FileSystem : Type 0 where
  pub exists : FilePath → Bool
  pub is_dir : FilePath → Bool
  pub create_dir_all : FilePath → Bool
  pub rename : FilePath → FilePath → Bool
  pub read_to_string : FilePath → Option Bytes
  pub write : FilePath → Bool
  pub seconds : Option ℕ

unfoldable pub timestamp_suffix : FileSystem → ℕ
timestamp_suffix fs = unwrap_or fs.seconds 0

-- Whether the entry is moved.
unfoldable pub move_to_archive : FileSystem → FilePath → FilePath → Bool
move_to_archive fs entry target = elim (parent target) [
  | none ↦ false
  | some dir ↦ if fs.create_dir_all dir then fs.rename entry target else false
]

-- `split_paths` on the variable PATH.
unfoldable pub path_binary_dirs : Option Bytes → List FilePath
path_binary_dirs none = []
path_binary_dirs (some dirs) = map to_path (split b':' dirs)

abbrev disk_without_moves : FileSystem → Disk
disk_without_moves fs = record {
  exists = fs.exists;
  is_dir = fs.is_dir;
  timestamp_suffix = to_string (timestamp_suffix fs);
  appends = λ file. is_some_and (fs.read_to_string file) (λ content. fs.write file);
  moves = λ entry. true;
}

-- The disk that the plan is made for.
unfoldable pub disk_of : FileSystem → FilePath → Disk
disk_of fs archive_dir =
    let disk = disk_without_moves fs in
    record disk {
      moves = λ entry. move_to_archive fs entry (archive_target disk entry archive_dir);
    }
