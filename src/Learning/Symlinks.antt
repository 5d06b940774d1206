-- ===== src/Learning/Symlinks.antt =====
-- src/learning.rs: the symbolic links of the configuration directory, and a new learner.
use config_guard.Base.{Bool, List, [], ◌∷◌, Option, none, some, and_then, if◌then◌else◌}
use config_guard.Std.FilePath.{FilePath, path, join}
use config_guard.Learning.{PathAlias, AuditLearner}

-- What the file system says of an entry: whether it is a symbolic link, if that can be read, the
-- directory or file that it leads to, and whether that is a directory.
pub record ConfigEntry : Type 0 where
  pub path : FilePath
  pub is_symlink : Option Bool
  pub canonical : Option FilePath
  pub canonical_is_dir : Bool

unfoldable pub config_symlink_alias : ConfigEntry → Option PathAlias
config_symlink_alias entry = and_then entry.is_symlink (λ symlink.
    if symlink
    then and_then entry.canonical (λ real_root.
      if entry.canonical_is_dir
      then some (record { real_root = real_root; logical_root = entry.path })
      else none)
    else none)

unfoldable pub aliases_of : List (Option ConfigEntry) → List PathAlias
aliases_of [] = []
aliases_of (none ∷ entries) = aliases_of entries
aliases_of (some entry ∷ entries) =
    let rest = aliases_of entries in
    elim (config_symlink_alias entry) [ none ↦ rest | some alias ↦ alias ∷ rest ]

-- What reading a directory gives: nothing, or its entries, some of which cannot be read.
abbrev pub ReadDir : Type 0
ReadDir = FilePath → Option (List (Option ConfigEntry))

unfoldable pub config_symlink_aliases : ReadDir → FilePath → List PathAlias
config_symlink_aliases read_dir home = elim (read_dir (join home (path ".config"))) [
  | none ↦ []
  | some entries ↦ aliases_of entries
]

-- `AuditLearner::new`, without the path of its output.
unfoldable pub new : ReadDir → FilePath → AuditLearner
new read_dir home_dir = record {
  home_dir = home_dir;
  path_aliases = config_symlink_aliases read_dir home_dir;
  observations = [];
}
