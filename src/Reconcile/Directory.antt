-- ===== src/Reconcile/Directory.antt =====
-- src/reconcile.rs: the entries of the configuration directory, the whole plan, and the rule that is appended
-- to the policy file.
pub mod Order
use config_guard.Base.{
  ℕ, ◌+◌, ◌≡◌, refl, Bool, true, false, not, ◌&&◌, ◌||◌, List, [], ◌∷◌, ◌++◌, map, Option, none,
  some, ◌==◌, ltb, leb, if◌then◌else◌, and_then,
}
use config_guard.Std.Bytes.{Bytes, bytes}
use config_guard.Std.FilePath.{
  FilePath, path, join, Component, root_dir, cur_dir, parent_dir, normal, components,
}
use config_guard.Policy.Types.{PolicyConfig}
use config_guard.Reconcile.{ReconcileAction, ReconcileOptions, Disk, Change, plan_entries}
use mathlib.Core.Option

-- `ReconcileOptions::new`, with the directories of `PATH`.
unfoldable pub new : FilePath → PolicyConfig → List FilePath → ReconcileOptions
new config_home policy_config path_binary_dirs = record {
  archive_dir = join config_home (path "archive");
  policy_config = policy_config;
  binary_dirs = path_binary_dirs;
  config_path = none;
  apply = false;
}

unfoldable pub with_binary_dirs : ReconcileOptions → List FilePath → ReconcileOptions
with_binary_dirs o binary_dirs = record o { binary_dirs = binary_dirs }

unfoldable pub with_config_path : ReconcileOptions → FilePath → ReconcileOptions
with_config_path o config_path = record o { config_path = some config_path }

unfoldable pub apply : ReconcileOptions → ReconcileOptions
apply o = record o { apply = true }

-- The order of byte strings.
unfoldable pub bytes_le : Bytes → Bytes → Bool
bytes_le [] bs = true
bytes_le (a ∷ as') [] = false
bytes_le (a ∷ as') (b ∷ bs) = let rest = bytes_le as' bs in ltb a b || (a == b && rest)

-- The rank of a kind of component; names are compared by their bytes.
abbrev rank : Component → ℕ
rank root_dir = 0
rank cur_dir = 1
rank parent_dir = 2
rank (normal s) = 3

unfoldable pub component_le : Component → Component → Bool
unfolding bytes_le
component_le (normal a) (normal b) = bytes_le a b
component_le a b = leb (rank a) (rank b)

unfoldable pub components_le : List Component → List Component → Bool
unfolding component_le
components_le [] ys = true
components_le (x ∷ xs) [] = false
components_le (x ∷ xs) (y ∷ ys) =
    let rest = components_le xs ys in component_le x y && (not (component_le y x) || rest)

-- `Ord` of paths.
unfoldable pub path_le : FilePath → FilePath → Bool
unfolding components_le
path_le a b = components_le (components a) (components b)

unfoldable pub insert_sorted : FilePath → List FilePath → List FilePath
insert_sorted p [] = p ∷ []
insert_sorted p (q ∷ qs) =
    let rest = insert_sorted p qs in if path_le p q then p ∷ q ∷ qs else q ∷ rest

-- `sort`, which keeps the order of equal paths.
unfoldable pub sort : List FilePath → List FilePath
unfolding insert_sorted
sort [] = []
sort (p ∷ ps) = insert_sorted p (sort ps)

-- The paths of the entries; `none` for an entry that cannot be read, which is an error.
unfoldable pub collect_entries : List (Option FilePath) → Option (List FilePath)
collect_entries [] = some []
collect_entries (none ∷ entries) = none
collect_entries (some p ∷ entries) = Option.map (λ rest. p ∷ rest) (collect_entries entries)

unfoldable pub config_home_entries : Option (List (Option FilePath)) → Option (List FilePath)
config_home_entries listed = and_then listed (λ entries. Option.map sort (collect_entries entries))

-- The plan, `none` for an error, with the changes that were carried out.
unfoldable pub plan_reconcile :
    Disk
    → ReconcileOptions
    → Option (List (Option FilePath))
    → Option (List ReconcileAction) × List Change
plan_reconcile disk o listed = elim (config_home_entries listed) [
  | none ↦ (none, [])
  | some entries ↦ plan_entries disk o entries
]

unfoldable pub owned_rule : FilePath → Bytes → Bytes
owned_rule path owner =
    bytes "\n[[owned_paths]]\npath = \""
    ++ (path.os_str ++ (bytes "\"\nowner = \"" ++ (owner ++ bytes "\"\nallowed_subjects = []\n")))

-- The content of the policy file after the rule is appended; `none` for an error.
unfoldable pub append_owned_path :
    Option FilePath → (FilePath → Option Bytes) → FilePath → Bytes → Option Bytes
append_owned_path config_path read_to_string path owner =
    and_then config_path
      (λ file. Option.map (λ content. content ++ owned_rule path owner) (read_to_string file))
