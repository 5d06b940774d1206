-- ===== src/Reconcile/Tests.antt =====
-- src/reconcile.rs: a plan for three entries, carried out and as a dry run.
use config_guard.Base.{
  ◌≡◌, refl, Bool, true, false, List, [], ◌∷◌, some, map, unwrap_or, any, keep, list_beq, All,
}
use mathlib.Core.List.{Perm}
use config_guard.Std.Bytes.{bytes}
use config_guard.Std.Utf8.{to_str, is_utf8}
use config_guard.Std.FilePath.{
  FilePath, path, components, component_beq, path_beq, is_prefix, starts_with, file_name, join,
}
use config_guard.Std.Map.{contains}
use config_guard.Reconcile.{
  first_binary, first_match, find_associated_binary, applied_kind, paths_overlap,
  policy_covers_path, is_archive_dir, archive_target, keep_configured_action, association_action,
  archive_action, plan_entry, ReconcileOptions, Disk, ReconcileAction, append_rule, move_entry,
  distinct_owners, trim_marks, strip_suffix, to_ascii_lowercase, owner_names_for_entry,
  plan_entries,
}
use config_guard.Reconcile.Directory.{
  plan_reconcile, config_home_entries, collect_entries, sort, insert_sorted, path_le, components_le,
  component_le, bytes_le,
}
use config_guard.Reconcile.Directory.Order.{IsSorted, is_planned, plan_reconcile-sources}
use config_guard.Reconcile.Changes.{IsPermitted, plan_entries-IsPermitted}

abbrev disk : Disk
disk = record {
  exists = λ p. path_beq p (path "/bin/tool");
  is_dir = λ p. true;
  timestamp_suffix = bytes "7";
  appends = λ p. true;
  moves = λ p. true;
}

abbrev options : Bool → ReconcileOptions
options apply = record {
  archive_dir = path "/c/archive";
  policy_config = record {
    owned_paths =
        record {
          path = path "/c/kept";
          owner = bytes "kept";
          allowed_subjects = [];
          deny_non_owner = false;
        }
        ∷ [];
    shared_paths = [];
    sensitive_paths = [];
    dev_tools = [];
    fail_open = true;
  };
  binary_dirs = path "/bin" ∷ [];
  config_path = some (path "/c/config.toml");
  apply = apply;
}

abbrev entries : List FilePath
entries = path "/c/.Tool-cli" ∷ path "/c/archive" ∷ path "/c/kept" ∷ path "/c/old" ∷ []

owner_names :
    owner_names_for_entry (path "/c/@Vendor Tool-cli")
    ≡ some
        (bytes "Vendor Tool" ∷ bytes "vendor tool" ∷ bytes "vendor-tool" ∷ bytes "vendortool" ∷ [])
unfolding components component_beq path_beq starts_with is_prefix file_name join to_str is_utf8
    contains list_beq any keep distinct_owners trim_marks strip_suffix to_ascii_lowercase
    owner_names_for_entry first_binary first_match find_associated_binary applied_kind paths_overlap
    policy_covers_path is_archive_dir archive_target keep_configured_action association_action
    archive_action plan_entry plan_entries
owner_names = refl

applied :
    (plan_entries disk (options true) entries).1
    ≡ append_rule (path "/c/.Tool-cli") (bytes "tool")
      ∷ move_entry (path "/c/old") (path "/c/archive/old")
      ∷ []
unfolding components component_beq path_beq starts_with is_prefix file_name join to_str is_utf8
    contains list_beq any keep distinct_owners trim_marks strip_suffix to_ascii_lowercase
    owner_names_for_entry first_binary first_match find_associated_binary applied_kind paths_overlap
    policy_covers_path is_archive_dir archive_target keep_configured_action association_action
    archive_action plan_entry plan_entries
applied = refl

dry_run : (plan_entries disk (options false) entries).1 ≡ []
unfolding components component_beq path_beq starts_with is_prefix file_name join to_str is_utf8
    contains list_beq any keep distinct_owners trim_marks strip_suffix to_ascii_lowercase
    owner_names_for_entry first_binary first_match find_associated_binary applied_kind paths_overlap
    policy_covers_path is_archive_dir archive_target keep_configured_action association_action
    archive_action plan_entry plan_entries
dry_run = refl

-- A shared rule that holds for every path that begins with its text does not keep a directory.
prefix_rule_ignored :
    policy_covers_path
      (record {
        owned_paths = [];
        shared_paths =
            record { path = path "/c/kit"; path_prefix = true; allowed_subjects = []; access = [] }
            ∷ [];
        sensitive_paths = [];
        dev_tools = [];
        fail_open = true;
      })
      (path "/c/kitty")
    ≡ false
unfolding components component_beq path_beq starts_with is_prefix file_name join to_str is_utf8
    contains list_beq any keep distinct_owners trim_marks strip_suffix to_ascii_lowercase
    owner_names_for_entry first_binary first_match find_associated_binary applied_kind paths_overlap
    policy_covers_path is_archive_dir archive_target keep_configured_action association_action
    archive_action plan_entry plan_entries
prefix_rule_ignored = refl

plan_entries-IsPermitted_example :
    All (IsPermitted disk (options true)) (plan_entries disk (options true) entries).1
plan_entries-IsPermitted_example = plan_entries-IsPermitted disk (options true) entries

abbrev listed : List FilePath
listed = path "/c/old" ∷ path "/c/archive" ∷ path "/c/.Tool-cli" ∷ []

abbrev planned : List ReconcileAction
planned = unwrap_or (plan_reconcile disk (options false) (some (map some listed))).0 []

planned_sources :
    map (λ (a : ReconcileAction). a.source) planned ≡ path "/c/.Tool-cli" ∷ path "/c/old" ∷ []
unfolding components component_beq path_beq starts_with is_prefix file_name join to_str is_utf8
    contains list_beq any keep distinct_owners trim_marks strip_suffix to_ascii_lowercase
    owner_names_for_entry first_binary first_match find_associated_binary applied_kind paths_overlap
    policy_covers_path is_archive_dir archive_target keep_configured_action association_action
    archive_action plan_entry plan_entries plan_reconcile config_home_entries collect_entries sort
    insert_sorted path_le components_le component_le bytes_le
planned_sources = refl

planned_run : (plan_reconcile disk (options false) (some (map some listed))).0 ≡ some planned
unfolding components component_beq path_beq starts_with is_prefix file_name join to_str is_utf8
    contains list_beq any keep distinct_owners trim_marks strip_suffix to_ascii_lowercase
    owner_names_for_entry first_binary first_match find_associated_binary applied_kind paths_overlap
    policy_covers_path is_archive_dir archive_target keep_configured_action association_action
    archive_action plan_entry plan_entries plan_reconcile config_home_entries collect_entries sort
    insert_sorted path_le components_le component_le bytes_le
planned_run = refl

plan_reconcile-sources_example :
    (sorted : List FilePath) × Perm sorted listed
    × IsSorted sorted
    × (map (λ (a : ReconcileAction). a.source) planned
        ≡ keep (is_planned disk (options false)) sorted)
plan_reconcile-sources_example =
    plan_reconcile-sources disk (options false) listed planned planned_run
