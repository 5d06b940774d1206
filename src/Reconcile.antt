-- ===== src/Reconcile.antt =====
-- src/reconcile.rs: the plan for the entries of a configuration directory, and what it carries out.
pub mod Binaries
pub mod Changes
pub mod Directory
pub mod Files
mod Tests
use config_guard.Base.{
  ℕ, ◌+◌, ◌≡◌, Bool, true, false, not, ◌&&◌, ◌||◌, List, [], ◌∷◌, ◌++◌, map, Option, none, some,
  ◌==◌, leb, if◌then◌else◌, and_then, unwrap_or, any, keep, list_beq, list_eq, nat_eq,
}
use config_guard.Std.Bytes.{Bytes, bytes}
use config_guard.Std.FilePath.{
  FilePath, path_beq, starts_with, file_name, file_name_str, join, to_path,
}
use config_guard.Std.Map.{contains}
use config_guard.Policy.Types.{PolicyConfig}
use mathlib.Core.Option

pub data ActionKind : Type 0 where
  keep_configured associate_candidate associated archive_candidate archived : ActionKind

pub record ReconcileAction : Type 0 where
  pub kind : ActionKind
  pub source : FilePath
  pub target : Option FilePath
  pub owner : Option Bytes
  pub binary : Option FilePath
  pub reason : Bytes

pub record ReconcileOptions : Type 0 where
  pub archive_dir : FilePath
  pub policy_config : PolicyConfig
  pub binary_dirs : List FilePath
  pub config_path : Option FilePath
  pub apply : Bool

-- What the file system and the clock answer, and whether it carries out a change.
pub record Disk : Type 0 where
  pub exists : FilePath → Bool
  pub is_dir : FilePath → Bool
  pub timestamp_suffix : Bytes
  pub appends : FilePath → Bool
  pub moves : FilePath → Bool

-- A rule appended to the policy file for an entry, or an entry moved.
pub data Change : Type 0 where
  append_rule : FilePath → Bytes → Change
  move_entry : FilePath → FilePath → Change

pub record BinaryMatch : Type 0 where
  pub owner : Bytes
  pub binary : FilePath

unfoldable pub applied_kind : Bool → ActionKind → ActionKind → ActionKind
applied_kind apply applied dry_run = if apply then applied else dry_run

unfoldable pub paths_overlap : FilePath → FilePath → Bool
paths_overlap entry rule = starts_with entry rule || starts_with rule entry

unfoldable pub policy_covers_path : PolicyConfig → FilePath → Bool
policy_covers_path c p =
    any (λ rule. paths_overlap p rule.path) c.owned_paths
    || any (λ rule. paths_overlap p rule.path) c.shared_paths
    || any (λ rule. paths_overlap p rule.path) c.sensitive_paths

unfoldable pub is_archive_dir : FilePath → FilePath → Bool
is_archive_dir entry archive_dir = path_beq entry archive_dir

unfoldable pub archive_target : Disk → FilePath → FilePath → FilePath
archive_target disk entry archive_dir =
    let target = join archive_dir (to_path (unwrap_or (file_name entry) (bytes "unknown"))) in
    if not (disk.exists target)
    then target
    else join archive_dir (
        to_path
          (unwrap_or (file_name_str target) (bytes "unknown") ++ b'-' ∷ disk.timestamp_suffix))

-- `trim_start_matches(['.', '@'])`.
unfoldable pub trim_marks : Bytes → Bytes
trim_marks [] = []
trim_marks (b ∷ bs) =
    let rest = trim_marks bs in if (b == b'.') || (b == b'@') then rest else b ∷ bs

unfoldable pub strip_suffix : Bytes → Bytes → Option Bytes
strip_suffix suffix [] = if list_beq [] suffix then some [] else none
strip_suffix suffix (b ∷ bs) =
    let rest = strip_suffix suffix bs in
    if list_beq (b ∷ bs) suffix then some [] else Option.map (λ s. b ∷ s) rest

unfoldable pub to_ascii_lowercase : Bytes → Bytes
to_ascii_lowercase bs = map (λ b. if leb b'A' b && leb b b'Z' then b + 32 else b) bs

-- Each name once, without the empty one.
unfoldable pub distinct_owners : List Bytes → List Bytes → List Bytes
distinct_owners seen [] = []
distinct_owners seen (c ∷ cs) =
    let skipped = distinct_owners seen cs in
    let rest = distinct_owners (c ∷ seen) cs in
    if not (list_beq c []) && not (contains c seen) then c ∷ rest else skipped

unfoldable pub owner_names_for_entry : FilePath → Option (List Bytes)
owner_names_for_entry entry = and_then (file_name_str entry) (λ name.
    let base_name = trim_marks name in
    let without_cli = unwrap_or (strip_suffix (bytes "-cli") base_name) base_name in
    let dashed = map (λ b. if b == 32 then b'-' else b) without_cli in
    let joined = keep (λ b. not (b == 32)) without_cli in
    let candidates =
      without_cli
      ∷ to_ascii_lowercase without_cli
      ∷ to_ascii_lowercase dashed
      ∷ to_ascii_lowercase joined
      ∷ [] in
    elim (distinct_owners [] candidates) [ [] ↦ none | o ∷ os ↦ some (o ∷ os) ])

unfoldable pub first_binary : Disk → Bytes → List FilePath → Option FilePath
first_binary disk owner [] = none
first_binary disk owner (dir ∷ dirs) =
    let rest = first_binary disk owner dirs in
    let candidate = join dir (to_path owner) in
    if disk.exists candidate then some candidate else rest

unfoldable pub first_match : Disk → List FilePath → List Bytes → Option BinaryMatch
first_match disk dirs [] = none
first_match disk dirs (owner ∷ owners) =
    let rest = first_match disk dirs owners in
    elim (first_binary disk owner dirs) [
      | some binary ↦ some (record { owner = owner; binary = binary })
      | none ↦ rest
    ]

unfoldable pub find_associated_binary : Disk → FilePath → List FilePath → Option BinaryMatch
unfolding first_match first_binary
find_associated_binary disk entry dirs =
    and_then (owner_names_for_entry entry) (first_match disk dirs)

unfoldable pub keep_configured_action : FilePath → ReconcileAction
keep_configured_action entry = record {
  kind = keep_configured;
  source = entry;
  target = none;
  owner = none;
  binary = none;
  reason = bytes "covered by policy config";
}

-- The result, `none` for an error, with the changes that were carried out.
unfoldable pub association_action :
    Disk → FilePath → ReconcileOptions → BinaryMatch → Option ReconcileAction × List Change
association_action disk entry o match =
    let action : ReconcileAction = record {
      kind = applied_kind o.apply associated associate_candidate;
      source = entry;
      target = none;
      owner = some match.owner;
      binary = some match.binary;
      reason = bytes "associated binary found";
    } in
    if not o.apply then (some action, []) else elim o.config_path [
      | none ↦ (none, [])
      | some config ↦
          if disk.appends config
          then (some action, append_rule entry match.owner ∷ [])
          else (none, [])
    ]

unfoldable pub archive_action :
    Disk → FilePath → ReconcileOptions → Option ReconcileAction × List Change
archive_action disk entry o =
    let target = archive_target disk entry o.archive_dir in
    let action : ReconcileAction = record {
      kind = applied_kind o.apply archived archive_candidate;
      source = entry;
      target = some target;
      owner = none;
      binary = none;
      reason = bytes "associated binary not found";
    } in
    if not o.apply
    then (some action, [])
    else if disk.moves entry
    then (some action, move_entry entry target ∷ [])
    else (none, [])

unfoldable pub plan_entry :
    Disk → FilePath → ReconcileOptions → Option ReconcileAction × List Change
plan_entry disk entry o =
    if policy_covers_path o.policy_config entry
    then (some (keep_configured_action entry), [])
    else elim (find_associated_binary disk entry o.binary_dirs) [
      | some match ↦ association_action disk entry o match
      | none ↦ archive_action disk entry o
    ]

-- `plan_reconcile` over the sorted entries of the directory: an error ends it. The answers of the disk
-- about an entry are those at its turn.
unfoldable pub plan_entries :
    Disk → ReconcileOptions → List FilePath → Option (List ReconcileAction) × List Change
plan_entries disk o [] = (some [], [])
plan_entries disk o (entry ∷ entries) =
    let now = plan_entry disk entry o in
    let rest = plan_entries disk o entries in
    if is_archive_dir entry o.archive_dir || not (disk.is_dir entry) then rest else elim now.0 [
      | none ↦ (none, now.1)
      | some action ↦ (Option.map (λ actions. action ∷ actions) rest.0, now.1 ++ rest.1)
    ]
