-- ===== src/Cli/Plan.antt =====
-- src/main.rs: the command that plans changes of the configuration directory.
use config_guard.Base.{
  Bool, List, [], ◌∷◌, ◌++◌, map, Option, none, some, if◌then◌else◌, and_then, or_else,
}
use config_guard.Std.Bytes.{Bytes, bytes}
use config_guard.Std.FilePath.{FilePath}
use config_guard.Cli.Settings.{Environment, config_home, resolve_config_path, load_policy_config}
use config_guard.Reconcile.{
  ActionKind, keep_configured, associate_candidate, associated, archive_candidate, archived,
  ReconcileAction, ReconcileOptions, Disk, Change,
}
use config_guard.Reconcile.Directory as Reconcile
use config_guard.Reconcile.Directory.{plan_reconcile}
use mathlib.Core.Option

-- The options of `reconcile`, `none` for an error: without a directory there is nothing to do.
unfoldable pub reconcile_options :
    Environment → List FilePath → Option FilePath → Option FilePath → Bool → Option ReconcileOptions
reconcile_options env path_binary_dirs config_home_arg config apply =
    let config_path = resolve_config_path env config in
    and_then (load_policy_config env config_path) (λ policy_config.
      Option.map
        (λ home.
          let options = Reconcile.new home policy_config path_binary_dirs in
          let options' : ReconcileOptions = elim config_path [
            | some file ↦ Reconcile.with_config_path options file
            | none ↦ options
          ] in
          if apply then Reconcile.apply options' else options')
        (or_else config_home_arg (config_home env)))

-- The line that is printed for an action.
abbrev label : ActionKind → Bytes
label keep_configured = bytes "keep"
label associate_candidate = bytes "associate-candidate"
label associated = bytes "associated"
label archive_candidate = bytes "archive-candidate"
label archived = bytes "archived"

-- `\t` between two texts.
abbrev tab : Bytes → Bytes → Bytes
tab a b = a ++ (b'\t' ∷ b)

abbrev association_line : ReconcileAction → Option Bytes → Option FilePath → Bytes
association_line action (some owner) (some binary) = tab (label action.kind) (
    tab action.source.os_str
      (tab (bytes "owner=" ++ owner) (tab (bytes "binary=" ++ binary.os_str) action.reason)))
association_line action _ _ = tab (label action.kind) (tab action.source.os_str action.reason)

unfoldable pub reconcile_line : ReconcileAction → Bytes
reconcile_line action = elim action.target [
  | some target ↦
      tab (label action.kind) (tab action.source.os_str (tab target.os_str action.reason))
  | none ↦ association_line action action.owner action.binary
]

-- The actions of the plan and the changes that were made; the directory is read with `list_dir`.
unfoldable pub run_reconcile :
    Environment
    → Disk
    → List FilePath
    → (FilePath → Option (List (Option FilePath)))
    → Option FilePath
    → Option FilePath
    → Bool
    → Option (List Bytes) × List Change
run_reconcile env disk path_binary_dirs list_dir config_home_arg config apply =
    elim (reconcile_options env path_binary_dirs config_home_arg config apply) [
      | none ↦ (none, [])
      | some options ↦
          let listed = and_then (or_else config_home_arg (config_home env)) list_dir in
          let plan = plan_reconcile disk options listed in
          (Option.map (map reconcile_line) plan.0, plan.1)
    ]
