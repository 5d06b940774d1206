-- ===== src/Cli/Launch.antt =====
-- src/main.rs: the arguments with which the loops of the guard and of the audit are started.
use config_guard.Base.{Bool, List, Option, none, some, if◌then◌else◌, and_then}
use config_guard.Std.FilePath.{FilePath}
use config_guard.Prompt.Types.{Prompt}
use config_guard.Learning.{AuditLearner, PathAlias}
use config_guard.Learning.Symlinks as Learner
use config_guard.Learning.Symlinks.{ReadDir, config_symlink_aliases}
use config_guard.Fanotify.PromptResolution.{PromptDecisionCache, empty}
use config_guard.Fanotify.Events.{AccessPolicy}
use config_guard.Cli.Scope.{
  static_policy, expand_scope_with_aliases, canonicalize_scope_paths_in, audit_home,
}
use config_guard.Cli.Settings.{Environment, resolve_config_path, load_policy_config}
use mathlib.Core.Option

-- `Mode`, as the loops are given it.
pub data LaunchMode : Type 0 where
  audit : Option AuditLearner → AccessPolicy → LaunchMode
  audit_prompt : Option AuditLearner → AccessPolicy → Prompt → PromptDecisionCache → LaunchMode
  guard : AccessPolicy → Prompt → PromptDecisionCache → LaunchMode

-- The arguments of `fanotify::run`.
pub record Launch : Type 0 where
  pub paths : List FilePath
  pub excluded_paths : List FilePath
  pub mode : LaunchMode

unfoldable pub canonicalize_scope_paths : Environment → List FilePath → Option (List FilePath)
canonicalize_scope_paths env paths =
    and_then env.current_dir (λ dir. canonicalize_scope_paths_in env.canonicalize dir paths)

abbrev mode_of : Option Prompt → Option AuditLearner → AccessPolicy → LaunchMode
mode_of none learner policy = audit learner policy
mode_of (some p) learner policy = audit_prompt learner policy p empty

module _ (env : Environment) (read_dir : ReadDir) where
  -- What all modes make of the paths, and then what a mode makes of the scope, the home directory and
  -- the aliases.
  unfoldable pub with_scope {ℓ} :
      {A : Type ℓ}
      → List FilePath
      → List FilePath
      → (List FilePath → List FilePath → FilePath → List PathAlias → Option A)
      → Option A
  with_scope paths excluded_paths k = and_then (canonicalize_scope_paths env paths) (λ canonical.
      and_then (canonicalize_scope_paths env excluded_paths) (λ excluded.
        let home_dir = audit_home env.home canonical in
        let path_aliases = config_symlink_aliases read_dir home_dir in
        k (expand_scope_with_aliases canonical path_aliases) excluded home_dir path_aliases))

  -- `learns` says whether there is a file for what is learned.
  unfoldable pub run_audit_mode :
      List FilePath → List FilePath → Option FilePath → Option Prompt → Bool → Option Launch
  run_audit_mode paths excluded_paths config p learns =
      with_scope paths excluded_paths (λ scope excluded home_dir path_aliases.
        let learner = if learns then some (Learner.new read_dir home_dir) else none in
        Option.map
          (λ policy_config. record {
            paths = scope;
            excluded_paths = excluded;
            mode = mode_of p learner (static_policy policy_config path_aliases);
          })
          (load_policy_config env (resolve_config_path env config)))

  unfoldable pub run_guard :
      List FilePath → List FilePath → Option FilePath → Prompt → Option Launch
  run_guard paths excluded_paths config p =
      with_scope paths excluded_paths (λ scope excluded home_dir path_aliases.
        Option.map
          (λ policy_config. record {
            paths = scope;
            excluded_paths = excluded;
            mode = guard (static_policy policy_config path_aliases) p empty;
          })
          (load_policy_config env config))
