-- ===== src/Cli/Guarding.antt =====
-- src/main.rs, src/learning.rs, src/policy.rs and src/fanotify/guard.rs together: from the command line to the
-- answer that the kernel gets.
use config_guard.Base.{
  ℕ, ◌≡◌, refl, ap, ◌∙◌, Bool, true, false, List, ◌∷◌, ◌++◌, Option, some, arith, All, Member,
}
use config_guard.Base.Int.{pos}
use config_guard.Std.FilePath.{FilePath, starts_with}
use config_guard.Policy.Types.{PolicyConfig, OwnedPath, deny}
use config_guard.Policy.Subject.{subject_name}
use config_guard.Policy.Decide.{is_gitignore, owner_for, allows}
use config_guard.Prompt.Types.{Prompt}
use config_guard.Learning.{PathAlias}
use config_guard.Learning.Symlinks.{ReadDir, config_symlink_aliases}
use config_guard.Fanotify.PromptResolution.{empty}
use config_guard.Fanotify.Events.{
  Io, has_flag, fan_q_overflow, is_watched_path, is_excluded, AccessPolicy,
}
use config_guard.Fanotify.Guard.Types.{PromptCoordinator}
use config_guard.Fanotify.Guard.Loop.{Metadata, Facts, handle_event}
use config_guard.Fanotify.Guard.Verdict.{IsAnswered}
use config_guard.Cli.Scope.{
  static_policy, logical_policy_path, expand_scope_with_aliases, audit_home,
}
use config_guard.Cli.Aliases.{IsRooted, is_within, alias-guarded}
use config_guard.Cli.Enforcement.{event_subject, static_policy-denies}
use config_guard.Cli.Settings.{Environment, load_policy_config}
use config_guard.Cli.Launch.{Launch, guard, canonicalize_scope_paths, with_scope, run_guard}

module _ (env : Environment) (read_dir : ReadDir) (paths excluded_paths : List FilePath)
    (config : Option FilePath) (p : Prompt) (canonical excluded : List FilePath)
    (policy : PolicyConfig) (c : canonicalize_scope_paths env paths ≡ some canonical)
    (x : canonicalize_scope_paths env excluded_paths ≡ some excluded)
    (l : load_policy_config env config ≡ some policy) where
  -- The links of the configuration directory, as the program finds them.
  abbrev pub found_aliases : List PathAlias
  found_aliases = config_symlink_aliases read_dir (audit_home env.home canonical)

  abbrev pub launched : Launch
  launched = record {
    paths = expand_scope_with_aliases canonical found_aliases;
    excluded_paths = excluded;
    mode = guard (static_policy policy found_aliases) p empty;
  }

  run_guard-launched : run_guard env read_dir paths excluded_paths config p ≡ some launched
  unfolding run_guard with_scope
  run_guard-launched = rw (c, x, l) refl

  is_watched_path_lem :
      (target : FilePath) (scope : List FilePath)
      → is_within target scope ≡ true
      → is_excluded target excluded ≡ false
      → is_watched_path target scope excluded ≡ true
  unfolding is_watched_path
  is_watched_path_lem target scope w e = ground (arith, w, e)

  -- The paths, the policy file and the links being as they are found, the guard command starts the loop with a scope and a
  -- policy of which this holds: an event with a descriptor, of a queue that has not overflowed, for a file below the
  -- real root of a link, the first that holds it, that stands below a watched path, is denied if the file is not excluded and
  -- its logical path is no .gitignore and has a strict and most specific rule that does not admit the process. The
  -- kernel is told Deny, the descriptor is closed, and the coordinator stays as it is, whatever prompt, answers and
  -- worker there are.
  pub run_guard-denies :
      (before : List PathAlias) (alias : PathAlias) (after : List PathAlias)
      (root target : FilePath) (o : OwnedPath) (io : Io) (alive : Bool) (m : Metadata)
      (facts : Facts) (coordinator : PromptCoordinator) (fd : ℕ)
      → found_aliases ≡ before ++ alias ∷ after
      → All (λ b. starts_with target b.real_root ≡ false) before
      → starts_with target alias.real_root ≡ true
      → IsRooted alias
      → Member root canonical
      → starts_with alias.logical_root root ≡ true
      → is_excluded target excluded ≡ false
      → m.fd ≡ pos fd
      → has_flag m.mask fan_q_overflow ≡ false
      → facts.target ≡ some target
      → is_gitignore (logical_policy_path target found_aliases) ≡ false
      → owner_for policy (logical_policy_path target found_aliases) ≡ some o
      → o.deny_non_owner ≡ true
      → allows o (event_subject m facts) (subject_name (event_subject m facts)) ≡ false
      → (launch : Launch) × (a : AccessPolicy) × (run_guard env read_dir paths excluded_paths config
            p
          ≡ some launch)
        × (launch.mode ≡ guard a p empty)
        × IsAnswered io fd m.mask deny coordinator
            (handle_event launch.paths launch.excluded_paths a p io alive m facts coordinator)
  run_guard-denies before alias after root target o io alive m facts coordinator fd links others
        real rooted watched under kept e q t g own strict out =
      let within : is_within target launched.paths ≡ true =
        ap (λ as'. is_within target (expand_scope_with_aliases canonical as')) links
        ∙ (alias-guarded target canonical before alias after root others real rooted watched
            under).0 in
      (
        launched,
        static_policy policy found_aliases,
        run_guard-launched,
        refl,
        static_policy-denies launched.paths excluded policy found_aliases p io alive m facts
            coordinator fd target o e q t (is_watched_path_lem target launched.paths within kept) g
            own strict out,
      )
