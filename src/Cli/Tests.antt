-- ===== src/Cli/Tests.antt =====
-- src/main.rs: the theorems at a link `/c/vim` to `/dot/vim`, in a configuration directory `/c`.
use config_guard.Base.{
  ◌≡◌, ◌↔◌, refl, inl, true, ◌||◌, [], ◌∷◌, ◌++◌, some, none, false, any, keep, list_beq,
}
use config_guard.Std.Bytes as Bytes
use config_guard.Std.Bytes.{bytes, split, split_once}
use config_guard.Std.Utf8.{is_utf8, to_str}
use config_guard.Std.FilePath.{
  FilePath, path, normal, file_name, component_str, components, component_beq, starts_with,
  path_beq, is_prefix, strip_prefix, join, from_components, is_absolute,
}
use config_guard.Policy.Types.{OwnedPath, PolicyConfig, deny, cross_owner_read}
use config_guard.Policy.Decide.{owner_for, allows, max_by_key, max_from}
use config_guard.Policy.Subject.{
  subject_name, ancestor_matches, subject_matches, subject_matches_body,
  subject_matches_executable_with_ancestor_prefix, subject_matches_with_ancestor,
  subject_matches_within, subjects_allow,
}
use config_guard.Process.Identity.{from_executable, subject}
use config_guard.Prompt.Adapters.{non_interactive}
use config_guard.Prompt.Texts.{debug_reason}
use config_guard.Learning.{PathAlias}
use config_guard.Fanotify.Events.{has_flag, is_watched_path, is_excluded}
use config_guard.Fanotify.Guard.Loop.{handle_event, Facts, inspect_process_or_unknown}
use config_guard.Fanotify.Guard.Samples as Samples
use config_guard.Fanotify.Guard.Verdict.{IsAnswered}
use config_guard.Cli.Scope.{logical_policy_path, expand_scope_with_aliases, static_policy}
use config_guard.Cli.Settings.{parse_decision_reason}
use config_guard.Cli.Aliases.{
  is_within, is_within_alias, components-logical_policy_path, is_within-expand_scope_with_aliases,
  alias-guarded,
}
use config_guard.Std.FilePath.Parent.{parent}
use config_guard.Learning.Symlinks.{
  ReadDir, config_symlink_aliases, aliases_of, config_symlink_alias,
}
use config_guard.Fanotify.PromptResolution.{empty}
use config_guard.Fanotify.Events.{AccessPolicy}
use config_guard.Cli.Scope.{audit_home, find_home, canonicalize_scope_paths_in}
use config_guard.Cli.Settings.{Environment, load_policy_config, resolve_config_path}
use config_guard.Cli.Launch.{Launch, guard, run_guard, canonicalize_scope_paths}
use config_guard.Cli.Guarding.{run_guard-denies}
use config_guard.Cli.Enforcement.{static_policy-denies}
use config_guard.Cli.Reasons.{parse_decision_reason_iff}

program : Unit {0}
unfolding logical_policy_path has_flag is_watched_path any starts_with components list_beq
    component_beq file_name strip_prefix join from_components component_str owner_for max_by_key
    keep max_from allows is_excluded ancestor_matches subject_matches subject_matches_body
    subject_matches_executable_with_ancestor_prefix subject_matches_with_ancestor
    subject_matches_within subjects_allow split split_once Bytes.strip_prefix is_absolute is_prefix
    path_beq is_utf8 to_str subject_name inspect_process_or_unknown from_executable subject parent
    audit_home find_home config_symlink_aliases aliases_of config_symlink_alias
    canonicalize_scope_paths canonicalize_scope_paths_in load_policy_config resolve_config_path
program = tt

abbrev link : PathAlias
link = record { logical_root = path "/c/vim"; real_root = path "/dot/vim" }

abbrev other : PathAlias
other = record { logical_root = path "/c/git"; real_root = path "/dot/git" }

abbrev rc : FilePath
rc = path "/dot/vim/vimrc"

components-logical_policy_path_run :
    components (logical_policy_path rc ([] ++ link ∷ []))
    ≡ components (path "/c/vim") ++ normal (bytes "vimrc") ∷ []
unfolding program
components-logical_policy_path_run =
    components-logical_policy_path rc [] link [] (normal (bytes "vimrc") ∷ []) tt refl
      ((λ q. cc), (λ q. cc))

is_within-expand_scope_with_aliases_run :
    is_within rc (expand_scope_with_aliases (path "/c" ∷ []) (other ∷ link ∷ []))
    ≡ (is_within rc (path "/c" ∷ []) || is_within_alias rc (path "/c" ∷ []) (other ∷ link ∷ []))
is_within-expand_scope_with_aliases_run =
    is_within-expand_scope_with_aliases rc (path "/c" ∷ []) (other ∷ link ∷ [])

alias-guarded_example :
    (is_within rc (expand_scope_with_aliases (path "/c" ∷ []) (other ∷ link ∷ [])) ≡ true)
    × (starts_with (logical_policy_path rc (other ∷ link ∷ [])) (path "/c") ≡ true)
unfolding program
alias-guarded_example =
    alias-guarded rc (path "/c" ∷ []) (other ∷ []) link [] (path "/c") (refl, tt) refl
      ((λ q. cc), (λ q. cc)) (inl refl) refl

parse_decision_reason_iff_run :
    (parse_decision_reason (bytes "CrossOwnerRead") ≡ some cross_owner_read)
    ↔ (bytes "CrossOwnerRead" ≡ debug_reason cross_owner_read)
parse_decision_reason_iff_run = parse_decision_reason_iff (bytes "CrossOwnerRead") cross_owner_read

-- Only vim may open its directory.
abbrev vim_dir : OwnedPath
vim_dir = record {
  path = path "/c/vim";
  owner = bytes "vim";
  allowed_subjects = [];
  deny_non_owner = true;
}

abbrev config : PolicyConfig
config = record {
  owned_paths = vim_dir ∷ [];
  shared_paths = [];
  sensitive_paths = [];
  dev_tools = [];
  fail_open = true;
}

abbrev facts : Facts
facts = record Samples.facts { target = some rc }

static_policy-denies_example : IsAnswered Samples.io 5 0x10000 deny Samples.start (
    handle_event
      (path "/dot/vim" ∷ [])
      []
      (static_policy config (link ∷ []))
      non_interactive
      Samples.io
      true
      Samples.opened
      facts
      Samples.start)
unfolding program
static_policy-denies_example =
    static_policy-denies (path "/dot/vim" ∷ []) [] config (link ∷ []) non_interactive Samples.io
      true Samples.opened facts Samples.start 5 rc vim_dir refl refl refl refl refl refl refl refl

-- The configuration directory of a user, with one link in it.
abbrev config_dir : FilePath
config_dir = path "/home/u/.config"

abbrev found : ReadDir
found = λ dir. some (
    some (record {
      path = path "/home/u/.config/vim";
      is_symlink = some true;
      canonical = some (path "/dot/vim");
      canonical_is_dir = true;
    })
    ∷ [])

abbrev user_config : PolicyConfig
user_config = record config {
  owned_paths = record vim_dir { path = path "/home/u/.config/vim" } ∷ [];
}

abbrev env : Environment
env = record {
  home = some (bytes "/home/u");
  xdg_config_home = none;
  current_dir = some (path "/");
  canonicalize = λ p. some p;
  exists = λ p. false;
  read_to_string = λ p. some [];
  parse_config = λ text. some user_config;
}

run_guard-denies_example :
    (launch : Launch) × (a : AccessPolicy) × (run_guard env found
        (config_dir ∷ [])
        []
        (some (path "/etc/config.toml"))
        non_interactive
      ≡ some launch)
    × (launch.mode ≡ guard a non_interactive empty)
    × IsAnswered Samples.io 5 0x10000 deny Samples.start (
        handle_event launch.paths launch.excluded_paths a non_interactive Samples.io true
          Samples.opened facts Samples.start)
unfolding program
run_guard-denies_example =
    run_guard-denies env found (config_dir ∷ []) [] (some (path "/etc/config.toml")) non_interactive
      (config_dir ∷ []) [] user_config refl refl refl []
      (record { real_root = path "/dot/vim"; logical_root = path "/home/u/.config/vim" }) []
      config_dir rc (record vim_dir { path = path "/home/u/.config/vim" }) Samples.io true
      Samples.opened facts Samples.start 5 refl tt refl ((λ q. cc), (λ q. cc)) (inl refl) refl refl
      refl refl refl refl refl refl refl
