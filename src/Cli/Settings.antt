-- ===== src/Cli/Settings.antt =====
-- src/main.rs: the policy file, and the values that the command line names.
use config_guard.Base.{Bool, Option, none, some, if◌then◌else◌, and_then, or_else, list_beq, nat_eq}
use config_guard.Std.Bytes.{Bytes, bytes}
use config_guard.Std.FilePath.{FilePath, path, to_path, join}
use config_guard.Policy.Types.{
  PolicyConfig, Decision, allow, deny, DecisionReason, cross_owner_read, cross_owner_write,
  sensitive_read_by_dev_tool, sensitive_write,
}
use config_guard.Policy.Defaults.{default_config}
use mathlib.Core.Option

-- The environment of the program: its variables, its files, and the parser of policy files, which is that of
-- another library. `none` is a failure.
pub record Environment : Type 0 where
  pub home : Option Bytes
  pub xdg_config_home : Option Bytes
  pub current_dir : Option FilePath
  pub canonicalize : FilePath → Option FilePath
  pub exists : FilePath → Bool
  pub read_to_string : FilePath → Option Bytes
  pub parse_config : Bytes → Option PolicyConfig

unfoldable pub config_home : Environment → Option FilePath
config_home env =
    or_else (Option.map to_path env.xdg_config_home)
      (Option.map (λ home. join (to_path home) (path ".config")) env.home)

unfoldable pub default_config_path_in : Environment → FilePath → Option FilePath
default_config_path_in env home =
    let file = join (join home (path "config-guard")) (path "config.toml") in
    if env.exists file then some file else none

unfoldable pub default_config_path : Environment → Option FilePath
default_config_path env = and_then (config_home env) (default_config_path_in env)

unfoldable pub resolve_config_path : Environment → Option FilePath → Option FilePath
resolve_config_path env config = or_else config (default_config_path env)

-- Without a policy file the defaults hold; a file that cannot be read or parsed is an error.
unfoldable pub load_policy_config : Environment → Option FilePath → Option PolicyConfig
load_policy_config env config = elim (resolve_config_path env config) [
  | none ↦ some (default_config (Option.map to_path env.home))
  | some file ↦ and_then (env.read_to_string file) env.parse_config
]

unfoldable pub parse_decision_reason : Bytes → Option DecisionReason
parse_decision_reason value =
    if list_beq value (bytes "CrossOwnerRead")
    then some cross_owner_read
    else if list_beq value (bytes "CrossOwnerWrite")
    then some cross_owner_write
    else if list_beq value (bytes "SensitiveReadByDevTool")
    then some sensitive_read_by_dev_tool
    else if list_beq value (bytes "SensitiveWrite")
    then some sensitive_write
    else none

unfoldable pub parse_decision : Bytes → Option Decision
parse_decision value =
    if list_beq value (bytes "Allow")
    then some allow
    else if list_beq value (bytes "Deny")
    then some deny
    else none
