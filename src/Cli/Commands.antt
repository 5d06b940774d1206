-- ===== src/Cli/Commands.antt =====
-- src/main.rs: the commands, up to the call that runs the loops of the guard and of the audit.
use config_guard.Base.{ℕ, Bool, List, [], ◌∷◌, Option, none, some}
use config_guard.Std.Bytes.{Bytes, bytes}
use config_guard.Std.FilePath.{FilePath}
use config_guard.Policy.Types.{Decision, allow, deny, prompt, DecisionReason, ProcessSubject}
use config_guard.Prompt.Types.{Env, PromptRequest, Prompt}
use config_guard.Prompt.Types as Prompt
use config_guard.Prompt.Authd.{Spawn, Socket, authd_prompt, build}
use config_guard.Learning.Symlinks.{ReadDir}
use config_guard.Cli.Launch.{Launch, run_audit_mode, run_guard}
use config_guard.Cli.Plan.{run_reconcile}
use config_guard.Cli.Settings.{Environment, config_home}
use config_guard.Reconcile.{Disk, Change}
use mathlib.Core.Option

unfoldable pub exit_code : Decision → ℕ
exit_code allow = 0
exit_code deny = 1
exit_code (prompt reason default scope) = 1

-- The exit code of `test-prompt`; `none` is an error of the prompt.
unfoldable pub run_test_prompt :
    Socket → Env → FilePath → FilePath → DecisionReason → Decision → Option ℕ
run_test_prompt socket env subject_exe path reason default_decision =
    let subject : ProcessSubject = record {
      executable = subject_exe;
      command = bytes "config-guard" ∷ bytes "test-prompt" ∷ [];
      ancestors = [];
    } in
    let request : PromptRequest = record {
      subject = subject;
      target_path = path;
      reason = reason;
      default_decision = default_decision;
      env = env;
      authorization = none;
    } in
    Option.map (λ answer. exit_code (Prompt.into_decision answer))
      ((authd_prompt socket).ask_answer request)

-- The commands, with the arguments that each reads; of the file for what is learned it only counts
-- whether it is given.
pub data Command : Type 0 where
  audit :
      (paths excluded_paths : List FilePath) (config : Option FilePath) (learns : Bool) → Command
  audit_prompt :
      (paths excluded_paths : List FilePath) (config prompt_command : Option FilePath)
      (timeout_seconds : ℕ) (learns : Bool)
      → Command
  guard :
      (paths excluded_paths : List FilePath) (config prompt_command : Option FilePath)
      (timeout_seconds : ℕ)
      → Command
  reconcile : (config_home config : Option FilePath) (apply : Bool) → Command
  test_prompt :
      (subject_exe path : FilePath) (reason : DecisionReason) (default_decision : Decision)
      → Command

-- What a command does: it starts a loop, prints a plan, or ends with a code.
pub data Outcome : Type 0 where
  launch : Launch → Outcome
  printed : Option (List Bytes) → List Change → Outcome
  exited : ℕ → Outcome

-- What the commands meet outside: the socket of authd and the prompt commands by their timeouts, and the
-- file system as `reconcile` sees it.
pub record World : Type 0 where
  pub env : Environment
  pub read_dir : ReadDir
  pub socket : ℕ → Socket
  pub spawn : FilePath → ℕ → Spawn
  pub disk : Disk
  pub path_binary_dirs : List FilePath
  pub list_dir : FilePath → Option (List (Option FilePath))
  pub wayland_env : Env

abbrev pub default_authd_prompt_timeout_seconds : ℕ
default_authd_prompt_timeout_seconds = 35

abbrev pub prompt_of : World → Option FilePath → ℕ → Prompt
prompt_of w prompt_command timeout =
    build (Option.map (λ command. w.spawn command timeout) prompt_command) (w.socket timeout)

-- `none` is an error.
unfoldable pub run_command : World → Command → Option Outcome
run_command w (Command.audit paths excluded config learns) =
    Option.map launch (run_audit_mode w.env w.read_dir paths excluded config none learns)
run_command w (Command.audit_prompt paths excluded config prompt_command timeout learns) =
    Option.map launch (
      run_audit_mode w.env w.read_dir paths excluded config
        (some (prompt_of w prompt_command timeout)) learns)
run_command w (Command.guard paths excluded config prompt_command timeout) =
    Option.map launch
      (run_guard w.env w.read_dir paths excluded config (prompt_of w prompt_command timeout))
run_command w (reconcile config_home config apply) =
    let run = run_reconcile w.env w.disk w.path_binary_dirs w.list_dir config_home config apply in
    some (printed run.0 run.1)
run_command w (test_prompt subject_exe path reason default_decision) = Option.map exited (
    run_test_prompt (w.socket default_authd_prompt_timeout_seconds) w.wayland_env subject_exe path
      reason default_decision)
