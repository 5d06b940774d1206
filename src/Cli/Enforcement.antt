-- ===== src/Cli/Enforcement.antt =====
-- src/main.rs, src/policy.rs and src/fanotify/guard.rs together: what a strict rule of the policy file does to an
-- event of the guard.
use config_guard.Base.{ℕ, ◌≡◌, refl, ap, inr, Bool, true, false, List, some}
use config_guard.Base.Int.{pos}
use config_guard.Std.FilePath.{FilePath}
use config_guard.Policy.Types.{PolicyConfig, OwnedPath, ProcessSubject, deny}
use config_guard.Policy.Subject.{subject_name}
use config_guard.Policy.Decide.{is_gitignore, owner_for, allows}
use config_guard.Policy.Precedence.{decide-deny_iff}
use config_guard.Process.Identity as Identity
use config_guard.Prompt.Types.{Prompt}
use config_guard.Learning.{PathAlias}
use config_guard.Fanotify.Events.{Io, has_flag, fan_q_overflow, is_watched_path, access_kind}
use config_guard.Fanotify.Guard.Types.{PromptCoordinator}
use config_guard.Fanotify.Guard.Loop.{Metadata, Facts, inspect_process_or_unknown, handle_event}
use config_guard.Fanotify.Guard.Verdict.{IsAnswered, handle_event-verdict}
use config_guard.Cli.Scope.{static_policy, logical_policy_path}

-- The subject that the guard makes of an event.
abbrev pub event_subject : Metadata → Facts → ProcessSubject
event_subject m facts = Identity.subject (inspect_process_or_unknown facts.process m.pid)

-- Under the policy that the program sets up, a process that the strict and most specific rule for the logical path does
-- not admit is denied, whatever prompt, answers and worker there are: the kernel is told Deny, the
-- descriptor is closed, and nothing else changes. The event is one with a descriptor, of a queue that has not
-- overflowed, on a watched path that is no .gitignore.
pub static_policy-denies :
    (paths excluded_paths : List FilePath) (config : PolicyConfig) (aliases : List PathAlias)
    (p : Prompt) (io : Io) (alive : Bool) (m : Metadata) (facts : Facts) (c : PromptCoordinator)
    (fd : ℕ) (target : FilePath) (o : OwnedPath)
    → m.fd ≡ pos fd
    → has_flag m.mask fan_q_overflow ≡ false
    → facts.target ≡ some target
    → is_watched_path target paths excluded_paths ≡ true
    → is_gitignore (logical_policy_path target aliases) ≡ false
    → owner_for config (logical_policy_path target aliases) ≡ some o
    → o.deny_non_owner ≡ true
    → allows o (event_subject m facts) (subject_name (event_subject m facts)) ≡ false
    → IsAnswered io fd m.mask deny c
        (handle_event paths excluded_paths (static_policy config aliases) p io alive m facts c)
unfolding static_policy
static_policy-denies paths excluded_paths config aliases p io alive m facts c fd target o e h t w g
      own strict out =
    let denied =
      (decide-deny_iff config (event_subject m facts) (logical_policy_path target aliases)
          (access_kind m.mask)).1
        (g, (o, own, strict, out)) in
    handle_event-verdict paths excluded_paths (static_policy config aliases) p io alive m facts c fd
      e h target t deny w (ap some denied) (inr refl)
