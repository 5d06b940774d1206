-- ===== src/Fanotify/Guard/Loop.antt =====
-- src/fanotify/guard.rs: one event of the guard loop.
use config_guard.Base.{ℕ, Bool, List, [], Option, none, some, and_then, unwrap_or, if◌then◌else◌}
use config_guard.Base.Int.{ℤ, pos, negsuc}
use config_guard.Std.FilePath.{FilePath}
use config_guard.Policy.Types.{ProcessSubject, Decision, allow, deny, prompt}
use config_guard.Process.Identity as Identity
use config_guard.Process.Identity.{ProcessIdentity}
use config_guard.Prompt.Types.{AncestryAuthorization, Env, Prompt}
use config_guard.Prompt.Ancestry as Ancestry
use config_guard.Fanotify.PromptResolution.Key as Key
use config_guard.Fanotify.PromptResolution.Key.{PromptDecisionKey}
use config_guard.Fanotify.Events.{
  ok, err, and_status, Error, unresolved_target, policy_failed, Io, AccessPolicy,
  ensure_event_descriptor, is_watched_path, access_kind, close_descriptor, respond_and_close_event,
}
use config_guard.Fanotify.Guard.Types.{PromptSpec, PromptCoordinator, Step}
use config_guard.Fanotify.Guard.Coordinator.{immediate_decision, queue_prompt}
use mathlib.Core.Option

-- `fanotify_event_metadata`, as far as the loop reads it.
pub record Metadata : Type 0 where
  pub mask : ℕ
  pub fd : ℤ
  pub pid : ℕ

-- What procfs says of an event: the path behind its descriptor, its process, and the graphical
-- session of that process.
pub record Facts : Type 0 where
  pub target : Option FilePath
  pub process : Option ProcessIdentity
  pub env : Env

pub record GuardEvaluation : Type 0 where
  pub subject : ProcessSubject
  pub prompt_key : Option PromptDecisionKey
  pub authorization : Option AncestryAuthorization
  pub policy_decision : Decision

pub data GuardAction : Type 0 where
  respond_with : Decision → GuardAction
  prompt_for : PromptSpec → GuardAction

unfoldable pub inspect_process_or_unknown : Option ProcessIdentity → ℕ → ProcessIdentity
inspect_process_or_unknown inspected pid = unwrap_or inspected (Identity.unknown pid)

-- `none` is an error of the policy.
unfoldable pub evaluate_guard_access :
    AccessPolicy → Metadata → Facts → FilePath → Option GuardEvaluation
evaluate_guard_access policy m facts target =
    let access = access_kind m.mask in
    let process = inspect_process_or_unknown facts.process m.pid in
    let subject = Identity.subject process in
    Option.map
      (λ d. record {
        subject = subject;
        prompt_key = Key.new process access d;
        authorization =
            and_then (policy.authorization_owner_subject subject)
              (λ owner. Ancestry.new process owner d);
        policy_decision = d;
      })
      (policy.decide subject target access)

-- `none` is the panic of `unreachable!`.
unfoldable pub spec_of : FilePath → GuardEvaluation → Env → Decision → Option PromptSpec
spec_of target e env allow = none
spec_of target e env deny = none
spec_of target e env (prompt reason default scope) = some (record {
  key = e.prompt_key;
  authorization = e.authorization;
  subject = e.subject;
  target_path = target;
  reason = reason;
  default_decision = default;
  env = env;
})

unfoldable pub prompt_spec : FilePath → GuardEvaluation → Env → Option PromptSpec
unfolding spec_of
prompt_spec target e env = spec_of target e env e.policy_decision

unfoldable pub resolve_guard_action :
    FilePath
    → GuardEvaluation
    → Env
    → Prompt
    → PromptCoordinator
    → Option GuardAction × PromptCoordinator
resolve_guard_action target e env p c =
    let now = immediate_decision c p e.prompt_key e.authorization env e.policy_decision in
    elim now.0 [
      | some d ↦ (some (respond_with d), now.1)
      | none ↦ (Option.map prompt_for (prompt_spec target e env), now.1)
    ]

-- The result of `prepare_event_action`: an error, a panic, or an action; with the coordinator.
pub data Prepared : Type 0 where
  refused : Error → Prepared
  panicked : Prepared
  prepared : GuardAction → Prepared

abbrev prepared_or_panic : Option GuardAction → Prepared
prepared_or_panic none = panicked
prepared_or_panic (some a) = prepared a

unfoldable pub prepare_event_action :
    Metadata
    → Facts
    → List FilePath
    → List FilePath
    → AccessPolicy
    → Prompt
    → PromptCoordinator
    → Prepared × PromptCoordinator
prepare_event_action m facts paths excluded_paths policy p c = elim facts.target [
  | none ↦ (refused unresolved_target, c)
  | some target ↦
      if is_watched_path target paths excluded_paths
      then elim (evaluate_guard_access policy m facts target) [
        | none ↦ (refused policy_failed, c)
        | some e ↦
            let r = resolve_guard_action target e facts.env p c in (prepared_or_panic r.0, r.1)
      ]
      else (prepared (respond_with allow), c)
]

-- The action taken on an event; `none` is a panic.
unfoldable pub act : Io → Bool → ℕ → ℕ → Prepared × PromptCoordinator → Option Step
act io worker_alive fd mask (prepared (respond_with d), c) =
    let answered = respond_and_close_event io fd mask d in
    some (record { state = c; effects = answered.0; status = answered.1 })
act io worker_alive fd mask (prepared (prompt_for spec), c) =
    some (queue_prompt io worker_alive c fd mask spec)
act io worker_alive fd mask (refused e, c) =
    let closed = close_descriptor io fd in
    some (record { state = c; effects = closed.0; status = and_status (err e) closed.1 })
act io worker_alive fd mask (panicked, c) = none

module _ (paths excluded_paths : List FilePath) (policy : AccessPolicy) (p : Prompt) where
  -- A bad descriptor ends the loop before anything is done with the event.
  unfoldable pub handle_event : Io → Bool → Metadata → Facts → PromptCoordinator → Option Step
  handle_event io worker_alive m facts c = elim (ensure_event_descriptor m.mask m.fd) [
    | err e ↦ some (record { state = c; effects = []; status = err e })
    | ok ↦ elim m.fd [
      | negsuc n ↦ none
      | pos fd ↦
          act io worker_alive fd m.mask
            (prepare_event_action m facts paths excluded_paths policy p c)
    ]
  ]
