-- ===== src/Fanotify/Audit/Handler.antt =====
-- src/fanotify.rs: the handler of one event in the audit modes.
use config_guard.Base.{
  ℕ, Bool, true, false, List, [], ◌++◌, Option, none, some, if◌then◌else◌, ◌&&◌, not,
}
use Prim.Native.Nat.{bit_or}
use config_guard.Base.Int.{pos, negsuc}
use config_guard.Std.FilePath.{FilePath}
use config_guard.Policy.Types.{Decision, allow}
use config_guard.Prompt.Types.{Prompt}
use config_guard.Learning.{AuditLearner}
use config_guard.Fanotify.PromptResolution.{PromptDecisionCache}
use config_guard.Fanotify.AuditIdentity.{AuditObjectId}
use config_guard.Fanotify.AuditProcess.{ProcessGeneration}
use config_guard.Fanotify.Events.{
  Effect, Status, ok, err, and_status, unresolved_target, unresolved_object, Io, AccessPolicy,
  has_flag, fan_open_exec, fan_close_write, fan_close_nowrite, ensure_event_descriptor,
  is_watched_path, close_descriptor, respond_to_permission_event_fd,
}
use config_guard.Fanotify.Guard.Loop.{Metadata}
use config_guard.Fanotify.Audit.{
  AuditCaches, AuditFacts, Verdict, verdict, failed, panic, record_exec_identity, decide_metadata,
  decide_metadata_prompt,
}

-- `Mode`, with what each mode changes.
pub data Mode : Type 0 where
  audit : Option AuditLearner → Option AccessPolicy → Mode
  audit_prompt : Option AuditLearner → AccessPolicy → Prompt → PromptDecisionCache → Mode
  guard : Mode

pub record EventFacts : Type 0 where
  pub target : Option FilePath
  pub object : Option AuditObjectId
  pub generation : Option ProcessGeneration
  pub audit_facts : AuditFacts

-- `EventRuntime` and the mode: the state of the loop.
pub record AuditState : Type 0 where
  pub mode : Mode
  pub caches : AuditCaches

-- What a call leaves: the state, the system calls, and the result; `none` is a panic.
pub record AuditStep : Type 0 where
  pub state : AuditState
  pub effects : List Effect
  pub status : Option Status

unfoldable pub is_audit : Mode → Bool
is_audit (audit l p) = true
is_audit (audit_prompt l policy p cache) = true
is_audit guard = false

-- `decide_event` with an object, which the audit modes always have.
unfoldable pub decide_audit_mode :
    Metadata → FilePath → AuditObjectId → EventFacts → AuditState → Verdict × AuditState
decide_audit_mode m target object facts s = elim s.mode [
  | audit learner policy ↦
      let r =
        decide_metadata policy m target object facts.generation facts.audit_facts learner
          s.caches in
      (r.0, record { mode = audit r.1 policy; caches = r.2 })
  | audit_prompt learner policy p cache ↦
      let r =
        decide_metadata_prompt policy (some p) m target object facts.generation facts.audit_facts
          (record { learner = learner; prompt_cache = cache }) s.caches in
      (r.0, record { mode = audit_prompt r.1.learner policy p r.1.prompt_cache; caches = r.2 })
  | guard ↦ (panic, s)
]

unfoldable pub respond_to_permission_event : Io → ℕ → ℕ → AuditState → Decision → AuditStep
respond_to_permission_event io fd mask s d =
    let r = respond_to_permission_event_fd io fd mask d in
    record { state = s; effects = r.0; status = some r.1 }

-- The answer that follows a verdict.
unfoldable pub respond_to_verdict : Io → ℕ → ℕ → Verdict × AuditState → AuditStep
unfolding respond_to_permission_event
respond_to_verdict io fd mask (verdict d, s) = respond_to_permission_event io fd mask s d
respond_to_verdict io fd mask (failed e, s) = record {
  state = s;
  effects = [];
  status = some (err e);
}
respond_to_verdict io fd mask (panic, s) = record { state = s; effects = []; status = none }

-- Whether the event is an `exec` in an audit mode.
unfoldable pub is_audited_exec : Metadata → AuditState → Bool
unfolding is_audit
is_audited_exec m s = is_audit s.mode && has_flag m.mask fan_open_exec

unfoldable pub record_exec : Metadata → FilePath → EventFacts → AuditState → AuditState
unfolding is_audited_exec
record_exec m target facts s =
    if is_audited_exec m s
    then record s {
      caches = record {
        identities = s.caches.identities;
        processes =
            record_exec_identity m.pid target facts.generation facts.audit_facts s.caches.processes;
      };
    }
    else s

unfoldable pub handle_watched : Io → ℕ → Metadata → FilePath → EventFacts → AuditState → AuditStep
unfolding is_audit respond_to_verdict
handle_watched io fd m target facts s =
    if is_audit s.mode
    then elim facts.object [
      | none ↦ record { state = s; effects = []; status = some (err unresolved_object) }
      | some object ↦ respond_to_verdict io fd m.mask (decide_audit_mode m target object facts s)
    ]
    else record { state = s; effects = []; status = none }

module _ (paths excluded_paths : List FilePath) (io : Io) where
  unfoldable pub handle_target : ℕ → Metadata → FilePath → EventFacts → AuditState → AuditStep
  unfolding respond_to_permission_event handle_watched record_exec is_audited_exec
  handle_target fd m target facts s =
      let s' = record_exec m target facts s in
      if is_audited_exec m s && not (has_flag m.mask (bit_or fan_close_nowrite fan_close_write))
      then respond_to_permission_event io fd m.mask s' allow
      else if is_watched_path target paths excluded_paths
      then handle_watched io fd m target facts s'
      else respond_to_permission_event io fd m.mask s' allow

  unfoldable pub handle_event_with_descriptor : ℕ → Metadata → EventFacts → AuditState → AuditStep
  unfolding handle_target
  handle_event_with_descriptor fd m facts s = elim facts.target [
    | none ↦ record { state = s; effects = []; status = some (err unresolved_target) }
    | some target ↦ handle_target fd m target facts s
  ]

  -- `result.and(close_result)`; a panic closes nothing.
  unfoldable pub close_after : ℕ → AuditStep → AuditStep
  close_after fd r = elim r.status [
    | none ↦ r
    | some status ↦
        let closed = close_descriptor io fd in
        record {
          state = r.state;
          effects = r.effects ++ closed.0;
          status = some (and_status status closed.1);
        }
  ]

  unfoldable pub handle_event : Metadata → EventFacts → AuditState → AuditStep
  unfolding close_after
  handle_event m facts s = elim (ensure_event_descriptor m.mask m.fd) [
    | err e ↦ record { state = s; effects = []; status = some (err e) }
    | ok ↦ elim m.fd [
      | negsuc n ↦ record { state = s; effects = []; status = none }
      | pos fd ↦ close_after fd (handle_event_with_descriptor fd m facts s)
    ]
  ]
