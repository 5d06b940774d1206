-- ===== src/Fanotify/Guard/Verdict.antt =====
-- src/fanotify/guard.rs: what the kernel is told of an event, by what the policy says of it.
use config_guard.Base.{
  ℕ, ◌≡◌, refl, inl, inr, Bool, true, false, List, [], ◌∷◌, Option, none, some, arith,
}
use config_guard.Base.Int.{pos}
use config_guard.Std.FilePath.{FilePath}
use config_guard.Policy.Types.{Decision, allow, prompt, DecisionReason, ProcessSubject}
use config_guard.Process.Identity as Identity
use config_guard.Prompt.Types.{Prompt}
use config_guard.Fanotify.PromptResolution.Key as Key
use config_guard.Fanotify.PromptResolution.Key.{PromptDecisionKey}
use config_guard.Fanotify.PromptResolution.{
  get, immediate_prompt_decision, allows_authorization, cached_prompt_decision,
}
use config_guard.Fanotify.PromptResolution.Reuse.{IsFinal}
use config_guard.Fanotify.Events.{
  close, err, policy_failed, Io, AccessPolicy, has_flag, fan_q_overflow, is_watched_path,
  access_kind, close_descriptor, respond_and_close_event,
}
use config_guard.Fanotify.Guard.Types.{PromptCoordinator, Step}
use config_guard.Fanotify.Guard.Coordinator.{immediate_decision}
use config_guard.Fanotify.Guard.Loop.{
  Metadata, Facts, inspect_process_or_unknown, evaluate_guard_access, resolve_guard_action,
  prepare_event_action, act, handle_event,
}
use config_guard.Fanotify.Guard.Answers.{
  answer_calls, carries_out, is_ok, respond_and_close_event-calls,
}
use config_guard.Fanotify.Guard.Events.{handle_event-act}

-- The event is answered with a decision and closed at once, the coordinator stays as it is, and the
-- result is `Ok` exactly if the kernel carries out the calls.
abbrev pub IsAnswered : Io → ℕ → ℕ → Decision → PromptCoordinator → Option Step → Type 0
IsAnswered io fd mask d c r =
    (s : Step) × (r ≡ some s)
    × (s.state ≡ c)
    × (s.effects ≡ answer_calls fd mask d)
    × (is_ok s.status ≡ carries_out io (answer_calls fd mask d))

module _ (paths excluded_paths : List FilePath) (policy : AccessPolicy) (p : Prompt) (io : Io)
    (alive : Bool) (m : Metadata) (facts : Facts) (c : PromptCoordinator) (fd : ℕ)
    (e : m.fd ≡ pos fd) (h : has_flag m.mask fan_q_overflow ≡ false) (target : FilePath)
    (t : facts.target ≡ some target) where
  abbrev handled : Option Step
  handled = handle_event paths excluded_paths policy p io alive m facts c

  abbrev subject : ProcessSubject
  subject = Identity.subject (inspect_process_or_unknown facts.process m.pid)

  answered :
      (d : Decision)
      → handled
        ≡ some (record {
          state = c;
          effects = (respond_and_close_event io fd m.mask d).0;
          status = (respond_and_close_event io fd m.mask d).1;
        })
      → IsAnswered io fd m.mask d c handled
  answered d q = (
    _,
    q,
    refl,
    (respond_and_close_event-calls io fd m.mask d).0,
    (respond_and_close_event-calls io fd m.mask d).1,
  )

  -- An event with a valid descriptor, of a queue that has not overflowed, on a path that is not
  -- watched, is allowed and closed at once, whatever the policy would say; the coordinator stays
  -- as it is.
  pub handle_event-unwatched :
      is_watched_path target paths excluded_paths ≡ false → IsAnswered io fd m.mask allow c handled
  unfolding prepare_event_action act
  handle_event-unwatched w = answered allow (
      ground
        (arith, handle_event-act paths excluded_paths policy p io alive m facts c fd e h, t, w))

  -- An event with a valid descriptor, of a queue that has not overflowed, on a watched path: if
  -- the policy decides Allow or Deny, that is what the kernel is told, and the descriptor is
  -- closed at once. No one is asked, no earlier answer or authorization overrules it, the
  -- coordinator stays as it is, and the result is Ok exactly if the kernel carries out the calls.
  pub handle_event-verdict :
      (d : Decision)
      → is_watched_path target paths excluded_paths ≡ true
      → policy.decide subject target (access_kind m.mask) ≡ some d
      → IsFinal d
      → IsAnswered io fd m.mask d c handled
  unfolding prepare_event_action act evaluate_guard_access resolve_guard_action immediate_decision
      immediate_prompt_decision
  handle_event-verdict d w v (inl f) = answered d (
      ground (
        arith,
        handle_event-act paths excluded_paths policy p io alive m facts c fd e h,
        t,
        w,
        v,
        f,
      ))
  handle_event-verdict d w v (inr f) = answered d (
      ground (
        arith,
        handle_event-act paths excluded_paths policy p io alive m facts c fd e h,
        t,
        w,
        v,
        f,
      ))

  -- An event with a valid descriptor, of a queue that has not overflowed, on a watched path: if
  -- the policy fails, the descriptor is closed without an answer, the coordinator stays as it is,
  -- and the result is the failure of the policy.
  pub handle_event-policy_error :
      is_watched_path target paths excluded_paths ≡ true
      → policy.decide subject target (access_kind m.mask) ≡ none
      → handled ≡ some (record { state = c; effects = close fd ∷ []; status = err policy_failed })
  unfolding prepare_event_action act evaluate_guard_access close_descriptor
  handle_event-policy_error w v =
      ground
        (arith, handle_event-act paths excluded_paths policy p io alive m facts c fd e h, t, w, v)

  -- An event with a valid descriptor, of a queue that has not overflowed, on a watched path, about
  -- which the policy has a question: if an earlier answer is kept under its key, and no owner is
  -- found for an authorization, that answer is given and the descriptor is closed at once; the
  -- coordinator stays as it is.
  pub handle_event-remembered :
      (r : DecisionReason) (default : Decision) (scope : FilePath) (k : PromptDecisionKey)
      (d : Decision)
      → is_watched_path target paths excluded_paths ≡ true
      → policy.decide subject target (access_kind m.mask) ≡ some (prompt r default scope)
      → Key.new
          (inspect_process_or_unknown facts.process m.pid)
          (access_kind m.mask)
          (prompt r default scope)
        ≡ some k
      → policy.authorization_owner_subject subject ≡ none
      → get c.prompt_cache k ≡ some d
      → IsAnswered io fd m.mask d c handled
  unfolding prepare_event_action act evaluate_guard_access resolve_guard_action immediate_decision
      immediate_prompt_decision allows_authorization cached_prompt_decision
  handle_event-remembered r default scope k d w v n o g = answered d (
      ground (
        arith,
        handle_event-act paths excluded_paths policy p io alive m facts c fd e h,
        t,
        w,
        v,
        n,
        o,
        g,
      ))
