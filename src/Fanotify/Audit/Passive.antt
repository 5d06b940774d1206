-- ===== src/Fanotify/Audit/Passive.antt =====
-- src/fanotify/audit.rs and src/fanotify.rs: the audit modes forbid nothing.
use config_guard.Base.{
  ℕ, ◌≡◌, refl, ◌⊎◌, inl, inr, true, false, ◌&&◌, not, List, [], ◌∷◌, some, arith, if◌then◌else◌,
  Bool-cases, Option-cases,
}
use Prim.Native.Nat.{bit_or}
use config_guard.Base.Int.{pos}
use config_guard.Std.FilePath.{FilePath}
use config_guard.Policy.Types.{allow}
use config_guard.Fanotify.Events.{
  Effect, respond, close, Status, ok, err, Error, unresolved_target, unresolved_object, and_status,
  Io, has_flag, fan_q_overflow, fan_close_write, fan_close_nowrite, close_failed,
  ensure_event_descriptor, is_permission_event, response_code, is_watched_path, close_descriptor,
  respond_to_permission_event_fd,
}
use config_guard.Fanotify.Guard.Answers.{answer_calls}
use config_guard.Fanotify.Guard.Loop.{Metadata}
use config_guard.Fanotify.Audit.{Verdict}
use config_guard.Fanotify.Audit.Handler.{
  EventFacts, AuditState, AuditStep, is_audit, decide_audit_mode, respond_to_permission_event,
  respond_to_verdict, is_audited_exec, record_exec, handle_watched, handle_target,
  handle_event_with_descriptor, close_after, handle_event,
}
use config_guard.Fanotify.Audit.Verdicts.{IsPassive, decide_audit_mode-IsPassive}

-- What a handler leaves before the close: a result, and either the answer `Allow` to an event that
-- waits for one, or, with an error, no call.
abbrev allow_calls : ℕ → ℕ → List Effect
allow_calls fd mask = if is_permission_event mask then respond fd (response_code allow) ∷ [] else []

abbrev IsHarmless : ℕ → ℕ → AuditStep → Type 0
IsHarmless fd mask r =
    (is_audit r.state.mode ≡ true)
    × (st : Status) × (r.status ≡ some st)
    × ((r.effects ≡ allow_calls fd mask) ⊎ ((r.effects ≡ []) × (e : Error) × (st ≡ err e)))

respond-IsHarmless :
    (io : Io) (fd mask : ℕ) (s : AuditState)
    → is_audit s.mode ≡ true
    → IsHarmless fd mask (respond_to_permission_event io fd mask s allow)
unfolding respond_to_permission_event respond_to_permission_event_fd
respond-IsHarmless io fd mask s h = (h, _, refl, inl (ground arith))

respond_to_verdict-IsHarmless :
    (io : Io) (fd mask : ℕ) (v : Verdict) (s : AuditState)
    → IsPassive v
    → is_audit s.mode ≡ true
    → IsHarmless fd mask (respond_to_verdict io fd mask (v, s))
unfolding respond_to_verdict
respond_to_verdict-IsHarmless io fd mask v s (inl e) h =
    rw (e, respond_to_verdict) (respond-IsHarmless io fd mask s h)
respond_to_verdict-IsHarmless io fd mask v s (inr (x, e)) h =
    rw (e, respond_to_verdict) (h, _, refl, inr (refl, x, refl))

handle_watched-IsHarmless :
    (io : Io) (fd : ℕ) (m : Metadata) (target : FilePath) (facts : EventFacts) (s : AuditState)
    → is_audit s.mode ≡ true
    → IsHarmless fd m.mask (handle_watched io fd m target facts s)
unfolding handle_watched
handle_watched-IsHarmless io fd m target facts s h = elim (Option-cases facts.object) [
  | inl e ↦ rw (e, handle_watched, h) (h, _, refl, inr (refl, unresolved_object, refl))
  | inr (object, e) ↦
      let v = decide_audit_mode-IsPassive m target object facts s.mode s.caches h in
      ground (
        arith,
        e,
        h,
        respond_to_verdict-IsHarmless io fd m.mask (decide_audit_mode m target object facts s).0
            (decide_audit_mode m target object facts s).1 v.0 v.1,
      )
]

record_exec-is_audit :
    (m : Metadata) (target : FilePath) (facts : EventFacts) (s : AuditState)
    → is_audit (record_exec m target facts s).mode ≡ is_audit s.mode
unfolding record_exec
record_exec-is_audit m target facts s = ground arith

module _ (paths excluded_paths : List FilePath) (io : Io) (m : Metadata) (facts : EventFacts)
    (s : AuditState) (h : is_audit s.mode ≡ true) where
  handle_target-IsHarmless :
      (fd : ℕ) (target : FilePath)
      → IsHarmless fd m.mask (handle_target paths excluded_paths io fd m target facts s)
  unfolding handle_target
  handle_target-IsHarmless fd target =
      let s' = record_exec m target facts s in
      let h' : is_audit s'.mode ≡ true = ground (arith, record_exec-is_audit m target facts s, h) in
      let skip =
        is_audited_exec m s && not (has_flag m.mask (bit_or fan_close_nowrite fan_close_write)) in
      elim (Bool-cases skip) [
        | inl e ↦ rw (e, handle_target) (respond-IsHarmless io fd m.mask s' h')
        | inr e ↦ elim (Bool-cases (is_watched_path target paths excluded_paths)) [
          | inl w ↦ rw (e, handle_target, w) (handle_watched-IsHarmless io fd m target facts s' h')
          | inr w ↦ rw (e, handle_target, w) (respond-IsHarmless io fd m.mask s' h')
        ]
      ]

  handle_event_with_descriptor-IsHarmless :
      (fd : ℕ)
      → IsHarmless fd m.mask (handle_event_with_descriptor paths excluded_paths io fd m facts s)
  unfolding handle_event_with_descriptor
  handle_event_with_descriptor-IsHarmless fd = elim (Option-cases facts.target) [
    | inl e ↦ rw (e, handle_event_with_descriptor) (h, _, refl, inr (refl, unresolved_target, refl))
    | inr (target, e) ↦ rw (e, handle_event_with_descriptor) (handle_target-IsHarmless fd target)
  ]

  -- An event with a valid descriptor, of a queue that has not overflowed, in an audit mode, is
  -- handled without a panic, whatever procfs, the policy, the user and the kernel say, and the
  -- mode stays an audit mode. Its descriptor is closed, once and last. An event that waits for an
  -- answer gets Allow and never another, or, only with an error, no answer of this code.
  pub handle_event-forbids_nothing :
      (fd : ℕ)
      → m.fd ≡ pos fd
      → has_flag m.mask fan_q_overflow ≡ false
      → (is_audit (handle_event paths excluded_paths io m facts s).state.mode ≡ true)
        × (st : Status) × ((handle_event paths excluded_paths io m facts s).status ≡ some st)
        × (((handle_event paths excluded_paths io m facts s).effects ≡ answer_calls fd m.mask allow)
            ⊎ (((handle_event paths excluded_paths io m facts s).effects ≡ close fd ∷ [])
                × (e : Error) × (st ≡ err e)))
  unfolding handle_event close_after close_descriptor ensure_event_descriptor answer_calls
  handle_event-forbids_nothing fd e q =
      let (a, st, b, c) = handle_event_with_descriptor-IsHarmless fd in
      (
        ground (arith, e, q, b, a),
        and_status st (if io.closes fd then ok else err close_failed),
        ground (arith, e, q, b),
        elim c [
          | inl allowed ↦ inl (ground (arith, e, q, b, allowed))
          | inr (none_made, x, y) ↦ inr (ground (arith, e, q, b, none_made), x, ground (arith, y))
        ],
      )
