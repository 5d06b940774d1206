-- ===== src/Fanotify/Guard/Turns.antt =====
-- src/fanotify/guard.rs: any number of turns of the event loop.
use config_guard.Base.{
  ℕ, ◌≡◌, refl, inl, inr, Bool, false, List, [], ◌∷◌, some, arith, Bool-cases, Option-cases,
}
use config_guard.Base.Int.{ℤ, pos, negsuc}
use config_guard.Std.FilePath.{FilePath}
use config_guard.Prompt.Types.{Prompt}
use config_guard.Fanotify.Events.{
  Status, ok, err, queue_overflow, invalid_descriptor, Io, AccessPolicy, ensure_event_descriptor,
  has_flag, fan_q_overflow, close_descriptor, poll_failed,
}
use config_guard.Fanotify.Guard.Types.{PromptCoordinator, Step}
use config_guard.Fanotify.Guard.Loop.{
  Metadata, Facts, respond_with, prompt_for, Prepared, refused, panicked, prepared,
  prepare_event_action, act, handle_event,
}
use config_guard.Fanotify.Guard.Poll.{
  GuardActivity, wait_for_activity, Arrival, Turn, handle_batch, completions_turn, events_turn,
  turn, run_event_loop,
}
use config_guard.Fanotify.Guard.Answers.{
  closes_of, closes_of-answer_calls, respond_and_close_event-calls,
}
use config_guard.Fanotify.Guard.Invariant.{IsWellFormed}
use config_guard.Fanotify.Guard.Within.{
  IsWithin, nothing, one, arrives, arrivals, all_arrivals, followed_by-IsWithin,
  process_completions-IsWithin, queue_prompt-IsWithin,
}
use config_guard.Fanotify.Guard.Events.{
  cached-IsWellFormed, handle_event-act, prepare_event_action-panicked, prepare_event_action-state,
}

act-IsWithin :
    (io : Io) (alive : Bool) (fd mask : ℕ) (c : PromptCoordinator) (a : Prepared)
    → IsWellFormed c
    → ¬ (a ≡ panicked)
    → (s : Step) × (act io alive fd mask (a, c) ≡ some s) × IsWithin (one fd) c s
unfolding act close_descriptor closes_of
act-IsWithin io alive fd mask c (prepared (respond_with d)) i n = (
  _,
  refl,
  (
    i,
    λ g.
        rw ((respond_and_close_event-calls io fd mask d).0)
          (omega (arith, closes_of-answer_calls g fd mask d)),
  ),
)
act-IsWithin io alive fd mask c (prepared (prompt_for spec)) i n =
    (_, refl, queue_prompt-IsWithin io alive c fd mask spec i)
act-IsWithin io alive fd mask c (refused e) i n = (_, refl, (i, λ g. ground arith))
act-IsWithin io alive fd mask c panicked i n = absurd (n refl)

module _ (paths excluded_paths : List FilePath) where
  module _ (policy : AccessPolicy) (p : Prompt) (io : Io) where
    -- An event with a descriptor.
    valid-IsWithin :
        (alive : Bool) (m : Metadata) (facts : Facts) (c : PromptCoordinator) (fd : ℕ)
        → m.fd ≡ pos fd
        → has_flag m.mask fan_q_overflow ≡ false
        → IsWellFormed c
        → (s : Step) × (handle_event paths excluded_paths policy p io alive m facts c ≡ some s)
          × IsWithin (one fd) c s
    valid-IsWithin alive m facts c fd e h i =
        let r = prepare_event_action m facts paths excluded_paths policy p c in
        let (cache, q) = prepare_event_action-state paths excluded_paths policy p m facts c in
        let c' = record c { prompt_cache = cache } in
        let (s, t, v) =
          act-IsWithin io alive fd m.mask c' r.0 (cached-IsWellFormed c cache i)
            (prepare_event_action-panicked paths excluded_paths policy p m facts c) in
        (
          s,
          ground (
            arith,
            handle_event-act paths excluded_paths policy p io alive m facts c fd e h,
            q,
            t,
          ),
          v,
        )

    -- Any event: one without a descriptor, or of a queue that overflowed, changes nothing.
    handle_event-IsWithin :
        (alive : Bool) (m : Metadata) (facts : Facts) (c : PromptCoordinator) (fd : ℤ)
        → m.fd ≡ fd
        → IsWellFormed c
        → (s : Step) × (handle_event paths excluded_paths policy p io alive m facts c ≡ some s)
          × IsWithin (arrives fd) c s
    unfolding handle_event ensure_event_descriptor closes_of
    handle_event-IsWithin alive m facts c (negsuc n) e i =
        elim (Bool-cases (has_flag m.mask fan_q_overflow)) [
          | inl h ↦ (
            record { state = c; effects = []; status = err queue_overflow },
            ground (arith, e, h),
            (i, λ g. omega arith),
          )
          | inr h ↦ (
            record { state = c; effects = []; status = err invalid_descriptor },
            ground (arith, e, h),
            (i, λ g. omega arith),
          )
        ]
    handle_event-IsWithin alive m facts c (pos fd) e i =
        elim (Bool-cases (has_flag m.mask fan_q_overflow)) [
          | inl h ↦ (
            record { state = c; effects = []; status = err queue_overflow },
            ground (arith, e, h),
            (i, λ g. ground arith),
          )
          | inr h ↦ valid-IsWithin alive m facts c fd e h i
        ]

  idle-IsWithin :
      (end : Status) (c : PromptCoordinator)
      → IsWellFormed c
      → IsWithin nothing c (record { state = c; effects = []; status = end })
  unfolding closes_of
  idle-IsWithin end c i = (i, λ g. omega arith)

  handle_batch-IsWithin :
      (end : Status) (events : List Arrival) (c : PromptCoordinator)
      → IsWellFormed c
      → (s : Step) × (handle_batch paths excluded_paths end events c ≡ some s)
        × IsWithin (arrivals events) c s
  unfolding handle_batch arrivals
  handle_batch-IsWithin end [] c i = (_, refl, idle-IsWithin end c i)
  handle_batch-IsWithin end (a ∷ events) c i =
      let (s, e, u) =
        handle_event-IsWithin a.policy a.user a.io a.worker_alive a.metadata a.facts c a.metadata.fd
          refl i in
      let (t, q, v) =
        followed_by-IsWithin (arrives a.metadata.fd) (arrivals events) c s
          (handle_batch paths excluded_paths end events s.state) u
          (handle_batch-IsWithin end events s.state u.0) in
      (t, ground (arith, e, q), v)

  events_turn-IsWithin :
      (a : GuardActivity) (t : Turn) (c : PromptCoordinator)
      → IsWellFormed c
      → (s : Step) × (events_turn paths excluded_paths a t c ≡ some s)
        × IsWithin (arrivals t.batch) c s
  unfolding events_turn closes_of
  events_turn-IsWithin a t c i = elim (Bool-cases a.fanotify_ready) [
    | inl e ↦
        let (s, q, u) = handle_batch-IsWithin t.batch_status t.batch c i in
        (s, ground (arith, e, q), u)
    | inr e ↦
        (record { state = c; effects = []; status = ok }, ground (arith, e), (i, λ g. omega arith))
  ]

  completions_turn-IsWithin :
      (a : GuardActivity) (t : Turn) (c : PromptCoordinator)
      → IsWellFormed c
      → IsWithin nothing c (completions_turn paths excluded_paths a t c)
  unfolding completions_turn
  completions_turn-IsWithin a t c i = elim (Bool-cases a.prompt_ready) [
    | inl e ↦
        rw (e, completions_turn)
          (process_completions-IsWithin t.io c a.prompt_worker_closed t.reads t.completions
            t.disconnected i)
    | inr e ↦ rw (e, completions_turn) (idle-IsWithin ok c i)
  ]

  turn-IsWithin :
      (t : Turn) (c : PromptCoordinator)
      → IsWellFormed c
      → (s : Step) × (turn paths excluded_paths t c ≡ some s) × IsWithin (arrivals t.batch) c s
  unfolding turn closes_of
  turn-IsWithin t c i = elim (Option-cases (wait_for_activity t.fanotify_revents t.wake_revents)) [
    | inl e ↦ (
      record { state = c; effects = []; status = err poll_failed },
      ground (arith, e),
      (i, λ g. omega arith),
    )
    | inr (a, e) ↦
        let first = completions_turn paths excluded_paths a t c in
        let u = completions_turn-IsWithin a t c i in
        let (s, q, v) =
          followed_by-IsWithin nothing (arrivals t.batch) c first
            (events_turn paths excluded_paths a t first.state) u
            (events_turn-IsWithin a t first.state u.0) in
        (s, ground (arith, e, q), (v.0, λ g. omega (arith, v.1 g)))
  ]

  -- From a well-formed coordinator the event loop, over any turns, does not panic, leaves the
  -- coordinator well-formed, and no descriptor waits or is closed more often than it waited before
  -- or arrived, whatever the worker answers, and whatever the kernel, procfs, the policy and the user say at each event.
  pub run_event_loop-IsWithin :
      (turns : List Turn) (c : PromptCoordinator)
      → IsWellFormed c
      → (s : Step) × (run_event_loop paths excluded_paths turns c ≡ some s)
        × IsWithin (all_arrivals turns) c s
  unfolding run_event_loop all_arrivals
  run_event_loop-IsWithin [] c i = (_, refl, idle-IsWithin ok c i)
  run_event_loop-IsWithin (t ∷ turns) c i =
      let (s, e, u) = turn-IsWithin t c i in
      let (r, q, v) =
        followed_by-IsWithin (arrivals t.batch) (all_arrivals turns) c s
          (run_event_loop paths excluded_paths turns s.state) u
          (run_event_loop-IsWithin turns s.state u.0) in
      (r, ground (arith, e, q), v)
