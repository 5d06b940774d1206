-- ===== src/Fanotify/Guard/Conservation.antt =====
-- src/fanotify/guard.rs: no event is lost and none is closed twice: what the coordinator closes is
-- what it no longer holds.
use config_guard.Base.{
  ℕ, ◌+◌, ◌^◌, ◌<◌, ◌≤◌, ◌≡◌, refl, Bool, true, false, List, [], ◌∷◌, ◌++◌, some, arith, ◌==◌,
  if◌then◌else◌, inl, inr, Bool-cases, Option-cases, nat_eq,
}
use config_guard.Std.Map.{get, remove}
use config_guard.Std.Distinct.{insert_new}
use config_guard.Fanotify.Events.{Io}
use config_guard.Fanotify.Guard.Types.{
  PromptId, PromptJob, PromptCompletion, PendingEvent, PendingPrompt, PromptSpec, PromptCoordinator,
}
use config_guard.Fanotify.Guard.Coordinator.{
  pending_prompt_id, append_pending_event, allocate_id, send_prompt_job, start_prompt, queue_prompt,
  remove_pending_key, complete_prompt, drain_completion_channel,
}
use config_guard.Fanotify.Guard.Answers.{
  Status-cases, respond_and_close_event-calls, closes_of, events_of, closes_of-append,
  closes_of-answer_calls, events_of-append,
}
use config_guard.Fanotify.Guard.Invariant.{
  IsWellFormed, next_id_free, pending_prompt_id-waits, complete_prompt-finish,
  complete_prompt-IsWellFormed,
}
use config_guard.Fanotify.Guard.Queued.{
  queued, queued-append, queued-update, queued-remove, closes-finish, remove_pending_key-pending,
}

-- At a well-formed coordinator a completion closes each descriptor as often as it takes it from
-- the waiting events, whatever its outcome, whether or not its prompt is known, and whether or not
-- the kernel carries out the calls.
pub complete_prompt-conserves :
    (io : Io) (c : PromptCoordinator) (completion : PromptCompletion) (fd : ℕ)
    → IsWellFormed c
    → queued fd (complete_prompt io c completion).state.pending
        + closes_of fd (complete_prompt io c completion).effects
      ≡ queued fd c.pending
unfolding complete_prompt closes_of
complete_prompt-conserves io c completion fd i = elim (Option-cases (get completion.id c.pending)) [
  | inl e ↦ rw (e, complete_prompt, closes_of) (omega arith)
  | inr (w, e) ↦
      let c' = record c { pending = remove completion.id c.pending } in
      let r = remove_pending_key c' completion.id w.key in
      rw (complete_prompt-finish io c completion w i e) (
        ground (
          arith,
          closes-finish fd io r.0 w completion.outcome,
          remove_pending_key-pending c' completion.id w.key,
          queued-remove fd completion.id w c.pending i.distinct e,
        ))
]

module _ (io : Io) (c : PromptCoordinator) (i : IsWellFormed c) (g : ℕ) where
  append-conserves :
      (id : PromptId) (event : PendingEvent) (w : PendingPrompt)
      → get id c.pending ≡ some w
      → queued g (append_pending_event c id event).state.pending
          + closes_of g (append_pending_event c id event).effects
        ≡ queued g c.pending + events_of g (event ∷ [])
  unfolding append_pending_event closes_of
  append-conserves id event w e =
      let w' : PendingPrompt = record w { events = w.events ++ event ∷ [] } in
      rw (e, append_pending_event, closes_of)
        (omega
          (arith, queued-update g id w' w c.pending e, events_of-append g w.events (event ∷ [])))

  sent-conserves :
      (alive : Bool) (event : PendingEvent) (job : PromptJob)
      → job.id ≡ c.next_id
      → queued g
            (send_prompt_job io alive
              (record c { next_id = c.next_id + 1 })
              event
              job).state.pending
          + closes_of g
              (send_prompt_job io alive (record c { next_id = c.next_id + 1 }) event job).effects
        ≡ queued g c.pending + events_of g (event ∷ [])
  unfolding send_prompt_job closes_of events_of
  sent-conserves true event job e =
      let w : PendingPrompt = record {
        key = job.key;
        authorization = job.authorization;
        events = event ∷ [];
      } in
      rw (e, insert_new c.next_id w c.pending (next_id_free c i))
        (omega (arith, queued-append g c.next_id w c.pending))
  sent-conserves false event job e =
      rw ((respond_and_close_event-calls io event.fd event.mask event.default_decision).0)
        (ground (arith, closes_of-answer_calls g event.fd event.mask event.default_decision))

  -- At a well-formed coordinator that has request numbers left, a question puts its event among
  -- the waiting ones, or closes it if the worker is gone: for each descriptor, the waiting events
  -- and the closes together grow by the one event.
  pub queue_prompt-conserves :
      (alive : Bool) (fd mask : ℕ) (spec : PromptSpec)
      → c.next_id + 1 < 2 ^ 64
      → queued g (queue_prompt io alive c fd mask spec).state.pending
          + closes_of g (queue_prompt io alive c fd mask spec).effects
        ≡ queued g c.pending + (if fd == g then 1 else 0)
  unfolding queue_prompt start_prompt allocate_id events_of pending_prompt_id
  queue_prompt-conserves alive fd mask spec small =
      elim (Option-cases (pending_prompt_id c spec.key)) [
        | inl e ↦
            let full : (c.next_id + 1 == 2 ^ 64) ≡ false = ground arith in
            rw (e, queue_prompt, start_prompt, allocate_id, full) (sent-conserves alive _ _ refl)
        | inr (id, e) ↦
            let (w, m) = pending_prompt_id-waits c i spec.key id e in
            rw (e, queue_prompt) (append-conserves id _ w m)
      ]

  -- Also when the numbers are used up, it takes or closes no more than the one event.
  pub queue_prompt-within :
      (alive : Bool) (fd mask : ℕ) (spec : PromptSpec)
      → queued g (queue_prompt io alive c fd mask spec).state.pending
          + closes_of g (queue_prompt io alive c fd mask spec).effects
        ≤ queued g c.pending + (if fd == g then 1 else 0)
  unfolding queue_prompt start_prompt allocate_id closes_of events_of
  queue_prompt-within alive fd mask spec = elim (Option-cases (pending_prompt_id c spec.key)) [
    | inl e ↦ elim (Bool-cases (c.next_id + 1 == 2 ^ 64)) [
      | inl full ↦ rw (e, queue_prompt, start_prompt, allocate_id, full, closes_of) (omega arith)
      | inr room ↦
          rw (e, queue_prompt, start_prompt, allocate_id, room)
            (omega (
              arith,
              sent-conserves alive
                  (record { fd = fd; mask = mask; default_decision = spec.default_decision }) _
                  refl,
            ))
    ]
    | inr (id, e) ↦
        let (w, m) = pending_prompt_id-waits c i spec.key id e in
        rw (e, queue_prompt)
          (omega (
            arith,
            append-conserves id
                (record { fd = fd; mask = mask; default_decision = spec.default_decision }) w m,
          ))
  ]

-- The answers that wait in the channel, in one go.
pub drain_completion_channel-conserves :
    (io : Io) (c : PromptCoordinator) (completions : List PromptCompletion) (disconnected : Bool)
    (fd : ℕ)
    → IsWellFormed c
    → IsWellFormed (drain_completion_channel io c completions disconnected).0.state
      × (queued fd (drain_completion_channel io c completions disconnected).0.state.pending
            + closes_of fd (drain_completion_channel io c completions disconnected).0.effects
          ≡ queued fd c.pending)
unfolding drain_completion_channel closes_of
drain_completion_channel-conserves io c [] disconnected fd i = (i, omega arith)
drain_completion_channel-conserves io c (x ∷ xs) disconnected fd i =
    let j = complete_prompt-IsWellFormed io c x i in
    let now = complete_prompt-conserves io c x fd i in
    let rest =
      drain_completion_channel-conserves io (complete_prompt io c x).state xs disconnected fd j in
    elim (Status-cases (complete_prompt io c x).status) [
      | inl e ↦
          rw (e, drain_completion_channel)
            (
              rest.0,
              omega (
                arith,
                now,
                rest.1,
                closes_of-append fd (complete_prompt io c x).effects
                    (drain_completion_channel io (complete_prompt io c x).state xs
                      disconnected).0.effects,
              ),
            )
      | inr (e, h) ↦ rw (h, drain_completion_channel) (j, now)
    ]
