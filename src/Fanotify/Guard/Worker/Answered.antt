-- ===== src/Fanotify/Guard/Worker/Answered.antt =====
-- src/fanotify/guard.rs: the loop and the worker together, from a question to its answer.
use mathlib.Core.List.{append-nil}
use config_guard.Base.{
  ℕ, ◌+◌, ◌^◌, ◌<◌, ◌≡◌, refl, ap, ◌∙◌, inl, inr, true, false, List, [], ◌∷◌, ◌++◌, none, some,
  arith, nat_eq, nat_refl, Option-cases, map, All,
}
use config_guard.Std.Map as Map
use config_guard.Policy.Types.{Decision}
use config_guard.Fanotify.PromptResolution.{PromptOutcome, answer, failure}
use config_guard.Fanotify.Events.{Status, ok, Io}
use config_guard.Fanotify.Guard.Types.{
  PromptId, PromptCompletion, PendingEvent, PendingPrompt, PromptSpec, PromptCoordinator, Step,
  resolve_prompt_job,
}
use config_guard.Fanotify.Guard.Coordinator.{
  pending_prompt_id, allocate_id, job_of, event_of, send_prompt_job, start_prompt, queue_prompt,
  complete_prompt, woken, would_block, drain_wake_reader, drain_completion_channel, fail_after,
  process_completions,
}
use config_guard.Fanotify.Guard.Answers.{Status-cases, answer_calls, all_calls, carries_out, is_ok}
use config_guard.Fanotify.Guard.Invariant.{
  IsWellFormed, queue_prompt-IsWellFormed, complete_prompt-IsWellFormed,
}
use config_guard.Fanotify.Guard.Completion.{complete_prompt-answer, complete_prompt-failure}
use config_guard.Fanotify.Guard.Worker.{written, Round, completion_of, run_prompt_worker}

-- As long as the loop receives and wakes, each job is completed, in the order of the jobs.
pub run_prompt_worker-completes :
    (rounds : List Round)
    → All (λ r. (r.receives ≡ true) × (r.write ≡ written)) rounds
    → run_prompt_worker rounds ≡ (map completion_of rounds, ok)
unfolding run_prompt_worker
run_prompt_worker-completes [] h = refl
run_prompt_worker-completes (r ∷ rounds) h =
    ground (arith, h.0.0, h.0.1, run_prompt_worker-completes rounds h.1)

-- What a question ends with: the answer of the user, or the default if there is none.
abbrev pub final_decision : PromptOutcome → Decision → Decision
final_decision (answer d explicit) default = d
final_decision failure default = default

-- A wake without an end of the worker: the loop does what the one completion says.
process_completions-single :
    (io : Io) (c : PromptCoordinator) (completion : PromptCompletion)
    → process_completions io c false (woken ∷ would_block ∷ []) (completion ∷ []) false
      ≡ complete_prompt io c completion
unfolding process_completions drain_wake_reader drain_completion_channel fail_after
process_completions-single io c completion =
    elim (Status-cases (complete_prompt io c completion).status) [
      | inl e ↦ ground (arith, e, append-nil (complete_prompt io c completion).effects)
      | inr (x, e) ↦ ground (arith, e)
    ]

all_calls-single :
    (f : PendingEvent → Decision) (event : PendingEvent)
    → all_calls f (event ∷ []) ≡ answer_calls event.fd event.mask (f event)
unfolding all_calls
all_calls-single f event = append-nil (answer_calls event.fd event.mask (f event))

module _ (io : Io) (c : PromptCoordinator) (i : IsWellFormed c) (fd mask : ℕ) (spec : PromptSpec)
    (unasked : pending_prompt_id c spec.key ≡ none) (room : c.next_id + 1 < 2 ^ 64) where
  abbrev asked : Step
  asked = queue_prompt io true c fd mask spec

  abbrev waiting : PendingPrompt
  waiting = record {
    key = spec.key;
    authorization = spec.authorization;
    events = event_of fd mask spec ∷ [];
  }

  asked_lem :
      (asked.state.jobs ≡ c.jobs ++ job_of c.next_id spec ∷ [])
      × (asked.state.pending ≡ Map.insert c.next_id waiting c.pending)
      × (asked.effects ≡ [])
      × (asked.status ≡ ok)
  unfolding queue_prompt start_prompt allocate_id send_prompt_job
  asked_lem = ground (arith, unasked, room)

  absent : Map.get c.next_id c.pending ≡ none
  absent = elim (Option-cases (Map.get c.next_id c.pending)) [
    | inl n ↦ n
    | inr (w, e) ↦ absurd (omega (arith, i.fresh c.next_id w e))
  ]

  waits : Map.get c.next_id asked.state.pending ≡ some waiting
  waits =
      ground (
        arith,
        asked_lem.1,
        Map.get-insert c.next_id c.next_id waiting c.pending,
        nat_refl c.next_id,
      )

  removed :
      (id : PromptId)
      → Map.get id (Map.remove c.next_id (Map.insert c.next_id waiting c.pending))
        ≡ Map.get id c.pending
  removed id =
      Map.get-remove c.next_id id (Map.insert c.next_id waiting c.pending)
      ∙ ground (
        arith,
        absent,
        Map.get-insert c.next_id id waiting c.pending,
        Map.get-eq c.next_id id c.pending,
      )

  module _ (r : Round) (j : r.job ≡ job_of c.next_id spec) (live : r.receives ≡ true)
      (woke : r.write ≡ written) where
    abbrev outcome : PromptOutcome
    outcome = resolve_prompt_job r.is_current r.prompt r.job

    abbrev completion : PromptCompletion
    completion = completion_of r

    abbrev completed : Step
    completed =
        process_completions io asked.state false (woken ∷ would_block ∷ [])
          (run_prompt_worker (r ∷ [])).0 false

    abbrev decision : Decision
    decision = final_decision outcome spec.default_decision

    completed_lem : completed ≡ complete_prompt io asked.state completion
    completed_lem =
        ap (λ cs. process_completions io asked.state false (woken ∷ would_block ∷ []) cs false)
          (ap (λ (x : List PromptCompletion × Status). x.0)
            (run_prompt_worker-completes (r ∷ []) ((live, woke), tt)))
        ∙ process_completions-single io asked.state completion

    asked-IsWellFormed : IsWellFormed asked.state
    asked-IsWellFormed = queue_prompt-IsWellFormed c i io true fd mask spec

    waits_for : Map.get completion.id asked.state.pending ≡ some waiting
    unfolding completion_of
    waits_for = rw (j) waits

    answered :
        (x : PromptOutcome)
        → outcome ≡ x
        → ((complete_prompt io asked.state completion).effects
            ≡ all_calls (λ event. final_decision x event.default_decision) waiting.events)
          × (is_ok (complete_prompt io asked.state completion).status
              ≡ carries_out io
                  (all_calls (λ event. final_decision x event.default_decision) waiting.events))
          × ((complete_prompt io asked.state completion).state.pending
              ≡ Map.remove completion.id asked.state.pending)
    unfolding completion_of
    answered (answer d explicit) e =
        let (a, b, f, g, h) =
          complete_prompt-answer io asked.state completion waiting asked-IsWellFormed waits_for d
            explicit e in
        (a, b, g)
    answered failure e =
        let (a, b, f, g) =
          complete_prompt-failure io asked.state completion waiting asked-IsWellFormed waits_for
            e in
        (a, b, g)

    -- At a well-formed coordinator with request numbers left, a question whose key is not asked about sends one job and
    -- makes no call. If the worker gets that job and its completion arrives, the event gets the decision of the worker, which is
    -- the event's default without an answer, and is closed; the result is Ok exactly if the kernel carries out these calls. The
    -- prompts that wait are again those from before, and the coordinator is well-formed.
    pub question-answered :
        (asked.state.jobs ≡ c.jobs ++ r.job ∷ [])
        × (asked.effects ≡ [])
        × (asked.status ≡ ok)
        × (completed.effects ≡ answer_calls fd mask decision)
        × (is_ok completed.status ≡ carries_out io (answer_calls fd mask decision))
        × ((id : PromptId) → Map.get id completed.state.pending ≡ Map.get id c.pending)
        × IsWellFormed completed.state
    unfolding completion_of
    question-answered =
        let (jobs, pending, effects, status) = asked_lem in
        let (a, b, g) = answered outcome refl in
        let single =
          all_calls-single (λ event. final_decision outcome event.default_decision)
            (event_of fd mask spec) in
        (
          rw (j) jobs,
          effects,
          status,
          rw (completed_lem) (a ∙ single),
          rw (completed_lem) (b ∙ ap (carries_out io) single),
          λ id. rw (completed_lem, g, pending, j) (removed id),
          rw (completed_lem)
              (complete_prompt-IsWellFormed io asked.state completion asked-IsWellFormed),
        )
