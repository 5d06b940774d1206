-- ===== src/Fanotify/Guard/Coordinator.antt =====
-- src/fanotify/guard.rs: the operations of `PromptCoordinator`.
use config_guard.Base.{
  ℕ, ◌+◌, ◌^◌, Bool, true, false, ◌||◌, List, [], ◌∷◌, ◌++◌, Option, none, some, ◌==◌, and_then,
  if◌then◌else◌, nat_eq,
}
use config_guard.Std.Map as Map
use config_guard.Std.Map.{Map}
use config_guard.Policy.Types.{Decision}
use config_guard.Prompt.Types.{AncestryAuthorization, Env, Prompt}
use config_guard.Fanotify.PromptResolution.Key.{PromptDecisionKey, prompt_key_eq}
use config_guard.Fanotify.PromptResolution.{
  PromptDecisionCache, PromptOutcome, answer, failure, cache_prompt_answer,
  immediate_prompt_decision,
}
use config_guard.Fanotify.Events.{
  Effect, Status, ok, err, and_status, missing_pending, id_overflow, send_failed,
  unknown_completion, key_mismatch, wake_failed, worker_stopped, Io, respond_and_close_event,
}
use config_guard.Fanotify.Guard.Types.{
  PromptId, PromptJob, PromptCompletion, PendingEvent, PendingPrompt, PromptSpec, PromptCoordinator,
  Step,
}

unfoldable pub new : PromptDecisionCache → PromptCoordinator
new cache = record {
  jobs = [];
  prompt_cache = cache;
  pending = [];
  pending_by_key = [];
  next_id = 0;
}

abbrev done : PromptCoordinator → Step
done c = record { state = c; effects = []; status = ok }

abbrev failed : PromptCoordinator → List Effect → Status → Step
failed c es s = record { state = c; effects = es; status = s }

-- `PromptCoordinator::immediate_decision`.
unfoldable pub immediate_decision :
    PromptCoordinator
    → Prompt
    → Option PromptDecisionKey
    → Option AncestryAuthorization
    → Env
    → Decision
    → Option Decision × PromptCoordinator
immediate_decision c p key authorization env d =
    let r = immediate_prompt_decision p c.prompt_cache key authorization env d in
    (r.0, record c { prompt_cache = r.1 })

-- The loop of `respond_to_events`: each event is answered, and the first error is kept.
unfoldable pub respond_to_events :
    (PendingEvent → List Effect × Status) → List PendingEvent → List Effect × Status
respond_to_events answer_event [] = ([], ok)
respond_to_events answer_event (event ∷ events) =
    let now = answer_event event in
    let rest = respond_to_events answer_event events in (now.0 ++ rest.0, and_status now.1 rest.1)

unfoldable pub respond_with_decision : Io → List PendingEvent → Decision → List Effect × Status
respond_with_decision io events d =
    respond_to_events (λ event. respond_and_close_event io event.fd event.mask d) events

unfoldable pub respond_with_defaults : Io → List PendingEvent → List Effect × Status
respond_with_defaults io events =
    respond_to_events
      (λ event. respond_and_close_event io event.fd event.mask event.default_decision) events

unfoldable pub pending_prompt_id : PromptCoordinator → Option PromptDecisionKey → Option PromptId
pending_prompt_id c key = and_then key (λ k. Map.get k c.pending_by_key)

unfoldable pub append_pending_event : PromptCoordinator → PromptId → PendingEvent → Step
append_pending_event c id event = elim (Map.get id c.pending) [
  | none ↦ failed c [] (err missing_pending)
  | some waiting ↦ done (record c {
    pending = Map.insert id (record waiting { events = waiting.events ++ event ∷ [] }) c.pending;
  })
]

-- `none` if the 64-bit counter would overflow.
unfoldable pub allocate_id : PromptCoordinator → Option (PromptId × PromptCoordinator)
allocate_id c =
    if c.next_id + 1 == 2 ^ 64 then none else some (c.next_id, record c { next_id = c.next_id + 1 })

unfoldable pub insert_key :
    Option PromptDecisionKey
    → PromptId
    → Map PromptDecisionKey PromptId
    → Map PromptDecisionKey PromptId
insert_key none id m = m
insert_key (some k) id m = Map.insert k id m

-- `worker_alive` says whether the worker still receives.
unfoldable pub send_prompt_job : Io → Bool → PromptCoordinator → PendingEvent → PromptJob → Step
unfolding insert_key
send_prompt_job io worker_alive c event job =
    if worker_alive
    then done (record c {
      jobs = c.jobs ++ job ∷ [];
      pending_by_key = insert_key job.key job.id c.pending_by_key;
      pending =
          Map.insert job.id
            (record { key = job.key; authorization = job.authorization; events = event ∷ [] })
            c.pending;
    })
    else (let answered = respond_and_close_event io event.fd event.mask event.default_decision in
        failed c answered.0 (and_status answered.1 (err send_failed)))

abbrev pub job_of : PromptId → PromptSpec → PromptJob
job_of id spec = record {
  id = id;
  key = spec.key;
  authorization = spec.authorization;
  subject = spec.subject;
  target_path = spec.target_path;
  reason = spec.reason;
  default_decision = spec.default_decision;
  env = spec.env;
}

abbrev pub event_of : ℕ → ℕ → PromptSpec → PendingEvent
event_of fd mask spec = record { fd = fd; mask = mask; default_decision = spec.default_decision }

unfoldable pub start_prompt : Io → Bool → PromptCoordinator → ℕ → ℕ → PromptSpec → Step
start_prompt io worker_alive c fd mask spec = elim (allocate_id c) [
  | none ↦ failed c [] (err id_overflow)
  | some (id, c') ↦ send_prompt_job io worker_alive c' (event_of fd mask spec) (job_of id spec)
]

unfoldable pub queue_prompt : Io → Bool → PromptCoordinator → ℕ → ℕ → PromptSpec → Step
queue_prompt io worker_alive c fd mask spec = elim (pending_prompt_id c spec.key) [
  | some id ↦ append_pending_event c id (event_of fd mask spec)
  | none ↦ start_prompt io worker_alive c fd mask spec
]

-- The key map after the removal, and whether it held the completed prompt.
unfoldable pub remove_pending_key :
    PromptCoordinator → PromptId → Option PromptDecisionKey → PromptCoordinator × Bool
remove_pending_key c id none = (c, true)
remove_pending_key c id (some key) = (
  record c { pending_by_key = Map.remove key c.pending_by_key },
  elim (Map.get key c.pending_by_key) [ none ↦ false | some mapped ↦ mapped == id ],
)

unfoldable pub finish : Io → PromptCoordinator → PendingPrompt → PromptOutcome → Step
finish io c waiting (answer d explicit) =
    let answered = respond_with_decision io waiting.events d in
    failed
      (record c {
        prompt_cache =
            cache_prompt_answer c.prompt_cache waiting.key waiting.authorization d explicit;
      })
      answered.0 answered.1
finish io c waiting failure =
    let answered = respond_with_defaults io waiting.events in failed c answered.0 answered.1

unfoldable pub complete_prompt : Io → PromptCoordinator → PromptCompletion → Step
unfolding finish
complete_prompt io c completion = elim (Map.get completion.id c.pending) [
  | none ↦ failed c [] (err unknown_completion)
  | some waiting ↦
      let c' = record c { pending = Map.remove completion.id c.pending } in
      let unlinked = remove_pending_key c' completion.id waiting.key in
      if unlinked.1
      then finish io unlinked.0 waiting completion.outcome
      else failed unlinked.0 [] (err key_mismatch)
]

-- `try_for_each` stops at the first prompt whose answers fail.
unfoldable pub fail_each : Io → Map PromptId PendingPrompt → List Effect × Status
fail_each io [] = ([], ok)
fail_each io ((id, waiting) ∷ pending) =
    let answered = respond_with_defaults io waiting.events in
    let rest = fail_each io pending in
    elim answered.1 [ err e ↦ answered | ok ↦ (answered.0 ++ rest.0, rest.1) ]

unfoldable pub fail_pending_prompts : Io → PromptCoordinator → Step
unfolding fail_each
fail_pending_prompts io c =
    let answered = fail_each io c.pending in
    failed (record c { pending_by_key = []; pending = [] }) answered.0
      (and_status answered.1 (err worker_stopped))

-- The reads of the wake socket.
pub data WakeRead : Type 0 where
  closed woken would_block interrupted broken : WakeRead

-- Whether the socket is closed; `none` for an error. The socket does not block, so the list of reads
-- ends by one that ends the loop: what comes after the list counts as `would_block`.
unfoldable pub drain_wake_reader : List WakeRead → Option Bool
drain_wake_reader [] = some false
drain_wake_reader (closed ∷ reads) = some true
drain_wake_reader (woken ∷ reads) = drain_wake_reader reads
drain_wake_reader (would_block ∷ reads) = some false
drain_wake_reader (interrupted ∷ reads) = drain_wake_reader reads
drain_wake_reader (broken ∷ reads) = none

-- The completions that wait in the channel, and whether its sender is gone behind them. The second
-- part of the result is that of the source.
unfoldable pub drain_completion_channel :
    Io → PromptCoordinator → List PromptCompletion → Bool → Step × Bool
drain_completion_channel io c [] disconnected = (done c, disconnected)
drain_completion_channel io c (completion ∷ completions) disconnected =
    let now = complete_prompt io c completion in
    let rest = drain_completion_channel io now.state completions disconnected in
    elim now.status [
      | err e ↦ (now, false)
      | ok ↦ (
        record {
          state = rest.0.state;
          effects = now.effects ++ rest.0.effects;
          status = rest.0.status;
        },
        rest.1,
      )
    ]

unfoldable pub fail_after : Io → Bool → Step × Bool → Step
fail_after io hint (drained, disconnected) = elim drained.status [
  | err e ↦ drained
  | ok ↦
      if hint || disconnected
      then (let last = fail_pending_prompts io drained.state in
          record {
            state = last.state;
            effects = drained.effects ++ last.effects;
            status = last.status;
          })
      else drained
]

unfoldable pub process_completions :
    Io → PromptCoordinator → Bool → List WakeRead → List PromptCompletion → Bool → Step
unfolding fail_after
process_completions io c worker_closed_hint reads completions disconnected =
    elim (drain_wake_reader reads) [
      | none ↦ failed c [] (err wake_failed)
      | some wake_closed ↦
          fail_after io (worker_closed_hint || wake_closed)
            (drain_completion_channel io c completions disconnected)
    ]
