-- ===== src/Fanotify/Guard/Completion.antt =====
-- src/fanotify/guard.rs: one question per key, and what its answer does.
use config_guard.Base.{
  ℕ, ◌≡◌, refl, Bool, true, [], ◌∷◌, ◌++◌, Option, none, some, arith, nat_eq, nat_refl,
}
use config_guard.Std.Map.{get, insert, remove, get-remove}
use config_guard.Policy.Types.{Decision}
use config_guard.Prompt.Types.{Prompt, AncestryAuthorization}
use config_guard.Prompt.Ancestry.{owner_is_current}
use config_guard.Fanotify.PromptResolution.Key.{PromptDecisionKey, is_current_process}
use config_guard.Fanotify.PromptResolution.{answer, failure, ask_prompt, cache_prompt_answer}
use config_guard.Fanotify.Events.{ok, Io}
use config_guard.Fanotify.Guard.Types.{
  PromptId, PromptJob, PromptCompletion, PendingPrompt, PromptSpec, PromptCoordinator, job_request,
  resolve_prompt_job,
}
use config_guard.Fanotify.Guard.Coordinator.{
  pending_prompt_id, append_pending_event, queue_prompt, remove_pending_key, finish,
  complete_prompt,
}
use config_guard.Fanotify.Guard.Answers.{
  all_calls, carries_out, is_ok, respond_with_decision-calls, respond_with_defaults-calls,
}
use config_guard.Fanotify.Guard.Invariant.{
  IsWellFormed, pending_prompt_id-waits, complete_prompt-finish,
}
use config_guard.Fanotify.Guard.Queued.{remove_pending_key-pending}

-- At a well-formed coordinator, a question whose key is already asked about sends no second job
-- and makes no call: its event joins those that wait for the one answer, behind them, and the
-- result is Ok.
pub queue_prompt-joins :
    (io : Io) (alive : Bool) (c : PromptCoordinator) (fd mask : ℕ) (spec : PromptSpec)
    (id : PromptId)
    → IsWellFormed c
    → pending_prompt_id c spec.key ≡ some id
    → (w : PendingPrompt) × (get id c.pending ≡ some w)
      × (queue_prompt io alive c fd mask spec ≡ record {
        state = record c {
          pending =
              insert id
                (record w {
                  events =
                      w.events
                      ++ (record { fd = fd; mask = mask; default_decision = spec.default_decision }
                          ∷ []);
                })
                c.pending;
        };
        effects = [];
        status = ok;
      })
unfolding queue_prompt append_pending_event
queue_prompt-joins io alive c fd mask spec id i h =
    let (w, e) = pending_prompt_id-waits c i spec.key id h in (w, e, ground (arith, h, e))

remove_pending_key-cache :
    (c : PromptCoordinator) (id : PromptId) (key : Option PromptDecisionKey)
    → (remove_pending_key c id key).0.prompt_cache ≡ c.prompt_cache
unfolding remove_pending_key
remove_pending_key-cache c id none = refl
remove_pending_key-cache c id (some k) = refl

module _ (io : Io) (c : PromptCoordinator) (completion : PromptCompletion) (w : PendingPrompt)
    (i : IsWellFormed c) (h : get completion.id c.pending ≡ some w) where
  -- At a well-formed coordinator the answer to a waiting prompt is given to every event that waits
  -- for it, in the order in which they came, each then being closed; it is kept for later
  -- questions, and the prompt waits no longer. The result is Ok exactly if the kernel carries out
  -- every call.
  pub complete_prompt-answer :
      (d : Decision) (explicit : Bool)
      → completion.outcome ≡ answer d explicit
      → ((complete_prompt io c completion).effects ≡ all_calls (λ event. d) w.events)
        × (is_ok (complete_prompt io c completion).status
            ≡ carries_out io (all_calls (λ event. d) w.events))
        × ((complete_prompt io c completion).state.prompt_cache
            ≡ cache_prompt_answer c.prompt_cache w.key w.authorization d explicit)
        × ((complete_prompt io c completion).state.pending ≡ remove completion.id c.pending)
        × (get completion.id (complete_prompt io c completion).state.pending ≡ none)
  unfolding finish
  complete_prompt-answer d explicit o =
      let c' = record c { pending = remove completion.id c.pending } in
      let calls = respond_with_decision-calls io w.events d in
      rw (complete_prompt-finish io c completion w i h, o, finish)
        (
          calls.0,
          calls.1,
          ground (arith, remove_pending_key-cache c' completion.id w.key),
          remove_pending_key-pending c' completion.id w.key,
          ground (
            arith,
            remove_pending_key-pending c' completion.id w.key,
            get-remove completion.id completion.id c.pending,
            nat_refl completion.id,
          ),
        )

  -- At a well-formed coordinator the failure of a waiting prompt gives each of its events that
  -- event's own default, in order, each then being closed; the answers kept for later questions
  -- are unchanged, and the prompt is removed. The result is Ok exactly if the kernel carries out
  -- every call.
  pub complete_prompt-failure :
      completion.outcome ≡ failure
      → ((complete_prompt io c completion).effects
          ≡ all_calls (λ event. event.default_decision) w.events)
        × (is_ok (complete_prompt io c completion).status
            ≡ carries_out io (all_calls (λ event. event.default_decision) w.events))
        × ((complete_prompt io c completion).state.prompt_cache ≡ c.prompt_cache)
        × ((complete_prompt io c completion).state.pending ≡ remove completion.id c.pending)
  unfolding finish
  complete_prompt-failure o =
      let c' = record c { pending = remove completion.id c.pending } in
      let calls = respond_with_defaults-calls io w.events in
      rw (complete_prompt-finish io c completion w i h, o, finish)
        (
          calls.0,
          calls.1,
          remove_pending_key-cache c' completion.id w.key,
          remove_pending_key-pending c' completion.id w.key,
        )

-- If the worker ends with an answer, it is that of the prompt, and the process of the key and the
-- owner process of the authorization, as far as the job has them, were current when it was asked.
pub resolve_prompt_job-answer :
    (is_current : ℕ → ℕ → Bool) (p : Prompt) (job : PromptJob) (d : Decision) (explicit : Bool)
    → resolve_prompt_job is_current p job ≡ answer d explicit
    → ((k : PromptDecisionKey) → job.key ≡ some k → is_current_process is_current k ≡ true)
      × ((a : AncestryAuthorization)
          → job.authorization ≡ some a
          → owner_is_current is_current a ≡ true)
      × (ask_prompt p (job_request job) ≡ answer d explicit)
unfolding resolve_prompt_job
resolve_prompt_job-answer is_current p job d explicit h =
    (λ k e. ground (arith, e, h), λ a e. ground (arith, e, h), ground (arith, h))
