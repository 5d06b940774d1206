-- ===== src/Fanotify/Guard/Tests.antt =====
-- src/fanotify/guard.rs: the theorems on the coordinator, at one event that waits for a question.
use config_guard.Base.{
  ◌+◌, ◌≡◌, refl, true, false, [], ◌∷◌, ◌++◌, none, some, arith, any, list_beq, nat_eq,
}
use config_guard.Std.FilePath.{components, component_beq, starts_with, path_beq, is_prefix}
use config_guard.Std.Map as Map
use config_guard.Policy.Types.{allow, deny, access_beq, reason_beq}
use config_guard.Process.Identity.{from_executable}
use config_guard.Prompt.Types.{into_decision, is_explicit}
use config_guard.Fanotify.PromptResolution.Key as Key
use config_guard.Fanotify.PromptResolution.Key.{
  PromptDecisionKey, prompt_key_beq, is_current_process,
}
use config_guard.Fanotify.PromptResolution.{answer, failure, ask_prompt, get}
use config_guard.Fanotify.Events.{
  respond_and_close_event, respond, close, ok, Io, has_flag, is_excluded, is_watched_path,
  access_kind, fan_allow, fan_deny, is_permission_event, response_code,
}
use config_guard.Fanotify.Guard.Types.{
  PendingPrompt, PromptCoordinator, resolve_prompt_job, job_request,
}
use config_guard.Fanotify.Guard.Coordinator.{
  respond_to_events, respond_with_defaults, new, pending_prompt_id, append_pending_event,
  allocate_id, insert_key, send_prompt_job, start_prompt, queue_prompt, complete_prompt,
  fail_pending_prompts,
}
use config_guard.Fanotify.Guard.Loop.{inspect_process_or_unknown}
use config_guard.Fanotify.Guard.Answers.{answer_calls, all_calls, CarriesAll, closes_of, events_of}
use config_guard.Fanotify.Guard.Invariant.{
  IsWellFormed, queue_prompt-IsWellFormed, complete_prompt-IsWellFormed,
}
use config_guard.Fanotify.Guard.Conservation.{complete_prompt-conserves, queue_prompt-conserves}
use config_guard.Fanotify.Guard.Fallback.{fail_pending_prompts-conserves}
use config_guard.Fanotify.Guard.Queued.{queued}
use config_guard.Fanotify.Guard.Completion.{
  queue_prompt-joins, complete_prompt-answer, complete_prompt-failure,
}
use config_guard.Fanotify.Guard.Samples.{
  io, question, first_event, waiting, asked, asked-IsWellFormed,
}

program : Unit {0}
unfolding components component_beq starts_with path_beq is_prefix list_beq any Map.get Map.insert
    Map.remove access_beq reason_beq from_executable into_decision is_explicit Key.new
    prompt_key_beq is_current_process ask_prompt get has_flag is_excluded is_watched_path
    access_kind is_permission_event response_code resolve_prompt_job job_request new
    pending_prompt_id append_pending_event allocate_id insert_key send_prompt_job start_prompt
    queue_prompt inspect_process_or_unknown answer_calls all_calls closes_of queued events_of
program = tt

asked_run : Map.get 0 asked.pending ≡ some waiting
unfolding program
asked_run = refl

queue_prompt-IsWellFormed_example :
    IsWellFormed (queue_prompt io true asked 6 0x10000 question).state
queue_prompt-IsWellFormed_example =
    queue_prompt-IsWellFormed asked asked-IsWellFormed io true 6 0x10000 question

complete_prompt-IsWellFormed_example :
    IsWellFormed (complete_prompt io asked (record { id = 0; outcome = answer allow true })).state
complete_prompt-IsWellFormed_example =
    complete_prompt-IsWellFormed io asked (record { id = 0; outcome = answer allow true })
      asked-IsWellFormed

queue_prompt-joins_run :
    (w : PendingPrompt) × (Map.get 0 asked.pending ≡ some w)
    × (queue_prompt io true asked 6 0x10000 question ≡ record {
      state = record asked {
        pending =
            Map.insert 0
              (record w {
                events =
                    w.events ++ (record { fd = 6; mask = 0x10000; default_decision = deny } ∷ []);
              })
              asked.pending;
      };
      effects = [];
      status = ok;
    })
unfolding program
queue_prompt-joins_run =
    queue_prompt-joins io true asked 6 0x10000 question 0 asked-IsWellFormed refl

complete_prompt-answer_example :
    (complete_prompt io asked (record { id = 0; outcome = answer allow true })).effects
    ≡ respond 5 fan_allow ∷ close 5 ∷ []
unfolding program
complete_prompt-answer_example =
    (complete_prompt-answer io asked (record { id = 0; outcome = answer allow true }) waiting
      asked-IsWellFormed refl allow true refl).0

complete_prompt-failure_example :
    (complete_prompt io asked (record { id = 0; outcome = failure })).effects
    ≡ respond 5 fan_deny ∷ close 5 ∷ []
unfolding program
complete_prompt-failure_example =
    (complete_prompt-failure io asked (record { id = 0; outcome = failure }) waiting
      asked-IsWellFormed refl refl).0

complete_prompt-conserves_example :
    queued 5 (complete_prompt io asked (record { id = 0; outcome = failure })).state.pending
      + closes_of 5 (complete_prompt io asked (record { id = 0; outcome = failure })).effects
    ≡ 1
unfolding program
complete_prompt-conserves_example =
    complete_prompt-conserves io asked (record { id = 0; outcome = failure }) 5 asked-IsWellFormed

queue_prompt-conserves_run :
    queued 6 (queue_prompt io true asked 6 0x10000 question).state.pending
      + closes_of 6 (queue_prompt io true asked 6 0x10000 question).effects
    ≡ queued 6 asked.pending + 1
unfolding program
queue_prompt-conserves_run =
    queue_prompt-conserves io asked asked-IsWellFormed 6 true 6 0x10000 question (omega arith)

io-CarriesAll : CarriesAll io
io-CarriesAll = (λ fd. refl, λ fd. refl)

fail_pending_prompts-conserves_example : closes_of 5 (fail_pending_prompts io asked).effects ≡ 1
unfolding program
fail_pending_prompts-conserves_example = (fail_pending_prompts-conserves io asked 5 io-CarriesAll).0

-- One prompt whose answer fails ends the fallback: the event of the next prompt stays open.
abbrev two_prompts : PromptCoordinator
two_prompts = record asked {
  pending =
      (0, waiting)
      ∷ (
        1,
        record { key = none; authorization = none; events = record first_event { fd = 6 } ∷ [] },
      )
      ∷ [];
}

abbrev broken : Io
broken = record { writes = λ fd. false; closes = λ fd. true }

fallback_run :
    (closes_of 5 (fail_pending_prompts broken two_prompts).effects ≡ 1)
    × (closes_of 6 (fail_pending_prompts broken two_prompts).effects ≡ 0)
unfolding program fail_pending_prompts respond_with_defaults respond_to_events
    respond_and_close_event
fallback_run = (refl, refl)
