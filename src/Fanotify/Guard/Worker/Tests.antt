-- ===== src/Fanotify/Guard/Worker/Tests.antt =====
-- src/fanotify/guard.rs: the theorem at one question, which the user answers by Allow.
use config_guard.Base.{◌≡◌, refl, true, false, [], ◌∷◌, some, arith, nat_eq}
use config_guard.Std.Map as Map
use config_guard.Policy.Types.{allow}
use config_guard.Prompt.Types.{Prompt, explicit, into_decision, is_explicit}
use config_guard.Fanotify.PromptResolution.{empty, ask_prompt}
use config_guard.Fanotify.PromptResolution.Key.{is_current_process}
use config_guard.Fanotify.Guard.Types.{Step, resolve_prompt_job, job_request}
use config_guard.Fanotify.Guard.Coordinator.{
  new, pending_prompt_id, job_of, queue_prompt, woken, would_block, process_completions,
}
use config_guard.Fanotify.Guard.Answers.{answer_calls}
use config_guard.Fanotify.Guard.Invariant.{new-IsWellFormed}
use config_guard.Fanotify.Guard.Samples.{io, question, start}
use config_guard.Fanotify.Guard.Worker.{Round, written, run_prompt_worker}
use config_guard.Fanotify.Guard.Worker.Answered.{question-answered}

abbrev yes : Prompt
yes = record { ask_answer = λ request. some (explicit allow); requires_graphical_session = false }

abbrev round : Round
round = record {
  job = job_of 0 question;
  is_current = λ pid ticks. true;
  prompt = yes;
  receives = true;
  write = written;
}

abbrev completed : Step
completed =
    process_completions io (queue_prompt io true start 5 0x10000 question).state false
      (woken ∷ would_block ∷ []) (run_prompt_worker (round ∷ [])).0 false

question-answered_example : completed.effects ≡ answer_calls 5 0x10000 allow
unfolding new pending_prompt_id Map.get resolve_prompt_job job_request is_current_process ask_prompt
    into_decision is_explicit
question-answered_example =
    (question-answered io start (new-IsWellFormed empty) 5 0x10000 question refl (omega arith) round
      refl refl refl).3
