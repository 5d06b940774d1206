-- ===== src/Fanotify/Guard/LoopTests.antt =====
-- src/fanotify/guard.rs: the theorems on the event loop, at one event.
use config_guard.Base.{
  ◌≡◌, refl, inr, true, false, List, [], ◌∷◌, none, some, arith, any, list_beq, ◌==◌, nat_eq,
}
use config_guard.Std.FilePath.{path, components, component_beq, starts_with, path_beq, is_prefix}
use config_guard.Std.Map as Map
use config_guard.Policy.Types.{allow, deny, cross_owner_read, access_beq, reason_beq}
use config_guard.Process.Identity.{from_executable}
use config_guard.Prompt.Types.{Prompt, explicit, into_decision, is_explicit}
use config_guard.Prompt.Adapters.{non_interactive}
use config_guard.Fanotify.PromptResolution.Key as Key
use config_guard.Fanotify.PromptResolution.Key.{
  PromptDecisionKey, prompt_key_beq, is_current_process,
}
use config_guard.Fanotify.PromptResolution.{empty, answer, ask_prompt, get}
use config_guard.Fanotify.Events.{
  ok, close, err, policy_failed, has_flag, is_excluded, is_watched_path, access_kind,
  is_permission_event, response_code,
}
use config_guard.Fanotify.Guard.Types.{
  PromptJob, PromptCoordinator, Step, resolve_prompt_job, job_request,
}
use config_guard.Fanotify.Guard.Coordinator.{
  new, pending_prompt_id, append_pending_event, allocate_id, insert_key, send_prompt_job,
  start_prompt, queue_prompt,
}
use config_guard.Fanotify.Guard.Loop.{inspect_process_or_unknown, handle_event}
use config_guard.Fanotify.Guard.Poll.{Turn, run_event_loop}
use config_guard.Fanotify.Guard.Answers.{answer_calls, all_calls, closes_of, events_of}
use config_guard.Fanotify.Guard.Invariant.{new-IsWellFormed}
use config_guard.Fanotify.Guard.Queued.{queued}
use config_guard.Fanotify.Guard.Events.{IsSettled, handle_event-IsSettled}
use config_guard.Fanotify.Guard.Verdict.{
  IsAnswered, handle_event-unwatched, handle_event-verdict, handle_event-policy_error,
  handle_event-remembered,
}
use config_guard.Fanotify.Guard.Completion.{resolve_prompt_job-answer}
use config_guard.Fanotify.Guard.Within.{IsWithin, all_arrivals}
use config_guard.Fanotify.Guard.Turns.{run_event_loop-IsWithin}
use config_guard.Fanotify.Guard.Samples.{io, key, question, asks, says, start, opened, facts, roots}

program : Unit {0}
unfolding components component_beq starts_with path_beq is_prefix list_beq any Map.get Map.insert
    Map.remove access_beq reason_beq from_executable into_decision is_explicit Key.new
    prompt_key_beq is_current_process ask_prompt get has_flag is_excluded is_watched_path
    access_kind is_permission_event response_code resolve_prompt_job job_request new
    pending_prompt_id append_pending_event allocate_id insert_key send_prompt_job start_prompt
    queue_prompt inspect_process_or_unknown answer_calls all_calls closes_of queued events_of
program = tt

handle_event-IsSettled_example :
    (s : Step) × (handle_event roots []
        (says (some asks))
        non_interactive
        io
        true
        opened
        facts
        start
      ≡ some s)
    × IsSettled start 5 s
unfolding program
handle_event-IsSettled_example =
    handle_event-IsSettled roots [] (says (some asks)) non_interactive io true opened facts start 5
      refl refl (new-IsWellFormed empty) (omega arith)

handle_event-verdict_example :
    IsAnswered io 5 0x10000 deny start
      (handle_event roots [] (says (some deny)) non_interactive io true opened facts start)
unfolding program
handle_event-verdict_example =
    handle_event-verdict roots [] (says (some deny)) non_interactive io true opened facts start 5
      refl refl (path "/home/u/.mozilla/prefs.js") refl deny refl refl (inr refl)

handle_event-unwatched_run :
    IsAnswered io 5 0x10000 allow start
      (handle_event roots roots (says (some deny)) non_interactive io true opened facts start)
unfolding program
handle_event-unwatched_run =
    handle_event-unwatched roots roots (says (some deny)) non_interactive io true opened facts start
      5 refl refl (path "/home/u/.mozilla/prefs.js") refl refl

handle_event-policy_error_run :
    handle_event roots [] (says none) non_interactive io true opened facts start
    ≡ some (record { state = start; effects = close 5 ∷ []; status = err policy_failed })
unfolding program
handle_event-policy_error_run =
    handle_event-policy_error roots [] (says none) non_interactive io true opened facts start 5 refl
      refl (path "/home/u/.mozilla/prefs.js") refl refl refl

abbrev remembers : PromptCoordinator
remembers = new (record { decisions = (key, deny) ∷ []; ancestry_authorizations = [] })

handle_event-remembered_run :
    IsAnswered io 5 0x10000 deny remembers
      (handle_event roots [] (says (some asks)) non_interactive io true opened facts remembers)
unfolding program
handle_event-remembered_run =
    handle_event-remembered roots [] (says (some asks)) non_interactive io true opened facts
      remembers 5 refl refl (path "/home/u/.mozilla/prefs.js") refl cross_owner_read deny
      (path "/home/u/.mozilla") key deny refl refl refl refl refl

abbrev yes : Prompt
yes = record { ask_answer = λ request. some (explicit allow); requires_graphical_session = false }

abbrev job : PromptJob
job = record {
  id = 0;
  key = some key;
  authorization = none;
  subject = question.subject;
  target_path = question.target_path;
  reason = question.reason;
  default_decision = question.default_decision;
  env = [];
}

resolve_prompt_job-answer_run : ask_prompt yes (job_request job) ≡ answer allow true
unfolding program
resolve_prompt_job-answer_run =
    (resolve_prompt_job-answer (λ pid ticks. pid == 7) yes job allow true refl).2

abbrev turns : List Turn
turns =
    record {
      fanotify_revents = 1;
      wake_revents = 0;
      reads = [];
      completions = [];
      disconnected = false;
      io = io;
      batch =
          record {
            metadata = opened;
            facts = facts;
            worker_alive = true;
            io = io;
            policy = says (some asks);
            user = yes;
          }
          ∷ [];
      batch_status = ok;
    }
    ∷ record {
      fanotify_revents = 0;
      wake_revents = 1;
      reads = [];
      completions = record { id = 0; outcome = answer deny true } ∷ [];
      disconnected = false;
      io = io;
      batch = [];
      batch_status = ok;
    }
    ∷ []

run_event_loop-IsWithin_example :
    (s : Step) × (run_event_loop roots [] turns start ≡ some s)
    × IsWithin (all_arrivals turns) start s
run_event_loop-IsWithin_example =
    run_event_loop-IsWithin roots [] turns start (new-IsWellFormed empty)
