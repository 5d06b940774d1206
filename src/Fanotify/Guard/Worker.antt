-- ===== src/Fanotify/Guard/Worker.antt =====
-- src/fanotify/guard.rs: the thread that puts the questions.
pub mod Answered
mod Tests
use config_guard.Base.{ℕ, Bool, List, [], ◌∷◌, if◌then◌else◌}
use config_guard.Prompt.Types.{Prompt}
use config_guard.Fanotify.Events.{Status, ok, err, wake_write_failed}
use config_guard.Fanotify.Guard.Types.{PromptJob, PromptCompletion, resolve_prompt_job}

-- How the write of the wake byte ends.
pub data WakeWrite : Type 0 where
  written broken_pipe write_failed : WakeWrite

-- What the worker meets with a job: the processes and the user as they are then, whether the loop still
-- receives completions, and how the write ends.
pub record Round : Type 0 where
  pub job : PromptJob
  pub is_current : ℕ → ℕ → Bool
  pub prompt : Prompt
  pub receives : Bool
  pub write : WakeWrite

unfoldable pub completion_of : Round → PromptCompletion
completion_of r = record { id = r.job.id; outcome = resolve_prompt_job r.is_current r.prompt r.job }

-- The jobs as they are received, until no one sends any more: the completions that were sent, and the result.
unfoldable pub run_prompt_worker : List Round → List PromptCompletion × Status
unfolding completion_of
run_prompt_worker [] = ([], ok)
run_prompt_worker (r ∷ rounds) =
    let rest = run_prompt_worker rounds in
    if r.receives
    then elim r.write [
      | written ↦ (completion_of r ∷ rest.0, rest.1)
      | broken_pipe ↦ (completion_of r ∷ [], ok)
      | write_failed ↦ (completion_of r ∷ [], err wake_write_failed)
    ]
    else ([], ok)
