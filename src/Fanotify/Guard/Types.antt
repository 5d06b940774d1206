-- ===== src/Fanotify/Guard/Types.antt =====
-- src/fanotify/guard.rs: the jobs of the prompt worker, the events that wait, and the coordinator.
use config_guard.Base.{ℕ, Bool, not, ◌||◌, List, Option, is_some_and, if◌then◌else◌}
use config_guard.Std.FilePath.{FilePath}
use config_guard.Std.Map.{Map}
use config_guard.Policy.Types.{ProcessSubject, Decision, DecisionReason}
use config_guard.Prompt.Types.{AncestryAuthorization, Env, PromptRequest, Prompt}
use config_guard.Prompt.Ancestry.{owner_is_current}
use config_guard.Fanotify.PromptResolution.Key.{PromptDecisionKey, is_current_process}
use config_guard.Fanotify.PromptResolution.{PromptDecisionCache, PromptOutcome, failure, ask_prompt}
use config_guard.Fanotify.Events.{Effect, Status}

abbrev pub PromptId : Type 0
PromptId = ℕ

pub record PromptJob : Type 0 where
  pub id : PromptId
  pub key : Option PromptDecisionKey
  pub authorization : Option AncestryAuthorization
  pub subject : ProcessSubject
  pub target_path : FilePath
  pub reason : DecisionReason
  pub default_decision : Decision
  pub env : Env

pub record PromptCompletion : Type 0 where
  pub id : PromptId
  pub outcome : PromptOutcome

pub record PendingEvent : Type 0 where
  pub fd : ℕ
  pub mask : ℕ
  pub default_decision : Decision

pub record PendingPrompt : Type 0 where
  pub key : Option PromptDecisionKey
  pub authorization : Option AncestryAuthorization
  pub events : List PendingEvent

pub record PromptSpec : Type 0 where
  pub key : Option PromptDecisionKey
  pub authorization : Option AncestryAuthorization
  pub subject : ProcessSubject
  pub target_path : FilePath
  pub reason : DecisionReason
  pub default_decision : Decision
  pub env : Env

-- The jobs sent so far, oldest first, stand for the channel to the worker.
pub record PromptCoordinator : Type 0 where
  pub jobs : List PromptJob
  pub prompt_cache : PromptDecisionCache
  pub pending : Map PromptId PendingPrompt
  pub pending_by_key : Map PromptDecisionKey PromptId
  pub next_id : PromptId

-- What a call leaves: the coordinator, the system calls that it made, and its result.
pub record Step : Type 0 where
  pub state : PromptCoordinator
  pub effects : List Effect
  pub status : Status

unfoldable pub job_request : PromptJob → PromptRequest
job_request job = record {
  subject = job.subject;
  target_path = job.target_path;
  reason = job.reason;
  default_decision = job.default_decision;
  env = job.env;
  authorization = job.authorization;
}

-- The worker's part: a question whose process or whose owner process is gone is not put.
unfoldable pub resolve_prompt_job : (ℕ → ℕ → Bool) → Prompt → PromptJob → PromptOutcome
unfolding job_request
resolve_prompt_job is_current p job =
    let helper_is_stale = is_some_and job.key (λ k. not (is_current_process is_current k)) in
    let owner_is_stale = is_some_and job.authorization (λ a. not (owner_is_current is_current a)) in
    if helper_is_stale || owner_is_stale then failure else ask_prompt p (job_request job)
