-- ===== src/Prompt/Adapters.antt =====
-- src/prompt.rs: the implementations of the trait. What authd answers and how the prompt command
-- ends are arguments, since they come from other programs.
use config_guard.Base.{ℕ, true, List, [], ◌∷◌, Option, none, some, ltb, ◌==◌, if◌then◌else◌}
use config_guard.Policy.Types.{Decision, allow, deny}
use config_guard.Prompt.Types.{PromptAnswer, explicit, default, PromptRequest, Prompt}

-- `NonInteractivePrompt`.
unfoldable pub non_interactive : Prompt
non_interactive = record {
  ask_answer = λ request. some (default request.default_decision);
  requires_graphical_session = true;
}

-- The variants of authd's reply that the code tells apart; `none` is a failed call.
pub data AuthResponse : Type 0 where
  success denied auth_failed unknown_target error : AuthResponse

unfoldable pub authd_answer : Option AuthResponse → Decision → PromptAnswer
authd_answer (some AuthResponse.success) d = explicit allow
authd_answer (some AuthResponse.denied) d = explicit deny
authd_answer (some AuthResponse.auth_failed) d = explicit deny
authd_answer (some AuthResponse.unknown_target) d = default d
authd_answer (some AuthResponse.error) d = default d
authd_answer none d = default d

-- `AuthdPrompt`: `call` stands for `call_authd` on the request that it encodes.
unfoldable pub authd : (PromptRequest → Option AuthResponse) → Prompt
authd call = record {
  ask_answer = λ request. some (authd_answer (call request) request.default_decision);
  requires_graphical_session = true;
}

-- `none` is a status without an exit code, of a process that a signal ended.
unfoldable pub answer_from_status : Option ℕ → Decision → PromptAnswer
answer_from_status none d = default d
answer_from_status (some code) d =
    if code == 0 then explicit allow else if code == 1 then explicit deny else default d

-- One round of the waiting loop: the time of the test, and what `try_wait` finds.
pub data Waited : Type 0 where
  failed running : Waited
  exited : Option ℕ → Waited

pub record Poll : Type 0 where
  pub now : ℕ
  pub child : Waited

-- What the wait ends with.
pub data Wait : Type 0 where
  broken : Wait
  answered : PromptAnswer → Wait
  killed : PromptAnswer → Wait
  pending : Wait

-- `wait_for_prompt_answer` over the rounds that take place; `pending` if the list ends before the
-- loop does.
unfoldable pub wait_for_prompt_answer : ℕ → Decision → List Poll → Wait
wait_for_prompt_answer deadline d [] = pending
wait_for_prompt_answer deadline d (p ∷ ps) =
    let rest = wait_for_prompt_answer deadline d ps in
    if ltb p.now deadline
    then elim p.child [
      | failed ↦ broken
      | running ↦ rest
      | exited code ↦ answered (answer_from_status code d)
    ]
    else killed (default d)
