-- ===== src/Prompt/Authd.antt =====
-- src/prompt.rs: the question put to authd, and the prompt command.
use config_guard.Base.{
  ℕ, ◌*◌, Bool, true, false, ◌&&◌, List, [], ◌∷◌, ◌++◌, Option, none, some, if◌then◌else◌, and_then,
}
use config_guard.Std.Bytes.{Bytes, bytes, take}
use config_guard.Std.FilePath.{FilePath}
use config_guard.Prompt.Types.{Env, PromptAnswer, PromptRequest, Prompt}
use config_guard.Prompt.Adapters.{
  AuthResponse, authd, Poll, Wait, broken, answered, killed, pending, wait_for_prompt_answer,
}
use config_guard.Prompt.Texts.{debug_reason, display_subject, prompt_message, prompt_detail}

-- The request of authd's protocol.
pub record AuthRequest : Type 0 where
  pub target : FilePath
  pub args : List Bytes
  pub env : Env
  pub password : Bytes
  pub confirm_only : Bool
  pub prompt_title : Option Bytes
  pub prompt_message : Option Bytes
  pub prompt_detail : Option Bytes

unfoldable pub auth_request : PromptRequest → AuthRequest
auth_request request = record {
  target = request.subject.executable;
  args =
      (bytes "requests config access (" ++ (debug_reason request.reason ++ bytes ")"))
      ∷ request.target_path.os_str
      ∷ [];
  env = request.env;
  password = [];
  confirm_only = true;
  prompt_title = some (bytes "Config access request");
  prompt_message = some (prompt_message request);
  prompt_detail = some (prompt_detail request);
}

abbrev pub ipc_buffer_size : ℕ
ipc_buffer_size = 64 * 1024

-- What the socket does in one call, and the encoding, which is that of another library. `none` is a failure;
-- what is received is what arrives before the timeout.
pub record Socket : Type 0 where
  pub connects : Bool
  pub sets_read_timeout : Bool
  pub sets_write_timeout : Bool
  pub encode : AuthRequest → Option Bytes
  pub writes : Bytes → Bool
  pub received : Option Bytes
  pub decode : Bytes → Option AuthResponse

-- One read: what does not fit into the buffer is not seen, and no bytes are a failure.
unfoldable pub read_response : Socket → Option AuthResponse
read_response s =
    and_then s.received
      (λ bs. elim (take ipc_buffer_size bs) [ [] ↦ none | b ∷ read ↦ s.decode (b ∷ read) ])

unfoldable pub call_authd : Socket → AuthRequest → Option AuthResponse
call_authd s request =
    if s.connects && s.sets_read_timeout && s.sets_write_timeout
    then and_then (s.encode request) (λ payload. if s.writes payload then read_response s else none)
    else none

-- `AuthdPrompt`.
unfoldable pub authd_prompt : Socket → Prompt
authd_prompt s = authd (λ request. call_authd s (auth_request request))

-- The arguments of the prompt command.
pub record Invocation : Type 0 where
  pub subject : Bytes
  pub path : FilePath
  pub reason : Bytes

unfoldable pub invocation : PromptRequest → Invocation
invocation request = record {
  subject = display_subject request.subject;
  path = request.target_path;
  reason = debug_reason request.reason;
}

-- The child process that an invocation starts, if it does: the deadline, and the rounds of the wait.
abbrev pub Spawn : Type 0
Spawn = Invocation → Option (ℕ × List Poll)

abbrev wait_result : Wait → Option PromptAnswer
wait_result broken = none
wait_result (answered a) = some a
wait_result (killed a) = some a
wait_result pending = none

-- `CommandPrompt`.
unfoldable pub command_prompt : Spawn → Prompt
command_prompt spawn = record {
  ask_answer = λ request.
      and_then (spawn (invocation request))
        (λ child. wait_result (wait_for_prompt_answer child.0 request.default_decision child.1));
  requires_graphical_session = false;
}

unfoldable pub build : Option Spawn → Socket → Prompt
build (some spawn) s = command_prompt spawn
build none s = authd_prompt s
