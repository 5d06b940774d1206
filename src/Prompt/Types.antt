-- ===== src/Prompt/Types.antt =====
-- src/prompt.rs: requests, answers and the `Prompt` trait.
use config_guard.Base.{Bool, true, false, Option}
use config_guard.Std.Bytes.{Bytes}
use config_guard.Std.FilePath.{FilePath}
use config_guard.Std.Map.{Map}
use config_guard.Policy.Types.{ProcessSubject, Decision, DecisionReason}
use config_guard.Process.Identity.{ProcessAncestor}

pub record AncestryAuthorization : Type 0 where
  pub subject_executable : FilePath
  pub owner_ancestor : ProcessAncestor

pub data PromptAnswer : Type 0 where
  explicit : Decision → PromptAnswer
  default : Decision → PromptAnswer

unfoldable pub into_decision : PromptAnswer → Decision
into_decision (explicit d) = d
into_decision (default d) = d

unfoldable pub is_explicit : PromptAnswer → Bool
is_explicit (explicit d) = true
is_explicit (default d) = false

abbrev pub Env : Type 0
Env = Map Bytes Bytes

pub record PromptRequest : Type 0 where
  pub subject : ProcessSubject
  pub target_path : FilePath
  pub reason : DecisionReason
  pub default_decision : Decision
  pub env : Env
  pub authorization : Option AncestryAuthorization

-- The trait. `none` is an `Err` of `ask_answer`.
pub record Prompt : Type 0 where
  pub ask_answer : PromptRequest → Option PromptAnswer
  pub requires_graphical_session : Bool
