-- ===== src/Cli/Reasons.antt =====
-- src/main.rs and src/prompt.rs: the names of the reasons, as they are shown and as they are read.
use config_guard.Base.{◌≡◌, ◌↔◌, refl, ap, ◌∙◌, some, arith, list_beq, list_beq→eq, nat_eq}
use config_guard.Std.Bytes.{Bytes, bytes}
use config_guard.Policy.Types.{
  DecisionReason, cross_owner_read, cross_owner_write, sensitive_read_by_dev_tool, sensitive_write,
}
use config_guard.Prompt.Texts.{debug_reason}
use config_guard.Cli.Settings.{parse_decision_reason}

parse-debug_reason : (r : DecisionReason) → parse_decision_reason (debug_reason r) ≡ some r
unfolding parse_decision_reason debug_reason list_beq
parse-debug_reason cross_owner_read = refl
parse-debug_reason cross_owner_write = refl
parse-debug_reason sensitive_read_by_dev_tool = refl
parse-debug_reason sensitive_write = refl

parse_decision_reason_sound :
    (value : Bytes) (r : DecisionReason)
    → parse_decision_reason value ≡ some r
    → value ≡ debug_reason r
unfolding parse_decision_reason debug_reason
parse_decision_reason_sound value cross_owner_read h = ground (
  arith,
  list_beq→eq value (bytes "CrossOwnerRead"),
  list_beq→eq value (bytes "CrossOwnerWrite"),
  list_beq→eq value (bytes "SensitiveReadByDevTool"),
  list_beq→eq value (bytes "SensitiveWrite"),
)
parse_decision_reason_sound value cross_owner_write h = ground (
  arith,
  list_beq→eq value (bytes "CrossOwnerRead"),
  list_beq→eq value (bytes "CrossOwnerWrite"),
  list_beq→eq value (bytes "SensitiveReadByDevTool"),
  list_beq→eq value (bytes "SensitiveWrite"),
)
parse_decision_reason_sound value sensitive_read_by_dev_tool h = ground (
  arith,
  list_beq→eq value (bytes "CrossOwnerRead"),
  list_beq→eq value (bytes "CrossOwnerWrite"),
  list_beq→eq value (bytes "SensitiveReadByDevTool"),
  list_beq→eq value (bytes "SensitiveWrite"),
)
parse_decision_reason_sound value sensitive_write h = ground (
  arith,
  list_beq→eq value (bytes "CrossOwnerRead"),
  list_beq→eq value (bytes "CrossOwnerWrite"),
  list_beq→eq value (bytes "SensitiveReadByDevTool"),
  list_beq→eq value (bytes "SensitiveWrite"),
)

-- A reason is read from just one text, the one by which it is shown.
pub parse_decision_reason_iff :
    (value : Bytes) (r : DecisionReason)
    → (parse_decision_reason value ≡ some r) ↔ (value ≡ debug_reason r)
parse_decision_reason_iff value r =
    (parse_decision_reason_sound value r, λ e. ap parse_decision_reason e ∙ parse-debug_reason r)
