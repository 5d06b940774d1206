-- ===== src/Policy/Types.antt =====
-- src/policy.rs: the subject of an access, the decisions and the policy file's records.
use config_guard.Base.{Bool, true, false, List}
use config_guard.Std.Bytes.{Bytes}
use config_guard.Std.FilePath.{FilePath}

pub record ProcessSubject : Type 0 where
  pub executable : FilePath
  pub command : List Bytes
  pub ancestors : List FilePath

pub data AccessKind : Type 0 where
  read write destructive_write : AccessKind

pub data DecisionReason : Type 0 where
  cross_owner_read cross_owner_write sensitive_read_by_dev_tool sensitive_write : DecisionReason

pub data Decision : Type 0 where
  allow deny : Decision
  prompt : DecisionReason → Decision → FilePath → Decision

pub record OwnedPath : Type 0 where
  pub path : FilePath
  pub owner : Bytes
  pub allowed_subjects : List Bytes
  pub deny_non_owner : Bool

pub record SharedPath : Type 0 where
  pub path : FilePath
  pub path_prefix : Bool
  pub allowed_subjects : List Bytes
  pub access : List AccessKind

pub record PathRule : Type 0 where
  pub path : FilePath

pub record PolicyConfig : Type 0 where
  pub owned_paths : List OwnedPath
  pub shared_paths : List SharedPath
  pub sensitive_paths : List PathRule
  pub dev_tools : List Bytes
  pub fail_open : Bool

unfoldable pub access_beq : AccessKind → AccessKind → Bool
access_beq read read = true
access_beq write write = true
access_beq destructive_write destructive_write = true
access_beq _ _ = false

unfoldable pub reason_beq : DecisionReason → DecisionReason → Bool
reason_beq cross_owner_read cross_owner_read = true
reason_beq cross_owner_write cross_owner_write = true
reason_beq sensitive_read_by_dev_tool sensitive_read_by_dev_tool = true
reason_beq sensitive_write sensitive_write = true
reason_beq _ _ = false
