-- ===== src/Process/Identity.antt =====
-- src/process.rs: `ProcessIdentity`, its constructors and the policy subject that it stands for.
-- Process ids are numbers: the kernel gives out no negative one.
use config_guard.Base.{ℕ, List, [], ◌∷◌, Option, none, some, first, or_else, unwrap_or, nat_eq}
use config_guard.Std.Bytes.{Bytes}
use config_guard.Std.FilePath.{FilePath, path, to_path}
use config_guard.Policy.Types.{ProcessSubject}
use mathlib.Core.Option

pub record ProcessAncestor : Type 0 where
  pub pid : ℕ
  pub executable : FilePath
  pub start_time_ticks : Option ℕ

pub record ProcessIdentity : Type 0 where
  pub pid : ℕ
  pub executable : Option FilePath
  pub command : List Bytes
  pub cwd : Option FilePath
  pub start_time_ticks : Option ℕ
  pub ancestors : List FilePath
  pub ancestor_processes : List ProcessAncestor

-- The text of the command is the displayed path.
unfoldable pub from_executable : ℕ → FilePath → ProcessIdentity
from_executable pid executable = record {
  pid = pid;
  executable = some executable;
  command = executable.os_str ∷ [];
  cwd = none;
  start_time_ticks = none;
  ancestors = [];
  ancestor_processes = [];
}

unfoldable pub unknown : ℕ → ProcessIdentity
unknown pid = record {
  pid = pid;
  executable = none;
  command = [];
  cwd = none;
  start_time_ticks = none;
  ancestors = [];
  ancestor_processes = [];
}

unfoldable pub subject : ProcessIdentity → ProcessSubject
subject p = record {
  executable =
      unwrap_or (or_else p.executable (Option.map to_path (first p.command))) (path "unknown");
  command = p.command;
  ancestors = p.ancestors;
}
