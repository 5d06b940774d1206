-- ===== src/Fanotify/AuditIdentity/Tests.antt =====
-- src/fanotify/audit_identity.rs: the theorems after one history.
use config_guard.Base.{ℕ, ◌≡◌, List, [], ◌∷◌, none, some, arith}
use config_guard.Std.FilePath.{path}
use config_guard.Process.Identity.{ProcessIdentity}
use config_guard.Fanotify.AuditIdentity.{AuditObjectId, with_capacity, insert, take}
use config_guard.Fanotify.AuditIdentity.Refinement.{Refines}
use config_guard.Fanotify.AuditIdentity.Generation.{take-insert-generation}
use config_guard.Fanotify.AuditIdentity.History.{Call, inserts, takes, run, log_run, run-Refines}

abbrev process : ℕ → ProcessIdentity
process start = record {
  pid = 7;
  executable = some (path "/usr/bin/cat");
  command = [];
  cwd = none;
  start_time_ticks = some start;
  ancestors = [];
  ancestor_processes = [];
}

abbrev file : AuditObjectId
file = record { device = 1; inode = 2 }

-- Process id 7 is given to a second process.
abbrev calls : List Call
calls = inserts 7 file (process 100) ∷ inserts 7 file (process 100) ∷ takes 7 file ∷ []

run-Refines_example : Refines (run (with_capacity 2) calls) (log_run 2 [] calls)
run-Refines_example = run-Refines 2 calls

take-insert-generation_run :
    (y : ProcessIdentity) × ((take
        (insert (run (with_capacity 2) calls) 7 file (process 900))
        7
        file).0
      ≡ some y)
    × (y.start_time_ticks ≡ some 900)
take-insert-generation_run = take-insert-generation 2 calls 7 file (process 900) (omega arith)
