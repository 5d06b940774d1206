-- ===== src/Fanotify/AuditProcess/Tests.antt =====
-- src/fanotify/audit_process.rs: the theorems at a cache of one generation.
use config_guard.Base.{
  ◌-◌, ◌≤◌, ◌≡◌, refl, not, ◌&&◌, [], ◌∷◌, none, some, arith, list_beq, if◌then◌else◌, is_some_and,
}
use config_guard.Std.FilePath.{path}
use config_guard.Std.Map as Map
use config_guard.Process.Identity.{ProcessIdentity}
use config_guard.Fanotify.AuditProcess.{
  ProcessGeneration, generation_beq, generation_eq, CachedIdentity, AuditProcessCache, with_limits,
  is_dynamic_loader, insert_at, is_expired, get_at, insert_exec_at,
}
use config_guard.Fanotify.AuditProcess.Recency.{Refines, with_limits-Refines}
use config_guard.Fanotify.AuditProcess.Bounds.{
  executes, looks_up, run_calls, list_run, run_calls-Refines,
}
use config_guard.Fanotify.AuditProcess.Expiry.{
  get_at-within_ttl, get_at-insert_at, exec_identity, get_at-insert_at_other,
}

program : Unit {0}
unfolding list_beq generation_beq Map.get is_expired get_at
program = tt

abbrev main : ProcessIdentity
main = record {
  pid = 7;
  executable = some (path "/usr/bin/cat");
  command = [];
  cwd = none;
  start_time_ticks = none;
  ancestors = [];
  ancestor_processes = [];
}

abbrev loader : ProcessIdentity
loader = record main { executable = some (path "/usr/lib/ld-linux-x86-64.so.2") }

abbrev seventh : ProcessGeneration
seventh = record { device = 1; inode = 7 }

abbrev eighth : ProcessGeneration
eighth = record { device = 1; inode = 8 }

abbrev empty : AuditProcessCache
empty = with_limits 2 30

abbrev holds : AuditProcessCache
holds = record {
  capacity = 2;
  ttl = 30;
  identities = (seventh, record { identity = main; recorded_at = 10 }) ∷ [];
  insertion_order = seventh ∷ [];
}

run_calls-Refines_example :
    Refines
      (run_calls empty
        (executes seventh main 10 ∷ executes seventh loader 11 ∷ looks_up eighth 12 ∷ []))
      (list_run 2 30 []
        (executes seventh main 10 ∷ executes seventh loader 11 ∷ looks_up eighth 12 ∷ []))
run_calls-Refines_example =
    run_calls-Refines 2 30
      (executes seventh main 10 ∷ executes seventh loader 11 ∷ looks_up eighth 12 ∷ [])

get_at-within_ttl_example :
    (v : CachedIdentity) × (Map.get seventh holds.identities ≡ some v)
    × (v.identity ≡ main)
    × (40 - v.recorded_at ≤ 30)
unfolding program
get_at-within_ttl_example = get_at-within_ttl holds seventh 40 main refl

get_at-insert_at_example : (get_at (insert_at empty seventh main 10) seventh 40).0 ≡ some main
unfolding with_limits
get_at-insert_at_example =
    get_at-insert_at empty [] seventh main 10 40 (with_limits-Refines 2 30) (omega arith)
      (omega arith)

exec_identity_example : (get_at (insert_exec_at empty seventh loader 11) seventh 11).0 ≡ (
    if is_dynamic_loader loader
      && is_some_and (get_at empty seventh 11).0 (λ m. not (is_dynamic_loader m))
    then (get_at empty seventh 11).0
    else some loader)
unfolding with_limits
exec_identity_example =
    exec_identity empty [] seventh loader 11 (with_limits-Refines 2 30) (omega arith)

get_at-insert_at_other_example :
    (get_at (insert_at empty seventh main 10) eighth 12).0 ≡ (get_at empty eighth 12).0
unfolding with_limits generation_beq
get_at-insert_at_other_example =
    get_at-insert_at_other empty [] seventh eighth main 10 12 (with_limits-Refines 2 30)
      (omega arith) refl
