-- ===== src/Fanotify/AuditIdentity/History.antt =====
-- src/fanotify/audit_identity.rs: the cache after any history of calls.
use config_guard.Base.{ℕ, ◌≡◌, refl, subst, List, [], ◌∷◌, arith, nat_eq}
use config_guard.Process.Identity.{ProcessIdentity}
use config_guard.Fanotify.AuditIdentity.{
  AuditObjectId, AuditIdentityCache, with_capacity, insert, take, invalidate, invalidate_key,
  evict_oldest_if_full, push_back,
}
use config_guard.Fanotify.AuditIdentity.Log.{Log, without, without_first, enter}
use config_guard.Fanotify.AuditIdentity.Refinement.{
  Refines, with_capacity-Refines, insert-Refines, take-Refines, invalidate-Refines,
}

-- The calls of the event loop.
pub data Call : Type 0 where
  inserts : ℕ → AuditObjectId → ProcessIdentity → Call
  takes : ℕ → AuditObjectId → Call
  invalidates : ℕ → AuditObjectId → Call

unfoldable pub step : AuditIdentityCache → Call → AuditIdentityCache
step c (inserts pid object x) = insert c pid object x
step c (takes pid object) = (take c pid object).1
step c (invalidates pid object) = invalidate c pid object

unfoldable pub run : AuditIdentityCache → List Call → AuditIdentityCache
run c [] = c
run c (call ∷ calls) = run (step c call) calls

unfoldable pub log_step : ℕ → Log → Call → Log
log_step capacity l (inserts pid object x) =
    enter capacity (record { pid = pid; object = object }) x l
log_step capacity l (takes pid object) = without_first (record { pid = pid; object = object }) l
log_step capacity l (invalidates pid object) = without (record { pid = pid; object = object }) l

unfoldable pub log_run : ℕ → Log → List Call → Log
log_run capacity l [] = l
log_run capacity l (call ∷ calls) = log_run capacity (log_step capacity l call) calls

pub step-capacity : (c : AuditIdentityCache) (call : Call) → (step c call).capacity ≡ c.capacity
unfolding step insert take invalidate invalidate_key evict_oldest_if_full push_back
step-capacity c (inserts pid object x) = ground arith
step-capacity c (takes pid object) = ground arith
step-capacity c (invalidates pid object) = refl

step-Refines :
    (c : AuditIdentityCache) (l : Log) (call : Call)
    → Refines c l
    → Refines (step c call) (log_step c.capacity l call)
unfolding step log_step
step-Refines c l (inserts pid object x) h = insert-Refines c l pid object x h
step-Refines c l (takes pid object) h = (take-Refines c l pid object h).1
step-Refines c l (invalidates pid object) h = invalidate-Refines c l pid object h

run-Refines_from :
    (c : AuditIdentityCache) (l : Log) (calls : List Call)
    → Refines c l
    → Refines (run c calls) (log_run c.capacity l calls)
unfolding run log_run
run-Refines_from c l [] h = h
run-Refines_from c l (call ∷ calls) h =
    subst (λ n. Refines (run (step c call) calls) (log_run n (log_step c.capacity l call) calls))
      (step-capacity c call)
      (run-Refines_from (step c call) (log_step c.capacity l call) calls (step-Refines c l call h))

-- After any history of calls an identity cache is the log that the same history makes of the empty
-- one: its queues show the log's entries by key, its insertion order their keys, its counter their
-- number, which is at most the capacity.
pub run-Refines :
    (capacity : ℕ) (calls : List Call)
    → Refines (run (with_capacity capacity) calls) (log_run capacity [] calls)
unfolding with_capacity
run-Refines capacity calls =
    run-Refines_from (with_capacity capacity) [] calls (with_capacity-Refines capacity)
