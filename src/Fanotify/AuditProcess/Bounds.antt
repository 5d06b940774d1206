-- ===== src/Fanotify/AuditProcess/Bounds.antt =====
-- src/fanotify/audit_process.rs: the process cache over any history of calls.
use config_guard.Base.{
  ℕ, ◌-◌, ◌≡◌, refl, ap, subst, inl, inr, Bool, not, List, [], ◌∷◌, Option, none, arith, ltb,
  if◌then◌else◌, is_some_and, Bool-cases,
}
use config_guard.Std.Map as Map
use config_guard.Process.Identity.{ProcessIdentity}
use config_guard.Fanotify.AuditProcess.{
  ProcessGeneration, generation_eq, CachedIdentity, AuditProcessCache, with_limits,
  is_dynamic_loader, remove, evict_oldest_if_full, store, insert_at, is_expired, get_at,
  insert_exec_at,
}
use config_guard.Fanotify.AuditProcess.Recency.{
  Entries, Refines, with_limits-Refines, remove-Refines, record_entry, insert_at-Refines,
}
use mathlib.Core.Option

-- Whether the list's entry of a generation is too old.
unfoldable pub stale : ℕ → ProcessGeneration → ℕ → Entries → Bool
stale ttl g now l = is_some_and (Map.get g l) (λ v. ltb ttl (now - v.recorded_at))

-- What a lookup may use, and what it leaves of the list.
unfoldable pub recent : ℕ → ProcessGeneration → ℕ → Entries → Option ProcessIdentity
recent ttl g now l = if stale ttl g now l then none else Option.map (λ v. v.identity) (Map.get g l)

unfoldable pub sweep : ℕ → ProcessGeneration → ℕ → Entries → Entries
sweep ttl g now l = if stale ttl g now l then Map.remove g l else l

is_expired-stale :
    (c : AuditProcessCache) (l : Entries) (g : ProcessGeneration) (now : ℕ)
    → Refines c l
    → is_expired c g now ≡ stale c.ttl g now l
unfolding is_expired stale
is_expired-stale c l g now h = rw (h.shows.finds g) refl

-- A lookup answers with the list's entry of that generation unless it is older than the time to live,
-- in which case the entry is dropped.
pub get_at-Refines :
    (c : AuditProcessCache) (l : Entries) (g : ProcessGeneration) (now : ℕ)
    → Refines c l
    → ((get_at c g now).0 ≡ recent c.ttl g now l) × Refines (get_at c g now).1 (sweep c.ttl g now l)
unfolding get_at recent sweep
get_at-Refines c l g now h = elim (Bool-cases (stale c.ttl g now l)) [
  | inl old ↦
      rw (is_expired-stale c l g now h, old, get_at, recent, sweep) (refl, remove-Refines c l g h)
  | inr fresh ↦
      rw (is_expired-stale c l g now h, fresh, get_at, recent, sweep)
        (ap (Option.map (λ (v : CachedIdentity). v.identity)) (h.shows.finds g), h)
]

-- `insert_exec` on the list.
unfoldable pub exec_entry : ℕ → ℕ → ProcessGeneration → ProcessIdentity → ℕ → Entries → Entries
exec_entry capacity ttl g identity now l =
    if is_dynamic_loader identity
    then (if is_some_and (recent ttl g now l) (λ cached. not (is_dynamic_loader cached))
        then sweep ttl g now l
        else record_entry capacity g (record { identity = identity; recorded_at = now })
            (sweep ttl g now l))
    else record_entry capacity g (record { identity = identity; recorded_at = now }) l

get_at-capacity :
    (c : AuditProcessCache) (g : ProcessGeneration) (now : ℕ)
    → (get_at c g now).1.capacity ≡ c.capacity
unfolding get_at remove
get_at-capacity c g now = ground arith

-- Recording an execution on the list: a loader's name does not replace a recent main executable.
pub insert_exec_at-Refines :
    (c : AuditProcessCache) (l : Entries) (g : ProcessGeneration) (x : ProcessIdentity) (now : ℕ)
    → Refines c l
    → Refines (insert_exec_at c g x now) (exec_entry c.capacity c.ttl g x now l)
unfolding insert_exec_at exec_entry
insert_exec_at-Refines c l g x now h = elim (Bool-cases (is_dynamic_loader x)) [
  | inr main ↦ rw (main, insert_exec_at, exec_entry) (insert_at-Refines c l g x now h)
  | inl loader ↦
      let (seen, swept) = get_at-Refines c l g now h in
      rw (loader, insert_exec_at, exec_entry, seen)
        (elim (Bool-cases
          (is_some_and (recent c.ttl g now l) (λ cached. not (is_dynamic_loader cached)))) [
            | inl kept ↦ rw kept swept
            | inr free ↦ rw free (
                subst
                  (λ n. Refines (insert_at (get_at c g now).1 g x now) (
                    record_entry n g (record { identity = x; recorded_at = now })
                      (sweep c.ttl g now l)))
                  (get_at-capacity c g now)
                  (insert_at-Refines (get_at c g now).1 (sweep c.ttl g now l) g x now swept))
          ])
]

-- The calls of the event loop, each with its time.
pub data Call : Type 0 where
  executes : ProcessGeneration → ProcessIdentity → ℕ → Call
  looks_up : ProcessGeneration → ℕ → Call

pub step : AuditProcessCache → Call → AuditProcessCache
step c (executes g x now) = insert_exec_at c g x now
step c (looks_up g now) = (get_at c g now).1

pub run_calls : AuditProcessCache → List Call → AuditProcessCache
run_calls c [] = c
run_calls c (call ∷ calls) = run_calls (step c call) calls

pub list_step : ℕ → ℕ → Entries → Call → Entries
list_step capacity ttl l (executes g x now) = exec_entry capacity ttl g x now l
list_step capacity ttl l (looks_up g now) = sweep ttl g now l

pub list_run : ℕ → ℕ → Entries → List Call → Entries
list_run capacity ttl l [] = l
list_run capacity ttl l (call ∷ calls) = list_run capacity ttl (list_step capacity ttl l call) calls

step-Refines :
    (c : AuditProcessCache) (l : Entries) (call : Call)
    → Refines c l
    → Refines (step c call) (list_step c.capacity c.ttl l call)
unfolding step list_step
step-Refines c l (executes g x now) h = insert_exec_at-Refines c l g x now h
step-Refines c l (looks_up g now) h = (get_at-Refines c l g now h).1

step-limits :
    (c : AuditProcessCache) (call : Call)
    → ((step c call).capacity ≡ c.capacity) × ((step c call).ttl ≡ c.ttl)
unfolding step insert_exec_at get_at insert_at remove evict_oldest_if_full store
step-limits c (executes g x now) = ground arith
step-limits c (looks_up g now) = ground arith

run_calls-Refines_from :
    (c : AuditProcessCache) (l : Entries) (calls : List Call)
    → Refines c l
    → Refines (run_calls c calls) (list_run c.capacity c.ttl l calls)
unfolding run_calls list_run
run_calls-Refines_from c l [] h = h
run_calls-Refines_from c l (call ∷ calls) h =
    let (capacity, ttl) = step-limits c call in
    subst
      (λ n.
        Refines (run_calls (step c call) calls)
          (list_run n c.ttl (list_step c.capacity c.ttl l call) calls))
      capacity
      (subst
        (λ t.
          Refines (run_calls (step c call) calls)
            (list_run (step c call).capacity t (list_step c.capacity c.ttl l call) calls))
        ttl
        (run_calls-Refines_from (step c call) (list_step c.capacity c.ttl l call) calls
          (step-Refines c l call h)))

-- After any history of executions and lookups, at any times, a process cache is the list of
-- entries that the same history makes of the empty one: it finds what the list finds, holds no
-- generation twice and no more than its capacity, and its insertion order lists just the
-- generations that it holds.
pub run_calls-Refines :
    (capacity ttl : ℕ) (calls : List Call)
    → Refines (run_calls (with_limits capacity ttl) calls) (list_run capacity ttl [] calls)
unfolding with_limits
run_calls-Refines capacity ttl calls =
    run_calls-Refines_from (with_limits capacity ttl) [] calls (with_limits-Refines capacity ttl)
