-- ===== src/Fanotify/AuditProcess/Expiry.antt =====
-- src/fanotify/audit_process.rs: which identity a lookup may give.
use config_guard.Base.{
  ℕ, ◌+◌, ◌-◌, ◌≤◌, ◌<◌, ◌≡◌, refl, ◌∙◌, sym, ◌⊎◌, inl, inr, Bool, true, false, not, ◌&&◌, [], ◌∷◌,
  Option, some, arith, ◌==◌, if◌then◌else◌, is_some_and, length, Bool-cases, Option-cases,
}
use config_guard.Std.Map as Map
use config_guard.Std.Map.{get-remove}
use config_guard.Std.Distinct.{IsDistinct, get-append, length-remove}
use config_guard.Process.Identity.{ProcessIdentity}
use config_guard.Fanotify.AuditProcess.{
  ProcessGeneration, generation_beq, generation_refl, generation_eq, CachedIdentity,
  AuditProcessCache, is_dynamic_loader, remove, insert_at, is_expired, get_at, insert_exec_at,
  evict_oldest_if_full, store,
}
use config_guard.Fanotify.AuditProcess.Recency.{
  Entries, Refines, trim, record_entry, insert_at-Refines, absent_after_trim,
}
use config_guard.Fanotify.AuditProcess.Bounds.{stale, recent, sweep, get_at-Refines}

-- An identity that a lookup gives was recorded for just that generation, and no longer ago than
-- the time to live.
pub get_at-within_ttl :
    (c : AuditProcessCache) (g : ProcessGeneration) (now : ℕ) (x : ProcessIdentity)
    → (get_at c g now).0 ≡ some x
    → (v : CachedIdentity) × (Map.get g c.identities ≡ some v)
      × (v.identity ≡ x)
      × (now - v.recorded_at ≤ c.ttl)
unfolding get_at is_expired
get_at-within_ttl c g now x h = elim (Option-cases (Map.get g c.identities)) [
  | inl e ↦ absurd (ground arith)
  | inr (v, e) ↦ (v, e, ground arith, ground arith)
]

get-record_entry :
    (capacity : ℕ) (g : ProcessGeneration) (v : CachedIdentity) (l : Entries)
    → 0 < capacity
    → Map.get g (record_entry capacity g v l) ≡ some v
unfolding record_entry
get-record_entry capacity g v l pos =
    let some_held : (capacity == 0) ≡ false = ground arith in
    rw (some_held, record_entry)
      (get-append g g v (trim capacity (Map.remove g l)) (absent_after_trim capacity g l)
        ∙ (rw (generation_refl g) refl))

insert_at-limits :
    (c : AuditProcessCache) (g : ProcessGeneration) (x : ProcessIdentity) (now : ℕ)
    → (insert_at c g x now).ttl ≡ c.ttl
unfolding insert_at remove evict_oldest_if_full store
insert_at-limits c g x now = ground arith

-- A lookup no later than the time to live after an insertion finds the inserted identity.
pub get_at-insert_at :
    (c : AuditProcessCache) (l : Entries) (g : ProcessGeneration) (x : ProcessIdentity)
    (now later : ℕ)
    → Refines c l
    → 0 < c.capacity
    → later - now ≤ c.ttl
    → (get_at (insert_at c g x now) g later).0 ≡ some x
unfolding recent stale
get_at-insert_at c l g x now later h pos soon =
    let v : CachedIdentity = record { identity = x; recorded_at = now } in
    let kept = get-record_entry c.capacity g v l pos in
    let limits = insert_at-limits c g x now in
    (get_at-Refines (insert_at c g x now) (record_entry c.capacity g v l) g later
      (insert_at-Refines c l g x now h)).0
    ∙ (rw (kept, recent, stale, limits) (ground arith))

keeps : ProcessIdentity → Option ProcessIdentity → Bool
keeps x seen = is_dynamic_loader x && is_some_and seen (λ main. not (is_dynamic_loader main))

insert_exec_at-insert :
    (c : AuditProcessCache) (g : ProcessGeneration) (x : ProcessIdentity) (now : ℕ)
    → keeps x (get_at c g now).0 ≡ false
    → (insert_exec_at c g x now ≡ insert_at c g x now)
      ⊎ ((is_dynamic_loader x ≡ true)
          × (insert_exec_at c g x now ≡ insert_at (get_at c g now).1 g x now))
unfolding insert_exec_at keeps
insert_exec_at-insert c g x now h = ground arith

get_at_twice :
    (c : AuditProcessCache) (g : ProcessGeneration) (now : ℕ) (x : ProcessIdentity)
    → (get_at c g now).0 ≡ some x
    → (get_at c g now).1 ≡ c
unfolding get_at
get_at_twice c g now x h = ground arith

get_at-limits :
    (c : AuditProcessCache) (g : ProcessGeneration) (now : ℕ)
    → ((get_at c g now).1.capacity ≡ c.capacity) × ((get_at c g now).1.ttl ≡ c.ttl)
unfolding get_at remove
get_at-limits c g now = ground arith

insert_exec_at-keeps :
    (c : AuditProcessCache) (g : ProcessGeneration) (x : ProcessIdentity) (now : ℕ)
    → keeps x (get_at c g now).0 ≡ true
    → insert_exec_at c g x now ≡ (get_at c g now).1
unfolding insert_exec_at keeps
insert_exec_at-keeps c g x now h = ground arith

-- In a cache with room for an entry that shows a list of entries, the identity of a generation
-- right after an execution is recorded is the executed one, except that a dynamic loader leaves in
-- place a main executable that a lookup then gives.
pub exec_identity :
    (c : AuditProcessCache) (l : Entries) (g : ProcessGeneration) (x : ProcessIdentity) (now : ℕ)
    → Refines c l
    → 0 < c.capacity
    → (get_at (insert_exec_at c g x now) g now).0 ≡ (
        if is_dynamic_loader x
          && is_some_and (get_at c g now).0 (λ main. not (is_dynamic_loader main))
        then (get_at c g now).0
        else some x)
unfolding keeps
exec_identity c l g x now h pos = elim (Bool-cases (keeps x (get_at c g now).0)) [
  | inl kept ↦ elim (Option-cases (get_at c g now).0) [
    | inl e ↦ absurd (ground arith)
    | inr (main, e) ↦
        rw (insert_exec_at-keeps c g x now kept, get_at_twice c g now main e, kept) refl
  ]
  | inr entered ↦ rw entered (elim (insert_exec_at-insert c g x now entered) [
    | inl same ↦ rw same (get_at-insert_at c l g x now now h pos (omega arith))
    | inr (_, same) ↦
        let (capacity, ttl) = get_at-limits c g now in
        rw same (
          get_at-insert_at (get_at c g now).1 (sweep c.ttl g now l) g x now now
            (get_at-Refines c l g now h).1 (rw capacity pos) (omega arith))
  ])
]

trim_room : (capacity : ℕ) (l : Entries) → length l + 1 ≤ capacity → trim capacity l ≡ l
unfolding trim
trim_room capacity [] h = refl
trim_room capacity (e ∷ l) h = ground arith

get-record_entry_other :
    (capacity : ℕ) (g j : ProcessGeneration) (v : CachedIdentity) (l : Entries)
    → generation_beq g j ≡ false
    → IsDistinct l
    → length l + 1 ≤ capacity
    → Map.get j (record_entry capacity g v l) ≡ Map.get j l
unfolding record_entry
get-record_entry_other capacity g j v l other d room =
    let some_held : (capacity == 0) ≡ false = ground arith in
    let room' : length (Map.remove g l) + 1 ≤ capacity = omega (arith, length-remove g l d) in
    let whole = trim_room capacity (Map.remove g l) room' in
    let absent = absent_after_trim capacity g l in
    rw (some_held, record_entry)
      (get-append g j v (trim capacity (Map.remove g l)) absent
        ∙ (rw (other, whole) (get-remove g j l ∙ (rw other refl))))

-- While there is room, an insertion changes nothing that a lookup of another generation gives: a
-- reused process id, which comes with a new generation, leaves the old one's identity alone.
pub get_at-insert_at_other :
    (c : AuditProcessCache) (l : Entries) (g j : ProcessGeneration) (x : ProcessIdentity)
    (now later : ℕ)
    → Refines c l
    → length l + 1 ≤ c.capacity
    → generation_beq g j ≡ false
    → (get_at (insert_at c g x now) j later).0 ≡ (get_at c j later).0
unfolding recent stale
get_at-insert_at_other c l g j x now later h room other =
    let v : CachedIdentity = record { identity = x; recorded_at = now } in
    let same = get-record_entry_other c.capacity g j v l other h.shows.distinct room in
    (get_at-Refines (insert_at c g x now) (record_entry c.capacity g v l) j later
      (insert_at-Refines c l g x now h)).0
    ∙ (rw (insert_at-limits c g x now, recent, stale, same) refl)
    ∙ sym (get_at-Refines c l j later h).0
