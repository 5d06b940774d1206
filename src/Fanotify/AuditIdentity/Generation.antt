-- ===== src/Fanotify/AuditIdentity/Generation.antt =====
-- src/fanotify/audit_identity.rs: what the cache guarantees after any history of calls.
use config_guard.Base.{
  ℕ, suc, ◌<◌, ◌≡◌, refl, ap, ◌∙◌, sym, subst, inl, inr, false, not, List, [], ◌∷◌, ◌++◌, Option,
  none, some, arith, ◌==◌, leb, if◌then◌else◌, is_some_and, last, first, length, Bool-cases, nat_eq,
  All, option_beq→eq,
}
use config_guard.Process.Identity.{ProcessIdentity}
use config_guard.Fanotify.AuditIdentity.{
  AuditObjectId, AuditIdentityKey, identity_key_beq, identity_key_refl, identity_key_sound,
  AuditIdentityCache, with_capacity, same_generation, insert, take,
}
use config_guard.Fanotify.AuditIdentity.Log.{
  Log, values, without, without_first, trim, outdated, enter, drop_head, values-without,
  values-append, values-without_first,
}
use config_guard.Fanotify.AuditIdentity.Refinement.{insert-Refines, take-Refines}
use config_guard.Fanotify.AuditIdentity.History.{
  Call, inserts, takes, invalidates, step, run, log_step, log_run, step-capacity, run-Refines,
}

-- All entries that one key holds are of one process generation.
abbrev pub IsUniform : Log → Type 0
IsUniform l =
    (k : AuditIdentityKey) → (t : Option ℕ) × All (λ x. x.start_time_ticks ≡ t) (values k l)

All-trim :
    (P : ProcessIdentity → Type 0) (k : AuditIdentityKey) (capacity : ℕ) (l : Log)
    → All P (values k l)
    → All P (values k (trim capacity l))
unfolding trim values
All-trim P k capacity [] h = tt
All-trim P k capacity ((j, x) ∷ l) h = elim (Bool-cases (leb capacity (suc (length l)))) [
  | inl full ↦ rw (full, trim) (All-trim P k capacity l (tail_of h))
  | inr room ↦ rw (room, trim) h
]
  where
    tail_of : All P (values k ((j, x) ∷ l)) → All P (values k l)
    tail_of h = elim (Bool-cases (identity_key_beq j k)) [
      | inl e ↦ (let h' : P x × All P (values k l) = rw (e, values) at h in h'.1)
      | inr e ↦ rw (e, values) at h
    ]

All-snoc :
    (P : ProcessIdentity → Type 0) (x : ProcessIdentity) (q : List ProcessIdentity)
    → All P q
    → P x
    → All P (q ++ x ∷ [])
All-snoc P x [] h hx = (hx, tt)
All-snoc P x (y ∷ q) h hx = (h.0, All-snoc P x q h.1 hx)

All-drop_head :
    (P : ProcessIdentity → Type 0) (q : List ProcessIdentity) → All P q → All P (drop_head q)
All-drop_head P [] h = tt
All-drop_head P (x ∷ q) h = h.1

-- Entries of one generation, the last of which is that of `x`, are all of the generation of `x`.
same_as_last :
    (x : ProcessIdentity) (t : Option ℕ) (q : List ProcessIdentity)
    → All (λ y. y.start_time_ticks ≡ t) q
    → is_some_and (last q) (λ y. not (same_generation y x)) ≡ false
    → All (λ y. y.start_time_ticks ≡ x.start_time_ticks) q
same_as_last x t [] h e = tt
same_as_last x t (y ∷ []) h e =
    (option_beq→eq y.start_time_ticks x.start_time_ticks (ground arith), tt)
same_as_last x t (y ∷ z ∷ q) h e =
    let rest = same_as_last x t (z ∷ q) h.1 e in (h.0 ∙ sym h.1.0 ∙ rest.0, rest)

-- What the key holds after an entry of `x`.
entered-generation :
    (capacity : ℕ) (k : AuditIdentityKey) (x : ProcessIdentity) (l : Log)
    → IsUniform l
    → (capacity == 0) ≡ false
    → All (λ y. y.start_time_ticks ≡ x.start_time_ticks) (values k (enter capacity k x l))
unfolding enter outdated
entered-generation capacity k x l u pos =
    rw
      (
        pos,
        enter,
        values-append k k x (trim capacity (if outdated k x l then without k l else l)),
        identity_key_refl k,
      )
      (All-snoc (λ y. y.start_time_ticks ≡ x.start_time_ticks) x _
        (All-trim _ k capacity (if outdated k x l then without k l else l) kept) refl)
  where
    kept :
        All
          (λ y. y.start_time_ticks ≡ x.start_time_ticks)
          (values k (if outdated k x l then without k l else l))
    kept = elim (Bool-cases (outdated k x l)) [
      | inl old ↦ rw (old, values-without k k l, identity_key_refl k) tt
      | inr new ↦ rw new (same_as_last x (u k).0 (values k l) (u k).1 new)
    ]

without_first-IsUniform :
    (k : AuditIdentityKey) (l : Log) → IsUniform l → IsUniform (without_first k l)
without_first-IsUniform k l u j = elim (Bool-cases (identity_key_beq k j)) [
  | inl e ↦ ((u j).0, rw (values-without_first k j l, e) (All-drop_head _ (values j l) (u j).1))
  | inr e ↦ ((u j).0, rw (values-without_first k j l, e) (u j).1)
]

without-IsUniform : (k : AuditIdentityKey) (l : Log) → IsUniform l → IsUniform (without k l)
without-IsUniform k l u j = elim (Bool-cases (identity_key_beq k j)) [
  | inl e ↦ (none, rw (values-without k j l, e) tt)
  | inr e ↦ ((u j).0, rw (values-without k j l, e) (u j).1)
]

enter-IsUniform :
    (capacity : ℕ) (k : AuditIdentityKey) (x : ProcessIdentity) (l : Log)
    → IsUniform l
    → IsUniform (enter capacity k x l)
unfolding enter
enter-IsUniform capacity k x l u j = elim (Bool-cases (capacity == 0)) [
  | inl z ↦ rw (z, enter) (u j)
  | inr pos ↦ elim (Bool-cases (identity_key_beq k j)) [
    | inl e ↦ (
      x.start_time_ticks,
      subst
          (λ i.
            All (λ y. y.start_time_ticks ≡ x.start_time_ticks) (values i (enter capacity k x l)))
          (identity_key_sound k j e) (entered-generation capacity k x l u pos),
    )
    | inr e ↦ (
      (u j).0,
      rw
          (
            pos,
            enter,
            values-append k j x (trim capacity (if outdated k x l then without k l else l)),
            e,
          )
          (All-trim _ j capacity (if outdated k x l then without k l else l) (other e)),
    )
  ]
]
  where
    other :
        identity_key_beq k j ≡ false
        → All
            (λ y. y.start_time_ticks ≡ (u j).0)
            (values j (if outdated k x l then without k l else l))
    other e = elim (Bool-cases (outdated k x l)) [
      | inl old ↦ rw (old, values-without k j l, e) (u j).1
      | inr new ↦ rw new (u j).1
    ]

log_step-IsUniform :
    (capacity : ℕ) (l : Log) (call : Call) → IsUniform l → IsUniform (log_step capacity l call)
unfolding log_step
log_step-IsUniform capacity l (inserts pid object x) u = enter-IsUniform capacity _ x l u
log_step-IsUniform capacity l (takes pid object) u = without_first-IsUniform _ l u
log_step-IsUniform capacity l (invalidates pid object) u = without-IsUniform _ l u

log_run-IsUniform :
    (capacity : ℕ) (l : Log) (calls : List Call)
    → IsUniform l
    → IsUniform (log_run capacity l calls)
unfolding log_run
log_run-IsUniform capacity l [] u = u
log_run-IsUniform capacity l (call ∷ calls) u =
    log_run-IsUniform capacity (log_step capacity l call) calls
      (log_step-IsUniform capacity l call u)

nil-IsUniform : IsUniform []
unfolding values
nil-IsUniform k = (none, tt)

first-snoc :
    (P : ProcessIdentity → Type 0) (x : ProcessIdentity) (q : List ProcessIdentity)
    → All P (q ++ x ∷ [])
    → (y : ProcessIdentity) × (first (q ++ x ∷ []) ≡ some y) × P y
first-snoc P x [] h = (x, refl, h.0)
first-snoc P x (y ∷ q) h = (y, refl, h.0)

run-capacity : (c : AuditIdentityCache) (calls : List Call) → (run c calls).capacity ≡ c.capacity
unfolding run
run-capacity c [] = refl
run-capacity c (call ∷ calls) = run-capacity (step c call) calls ∙ step-capacity c call

-- After any history of calls on a cache with room for an entry, an identity that is taken right
-- after an insertion for the same process id and file is there, and it is of the process
-- generation of the inserted one.
pub take-insert-generation :
    (capacity : ℕ) (calls : List Call) (pid : ℕ) (object : AuditObjectId) (x : ProcessIdentity)
    → 0 < capacity
    → (y : ProcessIdentity) × ((take
          (insert (run (with_capacity capacity) calls) pid object x)
          pid
          object).0
        ≡ some y)
      × (y.start_time_ticks ≡ x.start_time_ticks)
unfolding enter
take-insert-generation capacity calls pid object x pos =
    let l = log_run capacity [] calls in
    let c = run (with_capacity capacity) calls in
    let k : AuditIdentityKey = record { pid = pid; object = object } in
    let base = trim capacity (if outdated k x l then without k l else l) in
    let some_held : (capacity == 0) ≡ false = ground arith in
    let cap : c.capacity ≡ capacity =
      run-capacity (with_capacity capacity) calls ∙ (unfold with_capacity in refl) in
    let shape : values k (enter capacity k x l) ≡ values k base ++ x ∷ [] =
      rw (some_held, enter, values-append k k x base, identity_key_refl k) refl in
    let taken =
      (take-Refines _ _ pid object
        (insert-Refines c l pid object x (run-Refines capacity calls))).0 in
    let (y, there, same) =
      first-snoc (λ y. y.start_time_ticks ≡ x.start_time_ticks) x (values k base)
        (subst (All (λ y. y.start_time_ticks ≡ x.start_time_ticks)) shape (
          entered-generation capacity k x l (log_run-IsUniform capacity [] calls nil-IsUniform)
            some_held)) in
    (y, taken ∙ ap (λ n. first (values k (enter n k x l))) cap ∙ ap first shape ∙ there, same)
