-- ===== src/Fanotify/AuditIdentity/Refinement.antt =====
-- src/fanotify/audit_identity.rs: the cache behaves as one bounded log of entries.
use config_guard.Base.{
  ℕ, ◌+◌, ◌≤◌, ◌<◌, ◌≡◌, refl, ap, ◌∙◌, sym, not, List, [], ◌∷◌, ◌++◌, arith, ◌==◌, is_some_and,
  and_then, unwrap_or, last, first, length, length-append, inl, inr, Bool-cases, nat_eq,
}
use config_guard.Std.Map as Map
use config_guard.Std.Map.{Map}
use config_guard.Process.Identity.{ProcessIdentity}
use config_guard.Fanotify.AuditIdentity.{
  AuditObjectId, AuditIdentityKey, identity_key_beq, identity_key_sound, identity_key_eq,
  AuditIdentityCache, with_capacity, invalidate_key, evict_oldest_if_full, push_back,
  same_generation, generation_changed, insert, take, invalidate,
}
use config_guard.Fanotify.AuditIdentity.Log.{
  Log, keys, values, without, without_first, trim, outdated, enter, values-without_first,
  keys-without, keys-without_first, keys-append, length-without, length-without_first, length-trim,
  without_first_absent,
}
use config_guard.Fanotify.AuditIdentity.Queues.{
  nonempty, Shows, get-put_back, remove-Shows, append-Shows, evict_loop-trim,
}

-- The three fields of the cache are three views of one log that fits its capacity: the queue of each
-- key, the order of insertion, and the number of entries.
pub record Refines (c : AuditIdentityCache) (l : Log) : Type 0 where
  pub queues : Shows c.identities l
  pub order : c.insertion_order ≡ keys l
  pub count : c.entry_count ≡ length l
  pub bounded : length l ≤ c.capacity

-- A new cache is an empty log.
pub with_capacity-Refines : (capacity : ℕ) → Refines (with_capacity capacity) []
unfolding with_capacity Map.get values
with_capacity-Refines capacity = record {
  queues = λ k. refl;
  order = refl;
  count = refl;
  bounded = omega arith;
}

abbrev key_of : ℕ → AuditObjectId → AuditIdentityKey
key_of pid object = record { pid = pid; object = object }

length-nonempty : (q : List ProcessIdentity) → length (unwrap_or (nonempty q) []) ≡ length q
length-nonempty [] = refl
length-nonempty (x ∷ q) = refl

invalidate_key-Refines :
    (c : AuditIdentityCache) (l : Log) (k : AuditIdentityKey)
    → Refines c l
    → Refines (invalidate_key c k) (without k l)
unfolding invalidate_key
invalidate_key-Refines c l k h = record {
  queues = remove-Shows k c.identities l h.queues;
  order = rw h.order (sym (keys-without k l));
  count =
      let removed = ap (λ q. length (unwrap_or q [])) (h.queues k) ∙ length-nonempty (values k l) in
      omega (arith, h.count, removed, length-without k l);
  bounded = omega (arith, h.bounded, length-without k l);
}

-- `invalidate` forgets the entries of one process and file, and only those.
pub invalidate-Refines :
    (c : AuditIdentityCache) (l : Log) (pid : ℕ) (object : AuditObjectId)
    → Refines c l
    → Refines (invalidate c pid object) (without (record { pid = pid; object = object }) l)
unfolding invalidate
invalidate-Refines c l pid object h = invalidate_key-Refines c l (key_of pid object) h

evict-Refines :
    (c : AuditIdentityCache) (l : Log)
    → 0 < c.capacity
    → Refines c l
    → Refines (evict_oldest_if_full c) (trim c.capacity l)
unfolding evict_oldest_if_full
evict-Refines c l pos h = rw h.order (
    let (count, queues, order) =
      evict_loop-trim c.capacity c.entry_count c.identities l h.count h.queues in
    record {
      queues = queues;
      order = order;
      count = count;
      bounded = omega (arith, length-trim c.capacity l);
    })

push_back-Refines :
    (c : AuditIdentityCache) (l : Log) (k : AuditIdentityKey) (x : ProcessIdentity)
    → length l + 1 ≤ c.capacity
    → Refines c l
    → Refines (push_back c k x) (l ++ (k, x) ∷ [])
unfolding push_back
push_back-Refines c l k x room h = record {
  queues = append-Shows k x c.identities l h.queues;
  order = rw h.order (sym (keys-append k x l));
  count = omega (arith, h.count, length-append l ((k, x) ∷ []));
  bounded = omega (arith, length-append l ((k, x) ∷ []));
}

generation_changed-outdated :
    (c : AuditIdentityCache) (l : Log) (k : AuditIdentityKey) (x : ProcessIdentity)
    → Refines c l
    → generation_changed c k x ≡ outdated k x l
unfolding generation_changed outdated
generation_changed-outdated c l k x h = rw (h.queues k) (go (values k l))
  where
    go :
        (q : List ProcessIdentity)
        → is_some_and (and_then (nonempty q) last) (λ y. not (same_generation y x))
          ≡ is_some_and (last q) (λ y. not (same_generation y x))
    go [] = refl
    go (y ∷ q) = refl

entered :
    (c : AuditIdentityCache) (l : Log) (k : AuditIdentityKey) (x : ProcessIdentity)
    → 0 < c.capacity
    → Refines c l
    → Refines (push_back (evict_oldest_if_full c) k x) (trim c.capacity l ++ (k, x) ∷ [])
unfolding evict_oldest_if_full
entered c l k x pos h =
    push_back-Refines (evict_oldest_if_full c) (trim c.capacity l) k x
      (length-trim c.capacity l pos) (evict-Refines c l pos h)

-- `insert` enters the identity into the log: it first drops the entries of an earlier generation at
-- the key, then the oldest entries until there is room. A cache without capacity is left as it is.
pub insert-Refines :
    (c : AuditIdentityCache) (l : Log) (pid : ℕ) (object : AuditObjectId) (x : ProcessIdentity)
    → Refines c l
    → Refines (insert c pid object x) (enter c.capacity (record { pid = pid; object = object }) x l)
unfolding insert enter invalidate_key
insert-Refines c l pid object x h = elim (Bool-cases (c.capacity == 0)) [
  | inl none_held ↦ rw (none_held, insert, enter) h
  | inr some_held ↦
      rw (some_held, insert, enter, generation_changed-outdated c l (key_of pid object) x h)
        (elim (Bool-cases (outdated (key_of pid object) x l)) [
          | inl old ↦ rw old (
              entered (invalidate_key c (key_of pid object)) (without (key_of pid object) l)
                (key_of pid object) x (ground arith)
                (invalidate_key-Refines c l (key_of pid object) h))
          | inr new ↦ rw new (entered c l (key_of pid object) x (ground arith) h)
        ])
]

-- `take` gives back the oldest entry of the process and file, and removes just that entry; it changes
-- nothing if there is none.
pub take-Refines :
    (c : AuditIdentityCache) (l : Log) (pid : ℕ) (object : AuditObjectId)
    → Refines c l
    → ((take c pid object).0 ≡ first (values (record { pid = pid; object = object }) l))
      × Refines (take c pid object).1 (without_first (record { pid = pid; object = object }) l)
unfolding take
take-Refines c l pid object h = go (values k l) refl
  where
    k : AuditIdentityKey
    k = key_of pid object

    go :
        (q : List ProcessIdentity)
        → values k l ≡ q
        → ((take c pid object).0 ≡ first (values k l))
          × Refines (take c pid object).1 (without_first k l)
    go [] e = rw (h.queues k, e, take) (refl, rw (without_first_absent k l e) h)
    go (x ∷ q) e =
        rw (h.queues k, e, take)
          (
            refl,
            record {
              queues = λ j.
                  get-put_back k j q c.identities ∙ elim (Bool-cases (identity_key_beq k j)) [
                    | inl t ↦
                        let same = identity_key_sound k j t in
                        rw (t, values-without_first k j l, t, ← same, e) refl
                    | inr t ↦ rw (t, values-without_first k j l, t) (h.queues j)
                  ];
              order = rw h.order (sym (keys-without_first k l));
              count = omega (arith, h.count, length-without_first k l x q e);
              bounded = omega (arith, h.bounded, length-without_first k l x q e);
            },
          )
