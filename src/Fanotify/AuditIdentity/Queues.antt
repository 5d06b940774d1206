-- ===== src/Fanotify/AuditIdentity/Queues.antt =====
-- src/fanotify/audit_identity.rs: what the map of queues shows of a log, and how its updates follow
-- the log's.
use config_guard.Base.{
  ℕ, suc, ◌-◌, ◌≡◌, refl, ◌∙◌, true, false, List, [], ◌∷◌, ◌++◌, Option, none, some, arith, leb,
  if◌then◌else◌, unwrap_or, length, inl, inr, Bool-cases, nat_eq,
}
use config_guard.Std.Map as Map
use config_guard.Std.Map.{Map, get-insert, get-remove}
use config_guard.Process.Identity.{ProcessIdentity}
use config_guard.Fanotify.AuditIdentity.{
  AuditIdentityKey, identity_key_beq, identity_key_refl, identity_key_sound, identity_key_eq,
  put_back, drop_oldest, evict_loop,
}
use config_guard.Fanotify.AuditIdentity.Log.{
  Log, keys, values, without, trim, values-without, values-append,
}

abbrev pub nonempty : List ProcessIdentity → Option (List ProcessIdentity)
nonempty [] = none
nonempty (x ∷ q) = some (x ∷ q)

-- The map holds for each key its part of the log, and no empty queue.
abbrev pub Shows : Map AuditIdentityKey (List ProcessIdentity) → Log → Type 0
Shows m l = (k : AuditIdentityKey) → Map.get k m ≡ nonempty (values k l)

pub get-put_back :
    (k j : AuditIdentityKey) (q : List ProcessIdentity)
    (m : Map AuditIdentityKey (List ProcessIdentity))
    → Map.get j (put_back k q m) ≡ (if identity_key_beq k j then nonempty q else Map.get j m)
unfolding put_back
get-put_back k j [] m = get-remove k j m
get-put_back k j (x ∷ q) m = get-insert k j (x ∷ q) m

pub remove-Shows :
    (k : AuditIdentityKey) (m : Map AuditIdentityKey (List ProcessIdentity)) (l : Log)
    → Shows m l
    → Shows (Map.remove k m) (without k l)
remove-Shows k m l h j = ground (arith, get-remove k j m, values-without k j l, h j)

pub append-Shows :
    (k : AuditIdentityKey) (x : ProcessIdentity) (m : Map AuditIdentityKey (List ProcessIdentity))
    (l : Log)
    → Shows m l
    → Shows (Map.insert k (unwrap_or (Map.get k m) [] ++ x ∷ []) m) (l ++ (k, x) ∷ [])
append-Shows k x m l h j =
    get-insert k j (unwrap_or (Map.get k m) [] ++ x ∷ []) m
    ∙ elim (Bool-cases (identity_key_beq k j)) [
      | inl e ↦
          let same = identity_key_sound k j e in
          rw (e, values-append k j x l, e, h k, same) (snoc (values j l))
      | inr e ↦ rw (e, values-append k j x l, e) (h j)
    ]
  where
    snoc :
        (q : List ProcessIdentity)
        → some (unwrap_or (nonempty q) [] ++ x ∷ []) ≡ nonempty (q ++ x ∷ [])
    snoc [] = refl
    snoc (y ∷ q) = refl

drop_oldest-step :
    (n : ℕ) (m : Map AuditIdentityKey (List ProcessIdentity)) (k : AuditIdentityKey)
    (x : ProcessIdentity) (l : Log)
    → Shows m ((k, x) ∷ l)
    → drop_oldest n m k ≡ (n - 1, put_back k (values k l) m)
unfolding drop_oldest values
drop_oldest-step n m k x l h = ground (arith, h k, identity_key_refl k)

drop_oldest-Shows :
    (m : Map AuditIdentityKey (List ProcessIdentity)) (k : AuditIdentityKey) (x : ProcessIdentity)
    (l : Log)
    → Shows m ((k, x) ∷ l)
    → Shows (put_back k (values k l) m) l
unfolding values
drop_oldest-Shows m k x l h j =
    ground (arith, get-put_back k j (values k l) m, h j, identity_key_sound k j)

-- The eviction loop takes from the count, the map and the order just what `trim` takes from the log.
pub evict_loop-trim :
    (capacity n : ℕ) (m : Map AuditIdentityKey (List ProcessIdentity)) (l : Log)
    → n ≡ length l
    → Shows m l
    → let r = evict_loop capacity n m (keys l) in
      (r.0 ≡ length (trim capacity l))
      × Shows r.1 (trim capacity l)
      × (r.2 ≡ keys (trim capacity l))
unfolding evict_loop trim
evict_loop-trim capacity n m [] e h = (e, h, refl)
evict_loop-trim capacity n m ((k, x) ∷ l) e h = elim (Bool-cases (leb capacity n)) [
  | inl full ↦ rw (drop_oldest-step n m k x l h) (
      let full' : leb capacity (suc (length l)) ≡ true = rw e at full in
      rw (full, full')
        (evict_loop-trim capacity (n - 1) (put_back k (values k l) m) l (omega arith)
          (drop_oldest-Shows m k x l h)))
  | inr room ↦
      let room' : leb capacity (suc (length l)) ≡ false = rw e at room in
      rw (room, room') (e, h, refl)
]
