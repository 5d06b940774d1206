-- ===== src/Fanotify/AuditIdentity.antt =====
-- src/fanotify/audit_identity.rs: the bounded queues of process identities that lead from an open to
-- its close. Counters are unbounded numbers; the refinement shows that no subtraction stops at 0.
pub mod Log
pub mod Queues
pub mod Refinement
pub mod History
pub mod Generation
mod Tests
use config_guard.Base.{
  ℕ, zero, suc, ◌+◌, ◌-◌, ◌≡◌, refl, Bool, true, false, not, ◌&&◌, List, [], ◌∷◌, ◌++◌, Option,
  none, some, arith, Eq, Eq_of_sound, ◌==◌, leb, if◌then◌else◌, is_some_and, and_then, unwrap_or,
  last, length, keep, nat_eq, option_beq,
}
use config_guard.Std.Map as Map
use config_guard.Std.Map.{Map}
use config_guard.Process.Identity.{ProcessIdentity}

pub record AuditObjectId : Type 0 where
  pub device : ℕ
  pub inode : ℕ

pub record AuditIdentityKey : Type 0 where
  pub pid : ℕ
  pub object : AuditObjectId

unfoldable pub identity_key_beq : AuditIdentityKey → AuditIdentityKey → Bool
identity_key_beq a b =
    a.pid == b.pid && a.object.device == b.object.device && a.object.inode == b.object.inode

pub identity_key_refl : (a : AuditIdentityKey) → identity_key_beq a a ≡ true
unfolding identity_key_beq
identity_key_refl a = ground arith

pub identity_key_sound : (a b : AuditIdentityKey) → identity_key_beq a b ≡ true → a ≡ b
unfolding identity_key_beq
identity_key_sound a b h = ground arith

instance abbrev pub identity_key_eq : Eq AuditIdentityKey
identity_key_eq = Eq_of_sound identity_key_beq identity_key_refl identity_key_sound

pub record AuditIdentityCache : Type 0 where
  pub capacity : ℕ
  pub entry_count : ℕ
  pub identities : Map AuditIdentityKey (List ProcessIdentity)
  pub insertion_order : List AuditIdentityKey

abbrev pub default_capacity : ℕ
default_capacity = 8192

unfoldable pub with_capacity : ℕ → AuditIdentityCache
with_capacity capacity = record {
  capacity = capacity;
  entry_count = 0;
  identities = [];
  insertion_order = [];
}

unfoldable pub invalidate_key : AuditIdentityCache → AuditIdentityKey → AuditIdentityCache
invalidate_key c key = record c {
  entry_count = c.entry_count - length (unwrap_or (Map.get key c.identities) []);
  identities = Map.remove key c.identities;
  insertion_order = keep (λ queued. not (identity_key_beq queued key)) c.insertion_order;
}

-- What is left of a queue after `pop_front`: an empty queue is removed from the map.
unfoldable pub put_back :
    AuditIdentityKey
    → List ProcessIdentity
    → Map AuditIdentityKey (List ProcessIdentity)
    → Map AuditIdentityKey (List ProcessIdentity)
put_back key [] m = Map.remove key m
put_back key (x ∷ q) m = Map.insert key (x ∷ q) m

-- The body of the eviction loop, on the count and the map.
unfoldable pub drop_oldest :
    ℕ
    → Map AuditIdentityKey (List ProcessIdentity)
    → AuditIdentityKey
    → ℕ × Map AuditIdentityKey (List ProcessIdentity)
drop_oldest n m oldest = elim (Map.get oldest m) [
  | none ↦ (n, m)
  | some [] ↦ (n, put_back oldest [] m)
  | some (x ∷ q) ↦ (n - 1, put_back oldest q m)
]

-- The loop ends by its test, or when the queue is empty.
unfoldable pub evict_loop :
    ℕ
    → ℕ
    → Map AuditIdentityKey (List ProcessIdentity)
    → List AuditIdentityKey
    → ℕ × Map AuditIdentityKey (List ProcessIdentity) × List AuditIdentityKey
evict_loop capacity n m [] = (n, m, [])
evict_loop capacity n m (oldest ∷ order) =
    let dropped = drop_oldest n m oldest in
    let rest = evict_loop capacity dropped.0 dropped.1 order in
    if leb capacity n then rest else (n, m, oldest ∷ order)

unfoldable pub evict_oldest_if_full : AuditIdentityCache → AuditIdentityCache
evict_oldest_if_full c =
    let left = evict_loop c.capacity c.entry_count c.identities c.insertion_order in
    record c { entry_count = left.0; identities = left.1; insertion_order = left.2 }

unfoldable pub push_back :
    AuditIdentityCache → AuditIdentityKey → ProcessIdentity → AuditIdentityCache
push_back c key identity = record c {
  entry_count = c.entry_count + 1;
  identities =
      Map.insert key (unwrap_or (Map.get key c.identities) [] ++ identity ∷ []) c.identities;
  insertion_order = c.insertion_order ++ key ∷ [];
}

abbrev pub same_generation : ProcessIdentity → ProcessIdentity → Bool
same_generation a b = option_beq a.start_time_ticks b.start_time_ticks

unfoldable pub generation_changed : AuditIdentityCache → AuditIdentityKey → ProcessIdentity → Bool
generation_changed c key identity =
    is_some_and (and_then (Map.get key c.identities) last)
      (λ cached. not (same_generation cached identity))

unfoldable pub insert :
    AuditIdentityCache → ℕ → AuditObjectId → ProcessIdentity → AuditIdentityCache
insert c pid object identity =
    if c.capacity == 0
    then c
    else let key : AuditIdentityKey = record { pid = pid; object = object } in
      let fresh = if generation_changed c key identity then invalidate_key c key else c in
      push_back (evict_oldest_if_full fresh) key identity

unfoldable pub remove_first : AuditIdentityKey → List AuditIdentityKey → List AuditIdentityKey
remove_first key [] = []
remove_first key (queued ∷ order) =
    if identity_key_beq queued key then order else queued ∷ remove_first key order

unfoldable pub take :
    AuditIdentityCache → ℕ → AuditObjectId → Option ProcessIdentity × AuditIdentityCache
take c pid object =
    let key : AuditIdentityKey = record { pid = pid; object = object } in
    elim (Map.get key c.identities) [
      | none ↦ (none, c)
      | some [] ↦ (none, c)
      | some (identity ∷ q) ↦ (
        some identity,
        record c {
          entry_count = c.entry_count - 1;
          identities = put_back key q c.identities;
          insertion_order = remove_first key c.insertion_order;
        },
      )
    ]

unfoldable pub invalidate : AuditIdentityCache → ℕ → AuditObjectId → AuditIdentityCache
invalidate c pid object = invalidate_key c (record { pid = pid; object = object })
