-- ===== src/Fanotify/AuditProcess.antt =====
-- src/fanotify/audit_process.rs: executable identities by process generation, for processes that end
-- before they can be inspected. An `Instant` is a number of nanoseconds, given to each call.
pub mod Recency
pub mod Bounds
pub mod Expiry
mod Tests
use config_guard.Base.{
  ℕ, zero, suc, ◌+◌, ◌-◌, ◌*◌, ◌≡◌, refl, Bool, true, false, not, ◌&&◌, ◌||◌, List, [], ◌∷◌, ◌++◌,
  Option, none, some, arith, Eq, Eq_of_sound, ◌==◌, leb, ltb, if◌then◌else◌, is_some_and, and_then,
  length, nat_eq, list_beq,
}
use config_guard.Std.Bytes as Bytes
use config_guard.Std.Bytes.{bytes}
use config_guard.Std.FilePath.{file_name_str}
use config_guard.Std.Map as Map
use config_guard.Std.Map.{Map}
use config_guard.Process.Identity.{ProcessIdentity}
use mathlib.Core.Option

pub record ProcessGeneration : Type 0 where
  pub device : ℕ
  pub inode : ℕ

unfoldable pub generation_beq : ProcessGeneration → ProcessGeneration → Bool
generation_beq a b = a.device == b.device && a.inode == b.inode

pub generation_refl : (a : ProcessGeneration) → generation_beq a a ≡ true
unfolding generation_beq
generation_refl a = ground arith

pub generation_sound : (a b : ProcessGeneration) → generation_beq a b ≡ true → a ≡ b
unfolding generation_beq
generation_sound a b h = ground arith

instance abbrev pub generation_eq : Eq ProcessGeneration
generation_eq = Eq_of_sound generation_beq generation_refl generation_sound

pub record CachedIdentity : Type 0 where
  pub identity : ProcessIdentity
  pub recorded_at : ℕ

pub record AuditProcessCache : Type 0 where
  pub capacity : ℕ
  pub ttl : ℕ
  pub identities : Map ProcessGeneration CachedIdentity
  pub insertion_order : List ProcessGeneration

abbrev pub default_capacity : ℕ
default_capacity = 4096

abbrev pub default_ttl : ℕ
default_ttl = 30 * 1_000_000_000

abbrev pub pid_fs_magic : ℕ
pid_fs_magic = 0x5049_4446

-- Whether a descriptor's file system is the one of process descriptors.
unfoldable pub ensure_pidfs_magic : ℕ → Bool
ensure_pidfs_magic actual_magic = actual_magic == pid_fs_magic

-- What the kernel tells of a descriptor: the kind of its file system, and its device and inode.
pub record PidFd : Type 0 where
  pub fstatfs : ℕ → Option ℕ
  pub fstat : ℕ → Option (ℕ × ℕ)

unfoldable pub validate_pidfs : PidFd → ℕ → Bool
validate_pidfs kernel pidfd = is_some_and (kernel.fstatfs pidfd) ensure_pidfs_magic

-- `ProcessGeneration::from_pidfd`.
unfoldable pub from_pidfd : PidFd → ℕ → Option ProcessGeneration
from_pidfd kernel pidfd =
    if validate_pidfs kernel pidfd
    then Option.map (λ stat. record { device = stat.0; inode = stat.1 }) (kernel.fstat pidfd)
    else none

unfoldable pub with_limits : ℕ → ℕ → AuditProcessCache
with_limits capacity ttl = record {
  capacity = capacity;
  ttl = ttl;
  identities = [];
  insertion_order = [];
}

unfoldable pub is_dynamic_loader : ProcessIdentity → Bool
is_dynamic_loader identity = is_some_and (and_then identity.executable file_name_str) (λ name.
    Bytes.starts_with (bytes "ld-linux") name
    || Bytes.starts_with (bytes "ld-musl") name
    || list_beq name (bytes "ld.so"))

-- `position` and `VecDeque::remove`.
unfoldable pub remove_queued : ProcessGeneration → List ProcessGeneration → List ProcessGeneration
remove_queued g [] = []
remove_queued g (queued ∷ order) =
    if generation_beq queued g then order else queued ∷ remove_queued g order

unfoldable pub remove : AuditProcessCache → ProcessGeneration → AuditProcessCache
remove c g = record c {
  identities = Map.remove g c.identities;
  insertion_order = remove_queued g c.insertion_order;
}

unfoldable pub evict_loop :
    ℕ
    → Map ProcessGeneration CachedIdentity
    → List ProcessGeneration
    → Map ProcessGeneration CachedIdentity × List ProcessGeneration
evict_loop capacity m [] = (m, [])
evict_loop capacity m (oldest ∷ order) =
    let rest = evict_loop capacity (Map.remove oldest m) order in
    if leb capacity (length m) then rest else (m, oldest ∷ order)

unfoldable pub evict_oldest_if_full : AuditProcessCache → AuditProcessCache
evict_oldest_if_full c =
    let left = evict_loop c.capacity c.identities c.insertion_order in
    record c { identities = left.0; insertion_order = left.1 }

unfoldable pub store : AuditProcessCache → ProcessGeneration → CachedIdentity → AuditProcessCache
store c g cached = record c {
  identities = Map.insert g cached c.identities;
  insertion_order = c.insertion_order ++ g ∷ [];
}

unfoldable pub insert_at :
    AuditProcessCache → ProcessGeneration → ProcessIdentity → ℕ → AuditProcessCache
insert_at c g identity now =
    if c.capacity == 0
    then c
    else store (evict_oldest_if_full (remove c g)) g
        (record { identity = identity; recorded_at = now })

-- `duration_since` is 0 for a later instant.
unfoldable pub is_expired : AuditProcessCache → ProcessGeneration → ℕ → Bool
is_expired c g now =
    is_some_and (Map.get g c.identities) (λ cached. ltb c.ttl (now - cached.recorded_at))

unfoldable pub get_at :
    AuditProcessCache → ProcessGeneration → ℕ → Option ProcessIdentity × AuditProcessCache
get_at c g now =
    if is_expired c g now
    then (none, remove c g)
    else (Option.map (λ cached. cached.identity) (Map.get g c.identities), c)

-- A loader does not replace a recent main executable. The lookup is made for a loader only, and may
-- drop an expired entry.
unfoldable pub insert_exec_at :
    AuditProcessCache → ProcessGeneration → ProcessIdentity → ℕ → AuditProcessCache
insert_exec_at c g identity now =
    if is_dynamic_loader identity
    then (let seen = get_at c g now in
        if is_some_and seen.0 (λ cached. not (is_dynamic_loader cached))
        then seen.1
        else insert_at seen.1 g identity now)
    else insert_at c g identity now
