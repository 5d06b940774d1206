-- ===== src/Fanotify/AuditIdentity/Log.antt =====
-- The abstract view of the identity cache: one log of the entries, oldest first, of which each key
-- sees its own in order.
use config_guard.Base.{
  ℕ, zero, suc, ◌+◌, ◌≤◌, ◌≡◌, refl, ap, Bool, not, List, [], ◌∷◌, ◌++◌, map, arith, ◌==◌, leb,
  ◌==◌, if◌then◌else◌, is_some_and, last, length, keep,
}
use config_guard.Process.Identity.{ProcessIdentity}
use config_guard.Fanotify.AuditIdentity.{
  AuditIdentityKey, identity_key_beq, identity_key_refl, identity_key_sound, identity_key_eq,
  same_generation, remove_first,
}

abbrev pub Log : Type 0
Log = List (AuditIdentityKey × ProcessIdentity)

abbrev pub keys : Log → List AuditIdentityKey
keys = map (λ e. e.0)

-- What a key has waiting.
unfoldable pub values : AuditIdentityKey → Log → List ProcessIdentity
values k [] = []
values k ((j, x) ∷ l) = if identity_key_beq j k then x ∷ values k l else values k l

unfoldable pub without : AuditIdentityKey → Log → Log
without k [] = []
without k ((j, x) ∷ l) = if identity_key_beq j k then without k l else (j, x) ∷ without k l

unfoldable pub without_first : AuditIdentityKey → Log → Log
without_first k [] = []
without_first k ((j, x) ∷ l) = if identity_key_beq j k then l else (j, x) ∷ without_first k l

-- The oldest entries go until there is room for one more.
unfoldable pub trim : ℕ → Log → Log
trim capacity [] = []
trim capacity (e ∷ l) = if leb capacity (suc (length l)) then trim capacity l else e ∷ l

-- Another generation of the process is at hand than the one last seen at the key.
unfoldable pub outdated : AuditIdentityKey → ProcessIdentity → Log → Bool
outdated k identity l = is_some_and (last (values k l)) (λ x. not (same_generation x identity))

-- A log without capacity stays as it is.
unfoldable pub enter : ℕ → AuditIdentityKey → ProcessIdentity → Log → Log
enter capacity k identity l =
    if capacity == 0
    then l
    else trim capacity (if outdated k identity l then without k l else l) ++ (k, identity) ∷ []

module _ (k j : AuditIdentityKey) where
  pub values-without :
      (l : Log) → values j (without k l) ≡ (if identity_key_beq k j then [] else values j l)
  unfolding values without
  values-without [] = ground arith
  values-without ((i, x) ∷ l) =
      ground (
        arith,
        values-without l,
        identity_key_sound i k,
        identity_key_sound k j,
        identity_key_refl k,
      )

  pub values-append :
      (x : ProcessIdentity) (l : Log)
      → values j (l ++ (k, x) ∷ [])
        ≡ (if identity_key_beq k j then values j l ++ x ∷ [] else values j l)
  unfolding values
  values-append x [] = ground arith
  values-append x ((i, y) ∷ l) = ground (arith, values-append x l)

abbrev pub drop_head : List ProcessIdentity → List ProcessIdentity
drop_head [] = []
drop_head (x ∷ xs) = xs

pub values-without_first :
    (k j : AuditIdentityKey) (l : Log)
    → values j (without_first k l)
      ≡ (if identity_key_beq k j then drop_head (values j l) else values j l)
unfolding values without_first
values-without_first k j [] = ground arith
values-without_first k j ((i, x) ∷ l) = ground (
  arith,
  values-without_first k j l,
  identity_key_sound i k,
  identity_key_sound k j,
  identity_key_refl k,
)

pub keys-without :
    (k : AuditIdentityKey) (l : Log)
    → keys (without k l) ≡ keep (λ queued. not (identity_key_beq queued k)) (keys l)
unfolding without keep
keys-without k [] = refl
keys-without k ((i, x) ∷ l) = ground (arith, keys-without k l)

pub keys-without_first :
    (k : AuditIdentityKey) (l : Log) → keys (without_first k l) ≡ remove_first k (keys l)
unfolding without_first remove_first
keys-without_first k [] = refl
keys-without_first k ((i, x) ∷ l) = ground (arith, keys-without_first k l)

pub keys-append :
    (k : AuditIdentityKey) (x : ProcessIdentity) (l : Log)
    → keys (l ++ (k, x) ∷ []) ≡ keys l ++ k ∷ []
keys-append k x [] = refl
keys-append k x ((i, y) ∷ l) = ap (◌∷◌ i) (keys-append k x l)

pub length-without :
    (k : AuditIdentityKey) (l : Log) → length (without k l) + length (values k l) ≡ length l
unfolding without values
length-without k [] = omega arith
length-without k ((i, x) ∷ l) = ground (arith, length-without k l)

pub length-without_first :
    (k : AuditIdentityKey) (l : Log) (x : ProcessIdentity) (q : List ProcessIdentity)
    → values k l ≡ x ∷ q
    → length (without_first k l) + 1 ≡ length l
unfolding without_first values
length-without_first k [] x q h = cc
length-without_first k ((i, y) ∷ l) x q h = ground (arith, length-without_first k l x q)

-- After a trim there is room for one more, and the trimmed log is an end of the log.
pub length-trim :
    (capacity : ℕ) (l : Log) → suc zero ≤ capacity → length (trim capacity l) + 1 ≤ capacity
unfolding trim
length-trim capacity [] h = omega arith
length-trim capacity (e ∷ l) h = ground (arith, length-trim capacity l)

pub without_first_absent :
    (k : AuditIdentityKey) (l : Log) → values k l ≡ [] → without_first k l ≡ l
unfolding without_first values
without_first_absent k [] h = refl
without_first_absent k ((i, x) ∷ l) h = ground (arith, without_first_absent k l)
