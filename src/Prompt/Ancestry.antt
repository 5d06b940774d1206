-- ===== src/Prompt/Ancestry.antt =====
-- src/prompt.rs: `AncestryAuthorization` and its key. Whether a process generation is still alive is
-- asked of the kernel, so `is_process_generation_current` is an argument.
use config_guard.Base.{
  ℕ, ◌≡◌, Bool, true, false, ◌&&◌, List, [], ◌∷◌, Option, none, some, arith, Eq, is_some_and,
  unwrap_or, list_beq, nat_eq, if◌then◌else◌,
}
use config_guard.Std.Bytes.{Bytes, bytes}
use config_guard.Std.FilePath.{FilePath, file_name_str, path_beq, path_refl, path_sym, path_left}
use config_guard.Policy.Types.{
  Decision, allow, deny, prompt, DecisionReason, cross_owner_read, cross_owner_write,
  sensitive_read_by_dev_tool, sensitive_write,
}
use config_guard.Process.Identity.{ProcessIdentity, ProcessAncestor}
use config_guard.Prompt.Types.{AncestryAuthorization}

pub record AncestryAuthorizationKey : Type 0 where
  pub subject_executable : FilePath
  pub owner_executable : FilePath

unfoldable pub executable_name : FilePath → Bytes
executable_name executable = unwrap_or (file_name_str executable) (bytes "unknown")

unfoldable pub ancestor_matches_owner : ProcessAncestor → Bytes → Bool
ancestor_matches_owner a owner = list_beq (executable_name a.executable) owner

-- `skip_while(!matches)`.
unfoldable pub skip_to {ℓ} : {A : Type ℓ} → (A → Bool) → List A → List A
skip_to p [] = []
skip_to p (x ∷ xs) = if p x then x ∷ xs else skip_to p xs

unfoldable pub take_while {ℓ} : {A : Type ℓ} → (A → Bool) → List A → List A
take_while p [] = []
take_while p (x ∷ xs) = if p x then x ∷ take_while p xs else []

-- The loop of `owner_chain_root`, with its variable `root`: an ancestor without a start time ends the
-- function by `?`.
unfoldable pub chain_root : Option ProcessAncestor → List ProcessAncestor → Option ProcessAncestor
chain_root root [] = root
chain_root root (a ∷ as') = elim a.start_time_ticks [
  | none ↦ none
  | some _ ↦ chain_root (some a) as'
]

unfoldable pub owner_chain_root : ProcessIdentity → Bytes → Option ProcessAncestor
owner_chain_root p owner = chain_root none (
    take_while (λ a. ancestor_matches_owner a owner)
      (skip_to (λ a. ancestor_matches_owner a owner) p.ancestor_processes))

abbrev pub is_cross_owner : DecisionReason → Bool
is_cross_owner cross_owner_read = true
is_cross_owner cross_owner_write = true
is_cross_owner sensitive_read_by_dev_tool = false
is_cross_owner sensitive_write = false

authorize : Option FilePath → Option ProcessAncestor → Option AncestryAuthorization
authorize (some executable) (some owner) =
    some (record { subject_executable = executable; owner_ancestor = owner })
authorize _ _ = none

-- `AncestryAuthorization::new`.
unfoldable pub new : ProcessIdentity → Bytes → Decision → Option AncestryAuthorization
unfolding authorize
new p owner allow = none
new p owner deny = none
new p owner (prompt reason d scope) =
    if is_cross_owner reason then authorize p.executable (owner_chain_root p owner) else none

unfoldable pub key : AncestryAuthorization → AncestryAuthorizationKey
key a = record {
  subject_executable = a.subject_executable;
  owner_executable = a.owner_ancestor.executable;
}

unfoldable pub owner_is_current : (ℕ → ℕ → Bool) → AncestryAuthorization → Bool
owner_is_current is_current a =
    is_some_and a.owner_ancestor.start_time_ticks (λ t. is_current a.owner_ancestor.pid t)

unfoldable pub key_beq : AncestryAuthorizationKey → AncestryAuthorizationKey → Bool
key_beq a b =
    path_beq a.subject_executable b.subject_executable
    && path_beq a.owner_executable b.owner_executable

pub key_refl : (a : AncestryAuthorizationKey) → key_beq a a ≡ true
unfolding key_beq
key_refl a = ground (arith, path_refl a.subject_executable, path_refl a.owner_executable)

pub key_sym : (a b : AncestryAuthorizationKey) → key_beq a b ≡ key_beq b a
unfolding key_beq
key_sym a b = ground (
  arith,
  path_sym a.subject_executable b.subject_executable,
  path_sym a.owner_executable b.owner_executable,
)

pub key_left : (a b c : AncestryAuthorizationKey) → key_beq a b ≡ true → key_beq a c ≡ key_beq b c
unfolding key_beq
key_left a b c h = ground (
  arith,
  path_left a.subject_executable b.subject_executable c.subject_executable,
  path_left a.owner_executable b.owner_executable c.owner_executable,
)

instance abbrev pub key_eq : Eq AncestryAuthorizationKey
key_eq = record { beq = key_beq; beq_refl = key_refl; beq_sym = key_sym; beq_left = key_left }
