-- ===== src/Prompt/Inspected.antt =====
-- src/prompt.rs and src/process.rs together: an authorization made for a process as procfs shows it.
use config_guard.Base.{
  ℕ, ◌≡◌, sym, ◌∙◌, subst, true, List, [], ◌∷◌, ◌++◌, Option, none, some, arith, ◌==◌, is_some_and,
  and_then, All,
}
use config_guard.Std.Bytes.{Bytes, bytes}
use config_guard.Policy.Types.{Decision}
use config_guard.Process.Identity.{ProcessIdentity}
use config_guard.Process.Stat.{parse_start_time_ticks}
use config_guard.Process.Procfs.{
  Procfs, read_to_string, proc_file, read_start_time_ticks, is_process_generation_current,
  inspect_process,
}
use config_guard.Process.Procfs.Ancestors.{IsAncestor, inspect_process-IsAncestor}
use config_guard.Prompt.Types.{AncestryAuthorization}
use config_guard.Prompt.Ancestry.{new, ancestor_matches_owner, owner_is_current}
use config_guard.Prompt.OwnerChain.{new_sound}
use mathlib.Core.Option

module _ {ℓ} {A : Type 0} (P : A → Type ℓ) where
  All-right : (xs ys : List A) → All P (xs ++ ys) → All P ys
  All-right [] ys h = h
  All-right (x ∷ xs) ys h = All-right xs ys h.1

  All-left : (xs ys : List A) → All P (xs ++ ys) → All P xs
  All-left [] ys h = tt
  All-left (x ∷ xs) ys h = (h.0, All-left xs ys h.1)

  All-last : (xs : List A) (a : A) → All P (xs ++ a ∷ []) → P a
  All-last xs a h = (All-right xs (a ∷ []) h).0

-- The start time that was found is that of the process, as long as procfs says the same.
current-start_time :
    (fs : Procfs) (pid ticks : ℕ)
    → and_then (read_to_string fs (proc_file pid (bytes "stat"))) parse_start_time_ticks
      ≡ some ticks
    → is_process_generation_current fs pid ticks ≡ true
unfolding is_process_generation_current read_start_time_ticks
current-start_time fs pid ticks h = current_of (read_to_string fs (proc_file pid (bytes "stat"))) h
  where
    current_of :
        (o : Option Bytes)
        → and_then o parse_start_time_ticks ≡ some ticks
        → is_some_and
            (and_then
              (and_then o (λ stat. Option.map some (parse_start_time_ticks stat)))
              (λ found. found))
            (λ found. found == ticks)
          ≡ true
    current_of none e = cc
    current_of (some stat) e = rw (e) (ground arith)

-- An authorization for a process as procfs shows it names one of its true ancestors, whose executable bears the
-- owner's name, and that owner counts as current as long as procfs says the same.
pub new-inspect_process :
    (fs : Procfs) (pid : ℕ) (p : ProcessIdentity) (owner : Bytes) (d : Decision)
    (a : AncestryAuthorization)
    → inspect_process fs pid ≡ some p
    → new p owner d ≡ some a
    → IsAncestor fs pid a.owner_ancestor
      × (ancestor_matches_owner a.owner_ancestor owner ≡ true)
      × (owner_is_current (is_process_generation_current fs) a ≡ true)
unfolding owner_is_current
new-inspect_process fs pid p owner d a h n =
    let chain = (new_sound p owner d a n).2 in
    let found = (inspect_process-IsAncestor fs pid p h).0 in
    let row =
      All-left _ (chain.row ++ a.owner_ancestor ∷ []) chain.rest
        (All-right _ chain.before _ (subst (All (IsAncestor fs pid)) chain.cut found)) in
    let listed = All-last _ chain.row a.owner_ancestor row in
    let (ticks, t) = chain.root in
    (
      listed,
      All-last _ chain.row a.owner_ancestor chain.owners,
      rw (t) (current-start_time fs a.owner_ancestor.pid ticks (sym listed.1.1 ∙ t)),
    )
