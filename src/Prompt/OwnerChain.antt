-- ===== src/Prompt/OwnerChain.antt =====
-- src/prompt.rs: which ancestor an authorization is tied to.
use config_guard.Base.{
  ℕ, ◌≡◌, refl, ap, subst, ◌∙◌, ◌⊎◌, inl, inr, Bool, true, false, List, [], ◌∷◌, ◌++◌, Option, none,
  some, arith, Bool-cases, Option-cases, All, first, is_some_and,
}
use config_guard.Std.Bytes.{Bytes}
use config_guard.Std.FilePath.{FilePath}
use config_guard.Policy.Types.{Decision, allow, deny, prompt, DecisionReason}
use config_guard.Process.Identity.{ProcessIdentity, ProcessAncestor}
use config_guard.Prompt.Types.{AncestryAuthorization}
use config_guard.Prompt.Ancestry.{
  ancestor_matches_owner, skip_to, take_while, chain_root, owner_chain_root, is_cross_owner, new,
}

module _ {A : Type 0} (p : A → Bool) where
  skip_to-split :
      (xs : List A)
      → (before : List A) × (xs ≡ before ++ skip_to p xs) × All (λ x. p x ≡ false) before
  unfolding skip_to
  skip_to-split [] = ([], refl, tt)
  skip_to-split (x ∷ xs) = elim (Bool-cases (p x)) [
    | inl e ↦ ([], rw (e, skip_to), tt)
    | inr e ↦
        let (before, split, without) = skip_to-split xs in
        (x ∷ before, rw (e, skip_to) (ap (◌∷◌ x) split), (e, without))
  ]

  take_while-split :
      (xs : List A)
      → (rest : List A) × (xs ≡ take_while p xs ++ rest)
        × All (λ x. p x ≡ true) (take_while p xs)
        × (is_some_and (first rest) p ≡ false)
  unfolding take_while
  take_while-split [] = ([], refl, tt, refl)
  take_while-split (x ∷ xs) = elim (Bool-cases (p x)) [
    | inl e ↦
        let (rest, split, with, stop) = take_while-split xs in
        (rest, rw (e, take_while) (ap (◌∷◌ x) split), rw (e, take_while) (e, with), stop)
    | inr e ↦ (x ∷ xs, rw (e, take_while), rw (e, take_while) tt, e)
  ]

-- An ancestor whose start time is known.
abbrev pub IsVerified : ProcessAncestor → Type 0
IsVerified a = (t : ℕ) × (a.start_time_ticks ≡ some t)

chain_root-last :
    (root : Option ProcessAncestor) (xs : List ProcessAncestor) (a : ProcessAncestor)
    → chain_root root xs ≡ some a
    → ((xs ≡ []) × (root ≡ some a))
      ⊎ ((init : List ProcessAncestor) × (xs ≡ init ++ a ∷ []) × All IsVerified init × IsVerified a)
unfolding chain_root
chain_root-last root [] a h = inl (refl, h)
chain_root-last root (x ∷ xs) a h = elim (Option-cases x.start_time_ticks) [
  | inl e ↦ absurd (ground arith)
  | inr (t, e) ↦
      let h' : chain_root (some x) xs ≡ some a = rw (e, chain_root) at h in
      inr (extend t e (chain_root-last (some x) xs a h'))
]
  where
    extend :
        (t : ℕ)
        → x.start_time_ticks ≡ some t
        → ((xs ≡ []) × (some x ≡ some a))
          ⊎ ((init : List ProcessAncestor) × (xs ≡ init ++ a ∷ [])
              × All IsVerified init
              × IsVerified a)
        → (init : List ProcessAncestor) × (x ∷ xs ≡ init ++ a ∷ [])
          × All IsVerified init
          × IsVerified a
    extend t e (inl (empty, same)) =
        let x≡a : x ≡ a = cc in ([], cc, tt, subst IsVerified x≡a (t, e))
    extend t e (inr (init, split, verified, last)) =
        (x ∷ init, ap (◌∷◌ x) split, ((t, e), verified), last)

-- The ancestry of a process, cut where its chain of owner ancestors starts and ends: `a` is the last
-- of the first unbroken row of ancestors that bear the owner's name, and each of that row is verified.
pub record OwnerChain (p : ProcessIdentity) (owner : Bytes) (a : ProcessAncestor) : Type 0 where
  pub before : List ProcessAncestor
  pub row : List ProcessAncestor
  pub rest : List ProcessAncestor
  pub cut : p.ancestor_processes ≡ before ++ ((row ++ a ∷ []) ++ rest)
  pub others : All (λ x. ancestor_matches_owner x owner ≡ false) before
  pub owners : All (λ x. ancestor_matches_owner x owner ≡ true) (row ++ a ∷ [])
  pub verified : All IsVerified row
  pub root : IsVerified a
  pub ends : is_some_and (first rest) (λ x. ancestor_matches_owner x owner) ≡ false

-- If an owner ancestor is found, it is the last of the first unbroken row of ancestors that bear
-- the owner's name, and each of that row has a known start time.
pub owner_chain_root-OwnerChain :
    (p : ProcessIdentity) (owner : Bytes) (a : ProcessAncestor)
    → owner_chain_root p owner ≡ some a
    → OwnerChain p owner a
unfolding owner_chain_root
owner_chain_root-OwnerChain p owner a h =
    let m = λ (x : ProcessAncestor). ancestor_matches_owner x owner in
    let skipped = skip_to m p.ancestor_processes in
    let (before, split, others) = skip_to-split m p.ancestor_processes in
    let (rest, split', owners, ends) = take_while-split m skipped in
    elim (chain_root-last none (take_while m skipped) a h) [
      | inl (empty, impossible) ↦ absurd (cc)
      | inr (row, e, verified, root) ↦ record {
        before = before;
        row = row;
        rest = rest;
        cut = split ∙ ap (◌++◌ before) (split' ∙ ap (λ xs. xs ++ rest) e);
        others = others;
        owners = subst (All (λ x. m x ≡ true)) e owners;
        verified = verified;
        root = root;
        ends = ends;
      }
    ]

-- If an authorization is made, it is for a question about another owner's files, for the
-- executable of the process, and for the root of its verified chain of owner ancestors.
pub new_sound :
    (p : ProcessIdentity) (owner : Bytes) (d : Decision) (a : AncestryAuthorization)
    → new p owner d ≡ some a
    → ((r : DecisionReason) × (fallback : Decision) × (scope : FilePath) × (d
          ≡ prompt r fallback scope)
        × (is_cross_owner r ≡ true))
      × (p.executable ≡ some a.subject_executable)
      × OwnerChain p owner a.owner_ancestor
unfolding new
new_sound p owner allow a h = cc
new_sound p owner deny a h = cc
new_sound p owner (prompt r d scope) a h = elim (Option-cases p.executable) [
  | inl e ↦ absurd (ground arith)
  | inr (x, e) ↦ elim (Option-cases (owner_chain_root p owner)) [
    | inl f ↦ absurd (ground arith)
    | inr (o, f) ↦
        let same : (x ≡ a.subject_executable) × (o ≡ a.owner_ancestor) = ground arith in
        (
          (r, d, scope, refl, ground arith),
          ground arith,
          owner_chain_root-OwnerChain p owner a.owner_ancestor (f ∙ ap some same.1),
        )
  ]
]
