-- ===== src/Policy/Ownership.antt =====
-- src/policy.rs: which owned path and which owner a decision is about.
use config_guard.Base.{
  ℕ, ◌≤◌, ◌≡◌, refl, ap, sym, subst, Bool, true, false, List, [], ◌∷◌, ◌++◌, none, some, arith, inl,
  inr, Bool-cases, Option-cases, keep, find, All, Any, Member, All-Member, All-keep, ltb, keep-All,
}
use config_guard.Std.Bytes.{Bytes}
use config_guard.Std.FilePath.{FilePath, starts_with}
use config_guard.Policy.Types.{ProcessSubject, OwnedPath, PathRule, PolicyConfig}
use config_guard.Policy.Subject.{has_name}
use config_guard.Policy.Decide.{
  max_from, max_by_key, path_len, owner_for, find_owner, authorization_owner_subject,
}

module _ {A : Type 0} where
  -- The best of `best` and `xs` that satisfies what all of them satisfy.
  max_from-All :
      (key : A → ℕ) (P : A → Type 0) (best : A) (xs : List A)
      → P best
      → All P xs
      → P (max_from key best xs)
  unfolding max_from
  max_from-All key P best [] h hs = h
  max_from-All key P best (x ∷ xs) h hs = elim (Bool-cases (ltb (key x) (key best))) [
    | inl e ↦ rw e (max_from-All key P best xs h hs.1)
    | inr e ↦ rw e (max_from-All key P x xs hs.0 hs.1)
  ]

  -- A bound of the best is a bound of all.
  max_from-bound :
      (key : A → ℕ) (m : ℕ) (best : A) (xs : List A)
      → key (max_from key best xs) ≤ m
      → (key best ≤ m) × All (λ x. key x ≤ m) xs
  unfolding max_from
  max_from-bound key m best [] h = (h, tt)
  max_from-bound key m best (x ∷ xs) h = elim (Bool-cases (ltb (key x) (key best))) [
    | inl e ↦
        let ih = max_from-bound key m best xs (rw (e, max_from) at h) in
        (ih.0, (ground arith, ih.1))
    | inr e ↦
        let ih = max_from-bound key m x xs (rw (e, max_from) at h) in (ground arith, (ih.0, ih.1))
  ]

  -- Each member of the whole list that passes the test has a bound that holds of the filtered list.
  All-of_keep :
      (p : A → Bool) (Q : A → Type 0) (xs : List A)
      → All Q (keep p xs)
      → All (λ x. p x ≡ true → Q x) xs
  unfolding keep
  All-of_keep p Q [] h = tt
  All-of_keep p Q (x ∷ xs) h = elim (Bool-cases (p x)) [
    | inl e ↦
        let h' : Q x × All Q (keep p xs) = rw (e, keep) at h in (λ _. h'.0, All-of_keep p Q xs h'.1)
    | inr e ↦
        let h' : All Q (keep p xs) = rw (e, keep) at h in (λ t. absurd (cc), All-of_keep p Q xs h')
  ]

  -- `max_by_key` over a filter: its result passes, is a member and has the greatest key of those
  -- that pass; and it has a result as soon as one passes.
  max_by_key-some :
      (key : A → ℕ) (p : A → Bool) (xs : List A) (r : A)
      → max_by_key key (keep p xs) ≡ some r
      → (p r ≡ true) × Member r xs × All (λ x. p x ≡ true → key x ≤ key r) xs
  unfolding max_by_key
  max_by_key-some key p xs r h = go (keep p xs) refl h
    where
      go :
          (ys : List A)
          → keep p xs ≡ ys
          → max_by_key key ys ≡ some r
          → (p r ≡ true) × Member r xs × All (λ x. p x ≡ true → key x ≤ key r) xs
      go [] e h = cc
      go (y ∷ ys) e h =
          let best : max_from key y ys ≡ r = cc in
          let passed : All (λ x. p x ≡ true) (y ∷ ys) =
            subst (All (λ x. p x ≡ true)) e (keep-All p xs) in
          let bound = max_from-bound key (key r) y ys (rw best (omega arith)) in
          let there =
            subst (All (λ x. Member x xs)) e (All-keep (λ x. Member x xs) p xs (All-Member xs)) in
          (
            subst (λ x. p x ≡ true) best
                (max_from-All key (λ x. p x ≡ true) y ys passed.0 passed.1),
            subst (λ x. Member x xs) best
                (max_from-All key (λ x. Member x xs) y ys there.0 there.1),
            All-of_keep p (λ x. key x ≤ key r) xs (subst (All (λ x. key x ≤ key r)) (sym e) bound),
          )

  max_by_key-none :
      (key : A → ℕ) (p : A → Bool) (xs : List A)
      → max_by_key key (keep p xs) ≡ none
      → All (λ x. p x ≡ false) xs
  unfolding max_by_key keep
  max_by_key-none key p [] h = tt
  max_by_key-none key p (x ∷ xs) h = elim (Bool-cases (p x)) [
    | inl e ↦ absurd (cc (rw (e, max_by_key, keep) at h))
    | inr e ↦ (e, max_by_key-none key p xs (rw (e, max_by_key, keep) at h))
  ]

-- If a decision is about an owned path, it covers the target, is one of the configuration, and is
-- at least as long as each owned path that covers the target.
pub owner_for-most_specific :
    (c : PolicyConfig) (t : FilePath) (o : OwnedPath)
    → owner_for c t ≡ some o
    → (starts_with t o.path ≡ true)
      × Member o c.owned_paths
      × All (λ o'. starts_with t o'.path ≡ true → path_len o'.path ≤ path_len o.path) c.owned_paths
unfolding owner_for
owner_for-most_specific c t o h =
    max_by_key-some (λ o'. path_len o'.path) (λ o'. starts_with t o'.path) c.owned_paths o h

pub owner_for-none :
    (c : PolicyConfig) (t : FilePath)
    → owner_for c t ≡ none
    → All (λ o. starts_with t o.path ≡ false) c.owned_paths
unfolding owner_for
owner_for-none c t h =
    max_by_key-none (λ o'. path_len o'.path) (λ o'. starts_with t o'.path) c.owned_paths h

-- What `sensitive_dev_tool_access` finds, likewise.
pub sensitive-most_specific :
    (rules : List PathRule) (t : FilePath) (r : PathRule)
    → max_by_key (λ r. path_len r.path) (keep (λ r. starts_with t r.path) rules) ≡ some r
    → (starts_with t r.path ≡ true)
      × Member r rules
      × All (λ r'. starts_with t r'.path ≡ true → path_len r'.path ≤ path_len r.path) rules
sensitive-most_specific rules t r h =
    max_by_key-some (λ r'. path_len r'.path) (λ r'. starts_with t r'.path) rules r h

find-some :
    (p : OwnedPath → Bool) (os : List OwnedPath) (o : OwnedPath)
    → find p os ≡ some o
    → (p o ≡ true) × Member o os
unfolding find
find-some p [] o h = cc
find-some p (x ∷ os) o h = elim (Bool-cases (p x)) [
  | inl e ↦ let same : x ≡ o = ground arith in (subst (λ y. p y ≡ true) same e, inl same)
  | inr e ↦ let ih = find-some p os o (ground arith) in (ih.0, inr ih.1)
]

find-none :
    (p : OwnedPath → Bool) (os : List OwnedPath) → find p os ≡ none → All (λ o. p o ≡ false) os
unfolding find
find-none p [] h = tt
find-none p (x ∷ os) h = ground (arith, find-none p os)

-- No owned path names one of these ancestors as its owner.
abbrev pub NoOwner : List OwnedPath → List FilePath → Type 0
NoOwner os as' = All (λ a. All (λ o. has_name o.owner a ≡ false) os) as'

-- If there is a subject that may hold an ancestry authorization, it is the owner of a configured
-- owned path and names an ancestor before which no ancestor has the name of a configured owner.
pub authorization_owner_subject-nearest :
    (c : PolicyConfig) (s : ProcessSubject) (name : Bytes)
    → authorization_owner_subject c s ≡ some name
    → (before : List FilePath) × (a : FilePath) × (after : List FilePath) × (s.ancestors
        ≡ before ++ a ∷ after)
      × NoOwner c.owned_paths before
      × (has_name name a ≡ true)
      × Any (λ o. o.owner ≡ name) c.owned_paths
unfolding authorization_owner_subject find_owner
authorization_owner_subject-nearest c s name = go s.ancestors
  where
    named : (o : OwnedPath) (os : List OwnedPath) → Member o os → Any (λ o'. o'.owner ≡ o.owner) os
    named o [] m = m
    named o (x ∷ os) (inl e) = inl (ap (λ (y : OwnedPath). y.owner) e)
    named o (x ∷ os) (inr m) = inr (named o os m)

    go :
        (as' : List FilePath)
        → find_owner c.owned_paths as' ≡ some name
        → (before : List FilePath) × (a : FilePath) × (after : List FilePath) × (as'
            ≡ before ++ a ∷ after)
          × NoOwner c.owned_paths before
          × (has_name name a ≡ true)
          × Any (λ o. o.owner ≡ name) c.owned_paths
    go [] h = cc
    go (a ∷ as') h = elim (Option-cases (find (λ o. has_name o.owner a) c.owned_paths)) [
      | inl e ↦
          let (before, b, after, split, without, hit, listed) = go as' (rw (e, find_owner) at h) in
          (
            a ∷ before,
            b,
            after,
            ap (◌∷◌ a) split,
            (find-none (λ o. has_name o.owner a) c.owned_paths e, without),
            hit,
            listed,
          )
      | inr (o, e) ↦
          let found = find-some (λ o. has_name o.owner a) c.owned_paths o e in
          let same : o.owner ≡ name = ground arith in
          (
            [],
            a,
            as',
            refl,
            tt,
            subst (λ n. has_name n a ≡ true) same found.0,
            subst (λ n. Any (λ o'. o'.owner ≡ n) c.owned_paths) same
                (named o c.owned_paths found.1),
          )
    ]
