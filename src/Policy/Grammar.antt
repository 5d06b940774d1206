-- ===== src/Policy/Grammar.antt =====
-- src/policy.rs: the rules of `allowed_subjects` and `dev_tools` as a grammar with a meaning, apart from the order in which
-- `subject_matches` tries its cases.
use config_guard.Base.{
  ℕ, zero, suc, ◌<◌, ◌≡◌, ◌↔◌, refl, sym, ap, subst, ◌∙◌, inl, inr, Bool, true, List, [], ◌∷◌, ◌++◌,
  Option, none, some, arith, any, any-true, Any, length, list_beq, list_beq→eq, list_refl, nat_eq,
  Bool-cases, Option-cases,
}
use config_guard.Std.Bytes.{
  Bytes, bytes, strip_prefix, split_once, split_once-append, length-split_once, length-strip_prefix,
  IsFree,
}
use config_guard.Std.FilePath.{to_path, path_beq, starts_with}
use config_guard.Policy.Types.{ProcessSubject}
use config_guard.Policy.Subject.{
  ancestor_matches, subject_matches_executable_with_ancestor_prefix, subject_matches_with_ancestor,
  subject_matches_body, subject_matches_within, subject_matches,
}
use config_guard.Policy.Matching.{
  subject_matches_within-some, subject_matches_of_body, subject_matches-body,
}
use config_guard.Policy.AncestorRule.{
  IsAncestorRule, strip_prefix-some, split_once-some, strips, at-not_below,
  ancestor_matches-IsAncestorRule, IsAncestorRule-ancestor_matches,
}

-- A rule that admits the subject, which has the given name. A rule that demands an ancestor holds the rule for the
-- subject before its first bar.
pub data IsAdmitted (s : ProcessSubject) (name : Bytes) : Bytes → Type 0 where
  everyone : {rule : Bytes} → rule ≡ bytes "*" → IsAdmitted s name rule
  by_name : {rule : Bytes} → rule ≡ name → IsAdmitted s name rule
  in_dir :
      {rule : Bytes} (base : Bytes)
      → rule ≡ bytes "exe-prefix:" ++ base
      → starts_with s.executable (to_path base) ≡ true
      → IsAdmitted s name rule
  by_path :
      {rule : Bytes} (p : Bytes)
      → rule ≡ bytes "exe:" ++ p
      → path_beq s.executable (to_path p) ≡ true
      → IsAdmitted s name rule
  under_dir :
      {rule : Bytes} (executable base : Bytes)
      → IsFree b':' executable
      → rule ≡ bytes "exe-with-ancestor-prefix:" ++ (executable ++ (b':' ∷ base))
      → path_beq s.executable (to_path executable) ≡ true
      → Any (λ a. starts_with a (to_path base) ≡ true) s.ancestors
      → IsAdmitted s name rule
  under_ancestor :
      {rule : Bytes} (subject_rule ancestor_rule : Bytes)
      → IsFree b'|' subject_rule
      → rule ≡ bytes "with-ancestor:" ++ (subject_rule ++ (b'|' ∷ ancestor_rule))
      → IsAdmitted s name subject_rule
      → Any (IsAncestorRule ancestor_rule) s.ancestors
      → IsAdmitted s name rule

any_of_Any : {A : Type 0} (p : A → Bool) (xs : List A) → Any (λ x. p x ≡ true) xs → any p xs ≡ true
unfolding any
any_of_Any p [] h = absurd h
any_of_Any p (x ∷ xs) (inl e) = ground arith
any_of_Any p (x ∷ xs) (inr h) = ground (arith, any_of_Any p xs h)

Any-map :
    {A : Type 0} (P Q : A → Type 0) → ((x : A) → P x → Q x) → (xs : List A) → Any P xs → Any Q xs
Any-map P Q f [] h = absurd h
Any-map P Q f (x ∷ xs) (inl h) = inl (f x h)
Any-map P Q f (x ∷ xs) (inr h) = inr (Any-map P Q f xs h)

-- A rule has no other of the prefixes that are tried before its own.
under_dir-only :
    (rule r : Bytes)
    → rule ≡ bytes "exe-with-ancestor-prefix:" ++ r
    → (strip_prefix (bytes "exe-prefix:") rule ≡ none) × (strip_prefix (bytes "exe:") rule ≡ none)
unfolding strip_prefix
under_dir-only rule r e = rw (e) (refl, refl)

under_ancestor-only :
    (rule r : Bytes)
    → rule ≡ bytes "with-ancestor:" ++ r
    → (strip_prefix (bytes "exe-prefix:") rule ≡ none)
      × (strip_prefix (bytes "exe:") rule ≡ none)
      × (strip_prefix (bytes "exe-with-ancestor-prefix:") rule ≡ none)
unfolding strip_prefix
under_ancestor-only rule r e = rw (e) (refl, refl, refl)

module _ (s : ProcessSubject) (name : Bytes) where
  abbrev calls : Bytes → Option Bool
  calls r = some (subject_matches r s name)

  with_prefix_sound :
      (rule : Bytes)
      → subject_matches_executable_with_ancestor_prefix rule s ≡ true
      → IsAdmitted s name (bytes "exe-with-ancestor-prefix:" ++ rule)
  unfolding subject_matches_executable_with_ancestor_prefix
  with_prefix_sound rule h = elim (Option-cases (split_once b':' rule)) [
    | inl n ↦ absurd (ground arith)
    | inr ((executable, base), e) ↦
        let (cut, free) = split_once-some b':' rule executable base e in
        under_dir executable base free (ap (λ r. bytes "exe-with-ancestor-prefix:" ++ r) cut)
          (ground arith) (any-true (λ a. starts_with a (to_path base)) s.ancestors (ground arith))
  ]

  with_ancestor_sound :
      (rule : Bytes)
      → ((r : Bytes)
          → length r < length rule
          → subject_matches r s name ≡ true
          → IsAdmitted s name r)
      → subject_matches_with_ancestor calls rule s ≡ some true
      → IsAdmitted s name (bytes "with-ancestor:" ++ rule)
  unfolding subject_matches_with_ancestor
  with_ancestor_sound rule shorter h = elim (Option-cases (split_once b'|' rule)) [
    | inl n ↦ absurd (ground arith)
    | inr ((subject_rule, ancestor_rule), e) ↦
        let (cut, free) = split_once-some b'|' rule subject_rule ancestor_rule e in
        under_ancestor subject_rule ancestor_rule free (ap (λ r. bytes "with-ancestor:" ++ r) cut)
          (shorter subject_rule (length-split_once b'|' rule subject_rule ancestor_rule e)
            (ground arith))
          (Any-map _ _ (ancestor_matches-IsAncestorRule ancestor_rule) s.ancestors
            (any-true (ancestor_matches ancestor_rule) s.ancestors (ground arith)))
  ]

  body_sound :
      (rule : Bytes)
      → ((r : Bytes)
          → length r < length rule
          → subject_matches r s name ≡ true
          → IsAdmitted s name r)
      → subject_matches_body calls s name rule ≡ some true
      → IsAdmitted s name rule
  unfolding subject_matches_body
  body_sound rule shorter h = elim (Bool-cases (list_beq rule (bytes "*"))) [
    | inl e ↦ everyone (list_beq→eq rule (bytes "*") e)
    | inr not_all ↦ elim (Bool-cases (list_beq rule name)) [
      | inl e ↦ by_name (list_beq→eq rule name e)
      | inr not_name ↦ elim (Option-cases (strip_prefix (bytes "exe-prefix:") rule)) [
        | inr (base, e) ↦
            in_dir base (strip_prefix-some (bytes "exe-prefix:") rule base e) (ground arith)
        | inl n ↦ elim (Option-cases (strip_prefix (bytes "exe:") rule)) [
          | inr (p, e) ↦ by_path p (strip_prefix-some (bytes "exe:") rule p e) (ground arith)
          | inl m ↦ elim (Option-cases (strip_prefix (bytes "exe-with-ancestor-prefix:") rule)) [
            | inr (r, e) ↦
                subst (IsAdmitted s name)
                  (sym (strip_prefix-some (bytes "exe-with-ancestor-prefix:") rule r e))
                  (with_prefix_sound r (ground arith))
            | inl k ↦ elim (Option-cases (strip_prefix (bytes "with-ancestor:") rule)) [
              | inl j ↦ absurd (ground arith)
              | inr (r, e) ↦
                  let size = length-strip_prefix (bytes "with-ancestor:") rule r e in
                  subst (IsAdmitted s name)
                    (sym (strip_prefix-some (bytes "with-ancestor:") rule r e))
                    (with_ancestor_sound r (λ q lt. shorter q (omega arith)) (ground arith))
            ]
          ]
        ]
      ]
    ]
  ]

  sound :
      (n : ℕ) (rule : Bytes)
      → length rule < n
      → subject_matches rule s name ≡ true
      → IsAdmitted s name rule
  sound zero rule l h = absurd (omega arith)
  sound (suc n) rule l h =
      body_sound rule (λ r lt m. sound n r (omega arith) m)
        (subject_matches-body rule s name ∙ ap some h)

  with_prefix_complete :
      (executable base : Bytes)
      → IsFree b':' executable
      → path_beq s.executable (to_path executable) ≡ true
      → Any (λ a. starts_with a (to_path base) ≡ true) s.ancestors
      → subject_matches_executable_with_ancestor_prefix (executable ++ (b':' ∷ base)) s ≡ true
  unfolding subject_matches_executable_with_ancestor_prefix
  with_prefix_complete executable base free h under =
      let cut = split_once-append b':' executable base free in
      let some_under = any_of_Any (λ a. starts_with a (to_path base)) s.ancestors under in
      ground arith

  with_ancestor_complete :
      (subject_rule ancestor_rule : Bytes)
      → IsFree b'|' subject_rule
      → subject_matches subject_rule s name ≡ true
      → Any (IsAncestorRule ancestor_rule) s.ancestors
      → subject_matches_with_ancestor calls (subject_rule ++ (b'|' ∷ ancestor_rule)) s ≡ some true
  unfolding subject_matches_with_ancestor
  with_ancestor_complete subject_rule ancestor_rule free h under =
      let cut = split_once-append b'|' subject_rule ancestor_rule free in
      let some_under =
        any_of_Any (ancestor_matches ancestor_rule) s.ancestors
          (Any-map _ _ (IsAncestorRule-ancestor_matches ancestor_rule) s.ancestors under) in
      ground arith

  complete : (rule : Bytes) → IsAdmitted s name rule → subject_matches rule s name ≡ true
  unfolding subject_matches_body
  complete rule (everyone e) =
      let same = list_refl (bytes "*") in
      subject_matches_of_body rule s name true (rw (e) (ground arith))
  complete rule (by_name e) =
      let same : list_beq rule name ≡ true = rw (e) (list_refl name) in
      subject_matches_of_body rule s name true (ground arith)
  complete rule (in_dir base e h) =
      let cut = strips (bytes "exe-prefix:") rule base e in
      subject_matches_of_body rule s name true (ground arith)
  complete rule (by_path p e h) =
      let cut = strips (bytes "exe:") rule p e in
      let other = at-not_below rule p e in subject_matches_of_body rule s name true (ground arith)
  complete rule (under_dir executable base free e h under) =
      let cut = strips (bytes "exe-with-ancestor-prefix:") rule (executable ++ (b':' ∷ base)) e in
      let others = under_dir-only rule (executable ++ (b':' ∷ base)) e in
      let holds = with_prefix_complete executable base free h under in
      subject_matches_of_body rule s name true (ground arith)
  complete rule (under_ancestor subject_rule ancestor_rule free e h under) =
      let cut = strips (bytes "with-ancestor:") rule (subject_rule ++ (b'|' ∷ ancestor_rule)) e in
      let others = under_ancestor-only rule (subject_rule ++ (b'|' ∷ ancestor_rule)) e in
      let holds =
        with_ancestor_complete subject_rule ancestor_rule free (complete subject_rule h) under in
      subject_matches_of_body rule s name true (ground arith)

  -- The recursion of subject_matches ends on every rule: with any fuel beyond the length of the rule it comes to a
  -- result, which is that of the model. The result is true exactly if the grammar of rules admits the subject.
  pub subject_matches_iff :
      (rule : Bytes) (fuel : ℕ)
      → length rule < fuel
      → (subject_matches_within fuel s name rule ≡ some (subject_matches rule s name))
        × ((subject_matches rule s name ≡ true) ↔ IsAdmitted s name rule)
  subject_matches_iff rule fuel l = (
    subject_matches_within-some fuel s name rule l,
    (sound (suc (length rule)) rule (omega arith), complete rule),
  )
