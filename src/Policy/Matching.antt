-- ===== src/Policy/Matching.antt =====
-- src/policy.rs: the recursion of `subject_matches` ends, and what a `with-ancestor:` rule demands.
use config_guard.Base.{
  ℕ, zero, suc, ◌<◌, ◌≡◌, refl, sym, ◌∙◌, Bool, false, unwrap_or, ◌&&◌, [], ◌∷◌, ◌++◌, Option, none,
  some, arith, inl, inr, Option-cases, any, length, list_beq, nat_eq,
}
use config_guard.Std.Bytes.{
  Bytes, bytes, strip_prefix, split_once, length-strip_prefix, length-split_once,
}
use config_guard.Policy.Types.{ProcessSubject}
use config_guard.Policy.Subject.{
  ancestor_matches, subject_matches_with_ancestor, subject_matches_body, subject_matches_within,
  subject_matches,
}

-- A rule calls `matches` on shorter texts only.
with_ancestor_cong :
    (m m' : Bytes → Option Bool) (rule : Bytes) (s : ProcessSubject)
    → ((r : Bytes) → length r < length rule → m r ≡ m' r)
    → subject_matches_with_ancestor m rule s ≡ subject_matches_with_ancestor m' rule s
unfolding subject_matches_with_ancestor
with_ancestor_cong m m' rule s h = elim (Option-cases (split_once b'|' rule)) [
  | inl e ↦ rw (e, subject_matches_with_ancestor)
  | inr (x, e) ↦
      rw (e, subject_matches_with_ancestor)
        (rw (h x.0 (length-split_once b'|' rule x.0 x.1 e)) refl)
]

body_cong :
    (m m' : Bytes → Option Bool) (s : ProcessSubject) (name allowed : Bytes)
    → ((r : Bytes) → length r < length allowed → m r ≡ m' r)
    → subject_matches_body m s name allowed ≡ subject_matches_body m' s name allowed
unfolding subject_matches_body
body_cong m m' s name allowed h =
    elim (Option-cases (strip_prefix (bytes "with-ancestor:") allowed)) [
      | inl e ↦ ground arith
      | inr (rule, e) ↦
          let shorter = length-strip_prefix (bytes "with-ancestor:") allowed rule e in
          let same = with_ancestor_cong m m' rule s (λ r lt. h r (omega (arith))) in ground arith
    ]

-- A body whose calls all end ends.
body_ends :
    (m : Bytes → Bool) (s : ProcessSubject) (name allowed : Bytes)
    → (b : Bool) × (subject_matches_body (λ r. some (m r)) s name allowed ≡ some b)
unfolding subject_matches_body subject_matches_with_ancestor
body_ends m s name allowed =
    elim (Option-cases (subject_matches_body (λ r. some (m r)) s name allowed)) [
      | inl e ↦ absurd (ground arith)
      | inr x ↦ x
    ]

unwrap_or-some : (o : Option Bool) (b : Bool) → o ≡ some b → o ≡ some (unwrap_or o false)
unwrap_or-some none b h = cc
unwrap_or-some (some c) b h = refl

within_ends :
    (f : ℕ) (s : ProcessSubject) (name allowed : Bytes)
    → length allowed < f
    → (b : Bool) × (subject_matches_within f s name allowed ≡ some b)
unfolding subject_matches_within
within_ends zero s name allowed h = absurd (omega arith)
within_ends (suc f) s name allowed h =
    let m : Bytes → Bool = λ r. unwrap_or (subject_matches_within f s name r) false in
    let (b, e) = body_ends m s name allowed in
    (
      b,
      body_cong (subject_matches_within f s name) (λ r. some (m r)) s name allowed
            (λ r lt.
              let (x, ends) = within_ends f s name r (omega arith) in
              unwrap_or-some (subject_matches_within f s name r) x ends)
          ∙ e,
    )

within_enough :
    (f g : ℕ) (s : ProcessSubject) (name allowed : Bytes)
    → length allowed < f
    → length allowed < g
    → subject_matches_within f s name allowed ≡ subject_matches_within g s name allowed
unfolding subject_matches_within
within_enough zero g s name allowed hf hg = absurd (omega arith)
within_enough (suc f) zero s name allowed hf hg = absurd (omega arith)
within_enough (suc f) (suc g) s name allowed hf hg =
    body_cong (subject_matches_within f s name) (subject_matches_within g s name) s name allowed
      (λ r lt. within_enough f g s name r (omega arith) (omega arith))

-- Fuel beyond the length of the text is enough.
pub subject_matches_within-some :
    (f : ℕ) (s : ProcessSubject) (name allowed : Bytes)
    → length allowed < f
    → subject_matches_within f s name allowed ≡ some (subject_matches allowed s name)
unfolding subject_matches
subject_matches_within-some f s name allowed h =
    let fuel = suc (length allowed) in
    let (b, ends) = within_ends fuel s name allowed (omega arith) in
    within_enough f fuel s name allowed h (omega arith)
    ∙ unwrap_or-some (subject_matches_within fuel s name allowed) b ends

-- The equation of the source's recursive function.
pub subject_matches-body :
    (allowed : Bytes) (s : ProcessSubject) (name : Bytes)
    → subject_matches_body (λ r. some (subject_matches r s name)) s name allowed
      ≡ some (subject_matches allowed s name)
subject_matches-body allowed s name =
    body_cong (λ r. some (subject_matches r s name))
      (subject_matches_within (length allowed) s name) s name allowed
      (λ r lt. sym (subject_matches_within-some (length allowed) s name r lt))
    ∙ (unfold subject_matches_within in
        subject_matches_within-some (suc (length allowed)) s name allowed (omega arith))

pub subject_matches_of_body :
    (allowed : Bytes) (s : ProcessSubject) (name : Bytes) (b : Bool)
    → subject_matches_body (λ r. some (subject_matches r s name)) s name allowed ≡ some b
    → subject_matches allowed s name ≡ b
subject_matches_of_body allowed s name b h = cc (h, subject_matches-body allowed s name)

pub strip_prefix-append : (p bs : Bytes) → strip_prefix p (p ++ bs) ≡ some bs
unfolding strip_prefix
strip_prefix-append [] bs = refl
strip_prefix-append (p ∷ ps) bs = ground (arith, strip_prefix-append ps bs)

split_once-append :
    (c : ℕ) (l r : Bytes) → split_once c l ≡ none → split_once c (l ++ c ∷ r) ≡ some (l, r)
unfolding split_once
split_once-append c [] r h = ground arith
split_once-append c (b ∷ l) r h = ground (arith, split_once-append c l r)

-- A rule with-ancestor:S|A, where S holds no bar, matches a subject that is not named like the
-- whole rule exactly if S matches the subject and A matches one of its ancestors.
pub subject_matches-with_ancestor :
    (sr ar : Bytes) (s : ProcessSubject) (name : Bytes)
    → split_once b'|' sr ≡ none
    → list_beq (bytes "with-ancestor:" ++ (sr ++ b'|' ∷ ar)) name ≡ false
    → subject_matches (bytes "with-ancestor:" ++ (sr ++ b'|' ∷ ar)) s name
      ≡ (subject_matches sr s name && any (ancestor_matches ar) s.ancestors)
unfolding subject_matches_body strip_prefix subject_matches_with_ancestor list_beq
subject_matches-with_ancestor sr ar s name plain other =
    subject_matches_of_body (bytes "with-ancestor:" ++ (sr ++ b'|' ∷ ar)) s name _
      (rw (other) (rw (split_once-append b'|' sr ar plain, subject_matches_with_ancestor) refl))

-- A `with-ancestor:` rule inside another never matches: the outer rule ends the inner one at the
-- first `|`, and the inner one is left without its ancestor.
pub with_ancestor_nested :
    (q ar : Bytes) (s : ProcessSubject) (name : Bytes)
    → split_once b'|' q ≡ none
    → list_beq (bytes "with-ancestor:" ++ q) name ≡ false
    → list_beq (bytes "with-ancestor:" ++ ((bytes "with-ancestor:" ++ q) ++ b'|' ∷ ar)) name ≡ false
    → subject_matches
        (bytes "with-ancestor:" ++ ((bytes "with-ancestor:" ++ q) ++ b'|' ∷ ar))
        s
        name
      ≡ false
unfolding subject_matches_body strip_prefix subject_matches_with_ancestor list_beq split_once
with_ancestor_nested q ar s name plain inner outer =
    rw (subject_matches-with_ancestor (bytes "with-ancestor:" ++ q) ar s name (rw plain refl) outer)
      (rw
        (subject_matches_of_body (bytes "with-ancestor:" ++ q) s name false
          (rw (inner) (rw (plain, subject_matches_with_ancestor) refl)))
        refl)
