-- ===== src/Policy/AncestorRule.antt =====
-- src/policy.rs: what an ancestor must be for the part of a rule after the bar.
use config_guard.Base.{
  ℕ, ◌≡◌, refl, ap, ◌∙◌, inl, inr, true, [], ◌∷◌, ◌++◌, none, some, arith, list_beq→eq, list_refl,
  nat_eq, Option-cases,
}
use config_guard.Std.Bytes.{Bytes, bytes, strip_prefix, split_once, IsFree}
use config_guard.Std.FilePath.{FilePath, to_path, path_beq, starts_with, file_name_str}
use config_guard.Policy.Subject.{ancestor_matches}
use config_guard.Policy.Matching.{strip_prefix-append}

-- An ancestor that a rule describes: by a directory, by its path, or by its name.
pub data IsAncestorRule (rule : Bytes) (a : FilePath) : Type 0 where
  below :
      (base : Bytes)
      → rule ≡ bytes "exe-prefix:" ++ base
      → starts_with a (to_path base) ≡ true
      → IsAncestorRule rule a
  at :
      (p : Bytes) → rule ≡ bytes "exe:" ++ p → path_beq a (to_path p) ≡ true → IsAncestorRule rule a
  named :
      strip_prefix (bytes "exe-prefix:") rule ≡ none
      → strip_prefix (bytes "exe:") rule ≡ none
      → file_name_str a ≡ some rule
      → IsAncestorRule rule a

pub strip_prefix-some : (p bs r : Bytes) → strip_prefix p bs ≡ some r → bs ≡ p ++ r
unfolding strip_prefix
strip_prefix-some [] bs r h = ground arith
strip_prefix-some (p ∷ ps) [] r h = cc
strip_prefix-some (p ∷ ps) (b ∷ bs) r h = ground (arith, strip_prefix-some ps bs r)

pub split_once-some :
    (c : ℕ) (bs l r : Bytes) → split_once c bs ≡ some (l, r) → (bs ≡ l ++ (c ∷ r)) × IsFree c l
unfolding split_once
split_once-some c [] l r h = cc
split_once-some c (b ∷ bs) [] r h = (ground arith, tt)
split_once-some c (b ∷ bs) (a ∷ l) r h =
    let (e, free) : (bs ≡ l ++ (c ∷ r)) × IsFree c l = split_once-some c bs l r (ground arith) in
    (ground arith, (λ q. ground arith, free))

pub strips : (p rule rest : Bytes) → rule ≡ p ++ rest → strip_prefix p rule ≡ some rest
strips p rule rest e = ap (strip_prefix p) e ∙ strip_prefix-append p rest

pub at-not_below :
    (rule p : Bytes) → rule ≡ bytes "exe:" ++ p → strip_prefix (bytes "exe-prefix:") rule ≡ none
unfolding strip_prefix
at-not_below rule p e = rw (e) refl

pub ancestor_matches-IsAncestorRule :
    (rule : Bytes) (a : FilePath) → ancestor_matches rule a ≡ true → IsAncestorRule rule a
unfolding ancestor_matches
ancestor_matches-IsAncestorRule rule a h =
    elim (Option-cases (strip_prefix (bytes "exe-prefix:") rule)) [
      | inr (base, e) ↦
          below base (strip_prefix-some (bytes "exe-prefix:") rule base e) (ground arith)
      | inl n ↦ elim (Option-cases (strip_prefix (bytes "exe:") rule)) [
        | inr (p, e) ↦ at p (strip_prefix-some (bytes "exe:") rule p e) (ground arith)
        | inl m ↦ elim (Option-cases (file_name_str a)) [
          | inl e ↦ absurd (ground arith)
          | inr (file, e) ↦ named n m (ground (arith, list_beq→eq file rule))
        ]
      ]
    ]

pub IsAncestorRule-ancestor_matches :
    (rule : Bytes) (a : FilePath) → IsAncestorRule rule a → ancestor_matches rule a ≡ true
unfolding ancestor_matches
IsAncestorRule-ancestor_matches rule a (below base e h) =
    let cut = strips (bytes "exe-prefix:") rule base e in ground arith
IsAncestorRule-ancestor_matches rule a (at p e h) =
    let cut = strips (bytes "exe:") rule p e in let other = at-not_below rule p e in ground arith
IsAncestorRule-ancestor_matches rule a (named n m e) = ground (arith, list_refl rule)
