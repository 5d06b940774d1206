-- ===== src/Cli/Aliases.antt =====
-- src/main.rs: what a symbolic link in the configuration directory does to the watched paths and to the
-- path that the policy is asked about.
use config_guard.Base.{
  ◌≡◌, ◌≢◌, refl, ap, ◌∙◌, inl, inr, Bool, true, false, not, ◌&&◌, ◌||◌, List, [], ◌∷◌, ◌++◌, none,
  some, arith, any, All, Bool-cases, Option-cases, list_beq, Member,
}
use config_guard.Std.FilePath.{
  FilePath, Component, component_eq, component_eq_of_beq, components, path_beq, path_eq,
  starts_with, is_prefix, strip_prefix, strip_prefix-starts_with, from_components,
}
use config_guard.Std.FilePath.Join.{components-join}
use config_guard.Std.FilePath.Inner.{
  body-from_components, strip_prefix-IsInner, from_components-is_absolute,
}
use config_guard.Std.Map as Map
use config_guard.Learning.{PathAlias}
use config_guard.Cli.Scope.{
  logical_policy_path, path_set, alias_is_watched, expand_loop, expand_scope_with_aliases,
}

-- The alias is usable: its roots have components, as absolute paths do.
abbrev pub IsRooted : PathAlias → Type 0
IsRooted a = (components a.real_root ≢ []) × (a.logical_root.os_str ≢ [])

strip_prefix-none : (p base : FilePath) → starts_with p base ≡ false → strip_prefix p base ≡ none
strip_prefix-none p base h = elim (Option-cases (strip_prefix p base)) [
  | inl n ↦ n
  | inr (r, e) ↦ absurd (ground (arith, strip_prefix-starts_with p base))
]

logical_policy_path-skip :
    (target : FilePath) (before : List PathAlias) (aliases : List PathAlias)
    → All (λ b. starts_with target b.real_root ≡ false) before
    → logical_policy_path target (before ++ aliases) ≡ logical_policy_path target aliases
unfolding logical_policy_path
logical_policy_path-skip target [] aliases h = refl
logical_policy_path-skip target (b ∷ before) aliases h =
    rw (strip_prefix-none target b.real_root h.0, logical_policy_path)
      (logical_policy_path-skip target before aliases h.1)

-- The logical path of a file below the real root of an alias has the components of the logical root, and then
-- those that the file has below the real root; the first such alias counts.
pub components-logical_policy_path :
    (target : FilePath) (before : List PathAlias) (alias : PathAlias) (after : List PathAlias)
    (rest : List Component)
    → All (λ b. starts_with target b.real_root ≡ false) before
    → strip_prefix target alias.real_root ≡ some rest
    → IsRooted alias
    → components (logical_policy_path target (before ++ alias ∷ after))
      ≡ components alias.logical_root ++ rest
unfolding logical_policy_path
components-logical_policy_path target before alias after rest others below rooted =
    let inner = strip_prefix-IsInner target alias.real_root rest rooted.0 below in
    rw (logical_policy_path-skip target before (alias ∷ after) others, below, logical_policy_path)
      (components-join alias.logical_root (from_components rest)
          (from_components-is_absolute rest inner) rooted.1
        ∙ ap (λ cs. components alias.logical_root ++ cs) (body-from_components rest inner))

is_prefix-append :
    (xs ys zs : List Component) → is_prefix xs ys ≡ true → is_prefix xs (ys ++ zs) ≡ true
unfolding is_prefix
is_prefix-append [] ys zs h = refl
is_prefix-append (x ∷ xs) [] zs h = cc
is_prefix-append (x ∷ xs) (y ∷ ys) zs h = ground (arith, is_prefix-append xs ys zs)

-- Paths that are equal hold the same paths.
is_prefix-beq :
    (xs ys zs : List Component) → list_beq xs ys ≡ true → is_prefix xs zs ≡ is_prefix ys zs
unfolding is_prefix list_beq
is_prefix-beq [] [] zs h = refl
is_prefix-beq [] (y ∷ ys) zs h = cc
is_prefix-beq (x ∷ xs) [] zs h = cc
is_prefix-beq (x ∷ xs) (y ∷ ys) [] h = refl
is_prefix-beq (x ∷ xs) (y ∷ ys) (z ∷ zs) h =
    ground (arith, component_eq_of_beq x y, is_prefix-beq xs ys zs)

module _ (target : FilePath) where
  -- One of the paths holds the target.
  abbrev pub is_within : List FilePath → Bool
  is_within paths = any (λ root. starts_with target root) paths

  starts_with-beq :
      (p q : FilePath) → path_beq p q ≡ true → starts_with target p ≡ starts_with target q
  unfolding starts_with path_beq
  starts_with-beq p q h = is_prefix-beq (components p) (components q) (components target) h

  -- The target lies below the real root of an alias that is watched.
  abbrev pub is_within_alias : List FilePath → List PathAlias → Bool
  is_within_alias roots aliases =
      any (λ alias. alias_is_watched roots alias && starts_with target alias.real_root) aliases

  -- A path of the set holds the target only if one of the paths does.
  abbrev IsCovered : List FilePath → List FilePath → Type 0
  IsCovered seen paths =
      (p : FilePath)
      → Map.contains p seen ≡ true
      → starts_with target p ≡ true
      → is_within paths ≡ true

  any-append :
      (ps : List FilePath) (q : FilePath)
      → is_within (ps ++ q ∷ []) ≡ (is_within ps || starts_with target q)
  unfolding any
  any-append [] q = ground arith
  any-append (p ∷ ps) q = ground (arith, any-append ps q)

  path_set-IsCovered : (ps : List FilePath) → IsCovered (path_set ps) ps
  unfolding path_set any
  path_set-IsCovered [] p h s = unfold Map.contains in cc
  path_set-IsCovered (q ∷ ps) p h s =
      ground
        (arith, Map.contains-add q p (path_set ps), path_set-IsCovered ps p, starts_with-beq q p)

  IsCovered-add :
      (seen paths : List FilePath) (q : FilePath)
      → IsCovered seen paths
      → IsCovered (q ∷ seen) (paths ++ q ∷ [])
  unfolding Map.contains
  IsCovered-add seen paths q c p h s = ground (arith, any-append paths q, c p, starts_with-beq q p)

  is_within-expand_loop :
      (roots seen paths : List FilePath) (aliases : List PathAlias)
      → IsCovered seen paths
      → is_within (expand_loop roots seen paths aliases)
        ≡ (is_within paths || is_within_alias roots aliases)
  unfolding expand_loop any
  is_within-expand_loop roots seen paths [] c = ground arith
  is_within-expand_loop roots seen paths (a ∷ aliases) c =
      elim (Bool-cases (alias_is_watched roots a && not (Map.contains a.real_root seen))) [
        | inl new ↦ rw (new) (
            is_within-expand_loop roots (a.real_root ∷ seen) (paths ++ a.real_root ∷ []) aliases
              (IsCovered-add seen paths a.real_root c)
            ∙ ground (arith, any-append paths a.real_root))
        | inr old ↦
            rw (old)
              (is_within-expand_loop roots seen paths aliases c ∙ ground (arith, c a.real_root))
      ]

  -- The expanded scope holds just what the given paths and the watched aliases hold.
  pub is_within-expand_scope_with_aliases :
      (paths : List FilePath) (aliases : List PathAlias)
      → is_within (expand_scope_with_aliases paths aliases)
        ≡ (is_within paths || is_within_alias paths aliases)
  unfolding expand_scope_with_aliases
  is_within-expand_scope_with_aliases paths aliases =
      is_within-expand_loop paths (path_set paths) paths aliases (path_set-IsCovered paths)

any_of_Member :
    {A : Type 0} (p : A → Bool) (xs : List A) (x : A) → Member x xs → p x ≡ true → any p xs ≡ true
unfolding any
any_of_Member p [] x m h = absurd m
any_of_Member p (y ∷ xs) x (inl e) h = rw (e, h) refl
any_of_Member p (y ∷ xs) x (inr m) h = rw (any_of_Member p xs x m h) (ground arith)

Member-middle : {A : Type 0} (x : A) (before after : List A) → Member x (before ++ x ∷ after)
Member-middle x [] after = inl refl
Member-middle x (b ∷ before) after = inr (Member-middle x before after)

alias_is_watched-any :
    (roots : List FilePath) (alias : PathAlias)
    → alias_is_watched roots alias ≡ any (λ root. starts_with alias.logical_root root) roots
unfolding alias_is_watched
alias_is_watched-any roots alias = refl

-- A file below the real root of an alias, the first that holds it, is in the expanded scope if the logical root of the alias
-- is below a watched path; and the policy is then asked about a path below that watched path.
pub alias-guarded :
    (target : FilePath) (paths : List FilePath) (before : List PathAlias) (alias : PathAlias)
    (after : List PathAlias) (root : FilePath)
    → All (λ b. starts_with target b.real_root ≡ false) before
    → starts_with target alias.real_root ≡ true
    → IsRooted alias
    → Member root paths
    → starts_with alias.logical_root root ≡ true
    → (is_within target (expand_scope_with_aliases paths (before ++ alias ∷ after)) ≡ true)
      × (starts_with (logical_policy_path target (before ++ alias ∷ after)) root ≡ true)
alias-guarded target paths before alias after root others below rooted watched under =
    let aliases = before ++ alias ∷ after in
    let listed = Member-middle alias before after in
    let watching = any_of_Member (λ r. starts_with alias.logical_root r) paths root watched under in
    let held : (alias_is_watched paths alias && starts_with target alias.real_root) ≡ true =
      ground (arith, alias_is_watched-any paths alias) in
    let within =
      any_of_Member (λ a. alias_is_watched paths a && starts_with target a.real_root) aliases alias
        listed held in
    (
      is_within-expand_scope_with_aliases target paths aliases ∙ ground (arith, within),
      elim (Option-cases (strip_prefix target alias.real_root)) [
        | inl n ↦ absurd (ground (arith, strip_prefix-starts_with target alias.real_root))
        | inr (rest, e) ↦
            unfold starts_with in
            rw (components-logical_policy_path target before alias after rest others e rooted)
              (is_prefix-append (components root) (components alias.logical_root) rest under)
      ],
    )
