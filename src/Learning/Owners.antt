-- ===== src/Learning/Owners.antt =====
-- src/learning.rs: what an observation counts, and which owners the observations suggest.
use config_guard.Base.{
  ℕ, ◌+◌, ◌≡◌, refl, inl, inr, Bool, true, false, ◌&&◌, ◌||◌, List, [], ◌∷◌, ◌++◌, none, some,
  arith, if◌then◌else◌, unwrap_or, nat_eq, list_eq, list_beq, list_refl, list_beq→eq, All, All-map,
  Bool-cases, Option-cases,
}
use config_guard.Std.Bytes.{Bytes}
use config_guard.Std.FilePath.{FilePath, path_beq, path_eq, starts_with, strip_prefix-starts_with}
use config_guard.Std.Map.{Map, get, contains, add, get-insert, get-eq, contains-add}
use config_guard.Std.Distinct.{IsDistinct, insert-IsDistinct}
use config_guard.Policy.Types.{ProcessSubject, AccessKind}
use config_guard.Policy.Subject.{subject_name}
use config_guard.Learning.{
  PathAlias, ObservationKey, observation_beq, observation_eq, AuditLearner, config_root_for_home,
  config_root_for_alias, config_root_for_home_or_alias, count_up, observe, LearnedOwnedPath,
  add_subject, subjects_by_root_from, subjects_by_root, candidate_owner_for_root, candidates,
  candidate_owned_paths,
}

abbrev pub count_of : Map ObservationKey ℕ → ObservationKey → ℕ
count_of m k = unwrap_or (get k m) 0

-- An access below a configuration root adds one to the count of its subject, root and kind, and
-- changes no other count, whether or not the output is then written.
pub observe-counts :
    (written : Bool) (l : AuditLearner) (s : ProcessSubject) (target : FilePath)
    (access : AccessKind) (root : FilePath) (k : ObservationKey)
    → config_root_for_home_or_alias target l.home_dir l.path_aliases ≡ some root
    → count_of (observe written l s target access).1.observations k
      ≡ (if observation_beq
            (record { subject = subject_name s; config_root = root; access = access })
            k
          then 1
          else 0)
        + count_of l.observations k
unfolding observe count_up
observe-counts written l s target access root k h =
    let key : ObservationKey = record {
      subject = subject_name s;
      config_root = root;
      access = access;
    } in
    ground (
      arith,
      h,
      get-insert key k (count_of l.observations key + 1) l.observations,
      get-eq key k l.observations,
    )

module _ (s : Bytes) (r : FilePath) where
  -- Whether a subject is listed for a root.
  abbrev listed : Map FilePath (List Bytes) → Bool
  listed m = contains s (unwrap_or (get r m) [])

  add_subject-listed :
      (m : Map FilePath (List Bytes)) (k : ObservationKey)
      → listed (add_subject m k) ≡ (path_beq k.config_root r && list_beq k.subject s || listed m)
  unfolding add_subject contains
  add_subject-listed m k =
      let old = unwrap_or (get k.config_root m) [] in
      elim (Bool-cases (path_beq k.config_root r)) [
        | inl e ↦ ground (
          arith,
          get-insert k.config_root r (add k.subject old) m,
          get-eq k.config_root r m,
          contains-add k.subject s old,
        )
        | inr e ↦ ground (arith, get-insert k.config_root r (add k.subject old) m)
      ]

  subjects_by_root_from-listed :
      (m : Map FilePath (List Bytes)) (observations : Map ObservationKey ℕ)
      → listed m ≡ true
      → listed (subjects_by_root_from m observations) ≡ true
  unfolding subjects_by_root_from
  subjects_by_root_from-listed m [] h = h
  subjects_by_root_from-listed m ((k, n) ∷ observations) h =
      subjects_by_root_from-listed (add_subject m k) observations
        (ground (arith, add_subject-listed m k))

-- Every observation is listed under each spelling of its root.
All-listed :
    (m : Map FilePath (List Bytes)) (observations : Map ObservationKey ℕ)
    → All
        (λ o.
          (r : FilePath)
          → path_beq o.0.config_root r ≡ true
          → listed o.0.subject r (subjects_by_root_from m observations) ≡ true)
        observations
unfolding subjects_by_root_from
All-listed m [] = tt
All-listed m ((k, n) ∷ observations) = (
  λ r e.
      subjects_by_root_from-listed k.subject r (add_subject m k) observations
        (ground (arith, add_subject-listed k.subject r m k, list_refl k.subject)),
  All-listed (add_subject m k) observations,
)

subjects_by_root_from-IsDistinct :
    (m : Map FilePath (List Bytes)) (observations : Map ObservationKey ℕ)
    → IsDistinct m
    → IsDistinct (subjects_by_root_from m observations)
unfolding subjects_by_root_from add_subject
subjects_by_root_from-IsDistinct m [] d = d
subjects_by_root_from-IsDistinct m ((k, n) ∷ observations) d =
    subjects_by_root_from-IsDistinct (add_subject m k) observations
      (insert-IsDistinct k.config_root (add k.subject (unwrap_or (get k.config_root m) [])) m d)

-- A candidate is the only subject listed for its root.
candidate_owner_for_root-single :
    (root : FilePath) (subjects : List Bytes) (c : LearnedOwnedPath)
    → candidate_owner_for_root root subjects ≡ some c
    → (c.path ≡ root) × (subjects ≡ c.owner ∷ [])
unfolding candidate_owner_for_root
candidate_owner_for_root-single root [] c h = cc
candidate_owner_for_root-single root (s ∷ []) c h = ground arith
candidate_owner_for_root-single root (s ∷ t ∷ ss) c h = cc

abbrev IsOnlyOf : Map FilePath (List Bytes) → LearnedOwnedPath → Type 0
IsOnlyOf m c = get c.path m ≡ some (c.owner ∷ [])

candidates-single : (m : Map FilePath (List Bytes)) → IsDistinct m → All (IsOnlyOf m) (candidates m)
unfolding candidates get
candidates-single [] d = tt
candidates-single ((root, subjects) ∷ m) d =
    let behind : All (IsOnlyOf ((root, subjects) ∷ m)) (candidates m) =
      All-map (candidates m) (λ c h. ground (arith, h, d.0, get-eq root c.path m))
        (candidates-single m d.1) in
    elim (Option-cases (candidate_owner_for_root root subjects)) [
      | inl e ↦ rw (e, candidates) behind
      | inr (c, e) ↦
          rw (e, candidates)
            (
              ground
                  (arith, candidate_owner_for_root-single root subjects c e, path_eq.beq_refl root),
              behind,
            )
    ]

-- A suggested owner of a root is the subject of every observation under that root.
pub candidate_owned_paths-only_subject :
    (l : AuditLearner)
    → All
        (λ c.
          All (λ o. path_beq o.0.config_root c.path ≡ true → o.0.subject ≡ c.owner) l.observations)
        (candidate_owned_paths l)
unfolding candidate_owned_paths subjects_by_root contains
candidate_owned_paths-only_subject l =
    All-map (candidates (subjects_by_root l.observations))
      (λ c single.
        All-map l.observations
          (λ o h e. ground (arith, single, h c.path e, list_beq→eq c.owner o.0.subject))
          (All-listed [] l.observations))
      (candidates-single (subjects_by_root l.observations)
        (subjects_by_root_from-IsDistinct [] l.observations tt))

-- An alias list up to its first alias whose real root holds a path.
abbrev pub IsFirstAlias : FilePath → List PathAlias → FilePath → Type 0
IsFirstAlias target aliases root =
    (before after : List PathAlias) × (alias : PathAlias) × (aliases ≡ before ++ alias ∷ after)
    × All (λ b. starts_with target b.real_root ≡ false) before
    × (starts_with target alias.real_root ≡ true)
    × (root ≡ alias.logical_root)

config_root_for_alias-first :
    (target : FilePath) (aliases : List PathAlias) (root : FilePath)
    → config_root_for_alias target aliases ≡ some root
    → IsFirstAlias target aliases root
unfolding config_root_for_alias
config_root_for_alias-first target [] root h = cc
config_root_for_alias-first target (a ∷ aliases) root h =
    elim (Bool-cases (starts_with target a.real_root)) [
      | inl e ↦ (
        [],
        aliases,
        a,
        refl,
        tt,
        e,
        ground (arith, e, h, strip_prefix-starts_with target a.real_root),
      )
      | inr e ↦
          let (before, after, alias, q, none_before, below, root_eq) =
            config_root_for_alias-first target aliases root
              (ground (arith, e, h, strip_prefix-starts_with target a.real_root)) in
          (a ∷ before, after, alias, ground (arith, q), (e, none_before), below, root_eq)
    ]

-- An access outside the configuration roots of the home directory is observed under the logical root
-- of the first alias whose real root holds it, by whole components.
pub config_root_for_home_or_alias-alias :
    (target home : FilePath) (aliases : List PathAlias) (root : FilePath)
    → config_root_for_home target home ≡ none
    → config_root_for_home_or_alias target home aliases ≡ some root
    → IsFirstAlias target aliases root
unfolding config_root_for_home_or_alias
config_root_for_home_or_alias-alias target home aliases root h g =
    config_root_for_alias-first target aliases root (ground (arith, h, g))
