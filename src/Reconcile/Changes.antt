-- ===== src/Reconcile/Changes.antt =====
-- src/reconcile.rs: what a plan may change.
use config_guard.Base.{
  ◌≡◌, refl, inl, inr, true, false, arith, Member, All-map, any-false, List, [], ◌∷◌, ◌++◌, All,
  Bool-cases, Option-cases,
}
use config_guard.Std.FilePath.{FilePath, path_beq, starts_with}
use config_guard.Policy.Types.{PolicyConfig}
use config_guard.Reconcile.{
  ReconcileOptions, Disk, Change, append_rule, move_entry, BinaryMatch, policy_covers_path,
  paths_overlap, is_archive_dir, association_action, archive_action, find_associated_binary,
  plan_entry, plan_entries,
}
use config_guard.Reconcile.Binaries.{
  HasBinary, HasNoBinary, names_of, find_associated_binary-some, find_associated_binary-none,
}

-- The entry that a change is about.
abbrev pub entry_of : Change → FilePath
entry_of (append_rule entry owner) = entry
entry_of (move_entry entry target) = entry

-- Neither path is the other or lies below it, by whole components.
abbrev pub IsApart : FilePath → FilePath → Type 0
IsApart p q = (starts_with p q ≡ false) × (starts_with q p ≡ false)

-- No rule of the policy file is about the entry, something below it or something above it. The rules' paths count as they
-- are, also those that `path_prefix` would widen.
abbrev pub IsUnconfigured : PolicyConfig → FilePath → Type 0
IsUnconfigured c entry =
    All (λ o. IsApart entry o.path) c.owned_paths
    × All (λ r. IsApart entry r.path) c.shared_paths
    × All (λ r. IsApart entry r.path) c.sensitive_paths

-- A rule is for a program that is there, under one of the names; an entry is moved if there is none under any of them.
abbrev pub IsFitting : Disk → ReconcileOptions → Change → Type 0
IsFitting disk o (append_rule entry owner) =
    Member owner (names_of entry) × HasBinary disk o.binary_dirs owner
IsFitting disk o (move_entry entry target) = All (HasNoBinary disk o.binary_dirs) (names_of entry)

-- A change that the options, the policy and the programs permit.
abbrev pub IsPermitted : Disk → ReconcileOptions → Change → Type 0
IsPermitted disk o c =
    (o.apply ≡ true)
    × IsUnconfigured o.policy_config (entry_of c)
    × (path_beq (entry_of c) o.archive_dir ≡ false)
    × (disk.is_dir (entry_of c) ≡ true)
    × IsFitting disk o c

paths_overlap-IsApart : (p q : FilePath) → paths_overlap p q ≡ false → IsApart p q
unfolding paths_overlap
paths_overlap-IsApart p q h = (ground arith, ground arith)

policy_covers_path-IsUnconfigured :
    (c : PolicyConfig) (entry : FilePath)
    → policy_covers_path c entry ≡ false
    → IsUnconfigured c entry
unfolding policy_covers_path
policy_covers_path-IsUnconfigured c entry h = (
  All-map c.owned_paths (λ o e. paths_overlap-IsApart entry o.path e)
      (any-false (λ o. paths_overlap entry o.path) c.owned_paths (ground arith)),
  All-map c.shared_paths (λ r e. paths_overlap-IsApart entry r.path e)
      (any-false (λ r. paths_overlap entry r.path) c.shared_paths (ground arith)),
  All-map c.sensitive_paths (λ r e. paths_overlap-IsApart entry r.path e)
      (any-false (λ r. paths_overlap entry r.path) c.sensitive_paths (ground arith)),
)

module _ (disk : Disk) (o : ReconcileOptions) (P : Change → Type 0) where
  All-append : (xs ys : List Change) → All P xs → All P ys → All P (xs ++ ys)
  All-append [] ys h k = k
  All-append (x ∷ xs) ys h k = (h.0, All-append xs ys h.1 k)

  association_action-All :
      (entry : FilePath) (m : BinaryMatch)
      → (o.apply ≡ true → P (append_rule entry m.owner))
      → All P (association_action disk entry o m).1
  unfolding association_action
  association_action-All entry m h = elim (Bool-cases o.apply) [
    | inr e ↦ rw (e) tt
    | inl e ↦ elim (Option-cases o.config_path) [
      | inl n ↦ rw (e, n) tt
      | inr (config, n) ↦ elim (Bool-cases (disk.appends config)) [
        | inl k ↦ rw (e, n, k) (h e, tt)
        | inr k ↦ rw (e, n, k) tt
      ]
    ]
  ]

  archive_action-All :
      (entry : FilePath)
      → (o.apply ≡ true → (target : FilePath) → P (move_entry entry target))
      → All P (archive_action disk entry o).1
  unfolding archive_action
  archive_action-All entry h = elim (Bool-cases o.apply) [
    | inr e ↦ rw (e) tt
    | inl e ↦ elim (Bool-cases (disk.moves entry)) [
      | inl k ↦ rw (e, k) (h e _, tt)
      | inr k ↦ rw (e, k) tt
    ]
  ]

  plan_entry-All :
      (entry : FilePath)
      → (policy_covers_path o.policy_config entry ≡ false
          → o.apply ≡ true
          → (change : Change) → entry_of change ≡ entry
          → IsFitting disk o change
          → P change)
      → All P (plan_entry disk entry o).1
  unfolding plan_entry
  plan_entry-All entry h = elim (Bool-cases (policy_covers_path o.policy_config entry)) [
    | inl c ↦ rw (c) tt
    | inr c ↦ elim (Option-cases (find_associated_binary disk entry o.binary_dirs)) [
      | inl n ↦
          rw (c, n)
            (archive_action-All entry (λ e target.
              h c e (move_entry entry target) refl
                (find_associated_binary-none disk entry o.binary_dirs n)))
      | inr (m, n) ↦
          rw (c, n)
            (association_action-All entry m (λ e.
              h c e (append_rule entry m.owner) refl
                (find_associated_binary-some disk entry o.binary_dirs m n)))
    ]
  ]

  plan_entries-All :
      (entries : List FilePath)
      → ((entry : FilePath)
          → is_archive_dir entry o.archive_dir ≡ false
          → disk.is_dir entry ≡ true
          → All P (plan_entry disk entry o).1)
      → All P (plan_entries disk o entries).1
  unfolding plan_entries
  plan_entries-All [] h = tt
  plan_entries-All (entry ∷ entries) h =
      let rest = plan_entries-All entries h in
      elim (Bool-cases (is_archive_dir entry o.archive_dir)) [
        | inl a ↦ rw (a) rest
        | inr a ↦ elim (Bool-cases (disk.is_dir entry)) [
          | inr d ↦ rw (a, d) rest
          | inl d ↦ elim (Option-cases (plan_entry disk entry o).0) [
            | inl n ↦ rw (a, d, n) (h entry a d)
            | inr (action, n) ↦ rw (a, d, n) (All-append _ _ (h entry a d) rest)
          ]
        ]
      ]

-- Over the entries of a directory, every rule appended and every entry moved is about a directory that is not the
-- archive and that is, by whole components, neither below nor above the path of any owned, shared or sensitive rule, and
-- there is neither unless changes were asked for. A rule is appended only for a program that is there under one
-- of the names that the entry suggests, and an entry is moved only if there is none under any of them.
pub plan_entries-IsPermitted :
    (disk : Disk) (o : ReconcileOptions) (entries : List FilePath)
    → All (IsPermitted disk o) (plan_entries disk o entries).1
unfolding is_archive_dir
plan_entries-IsPermitted disk o entries =
    plan_entries-All disk o (IsPermitted disk o) entries (λ entry a d.
      plan_entry-All disk o (IsPermitted disk o) entry (λ c e change p fits. (
        e,
        rw (p) (policy_covers_path-IsUnconfigured o.policy_config entry c),
        rw (p) a,
        rw (p) d,
        fits,
      )))
