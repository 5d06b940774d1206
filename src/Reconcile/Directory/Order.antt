-- ===== src/Reconcile/Directory/Order.antt =====
-- src/reconcile.rs: which entries a plan is about, and in which order.
use mathlib.Core.List.{Perm}
use mathlib.Core.List.Perm
use config_guard.Base.{
  ◌≡◌, refl, sym, ap, ◌∙◌, inl, inr, Bool, true, not, ◌||◌, List, [], ◌∷◌, map, Option, some, arith,
  keep, Bool-cases, Option-cases,
}
use config_guard.Std.Bytes.{Bytes}
use config_guard.Std.FilePath.{
  FilePath, Component, root_dir, cur_dir, parent_dir, normal, components,
}
use config_guard.Reconcile.{
  ReconcileAction, ReconcileOptions, Disk, Change, is_archive_dir, keep_configured_action,
  association_action, archive_action, plan_entry, plan_entries,
}
use config_guard.Reconcile.Directory.{
  bytes_le, component_le, components_le, path_le, insert_sorted, sort, collect_entries,
  config_home_entries, plan_reconcile,
}

bytes_le-total : (as' bs : Bytes) → (bytes_le as' bs || bytes_le bs as') ≡ true
unfolding bytes_le
bytes_le-total [] bs = refl
bytes_le-total (a ∷ as') [] = refl
bytes_le-total (a ∷ as') (b ∷ bs) = ground (arith, bytes_le-total as' bs)

component_le-total : (a b : Component) → (component_le a b || component_le b a) ≡ true
unfolding component_le
component_le-total (normal a) (normal b) = bytes_le-total a b
component_le-total root_dir root_dir = refl
component_le-total root_dir cur_dir = refl
component_le-total root_dir parent_dir = refl
component_le-total root_dir (normal b) = refl
component_le-total cur_dir root_dir = refl
component_le-total cur_dir cur_dir = refl
component_le-total cur_dir parent_dir = refl
component_le-total cur_dir (normal b) = refl
component_le-total parent_dir root_dir = refl
component_le-total parent_dir cur_dir = refl
component_le-total parent_dir parent_dir = refl
component_le-total parent_dir (normal b) = refl
component_le-total (normal a) root_dir = refl
component_le-total (normal a) cur_dir = refl
component_le-total (normal a) parent_dir = refl

components_le-total : (xs ys : List Component) → (components_le xs ys || components_le ys xs) ≡ true
unfolding components_le
components_le-total [] ys = refl
components_le-total (x ∷ xs) [] = refl
components_le-total (x ∷ xs) (y ∷ ys) =
    ground (arith, component_le-total x y, components_le-total xs ys)

abbrev pub IsSorted : List FilePath → Type 0
IsSorted [] = Unit
IsSorted (p ∷ []) = Unit
IsSorted (p ∷ q ∷ qs) = (path_le p q ≡ true) × IsSorted (q ∷ qs)

insert_sorted-IsSorted :
    (p : FilePath) (qs : List FilePath) → IsSorted qs → IsSorted (insert_sorted p qs)
unfolding insert_sorted path_le
insert_sorted-IsSorted p [] h = tt
insert_sorted-IsSorted p (q ∷ []) h =
    ground (arith, components_le-total (components p) (components q))
insert_sorted-IsSorted p (q ∷ r ∷ qs) h =
    ground
      (arith, components_le-total (components p) (components q), insert_sorted-IsSorted p (r ∷ qs))

sort-IsSorted : (ps : List FilePath) → IsSorted (sort ps)
unfolding sort
sort-IsSorted [] = tt
sort-IsSorted (p ∷ ps) = insert_sorted-IsSorted p (sort ps) (sort-IsSorted ps)

insert_sorted-perm : (p : FilePath) (qs : List FilePath) → Perm (insert_sorted p qs) (p ∷ qs)
unfolding insert_sorted
insert_sorted-perm p [] = Perm.refl (p ∷ [])
insert_sorted-perm p (q ∷ qs) = elim (Bool-cases (path_le p q)) [
  | inl e ↦ rw (e) (Perm.refl (p ∷ q ∷ qs))
  | inr e ↦ rw (e) (Perm.trans (Perm.cons q (insert_sorted-perm p qs)) (Perm.swap p q qs))
]

sort-perm : (ps : List FilePath) → Perm (sort ps) ps
unfolding sort
sort-perm [] = Perm.refl []
sort-perm (p ∷ ps) = Perm.trans (insert_sorted-perm p (sort ps)) (Perm.cons p (sort-perm ps))

-- An entry that a plan is about.
abbrev pub is_planned : Disk → ReconcileOptions → FilePath → Bool
is_planned disk o entry = not (is_archive_dir entry o.archive_dir || not (disk.is_dir entry))

-- The action for an entry is about that entry.
plan_entry-source :
    (disk : Disk) (o : ReconcileOptions) (entry : FilePath) (action : ReconcileAction)
    → (plan_entry disk entry o).0 ≡ some action
    → action.source ≡ entry
unfolding plan_entry keep_configured_action association_action archive_action
plan_entry-source disk o entry action h = ground arith

plan_entries-sources :
    (disk : Disk) (o : ReconcileOptions) (entries : List FilePath) (actions : List ReconcileAction)
    → (plan_entries disk o entries).0 ≡ some actions
    → map (λ (a : ReconcileAction). a.source) actions ≡ keep (is_planned disk o) entries
unfolding plan_entries keep
plan_entries-sources disk o [] [] h = refl
plan_entries-sources disk o [] (a ∷ actions) h = cc
plan_entries-sources disk o (entry ∷ entries) actions h =
    elim (Bool-cases (is_archive_dir entry o.archive_dir || not (disk.is_dir entry))) [
      | inl skipped ↦
          rw (skipped)
            (plan_entries-sources disk o entries actions (rw (skipped, plan_entries) at h))
      | inr planned ↦ elim (Option-cases (plan_entry disk entry o).0) [
        | inl n ↦ absurd (ground arith)
        | inr (action, n) ↦ elim (Option-cases (plan_entries disk o entries).0) [
          | inl m ↦ absurd (ground arith)
          | inr (others, m) ↦ ground (
            arith,
            plan_entry-source disk o entry action,
            plan_entries-sources disk o entries others,
          )
        ]
      ]
    ]

collect_entries-map : (ps : List FilePath) → collect_entries (map some ps) ≡ some ps
unfolding collect_entries
collect_entries-map [] = refl
collect_entries-map (p ∷ ps) = rw (collect_entries-map ps, collect_entries) refl

plan_reconcile-map :
    (disk : Disk) (o : ReconcileOptions) (listed : List FilePath)
    → plan_reconcile disk o (some (map some listed)) ≡ plan_entries disk o (sort listed)
unfolding plan_reconcile config_home_entries
plan_reconcile-map disk o listed =
    rw (collect_entries-map listed, plan_reconcile, config_home_entries) refl

-- A plan that ends without an error, over a directory whose entries can all be read, has one action for each
-- directory in it other than the archive, in the order of their paths, whatever the order in which
-- the entries were listed.
pub plan_reconcile-sources :
    (disk : Disk) (o : ReconcileOptions) (listed : List FilePath) (actions : List ReconcileAction)
    → (plan_reconcile disk o (some (map some listed))).0 ≡ some actions
    → (sorted : List FilePath) × Perm sorted listed
      × IsSorted sorted
      × (map (λ (a : ReconcileAction). a.source) actions ≡ keep (is_planned disk o) sorted)
plan_reconcile-sources disk o listed actions h = (
  sort listed,
  sort-perm listed,
  sort-IsSorted listed,
  plan_entries-sources disk o (sort listed) actions (
      sym (
        ap (λ (r : Option (List ReconcileAction) × List Change). r.0)
          (plan_reconcile-map disk o listed))
      ∙ h),
)
