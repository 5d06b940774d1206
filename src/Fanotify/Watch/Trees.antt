-- ===== src/Fanotify/Watch/Trees.antt =====
-- src/fanotify/watch.rs: the loop over the stack is a walk of the tree of directories.
use config_guard.Base.{
  ℕ, zero, suc, ◌<◌, ◌≡◌, refl, sym, ap, ◌∙◌, inl, inr, true, List, [], ◌∷◌, ◌++◌, map, none, some,
  arith, length, All, Option-cases,
}
use mathlib.Core.List.{append_assoc, append-nil}
use config_guard.Std.FilePath.{FilePath}
use config_guard.Fanotify.Watch.{
  Mark, Kernel, Marking, marked, failed, mark_guard_path, child_directories, push_all, mark_loop,
  mark_path_tree,
}

-- A tree of directories.
mutual
  pub data Tree : Type 0 where
    node : FilePath → Forest → Tree

  pub data Forest : Type 0 where
    leaf : Forest
    branch : Tree → Forest → Forest

abbrev pub root : Tree → FilePath
root (node p f) = p

abbrev pub roots : Forest → List FilePath
roots leaf = []
roots (branch t f) = root t ∷ roots f

-- A directory comes before those below it, and of its children the last comes first.
unfoldable mutual
  pub visits : Tree → List FilePath
  visits (node p f) = p ∷ visits_last f

  pub visits_last : Forest → List FilePath
  visits_last leaf = []
  visits_last (branch t f) = visits_last f ++ visits t

-- The marks of the paths in turn, up to the first that is refused.
unfoldable pub mark_all : Kernel → List Mark → List FilePath → Marking
mark_all k done [] = marked done
mark_all k done (p ∷ ps) = elim (mark_guard_path k p) [
  | none ↦ failed done
  | some mark ↦ mark_all k (done ++ mark ∷ []) ps
]

module _ (k : Kernel) (excluded_paths : List FilePath) where
  -- The tree is what the file system shows: the children of each directory are those that are read.
  unfoldable mutual
    pub IsTree : Tree → Type 0
    IsTree (node p f) = (child_directories k excluded_paths p ≡ some (roots f)) × IsForest f

    pub IsForest : Forest → Type 0
    IsForest leaf = Unit
    IsForest (branch t f) = IsTree t × IsForest f

  -- The trees whose roots stand on the stack.
  abbrev walk : List Tree → List FilePath
  walk [] = []
  walk (t ∷ ts) = visits t ++ walk ts

  push_forest : Forest → List Tree → List Tree
  push_forest leaf ts = ts
  push_forest (branch t f) ts = push_forest f (t ∷ ts)

  push_all-roots :
      (f : Forest) (ts : List Tree) → push_all (roots f) (map root ts) ≡ map root (push_forest f ts)
  unfolding push_all push_forest
  push_all-roots leaf ts = refl
  push_all-roots (branch t f) ts = push_all-roots f (t ∷ ts)

  walk-push_forest :
      (f : Forest) (ts : List Tree) → walk (push_forest f ts) ≡ visits_last f ++ walk ts
  unfolding push_forest visits
  walk-push_forest leaf ts = refl
  walk-push_forest (branch t f) ts =
      walk-push_forest f (t ∷ ts) ∙ sym (append_assoc (visits_last f) (visits t) (walk ts))

  push_forest-IsTree :
      (f : Forest) (ts : List Tree) → IsForest f → All IsTree ts → All IsTree (push_forest f ts)
  unfolding push_forest IsTree
  push_forest-IsTree leaf ts h k' = k'
  push_forest-IsTree (branch t f) ts h k' = push_forest-IsTree f (t ∷ ts) h.1 (h.0, k')

  -- The loop marks what a walk of the trees on its stack visits, with fuel for all of it.
  mark_loop-walk :
      (fuel : ℕ) (ts : List Tree) (done : List Mark)
      → All IsTree ts
      → length (walk ts) < fuel
      → mark_loop k excluded_paths fuel (map root ts) done ≡ some (mark_all k done (walk ts))
  unfolding mark_loop mark_all visits IsTree
  mark_loop-walk zero ts done h l = absurd (omega arith)
  mark_loop-walk (suc fuel) [] done h l = refl
  mark_loop-walk (suc fuel) (node p f ∷ ts) done h l = elim (Option-cases (mark_guard_path k p)) [
    | inl n ↦ rw (n, mark_loop, mark_all)
    | inr (mark, e) ↦
        let below = walk-push_forest f ts in
        let small : length (walk (push_forest f ts)) < fuel = rw (below) (omega arith) in
        rw (e, h.0.0, mark_loop, mark_all)
          (ap (λ ps. mark_loop k excluded_paths fuel ps (done ++ mark ∷ [])) (push_all-roots f ts)
            ∙ mark_loop-walk fuel (push_forest f ts) (done ++ mark ∷ [])
                (push_forest-IsTree f ts h.0.1 h.1) small
            ∙ ap (λ ps. some (mark_all k (done ++ mark ∷ []) ps)) below)
  ]

  pub mark_path_tree-visits :
      (fuel : ℕ) (t : Tree) (done : List Mark)
      → k.is_dir (root t) ≡ true
      → IsTree t
      → length (visits t) < fuel
      → mark_path_tree k excluded_paths fuel (root t) done ≡ some (mark_all k done (visits t))
  unfolding mark_path_tree
  mark_path_tree-visits fuel t done d h l =
      rw (d, mark_path_tree)
        (mark_loop-walk fuel (t ∷ []) done (h, tt) (rw (append-nil) l)
          ∙ ap (λ ps. some (mark_all k done ps)) (append-nil (visits t)))
