-- ===== src/Fanotify/Watch/Reached.antt =====
-- src/fanotify/watch.rs: which directories are marked.
use config_guard.Base.{
  ℕ, ◌<◌, ◌≡◌, ◌↔◌, ◌⊎◌, refl, sym, ap, ◌∙◌, subst, inl, inr, true, List, [], ◌∷◌, ◌++◌, map, none,
  some, arith, length, Member, Option-cases,
}
use mathlib.Core.List.{append-nil, append_assoc, map-append}
use config_guard.Std.FilePath.{FilePath}
use config_guard.Fanotify.Watch.{
  Mark, Kernel, Marking, marked, failed, mark_guard_path, mark_path, mark_path_tree,
}
use config_guard.Fanotify.Watch.Children.{
  IsChild, child_directories-IsChild, IsChild-child_directories,
}
use config_guard.Fanotify.Watch.Trees.{
  Tree, node, Forest, leaf, branch, root, roots, visits, visits_last, mark_all, IsTree, IsForest,
  mark_path_tree-visits,
}

module _ (k : Kernel) (excluded_paths : List FilePath) where
  -- A directory is reached from another by entries of directories that are directories and not excluded.
  pub data Reach : FilePath → FilePath → Type 0 where
    here : {p : FilePath} → Reach p p
    below : {p c d : FilePath} → IsChild k excluded_paths p c → Reach c d → Reach p d

  Any-left : (x : FilePath) (xs ys : List FilePath) → Member x xs → Member x (xs ++ ys)
  Any-left x [] ys m = absurd m
  Any-left x (y ∷ xs) ys (inl e) = inl e
  Any-left x (y ∷ xs) ys (inr m) = inr (Any-left x xs ys m)

  Any-right : (x : FilePath) (xs ys : List FilePath) → Member x ys → Member x (xs ++ ys)
  Any-right x [] ys m = m
  Any-right x (y ∷ xs) ys m = inr (Any-right x xs ys m)

  Any-split :
      (x : FilePath) (xs ys : List FilePath) → Member x (xs ++ ys) → Member x xs ⊎ Member x ys
  Any-split x [] ys m = inr m
  Any-split x (y ∷ xs) ys (inl e) = inl (inl e)
  Any-split x (y ∷ xs) ys (inr m) = elim (Any-split x xs ys m) [
    | inl l ↦ inl (inr l)
    | inr r ↦ inr r
  ]

  mutual
    unfolding IsTree visits

    visits-Reach :
        (t : Tree)
        → IsTree k excluded_paths t
        → (d : FilePath) → Member d (visits t)
        → Reach (root t) d
    visits-Reach (node p f) h d (inl e) = subst (λ x. Reach p x) e here
    visits-Reach (node p f) h d (inr m) =
        let (c, listed, r) = visits_last-Reach f h.1 d m in
        below (child_directories-IsChild k excluded_paths p (roots f) h.0 c listed) r

    visits_last-Reach :
        (f : Forest)
        → IsForest k excluded_paths f
        → (d : FilePath) → Member d (visits_last f)
        → (c : FilePath) × Member c (roots f) × Reach c d
    visits_last-Reach leaf h d m = absurd m
    visits_last-Reach (branch t f) h d m = elim (Any-split d (visits_last f) (visits t) m) [
      | inl l ↦ let (c, listed, r) = visits_last-Reach f h.1 d l in (c, inr listed, r)
      | inr r ↦ (root t, inl refl, visits-Reach t h.0 d r)
    ]

  -- The tree among the children that has a given root.
  subtree :
      (f : Forest) (c : FilePath)
      → IsForest k excluded_paths f
      → Member c (roots f)
      → (t : Tree) × IsTree k excluded_paths t
        × (root t ≡ c)
        × ((d : FilePath) → Member d (visits t) → Member d (visits_last f))
  unfolding IsTree visits
  subtree leaf c h m = absurd m
  subtree (branch t f) c h (inl e) = (t, h.0, e, λ d m. Any-right d (visits_last f) (visits t) m)
  subtree (branch t f) c h (inr m) =
      let (u, v, e, keep) = subtree f c h.1 m in
      (u, v, e, λ d n. Any-left d (visits_last f) (visits t) (keep d n))

  Reach-visits :
      {p d : FilePath}
      → Reach p d
      → (t : Tree) → IsTree k excluded_paths t
      → root t ≡ p
      → Member d (visits t)
  unfolding IsTree visits
  Reach-visits here (node q f) h e = inl e
  Reach-visits (below {p} {c} {d} child r) (node q f) h e =
      let held = subst (λ x. IsChild k excluded_paths x c) (sym e) child in
      let listed = IsChild-child_directories k excluded_paths q (roots f) h.0 c held in
      let (u, v, at, keep) = subtree f c h.1 listed in inr (keep d (Reach-visits r u v at))

mark_guard_path-path :
    (k : Kernel) (p : FilePath) (mark : Mark) → mark_guard_path k p ≡ some mark → mark.path ≡ p
unfolding mark_guard_path mark_path
mark_guard_path-path k p mark h = ground arith

abbrev pub paths_of : List Mark → List FilePath
paths_of marks = map (λ (m : Mark). m.path) marks

mark_all-marked :
    (k : Kernel) (done : List Mark) (ps : List FilePath) (ms : List Mark)
    → mark_all k done ps ≡ marked ms
    → paths_of ms ≡ paths_of done ++ ps
unfolding mark_all
mark_all-marked k done [] ms h =
    let same : ms ≡ done = cc in ap paths_of same ∙ sym (append-nil (paths_of done))
mark_all-marked k done (p ∷ ps) ms h = elim (Option-cases (mark_guard_path k p)) [
  | inl n ↦ absurd (ground arith)
  | inr (mark, e) ↦
      let rest = mark_all-marked k (done ++ mark ∷ []) ps ms (rw (e, mark_all) at h) in
      rest
      ∙ ap (λ l. l ++ ps) (map-append (λ (m : Mark). m.path) done (mark ∷ []))
      ∙ append_assoc (paths_of done) (mark.path ∷ []) ps
      ∙ ap (λ q. paths_of done ++ (q ∷ ps)) (mark_guard_path-path k p mark e)
]

mark_all-failed :
    (k : Kernel) (done : List Mark) (ps : List FilePath) (ms : List Mark)
    → mark_all k done ps ≡ failed ms
    → (p : FilePath) × Member p ps × (mark_guard_path k p ≡ none)
unfolding mark_all
mark_all-failed k done [] ms h = absurd (cc)
mark_all-failed k done (p ∷ ps) ms h = elim (Option-cases (mark_guard_path k p)) [
  | inl n ↦ (p, inl refl, n)
  | inr (mark, e) ↦
      let (q, m, n) = mark_all-failed k (done ++ mark ∷ []) ps ms (rw (e, mark_all) at h) in
      (q, inr m, n)
]

-- On a directory whose tree is finite and can be read, the loop ends with fuel for each directory of the tree. If it
-- ends well, the paths that it has marked are just the directories that are reached, and else there is one that
-- cannot be marked.
pub mark_path_tree-Reach :
    (k : Kernel) (excluded_paths : List FilePath) (t : Tree) (fuel : ℕ)
    → k.is_dir (root t) ≡ true
    → IsTree k excluded_paths t
    → length (visits t) < fuel
    → (r : Marking) × (mark_path_tree k excluded_paths fuel (root t) [] ≡ some r)
      × ((ms : List Mark)
          → r ≡ marked ms
          → (d : FilePath) → Member d (paths_of ms) ↔ Reach k excluded_paths (root t) d)
      × ((ms : List Mark)
          → r ≡ failed ms
          → (d : FilePath) × Reach k excluded_paths (root t) d × (mark_guard_path k d ≡ none))
mark_path_tree-Reach k excluded_paths t fuel dir h l = (
  mark_all k [] (visits t),
  mark_path_tree-visits k excluded_paths fuel t [] dir h l,
  λ ms e d.
      let same = mark_all-marked k [] (visits t) ms e in
      (
        λ m. visits-Reach k excluded_paths t h d (subst (Member d) same m),
        λ r. subst (Member d) (sym same) (Reach-visits k excluded_paths r t h refl),
      ),
  λ ms e.
      let (d, m, n) = mark_all-failed k [] (visits t) ms e in
      (d, visits-Reach k excluded_paths t h d m, n),
)
