-- ===== src/Fanotify/Startup/Guarded.antt =====
-- src/fanotify.rs and src/fanotify/watch.rs: what is marked when systemd is told that the guard is ready.
use config_guard.Base.{
  ℕ, zero, suc, ◌≡◌, ◌⊎◌, refl, sym, subst, inl, inr, Bool, true, false, not, List, [], ◌∷◌, ◌++◌,
  Option, some, arith, keep, Member, Option-cases, Bool-cases,
}
use config_guard.Std.Bytes.{Bytes}
use config_guard.Std.FilePath.{FilePath}
use config_guard.SystemdNotify.{SocketAddr}
use config_guard.Fanotify.Events.{is_excluded}
use config_guard.Fanotify.Watch.{
  Mark, Kernel, marked, failed, mark_guard_path, child_directories, push_all, mark_loop,
  mark_path_tree, mark_trees, mark_path_trees, install,
}
use config_guard.Fanotify.Watch.Children.{IsChild, IsChild-child_directories}
use config_guard.Fanotify.Watch.Reached.{Reach, here, below}
use config_guard.Fanotify.Audit.Handler.{guard, is_audit}
use config_guard.Fanotify.Audit.Run.{create_fanotify_fd}
use config_guard.Fanotify.Startup.{Ready, start}

Member-append : {A : Type 0} (x : A) (xs ys : List A) → Member x xs → Member x (xs ++ ys)
Member-append x [] ys m = absurd m
Member-append x (y ∷ xs) ys (inl e) = inl e
Member-append x (y ∷ xs) ys (inr m) = inr (Member-append x xs ys m)

Member-last : {A : Type 0} (x : A) (xs : List A) → Member x (xs ++ x ∷ [])
Member-last x [] = inl refl
Member-last x (y ∷ xs) = inr (Member-last x xs)

Member-push_all :
    (x : FilePath) (children pending : List FilePath)
    → Member x children ⊎ Member x pending
    → Member x (push_all children pending)
unfolding push_all
Member-push_all x [] pending (inl m) = absurd m
Member-push_all x [] pending (inr m) = m
Member-push_all x (c ∷ children) pending (inl (inl e)) =
    Member-push_all x children (c ∷ pending) (inr (inl e))
Member-push_all x (c ∷ children) pending (inl (inr m)) =
    Member-push_all x children (c ∷ pending) (inl m)
Member-push_all x (c ∷ children) pending (inr m) =
    Member-push_all x children (c ∷ pending) (inr (inr m))

module _ (k : Kernel) (excluded_paths : List FilePath) where
  -- The kernel has accepted the mark of the guard for the path.
  abbrev pub IsGuarded : List Mark → FilePath → Type 0
  IsGuarded marks d = (m : Mark) × Member m marks × (mark_guard_path k d ≡ some m)

  -- The marks of before are kept.
  mark_loop-keeps :
      (fuel : ℕ) (pending : List FilePath) (done ms : List Mark)
      → mark_loop k excluded_paths fuel pending done ≡ some (marked ms)
      → (m : Mark) → Member m done
      → Member m ms
  unfolding mark_loop
  mark_loop-keeps zero pending done ms h m i = absurd (cc)
  mark_loop-keeps (suc fuel) [] done ms h m i = let same : done ≡ ms = cc in subst (Member m) same i
  mark_loop-keeps (suc fuel) (p ∷ pending) done ms h m i =
      elim (Option-cases (mark_guard_path k p)) [
        | inl n ↦ absurd (ground arith)
        | inr (mark, e) ↦ elim (Option-cases (child_directories k excluded_paths p)) [
          | inl n ↦ absurd (ground arith)
          | inr (children, f) ↦
              mark_loop-keeps fuel (push_all children pending) (done ++ mark ∷ []) ms
                (rw (e, f, mark_loop) at h) m (Member-append m done (mark ∷ []) i)
        ]
      ]

  -- What is reached from the top of the stack or from below it.
  onward :
      (ms : List Mark) (q p d : FilePath) (children pending : List FilePath)
      → child_directories k excluded_paths q ≡ some children
      → IsGuarded ms q
      → ((c : FilePath)
          → Member c (push_all children pending)
          → Reach k excluded_paths c d
          → IsGuarded ms d)
      → Member p (q ∷ pending)
      → Reach k excluded_paths p d
      → IsGuarded ms d
  onward ms q p d children pending f g rest (inr m) r =
      rest p (Member-push_all p children pending (inr m)) r
  onward ms q p d children pending f g rest (inl e) here = subst (IsGuarded ms) e g
  onward ms q p d children pending f g rest (inl e) (below {c = c} child r) =
      let held = subst (λ x. IsChild k excluded_paths x c) (sym e) child in
      let listed = IsChild-child_directories k excluded_paths q children f c held in
      rest c (Member-push_all c children pending (inl listed)) r

  mark_loop-guards :
      (fuel : ℕ) (pending : List FilePath) (done ms : List Mark)
      → mark_loop k excluded_paths fuel pending done ≡ some (marked ms)
      → (p d : FilePath) → Member p pending
      → Reach k excluded_paths p d
      → IsGuarded ms d
  unfolding mark_loop
  mark_loop-guards zero pending done ms h p d i r = absurd (cc)
  mark_loop-guards (suc fuel) [] done ms h p d i r = absurd i
  mark_loop-guards (suc fuel) (q ∷ pending) done ms h p d i r =
      elim (Option-cases (mark_guard_path k q)) [
        | inl n ↦ absurd (ground arith)
        | inr (mark, e) ↦ elim (Option-cases (child_directories k excluded_paths q)) [
          | inl n ↦ absurd (ground arith)
          | inr (children, f) ↦
              let next = rw (e, f, mark_loop) at h in
              let kept =
                mark_loop-keeps fuel (push_all children pending) (done ++ mark ∷ []) ms next mark
                  (Member-last mark done) in
              onward ms q p d children pending f (mark, kept, e)
                (λ c m t.
                  mark_loop-guards fuel (push_all children pending) (done ++ mark ∷ []) ms next c d
                    m t)
                i r
        ]
      ]

  mark_path_tree-guards :
      (fuel : ℕ) (p : FilePath) (done ms : List Mark)
      → mark_path_tree k excluded_paths fuel p done ≡ some (marked ms)
      → ((m : Mark) → Member m done → Member m ms)
        × ((d : FilePath) → k.is_dir p ≡ true → Reach k excluded_paths p d → IsGuarded ms d)
  unfolding mark_path_tree
  mark_path_tree-guards fuel p done ms h = elim (Bool-cases (k.is_dir p)) [
    | inl dir ↦
        let run = rw (dir, mark_path_tree) at h in
        (
          mark_loop-keeps fuel (p ∷ []) done ms run,
          λ d t r. mark_loop-guards fuel (p ∷ []) done ms run p d (inl refl) r,
        )
    | inr file ↦ elim (Option-cases (mark_guard_path k p)) [
      | inl n ↦ absurd (ground arith)
      | inr (mark, e) ↦
          let same : done ++ mark ∷ [] ≡ ms = ground arith in
          (
            λ m i. subst (Member m) same (Member-append m done (mark ∷ []) i),
            λ d t r. absurd (ground arith),
          )
    ]
  ]

  mark_trees-guards :
      (fuel : ℕ) (ps : List FilePath) (done ms : List Mark)
      → mark_trees k excluded_paths fuel ps done ≡ some (marked ms)
      → ((m : Mark) → Member m done → Member m ms)
        × ((p d : FilePath)
            → Member p ps
            → k.is_dir p ≡ true
            → Reach k excluded_paths p d
            → IsGuarded ms d)
  unfolding mark_trees
  mark_trees-guards fuel [] done ms h =
      let same : done ≡ ms = cc in (λ m i. subst (Member m) same i, λ p d i t r. absurd i)
  mark_trees-guards fuel (q ∷ ps) done ms h =
      elim (Option-cases (mark_path_tree k excluded_paths fuel q done)) [
        | inl n ↦ absurd (ground arith)
        | inr (failed marks, e) ↦ absurd (ground arith)
        | inr (marked marks, e) ↦
            let (kept, found) = mark_path_tree-guards fuel q done marks e in
            let (keeps, finds) = mark_trees-guards fuel ps marks ms (rw (e, mark_trees) at h) in
            (
              λ m i. keeps m (kept m i),
              λ p d i t r. elim i [
                | inl same ↦
                    let (m, j, u) =
                      found d (subst (λ x. k.is_dir x ≡ true) (sym same) t)
                        (subst (λ x. Reach k excluded_paths x d) (sym same) r) in
                    (m, keeps m j, u)
                | inr j ↦ finds p d j t r
              ],
            )
      ]

  Member-keep :
      (test : FilePath → Bool) (p : FilePath) (ps : List FilePath)
      → Member p ps
      → test p ≡ true
      → Member p (keep test ps)
  unfolding keep
  Member-keep test p [] m h = absurd m
  Member-keep test p (q ∷ ps) (inl e) h = rw (e, h, keep) (inl refl)
  Member-keep test p (q ∷ ps) (inr m) h = elim (Bool-cases (test q)) [
    | inl t ↦ rw (t, keep) (inr (Member-keep test p ps m h))
    | inr t ↦ rw (t, keep) (Member-keep test p ps m h)
  ]

  -- When the start in guard mode has come to the message that all is ready, the kernel has accepted a mark for each
  -- directory that is reached, through directories that are not excluded, from a directory that was given and is not
  -- excluded itself.
  pub start-IsGuarded :
      (fanotify_init : ℕ → ℕ → Option ℕ) (send_to_addr : SocketAddr → Bytes → Option ℕ)
      (notify_socket : Option Bytes) (fuel : ℕ) (paths : List FilePath) (ready : Ready)
      (root d : FilePath)
      → start fanotify_init k send_to_addr notify_socket fuel paths excluded_paths guard
        ≡ some (some ready)
      → Member root paths
      → is_excluded root excluded_paths ≡ false
      → k.is_dir root ≡ true
      → Reach k excluded_paths root d
      → IsGuarded ready.marks d
  unfolding start install mark_path_trees is_audit
  start-IsGuarded fanotify_init send_to_addr notify_socket fuel paths ready root d h m x dir r =
      elim (Option-cases (create_fanotify_fd fanotify_init guard)) [
        | inl n ↦ absurd (ground arith)
        | inr (fd, e) ↦ elim (Option-cases (mark_path_trees k excluded_paths fuel paths)) [
          | inl n ↦ absurd (ground arith)
          | inr (failed marks, f) ↦ absurd (ground arith)
          | inr (marked marks, f) ↦
              let same : ready.marks ≡ marks = ground arith in
              let listed =
                Member-keep (λ p. not (is_excluded p excluded_paths)) root paths m (ground arith) in
              subst (λ ms. IsGuarded ms d) (sym same)
                ((mark_trees-guards fuel (keep (λ p. not (is_excluded p excluded_paths)) paths) []
                    marks f).1
                  root d listed dir r)
        ]
      ]
