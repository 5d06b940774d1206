-- ===== src/Process/Procfs/Ancestors.antt =====
-- src/process.rs: the ancestors that are found for a process.
use config_guard.Base.{
  ℕ, zero, suc, ◌≤◌, ◌<◌, ◌≡◌, refl, inl, inr, List, [], ◌∷◌, ◌++◌, map, Option, none, some, arith,
  and_then, length, length-append, All, All-map, Option-cases,
}
use config_guard.Base.Int.{pos, negsuc}
use config_guard.Std.Bytes.{Bytes, bytes}
use config_guard.Process.Identity.{ProcessAncestor, ProcessIdentity}
use config_guard.Process.Stat.{parse_start_time_ticks, parse_parent_pid}
use config_guard.Process.Procfs.{
  Procfs, read_to_string, proc_file, read_exe_link, parent_of, ancestor_entry, ancestor_loop,
  read_ancestor_processes, inspect_process,
}

module _ (fs : Procfs) where
  -- Procfs names `parent` as the parent of `pid`.
  abbrev pub IsParent : ℕ → ℕ → Type 0
  IsParent pid parent =
      (stat : Bytes) × (read_to_string fs (proc_file pid (bytes "stat")) ≡ some stat)
      × (parse_parent_pid stat ≡ some (pos parent))

  -- A row of parents leads from a process to an ancestor other than the first process.
  pub data Descends : ℕ → ℕ → Type 0 where
    parent : {pid above : ℕ} → IsParent pid above → 1 < above → Descends pid above
    further : {pid above top : ℕ} → IsParent pid above → Descends above top → Descends pid top

  -- The entry has what procfs says of that process itself.
  abbrev pub IsRecorded : ProcessAncestor → Type 0
  IsRecorded a =
      (read_exe_link fs (proc_file a.pid (bytes "exe")) ≡ some a.executable)
      × (a.start_time_ticks
          ≡ and_then (read_to_string fs (proc_file a.pid (bytes "stat"))) parse_start_time_ticks)

  abbrev pub IsAncestor : ℕ → ProcessAncestor → Type 0
  IsAncestor pid a = Descends pid a.pid × IsRecorded a

  parent_of-parse :
      (pid : ℕ) (stat : Bytes) (above : ℕ)
      → parent_of pid stat ≡ some above
      → (parse_parent_pid stat ≡ some (pos above)) × (1 < above)
  unfolding parent_of
  parent_of-parse pid stat above h = elim (Option-cases (parse_parent_pid stat)) [
    | inl n ↦ absurd (ground arith)
    | inr (negsuc k, e) ↦ absurd (ground arith)
    | inr (pos k, e) ↦ ground arith
  ]

  All-append :
      (P : ProcessAncestor → Type 0) (xs ys : List ProcessAncestor)
      → All P xs
      → All P ys
      → All P (xs ++ ys)
  All-append P [] ys h k = k
  All-append P (x ∷ xs) ys h k = (h.0, All-append P xs ys h.1 k)

  ancestor_entry-IsRecorded :
      (above : ℕ) (P : ProcessAncestor → Type 0)
      → ((a : ProcessAncestor) → a.pid ≡ above → IsRecorded a → P a)
      → All P (ancestor_entry fs above (read_to_string fs (proc_file above (bytes "stat"))))
  unfolding ancestor_entry
  ancestor_entry-IsRecorded above P h =
      elim (Option-cases (read_exe_link fs (proc_file above (bytes "exe")))) [
        | inl n ↦ rw (n, ancestor_entry, All) tt
        | inr (e, s) ↦ rw (s, ancestor_entry, All) (h _ refl (s, refl), tt)
      ]

  All-next :
      (P : ProcessAncestor → Type 0) (o : Option Bytes) (f : Bytes → List ProcessAncestor)
      → ((next : Bytes) → o ≡ some next → All P (f next))
      → All P (elim o [ none ↦ [] | some next ↦ f next ])
  All-next P none f h = tt
  All-next P (some next) f h = h next refl

  ancestor_loop-IsAncestor :
      (rounds pid : ℕ) (stat : Bytes)
      → read_to_string fs (proc_file pid (bytes "stat")) ≡ some stat
      → All (IsAncestor pid) (ancestor_loop fs rounds pid stat)
  unfolding ancestor_loop
  ancestor_loop-IsAncestor zero pid stat s = tt
  ancestor_loop-IsAncestor (suc rounds) pid stat s = elim (Option-cases (parent_of pid stat)) [
    | inl n ↦ rw (n, ancestor_loop, All) tt
    | inr (above, e) ↦
        let (p, big) = parent_of-parse pid stat above e in
        let up : IsParent pid above = (stat, s, p) in
        rw (e, ancestor_loop, All)
          (All-append (IsAncestor pid) _ _
            (ancestor_entry-IsRecorded above (IsAncestor pid)
              (λ a q r. (rw (q) (parent up big), r)))
            (All-next (IsAncestor pid) (read_to_string fs (proc_file above (bytes "stat"))) _
              (λ next n.
                All-map _ (λ a q. (further up q.0, q.1))
                  (ancestor_loop-IsAncestor rounds above next n))))
  ]

  length-ancestor_entry :
      (above : ℕ) (stat : Option Bytes) → length (ancestor_entry fs above stat) ≤ 1
  unfolding ancestor_entry
  length-ancestor_entry above stat = ground arith

  length-next :
      (bound : ℕ) (o : Option Bytes) (f : Bytes → List ProcessAncestor)
      → ((next : Bytes) → length (f next) ≤ bound)
      → length (elim o as (λ x. List ProcessAncestor) [ none ↦ [] | some next ↦ f next ]) ≤ bound
  length-next bound none f h = omega arith
  length-next bound (some next) f h = h next

  length-ancestor_loop :
      (rounds pid : ℕ) (stat : Bytes) → length (ancestor_loop fs rounds pid stat) ≤ rounds
  unfolding ancestor_loop
  length-ancestor_loop zero pid stat = omega arith
  length-ancestor_loop (suc rounds) pid stat = elim (Option-cases (parent_of pid stat)) [
    | inl n ↦ rw (n, ancestor_loop, length) (omega arith)
    | inr (above, e) ↦
        let here =
          length-ancestor_entry above (read_to_string fs (proc_file above (bytes "stat"))) in
        let further =
          length-next rounds (read_to_string fs (proc_file above (bytes "stat"))) _
            (λ next. length-ancestor_loop rounds above next) in
        rw (e, ancestor_loop) (rw (length-append) (omega arith))
  ]

  pub read_ancestor_processes-IsAncestor :
      (pid : ℕ)
      → All (IsAncestor pid) (read_ancestor_processes fs pid)
        × (length (read_ancestor_processes fs pid) ≤ 32)
  unfolding read_ancestor_processes
  read_ancestor_processes-IsAncestor pid =
      elim (Option-cases (read_to_string fs (proc_file pid (bytes "stat")))) [
        | inl n ↦ rw (n, read_ancestor_processes, All) (tt, omega arith)
        | inr (stat, e) ↦
            rw (e, read_ancestor_processes)
              (ancestor_loop-IsAncestor 32 pid stat e, length-ancestor_loop 32 pid stat)
      ]

inspect_process-fields :
    (fs : Procfs) (pid : ℕ) (p : ProcessIdentity)
    → inspect_process fs pid ≡ some p
    → (p.ancestor_processes ≡ read_ancestor_processes fs pid)
      × (p.ancestors ≡ map (λ (a : ProcessAncestor). a.executable) (read_ancestor_processes fs pid))
      × (p.pid ≡ pid)
unfolding inspect_process
inspect_process-fields fs pid p h = ground arith

-- What is found for a process lists at most 32 ancestors, each reached from it by a row of parents and with
-- the executable and the start time that procfs has of that ancestor itself, and its list of
-- executables is theirs.
pub inspect_process-IsAncestor :
    (fs : Procfs) (pid : ℕ) (p : ProcessIdentity)
    → inspect_process fs pid ≡ some p
    → All (IsAncestor fs pid) p.ancestor_processes
      × (length p.ancestor_processes ≤ 32)
      × (p.ancestors ≡ map (λ (a : ProcessAncestor). a.executable) p.ancestor_processes)
      × (p.pid ≡ pid)
inspect_process-IsAncestor fs pid p h =
    let (listed, executables, same) = inspect_process-fields fs pid p h in
    let (found, few) = read_ancestor_processes-IsAncestor fs pid in
    rw (listed) (found, few, executables, same)
