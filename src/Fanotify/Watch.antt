-- ===== src/Fanotify/Watch.antt =====
-- src/fanotify/watch.rs: the marks that are set before events arrive.
pub mod Children
pub mod Trees
pub mod Reached
mod Tests
use Prim.Native.Nat.{bit_or}
use config_guard.Base.{
  ℕ, zero, suc, ◌+◌, ◌≡◌, Bool, true, false, not, ◌&&◌, List, [], ◌∷◌, ◌++◌, Option, none, some,
  if◌then◌else◌, and_then, keep, any, ◌==◌, length,
}
use config_guard.Std.Bytes.{Bytes}
use config_guard.Std.FilePath.{FilePath}
use config_guard.Fanotify.Events.{is_excluded, audit_watch_mask, guard_watch_mask}
use mathlib.Core.Option

-- A request to the kernel: flags, mask and path.
pub record Mark : Type 0 where
  pub flags : ℕ
  pub mask : ℕ
  pub path : FilePath

abbrev pub fan_mark_add : ℕ
fan_mark_add = 0x01

abbrev pub fan_mark_mount : ℕ
fan_mark_mount = 0x10

-- An entry of a directory: its path, and whether it is a directory itself, if that can be read. A link to a
-- directory is none.
pub record DirEntry : Type 0 where
  pub path : FilePath
  pub is_dir : Option Bool

-- What the file system and the kernel answer. A directory or an entry that cannot be read is `none`.
pub record Kernel : Type 0 where
  pub is_dir : FilePath → Bool
  pub read_dir : FilePath → Option (List (Option DirEntry))
  pub accepts : Mark → Bool

-- The marks that were set, and whether all went well.
pub data Marking : Type 0 where
  marked : List Mark → Marking
  failed : List Mark → Marking

-- The request is made if the path holds no zero byte.
unfoldable pub mark_path : Kernel → FilePath → ℕ → ℕ → Option Mark
mark_path k path flags mask =
    let mark : Mark = record { flags = flags; mask = mask; path = path } in
    if any (λ b. b == 0) path.os_str then none else if k.accepts mark then some mark else none

unfoldable pub mark_guard_path : Kernel → FilePath → Option Mark
mark_guard_path k path = mark_path k path fan_mark_add guard_watch_mask

-- The mounts of the paths, up to the first that is refused.
unfoldable pub mark_audit_mounts : Kernel → List Mark → List FilePath → Marking
mark_audit_mounts k done [] = marked done
mark_audit_mounts k done (p ∷ ps) =
    elim (mark_path k p (bit_or fan_mark_add fan_mark_mount) audit_watch_mask) [
      | none ↦ failed done
      | some mark ↦ mark_audit_mounts k (done ++ mark ∷ []) ps
    ]

unfoldable pub directories : List FilePath → List (Option DirEntry) → Option (List FilePath)
directories excluded_paths [] = some []
directories excluded_paths (none ∷ entries) = none
directories excluded_paths (some entry ∷ entries) = and_then entry.is_dir (λ dir.
    Option.map
      (λ rest.
        if dir && not (is_excluded entry.path excluded_paths) then entry.path ∷ rest else rest)
      (directories excluded_paths entries))

unfoldable pub child_directories : Kernel → List FilePath → FilePath → Option (List FilePath)
unfolding directories
child_directories k excluded_paths path = and_then (k.read_dir path) (directories excluded_paths)

-- The stack has its top first; each child is pushed in turn.
unfoldable pub push_all : List FilePath → List FilePath → List FilePath
push_all [] pending = pending
push_all (child ∷ children) pending = push_all children (child ∷ pending)

-- The loop over the stack, with the marks so far; `none` if the fuel runs out.
unfoldable pub mark_loop : Kernel → List FilePath → ℕ → List FilePath → List Mark → Option Marking
mark_loop k excluded_paths zero pending done = none
mark_loop k excluded_paths (suc fuel) [] done = some (marked done)
mark_loop k excluded_paths (suc fuel) (current ∷ pending) done = elim (mark_guard_path k current) [
  | none ↦ some (failed done)
  | some mark ↦ elim (child_directories k excluded_paths current) [
    | none ↦ some (failed (done ++ mark ∷ []))
    | some children ↦
        mark_loop k excluded_paths fuel (push_all children pending) (done ++ mark ∷ [])
  ]
]

abbrev marking_of : List Mark → Option Mark → Marking
marking_of done none = failed done
marking_of done (some mark) = marked (done ++ mark ∷ [])

unfoldable pub mark_path_tree : Kernel → List FilePath → ℕ → FilePath → List Mark → Option Marking
mark_path_tree k excluded_paths fuel path done =
    if k.is_dir path
    then mark_loop k excluded_paths fuel (path ∷ []) done
    else some (marking_of done (mark_guard_path k path))

-- The trees of the paths that are not excluded, up to the first failure.
unfoldable pub mark_trees : Kernel → List FilePath → ℕ → List FilePath → List Mark → Option Marking
mark_trees k excluded_paths fuel [] done = some (marked done)
mark_trees k excluded_paths fuel (p ∷ ps) done =
    elim (mark_path_tree k excluded_paths fuel p done) [
      | none ↦ none
      | some (failed marks) ↦ some (failed marks)
      | some (marked marks) ↦ mark_trees k excluded_paths fuel ps marks
    ]

unfoldable pub mark_path_trees : Kernel → List FilePath → ℕ → List FilePath → Option Marking
mark_path_trees k excluded_paths fuel paths =
    mark_trees k excluded_paths fuel (keep (λ p. not (is_excluded p excluded_paths)) paths) []

-- `install`, by whether the mode is that of the guard.
unfoldable pub install : Kernel → List FilePath → ℕ → Bool → List FilePath → Option Marking
install k excluded_paths fuel guards paths =
    if guards
    then mark_path_trees k excluded_paths fuel paths
    else some (mark_audit_mounts k [] paths)
