-- ===== src/Process/Procfs.antt =====
-- src/process.rs: what is read of a process and of its ancestors below /proc.
pub mod Ancestors
use config_guard.Base.{
  ℕ, zero, suc, Bool, true, false, ◌||◌, List, [], ◌∷◌, ◌++◌, map, Option, none, some, ◌==◌, leb,
  and_then, is_some_and, unwrap_or, if◌then◌else◌,
}
use config_guard.Base.Int.{ℤ, pos, negsuc}
use config_guard.Std.Bytes.{Bytes, bytes, strip_prefix}
use config_guard.Std.Utf8.{to_str}
use config_guard.Std.FilePath.{FilePath, path, to_path, join}
use config_guard.Std.Number.{to_string}
use config_guard.Std.Map.{Map}
use config_guard.Process.Identity.{ProcessAncestor, ProcessIdentity}
use config_guard.Process.Stat.{parse_start_time_ticks, parse_parent_pid}
use config_guard.Process.Environ.{parse_cmdline, parse_comm, select_wayland_env}
use mathlib.Core.Option

-- What the file system answers: the bytes of a file and the target of a link, if they can be read.
pub record Procfs : Type 0 where
  pub read : FilePath → Option Bytes
  pub read_link : FilePath → Option FilePath

-- `fs::read_to_string`: a file that is not UTF-8 is an error.
abbrev pub read_to_string : Procfs → FilePath → Option Bytes
read_to_string fs p = and_then (fs.read p) to_str

-- A text without the end `suffix`, if it has it.
unfoldable pub strip_suffix : Bytes → Bytes → Option Bytes
strip_suffix suffix [] = elim suffix [ [] ↦ some [] | _ ∷ _ ↦ none ]
strip_suffix suffix (b ∷ bs) =
    let rest = strip_suffix suffix bs in
    if is_some_and (strip_prefix suffix (b ∷ bs)) (λ r. elim r [ [] ↦ true | _ ∷ _ ↦ false ])
    then some []
    else Option.map (λ s. b ∷ s) rest

unfoldable pub strip_deleted_suffix : FilePath → FilePath
strip_deleted_suffix p = elim (strip_suffix (bytes " (deleted)") p.os_str) [
  | some trimmed ↦ to_path trimmed
  | none ↦ p
]

abbrev pub proc_dir : ℕ → FilePath
proc_dir pid = join (path "/proc") (to_path (to_string pid))

abbrev pub proc_file : ℕ → Bytes → FilePath
proc_file pid name = join (proc_dir pid) (to_path name)

unfoldable pub read_exe_link : Procfs → FilePath → Option FilePath
read_exe_link fs link = Option.map strip_deleted_suffix (fs.read_link link)

-- `none` is an error, as in the readers below.
unfoldable pub read_cmdline : Procfs → FilePath → Option (List Bytes)
read_cmdline fs p = Option.map parse_cmdline (fs.read p)

unfoldable pub read_command : Procfs → ℕ → Option (List Bytes)
read_command fs pid = and_then (read_cmdline fs (proc_file pid (bytes "cmdline"))) (λ command.
    elim command [
      | arg ∷ args ↦ some (arg ∷ args)
      | [] ↦ elim (parse_comm (unwrap_or (read_to_string fs (proc_file pid (bytes "comm"))) [])) [
        | none ↦ some []
        | some name ↦ some (name ∷ [])
      ]
    ])

-- Always with a time if it is not an error.
unfoldable pub read_start_time_ticks : Procfs → FilePath → Option (Option ℕ)
read_start_time_ticks fs p =
    and_then (read_to_string fs p) (λ stat. Option.map some (parse_start_time_ticks stat))

unfoldable pub is_process_generation_current : Procfs → ℕ → ℕ → Bool
is_process_generation_current fs pid expected =
    is_some_and
      (and_then (read_start_time_ticks fs (proc_file pid (bytes "stat"))) (λ ticks. ticks))
      (λ ticks. ticks == expected)

-- The parent that the walk goes on to: not the first process, and not the process itself.
unfoldable pub parent_of : ℕ → Bytes → Option ℕ
parent_of pid stat = elim (parse_parent_pid stat) [
  | none ↦ none
  | some (negsuc n) ↦ none
  | some (pos parent) ↦ if leb parent 1 || parent == pid then none else some parent
]

-- The entry for a parent whose executable can be read.
unfoldable pub ancestor_entry : Procfs → ℕ → Option Bytes → List ProcessAncestor
ancestor_entry fs parent stat = elim (read_exe_link fs (proc_file parent (bytes "exe"))) [
  | none ↦ []
  | some executable ↦
      record {
        pid = parent;
        executable = executable;
        start_time_ticks = and_then stat parse_start_time_ticks;
      }
      ∷ []
]

-- The loop, by the rounds left; nearest ancestor first.
unfoldable pub ancestor_loop : Procfs → ℕ → ℕ → Bytes → List ProcessAncestor
ancestor_loop fs zero pid stat = []
ancestor_loop fs (suc rounds) pid stat = elim (parent_of pid stat) [
  | none ↦ []
  | some parent ↦
      let parent_stat = read_to_string fs (proc_file parent (bytes "stat")) in
      ancestor_entry fs parent parent_stat
      ++ elim parent_stat [ none ↦ [] | some next ↦ ancestor_loop fs rounds parent next ]
]

unfoldable pub read_ancestor_processes : Procfs → ℕ → List ProcessAncestor
read_ancestor_processes fs pid = elim (read_to_string fs (proc_file pid (bytes "stat"))) [
  | none ↦ []
  | some stat ↦ ancestor_loop fs 32 pid stat
]

unfoldable pub inspect_process : Procfs → ℕ → Option ProcessIdentity
inspect_process fs pid = and_then (read_command fs pid) (λ command.
    Option.map
      (λ ticks.
        let ancestor_processes = read_ancestor_processes fs pid in
        let identity : ProcessIdentity = record {
          pid = pid;
          executable = read_exe_link fs (proc_file pid (bytes "exe"));
          command = command;
          cwd = fs.read_link (proc_file pid (bytes "cwd"));
          start_time_ticks = ticks;
          ancestors = map (λ (a : ProcessAncestor). a.executable) ancestor_processes;
          ancestor_processes = ancestor_processes;
        } in
        identity)
      (read_start_time_ticks fs (proc_file pid (bytes "stat"))))

unfoldable pub read_wayland_env : Procfs → ℕ → Map Bytes Bytes
read_wayland_env fs pid = elim (fs.read (proc_file pid (bytes "environ"))) [
  | none ↦ []
  | some bs ↦ select_wayland_env bs
]
