-- ===== src/Process/Samples.antt =====
-- src/process.rs: a procfs with three processes, for the runs.
use config_guard.Base.{
  ℕ, zero, suc, ◌≡◌, refl, List, [], ◌∷◌, none, some, list_beq, list_eq, nat_eq, any, keep,
  if◌then◌else◌,
}
use config_guard.Std.Bytes.{Bytes, bytes, split, split_once, strip_prefix}
use config_guard.Std.Text.Words.{line}
use config_guard.Std.Text.{split_whitespace, after_last, trim}
use config_guard.Std.Utf8.{is_utf8, to_str}
use config_guard.Std.Number.{to_string, parse_u64, parse_i32}
use config_guard.Std.FilePath.{
  path, join, components, component_beq, path_beq, is_prefix, is_absolute,
}
use config_guard.Std.Map as Map
use config_guard.Process.Identity.{ProcessIdentity}
use config_guard.Process.Stat.{
  parse_stat_fields_after_command, parse_parent_pid, parse_start_time_ticks,
}
use config_guard.Process.Stat.Fields.{stat_line}
use config_guard.Process.Environ.{
  filter_map, collect, parse_env_entry, parse_comm, parse_cmdline, parse_environ, wayland_env_keys,
  select_wayland_env,
}
use config_guard.Process.Environ.RoundTrip.{cmdline_block}
use config_guard.Process.Procfs.{
  Procfs, strip_suffix, strip_deleted_suffix, read_exe_link, read_cmdline, read_command,
  read_start_time_ticks, is_process_generation_current, parent_of, ancestor_entry, ancestor_loop,
  read_ancestor_processes, inspect_process, read_wayland_env,
}

abbrev pub zeros : ℕ → List Bytes → List Bytes
zeros zero ws = ws
zeros (suc n) ws = bytes "0" ∷ zeros n ws

-- The fields behind the name, with a parent and a start time.
abbrev pub fields : ℕ → ℕ → List Bytes
fields parent ticks = bytes "S" ∷ to_string parent ∷ zeros 17 (to_string ticks ∷ [])

-- A name that looks like the end of the name and a state.
abbrev pub misleading : Bytes
misleading = stat_line (bytes "12") (bytes "a) R 1 (b") (fields 7 9000)

unfoldable pub program : Unit {0}
unfolding is_utf8 list_beq split split_once split_whitespace after_last strip_prefix trim to_string
    parse_u64 parse_i32 components component_beq path_beq is_prefix is_absolute join line stat_line
    filter_map collect keep any Map.insert parse_env_entry parse_environ wayland_env_keys
    select_wayland_env parse_cmdline parse_comm to_str parse_stat_fields_after_command
    parse_start_time_ticks parse_parent_pid strip_suffix strip_deleted_suffix read_exe_link
    read_cmdline read_command read_start_time_ticks is_process_generation_current parent_of
    ancestor_entry ancestor_loop read_ancestor_processes inspect_process read_wayland_env
program = tt

abbrev pub arguments : List Bytes
arguments = bytes "vim" ∷ bytes "-R" ∷ []

-- Process 12 was started by 7, and 7 by the first process.
abbrev pub procfs : Procfs
procfs = record {
  read = λ p.
      if list_beq p.os_str (bytes "/proc/12/stat")
      then some misleading
      else if list_beq p.os_str (bytes "/proc/7/stat")
      then some (stat_line (bytes "7") (bytes "kitty") (fields 1 500))
      else if list_beq p.os_str (bytes "/proc/12/cmdline")
      then some (cmdline_block arguments)
      else none;
  read_link = λ p.
      if list_beq p.os_str (bytes "/proc/12/exe")
      then some (path "/usr/bin/vim (deleted)")
      else if list_beq p.os_str (bytes "/proc/7/exe")
      then some (path "/usr/bin/kitty")
      else none;
}

abbrev pub inspected : ProcessIdentity
inspected = record {
  pid = 12;
  executable = some (path "/usr/bin/vim");
  command = arguments;
  cwd = none;
  start_time_ticks = some 9000;
  ancestors = path "/usr/bin/kitty" ∷ [];
  ancestor_processes =
      record { pid = 7; executable = path "/usr/bin/kitty"; start_time_ticks = some 500 } ∷ [];
}

pub inspect_run : inspect_process procfs 12 ≡ some inspected
unfolding program cmdline_block
inspect_run = refl
