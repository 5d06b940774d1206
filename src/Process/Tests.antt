-- ===== src/Process/Tests.antt =====
-- src/process.rs: the readers of procfs at single inputs.
use config_guard.Base.{
  ℕ, zero, suc, ◌<◌, ◌≤◌, ◌≡◌, ◌≢◌, refl, true, false, List, [], ◌∷◌, ◌++◌, map, none, some, arith,
  All, length, list_beq, list_eq, nat_eq, any, ◌==◌,
}
use config_guard.Base.Int.{pos}
use config_guard.Std.Bytes.{Bytes, bytes, IsFree-of_any}
use config_guard.Std.Text.Words.{IsWord}
use config_guard.Std.Utf8.{is_utf8}
use config_guard.Std.Number.{to_string}
use config_guard.Std.Number.RoundTrip.{to_string-IsWord}
use config_guard.Std.FilePath.{path}
use config_guard.Std.Map as Map
use config_guard.Process.Identity.{ProcessAncestor}
use config_guard.Process.Stat.{parse_parent_pid, parse_start_time_ticks}
use config_guard.Process.Stat.Fields.{parse-stat_line}
use config_guard.Process.Environ.{parse_cmdline, parse_environ, select_wayland_env}
use config_guard.Process.Environ.RoundTrip.{
  IsArgument, IsVariable, cmdline_block, environ_block, last_value, parse_cmdline-cmdline_block,
  parse_environ-environ_block,
}
use config_guard.Process.Environ.Selection.{get-select_wayland_env}
use config_guard.Process.Procfs.{strip_deleted_suffix}
use config_guard.Process.Procfs.Ancestors.{IsAncestor, inspect_process-IsAncestor}
use config_guard.Process.Samples.{
  zeros, fields, misleading, program, arguments, procfs, inspected, inspect_run,
}

one_byte : (b : ℕ) → 0x20 < b → b < 0x80 → b ≢ b')' → IsWord (b ∷ [])
one_byte b l h ne = ((λ q. cc), ((l, h, ne), tt))

zeros-IsWord : (n : ℕ) (ws : List Bytes) → All IsWord ws → All IsWord (zeros n ws)
zeros-IsWord zero ws h = h
zeros-IsWord (suc n) ws h =
    (one_byte b'0' (omega arith) (omega arith) (λ e. omega arith), zeros-IsWord n ws h)

fields-IsWord : (parent ticks : ℕ) → All IsWord (fields parent ticks)
fields-IsWord parent ticks = (
  one_byte b'S' (omega arith) (omega arith) (λ e. omega arith),
  (to_string-IsWord parent, zeros-IsWord 17 (to_string ticks ∷ []) (to_string-IsWord ticks, tt)),
)

parse-stat_line_example :
    (parse_parent_pid misleading ≡ some (pos 7)) × (parse_start_time_ticks misleading ≡ some 9000)
parse-stat_line_example =
    parse-stat_line (bytes "12") (bytes "a) R 1 (b") (fields 7 9000) 7 9000 (fields-IsWord 7 9000)
      refl refl (omega arith) (omega arith)

argument : (a : Bytes) → a ≢ [] → any (λ b. b == 0) a ≡ false → is_utf8 a ≡ true → IsArgument a
argument a ne free text = (ne, IsFree-of_any 0 a free, text)

arguments-IsArgument : All IsArgument arguments
unfolding program
arguments-IsArgument =
    (argument (bytes "vim") (λ q. cc) refl refl, (argument (bytes "-R") (λ q. cc) refl refl, tt))

parse_cmdline-cmdline_block_run : parse_cmdline (cmdline_block arguments) ≡ arguments
parse_cmdline-cmdline_block_run = parse_cmdline-cmdline_block arguments arguments-IsArgument

abbrev variables : List (Bytes × Bytes)
variables =
    (bytes "XDG_SESSION_ID", bytes "3")
    ∷ (bytes "A", bytes "b=c")
    ∷ (bytes "XDG_SESSION_ID", bytes "4")
    ∷ []

variable :
    (k v : Bytes)
    → any (λ b. b == b'=') k ≡ false
    → any (λ b. b == 0) (k ++ (b'=' ∷ v)) ≡ false
    → is_utf8 k ≡ true
    → is_utf8 v ≡ true
    → IsVariable (k, v)
variable k v equals no_zero text value =
    (IsFree-of_any b'=' k equals, IsFree-of_any 0 (k ++ (b'=' ∷ v)) no_zero, text, value)

variables-IsVariable : All IsVariable variables
unfolding program
variables-IsVariable = (
  variable (bytes "XDG_SESSION_ID") (bytes "3") refl refl refl refl,
  (
    variable (bytes "A") (bytes "b=c") refl refl refl refl,
    (variable (bytes "XDG_SESSION_ID") (bytes "4") refl refl refl refl, tt),
  ),
)

parse_environ-environ_block_example :
    Map.get (bytes "XDG_SESSION_ID") (parse_environ (environ_block variables))
    ≡ last_value (bytes "XDG_SESSION_ID") variables
parse_environ-environ_block_example =
    parse_environ-environ_block (bytes "XDG_SESSION_ID") variables variables-IsVariable

last_value_run : last_value (bytes "XDG_SESSION_ID") variables ≡ some (bytes "4")
unfolding last_value list_beq
last_value_run = refl

session_run :
    select_wayland_env (environ_block variables) ≡ (bytes "XDG_SESSION_ID", bytes "4") ∷ []
unfolding program environ_block
session_run = refl

deleted_run : strip_deleted_suffix (path "/usr/lib/firefox (deleted)") ≡ path "/usr/lib/firefox"
unfolding program
deleted_run = refl

deleted_within :
    strip_deleted_suffix (path "/opt/my (deleted) tool") ≡ path "/opt/my (deleted) tool"
unfolding program
deleted_within = refl

inspect_process-IsAncestor_example :
    All (IsAncestor procfs 12) inspected.ancestor_processes
    × (length inspected.ancestor_processes ≤ 32)
    × (inspected.ancestors
        ≡ map (λ (a : ProcessAncestor). a.executable) inspected.ancestor_processes)
    × (inspected.pid ≡ 12)
inspect_process-IsAncestor_example = inspect_process-IsAncestor procfs 12 inspected inspect_run

get-select_wayland_env_run :
    Map.get (bytes "A") (select_wayland_env (environ_block variables)) ≡ none
unfolding program
get-select_wayland_env_run = get-select_wayland_env (bytes "A") (environ_block variables)
