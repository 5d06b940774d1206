-- ===== src/Process/Stat.antt =====
-- src/process.rs: the line of /proc/<pid>/stat.
pub mod Fields
use config_guard.Base.{
  ℕ, zero, suc, ◌≡◌, refl, List, [], ◌∷◌, Option, none, some, get_elem?, and_then,
}
use config_guard.Base.Int.{ℤ}
use config_guard.Std.Bytes.{Bytes, bytes}
use config_guard.Std.Text.{split_whitespace, after_last}
use config_guard.Std.Number.{parse_u64, parse_i32}
use mathlib.Core.Option

-- The command name may hold any text, so what counts is the last closing parenthesis.
unfoldable pub parse_stat_fields_after_command : Bytes → Option (List Bytes)
parse_stat_fields_after_command stat = Option.map split_whitespace (after_last (bytes ") ") stat)

abbrev pub start_time_index : ℕ
start_time_index = 19

abbrev pub parent_pid_index : ℕ
parent_pid_index = 1

unfoldable pub parse_start_time_ticks : Bytes → Option ℕ
parse_start_time_ticks stat =
    and_then (parse_stat_fields_after_command stat)
      (λ fields. and_then (get_elem? fields start_time_index) parse_u64)

unfoldable pub parse_parent_pid : Bytes → Option ℤ
parse_parent_pid stat =
    and_then (parse_stat_fields_after_command stat)
      (λ fields. and_then (get_elem? fields parent_pid_index) parse_i32)
