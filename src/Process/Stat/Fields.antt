-- ===== src/Process/Stat/Fields.antt =====
-- src/process.rs: the line of /proc/<pid>/stat, read back from what the kernel prints.
use config_guard.Base.{ℕ, ◌<◌, ◌^◌, ◌≡◌, refl, List, ◌∷◌, ◌++◌, some, All, get_elem?}
use config_guard.Base.Int.{pos}
use config_guard.Std.Bytes.{Bytes}
use config_guard.Std.Text.Words.{IsWord, line, split_whitespace-line, after_last-line}
use config_guard.Std.Number.{to_string}
use config_guard.Std.Number.RoundTrip.{parse_u64-to_string, parse_i32-to_string}
use config_guard.Process.Stat.{
  parse_stat_fields_after_command, parse_start_time_ticks, parse_parent_pid,
}

-- The line for a process: its number and its name, which may hold any bytes, before the fields.
unfoldable pub stat_line : Bytes → Bytes → List Bytes → Bytes
stat_line pid name fields = (pid ++ (b' ' ∷ b'(' ∷ name)) ++ (b')' ∷ b' ' ∷ line fields)

fields-stat_line :
    (pid name : Bytes) (fields : List Bytes)
    → All IsWord fields
    → parse_stat_fields_after_command (stat_line pid name fields) ≡ some fields
unfolding parse_stat_fields_after_command stat_line
fields-stat_line pid name fields h =
    rw (after_last-line (pid ++ (b' ' ∷ b'(' ∷ name)) fields h)
      (rw (split_whitespace-line fields h) refl)

-- The parent and the start time that the kernel prints, which are the second and the twentieth word after the name
-- (the fields 4 and 22 of the line), are read back, whatever the name of the process holds, when the fields are words
-- and these two are a parent below 2^31 and a time below 2^64.
pub parse-stat_line :
    (pid name : Bytes) (fields : List Bytes) (parent ticks : ℕ)
    → All IsWord fields
    → get_elem? fields 1 ≡ some (to_string parent)
    → get_elem? fields 19 ≡ some (to_string ticks)
    → parent < 2 ^ 31
    → ticks < 2 ^ 64
    → (parse_parent_pid (stat_line pid name fields) ≡ some (pos parent))
      × (parse_start_time_ticks (stat_line pid name fields) ≡ some ticks)
unfolding parse_parent_pid parse_start_time_ticks
parse-stat_line pid name fields parent ticks h p t hp ht = (
  rw (fields-stat_line pid name fields h, p) (parse_i32-to_string parent hp),
  rw (fields-stat_line pid name fields h, t) (parse_u64-to_string ticks ht),
)
