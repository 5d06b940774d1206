-- ===== src/Process/Environ.antt =====
-- src/process.rs: the environment and the command line of a process, as procfs gives them.
pub mod RoundTrip
pub mod Selection
use config_guard.Base.{
  ℕ, Bool, not, List, [], ◌∷◌, Option, none, some, ◌==◌, and_then, if◌then◌else◌, any, keep,
  list_beq, list_eq, nat_eq,
}
use config_guard.Std.Bytes.{Bytes, bytes, split, split_once}
use config_guard.Std.Utf8.{to_str}
use config_guard.Std.Text.{trim}
use config_guard.Std.Map as Map
use config_guard.Std.Map.{Map}
use mathlib.Core.Option

-- `filter_map`.
unfoldable pub filter_map {ℓ κ} : {A : Type ℓ} {B : Type κ} → (A → Option B) → List A → List B
filter_map f [] = []
filter_map f (x ∷ xs) = let rest = filter_map f xs in elim (f x) [ none ↦ rest | some y ↦ y ∷ rest ]

-- `collect` into a map: a later pair overrides an earlier one.
unfoldable pub collect : Map Bytes Bytes → List (Bytes × Bytes) → Map Bytes Bytes
collect m [] = m
collect m ((k, v) ∷ pairs) = collect (Map.insert k v m) pairs

unfoldable pub parse_env_entry : Bytes → Option (Bytes × Bytes)
parse_env_entry entry =
    and_then (split_once b'=' entry)
      (λ pair. and_then (to_str pair.0) (λ key. Option.map (λ value. (key, value)) (to_str pair.1)))

unfoldable pub parse_environ : Bytes → Map Bytes Bytes
parse_environ bs = collect [] (filter_map parse_env_entry (split 0 bs))

unfoldable pub wayland_env_keys : List Bytes
wayland_env_keys =
    bytes "WAYLAND_DISPLAY"
    ∷ bytes "XDG_RUNTIME_DIR"
    ∷ bytes "XDG_SESSION_TYPE"
    ∷ bytes "XDG_SESSION_ID"
    ∷ bytes "DBUS_SESSION_BUS_ADDRESS"
    ∷ []

unfoldable pub select_wayland_env : Bytes → Map Bytes Bytes
select_wayland_env bs =
    collect [] (keep (λ pair. any (λ key. list_beq key pair.0) wayland_env_keys) (parse_environ bs))

unfoldable pub parse_cmdline : Bytes → List Bytes
parse_cmdline bs = filter_map to_str (keep (λ arg. not (list_beq arg [])) (split 0 bs))

unfoldable pub parse_comm : Bytes → Option Bytes
parse_comm comm = let name = trim comm in if list_beq name [] then none else some name
