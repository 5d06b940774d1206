-- ===== src/Process/Environ/Selection.antt =====
-- src/process.rs: the variables of the graphical session that are taken from an environment.
use config_guard.Base.{
  ◌≡◌, refl, ap, ◌∙◌, List, [], ◌∷◌, none, arith, Bool, if◌then◌else◌, any, keep, list_beq,
  list_beq→eq, list_eq, nat_eq,
}
use config_guard.Std.Bytes.{Bytes}
use config_guard.Std.Map as Map
use config_guard.Std.Map.{Map}
use config_guard.Std.Distinct.{IsDistinct, insert-IsDistinct}
use config_guard.Process.Environ.{collect, parse_environ, wayland_env_keys, select_wayland_env}
use config_guard.Process.Environ.RoundTrip.{last_value, get-collect, or_else-none}

collect-IsDistinct :
    (m : Map Bytes Bytes) (pairs : List (Bytes × Bytes))
    → IsDistinct m
    → IsDistinct (collect m pairs)
unfolding collect
collect-IsDistinct m [] d = d
collect-IsDistinct m ((k, v) ∷ pairs) d =
    collect-IsDistinct (Map.insert k v m) pairs (insert-IsDistinct k v m d)

last_value-IsDistinct :
    (key : Bytes) (m : Map Bytes Bytes) → IsDistinct m → last_value key m ≡ Map.get key m
unfolding last_value Map.get
last_value-IsDistinct key [] d = refl
last_value-IsDistinct key ((k, v) ∷ m) d =
    ground (arith, last_value-IsDistinct key m d.1, Map.get-eq k key m)

-- A filter on the keys keeps all pairs of a key or none.
last_value-keep :
    (test : Bytes → Bool) (key : Bytes) (m : List (Bytes × Bytes))
    → last_value key (keep (λ pair. test pair.0) m) ≡ (if test key then last_value key m else none)
unfolding last_value keep
last_value-keep test key [] = ground arith
last_value-keep test key ((k, v) ∷ m) =
    ground (arith, last_value-keep test key m, list_beq→eq k key)

parse_environ-IsDistinct : (bs : Bytes) → IsDistinct (parse_environ bs)
unfolding parse_environ
parse_environ-IsDistinct bs = collect-IsDistinct [] _ tt

-- Of the environment just the five variables of the session are taken, each with its value, whatever the
-- bytes are.
pub get-select_wayland_env :
    (key bs : Bytes)
    → Map.get key (select_wayland_env bs) ≡ (
        if any (λ k. list_beq k key) wayland_env_keys then Map.get key (parse_environ bs) else none)
unfolding select_wayland_env Map.get
get-select_wayland_env key bs =
    let test : Bytes → Bool = λ name. any (λ k. list_beq k name) wayland_env_keys in
    let m = parse_environ bs in
    get-collect key [] (keep (λ pair. test pair.0) m)
    ∙ or_else-none (last_value key (keep (λ pair. test pair.0) m))
    ∙ last_value-keep test key m
    ∙ ap (λ o. if test key then o else none)
        (last_value-IsDistinct key m (parse_environ-IsDistinct bs))
