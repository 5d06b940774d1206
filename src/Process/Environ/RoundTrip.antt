-- ===== src/Process/Environ/RoundTrip.antt =====
-- src/process.rs: the command line and the environment, read back from what the kernel gives.
use config_guard.Base.{
  ◌≡◌, ◌≢◌, refl, ap, ◌∙◌, true, false, List, [], ◌∷◌, ◌++◌, Option, none, some, arith, All,
  if◌then◌else◌, or_else, keep, list_beq, list_eq, nat_eq,
}
use config_guard.Std.Bytes.{Bytes, IsFree, split, split_once, split-append, split_once-append}
use config_guard.Std.Utf8.{is_utf8, to_str, to_str-some}
use config_guard.Std.Map as Map
use config_guard.Std.Map.{Map}
use config_guard.Process.Environ.{
  filter_map, collect, parse_env_entry, parse_environ, parse_cmdline,
}

-- Each argument with a zero byte behind it.
unfoldable pub cmdline_block : List Bytes → Bytes
cmdline_block [] = []
cmdline_block (a ∷ args) = a ++ (0 ∷ cmdline_block args)

abbrev pub IsArgument : Bytes → Type 0
IsArgument a = (a ≢ []) × IsFree 0 a × (is_utf8 a ≡ true)

-- Each variable as `key=value` with a zero byte behind it.
unfoldable pub environ_block : List (Bytes × Bytes) → Bytes
environ_block [] = []
environ_block ((k, v) ∷ pairs) = (k ++ (b'=' ∷ v)) ++ (0 ∷ environ_block pairs)

abbrev pub IsVariable : Bytes × Bytes → Type 0
IsVariable (k, v) =
    IsFree b'=' k × IsFree 0 (k ++ (b'=' ∷ v)) × (is_utf8 k ≡ true) × (is_utf8 v ≡ true)

-- The value of the last pair with the key.
unfoldable pub last_value : Bytes → List (Bytes × Bytes) → Option Bytes
last_value key [] = none
last_value key ((k, v) ∷ pairs) =
    or_else (last_value key pairs) (if list_beq k key then some v else none)

not_nil : (a : Bytes) → a ≢ [] → list_beq a [] ≡ false
unfolding list_beq
not_nil [] ne = absurd (ne refl)
not_nil (b ∷ bs) ne = refl

filter_map-some {ℓ κ} :
    {A : Type ℓ} {B : Type κ} (f : A → Option B) (x : A) (y : B) (xs : List A)
    → f x ≡ some y
    → filter_map f (x ∷ xs) ≡ y ∷ filter_map f xs
unfolding filter_map
filter_map-some f x y xs h = rw (h, filter_map) refl

-- The arguments are read back when each of them is a text in UTF-8 without a zero byte and none is empty.
pub parse_cmdline-cmdline_block :
    (args : List Bytes) → All IsArgument args → parse_cmdline (cmdline_block args) ≡ args
unfolding parse_cmdline cmdline_block keep
parse_cmdline-cmdline_block [] h = unfold split list_beq filter_map in refl
parse_cmdline-cmdline_block (a ∷ args) h =
    let rest = parse_cmdline-cmdline_block args h.1 in
    rw (split-append 0 a (cmdline_block args) h.0.1, not_nil a h.0.0)
      (filter_map-some to_str a a _ (to_str-some a h.0.2) ∙ ap (λ l. a ∷ l) rest)

parse_env_entry_lem :
    (k v : Bytes) → IsVariable (k, v) → parse_env_entry (k ++ (b'=' ∷ v)) ≡ some (k, v)
unfolding parse_env_entry
parse_env_entry_lem k v h =
    rw (split_once-append b'=' k v h.0) (rw (to_str-some k h.2, to_str-some v h.3) refl)

entries-environ_block :
    (pairs : List (Bytes × Bytes))
    → All IsVariable pairs
    → filter_map parse_env_entry (split 0 (environ_block pairs)) ≡ pairs
unfolding environ_block
entries-environ_block [] h = unfold split filter_map parse_env_entry split_once in refl
entries-environ_block ((k, v) ∷ pairs) h =
    rw (split-append 0 (k ++ (b'=' ∷ v)) (environ_block pairs) h.0.1) (
      filter_map-some parse_env_entry (k ++ (b'=' ∷ v)) (k, v) _ (parse_env_entry_lem k v h.0)
      ∙ ap (λ l. (k, v) ∷ l) (entries-environ_block pairs h.1))

pub get-collect :
    (key : Bytes) (m : Map Bytes Bytes) (pairs : List (Bytes × Bytes))
    → Map.get key (collect m pairs) ≡ or_else (last_value key pairs) (Map.get key m)
unfolding collect last_value
get-collect key m [] = refl
get-collect key m ((k, v) ∷ pairs) =
    ground (arith, get-collect key (Map.insert k v m) pairs, Map.get-insert k key v m)

pub or_else-none : (o : Option Bytes) → or_else o none ≡ o
or_else-none none = refl
or_else-none (some v) = refl

-- Of an environment whose variables are in UTF-8, with keys without an equals sign and no zero bytes, the
-- map that is read gives each key the value of its last pair, and no other key a value.
pub parse_environ-environ_block :
    (key : Bytes) (pairs : List (Bytes × Bytes))
    → All IsVariable pairs
    → Map.get key (parse_environ (environ_block pairs)) ≡ last_value key pairs
unfolding parse_environ Map.get
parse_environ-environ_block key pairs h =
    rw (entries-environ_block pairs h, get-collect key [] pairs)
      (or_else-none (last_value key pairs))
