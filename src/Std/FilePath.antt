-- ===== src/Std/FilePath.antt =====
-- `std::path` on Unix: a path is a byte string that is compared by its components.
pub mod Join
pub mod Parent
pub mod Inner
use config_guard.Base.{
  ℕ, ◌≡◌, refl, Bool, true, false, ◌&&◌, List, [], ◌∷◌, ◌++◌, Option, none, some, arith, ◌==◌, Eq,
  if◌then◌else◌, last, first, nat_eq, list_beq, list_refl, list_sym, list_left, list_beq→eq,
  Eq_of_sound, and_then, is_some_and, not,
}
use Prim.Native.String.{String}
use config_guard.Std.Bytes.{Bytes, bytes, split}
use config_guard.Std.Utf8.{to_str}

pub record FilePath : Type 0 where
  pub os_str : Bytes

pub data Component : Type 0 where
  root_dir cur_dir parent_dir : Component
  normal : Bytes → Component

unfoldable pub component_beq : Component → Component → Bool
component_beq root_dir root_dir = true
component_beq cur_dir cur_dir = true
component_beq parent_dir parent_dir = true
component_beq (normal a) (normal b) = list_beq a b
component_beq _ _ = false

pub component_refl : (a : Component) → component_beq a a ≡ true
unfolding component_beq
component_refl root_dir = refl
component_refl cur_dir = refl
component_refl parent_dir = refl
component_refl (normal a) = list_refl a

pub component_eq_of_beq : (a b : Component) → component_beq a b ≡ true → a ≡ b
unfolding component_beq
component_eq_of_beq root_dir root_dir h = refl
component_eq_of_beq cur_dir cur_dir h = refl
component_eq_of_beq parent_dir parent_dir h = refl
component_eq_of_beq (normal a) (normal b) h = ground (arith, list_beq→eq a b)
component_eq_of_beq root_dir cur_dir h = cc
component_eq_of_beq root_dir parent_dir h = cc
component_eq_of_beq root_dir (normal b) h = cc
component_eq_of_beq cur_dir root_dir h = cc
component_eq_of_beq cur_dir parent_dir h = cc
component_eq_of_beq cur_dir (normal b) h = cc
component_eq_of_beq parent_dir root_dir h = cc
component_eq_of_beq parent_dir cur_dir h = cc
component_eq_of_beq parent_dir (normal b) h = cc
component_eq_of_beq (normal a) root_dir h = cc
component_eq_of_beq (normal a) cur_dir h = cc
component_eq_of_beq (normal a) parent_dir h = cc

abbrev dot : Bytes
dot = b'.' ∷ []

abbrev dot_dot : Bytes
dot_dot = b'.' ∷ b'.' ∷ []

-- An empty piece and `.` are skipped.
piece : Bytes → List Component
piece s =
    if list_beq s []
    then []
    else if list_beq s dot
    then []
    else if list_beq s dot_dot
    then parent_dir ∷ []
    else normal s ∷ []

pub body : List Bytes → List Component
unfolding piece
body [] = []
body (s ∷ ss) = piece s ++ body ss

-- A path that starts with a separator has a root; only a leading `.` of a relative path is kept.
first_piece : Bytes → List Bytes → List Component
unfolding piece
first_piece s [] = if list_beq s dot then cur_dir ∷ [] else piece s
first_piece s (_ ∷ _) =
    if list_beq s [] then root_dir ∷ [] else if list_beq s dot then cur_dir ∷ [] else piece s

from_pieces : List Bytes → List Component
unfolding first_piece body
from_pieces [] = []
from_pieces (s ∷ ss) = first_piece s ss ++ body ss

-- `Path::components`.
unfoldable pub components : FilePath → List Component
unfolding split from_pieces
components p = from_pieces (split b'/' p.os_str)

instance abbrev pub component_eq : Eq Component
component_eq = Eq_of_sound component_beq component_refl component_eq_of_beq

-- `Path == Path`.
unfoldable pub path_beq : FilePath → FilePath → Bool
path_beq a b = list_beq (components a) (components b)

pub path_refl : (a : FilePath) → path_beq a a ≡ true
unfolding path_beq
path_refl a = list_refl (components a)

pub path_sym : (a b : FilePath) → path_beq a b ≡ path_beq b a
unfolding path_beq
path_sym a b = list_sym (components a) (components b)

pub path_left : (a b c : FilePath) → path_beq a b ≡ true → path_beq a c ≡ path_beq b c
unfolding path_beq
path_left a b c = list_left (components a) (components b) (components c)

instance abbrev pub path_eq : Eq FilePath
path_eq = record { beq = path_beq; beq_refl = path_refl; beq_sym = path_sym; beq_left = path_left }

unfoldable pub is_prefix : List Component → List Component → Bool
is_prefix [] ys = true
is_prefix (x ∷ xs) [] = false
is_prefix (x ∷ xs) (y ∷ ys) = component_beq x y && is_prefix xs ys

-- `path.starts_with(base)`: by whole components.
unfoldable pub starts_with : FilePath → FilePath → Bool
unfolding is_prefix
starts_with path base = is_prefix (components base) (components path)

normal_name : Component → Option Bytes
normal_name (normal s) = some s
normal_name _ = none

-- `Path::file_name`: the last component, if it is a name.
unfoldable pub file_name : FilePath → Option Bytes
unfolding normal_name
file_name p = and_then (last (components p)) normal_name

-- `file_name().and_then(|name| name.to_str())`.
abbrev pub file_name_str : FilePath → Option Bytes
file_name_str p = and_then (file_name p) to_str

-- `Path::is_absolute`, `PathBuf::push` and `Path::join`.
unfoldable pub is_absolute : FilePath → Bool
is_absolute p = is_some_and (first p.os_str) (λ b. b == b'/')

abbrev needs_separator : Bytes → Bool
needs_separator bs = is_some_and (last bs) (λ b. not (b == b'/'))

unfoldable pub join : FilePath → FilePath → FilePath
unfolding is_absolute
join base p = if is_absolute p then p else record {
  os_str = base.os_str ++ (if needs_separator base.os_str then b'/' ∷ p.os_str else p.os_str);
}

pub is_prefix_refl : (xs : List Component) → is_prefix xs xs ≡ true
unfolding is_prefix
is_prefix_refl [] = refl
is_prefix_refl (x ∷ xs) = ground (arith, component_refl x, is_prefix_refl xs)

pub is_prefix_trans :
    (xs ys zs : List Component)
    → is_prefix xs ys ≡ true
    → is_prefix ys zs ≡ true
    → is_prefix xs zs ≡ true
unfolding is_prefix
is_prefix_trans [] ys zs h k = refl
is_prefix_trans (x ∷ xs) [] zs h k = cc
is_prefix_trans (x ∷ xs) (y ∷ ys) [] h k = cc
is_prefix_trans (x ∷ xs) (y ∷ ys) (z ∷ zs) h k =
    ground (arith, component_eq_of_beq x y, component_eq_of_beq y z, is_prefix_trans xs ys zs)

pub starts_with_trans :
    (a b c : FilePath) → starts_with a b ≡ true → starts_with b c ≡ true → starts_with a c ≡ true
unfolding starts_with
starts_with_trans a b c h k = is_prefix_trans (components c) (components b) (components a) k h

abbrev pub path : String → FilePath
path s = record { os_str = bytes s }

-- `PathBuf::from`, `Path::new`.
abbrev pub to_path : Bytes → FilePath
to_path bs = record { os_str = bs }

rest_after : List Component → List Component → Option (List Component)
rest_after [] ys = some ys
rest_after (x ∷ xs) [] = none
rest_after (x ∷ xs) (y ∷ ys) = if component_beq x y then rest_after xs ys else none

-- `path.strip_prefix(base)`, as the components of its result.
unfoldable pub strip_prefix : FilePath → FilePath → Option (List Component)
unfolding rest_after
strip_prefix p base = rest_after (components base) (components p)

rest_after-is_prefix :
    (xs ys : List Component) → is_some_and (rest_after xs ys) (λ r. true) ≡ is_prefix xs ys
unfolding rest_after is_prefix
rest_after-is_prefix [] ys = refl
rest_after-is_prefix (x ∷ xs) [] = refl
rest_after-is_prefix (x ∷ xs) (y ∷ ys) = ground (arith, rest_after-is_prefix xs ys)

-- `strip_prefix` succeeds exactly below the base.
pub strip_prefix-starts_with :
    (p base : FilePath) → is_some_and (strip_prefix p base) (λ r. true) ≡ starts_with p base
unfolding strip_prefix starts_with
strip_prefix-starts_with p base = rest_after-is_prefix (components base) (components p)

-- `Component::as_os_str`.
unfoldable pub component_str : Component → Bytes
component_str root_dir = b'/' ∷ []
component_str cur_dir = dot
component_str parent_dir = dot_dot
component_str (normal s) = s

-- A relative path of components.
unfoldable pub from_components : List Component → FilePath
from_components [] = to_path []
from_components (c ∷ []) = to_path (component_str c)
from_components (c ∷ d ∷ cs) =
    to_path (component_str c ++ (b'/' ∷ (from_components (d ∷ cs)).os_str))
