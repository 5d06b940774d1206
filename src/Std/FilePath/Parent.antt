-- ===== src/Std/FilePath/Parent.antt =====
-- `Path::parent`, up to the way in which the path of the components is written.
use config_guard.Base.{List, [], ◌∷◌, Option, none, some, last}
use config_guard.Std.FilePath.{
  FilePath, Component, root_dir, cur_dir, parent_dir, normal, components, from_components, to_path,
}

init_of : List Component → List Component
init_of [] = []
init_of (c ∷ []) = []
init_of (c ∷ d ∷ cs) = c ∷ init_of (d ∷ cs)

-- A path with the components given, the root written as such.
from_parent_components : List Component → FilePath
unfolding from_components
from_parent_components [] = to_path []
from_parent_components (c ∷ []) = from_components (c ∷ [])
from_parent_components (root_dir ∷ d ∷ cs) = to_path (b'/' ∷ (from_components (d ∷ cs)).os_str)
from_parent_components (c ∷ d ∷ cs) = from_components (c ∷ d ∷ cs)

-- `Path::parent`: none for a path without components or whose last one is the root.
unfoldable pub parent : FilePath → Option FilePath
unfolding init_of from_parent_components
parent p = elim (last (components p)) [
  | none ↦ none
  | some c ↦ elim c [
    | root_dir ↦ none
    | cur_dir ↦ some (from_parent_components (init_of (components p)))
    | parent_dir ↦ some (from_parent_components (init_of (components p)))
    | normal s ↦ some (from_parent_components (init_of (components p)))
  ]
]
