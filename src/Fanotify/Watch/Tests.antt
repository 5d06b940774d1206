-- ===== src/Fanotify/Watch/Tests.antt =====
-- src/fanotify/watch.rs: the theorem at a directory with a directory and a file, and another that is excluded.
use config_guard.Base.{
  ◌≡◌, ◌↔◌, refl, true, false, List, [], ◌∷◌, none, some, arith, if◌then◌else◌, any, list_beq,
  Member,
}
use config_guard.Std.FilePath.{
  FilePath, path, components, component_beq, path_beq, is_prefix, starts_with,
}
use config_guard.Fanotify.Events.{is_excluded}
use config_guard.Fanotify.Watch.{
  Mark, Kernel, Marking, marked, failed, mark_guard_path, child_directories, directories,
  mark_path_tree,
}
use config_guard.Fanotify.Watch.Trees.{Tree, node, leaf, branch, visits, IsTree}
use config_guard.Fanotify.Watch.Reached.{Reach, paths_of, mark_path_tree-Reach}

abbrev kernel : Kernel
kernel = record {
  is_dir = λ p. true;
  read_dir = λ p.
      if path_beq p (path "/c")
      then some (
          some (record { path = path "/c/vim"; is_dir = some true })
          ∷ some (record { path = path "/c/rc"; is_dir = some false })
          ∷ some (record { path = path "/c/cache"; is_dir = some true })
          ∷ [])
      else some [];
  accepts = λ mark. true;
}

abbrev excluded : List FilePath
excluded = path "/c/cache" ∷ []

abbrev tree : Tree
tree = node (path "/c") (branch (node (path "/c/vim") leaf) leaf)

mark_path_tree-Reach_example :
    (r : Marking) × (mark_path_tree kernel excluded 3 (path "/c") [] ≡ some r)
    × ((ms : List Mark)
        → r ≡ marked ms
        → (d : FilePath) → Member d (paths_of ms) ↔ Reach kernel excluded (path "/c") d)
    × ((ms : List Mark)
        → r ≡ failed ms
        → (d : FilePath) × Reach kernel excluded (path "/c") d × (mark_guard_path kernel d ≡ none))
unfolding visits child_directories directories is_excluded starts_with is_prefix components
    component_beq path_beq list_beq any IsTree
mark_path_tree-Reach_example =
    mark_path_tree-Reach kernel excluded tree 3 refl ((refl, ((refl, tt), tt))) (omega arith)
