-- ===== src/Fanotify/Startup/Tests.antt =====
-- src/fanotify.rs: the start of the guard over a directory with one directory in it.
use config_guard.Base.{
  ◌≡◌, refl, inl, true, [], ◌∷◌, none, some, if◌then◌else◌, any, keep, list_beq,
}
use config_guard.Std.FilePath.{
  FilePath, path, components, component_beq, path_beq, is_prefix, starts_with,
}
use config_guard.Std.Bytes.{bytes}
use config_guard.Std.Number.{to_string}
use config_guard.SystemdNotify.{silent, notify_ready}
use config_guard.Fanotify.Events.{is_excluded, guard_watch_mask}
use config_guard.Fanotify.Watch.{
  Mark, Kernel, fan_mark_add, mark_path, mark_guard_path, directories, child_directories, push_all,
  mark_loop, mark_path_tree, mark_trees, mark_path_trees, install,
}
use config_guard.Fanotify.Watch.Reached.{Reach, here, below}
use config_guard.Fanotify.Audit.Handler.{guard, is_audit}
use config_guard.Fanotify.Audit.Run.{init_flags, create_fanotify_fd}
use config_guard.Fanotify.Startup.{Ready, start, watch_list, watch_status}
use config_guard.Fanotify.Startup.Guarded.{IsGuarded, start-IsGuarded}

program : Unit {0}
unfolding any keep list_beq components component_beq path_beq is_prefix starts_with is_excluded
    guard_watch_mask mark_path mark_guard_path directories child_directories push_all mark_loop
    mark_path_tree mark_trees mark_path_trees install is_audit init_flags create_fanotify_fd start
    notify_ready
program = tt

abbrev kernel : Kernel
kernel = record {
  is_dir = λ p. true;
  read_dir = λ p.
      if path_beq p (path "/c")
      then some (some (record { path = path "/c/vim"; is_dir = some true }) ∷ [])
      else some [];
  accepts = λ mark. true;
}

abbrev mark : FilePath → Mark
mark p = record { flags = fan_mark_add; mask = guard_watch_mask; path = p }

abbrev ready : Ready
ready = record {
  fanotify_fd = 3;
  marks = mark (path "/c") ∷ mark (path "/c/vim") ∷ [];
  notification = silent;
}

start_run :
    start (λ flags events. some 3) kernel (λ a message. none) none 3 (path "/c" ∷ []) [] guard
    ≡ some (some ready)
unfolding program
start_run = refl

status_run :
    watch_status true (path "/c" ∷ path "/d" ∷ []) ready.marks
    ≡ bytes "watching /c, /d (2 directories marked)"
unfolding watch_status watch_list to_string
status_run = refl

reached : Reach kernel [] (path "/c") (path "/c/vim")
unfolding program
reached =
    below
      (
        some (record { path = path "/c/vim"; is_dir = some true }) ∷ [],
        refl,
        (record { path = path "/c/vim"; is_dir = some true }, inl refl, refl, refl, refl),
      )
      here

start-IsGuarded_example : IsGuarded kernel [] ready.marks (path "/c/vim")
unfolding program
start-IsGuarded_example =
    start-IsGuarded kernel [] (λ flags events. some 3) (λ a message. none) none 3 (path "/c" ∷ [])
      ready (path "/c") (path "/c/vim") start_run (inl refl) refl refl reached
