-- ===== src/Fanotify/Startup.antt =====
-- src/fanotify.rs and src/fanotify/watch.rs: what is done before the first event is read.
pub mod Guarded
mod Tests
use config_guard.Base.{ℕ, Bool, not, List, [], ◌∷◌, ◌++◌, Option, none, some, if◌then◌else◌, length}
use config_guard.Std.Bytes.{Bytes, bytes}
use config_guard.Std.FilePath.{FilePath}
use config_guard.Std.Number.{to_string}
use config_guard.SystemdNotify.{SocketAddr, Notification, notify_ready}
use config_guard.Fanotify.Watch.{Mark, Kernel, marked, failed, install}
use config_guard.Fanotify.Audit.Handler.{Mode, is_audit}
use config_guard.Fanotify.Audit.Run.{create_fanotify_fd}
use mathlib.Core.Option

unfoldable pub watch_list : List FilePath → Bytes
watch_list [] = []
watch_list (p ∷ []) = p.os_str
watch_list (p ∷ q ∷ ps) = p.os_str ++ (bytes ", " ++ watch_list (q ∷ ps))

-- The status that `install` gives, by whether the mode is that of the guard.
unfoldable pub watch_status : Bool → List FilePath → List Mark → Bytes
watch_status guards paths marks =
    bytes "watching "
    ++ (watch_list paths
        ++ (if guards
            then bytes " (" ++ (to_string (length marks) ++ bytes " directories marked)")
            else bytes " with mount notifications ("
              ++ (to_string (length paths) ++ bytes " root requests installed)")))

-- What is there when the loop starts.
pub record Ready : Type 0 where
  pub fanotify_fd : ℕ
  pub marks : List Mark
  pub notification : Notification

-- The first part of `run`: `some none` for an error, `none` if the fuel of the walk runs out.
unfoldable pub start :
    (ℕ → ℕ → Option ℕ)
    → Kernel
    → (SocketAddr → Bytes → Option ℕ)
    → Option Bytes
    → ℕ
    → List FilePath
    → List FilePath
    → Mode
    → Option (Option Ready)
start fanotify_init k send_to_addr notify_socket fuel paths excluded_paths mode =
    let guards = not (is_audit mode) in
    elim (create_fanotify_fd fanotify_init mode) [
      | none ↦ some none
      | some fd ↦ elim (install k excluded_paths fuel guards paths) [
        | none ↦ none
        | some (failed marks) ↦ some none
        | some (marked marks) ↦ some (
            Option.map (λ n. record { fanotify_fd = fd; marks = marks; notification = n })
              (notify_ready send_to_addr notify_socket (watch_status guards paths marks)))
      ]
    ]
