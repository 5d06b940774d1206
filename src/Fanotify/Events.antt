-- ===== src/Fanotify/Events.antt =====
-- src/fanotify.rs: event masks, descriptors, and the answers to the kernel. System calls are recorded
-- as effects, in their order; whether the kernel carries one out is an argument.
use Prim.Native.Nat.{bit_and, bit_or}
use config_guard.Base.{ℕ, Bool, not, ◌&&◌, List, [], ◌∷◌, ◌++◌, Option, ◌==◌, if◌then◌else◌, any}
use config_guard.Base.Int.{ℤ, pos, negsuc}
use config_guard.Std.FilePath.{FilePath, starts_with}
use config_guard.Policy.Types.{
  ProcessSubject, AccessKind, read, write, Decision, allow, deny, prompt,
}
use config_guard.Std.Bytes.{Bytes}

abbrev pub fan_allow : ℕ
fan_allow = 0x01

abbrev pub fan_deny : ℕ
fan_deny = 0x02

abbrev pub fan_close_write : ℕ
fan_close_write = 0x08

abbrev pub fan_close_nowrite : ℕ
fan_close_nowrite = 0x10

abbrev pub fan_open : ℕ
fan_open = 0x20

abbrev pub fan_open_exec : ℕ
fan_open_exec = 0x1000

abbrev pub fan_q_overflow : ℕ
fan_q_overflow = 0x4000

abbrev pub fan_open_perm : ℕ
fan_open_perm = 0x10000

abbrev pub fan_event_on_child : ℕ
fan_event_on_child = 0x0800_0000

-- `mask & flag != 0`.
unfoldable pub has_flag : ℕ → ℕ → Bool
has_flag mask flag = not (bit_and mask flag == 0)

unfoldable pub audit_watch_mask : ℕ
audit_watch_mask = bit_or (bit_or (bit_or fan_open fan_open_exec) fan_close_nowrite) fan_close_write

unfoldable pub guard_watch_mask : ℕ
guard_watch_mask = bit_or (bit_or fan_open_perm fan_close_write) fan_event_on_child

-- The `AccessPolicy` trait; `none` is an error of `decide`.
pub record AccessPolicy : Type 0 where
  pub decide : ProcessSubject → FilePath → AccessKind → Option Decision
  pub authorization_owner_subject : ProcessSubject → Option Bytes

-- The failures of the event loops.
pub data Error : Type 0 where
  queue_overflow invalid_descriptor unresolved_target policy_failed : Error
  write_failed close_failed : Error
  missing_pending id_overflow send_failed : Error
  unknown_completion key_mismatch : Error
  wake_failed wake_write_failed worker_stopped poll_failed read_failed panicked : Error
  unresolved_object learner_failed : Error
  bad_version bad_event_length truncated_header bad_info_length truncated_pidfd bad_pidfd : Error

pub data Status : Type 0 where
  ok : Status
  err : Error → Status

-- `result.and(other)`: both have been carried out, and the first error counts.
abbrev pub and_status : Status → Status → Status
and_status ok s = s
and_status (err e) s = err e

-- The calls that the kernel sees.
pub data Effect : Type 0 where
  respond : ℕ → ℕ → Effect
  close : ℕ → Effect

-- Whether the kernel carries out a response or a close of a descriptor.
pub record Io : Type 0 where
  pub writes : ℕ → Bool
  pub closes : ℕ → Bool

unfoldable pub ensure_event_descriptor : ℕ → ℤ → Status
ensure_event_descriptor mask (negsuc n) =
    if has_flag mask fan_q_overflow then err queue_overflow else err invalid_descriptor
ensure_event_descriptor mask (pos fd) =
    if has_flag mask fan_q_overflow then err queue_overflow else ok

unfoldable pub is_excluded : FilePath → List FilePath → Bool
is_excluded path excluded_paths = any (λ excluded. starts_with path excluded) excluded_paths

unfoldable pub is_watched_path : FilePath → List FilePath → List FilePath → Bool
unfolding is_excluded
is_watched_path path paths excluded_paths =
    any (λ root. starts_with path root) paths && not (is_excluded path excluded_paths)

unfoldable pub access_kind : ℕ → AccessKind
access_kind mask = if has_flag mask fan_close_write then write else read

unfoldable pub is_permission_event : ℕ → Bool
is_permission_event mask = has_flag mask fan_open_perm

unfoldable pub response_code : Decision → ℕ
response_code allow = fan_allow
response_code deny = fan_deny
response_code (prompt r d s) = fan_allow

unfoldable pub close_descriptor : Io → ℕ → List Effect × Status
close_descriptor io fd = (close fd ∷ [], if io.closes fd then ok else err close_failed)

unfoldable pub respond_to_permission_event_fd : Io → ℕ → ℕ → Decision → List Effect × Status
respond_to_permission_event_fd io fd mask d =
    if is_permission_event mask
    then (respond fd (response_code d) ∷ [], if io.writes fd then ok else err write_failed)
    else ([], ok)

unfoldable pub respond_and_close_event : Io → ℕ → ℕ → Decision → List Effect × Status
unfolding respond_to_permission_event_fd close_descriptor
respond_and_close_event io fd mask d =
    let response = respond_to_permission_event_fd io fd mask d in
    let closed = close_descriptor io fd in (response.0 ++ closed.0, and_status response.1 closed.1)
