-- ===== src/Fanotify/Audit/Run.antt =====
-- src/fanotify.rs: the loop of the audit modes, and what is set up before it.
use Prim.Native.Nat.{bit_or}
use config_guard.Base.{ℕ, List, [], ◌∷◌, ◌++◌, Option, none, some}
use config_guard.Base.Int.{pos, negsuc}
use config_guard.Std.Bytes.{Bytes, take}
use config_guard.Std.FilePath.{FilePath}
use config_guard.Fanotify.AuditProcess.{ProcessGeneration}
use config_guard.Fanotify.Events.{Effect, Status, ok, err, read_failed, panicked, Io}
use config_guard.Fanotify.EventBuffer.{EventMetadata, Identify, process_event_buffer}
use config_guard.Fanotify.Guard.Loop.{Metadata}
use config_guard.Fanotify.Audit.Handler.{
  Mode, audit, audit_prompt, guard, EventFacts, AuditState, handle_event,
}

abbrev fan_cloexec : ℕ
fan_cloexec = 0x01

abbrev fan_class_content : ℕ
fan_class_content = 0x04

abbrev fan_class_notif : ℕ
fan_class_notif = 0x00

abbrev fan_unlimited_queue : ℕ
fan_unlimited_queue = 0x10

abbrev fan_report_pidfd : ℕ
fan_report_pidfd = 0x80

-- The flags of `fanotify_init`.
unfoldable pub init_flags : Mode → ℕ
init_flags (audit learner policy) =
    bit_or (bit_or (bit_or fan_class_notif fan_cloexec) fan_unlimited_queue) fan_report_pidfd
init_flags (audit_prompt learner policy p cache) =
    bit_or (bit_or (bit_or fan_class_notif fan_cloexec) fan_unlimited_queue) fan_report_pidfd
init_flags guard = bit_or fan_class_content fan_cloexec

abbrev pub o_cloexec : ℕ
o_cloexec = 0x80000

-- The descriptor that the kernel gives for the flags, if it does; `O_RDONLY` is zero.
unfoldable pub create_fanotify_fd : (ℕ → ℕ → Option ℕ) → Mode → Option ℕ
create_fanotify_fd fanotify_init mode = fanotify_init (init_flags mode) o_cloexec

-- The state of the loop with the system calls so far.
pub record AuditRun : Type 0 where
  pub state : AuditState
  pub effects : List Effect

-- The kernel gives out no negative process id.
abbrev pub metadata_of : EventMetadata → Metadata
metadata_of m = record {
  mask = m.mask;
  fd = m.fd;
  pid = elim m.pid [ pos pid ↦ pid | negsuc n ↦ 0 ];
}

abbrev status_of : Option Status → Status
status_of none = err panicked
status_of (some status) = status

-- What an event meets outside may depend on all that went before. A panic ends the loop like an error.
module _ (paths excluded_paths : List FilePath) (io : Io) (identify : Identify)
    (facts_of : AuditRun → EventMetadata → EventFacts) where
  unfoldable pub on_event : EventMetadata → Option ProcessGeneration → AuditRun → Status × AuditRun
  on_event m generation r =
      let facts = record (facts_of r m) { generation = generation } in
      let s = handle_event paths excluded_paths io (metadata_of m) facts r.state in
      (status_of s.status, record { state = s.state; effects = r.effects ++ s.effects })

  abbrev event_buffer_size : ℕ
  event_buffer_size = 8192

  -- One read, `none` for a read that fails.
  unfoldable pub read_events : Option Bytes → AuditRun → Option (Status × AuditRun)
  read_events none r = some (err read_failed, r)
  read_events (some bs) r = process_event_buffer identify io on_event (take event_buffer_size bs) r

-- What one turn of the loop meets: the bytes that are read, if the read does not fail, and what the kernel says about
-- the descriptors that come with them.
pub record AuditRead : Type 0 where
  pub bytes_read : Option Bytes
  pub io : Io
  pub identify : Identify

module _ (paths excluded_paths : List FilePath)
    (facts_of : AuditRun → EventMetadata → EventFacts) where
  -- The reads up to the first error; the loop ends by nothing else.
  unfoldable pub read_loop : List AuditRead → AuditRun → Option (Status × AuditRun)
  read_loop [] r = some (ok, r)
  read_loop (now ∷ reads) r =
      elim (read_events paths excluded_paths now.io now.identify facts_of now.bytes_read r) [
        | none ↦ none
        | some (err e, s) ↦ some (err e, s)
        | some (ok, s) ↦ read_loop reads s
      ]
