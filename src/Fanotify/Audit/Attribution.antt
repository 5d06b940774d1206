-- ===== src/Fanotify/Audit/Attribution.antt =====
-- src/fanotify/audit.rs: which process the accesses of a close are put down to.
use config_guard.Base.{ℕ, ◌≡◌, ◌<◌, true, false, List, [], ◌∷◌, Option, none, some, arith}
use config_guard.Policy.Types.{AccessKind}
use config_guard.Process.Identity.{ProcessIdentity}
use config_guard.Fanotify.AuditIdentity.{AuditObjectId, with_capacity}
use config_guard.Fanotify.AuditIdentity.Generation.{take-insert-generation}
use config_guard.Fanotify.AuditIdentity.History.{Call, run}
use config_guard.Fanotify.AuditProcess.{ProcessGeneration, AuditProcessCache}
use config_guard.Fanotify.Events.{has_flag, fan_open}
use config_guard.Fanotify.Guard.Loop.{Metadata}
use config_guard.Fanotify.Audit.{
  AuditCaches, AuditFacts, access_kinds, record_open_identity, select_process,
  record_identity_and_select_process,
}

-- After any history of an identity cache that has room for an entry: an open alone whose process
-- procfs shows, and then the close of the same file by the same process id. The open decides
-- nothing, and the accesses of the close are put down to a process of the generation that was seen
-- at the open, whatever procfs shows at the close.
pub close-opened_process :
    (capacity : ℕ) (calls : List Call) (processes : AuditProcessCache) (object : AuditObjectId)
    (opened closed : Metadata) (g g' : Option ProcessGeneration) (facts facts' : AuditFacts)
    (x : ProcessIdentity) (access : AccessKind) (accesses : List AccessKind)
    → 0 < capacity
    → has_flag opened.mask fan_open ≡ true
    → access_kinds opened.mask ≡ []
    → facts.at_open ≡ some x
    → closed.pid ≡ opened.pid
    → has_flag closed.mask fan_open ≡ false
    → access_kinds closed.mask ≡ access ∷ accesses
    → let before : AuditCaches = record {
      identities = run (with_capacity capacity) calls;
      processes = processes;
    } in
      let at_open = record_identity_and_select_process opened object g facts before in
      let at_close = record_identity_and_select_process closed object g' facts' at_open.1 in
      (at_open.0 ≡ none)
      × (y : ProcessIdentity) × (at_close.0 ≡ some (access ∷ accesses, y))
      × (y.start_time_ticks ≡ x.start_time_ticks)
unfolding record_identity_and_select_process record_open_identity select_process
close-opened_process capacity calls processes object opened closed g g' facts facts' x access
      accesses pos o k f p o' k' =
    let (y, e, same) = take-insert-generation capacity calls opened.pid object x pos in
    (ground (arith, k), y, ground (arith, o, k, f, p, o', k', e), same)
