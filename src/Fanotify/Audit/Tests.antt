-- ===== src/Fanotify/Audit/Tests.antt =====
-- src/fanotify/audit.rs and src/fanotify.rs: the theorems at an open, a close, and a forbidden read.
use config_guard.Base.{false, ◌≡◌, refl, ◌⊎◌, true, List, [], ◌∷◌, none, some, arith, nat_eq}
use config_guard.Base.Int.{pos}
use config_guard.Std.Bytes.{Bytes}
use config_guard.Std.FilePath.{FilePath, path}
use config_guard.Policy.Types.{allow, deny, read}
use config_guard.Process.Identity.{ProcessIdentity}
use config_guard.Fanotify.AuditIdentity.{AuditObjectId, with_capacity}
use config_guard.Fanotify.AuditIdentity.History.{run}
use config_guard.Fanotify.AuditProcess.{with_limits}
use config_guard.Fanotify.Events.{close, Status, err, Error, Io, AccessPolicy, has_flag}
use config_guard.Fanotify.Guard.Answers.{answer_calls}
use config_guard.Fanotify.Guard.Loop.{Metadata}
use config_guard.Fanotify.Audit.{
  AuditCaches, AuditFacts, access_kinds, record_identity_and_select_process,
}
use config_guard.Fanotify.Audit.Handler.{audit, EventFacts, AuditState, is_audit, handle_event}
use config_guard.Fanotify.Audit.Passive.{handle_event-forbids_nothing}
use config_guard.Fanotify.Audit.Run.{AuditRun, AuditRead, read_loop}
use config_guard.Fanotify.Audit.Harmless.{IsHarmlessRun, read_loop-forbids_nothing}
use config_guard.Fanotify.Audit.Attribution.{close-opened_process}

program : Unit {0}
unfolding has_flag access_kinds is_audit
program = tt

abbrev cat : ProcessIdentity
cat = record {
  pid = 7;
  executable = some (path "/usr/bin/cat");
  command = [];
  cwd = none;
  start_time_ticks = some 100;
  ancestors = [];
  ancestor_processes = [];
}

abbrev file : AuditObjectId
file = record { device = 1; inode = 2 }

-- What procfs shows while the process lives, and after its end.
abbrev alive : AuditFacts
alive = record {
  at_exec = some cat;
  at_open = some cat;
  at_close = some cat;
  exec_time = 1;
  open_time = 1;
  close_time = 1;
  env = [];
  written = λ access. true;
}

abbrev gone : AuditFacts
gone = record alive { at_exec = none; at_open = none; at_close = none }

abbrev opens : Metadata
opens = record { mask = 0x20; fd = pos 5; pid = 7 }

abbrev closes : Metadata
closes = record { mask = 0x10; fd = pos 6; pid = 7 }

abbrev before : AuditCaches
before = record { identities = run (with_capacity 2) []; processes = with_limits 2 30 }

close-opened_process_example :
    (record_identity_and_select_process opens file none alive before).0 ≡ none
unfolding program
close-opened_process_example =
    (close-opened_process 2 [] (with_limits 2 30) file opens closes none none alive gone cat read []
      (omega arith) refl refl refl refl refl refl).0

abbrev says_no : AccessPolicy
says_no = record { decide = λ s t a. some deny; authorization_owner_subject = λ s. none }

abbrev state : AuditState
state = record { mode = audit none (some says_no); caches = before }

abbrev seen : EventFacts
seen = record {
  target = some (path "/home/u/.ssh/id");
  object = some file;
  generation = none;
  audit_facts = alive;
}

abbrev io : Io
io = record { writes = λ fd. true; closes = λ fd. true }

abbrev roots : List FilePath
roots = path "/home/u" ∷ []

handle_event-forbids_nothing_example :
    (is_audit (handle_event roots [] io closes seen state).state.mode ≡ true)
    × (st : Status) × ((handle_event roots [] io closes seen state).status ≡ some st)
    × (((handle_event roots [] io closes seen state).effects ≡ answer_calls 6 closes.mask allow)
        ⊎ (((handle_event roots [] io closes seen state).effects ≡ close 6 ∷ [])
            × (e : Error) × (st ≡ err e)))
unfolding program
handle_event-forbids_nothing_example =
    handle_event-forbids_nothing roots [] io closes seen state refl 6 refl refl

-- A close of descriptor 6 by process 7, as 24 bytes.
abbrev buffer : Bytes
buffer =
    24 ∷ 0 ∷ 0 ∷ 0 ∷ 3 ∷ 0 ∷ 24 ∷ 0 ∷ 16 ∷ 0 ∷ 0 ∷ 0 ∷ 0 ∷ 0 ∷ 0 ∷ 0 ∷ 6 ∷ 0 ∷ 0 ∷ 0 ∷ 7 ∷ 0 ∷ 0 ∷ 0
    ∷ []

abbrev start : AuditRun
start = record { state = state; effects = [] }

-- Descriptor 6 comes twice, and its second close fails.
abbrev reads : List AuditRead
reads =
    record { bytes_read = some buffer; io = io; identify = λ fd. none }
    ∷ record {
      bytes_read = some buffer;
      io = record { writes = λ fd. true; closes = λ fd. false };
      identify = λ fd. none;
    }
    ∷ []

read_loop-forbids_nothing_example :
    (s : Status) × (t : AuditRun) × (read_loop roots [] (λ r m. seen) reads start ≡ some (s, t))
    × IsHarmlessRun t
unfolding program
read_loop-forbids_nothing_example =
    read_loop-forbids_nothing roots [] (λ r m. seen) reads start (refl, tt)
