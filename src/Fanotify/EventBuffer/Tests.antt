-- ===== src/Fanotify/EventBuffer/Tests.antt =====
-- src/fanotify.rs and src/fanotify/event.rs: a buffer of one event and a piece of another.
use config_guard.Base.{◌≡◌, refl, true, List, [], ◌∷◌, ◌++◌, Option, some}
use config_guard.Base.Int.{pos, negsuc}
use config_guard.Std.Bytes.{Bytes}
use config_guard.Fanotify.AuditProcess.{ProcessGeneration}
use config_guard.Fanotify.Events.{Status, ok, Io}
use config_guard.Fanotify.EventBuffer.{
  EventMetadata, read_metadata, field, to_i32, Identify, Generation, info_step, info_loop,
  generation_from_pidfd, generation_of, process_generation, validate_metadata_version, buffer_step,
  buffer_loop, handle_with_generation, process_event_buffer,
}
use config_guard.Fanotify.EventBuffer.Framing.{Cut, serve, process_event_buffer-Cut}
use config_guard.Fanotify.EventBuffer.Records.{process_generation-some}

program : Unit {0}
unfolding read_metadata field to_i32 info_step info_loop generation_from_pidfd generation_of
    process_generation validate_metadata_version buffer_step buffer_loop handle_with_generation
    process_event_buffer
program = tt

-- An open by process 7 with descriptor 5, and with the descriptor 9 of the process.
abbrev event : Bytes
event =
    32 ∷ 0 ∷ 0 ∷ 0 ∷ 3 ∷ 0 ∷ 24 ∷ 0 ∷ 0x20 ∷ 0 ∷ 0 ∷ 0 ∷ 0 ∷ 0 ∷ 0 ∷ 0 ∷ 5 ∷ 0 ∷ 0 ∷ 0 ∷ 7 ∷ 0 ∷ 0
    ∷ 0 ∷ 4 ∷ 0 ∷ 8 ∷ 0 ∷ 9 ∷ 0 ∷ 0 ∷ 0 ∷ []

abbrev io : Io
io = record { writes = λ fd. true; closes = λ fd. true }

abbrev identify : Identify
identify fd = some (record { device = 1; inode = fd })

abbrev log :
    EventMetadata
    → Option ProcessGeneration
    → List (EventMetadata × Option ProcessGeneration)
    → Status × List (EventMetadata × Option ProcessGeneration)
log m g seen = (ok, (m, g) ∷ seen)

abbrev header : EventMetadata
header = record {
  event_len = 32;
  vers = 3;
  metadata_len = 24;
  mask = 0x20;
  fd = pos 5;
  pid = pos 7;
}

one_event_run :
    process_event_buffer identify io log (event ++ 1 ∷ 2 ∷ []) []
    ≡ some (ok, (header, some (record { device = 1; inode = 9 })) ∷ [])
unfolding program
one_event_run = refl

no_descriptor_run : to_i32 0xffff_ffff ≡ negsuc 0
unfolding program
no_descriptor_run = refl

identified_event : (g : Generation) × (process_generation identify io event header ≡ some g)
identified_event = process_generation-some identify io event header

process_event_buffer-Cut_example :
    (c : Cut 32 event) × ((S : Type 0)
        (handle_event : EventMetadata → Option ProcessGeneration → S → Status × S) (s : S)
      → process_event_buffer identify io handle_event event s
        ≡ some (serve (handle_with_generation identify io handle_event) c.events c.end s))
process_event_buffer-Cut_example = process_event_buffer-Cut identify io event
