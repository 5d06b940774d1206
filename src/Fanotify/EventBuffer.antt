-- ===== src/Fanotify/EventBuffer.antt =====
-- src/fanotify.rs and src/fanotify/event.rs: how the buffer that the kernel fills is cut into events,
-- and how an event names the generation of its process. The numbers are stored low byte first.
pub mod Records
pub mod Framing
mod Tests
use config_guard.Base.{
  ℕ, zero, suc, ◌+◌, ◌-◌, ◌*◌, ◌^◌, ◌≡◌, refl, Bool, true, false, ◌||◌, List, [], ◌∷◌, Option, none,
  some, ◌==◌, ltb, leb, if◌then◌else◌, length,
}
use config_guard.Base.Int.{ℤ, pos, negsuc}
use config_guard.Std.Bytes.{Bytes, take, drop}
use config_guard.Fanotify.AuditProcess.{ProcessGeneration}
use config_guard.Fanotify.Events.{
  Status, ok, err, Error, bad_version, bad_event_length, truncated_header, bad_info_length,
  truncated_pidfd, bad_pidfd, close_failed, Io,
}

abbrev little_endian : Bytes → ℕ
little_endian [] = 0
little_endian (b ∷ bs) = b + 256 * little_endian bs

-- The number of a field, by its offset and width.
unfoldable pub field : ℕ → ℕ → Bytes → ℕ
field offset width bs = little_endian (take width (drop offset bs))

-- A 32-bit number with its sign.
unfoldable pub to_i32 : ℕ → ℤ
to_i32 n = if ltb n (2 ^ 31) then pos n else negsuc (2 ^ 32 - 1 - n)

-- `fanotify_event_metadata`.
pub record EventMetadata : Type 0 where
  pub event_len : ℕ
  pub vers : ℕ
  pub metadata_len : ℕ
  pub mask : ℕ
  pub fd : ℤ
  pub pid : ℤ

abbrev pub metadata_size : ℕ
metadata_size = 24

abbrev pub metadata_version : ℕ
metadata_version = 3

unfoldable pub read_metadata : Bytes → EventMetadata
read_metadata bs = record {
  event_len = field 0 4 bs;
  vers = field 4 1 bs;
  metadata_len = field 6 2 bs;
  mask = field 8 8 bs;
  fd = to_i32 (field 16 4 bs);
  pid = to_i32 (field 20 4 bs);
}

unfoldable pub validate_metadata_version : EventMetadata → Status
validate_metadata_version m = if m.vers == metadata_version then ok else err bad_version

abbrev pub info_header_size : ℕ
info_header_size = 4

abbrev pub info_pidfd_size : ℕ
info_pidfd_size = 8

abbrev pub info_type_pidfd : ℕ
info_type_pidfd = 4

-- What the information records of an event say of a process descriptor.
pub data Info : Type 0 where
  absent : Info
  pidfd : ℤ → Info
  malformed : Error → Info

-- One record, with what follows it as a result of the loop: the body of the `while`.
unfoldable pub info_step : Bytes → Option Info → Option Info
info_step remaining rest =
    let info_len = field 2 2 remaining in
    if ltb (length remaining) info_header_size
    then some (malformed truncated_header)
    else if ltb info_len info_header_size || ltb (length remaining) info_len
    then some (malformed bad_info_length)
    else if field 0 1 remaining == info_type_pidfd
    then (if ltb info_len info_pidfd_size
        then some (malformed truncated_pidfd)
        else some (pidfd (to_i32 (field 4 4 remaining))))
    else rest

-- The loop over the records, on fuel: `none` if it runs out.
unfoldable pub info_loop : ℕ → Bytes → Option Info
info_loop zero remaining = elim remaining [ [] ↦ some absent | b ∷ bs ↦ none ]
info_loop (suc n) remaining =
    let rest = info_loop n (drop (field 2 2 remaining) remaining) in
    elim remaining [ [] ↦ some absent | b ∷ bs ↦ info_step (b ∷ bs) rest ]

-- The generation behind a process descriptor, as the file system answers: `none` if the descriptor is
-- none of the file system of processes.
abbrev pub Identify : Type 0
Identify = ℕ → Option ProcessGeneration

pub data Generation : Type 0 where
  generation : Option ProcessGeneration → Generation
  no_generation : Error → Generation

-- A descriptor is closed once it has been looked at. An error of the close comes first.
unfoldable pub generation_from_pidfd : Identify → Io → ℤ → Generation
generation_from_pidfd identify io (negsuc n) = generation none
generation_from_pidfd identify io (pos fd) =
    if io.closes fd
    then elim (identify fd) [ none ↦ no_generation bad_pidfd | some g ↦ generation (some g) ]
    else no_generation close_failed

unfoldable pub generation_of : Identify → Io → Info → Generation
generation_of identify io absent = generation none
generation_of identify io (pidfd fd) = generation_from_pidfd identify io fd
generation_of identify io (malformed e) = no_generation e

-- The length of the event is fuel enough.
unfoldable pub process_generation : Identify → Io → Bytes → EventMetadata → Option Generation
process_generation identify io event m =
    elim (info_loop (length event) (drop m.metadata_len event)) [
      | none ↦ none
      | some info ↦ some (generation_of identify io info)
    ]

module _ {S : Type 0} (on_event : Bytes → EventMetadata → S → Status × S) where
  -- One event, with what follows it as a function of the state: the body of the `while`.
  unfoldable pub buffer_step : Bytes → S → (S → Option (Status × S)) → Option (Status × S)
  unfolding validate_metadata_version
  buffer_step buffer s rest =
      let m = read_metadata buffer in
      elim (validate_metadata_version m) [
        | err e ↦ some (err e, s)
        | ok ↦
            if m.event_len == 0
            then some (ok, s)
            else if ltb m.event_len m.metadata_len || ltb (length buffer) m.event_len
            then some (err bad_event_length, s)
            else (let done = on_event (take m.event_len buffer) m s in
                elim done.0 [ err e ↦ some (err e, done.1) | ok ↦ rest done.1 ])
      ]

  -- The loop over the events, on fuel: `none` if it runs out.
  unfoldable pub buffer_loop : ℕ → Bytes → S → Option (Status × S)
  unfolding buffer_step
  buffer_loop zero buffer s = if leb metadata_size (length buffer) then none else some (ok, s)
  buffer_loop (suc n) buffer s =
      if leb metadata_size (length buffer)
      then buffer_step buffer s
          (λ t. buffer_loop n (drop (read_metadata buffer).event_len buffer) t)
      else some (ok, s)

-- What is done with one event: its generation is read, then its handler is called. Running out of
-- fuel, which does not happen, counts as an error.
unfoldable pub handle_with_generation :
    {S : Type 0}
    → Identify
    → Io
    → (EventMetadata → Option ProcessGeneration → S → Status × S)
    → Bytes
    → EventMetadata
    → S
    → Status × S
handle_with_generation identify io handle_event event m s =
    elim (process_generation identify io event m) [
      | none ↦ (err bad_info_length, s)
      | some (no_generation e) ↦ (err e, s)
      | some (generation g) ↦ handle_event m g s
    ]

-- The length of the buffer is fuel enough.
unfoldable pub process_event_buffer :
    {S : Type 0}
    → Identify
    → Io
    → (EventMetadata → Option ProcessGeneration → S → Status × S)
    → Bytes
    → S
    → Option (Status × S)
unfolding handle_with_generation
process_event_buffer identify io handle_event buffer s =
    buffer_loop (handle_with_generation identify io handle_event) (length buffer) buffer s
