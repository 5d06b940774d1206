-- ===== src/Fanotify/EventBuffer/Framing.antt =====
-- src/fanotify.rs and src/fanotify/event.rs: the loops over a buffer end, and cut it without a gap.
use config_guard.Base.{
  ℕ, zero, suc, ◌≤◌, ◌<◌, ◌≡◌, refl, inl, inr, ap, ◌∙◌, Bool, true, false, ◌||◌, List, [], ◌∷◌,
  ◌++◌, Option, some, arith, ◌==◌, ltb, leb, length, All, Bool-cases,
}
use config_guard.Std.Bytes.{Bytes}
use config_guard.Fanotify.Guard.Answers.{Status-cases}
use config_guard.Fanotify.Events.{Status, ok, err, Io, bad_event_length}
use config_guard.Fanotify.AuditProcess.{ProcessGeneration}
use config_guard.Fanotify.EventBuffer.{
  take, drop, EventMetadata, metadata_size, read_metadata, validate_metadata_version, Identify,
  buffer_step, buffer_loop, handle_with_generation, process_event_buffer,
}
use config_guard.Fanotify.EventBuffer.Records.{length-drop, length-take, take-drop}

-- The bytes of the events that a buffer is cut into.
unfoldable pub bytes_of : List (Bytes × EventMetadata) → Bytes
bytes_of [] = []
bytes_of ((event, m) ∷ events) = event ++ bytes_of events

-- Each event is as long as its header says, and not empty.
abbrev pub IsFramed : Bytes × EventMetadata → Type 0
IsFramed e = (length e.0 ≡ e.1.event_len) × (0 < length e.0) × (validate_metadata_version e.1 ≡ ok)

module _ {S : Type 0} (on_event : Bytes → EventMetadata → S → Status × S) where
  -- The events one after another, up to the first error, and then what ends the buffer.
  unfoldable pub serve : List (Bytes × EventMetadata) → Status → S → Status × S
  serve [] end s = (end, s)
  serve ((event, m) ∷ events) end s =
      let done = on_event event m s in
      let rest = serve events end done.1 in elim done.0 [ err e ↦ (err e, done.1) | ok ↦ rest ]

-- A cut: well-framed events and a rest that together are the buffer; every handler gets these events.
pub record Cut (n : ℕ) (buffer : Bytes) : Type 1 where
  pub events : List (Bytes × EventMetadata)
  pub end : Status
  pub tail : Bytes
  pub whole : bytes_of events ++ tail ≡ buffer
  pub framed : All IsFramed events
  pub served :
      (S : Type 0) (on_event : Bytes → EventMetadata → S → Status × S) (s : S)
      → buffer_loop on_event n buffer s ≡ some (serve on_event events end s)

-- A cut without events.
ended :
    (n : ℕ) (buffer : Bytes) (end : Status)
    → ((S : Type 0) (on_event : Bytes → EventMetadata → S → Status × S) (s : S)
        → buffer_loop on_event n buffer s ≡ some (end, s))
    → Cut n buffer
unfolding bytes_of serve
ended n buffer end h = record {
  events = [];
  end = end;
  tail = buffer;
  whole = refl;
  framed = tt;
  served = h;
}

append_assoc : (xs ys zs : Bytes) → (xs ++ ys) ++ zs ≡ xs ++ (ys ++ zs)
append_assoc [] ys zs = refl
append_assoc (x ∷ xs) ys zs = ap (λ l. x ∷ l) (append_assoc xs ys zs)

module _ (n : ℕ) (buffer : Bytes) (h : length buffer ≤ suc n) where
  abbrev head_len : ℕ
  head_len = (read_metadata buffer).event_len

  abbrev bad_length : Bool
  bad_length =
      ltb (read_metadata buffer).event_len (read_metadata buffer).metadata_len
      || ltb (length buffer) (read_metadata buffer).event_len

  -- The first event is served, then the others.
  step_served :
      (S : Type 0) (on_event : Bytes → EventMetadata → S → Status × S) (s : S)
      (events : List (Bytes × EventMetadata)) (end : Status)
      → leb metadata_size (length buffer) ≡ true
      → validate_metadata_version (read_metadata buffer) ≡ ok
      → (head_len == 0) ≡ false
      → bad_length ≡ false
      → ((t : S)
          → buffer_loop on_event n (drop head_len buffer) t ≡ some (serve on_event events end t))
      → buffer_loop on_event (suc n) buffer s
        ≡ some (serve on_event ((take head_len buffer, read_metadata buffer) ∷ events) end s)
  unfolding serve buffer_loop buffer_step validate_metadata_version
  step_served S on_event s events end long v z b f =
      let done = on_event (take head_len buffer) (read_metadata buffer) s in
      elim (Status-cases done.0) [
        | inl e ↦ ground (arith, long, v, z, b, e, f done.1)
        | inr (x, e) ↦ ground (arith, long, v, z, b, e)
      ]

  -- The first event of a cut.
  extended :
      leb metadata_size (length buffer) ≡ true
      → validate_metadata_version (read_metadata buffer) ≡ ok
      → (head_len == 0) ≡ false
      → bad_length ≡ false
      → Cut n (drop head_len buffer)
      → Cut (suc n) buffer
  unfolding bytes_of serve buffer_loop buffer_step
  extended long v z b c = record {
    events = (take head_len buffer, read_metadata buffer) ∷ c.events;
    end = c.end;
    tail = c.tail;
    whole =
        append_assoc (take head_len buffer) (bytes_of c.events) c.tail
        ∙ ap (λ l. take head_len buffer ++ l) c.whole
        ∙ take-drop head_len buffer;
    framed = (
      (
        length-take head_len buffer (ground (arith, b)),
        ground (arith, b, z, length-take head_len buffer),
        v,
      ),
      c.framed,
    );
    served =
        λ S on_event s. step_served S on_event s c.events c.end long v z b (c.served S on_event);
  }

-- On fuel that is at least its length the loop over a buffer ends, and cuts it from its start without
-- a gap or an overlap into events that are as long as their headers say; whatever the handler of an
-- event does, it is called for these events, in order, up to the first error.
pub buffer_loop-Cut : (n : ℕ) (buffer : Bytes) → length buffer ≤ n → Cut n buffer
unfolding buffer_loop buffer_step
buffer_loop-Cut zero buffer h = ended zero buffer ok (λ S on_event s. ground (arith, h))
buffer_loop-Cut (suc n) buffer h = elim (Bool-cases (leb metadata_size (length buffer))) [
  | inr short ↦ ended (suc n) buffer ok (λ S on_event s. ground (arith, short))
  | inl long ↦ elim (Status-cases (validate_metadata_version (read_metadata buffer))) [
    | inr (x, v) ↦ ended (suc n) buffer (err x) (λ S on_event s. ground (arith, long, v))
    | inl v ↦ elim (Bool-cases (head_len n buffer h == 0)) [
      | inl z ↦ ended (suc n) buffer ok (λ S on_event s. ground (arith, long, v, z))
      | inr z ↦ elim (Bool-cases (bad_length n buffer h)) [
        | inl b ↦
            ended (suc n) buffer (err bad_event_length)
              (λ S on_event s. ground (arith, long, v, z, b))
        | inr b ↦ extended n buffer h long v z b (
            buffer_loop-Cut n (drop (head_len n buffer h) buffer)
              (ground (arith, length-drop (head_len n buffer h) buffer, h, z)))
      ]
    ]
  ]
]

-- The loop over a buffer ends, and cuts it from its start, without gap or overlap, into events
-- that are as long as their headers say, not empty, and of the supported version; whatever is done
-- with an event, it is done to these events, in order, up to the first error.
pub process_event_buffer-Cut :
    (identify : Identify) (io : Io) (buffer : Bytes)
    → (c : Cut (length buffer) buffer) × ((S : Type 0)
          (handle_event : EventMetadata → Option ProcessGeneration → S → Status × S) (s : S)
        → process_event_buffer identify io handle_event buffer s
          ≡ some (serve (handle_with_generation identify io handle_event) c.events c.end s))
unfolding process_event_buffer
process_event_buffer-Cut identify io buffer =
    let c = buffer_loop-Cut (length buffer) buffer (omega arith) in
    (c, λ S handle_event s. c.served S (handle_with_generation identify io handle_event) s)
