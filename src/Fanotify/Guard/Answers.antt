-- ===== src/Fanotify/Guard/Answers.antt =====
-- src/fanotify/guard.rs: what `respond_to_events` does to the events that waited for one answer.
use config_guard.Base.{
  ℕ, suc, ◌+◌, ◌≡◌, refl, Bool, true, false, ◌&&◌, List, [], ◌∷◌, ◌++◌, arith, ◌==◌, if◌then◌else◌,
  ◌⊎◌, inl, inr,
}
use config_guard.Policy.Types.{Decision}
use config_guard.Fanotify.Events.{
  Effect, respond, close, Error, Status, ok, err, Io, is_permission_event, response_code,
  respond_to_permission_event_fd, close_descriptor, respond_and_close_event,
}
use config_guard.Fanotify.Guard.Types.{PendingEvent}
use config_guard.Fanotify.Guard.Coordinator.{
  respond_to_events, respond_with_decision, respond_with_defaults,
}

-- What the kernel is to see of one event: an answer if it waits for one, then a close.
unfoldable pub answer_calls : ℕ → ℕ → Decision → List Effect
answer_calls fd mask d =
    if is_permission_event mask then respond fd (response_code d) ∷ close fd ∷ [] else close fd ∷ []

unfoldable pub all_calls : (PendingEvent → Decision) → List PendingEvent → List Effect
all_calls f [] = []
all_calls f (event ∷ events) = answer_calls event.fd event.mask (f event) ++ all_calls f events

-- Whether the kernel carries out every call of a list.
unfoldable pub carries_out : Io → List Effect → Bool
carries_out io [] = true
carries_out io (respond fd code ∷ es) = io.writes fd && carries_out io es
carries_out io (close fd ∷ es) = io.closes fd && carries_out io es

abbrev pub is_ok : Status → Bool
is_ok ok = true
is_ok (err e) = false

pub Status-cases : (s : Status) → (s ≡ ok) ⊎ ((e : Error) × (s ≡ err e))
Status-cases ok = inl refl
Status-cases (err e) = inr (e, refl)

-- The kernel carries out every response and every close.
abbrev pub CarriesAll : Io → Type 0
CarriesAll io = ((fd : ℕ) → io.writes fd ≡ true) × ((fd : ℕ) → io.closes fd ≡ true)

pub carries_out-all : (io : Io) (es : List Effect) → CarriesAll io → carries_out io es ≡ true
unfolding carries_out
carries_out-all io [] h = refl
carries_out-all io (respond fd code ∷ es) h = ground (arith, h.0 fd, carries_out-all io es h)
carries_out-all io (close fd ∷ es) h = ground (arith, h.1 fd, carries_out-all io es h)

pub carries_out-append :
    (io : Io) (xs ys : List Effect)
    → carries_out io (xs ++ ys) ≡ (carries_out io xs && carries_out io ys)
unfolding carries_out
carries_out-append io [] ys = refl
carries_out-append io (respond fd code ∷ xs) ys = ground (arith, carries_out-append io xs ys)
carries_out-append io (close fd ∷ xs) ys = ground (arith, carries_out-append io xs ys)

pub respond_and_close_event-calls :
    (io : Io) (fd mask : ℕ) (d : Decision)
    → ((respond_and_close_event io fd mask d).0 ≡ answer_calls fd mask d)
      × (is_ok (respond_and_close_event io fd mask d).1 ≡ carries_out io (answer_calls fd mask d))
unfolding respond_and_close_event respond_to_permission_event_fd close_descriptor answer_calls
    carries_out
respond_and_close_event-calls io fd mask d = ground arith

-- The loop over the events, for any way to choose the decision of each.
pub respond_to_events-calls :
    (io : Io) (f : PendingEvent → Decision) (events : List PendingEvent)
    → ((respond_to_events
          (λ event. respond_and_close_event io event.fd event.mask (f event))
          events).0
        ≡ all_calls f events)
      × (is_ok
            (respond_to_events
              (λ event. respond_and_close_event io event.fd event.mask (f event))
              events).1
          ≡ carries_out io (all_calls f events))
unfolding respond_to_events all_calls carries_out
respond_to_events-calls io f [] = (refl, refl)
respond_to_events-calls io f (event ∷ events) = ground (
  arith,
  respond_to_events-calls io f events,
  respond_and_close_event-calls io event.fd event.mask (f event),
  carries_out-append io (answer_calls event.fd event.mask (f event)) (all_calls f events),
)

-- Every event of the list is answered and closed, in order, with the one decision, whether or not
-- the kernel carries the calls out; the result is `Ok` exactly if it carries out all of them.
pub respond_with_decision-calls :
    (io : Io) (events : List PendingEvent) (d : Decision)
    → ((respond_with_decision io events d).0 ≡ all_calls (λ event. d) events)
      × (is_ok (respond_with_decision io events d).1
          ≡ carries_out io (all_calls (λ event. d) events))
unfolding respond_with_decision
respond_with_decision-calls io events d = respond_to_events-calls io (λ event. d) events

-- The same with the default decision of each event.
pub respond_with_defaults-calls :
    (io : Io) (events : List PendingEvent)
    → ((respond_with_defaults io events).0 ≡ all_calls (λ event. event.default_decision) events)
      × (is_ok (respond_with_defaults io events).1
          ≡ carries_out io (all_calls (λ event. event.default_decision) events))
unfolding respond_with_defaults
respond_with_defaults-calls io events =
    respond_to_events-calls io (λ event. event.default_decision) events

-- How often a list of calls closes a descriptor.
unfoldable pub closes_of : ℕ → List Effect → ℕ
closes_of fd [] = 0
closes_of fd (respond g code ∷ es) = closes_of fd es
closes_of fd (close g ∷ es) = if g == fd then suc (closes_of fd es) else closes_of fd es

-- How many of the events hold a descriptor.
unfoldable pub events_of : ℕ → List PendingEvent → ℕ
events_of fd [] = 0
events_of fd (event ∷ events) =
    if event.fd == fd then suc (events_of fd events) else events_of fd events

pub closes_of-append :
    (fd : ℕ) (xs ys : List Effect) → closes_of fd (xs ++ ys) ≡ closes_of fd xs + closes_of fd ys
unfolding closes_of
closes_of-append fd [] ys = omega arith
closes_of-append fd (respond g code ∷ xs) ys = closes_of-append fd xs ys
closes_of-append fd (close g ∷ xs) ys = ground (arith, closes_of-append fd xs ys)

pub closes_of-answer_calls :
    (fd g mask : ℕ) (d : Decision)
    → closes_of fd (answer_calls g mask d) ≡ (if g == fd then 1 else 0)
unfolding closes_of answer_calls
closes_of-answer_calls fd g mask d = ground arith

-- Each event is closed once.
pub closes_of-all_calls :
    (fd : ℕ) (f : PendingEvent → Decision) (events : List PendingEvent)
    → closes_of fd (all_calls f events) ≡ events_of fd events
unfolding all_calls events_of closes_of
closes_of-all_calls fd f [] = refl
closes_of-all_calls fd f (event ∷ events) = ground (
  arith,
  closes_of-all_calls fd f events,
  closes_of-append fd (answer_calls event.fd event.mask (f event)) (all_calls f events),
  closes_of-answer_calls fd event.fd event.mask (f event),
)

pub events_of-append :
    (fd : ℕ) (xs ys : List PendingEvent)
    → events_of fd (xs ++ ys) ≡ events_of fd xs + events_of fd ys
unfolding events_of
events_of-append fd [] ys = omega arith
events_of-append fd (x ∷ xs) ys = ground (arith, events_of-append fd xs ys)
