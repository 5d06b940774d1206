-- ===== src/Fanotify/Guard/Queued.antt =====
-- src/fanotify/guard.rs: the waiting events, counted by descriptor.
use config_guard.Base.{
  ℕ, ◌+◌, ◌≡◌, refl, List, [], ◌∷◌, ◌++◌, Option, none, some, arith, nat_eq, ==_iff,
}
use config_guard.Std.Map.{Map, get, insert, remove}
use config_guard.Std.Distinct.{IsDistinct, remove_absent}
use config_guard.Fanotify.PromptResolution.{PromptOutcome, answer, failure}
use config_guard.Policy.Types.{Decision}
use config_guard.Fanotify.Events.{Io}
use config_guard.Fanotify.Guard.Types.{PromptId, PendingEvent, PendingPrompt, PromptCoordinator}
use config_guard.Fanotify.Guard.Coordinator.{
  remove_pending_key, finish, respond_with_decision, respond_with_defaults,
}
use config_guard.Fanotify.Guard.Answers.{
  respond_with_decision-calls, respond_with_defaults-calls, closes_of, events_of,
  closes_of-all_calls,
}

-- How many waiting events hold a descriptor.
unfoldable pub queued : ℕ → Map PromptId PendingPrompt → ℕ
queued fd [] = 0
queued fd ((id, w) ∷ m) = events_of fd w.events + queued fd m

pub queued-append :
    (fd : ℕ) (id : PromptId) (w : PendingPrompt) (m : Map PromptId PendingPrompt)
    → queued fd (m ++ (id, w) ∷ []) ≡ queued fd m + events_of fd w.events
unfolding queued
queued-append fd id w [] = omega arith
queued-append fd id w ((j, v) ∷ m) = omega (arith, queued-append fd id w m)

pub queued-update :
    (fd : ℕ) (id : PromptId) (w v : PendingPrompt) (m : Map PromptId PendingPrompt)
    → get id m ≡ some v
    → queued fd (insert id w m) + events_of fd v.events ≡ queued fd m + events_of fd w.events
unfolding queued get insert
queued-update fd id w v [] h = cc
queued-update fd id w v ((j, u) ∷ m) h = ground (arith, queued-update fd id w v m)

pub queued-remove :
    (fd : ℕ) (id : PromptId) (v : PendingPrompt) (m : Map PromptId PendingPrompt)
    → IsDistinct m
    → get id m ≡ some v
    → queued fd (remove id m) + events_of fd v.events ≡ queued fd m
unfolding queued get remove
queued-remove fd id v [] d h = cc
queued-remove fd id v ((j, u) ∷ m) d h =
    ground (arith, queued-remove fd id v m d.1, remove_absent id m, ==_iff j id)

pub closes-respond_with_decision :
    (fd : ℕ) (io : Io) (events : List PendingEvent) (d : Decision)
    → closes_of fd (respond_with_decision io events d).0 ≡ events_of fd events
closes-respond_with_decision fd io events d =
    rw ((respond_with_decision-calls io events d).0) (closes_of-all_calls fd (λ event. d) events)

pub closes-respond_with_defaults :
    (fd : ℕ) (io : Io) (events : List PendingEvent)
    → closes_of fd (respond_with_defaults io events).0 ≡ events_of fd events
closes-respond_with_defaults fd io events =
    rw ((respond_with_defaults-calls io events).0)
      (closes_of-all_calls fd (λ event. event.default_decision) events)

pub closes-finish :
    (fd : ℕ) (io : Io) (c : PromptCoordinator) (w : PendingPrompt) (o : PromptOutcome)
    → (closes_of fd (finish io c w o).effects ≡ events_of fd w.events)
      × ((finish io c w o).state.pending ≡ c.pending)
unfolding finish
closes-finish fd io c w (answer d explicit) = (closes-respond_with_decision fd io w.events d, refl)
closes-finish fd io c w failure = (closes-respond_with_defaults fd io w.events, refl)

pub remove_pending_key-pending :
    (c : PromptCoordinator) (id : PromptId) (key : Option _)
    → (remove_pending_key c id key).0.pending ≡ c.pending
unfolding remove_pending_key
remove_pending_key-pending c id none = refl
remove_pending_key-pending c id (some k) = refl
