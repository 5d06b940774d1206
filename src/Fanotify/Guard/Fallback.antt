-- ===== src/Fanotify/Guard/Fallback.antt =====
-- src/fanotify/guard.rs: what becomes of the waiting events when the worker stops.
use config_guard.Base.{ℕ, ◌≡◌, refl, true, [], ◌∷◌, arith, inl, inr, nat_eq}
use config_guard.Std.Map.{Map}
use config_guard.Fanotify.Events.{ok, err, worker_stopped, Io}
use config_guard.Fanotify.Guard.Types.{PromptId, PendingPrompt, PromptCoordinator}
use config_guard.Fanotify.Guard.Coordinator.{fail_each, fail_pending_prompts, respond_with_defaults}
use config_guard.Fanotify.Guard.Answers.{
  is_ok, Status-cases, CarriesAll, carries_out-all, respond_with_defaults-calls, closes_of,
  closes_of-append,
}
use config_guard.Fanotify.Guard.Queued.{queued, closes-respond_with_defaults}

fail_each-conserves :
    (io : Io) (m : Map PromptId PendingPrompt) (fd : ℕ)
    → CarriesAll io
    → ((fail_each io m).1 ≡ ok) × (closes_of fd (fail_each io m).0 ≡ queued fd m)
unfolding fail_each queued closes_of
fail_each-conserves io [] fd h = (refl, refl)
fail_each-conserves io ((id, w) ∷ m) fd h =
    let all : is_ok (respond_with_defaults io w.events).1 ≡ true =
      rw ((respond_with_defaults-calls io w.events).1) (carries_out-all io _ h) in
    let rest = fail_each-conserves io m fd h in
    elim (Status-cases (respond_with_defaults io w.events).1) [
      | inl e ↦
          rw (e, fail_each)
            (
              rest.0,
              omega (
                arith,
                rest.1,
                closes-respond_with_defaults fd io w.events,
                closes_of-append fd (respond_with_defaults io w.events).0 (fail_each io m).0,
              ),
            )
      | inr (e, h') ↦ ground arith
    ]

-- When the worker has stopped, every waiting event is closed, provided that the kernel carries out
-- all calls; no prompt waits any longer, and the result is the error of the stopped worker.
pub fail_pending_prompts-conserves :
    (io : Io) (c : PromptCoordinator) (fd : ℕ)
    → CarriesAll io
    → (closes_of fd (fail_pending_prompts io c).effects ≡ queued fd c.pending)
      × ((fail_pending_prompts io c).state.pending ≡ [])
      × ((fail_pending_prompts io c).status ≡ err worker_stopped)
unfolding fail_pending_prompts
fail_pending_prompts-conserves io c fd h =
    let r = fail_each-conserves io c.pending fd h in (r.1, refl, ground (arith, r.0))
