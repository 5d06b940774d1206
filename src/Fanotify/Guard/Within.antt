-- ===== src/Fanotify/Guard/Within.antt =====
-- src/fanotify/guard.rs: what the answers of the worker and a question may add and close.
use config_guard.Base.{
  ℕ, ◌+◌, ◌≤◌, ◌≡◌, refl, inl, inr, Bool, List, [], ◌∷◌, ◌++◌, Option, some, arith, ◌||◌, ◌==◌,
  if◌then◌else◌, Bool-cases, Option-cases,
}
use config_guard.Base.Int.{ℤ, pos, negsuc}
use config_guard.Fanotify.Events.{Io}
use config_guard.Fanotify.Guard.Types.{PromptSpec, PromptCoordinator, Step, PromptId, PendingPrompt}
use config_guard.Std.Map.{Map, get}
use config_guard.Fanotify.Guard.Coordinator.{
  queue_prompt, fail_each, fail_pending_prompts, drain_completion_channel, drain_wake_reader,
  fail_after, process_completions, respond_with_defaults,
}
use config_guard.Fanotify.Guard.Poll.{Arrival, Turn, followed_by}
use config_guard.Fanotify.Guard.Answers.{closes_of, closes_of-append, Status-cases}
use config_guard.Fanotify.Guard.Tables.{new-AreLinked}
use config_guard.Fanotify.Guard.Invariant.{IsWellFormed, queue_prompt-IsWellFormed}
use config_guard.Fanotify.Guard.Conservation.{
  queue_prompt-within, drain_completion_channel-conserves,
}
use config_guard.Fanotify.Guard.Queued.{queued, closes-respond_with_defaults}

-- What part of the loop leaves, when it has been given a number of events of each descriptor: a
-- well-formed coordinator, and no descriptor waits or is closed more often than it was given.
abbrev pub IsWithin : (ℕ → ℕ) → PromptCoordinator → Step → Type 0
IsWithin given c s =
    IsWellFormed s.state
    × ((g : ℕ) → queued g s.state.pending + closes_of g s.effects ≤ queued g c.pending + given g)

abbrev pub nothing : ℕ → ℕ
nothing g = 0

abbrev pub one : ℕ → ℕ → ℕ
one fd g = if fd == g then 1 else 0

abbrev pub arrives : ℤ → ℕ → ℕ
arrives (negsuc n) g = 0
arrives (pos fd) g = one fd g

-- How many events of a batch have a descriptor.
unfoldable pub arrivals : List Arrival → ℕ → ℕ
arrivals [] g = 0
arrivals (e ∷ events) g = arrives e.metadata.fd g + arrivals events g

unfoldable pub all_arrivals : List Turn → ℕ → ℕ
all_arrivals [] g = 0
all_arrivals (t ∷ turns) g = arrivals t.batch g + all_arrivals turns g

-- One step after another, for what both are given.
pub followed_by-IsWithin :
    (a b : ℕ → ℕ) (c : PromptCoordinator) (s : Step) (o : Option Step)
    → IsWithin a c s
    → ((t : Step) × (o ≡ some t) × IsWithin b s.state t)
    → (t : Step) × (followed_by s o ≡ some t) × IsWithin (λ g. a g + b g) c t
followed_by-IsWithin a b c s o u (t, q, v) = elim (Status-cases s.status) [
  | inl e ↦ (
    record { state = t.state; effects = s.effects ++ t.effects; status = t.status },
    rw (q, e) refl,
    (v.0, λ g. omega (arith, u.1 g, v.1 g, closes_of-append g s.effects t.effects)),
  )
  | inr (x, e) ↦ (s, rw (q, e) refl, (u.0, λ g. omega (arith, u.1 g)))
]

-- The fallback leaves nothing waiting.
fail_each-closes :
    (io : Io) (m : Map PromptId PendingPrompt) (g : ℕ) → closes_of g (fail_each io m).0 ≤ queued g m
unfolding fail_each queued closes_of
fail_each-closes io [] g = omega arith
fail_each-closes io ((id, w) ∷ m) g = ground (
  arith,
  fail_each-closes io m g,
  closes-respond_with_defaults g io w.events,
  closes_of-append g (respond_with_defaults io w.events).0 (fail_each io m).0,
)

fail_pending_prompts-IsWithin :
    (io : Io) (c : PromptCoordinator)
    → IsWellFormed c
    → IsWithin nothing c (fail_pending_prompts io c)
unfolding fail_pending_prompts get queued
fail_pending_prompts-IsWithin io c i = (
  record { fresh = λ id w h. cc; bounded = i.bounded; distinct = tt; tables = new-AreLinked },
  λ g. omega (arith, fail_each-closes io c.pending g),
)

drain-IsWithin :
    (io : Io) (c : PromptCoordinator) (xs : List _) (disconnected : Bool)
    → IsWellFormed c
    → IsWithin nothing c (drain_completion_channel io c xs disconnected).0
drain-IsWithin io c xs disconnected i = (
  (drain_completion_channel-conserves io c xs disconnected 0 i).0,
  λ g. let r = drain_completion_channel-conserves io c xs disconnected g i in omega (arith, r.1),
)

fail_after-IsWithin :
    (io : Io) (hint : Bool) (c : PromptCoordinator) (r : Step × Bool)
    → IsWithin nothing c r.0
    → IsWithin nothing c (fail_after io hint r)
unfolding fail_after
fail_after-IsWithin io hint c r u = elim (Status-cases r.0.status) [
  | inr (x, e) ↦ rw (e, fail_after) u
  | inl e ↦ elim (Bool-cases (hint || r.1)) [
    | inr n ↦ rw (e, fail_after, n) u
    | inl y ↦
        let v = fail_pending_prompts-IsWithin io r.0.state u.0 in
        rw (e, fail_after, y)
          (
            v.0,
            λ g. omega (
              arith,
              u.1 g,
              v.1 g,
              closes_of-append g r.0.effects (fail_pending_prompts io r.0.state).effects,
            ),
          )
  ]
]

pub process_completions-IsWithin :
    (io : Io) (c : PromptCoordinator) (hint : Bool) (reads : List _) (xs : List _)
    (disconnected : Bool)
    → IsWellFormed c
    → IsWithin nothing c (process_completions io c hint reads xs disconnected)
unfolding process_completions closes_of
process_completions-IsWithin io c hint reads xs disconnected i =
    elim (Option-cases (drain_wake_reader reads)) [
      | inl e ↦ rw (e, process_completions, closes_of) (i, λ g. omega arith)
      | inr (b, e) ↦
          rw (e, process_completions)
            (fail_after-IsWithin io (hint || b) c (drain_completion_channel io c xs disconnected)
              (drain-IsWithin io c xs disconnected i))
    ]

-- Also when the numbers are used up.
pub queue_prompt-IsWithin :
    (io : Io) (alive : Bool) (c : PromptCoordinator) (fd mask : ℕ) (spec : PromptSpec)
    → IsWellFormed c
    → IsWithin (one fd) c (queue_prompt io alive c fd mask spec)
queue_prompt-IsWithin io alive c fd mask spec i = (
  queue_prompt-IsWellFormed c i io alive fd mask spec,
  λ g. queue_prompt-within io c i g alive fd mask spec,
)
