-- ===== src/Fanotify/Guard/Poll.antt =====
-- src/fanotify/guard.rs: what `poll` reports, and the event loop.
use Prim.Native.Nat.{bit_or}
use config_guard.Base.{ℕ, Bool, List, [], ◌∷◌, ◌++◌, Option, none, some, if◌then◌else◌}
use config_guard.Std.FilePath.{FilePath}
use config_guard.Prompt.Types.{Prompt}
use config_guard.Fanotify.Events.{Status, ok, err, poll_failed, Io, AccessPolicy, has_flag}
use config_guard.Fanotify.Guard.Types.{PromptCompletion, PromptCoordinator, Step}
use config_guard.Fanotify.Guard.Coordinator.{WakeRead, process_completions}
use config_guard.Fanotify.Guard.Loop.{Metadata, Facts, handle_event}

pub record GuardActivity : Type 0 where
  pub fanotify_ready : Bool
  pub prompt_ready : Bool
  pub prompt_worker_closed : Bool

abbrev pub pollin : ℕ
pollin = 1

abbrev pub pollerr : ℕ
pollerr = 8

abbrev pub pollhup : ℕ
pollhup = 16

abbrev pub pollnval : ℕ
pollnval = 32

unfoldable pub reject_poll_errors : ℕ → Status
reject_poll_errors revents =
    if has_flag revents (bit_or pollerr pollnval) then err poll_failed else ok

-- The part of `wait_for_activity` that follows a `poll` that succeeds: the flags of the fanotify
-- descriptor, then those of the wake socket. `none` for an error.
unfoldable pub wait_for_activity : ℕ → ℕ → Option GuardActivity
wait_for_activity fanotify wake = elim (reject_poll_errors fanotify) [
  | err e ↦ none
  | ok ↦ elim (reject_poll_errors wake) [
    | err e ↦ none
    | ok ↦ some (record {
      fanotify_ready = has_flag fanotify pollin;
      prompt_ready = has_flag wake (bit_or pollin pollhup);
      prompt_worker_closed = has_flag wake pollhup;
    })
  ]
]

-- An event of a batch, with what procfs, the worker, the kernel, the policy and the user answer at that time.
pub record Arrival : Type 0 where
  pub metadata : Metadata
  pub facts : Facts
  pub worker_alive : Bool
  pub io : Io
  pub policy : AccessPolicy
  pub user : Prompt

-- What one turn of the loop meets: the flags, what the wake socket and the completion channel hold,
-- the kernel's answers about them, the events that `read_event_batch` finds, and whether it ends after them by an
-- error, of the read or of the buffer's form.
pub record Turn : Type 0 where
  pub fanotify_revents : ℕ
  pub wake_revents : ℕ
  pub reads : List WakeRead
  pub completions : List PromptCompletion
  pub disconnected : Bool
  pub io : Io
  pub batch : List Arrival
  pub batch_status : Status

-- `?`: an error ends the turn, and a panic is `none`.
abbrev pub followed_by : Step → Option Step → Option Step
followed_by s none = elim s.status [ err e ↦ some s | ok ↦ none ]
followed_by s (some t) = elim s.status [
  | err e ↦ some s
  | ok ↦ some (record { state = t.state; effects = s.effects ++ t.effects; status = t.status })
]

module _ (paths excluded_paths : List FilePath) where
  unfoldable pub handle_batch : Status → List Arrival → PromptCoordinator → Option Step
  handle_batch end [] c = some (record { state = c; effects = []; status = end })
  handle_batch end (e ∷ events) c =
      elim (handle_event paths excluded_paths e.policy e.user e.io e.worker_alive e.metadata e.facts
        c) [
          | none ↦ none
          | some s ↦ let rest = handle_batch end events s.state in followed_by s rest
        ]

  unfoldable pub completions_turn : GuardActivity → Turn → PromptCoordinator → Step
  completions_turn a t c =
      if a.prompt_ready
      then process_completions t.io c a.prompt_worker_closed t.reads t.completions t.disconnected
      else record { state = c; effects = []; status = ok }

  unfoldable pub events_turn : GuardActivity → Turn → PromptCoordinator → Option Step
  events_turn a t c =
      if a.fanotify_ready
      then handle_batch t.batch_status t.batch c
      else some (record { state = c; effects = []; status = ok })

  -- The body of the `loop`.
  unfoldable pub turn : Turn → PromptCoordinator → Option Step
  unfolding completions_turn events_turn
  turn t c = elim (wait_for_activity t.fanotify_revents t.wake_revents) [
    | none ↦ some (record { state = c; effects = []; status = err poll_failed })
    | some a ↦ let s = completions_turn a t c in followed_by s (events_turn a t s.state)
  ]

  -- The turns up to the first error; the loop ends by nothing else.
  unfoldable pub run_event_loop : List Turn → PromptCoordinator → Option Step
  run_event_loop [] c = some (record { state = c; effects = []; status = ok })
  run_event_loop (t ∷ turns) c = elim (turn t c) [
    | none ↦ none
    | some s ↦ let rest = run_event_loop turns s.state in followed_by s rest
  ]
