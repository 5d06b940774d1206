-- ===== src/Fanotify/Guard/Events.antt =====
-- src/fanotify/guard.rs: what becomes of one event of the guard loop.
use config_guard.Base.{
  ℕ, ◌+◌, ◌^◌, ◌<◌, ◌≡◌, refl, ◌⊎◌, inl, inr, Bool, false, List, none, some, arith, ◌==◌,
  if◌then◌else◌, Bool-cases, Option-cases,
}
use config_guard.Base.Int.{pos}
use config_guard.Std.FilePath.{FilePath}
use config_guard.Policy.Types.{Decision, allow, deny, prompt}
use config_guard.Prompt.Types.{Env, Prompt}
use config_guard.Fanotify.PromptResolution.{PromptDecisionCache, immediate_prompt_decision}
use config_guard.Fanotify.Events.{
  Error, unresolved_target, policy_failed, Io, AccessPolicy, ensure_event_descriptor, has_flag,
  fan_q_overflow, is_watched_path, close_descriptor,
}
use config_guard.Fanotify.Guard.Types.{PromptSpec, PromptCoordinator, Step}
use config_guard.Fanotify.Guard.Coordinator.{immediate_decision}
use config_guard.Fanotify.Guard.Loop.{
  Metadata, Facts, GuardEvaluation, GuardAction, respond_with, prompt_for, spec_of,
  evaluate_guard_access, prompt_spec, resolve_guard_action, Prepared, refused, panicked, prepared,
  prepare_event_action, act, handle_event,
}
use config_guard.Fanotify.Guard.Answers.{
  respond_and_close_event-calls, closes_of, closes_of-answer_calls,
}
use config_guard.Fanotify.Guard.Invariant.{IsWellFormed, queue_prompt-IsWellFormed}
use config_guard.Fanotify.Guard.Conservation.{queue_prompt-conserves}
use config_guard.Fanotify.Guard.Queued.{queued}

-- Only a question is left open, and it can then be put.
spec_of-some :
    (target : FilePath) (e : GuardEvaluation) (env : Env) (p : Prompt) (c : PromptCoordinator)
    (d : Decision)
    → (immediate_decision c p e.prompt_key e.authorization env d).0 ≡ none
    → (spec : PromptSpec) × (spec_of target e env d ≡ some spec)
unfolding immediate_decision immediate_prompt_decision spec_of
spec_of-some target e env p c allow h = cc
spec_of-some target e env p c deny h = cc
spec_of-some target e env p c (prompt r d s) h = (_, refl)

resolve_guard_action-some :
    (target : FilePath) (e : GuardEvaluation) (env : Env) (p : Prompt) (c : PromptCoordinator)
    → (a : GuardAction) × ((resolve_guard_action target e env p c).0 ≡ some a)
unfolding resolve_guard_action prompt_spec
resolve_guard_action-some target e env p c =
    elim (Option-cases
      (immediate_decision c p e.prompt_key e.authorization env e.policy_decision).0) [
        | inl h ↦
            let (spec, s) = spec_of-some target e env p c e.policy_decision h in
            (prompt_for spec, ground (arith, h, s))
        | inr (d, h) ↦ (respond_with d, ground (arith, h))
      ]

-- An action changes the answers that are kept alone.
resolve_guard_action-state :
    (target : FilePath) (e : GuardEvaluation) (env : Env) (p : Prompt) (c : PromptCoordinator)
    → (cache : PromptDecisionCache) × ((resolve_guard_action target e env p c).1
        ≡ record c { prompt_cache = cache })
unfolding resolve_guard_action immediate_decision
resolve_guard_action-state target e env p c =
    let now = immediate_decision c p e.prompt_key e.authorization env e.policy_decision in
    elim (Option-cases now.0) [
      | inl h ↦ (now.1.prompt_cache, ground (arith, h))
      | inr (d, h) ↦ (now.1.prompt_cache, ground (arith, h))
    ]

module _ (paths excluded_paths : List FilePath) (policy : AccessPolicy) (p : Prompt) (m : Metadata)
    (facts : Facts) where
  -- Preparation does not panic.
  prepare_event_action-result :
      (c : PromptCoordinator)
      → ((a : GuardAction) × ((prepare_event_action m facts paths excluded_paths policy p c).0
            ≡ prepared a))
        ⊎ ((e : Error) × ((prepare_event_action m facts paths excluded_paths policy p c).0
              ≡ refused e))
  unfolding prepare_event_action
  prepare_event_action-result c = elim (Option-cases facts.target) [
    | inl h ↦ inr (unresolved_target, ground (arith, h))
    | inr (target, h) ↦ elim (Bool-cases (is_watched_path target paths excluded_paths)) [
      | inr w ↦ inl (respond_with allow, ground (arith, h, w))
      | inl w ↦ elim (Option-cases (evaluate_guard_access policy m facts target)) [
        | inl n ↦ inr (policy_failed, ground (arith, h, w, n))
        | inr (e, n) ↦
            let (a, r) = resolve_guard_action-some target e facts.env p c in
            inl (a, ground (arith, h, w, n, r))
      ]
    ]
  ]

  pub prepare_event_action-panicked :
      (c : PromptCoordinator)
      → ¬ ((prepare_event_action m facts paths excluded_paths policy p c).0 ≡ panicked)
  prepare_event_action-panicked c h = elim (prepare_event_action-result c) [
    | inl (a, e) ↦ cc
    | inr (a, e) ↦ cc
  ]

  -- It changes the answers that are kept alone.
  pub prepare_event_action-state :
      (c : PromptCoordinator)
      → (cache : PromptDecisionCache) × ((prepare_event_action m facts paths excluded_paths policy p
            c).1
          ≡ record c { prompt_cache = cache })
  unfolding prepare_event_action
  prepare_event_action-state c = elim (Option-cases facts.target) [
    | inl h ↦ (c.prompt_cache, ground (arith, h))
    | inr (target, h) ↦ elim (Bool-cases (is_watched_path target paths excluded_paths)) [
      | inr w ↦ (c.prompt_cache, ground (arith, h, w))
      | inl w ↦ elim (Option-cases (evaluate_guard_access policy m facts target)) [
        | inl n ↦ (c.prompt_cache, ground (arith, h, w, n))
        | inr (e, n) ↦
            let (cache, r) = resolve_guard_action-state target e facts.env p c in
            (cache, ground (arith, h, w, n, r))
      ]
    ]
  ]

-- What an event leaves: a well-formed coordinator, and its descriptor either closed once or waiting.
abbrev pub IsSettled : PromptCoordinator → ℕ → Step → Type 0
IsSettled c fd s =
    IsWellFormed s.state
    × ((g : ℕ)
        → queued g s.state.pending + closes_of g s.effects
          ≡ queued g c.pending + (if fd == g then 1 else 0))

pub cached-IsWellFormed :
    (c : PromptCoordinator) (cache : PromptDecisionCache)
    → IsWellFormed c
    → IsWellFormed (record c { prompt_cache = cache })
cached-IsWellFormed c cache i = record {
  fresh = i.fresh;
  bounded = i.bounded;
  distinct = i.distinct;
  tables = i.tables;
}

-- A prepared action is carried out; the hypothesis on the numbers is for a question alone.
pub act-IsSettled :
    (io : Io) (alive : Bool) (fd mask : ℕ) (c : PromptCoordinator) (a : Prepared)
    → IsWellFormed c
    → c.next_id + 1 < 2 ^ 64
    → ¬ (a ≡ panicked)
    → (s : Step) × (act io alive fd mask (a, c) ≡ some s) × IsSettled c fd s
unfolding act close_descriptor closes_of
act-IsSettled io alive fd mask c (prepared (respond_with d)) i small n = (
  _,
  refl,
  (
    i,
    λ g.
        rw ((respond_and_close_event-calls io fd mask d).0)
          (omega (arith, closes_of-answer_calls g fd mask d)),
  ),
)
act-IsSettled io alive fd mask c (prepared (prompt_for spec)) i small n = (
  _,
  refl,
  (
    queue_prompt-IsWellFormed c i io alive fd mask spec,
    λ g. queue_prompt-conserves io c i g alive fd mask spec small,
  ),
)
act-IsSettled io alive fd mask c (refused e) i small n = (_, refl, (i, λ g. ground arith))
act-IsSettled io alive fd mask c panicked i small n = absurd (n refl)

module _ (paths excluded_paths : List FilePath) (policy : AccessPolicy) (p : Prompt) (io : Io)
    (alive : Bool) (m : Metadata) (facts : Facts) where
  -- An event with a descriptor gets the action that is prepared for it.
  pub handle_event-act :
      (c : PromptCoordinator) (fd : ℕ)
      → m.fd ≡ pos fd
      → has_flag m.mask fan_q_overflow ≡ false
      → handle_event paths excluded_paths policy p io alive m facts c
        ≡ act io alive fd m.mask (prepare_event_action m facts paths excluded_paths policy p c)
  unfolding handle_event ensure_event_descriptor
  handle_event-act c fd e h = ground (arith, e, h)

  -- An event with a valid descriptor, of a queue that has not overflowed, at a well-formed
  -- coordinator that has request numbers left, is handled without a panic, whatever procfs, the
  -- policy and the kernel say. The coordinator stays well-formed, and the event's descriptor is
  -- closed once or waits once more; for every other descriptor the closes are balanced by the
  -- waiting events.
  pub handle_event-IsSettled :
      (c : PromptCoordinator) (fd : ℕ)
      → m.fd ≡ pos fd
      → has_flag m.mask fan_q_overflow ≡ false
      → IsWellFormed c
      → c.next_id + 1 < 2 ^ 64
      → (s : Step) × (handle_event paths excluded_paths policy p io alive m facts c ≡ some s)
        × IsSettled c fd s
  handle_event-IsSettled c fd e h i small =
      let r = prepare_event_action m facts paths excluded_paths policy p c in
      let (cache, q) = prepare_event_action-state paths excluded_paths policy p m facts c in
      let (s, t, v) =
        act-IsSettled io alive fd m.mask (record c { prompt_cache = cache }) r.0
          (cached-IsWellFormed c cache i) small
          (prepare_event_action-panicked paths excluded_paths policy p m facts c) in
      (s, ground (arith, handle_event-act c fd e h, q, t), v)
