-- ===== src/Fanotify/Guard/Invariant.antt =====
-- src/fanotify/guard.rs: the invariant of `PromptCoordinator`, and that its operations keep it.
use config_guard.Base.{
  ℕ, ◌+◌, ◌^◌, ◌<◌, ◌≡◌, refl, Bool, true, false, [], ◌∷◌, ◌++◌, Option, none, some, arith, ◌==◌,
  and_then, inl, inr, Bool-cases, Option-cases, nat_eq, ==_iff,
}
use config_guard.Std.Map.{Map, get, insert, remove, get-insert, get-remove}
use config_guard.Std.Distinct.{IsDistinct, remove-IsDistinct, insert_new, append-IsDistinct}
use config_guard.Fanotify.PromptResolution.Key.{PromptDecisionKey, prompt_key_eq}
use config_guard.Fanotify.PromptResolution.{PromptDecisionCache, PromptOutcome, answer, failure}
use config_guard.Fanotify.Events.{Io}
use config_guard.Fanotify.Guard.Types.{
  PromptId, PromptJob, PromptCompletion, PendingEvent, PendingPrompt, PromptSpec, PromptCoordinator,
}
use config_guard.Fanotify.Guard.Coordinator.{
  new, pending_prompt_id, append_pending_event, allocate_id, insert_key, send_prompt_job,
  start_prompt, queue_prompt, remove_pending_key, finish, complete_prompt,
}
use config_guard.Fanotify.Guard.Tables.{
  AreLinked, new-AreLinked, update-AreLinked, unkeyed-AreLinked, keyed-AreLinked,
  remove_unkeyed-AreLinked, remove_keyed-AreLinked,
}

-- Numbers below the next one, each once, and the two tables in agreement.
pub record IsWellFormed (c : PromptCoordinator) : Type 0 where
  pub fresh : (id : PromptId) (w : PendingPrompt) → get id c.pending ≡ some w → id < c.next_id
  pub bounded : c.next_id < 2 ^ 64
  pub distinct : IsDistinct c.pending
  pub tables : AreLinked c.pending c.pending_by_key

-- A value for a key that is there does not make one stand twice.
pub update-IsDistinct :
    (id : PromptId) (w v : PendingPrompt) (m : Map PromptId PendingPrompt)
    → IsDistinct m
    → get id m ≡ some v
    → IsDistinct (insert id w m)
unfolding get insert
update-IsDistinct id w v [] d h = cc
update-IsDistinct id w v ((j, u) ∷ m) d h = elim (Bool-cases (j == id)) [
  | inl q ↦ rw (q, insert) d
  | inr q ↦
      rw (q, insert)
        (
          ground (arith, get-insert id j w m, ==_iff id j),
          update-IsDistinct id w v m d.1 (ground arith),
        )
]

-- A new coordinator is well-formed.
pub new-IsWellFormed : (cache : PromptDecisionCache) → IsWellFormed (new cache)
unfolding new get
new-IsWellFormed cache = record {
  fresh = λ id w h. cc;
  bounded = omega arith;
  distinct = tt;
  tables = new-AreLinked;
}

module _ (c : PromptCoordinator) (i : IsWellFormed c) where
  -- The number of the next prompt is free.
  pub next_id_free : get c.next_id c.pending ≡ none
  next_id_free = elim (Option-cases (get c.next_id c.pending)) [
    | inl e ↦ e
    | inr (w, e) ↦ ground (arith, i.fresh c.next_id w e)
  ]

  -- The prompt that a key leads to waits, and has that key.
  pub pending_prompt_id-waits :
      (key : Option PromptDecisionKey) (id : PromptId)
      → pending_prompt_id c key ≡ some id
      → (w : PendingPrompt) × (get id c.pending ≡ some w)
  unfolding pending_prompt_id
  pending_prompt_id-waits none id h = cc
  pending_prompt_id-waits (some k) id h = let (w, k', g, _, _) = i.tables.known k id h in (w, g)

  pub append_pending_event-IsWellFormed :
      (id : PromptId) (event : PendingEvent) → IsWellFormed (append_pending_event c id event).state
  unfolding append_pending_event
  append_pending_event-IsWellFormed id event = elim (Option-cases (get id c.pending)) [
    | inl e ↦ rw (e, append_pending_event) i
    | inr (w, e) ↦
        let w' : PendingPrompt = record w { events = w.events ++ event ∷ [] } in
        rw (e, append_pending_event)
          (record {
            fresh = λ j v g.
                ground
                  (arith, get-insert id j w' c.pending, i.fresh id w e, i.fresh j v, ==_iff id j);
            bounded = i.bounded;
            distinct = update-IsDistinct id w' w c.pending i.distinct e;
            tables = update-AreLinked c.pending c.pending_by_key i.tables id w w' e refl;
          })
  ]

  -- What a new prompt does to the tables.
  start-AreLinked :
      (w : PendingPrompt) (key : Option PromptDecisionKey)
      → w.key ≡ key
      → and_then key (λ k. get k c.pending_by_key) ≡ none
      → AreLinked (insert c.next_id w c.pending) (insert_key key c.next_id c.pending_by_key)
  unfolding insert_key
  start-AreLinked w none e h =
      unkeyed-AreLinked c.pending c.pending_by_key i.tables c.next_id w next_id_free e
  start-AreLinked w (some k) e h =
      keyed-AreLinked c.pending c.pending_by_key i.tables c.next_id w k next_id_free e h

  module _ (small : c.next_id + 1 < 2 ^ 64) where
    counted-IsWellFormed : IsWellFormed (record c { next_id = c.next_id + 1 })
    counted-IsWellFormed = record {
      fresh = λ j v g. ground (arith, i.fresh j v g);
      bounded = small;
      distinct = i.distinct;
      tables = i.tables;
    }

    -- The worker has got the job of a prompt whose key no waiting prompt has, or is gone.
    sent-IsWellFormed :
        (io : Io) (alive : Bool) (event : PendingEvent) (job : PromptJob)
        → job.id ≡ c.next_id
        → pending_prompt_id c job.key ≡ none
        → IsWellFormed
            (send_prompt_job io alive (record c { next_id = c.next_id + 1 }) event job).state
    unfolding send_prompt_job pending_prompt_id
    sent-IsWellFormed io false event job e h = counted-IsWellFormed
    sent-IsWellFormed io true event job e h =
        let w : PendingPrompt = record {
          key = job.key;
          authorization = job.authorization;
          events = event ∷ [];
        } in
        rw (e) (record {
          fresh = λ j v g.
              ground (arith, get-insert c.next_id j w c.pending, i.fresh j v, ==_iff c.next_id j);
          bounded = small;
          distinct =
              rw (insert_new c.next_id w c.pending next_id_free)
                (append-IsDistinct c.next_id w c.pending i.distinct next_id_free);
          tables = start-AreLinked w job.key refl h;
        })

  pub start_prompt-IsWellFormed :
      (io : Io) (alive : Bool) (fd mask : ℕ) (spec : PromptSpec)
      → pending_prompt_id c spec.key ≡ none
      → IsWellFormed (start_prompt io alive c fd mask spec).state
  unfolding start_prompt allocate_id
  start_prompt-IsWellFormed io alive fd mask spec h = elim (Bool-cases (c.next_id + 1 == 2 ^ 64)) [
    | inl e ↦ rw (e, start_prompt, allocate_id) i
    | inr e ↦
        let small : c.next_id + 1 < 2 ^ 64 = ground (arith, i.bounded) in
        rw (e, start_prompt, allocate_id) (sent-IsWellFormed small io alive _ _ refl h)
  ]

  -- A question for an event keeps the coordinator well-formed (numbers below the next one and that
  -- below 2^64, each once, the tables by number and by key in agreement), whether or not its key
  -- is already asked about, whether or not the worker is alive, and also when the numbers are used
  -- up.
  pub queue_prompt-IsWellFormed :
      (io : Io) (alive : Bool) (fd mask : ℕ) (spec : PromptSpec)
      → IsWellFormed (queue_prompt io alive c fd mask spec).state
  unfolding queue_prompt
  queue_prompt-IsWellFormed io alive fd mask spec =
      elim (Option-cases (pending_prompt_id c spec.key)) [
        | inl e ↦ rw (e, queue_prompt) (start_prompt-IsWellFormed io alive fd mask spec e)
        | inr (id, e) ↦ rw (e, queue_prompt) (append_pending_event-IsWellFormed id _)
      ]

  -- An answer finds its prompt under its key, and takes it out of both tables.
  module _ (id : PromptId) (w : PendingPrompt) (h : get id c.pending ≡ some w) where
    ended-IsWellFormed :
        (by_key : Map PromptDecisionKey PromptId)
        → AreLinked (remove id c.pending) by_key
        → IsWellFormed (record c { pending = remove id c.pending; pending_by_key = by_key })
    ended-IsWellFormed by_key l = record {
      fresh = λ j v g. ground (arith, get-remove id j c.pending, i.fresh j v);
      bounded = i.bounded;
      distinct = remove-IsDistinct id c.pending i.distinct;
      tables = l;
    }

    pub remove_pending_key-IsWellFormed :
        (key : Option PromptDecisionKey)
        → w.key ≡ key
        → ((remove_pending_key (record c { pending = remove id c.pending }) id key).1 ≡ true)
          × IsWellFormed (remove_pending_key (record c { pending = remove id c.pending }) id key).0
    unfolding remove_pending_key
    remove_pending_key-IsWellFormed none e = (
      refl,
      ended-IsWellFormed c.pending_by_key
          (remove_unkeyed-AreLinked c.pending c.pending_by_key i.tables id w h e),
    )
    remove_pending_key-IsWellFormed (some k) e = (
      ground (arith, i.tables.linked id w k h e),
      ended-IsWellFormed (remove k c.pending_by_key)
          (remove_keyed-AreLinked c.pending c.pending_by_key i.tables id w k h e),
    )

pub finish-IsWellFormed :
    (io : Io) (c : PromptCoordinator) (w : PendingPrompt) (o : PromptOutcome)
    → IsWellFormed c
    → IsWellFormed (finish io c w o).state
unfolding finish
finish-IsWellFormed io c w (answer d explicit) i = record {
  fresh = i.fresh;
  bounded = i.bounded;
  distinct = i.distinct;
  tables = i.tables;
}
finish-IsWellFormed io c w failure i = i

-- The answer to a waiting prompt is carried out: the mismatch of the key map cannot occur.
pub complete_prompt-finish :
    (io : Io) (c : PromptCoordinator) (completion : PromptCompletion) (w : PendingPrompt)
    → IsWellFormed c
    → get completion.id c.pending ≡ some w
    → complete_prompt io c completion
      ≡ finish io
          (remove_pending_key
            (record c { pending = remove completion.id c.pending })
            completion.id
            w.key).0
          w
          completion.outcome
unfolding complete_prompt
complete_prompt-finish io c completion w i h =
    let r = remove_pending_key-IsWellFormed c i completion.id w h w.key refl in
    ground (arith, h, r.0)

-- A completion keeps the coordinator well-formed, also that of a prompt that does not wait.
pub complete_prompt-IsWellFormed :
    (io : Io) (c : PromptCoordinator) (completion : PromptCompletion)
    → IsWellFormed c
    → IsWellFormed (complete_prompt io c completion).state
unfolding complete_prompt
complete_prompt-IsWellFormed io c completion i = elim (Option-cases (get completion.id c.pending)) [
  | inl e ↦ rw (e, complete_prompt) i
  | inr (w, e) ↦ rw (complete_prompt-finish io c completion w i e) (
      finish-IsWellFormed io _ w completion.outcome
        (remove_pending_key-IsWellFormed c i completion.id w e w.key refl).1)
]
