-- ===== src/Fanotify/Guard/Tables.antt =====
-- src/fanotify/guard.rs: the two tables of `PromptCoordinator`, the waiting prompts by number and the
-- numbers by key, and how an operation keeps them in agreement.
use config_guard.Base.{◌≡◌, true, [], none, some, arith, ◌==◌, inl, inr, Bool-cases, nat_eq, ==_iff}
use config_guard.Std.Map.{Map, get, insert, remove, get-insert, get-remove, get-eq}
use config_guard.Fanotify.PromptResolution.Key.{
  PromptDecisionKey, prompt_key_beq, prompt_key_eq, prompt_key_refl,
}
use config_guard.Fanotify.Guard.Types.{PromptId, PendingPrompt}

-- Each waiting prompt with a key is found under it, and each key leads to a prompt that has it.
pub record AreLinked (pending : Map PromptId PendingPrompt)
    (by_key : Map PromptDecisionKey PromptId) : Type 0 where
  pub linked :
      (id : PromptId) (w : PendingPrompt) (k : PromptDecisionKey)
      → get id pending ≡ some w
      → w.key ≡ some k
      → get k by_key ≡ some id
  pub known :
      (k : PromptDecisionKey) (id : PromptId)
      → get k by_key ≡ some id
      → (w : PendingPrompt) × (k' : PromptDecisionKey) × (get id pending ≡ some w)
        × (w.key ≡ some k')
        × (prompt_key_beq k' k ≡ true)

pub new-AreLinked : AreLinked [] []
unfolding get
new-AreLinked = record { linked = λ id w k g e. cc; known = λ k id g. cc }

module _ (pending : Map PromptId PendingPrompt) (by_key : Map PromptDecisionKey PromptId)
    (l : AreLinked pending by_key) where
  -- A prompt that gets another value with the same key.
  module _ (id : PromptId) (w w' : PendingPrompt) (h : get id pending ≡ some w)
      (hk : w'.key ≡ w.key) where
    update_linked :
        (j : PromptId) (v : PendingPrompt) (k : PromptDecisionKey)
        → get j (insert id w' pending) ≡ some v
        → v.key ≡ some k
        → get k by_key ≡ some j
    update_linked j v k g e = elim (Bool-cases (id == j)) [
      | inl q ↦ ground (arith, get-insert id j w' pending, l.linked id w k h, ==_iff id j)
      | inr q ↦ l.linked j v k (ground (arith, get-insert id j w' pending)) e
    ]

    update_known :
        (k : PromptDecisionKey) (j : PromptId)
        → get k by_key ≡ some j
        → (v : PendingPrompt) × (k' : PromptDecisionKey) × (get j (insert id w' pending) ≡ some v)
          × (v.key ≡ some k')
          × (prompt_key_beq k' k ≡ true)
    update_known k j g =
        let (v, k', gv, kv, kk) = l.known k j g in
        elim (Bool-cases (id == j)) [
          | inl q ↦
              (w', k', ground (arith, get-insert id j w' pending), ground (arith, ==_iff id j), kk)
          | inr q ↦ (v, k', ground (arith, get-insert id j w' pending), kv, kk)
        ]

    pub update-AreLinked : AreLinked (insert id w' pending) by_key
    update-AreLinked = record { linked = update_linked; known = update_known }

  -- A prompt with a new number, without a key.
  module _ (id : PromptId) (w : PendingPrompt) (h : get id pending ≡ none) (hk : w.key ≡ none) where
    unkeyed_linked :
        (j : PromptId) (v : PendingPrompt) (k : PromptDecisionKey)
        → get j (insert id w pending) ≡ some v
        → v.key ≡ some k
        → get k by_key ≡ some j
    unkeyed_linked j v k g e = elim (Bool-cases (id == j)) [
      | inl q ↦ ground (arith, get-insert id j w pending)
      | inr q ↦ l.linked j v k (ground (arith, get-insert id j w pending)) e
    ]

    unkeyed_known :
        (k : PromptDecisionKey) (j : PromptId)
        → get k by_key ≡ some j
        → (v : PendingPrompt) × (k' : PromptDecisionKey) × (get j (insert id w pending) ≡ some v)
          × (v.key ≡ some k')
          × (prompt_key_beq k' k ≡ true)
    unkeyed_known k j g =
        let (v, k', gv, kv, kk) = l.known k j g in
        (v, k', ground (arith, get-insert id j w pending, ==_iff id j), kv, kk)

    pub unkeyed-AreLinked : AreLinked (insert id w pending) by_key
    unkeyed-AreLinked = record { linked = unkeyed_linked; known = unkeyed_known }

  -- A prompt with a new number and a key that no prompt has.
  module _ (id : PromptId) (w : PendingPrompt) (key : PromptDecisionKey) (h : get id pending ≡ none)
      (hk : w.key ≡ some key) (free : get key by_key ≡ none) where
    keyed_linked :
        (j : PromptId) (v : PendingPrompt) (k : PromptDecisionKey)
        → get j (insert id w pending) ≡ some v
        → v.key ≡ some k
        → get k (insert key id by_key) ≡ some j
    keyed_linked j v k g e = elim (Bool-cases (id == j)) [
      | inl q ↦ ground (
        arith,
        get-insert id j w pending,
        get-insert key k id by_key,
        ==_iff id j,
        prompt_key_refl key,
      )
      | inr q ↦ ground (
        arith,
        get-insert id j w pending,
        get-insert key k id by_key,
        l.linked j v k,
        get-eq key k by_key,
      )
    ]

    keyed_known :
        (k : PromptDecisionKey) (j : PromptId)
        → get k (insert key id by_key) ≡ some j
        → (v : PendingPrompt) × (k' : PromptDecisionKey) × (get j (insert id w pending) ≡ some v)
          × (v.key ≡ some k')
          × (prompt_key_beq k' k ≡ true)
    keyed_known k j g = elim (Bool-cases (prompt_key_beq key k)) [
      | inl q ↦ (
        w,
        key,
        ground (arith, get-insert key k id by_key, get-insert id j w pending, ==_iff id j),
        hk,
        q,
      )
      | inr q ↦
          let (v, k', gv, kv, kk) = l.known k j (ground (arith, get-insert key k id by_key)) in
          (v, k', ground (arith, get-insert id j w pending, ==_iff id j), kv, kk)
    ]

    pub keyed-AreLinked : AreLinked (insert id w pending) (insert key id by_key)
    keyed-AreLinked = record { linked = keyed_linked; known = keyed_known }

  -- The end of a prompt without a key.
  module _ (id : PromptId) (w : PendingPrompt) (h : get id pending ≡ some w)
      (hk : w.key ≡ none) where
    unlink_known :
        (k : PromptDecisionKey) (j : PromptId)
        → get k by_key ≡ some j
        → (v : PendingPrompt) × (k' : PromptDecisionKey) × (get j (remove id pending) ≡ some v)
          × (v.key ≡ some k')
          × (prompt_key_beq k' k ≡ true)
    unlink_known k j g =
        let (v, k', gv, kv, kk) = l.known k j g in
        (v, k', ground (arith, get-remove id j pending, ==_iff id j), kv, kk)

    pub remove_unkeyed-AreLinked : AreLinked (remove id pending) by_key
    remove_unkeyed-AreLinked = record {
      linked = λ j v k g e. l.linked j v k (ground (arith, get-remove id j pending)) e;
      known = unlink_known;
    }

  -- The end of a prompt with a key.
  module _ (id : PromptId) (w : PendingPrompt) (key : PromptDecisionKey)
      (h : get id pending ≡ some w) (hk : w.key ≡ some key) where
    remove_linked :
        (j : PromptId) (v : PendingPrompt) (k : PromptDecisionKey)
        → get j (remove id pending) ≡ some v
        → v.key ≡ some k
        → get k (remove key by_key) ≡ some j
    remove_linked j v k g e = ground (
      arith,
      get-remove id j pending,
      get-remove key k by_key,
      l.linked j v k,
      l.linked id w key h hk,
      get-eq key k by_key,
      ==_iff id j,
    )

    remove_known :
        (k : PromptDecisionKey) (j : PromptId)
        → get k (remove key by_key) ≡ some j
        → (v : PendingPrompt) × (k' : PromptDecisionKey) × (get j (remove id pending) ≡ some v)
          × (v.key ≡ some k')
          × (prompt_key_beq k' k ≡ true)
    remove_known k j g =
        let (v, k', gv, kv, kk) = l.known k j (ground (arith, get-remove key k by_key)) in
        (
          v,
          k',
          ground (arith, get-remove id j pending, get-remove key k by_key, ==_iff id j),
          kv,
          kk,
        )

    pub remove_keyed-AreLinked : AreLinked (remove id pending) (remove key by_key)
    remove_keyed-AreLinked = record { linked = remove_linked; known = remove_known }
