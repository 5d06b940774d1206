-- ===== src/Fanotify/PromptResolution/Final.antt =====
-- src/fanotify/prompt_resolution.rs: the resolution of a policy decision always ends in an `Allow` or
-- a `Deny`, and the cache holds nothing else.
use config_guard.Base.{◌≡◌, refl, subst, inl, inr, Option, none, some, Option-cases}
use config_guard.Std.FilePath.{FilePath}
use config_guard.Policy.Types.{Decision, prompt, DecisionReason}
use config_guard.Prompt.Types.{default, into_decision, is_explicit, PromptRequest, Prompt}
use config_guard.Prompt.Adapters.{
  AuthResponse, success, denied, auth_failed, unknown_target, error, authd_answer, authd,
  non_interactive,
}
use config_guard.Fanotify.PromptResolution.Key.{PromptDecisionKey, prompt_key_eq}
use config_guard.Fanotify.PromptResolution.{
  PromptDecisionCache, ask_prompt, PolicyPromptRequest, settle, ask, after_immediate,
  prompt_for_policy_decision_with_authorization,
}
use config_guard.Fanotify.PromptResolution.Reuse.{IsFinal}
use config_guard.Fanotify.PromptResolution.Cached.{
  CacheIsFinal, PromptIsFinal, DefaultIsFinal, cache_prompt_answer-CacheIsFinal, ResultIsFinal,
  immediate-IsFinal, immediate-none,
}

-- The parts of a resolution that has ended.
abbrev Ends : (Decision → Type 0) → Option (Decision × PromptDecisionCache) → Type 0
Ends P none = ⊥
Ends P (some (d, c)) = P d × CacheIsFinal c

settle-Ends :
    (p : Prompt) (c : PromptDecisionCache) (k : Option PromptDecisionKey) (r : PolicyPromptRequest)
    (q : PromptRequest)
    → PromptIsFinal p
    → CacheIsFinal c
    → IsFinal q.default_decision
    → Ends IsFinal (some (settle c k r q (ask_prompt p q)))
unfolding settle ask_prompt
settle-Ends p c k r q pf h f = elim (Option-cases (p.ask_answer q)) [
  | inl e ↦ rw (e, ask_prompt, settle) (f, h)
  | inr (a, e) ↦
      rw (e, ask_prompt, settle)
        (
          pf q a f e,
          cache_prompt_answer-CacheIsFinal c k r.authorization (into_decision a) (is_explicit a) h,
        )
]

ask-Ends :
    (p : Prompt) (c : PromptDecisionCache) (k : Option PromptDecisionKey) (r : PolicyPromptRequest)
    (d : Decision) (reason : DecisionReason) (x : Decision) (s : FilePath)
    → r.decision ≡ prompt reason x s
    → PromptIsFinal p
    → CacheIsFinal c
    → IsFinal x
    → Ends IsFinal (ask p c k r)
unfolding ask
ask-Ends p c k r d reason x s e pf h f = rw (e, ask) (settle-Ends p c k r _ pf h f)

after_immediate-Ends :
    (p : Prompt) (k : Option PromptDecisionKey) (r : PolicyPromptRequest) (o : Option Decision)
    (c : PromptDecisionCache)
    → PromptIsFinal p
    → DefaultIsFinal r.decision
    → ResultIsFinal (o, c)
    → (o ≡ none
        → (t : DecisionReason) × (x : Decision) × (s : FilePath) × (r.decision ≡ prompt t x s))
    → Ends IsFinal (after_immediate p k r (o, c))
unfolding after_immediate
after_immediate-Ends p k r (some d) c pf f h q = (h.1 d refl, h.0)
after_immediate-Ends p k r none c pf f h q =
    let (t, x, s, e) = q refl in ask-Ends p c k r x t x s e pf h.0 (subst DefaultIsFinal e f)

-- If the prompt answers no question by a question, the default of the decision is Allow or Deny,
-- and the cache holds only such decisions, then the resolution of a policy decision ends without a
-- panic in Allow or Deny, and the cache afterwards holds only such decisions.
pub resolution-IsFinal :
    (p : Prompt) (c : PromptDecisionCache) (k : Option PromptDecisionKey) (r : PolicyPromptRequest)
    → PromptIsFinal p
    → CacheIsFinal c
    → DefaultIsFinal r.decision
    → (d : Decision) × (c' : PromptDecisionCache) × (prompt_for_policy_decision_with_authorization p
          c k r
        ≡ some (d, c'))
      × IsFinal d
      × CacheIsFinal c'
unfolding prompt_for_policy_decision_with_authorization
resolution-IsFinal p c k r pf h f = ended _ (
    after_immediate-Ends p k r _ _ pf f
      (immediate-IsFinal p c k r.authorization r.env r.decision h f)
      (immediate-none p c k r.authorization r.env r.decision))
  where
    ended :
        (o : Option (Decision × PromptDecisionCache))
        → Ends IsFinal o
        → (d : Decision) × (c' : PromptDecisionCache) × (o ≡ some (d, c'))
          × IsFinal d
          × CacheIsFinal c'
    ended none h = absurd h
    ended (some (d, c)) h = (d, c, refl, h.0, h.1)

-- Two of the adapters answer no question by a question.
pub authd-IsFinal : (call : PromptRequest → Option AuthResponse) → PromptIsFinal (authd call)
unfolding authd authd_answer into_decision
authd-IsFinal call q a f e = go (call q) (cc)
  where
    go :
        (o : Option AuthResponse)
        → a ≡ authd_answer o q.default_decision
        → IsFinal (into_decision a)
    go (some success) e = rw e (inl refl)
    go (some denied) e = rw e (inr refl)
    go (some auth_failed) e = rw e (inr refl)
    go (some unknown_target) e = rw e f
    go (some error) e = rw e f
    go none e = rw e f

pub non_interactive-IsFinal : PromptIsFinal non_interactive
unfolding non_interactive into_decision
non_interactive-IsFinal q a f e = let same : a ≡ default q.default_decision = cc in rw same f
