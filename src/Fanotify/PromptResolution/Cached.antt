-- ===== src/Fanotify/PromptResolution/Cached.antt =====
-- src/fanotify/prompt_resolution.rs: the cache holds final decisions only.
use config_guard.Base.{
  ◌≡◌, refl, inl, inr, Bool, true, false, not, ◌&&◌, [], ◌∷◌, Option, none, some, arith, Bool-cases,
  Option-cases, All,
}
use config_guard.Std.FilePath.{FilePath}
use config_guard.Std.Map as Map
use config_guard.Std.Map.{Map}
use config_guard.Policy.Types.{Decision, allow, deny, prompt, DecisionReason}
use config_guard.Prompt.Types.{
  AncestryAuthorization, PromptAnswer, into_decision, Env, PromptRequest, Prompt,
}
use config_guard.Fanotify.PromptResolution.Key.{PromptDecisionKey, prompt_key_beq, prompt_key_eq}
use config_guard.Fanotify.PromptResolution.{
  PromptDecisionCache, get, insert_decision, allows_authorization, insert_authorization,
  cached_prompt_decision, cache_prompt_decision, authorize_explicit, cache_prompt_answer,
  immediate_default, immediate_prompt_decision, has_graphical_session,
}
use config_guard.Fanotify.PromptResolution.Reuse.{IsFinal}

abbrev pub CacheIsFinal : PromptDecisionCache → Type 0
CacheIsFinal c = All (λ e. IsFinal e.1) c.decisions

-- A prompt that passes on no question: its answers are final where the default is.
abbrev pub PromptIsFinal : Prompt → Type 0
PromptIsFinal p =
    (q : PromptRequest) (a : PromptAnswer)
    → IsFinal q.default_decision
    → p.ask_answer q ≡ some a
    → IsFinal (into_decision a)

-- A policy decision whose default is final.
abbrev pub DefaultIsFinal : Decision → Type 0
DefaultIsFinal allow = Unit
DefaultIsFinal deny = Unit
DefaultIsFinal (prompt r d s) = IsFinal d

insert-All :
    (k : PromptDecisionKey) (d : Decision) (m : Map PromptDecisionKey Decision)
    → IsFinal d
    → All (λ e. IsFinal e.1) m
    → All (λ e. IsFinal e.1) (Map.insert k d m)
unfolding Map.insert
insert-All k d [] f h = (f, tt)
insert-All k d ((j, w) ∷ m) f h = elim (Bool-cases (prompt_key_beq j k)) [
  | inl e ↦ rw (e, Map.insert) (f, h.1)
  | inr e ↦ rw (e, Map.insert) (h.0, insert-All k d m f h.1)
]

get-IsFinal :
    (k : PromptDecisionKey) (d : Decision) (m : Map PromptDecisionKey Decision)
    → All (λ e. IsFinal e.1) m
    → Map.get k m ≡ some d
    → IsFinal d
unfolding Map.get
get-IsFinal k d [] h e = cc
get-IsFinal k d ((j, w) ∷ m) h e = ground (arith, get-IsFinal k d m)

cache_prompt_decision-CacheIsFinal :
    (c : PromptDecisionCache) (k : Option PromptDecisionKey) (d : Decision)
    → CacheIsFinal c
    → CacheIsFinal (cache_prompt_decision c k d)
unfolding cache_prompt_decision insert_decision
cache_prompt_decision-CacheIsFinal c none d h = h
cache_prompt_decision-CacheIsFinal c (some k) allow h = insert-All k allow c.decisions (inl refl) h
cache_prompt_decision-CacheIsFinal c (some k) deny h = insert-All k deny c.decisions (inr refl) h
cache_prompt_decision-CacheIsFinal c (some k) (prompt r d s) h = h

-- The answers kept for reuse are never questions, whatever the prompt replied.
pub cache_prompt_answer-CacheIsFinal :
    (c : PromptDecisionCache) (k : Option PromptDecisionKey) (a : Option AncestryAuthorization)
    (d : Decision) (e : Bool)
    → CacheIsFinal c
    → CacheIsFinal (cache_prompt_answer c k a d e)
unfolding cache_prompt_answer authorize_explicit insert_authorization
cache_prompt_answer-CacheIsFinal c k (some a) allow true h =
    cache_prompt_decision-CacheIsFinal c k allow h
cache_prompt_answer-CacheIsFinal c k (some a) allow false h =
    cache_prompt_decision-CacheIsFinal c k allow h
cache_prompt_answer-CacheIsFinal c k (some a) deny e h =
    cache_prompt_decision-CacheIsFinal c k deny h
cache_prompt_answer-CacheIsFinal c k (some a) (prompt r d s) e h =
    cache_prompt_decision-CacheIsFinal c k (prompt r d s) h
cache_prompt_answer-CacheIsFinal c k none d e h = cache_prompt_decision-CacheIsFinal c k d h

IsFinal-eq : {x y : Decision} → x ≡ y → IsFinal x → IsFinal y
IsFinal-eq e (inl q) = inl (cc)
IsFinal-eq e (inr q) = inr (cc)

cached-IsFinal :
    (c : PromptDecisionCache) (k : Option PromptDecisionKey) (d : Decision)
    → CacheIsFinal c
    → cached_prompt_decision c k ≡ some d
    → IsFinal d
unfolding cached_prompt_decision get
cached-IsFinal c none d h e = cc
cached-IsFinal c (some k) d h e = get-IsFinal k d c.decisions h e

-- A result that the rest of a resolution may build on.
abbrev pub ResultIsFinal : Option Decision × PromptDecisionCache → Type 0
ResultIsFinal r = CacheIsFinal r.1 × ((x : Decision) → r.0 ≡ some x → IsFinal x)

immediate_default-IsFinal :
    (p : Prompt) (c : PromptDecisionCache) (k : Option PromptDecisionKey) (env : Env) (d : Decision)
    → CacheIsFinal c
    → IsFinal d
    → ResultIsFinal (immediate_default p c k env d)
unfolding immediate_default
immediate_default-IsFinal p c k env d h f =
    elim (Bool-cases (p.requires_graphical_session && not (has_graphical_session env))) [
      | inl e ↦
          rw (e, immediate_default)
            (cache_prompt_decision-CacheIsFinal c k d h, λ x q. IsFinal-eq (cc) f)
      | inr e ↦ rw (e, immediate_default) (h, λ x q. absurd (cc))
    ]

-- A decision that is given without asking is never a question, and leaves no question in the cache.
pub immediate-IsFinal :
    (p : Prompt) (c : PromptDecisionCache) (k : Option PromptDecisionKey)
    (a : Option AncestryAuthorization) (env : Env) (d : Decision)
    → CacheIsFinal c
    → DefaultIsFinal d
    → ResultIsFinal (immediate_prompt_decision p c k a env d)
unfolding immediate_prompt_decision
immediate-IsFinal p c k a env allow h f = (h, λ x e. inl (cc))
immediate-IsFinal p c k a env deny h f = (h, λ x e. inr (cc))
immediate-IsFinal p c k a env (prompt r d s) h f = elim (Bool-cases (allows_authorization c a)) [
  | inl t ↦ rw (t, immediate_prompt_decision) (h, λ x e. inl (cc))
  | inr t ↦ elim (Option-cases (cached_prompt_decision c k)) [
    | inr (y, hit) ↦
        rw (t, hit, immediate_prompt_decision)
          (h, λ x e. IsFinal-eq (cc) (cached-IsFinal c k y h hit))
    | inl miss ↦ rw (t, miss, immediate_prompt_decision) (immediate_default-IsFinal p c k env d h f)
  ]
]

-- What is settled without asking, if the decision is no question.
pub immediate-none :
    (p : Prompt) (c : PromptDecisionCache) (k : Option PromptDecisionKey)
    (a : Option AncestryAuthorization) (env : Env) (d : Decision)
    → (immediate_prompt_decision p c k a env d).0 ≡ none
    → (r : DecisionReason) × (x : Decision) × (s : FilePath) × (d ≡ prompt r x s)
unfolding immediate_prompt_decision
immediate-none p c k a env allow e = cc
immediate-none p c k a env deny e = cc
immediate-none p c k a env (prompt r x s) e = (r, x, s, refl)
