-- ===== src/Fanotify/PromptResolution/Reuse.antt =====
-- src/fanotify/prompt_resolution.rs: when an earlier answer settles a later question.
use config_guard.Base.{
  ◌≡◌, refl, ◌⊎◌, inl, inr, Bool, true, false, ◌&&◌, ◌||◌, Option, none, some, arith, is_some_and,
  if◌then◌else◌, Bool-cases,
}
use config_guard.Std.FilePath.{FilePath}
use config_guard.Std.Map.{get-insert, contains-add}
use config_guard.Policy.Types.{Decision, allow, deny, prompt, DecisionReason}
use config_guard.Prompt.Types.{AncestryAuthorization, Env, Prompt}
use config_guard.Prompt.Ancestry.{key, key_beq, key_eq}
use config_guard.Fanotify.PromptResolution.Key.{PromptDecisionKey, prompt_key_beq, prompt_key_eq}
use config_guard.Fanotify.PromptResolution.{
  PromptDecisionCache, get, insert_decision, allows_authorization, insert_authorization,
  cached_prompt_decision, cache_prompt_decision, authorize_explicit, cache_prompt_answer,
  immediate_prompt_decision,
}

-- `Allow` or `Deny`: a decision that is no question.
abbrev pub IsFinal : Decision → Type 0
IsFinal d = (d ≡ allow) ⊎ (d ≡ deny)

abbrev pub is_allow : Decision → Bool
is_allow allow = true
is_allow deny = false
is_allow (prompt r d s) = false

-- What an answer leaves in the cache: the decision, under its key, if it is final.
pub get-cache_prompt_answer :
    (c : PromptDecisionCache) (k j : PromptDecisionKey) (a : Option AncestryAuthorization)
    (d : Decision) (e : Bool)
    → IsFinal d
    → get (cache_prompt_answer c (some k) a d e) j
      ≡ (if prompt_key_beq k j then some d else get c j)
unfolding cache_prompt_answer authorize_explicit insert_authorization cache_prompt_decision
    insert_decision get
get-cache_prompt_answer c k j none allow e f = get-insert k j allow c.decisions
get-cache_prompt_answer c k j (some a) allow true f = get-insert k j allow c.decisions
get-cache_prompt_answer c k j (some a) allow false f = get-insert k j allow c.decisions
get-cache_prompt_answer c k j none deny e f = get-insert k j deny c.decisions
get-cache_prompt_answer c k j (some a) deny e f = get-insert k j deny c.decisions
get-cache_prompt_answer c k j a (prompt r d s) e f = ground arith

-- The authorizations after an answer are those before, and the one at hand exactly if the answer
-- is an explicit Allow: no Deny and no default grants one.
pub allows_authorization-cache_prompt_answer :
    (c : PromptDecisionCache) (k : Option PromptDecisionKey) (a : Option AncestryAuthorization)
    (d : Decision) (e : Bool) (b : AncestryAuthorization)
    → allows_authorization (cache_prompt_answer c k a d e) (some b) ≡ (
        (e && is_allow d && is_some_and a (λ x. key_beq (key x) (key b)))
        || allows_authorization c (some b))
unfolding cache_prompt_answer authorize_explicit insert_authorization cache_prompt_decision
    insert_decision allows_authorization
allows_authorization-cache_prompt_answer c none none allow e b = ground arith
allows_authorization-cache_prompt_answer c (some k) none allow e b = ground arith
allows_authorization-cache_prompt_answer c none (some a) allow true b =
    contains-add (key a) (key b) c.ancestry_authorizations
allows_authorization-cache_prompt_answer c (some k) (some a) allow true b =
    contains-add (key a) (key b) c.ancestry_authorizations
allows_authorization-cache_prompt_answer c none (some a) allow false b = refl
allows_authorization-cache_prompt_answer c (some k) (some a) allow false b = refl
allows_authorization-cache_prompt_answer c none none deny e b = ground arith
allows_authorization-cache_prompt_answer c (some k) none deny e b = ground arith
allows_authorization-cache_prompt_answer c none (some a) deny e b = ground arith
allows_authorization-cache_prompt_answer c (some k) (some a) deny e b = ground arith
allows_authorization-cache_prompt_answer c none none (prompt r d s) e b = ground arith
allows_authorization-cache_prompt_answer c (some k) none (prompt r d s) e b = ground arith
allows_authorization-cache_prompt_answer c none (some a) (prompt r d s) e b = ground arith
allows_authorization-cache_prompt_answer c (some k) (some a) (prompt r d s) e b = ground arith

-- An answer Allow or Deny under a key serves every later question with an equal key, whatever its
-- path and scope, its prompt and its environment: no one is asked, and the decision is the answer,
-- unless an authorization already allows the access.
pub answer_reused :
    (c : PromptDecisionCache) (k : PromptDecisionKey) (a : Option AncestryAuthorization)
    (d : Decision) (e : Bool) (p : Prompt) (k' : PromptDecisionKey)
    (a' : Option AncestryAuthorization) (env : Env) (r : DecisionReason) (d' : Decision)
    (scope : FilePath)
    → IsFinal d
    → prompt_key_beq k k' ≡ true
    → immediate_prompt_decision p
        (cache_prompt_answer c (some k) a d e)
        (some k')
        a'
        env
        (prompt r d' scope)
      ≡ (
        some (if allows_authorization (cache_prompt_answer c (some k) a d e) a' then allow else d),
        cache_prompt_answer c (some k) a d e,
      )
unfolding immediate_prompt_decision cached_prompt_decision
answer_reused c k a d e p k' a' env r d' scope f same =
    let hit : get (cache_prompt_answer c (some k) a d e) k' ≡ some d =
      rw (get-cache_prompt_answer c k k' a d e f, same) refl in
    elim (Bool-cases (allows_authorization (cache_prompt_answer c (some k) a d e) a')) [
      | inl t ↦ rw t refl
      | inr t ↦ rw t (rw hit refl)
    ]

-- After an explicit Allow with an authorization, every question with an equal authorization is
-- answered Allow at once, for any process generation, access, reason, scope and prompt.
pub authorization_reused :
    (c : PromptDecisionCache) (k k' : Option PromptDecisionKey) (a a' : AncestryAuthorization)
    (p : Prompt) (env : Env) (r : DecisionReason) (d : Decision) (scope : FilePath)
    → key_beq (key a) (key a') ≡ true
    → immediate_prompt_decision p
        (cache_prompt_answer c k (some a) allow true)
        k'
        (some a')
        env
        (prompt r d scope)
      ≡ (some allow, cache_prompt_answer c k (some a) allow true)
unfolding immediate_prompt_decision
authorization_reused c k k' a a' p env r d scope same =
    rw (allows_authorization-cache_prompt_answer c k (some a) allow true a') (rw same refl)
