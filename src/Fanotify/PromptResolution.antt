-- ===== src/Fanotify/PromptResolution.antt =====
-- src/fanotify/prompt_resolution.rs: the cache of prompt decisions, and how a policy decision
-- becomes an answer.
pub mod Key
pub mod Reuse
pub mod Cached
pub mod Final
pub mod Total
mod Tests
use config_guard.Base.{
  ℕ, ◌≡◌, refl, Bool, true, false, not, ◌&&◌, ◌||◌, List, [], ◌∷◌, Option, none, some, arith, Eq,
  is_some_and, and_then, if◌then◌else◌, list_beq, nat_eq, list_eq,
}
use config_guard.Std.Bytes.{Bytes, bytes}
use config_guard.Std.FilePath.{FilePath}
use config_guard.Std.Map as Map
use config_guard.Std.Map.{Map}
use config_guard.Policy.Types.{ProcessSubject, Decision, allow, deny, prompt, DecisionReason}
use config_guard.Prompt.Types.{
  AncestryAuthorization, PromptAnswer, into_decision, is_explicit, Env, PromptRequest, Prompt,
}
use config_guard.Prompt.Ancestry as Ancestry
use config_guard.Prompt.Ancestry.{AncestryAuthorizationKey, key_eq}
use Key.{PromptDecisionKey, prompt_key_eq}
use mathlib.Core.Option

pub record PromptDecisionCache : Type 0 where
  pub decisions : Map PromptDecisionKey Decision
  pub ancestry_authorizations : List AncestryAuthorizationKey

abbrev pub empty : PromptDecisionCache
empty = record { decisions = []; ancestry_authorizations = [] }

unfoldable pub get : PromptDecisionCache → PromptDecisionKey → Option Decision
get c k = Map.get k c.decisions

unfoldable pub insert_decision :
    PromptDecisionCache → PromptDecisionKey → Decision → PromptDecisionCache
insert_decision c k allow = record c { decisions = Map.insert k allow c.decisions }
insert_decision c k deny = record c { decisions = Map.insert k deny c.decisions }
insert_decision c k (prompt r d s) = c

unfoldable pub allows_authorization : PromptDecisionCache → Option AncestryAuthorization → Bool
allows_authorization c a =
    is_some_and a (λ b. Map.contains (Ancestry.key b) c.ancestry_authorizations)

unfoldable pub insert_authorization :
    PromptDecisionCache → AncestryAuthorization → PromptDecisionCache
insert_authorization c a = record c {
  ancestry_authorizations = Map.add (Ancestry.key a) c.ancestry_authorizations;
}

unfoldable pub has_graphical_session : Env → Bool
has_graphical_session env =
    is_some_and (Map.get (bytes "WAYLAND_DISPLAY") env) (λ v. not (list_beq v []))

unfoldable pub cached_prompt_decision :
    PromptDecisionCache → Option PromptDecisionKey → Option Decision
cached_prompt_decision c k = and_then k (get c)

unfoldable pub cache_prompt_decision :
    PromptDecisionCache → Option PromptDecisionKey → Decision → PromptDecisionCache
cache_prompt_decision c none d = c
cache_prompt_decision c (some k) d = insert_decision c k d

-- The second half of `cache_prompt_answer`.
unfoldable pub authorize_explicit :
    PromptDecisionCache → Option AncestryAuthorization → Decision → Bool → PromptDecisionCache
authorize_explicit c (some a) allow true = insert_authorization c a
authorize_explicit c _ _ _ = c

unfoldable pub cache_prompt_answer :
    PromptDecisionCache
    → Option PromptDecisionKey
    → Option AncestryAuthorization
    → Decision
    → Bool
    → PromptDecisionCache
cache_prompt_answer c k a d is_explicit_answer =
    authorize_explicit (cache_prompt_decision c k d) a d is_explicit_answer

-- For a question: what the cache or the lack of a graphical session settles without asking.
unfoldable pub immediate_default :
    Prompt
    → PromptDecisionCache
    → Option PromptDecisionKey
    → Env
    → Decision
    → Option Decision × PromptDecisionCache
immediate_default p c k env d =
    if p.requires_graphical_session && not (has_graphical_session env)
    then (some d, cache_prompt_decision c k d)
    else (none, c)

-- The function of the source changes the cache that it is given: here it returns it.
unfoldable pub immediate_prompt_decision :
    Prompt
    → PromptDecisionCache
    → Option PromptDecisionKey
    → Option AncestryAuthorization
    → Env
    → Decision
    → Option Decision × PromptDecisionCache
immediate_prompt_decision p c k a env allow = (some allow, c)
immediate_prompt_decision p c k a env deny = (some deny, c)
immediate_prompt_decision p c k a env (prompt r d s) =
    if allows_authorization c a then (some allow, c) else elim (cached_prompt_decision c k) [
      | some cached ↦ (some cached, c)
      | none ↦ immediate_default p c k env d
    ]

pub data PromptOutcome : Type 0 where
  answer : Decision → Bool → PromptOutcome
  failure : PromptOutcome

unfoldable pub ask_prompt : Prompt → PromptRequest → PromptOutcome
unfolding into_decision is_explicit
ask_prompt p request = elim (p.ask_answer request) [
  | some a ↦ answer (into_decision a) (is_explicit a)
  | none ↦ failure
]

pub record PolicyPromptRequest : Type 0 where
  pub authorization : Option AncestryAuthorization
  pub subject : ProcessSubject
  pub target_path : FilePath
  pub env : Env
  pub decision : Decision

-- `none` is the panic of `unreachable!`, for a decision that is no question.
unfoldable build_request :
    ProcessSubject → FilePath → Decision → Env → Option AncestryAuthorization → Option PromptRequest
build_request s t allow env a = none
build_request s t deny env a = none
build_request s t (prompt r d scope) env a = some (record {
  subject = s;
  target_path = t;
  reason = r;
  default_decision = d;
  env = env;
  authorization = a;
})

unfoldable pub build_policy_prompt_request :
    ProcessSubject → FilePath → Decision → Env → Option AncestryAuthorization → Option PromptRequest
unfolding build_request
build_policy_prompt_request = build_request

settle :
    PromptDecisionCache
    → Option PromptDecisionKey
    → PolicyPromptRequest
    → PromptRequest
    → PromptOutcome
    → Decision × PromptDecisionCache
settle c k r q (answer d e) = (d, cache_prompt_answer c k r.authorization d e)
settle c k r q failure = (q.default_decision, c)

ask :
    Prompt
    → PromptDecisionCache
    → Option PromptDecisionKey
    → PolicyPromptRequest
    → Option (Decision × PromptDecisionCache)
unfolding settle build_policy_prompt_request
ask p c k r =
    Option.map (λ q. settle c k r q (ask_prompt p q))
      (build_policy_prompt_request r.subject r.target_path r.decision r.env r.authorization)

after_immediate :
    Prompt
    → Option PromptDecisionKey
    → PolicyPromptRequest
    → Option Decision × PromptDecisionCache
    → Option (Decision × PromptDecisionCache)
unfolding ask
after_immediate p k r (some d, c) = some (d, c)
after_immediate p k r (none, c) = ask p c k r

-- The decision and the cache afterwards; `none` is the panic of `build_policy_prompt_request`.
unfoldable pub prompt_for_policy_decision_with_authorization :
    Prompt
    → PromptDecisionCache
    → Option PromptDecisionKey
    → PolicyPromptRequest
    → Option (Decision × PromptDecisionCache)
unfolding after_immediate
prompt_for_policy_decision_with_authorization p c k r =
    after_immediate p k r (immediate_prompt_decision p c k r.authorization r.env r.decision)

unfoldable pub prompt_for_policy_decision :
    Prompt
    → PromptDecisionCache
    → Option PromptDecisionKey
    → ProcessSubject
    → FilePath
    → Env
    → Decision
    → Option (Decision × PromptDecisionCache)
unfolding prompt_for_policy_decision_with_authorization
prompt_for_policy_decision p c k s t env d =
    prompt_for_policy_decision_with_authorization p c k
      (record { authorization = none; subject = s; target_path = t; env = env; decision = d })
