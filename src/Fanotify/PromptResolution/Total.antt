-- ===== src/Fanotify/PromptResolution/Total.antt =====
-- src/fanotify/prompt_resolution.rs: a resolution always comes to an end.
use config_guard.Base.{◌≡◌, refl, Option, none, some}
use config_guard.Std.FilePath.{FilePath}
use config_guard.Policy.Types.{ProcessSubject, Decision, prompt, DecisionReason}
use config_guard.Prompt.Types.{Env, Prompt}
use config_guard.Fanotify.PromptResolution.Key.{PromptDecisionKey}
use config_guard.Fanotify.PromptResolution.{
  PromptDecisionCache, PolicyPromptRequest, build_policy_prompt_request, build_request, ask,
  after_immediate, prompt_for_policy_decision_with_authorization, prompt_for_policy_decision,
}
use config_guard.Fanotify.PromptResolution.Cached.{immediate-none}

ask-some :
    (p : Prompt) (c : PromptDecisionCache) (k : Option PromptDecisionKey) (r : PolicyPromptRequest)
    (reason : DecisionReason) (x : Decision) (s : FilePath)
    → r.decision ≡ prompt reason x s
    → (y : Decision × PromptDecisionCache) × (ask p c k r ≡ some y)
unfolding ask build_policy_prompt_request build_request
ask-some p c k r reason x s e = rw (e, ask, build_policy_prompt_request) (_, refl)

after_immediate-some :
    (p : Prompt) (k : Option PromptDecisionKey) (r : PolicyPromptRequest) (o : Option Decision)
    (c : PromptDecisionCache)
    → (o ≡ none
        → (t : DecisionReason) × (x : Decision) × (s : FilePath) × (r.decision ≡ prompt t x s))
    → (y : Decision × PromptDecisionCache) × (after_immediate p k r (o, c) ≡ some y)
unfolding after_immediate
after_immediate-some p k r (some d) c q = (_, refl)
after_immediate-some p k r none c q = let (t, x, s, e) = q refl in ask-some p c k r t x s e

-- A resolution does not panic, whatever the decision, the cache and the prompt.
pub prompt_for_policy_decision_with_authorization-some :
    (p : Prompt) (c : PromptDecisionCache) (k : Option PromptDecisionKey) (r : PolicyPromptRequest)
    → (y : Decision × PromptDecisionCache) × (prompt_for_policy_decision_with_authorization p c k r
        ≡ some y)
unfolding prompt_for_policy_decision_with_authorization
prompt_for_policy_decision_with_authorization-some p c k r =
    after_immediate-some p k r _ _ (immediate-none p c k r.authorization r.env r.decision)

pub prompt_for_policy_decision-some :
    (p : Prompt) (c : PromptDecisionCache) (k : Option PromptDecisionKey) (s : ProcessSubject)
    (target : FilePath) (env : Env) (d : Decision)
    → (y : Decision × PromptDecisionCache) × (prompt_for_policy_decision p c k s target env d
        ≡ some y)
unfolding prompt_for_policy_decision
prompt_for_policy_decision-some p c k s target env d =
    prompt_for_policy_decision_with_authorization-some p c k _
