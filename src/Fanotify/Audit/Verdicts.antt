-- ===== src/Fanotify/Audit/Verdicts.antt =====
-- src/fanotify/audit.rs: whatever the policy and the user say, an audit ends in `Allow` or an error.
use config_guard.Base.{
  ◌≡◌, refl, ◌⊎◌, inl, inr, true, List, [], ◌∷◌, Option, none, some, arith, Bool-cases,
  Option-cases,
}
use config_guard.Std.FilePath.{FilePath}
use config_guard.Policy.Types.{ProcessSubject, AccessKind, Decision, allow, deny, prompt}
use config_guard.Process.Identity.{ProcessIdentity, subject}
use config_guard.Prompt.Types.{Prompt}
use config_guard.Learning.{AuditLearner, observe}
use config_guard.Fanotify.PromptResolution.{PromptDecisionCache}
use config_guard.Fanotify.PromptResolution.Key as Key
use config_guard.Fanotify.PromptResolution.Total.{prompt_for_policy_decision-some}
use config_guard.Fanotify.AuditIdentity.{AuditObjectId}
use config_guard.Fanotify.AuditProcess.{ProcessGeneration}
use config_guard.Fanotify.Events.{Error, policy_failed, learner_failed, AccessPolicy}
use config_guard.Fanotify.Guard.Loop.{Metadata}
use config_guard.Fanotify.Audit.{
  AuditCaches, AuditFacts, Verdict, verdict, failed, AuditEvaluation,
  record_identity_and_select_process, observe_access, decide_event, for_each, decide_metadata,
  prompt_on_policy_violation, audit_prompt_event, decide_metadata_prompt,
}
use config_guard.Fanotify.Audit.Handler.{
  Mode, audit, audit_prompt, guard, EventFacts, is_audit, decide_audit_mode,
}

-- `Allow` or an error: no refusal and no panic.
abbrev pub IsPassive : Verdict → Type 0
IsPassive v = (v ≡ verdict allow) ⊎ ((e : Error) × (v ≡ failed e))

observe_access-IsPassive :
    (facts : AuditFacts) (s : ProcessSubject) (target : FilePath) (access : AccessKind)
    (l : Option AuditLearner)
    → IsPassive (observe_access facts s target access l).0
unfolding observe_access
observe_access-IsPassive facts s target access none = inl refl
observe_access-IsPassive facts s target access (some l) =
    elim (Bool-cases (observe (facts.written access) l s target access).0) [
      | inl e ↦ inl (ground (arith, e))
      | inr e ↦ inr (learner_failed, ground (arith, e))
    ]

-- Whatever the policy says of an access, and whatever the user answers.
decide_event-IsPassive :
    (policy : Option AccessPolicy) (facts : AuditFacts) (process : ProcessIdentity)
    (target : FilePath) (access : AccessKind) (l : Option AuditLearner)
    → IsPassive (decide_event policy facts process target access l).0
unfolding decide_event
decide_event-IsPassive none facts process target access l =
    observe_access-IsPassive facts (subject process) target access l
decide_event-IsPassive (some policy) facts process target access l =
    elim (Option-cases (policy.decide (subject process) target access)) [
      | inl e ↦ inr (policy_failed, ground (arith, e))
      | inr (d, e) ↦
          rw (e, decide_event) (observe_access-IsPassive facts (subject process) target access l)
    ]

prompt_on_policy_violation-some :
    (p : Option Prompt) (facts : AuditFacts) (process : ProcessIdentity) (target : FilePath)
    (access : AccessKind) (d : Decision) (cache : PromptDecisionCache)
    → (c : PromptDecisionCache) × (prompt_on_policy_violation p facts process target access d cache
        ≡ some c)
unfolding prompt_on_policy_violation
prompt_on_policy_violation-some none facts process target access d cache = (cache, refl)
prompt_on_policy_violation-some (some p) facts process target access allow cache = (cache, refl)
prompt_on_policy_violation-some (some p) facts process target access deny cache = (cache, refl)
prompt_on_policy_violation-some (some p) facts process target access (prompt r d scope) cache =
    let (y, e) =
      prompt_for_policy_decision-some p cache (Key.new process access (prompt r d scope))
        (subject process) target facts.env (prompt r d scope) in
    (y.1, ground (arith, e))

audit_prompt_event-IsPassive :
    (policy : AccessPolicy) (p : Option Prompt) (facts : AuditFacts) (process : ProcessIdentity)
    (target : FilePath) (access : AccessKind) (e : AuditEvaluation)
    → IsPassive (audit_prompt_event policy p facts process target access e).0
unfolding audit_prompt_event
audit_prompt_event-IsPassive policy p facts process target access e =
    elim (Option-cases (policy.decide (subject process) target access)) [
      | inl h ↦ inr (policy_failed, ground (arith, h))
      | inr (d, h) ↦
          let (c, q) =
            prompt_on_policy_violation-some p facts process target access d e.prompt_cache in
          rw (h, audit_prompt_event, q)
            (observe_access-IsPassive facts (subject process) target access e.learner)
    ]

for_each-IsPassive :
    {S : Type 0} (step : AccessKind → S → Verdict × S) (accesses : List AccessKind) (s : S)
    → ((access : AccessKind) (t : S) → IsPassive (step access t).0)
    → IsPassive (for_each step accesses s).0
unfolding for_each
for_each-IsPassive step [] s h = inl refl
for_each-IsPassive step (access ∷ accesses) s h = elim (h access s) [
  | inl e ↦ rw (e, for_each) (for_each-IsPassive step accesses (step access s).1 h)
  | inr (x, e) ↦ inr (x, ground (arith, e))
]

decide_metadata-IsPassive :
    (policy : Option AccessPolicy) (m : Metadata) (target : FilePath) (object : AuditObjectId)
    (g : Option ProcessGeneration) (facts : AuditFacts) (l : Option AuditLearner) (c : AuditCaches)
    → IsPassive (decide_metadata policy m target object g facts l c).0
unfolding decide_metadata
decide_metadata-IsPassive policy m target object g facts l c =
    elim (Option-cases (record_identity_and_select_process m object g facts c).0) [
      | inl e ↦ inl (ground (arith, e))
      | inr (x, e) ↦
          rw (e, decide_metadata)
            (for_each-IsPassive (decide_event policy facts x.1 target) x.0 l
              (λ access t. decide_event-IsPassive policy facts x.1 target access t))
    ]

decide_metadata_prompt-IsPassive :
    (policy : AccessPolicy) (p : Option Prompt) (m : Metadata) (target : FilePath)
    (object : AuditObjectId) (g : Option ProcessGeneration) (facts : AuditFacts)
    (v : AuditEvaluation) (c : AuditCaches)
    → IsPassive (decide_metadata_prompt policy p m target object g facts v c).0
unfolding decide_metadata_prompt
decide_metadata_prompt-IsPassive policy p m target object g facts v c =
    elim (Option-cases (record_identity_and_select_process m object g facts c).0) [
      | inl e ↦ inl (ground (arith, e))
      | inr (x, e) ↦
          rw (e, decide_metadata_prompt)
            (for_each-IsPassive (audit_prompt_event policy p facts x.1 target) x.0 v
              (λ access t. audit_prompt_event-IsPassive policy p facts x.1 target access t))
    ]

-- The mode of the state, as an argument.
pub decide_audit_mode-IsPassive :
    (m : Metadata) (target : FilePath) (object : AuditObjectId) (facts : EventFacts) (mode : Mode)
    (c : AuditCaches)
    → is_audit mode ≡ true
    → IsPassive (decide_audit_mode m target object facts (record { mode = mode; caches = c })).0
      × (is_audit
            (decide_audit_mode m target object facts (record { mode = mode; caches = c })).1.mode
          ≡ true)
unfolding decide_audit_mode is_audit
decide_audit_mode-IsPassive m target object facts (audit l policy) c h =
    (decide_metadata-IsPassive policy m target object facts.generation facts.audit_facts l c, refl)
decide_audit_mode-IsPassive m target object facts (audit_prompt l policy p cache) c h = (
  decide_metadata_prompt-IsPassive policy (some p) m target object facts.generation
      facts.audit_facts _ c,
  refl,
)
decide_audit_mode-IsPassive m target object facts guard c h = cc
