-- ===== src/Fanotify/Audit.antt =====
-- src/fanotify/audit.rs: how the audit modes find the process of an access, and what they do with it.
pub mod Handler
pub mod Verdicts
pub mod Passive
pub mod Run
pub mod Harmless
pub mod Attribution
mod Tests
use config_guard.Base.{
  ℕ, ◌≡◌, refl, Bool, true, false, List, [], ◌∷◌, ◌++◌, Option, none, some, if◌then◌else◌, and_then,
  or_else, unwrap_or, first,
}
use config_guard.Std.FilePath.{FilePath}
use config_guard.Policy.Types.{
  ProcessSubject, AccessKind, read, write, Decision, allow, deny, prompt,
}
use config_guard.Process.Identity.{ProcessIdentity, from_executable, subject}
use config_guard.Prompt.Types.{Env, Prompt}
use config_guard.Learning.{AuditLearner, observe}
use config_guard.Fanotify.PromptResolution.Key as Key
use config_guard.Fanotify.PromptResolution.{PromptDecisionCache, prompt_for_policy_decision}
use config_guard.Fanotify.AuditIdentity as AuditIdentity
use config_guard.Fanotify.AuditIdentity.{AuditObjectId, AuditIdentityCache}
use config_guard.Fanotify.AuditProcess.{
  ProcessGeneration, AuditProcessCache, get_at, insert_exec_at,
}
use config_guard.Fanotify.Events.{
  Error, policy_failed, learner_failed, AccessPolicy, has_flag, fan_open, fan_close_write,
  fan_close_nowrite,
}
use config_guard.Fanotify.Guard.Loop.{Metadata, inspect_process_or_unknown}

pub record AuditCaches : Type 0 where
  pub identities : AuditIdentityCache
  pub processes : AuditProcessCache

-- What procfs, the clock and the file system answer while one event is handled. The process is
-- inspected, and the clock read, at up to three places.
pub record AuditFacts : Type 0 where
  pub at_exec : Option ProcessIdentity
  pub at_open : Option ProcessIdentity
  pub at_close : Option ProcessIdentity
  pub exec_time : ℕ
  pub open_time : ℕ
  pub close_time : ℕ
  pub env : Env
  pub written : AccessKind → Bool

unfoldable pub access_kinds : ℕ → List AccessKind
access_kinds mask =
    (if has_flag mask fan_close_nowrite then read ∷ [] else [])
    ++ (if has_flag mask fan_close_write then write ∷ [] else [])

-- `generation.and_then(|generation| processes.get(generation))`.
unfoldable pub cached_process :
    Option ProcessGeneration → AuditProcessCache → ℕ → Option ProcessIdentity × AuditProcessCache
cached_process none processes now = (none, processes)
cached_process (some g) processes now = get_at processes g now

unfoldable pub record_open_identity :
    Metadata → AuditObjectId → Option ProcessGeneration → AuditFacts → AuditCaches → AuditCaches
record_open_identity m object generation facts c =
    if has_flag m.mask fan_open
    then elim facts.at_open [
      | some process ↦ record c {
        identities = AuditIdentity.insert c.identities m.pid object process;
      }
      | none ↦
          let found = cached_process generation c.processes facts.open_time in
          elim found.0 [
            | some process ↦ record {
              identities = AuditIdentity.insert c.identities m.pid object process;
              processes = found.1;
            }
            | none ↦ record {
              identities = AuditIdentity.invalidate c.identities m.pid object;
              processes = found.1;
            }
          ]
    ]
    else c

-- The process that an access is put down to: the one recorded at the open, else the one recorded for
-- the generation, else the one that procfs shows now, else an unknown one.
unfoldable pub select_process :
    Metadata
    → AuditObjectId
    → Option ProcessGeneration
    → AuditFacts
    → AuditCaches
    → ProcessIdentity × AuditCaches
select_process m object generation facts c =
    let taken = AuditIdentity.take c.identities m.pid object in
    elim taken.0 [
      | some process ↦ (process, record c { identities = taken.1 })
      | none ↦
          let found = cached_process generation c.processes facts.close_time in
          (
            unwrap_or found.0 (inspect_process_or_unknown facts.at_close m.pid),
            record { identities = taken.1; processes = found.1 },
          )
    ]

unfoldable pub record_identity_and_select_process :
    Metadata
    → AuditObjectId
    → Option ProcessGeneration
    → AuditFacts
    → AuditCaches
    → Option (List AccessKind × ProcessIdentity) × AuditCaches
record_identity_and_select_process m object generation facts c =
    let c' = record_open_identity m object generation facts c in
    elim (access_kinds m.mask) [
      | [] ↦ (none, c')
      | access ∷ accesses ↦
          let selected = select_process m object generation facts c' in
          (some (access ∷ accesses, selected.0), selected.1)
    ]

unfoldable pub record_exec_identity :
    ℕ → FilePath → Option ProcessGeneration → AuditFacts → AuditProcessCache → AuditProcessCache
record_exec_identity pid executable none facts processes = processes
record_exec_identity pid executable (some g) facts processes =
    insert_exec_at processes g (unwrap_or facts.at_exec (from_executable pid executable))
      facts.exec_time

-- The result of a decision: a decision, an error, or a panic.
pub data Verdict : Type 0 where
  verdict : Decision → Verdict
  failed : Error → Verdict
  panic : Verdict

unfoldable pub observe_access :
    AuditFacts
    → ProcessSubject
    → FilePath
    → AccessKind
    → Option AuditLearner
    → Verdict × Option AuditLearner
observe_access facts s target access none = (verdict allow, none)
observe_access facts s target access (some l) =
    let o = observe (facts.written access) l s target access in
    (if o.0 then verdict allow else failed learner_failed, some o.1)

-- The audit of one access, with or without a policy.
unfoldable pub decide_event :
    Option AccessPolicy
    → AuditFacts
    → ProcessIdentity
    → FilePath
    → AccessKind
    → Option AuditLearner
    → Verdict × Option AuditLearner
unfolding observe_access
decide_event none facts process target access learner =
    observe_access facts (subject process) target access learner
decide_event (some policy) facts process target access learner =
    elim (policy.decide (subject process) target access) [
      | none ↦ (failed policy_failed, learner)
      | some d ↦ observe_access facts (subject process) target access learner
    ]

-- The `for` over the accesses of an event, on any state: an error ends it.
unfoldable pub for_each :
    {S : Type 0} → (AccessKind → S → Verdict × S) → List AccessKind → S → Verdict × S
for_each step [] s = (verdict allow, s)
for_each step (access ∷ accesses) s =
    let now = step access s in
    let rest = for_each step accesses now.1 in
    elim now.0 [ verdict d ↦ rest | failed e ↦ now | panic ↦ now ]

unfoldable pub decide_metadata :
    Option AccessPolicy
    → Metadata
    → FilePath
    → AuditObjectId
    → Option ProcessGeneration
    → AuditFacts
    → Option AuditLearner
    → AuditCaches
    → Verdict × Option AuditLearner × AuditCaches
decide_metadata policy m target object generation facts learner c =
    let r = record_identity_and_select_process m object generation facts c in
    elim r.0 [
      | none ↦ (verdict allow, learner, r.1)
      | some (accesses, process) ↦
          let done = for_each (decide_event policy facts process target) accesses learner in
          (done.0, done.1, r.1)
    ]

-- The cache after the question, if one is put; `none` is a panic. What the user says is logged.
unfoldable pub prompt_on_policy_violation :
    Option Prompt
    → AuditFacts
    → ProcessIdentity
    → FilePath
    → AccessKind
    → Decision
    → PromptDecisionCache
    → Option PromptDecisionCache
prompt_on_policy_violation (some p) facts process target access (prompt r d scope) cache =
    elim (prompt_for_policy_decision p cache (Key.new process access (prompt r d scope))
      (subject process) target facts.env (prompt r d scope)) [
        | none ↦ none
        | some (user_decision, cache') ↦ some cache'
      ]
prompt_on_policy_violation _ facts process target access _ cache = some cache

-- What an audit with questions changes beside the caches of processes.
pub record AuditEvaluation : Type 0 where
  pub learner : Option AuditLearner
  pub prompt_cache : PromptDecisionCache

unfoldable pub audit_prompt_event :
    AccessPolicy
    → Option Prompt
    → AuditFacts
    → ProcessIdentity
    → FilePath
    → AccessKind
    → AuditEvaluation
    → Verdict × AuditEvaluation
unfolding observe_access
audit_prompt_event policy p facts process target access e =
    elim (policy.decide (subject process) target access) [
      | none ↦ (failed policy_failed, e)
      | some d ↦ elim (prompt_on_policy_violation p facts process target access d e.prompt_cache) [
        | none ↦ (panic, e)
        | some cache ↦
            let o = observe_access facts (subject process) target access e.learner in
            (o.0, record { learner = o.1; prompt_cache = cache })
      ]
    ]

unfoldable pub decide_metadata_prompt :
    AccessPolicy
    → Option Prompt
    → Metadata
    → FilePath
    → AuditObjectId
    → Option ProcessGeneration
    → AuditFacts
    → AuditEvaluation
    → AuditCaches
    → Verdict × AuditEvaluation × AuditCaches
decide_metadata_prompt policy p m target object generation facts e c =
    let r = record_identity_and_select_process m object generation facts c in
    elim r.0 [
      | none ↦ (verdict allow, e, r.1)
      | some (accesses, process) ↦
          let done = for_each (audit_prompt_event policy p facts process target) accesses e in
          (done.0, done.1, r.1)
    ]
