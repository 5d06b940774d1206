-- ===== src/Fanotify/PromptResolution/Tests.antt =====
-- src/fanotify/prompt_resolution.rs: the theorems at one key and one authorization.
use config_guard.Base.{
  ◌≡◌, refl, inr, true, ◌||◌, ◌&&◌, [], none, some, list_beq, if◌then◌else◌, is_some_and,
}
use config_guard.Std.FilePath.{path, components, component_beq, path_beq}
use config_guard.Policy.Types.{
  Decision, allow, deny, prompt, read, cross_owner_read, access_beq, reason_beq,
}
use config_guard.Prompt.Types.{AncestryAuthorization}
use config_guard.Prompt.Ancestry.{key, key_beq}
use config_guard.Prompt.Adapters.{non_interactive}
use config_guard.Fanotify.PromptResolution.Key.{PromptDecisionKey, prompt_key_beq}
use config_guard.Fanotify.PromptResolution.{
  PromptDecisionCache, empty, get, allows_authorization, cache_prompt_answer,
  immediate_prompt_decision, PolicyPromptRequest, prompt_for_policy_decision_with_authorization,
}
use config_guard.Fanotify.PromptResolution.Reuse.{
  IsFinal, is_allow, get-cache_prompt_answer, allows_authorization-cache_prompt_answer,
  answer_reused, authorization_reused,
}
use config_guard.Fanotify.PromptResolution.Final.{resolution-IsFinal, non_interactive-IsFinal}
use config_guard.Fanotify.PromptResolution.Cached.{CacheIsFinal}

program : Unit {0}
unfolding components component_beq path_beq list_beq access_beq reason_beq prompt_key_beq key_beq
    key
program = tt

abbrev asked : PromptDecisionKey
asked = record {
  pid = 7;
  start_time_ticks = 100;
  executable = path "/usr/bin/cat";
  access = read;
  reason = cross_owner_read;
}

abbrev below_firefox : AncestryAuthorization
below_firefox = record {
  subject_executable = path "/usr/bin/cat";
  owner_ancestor = record {
    pid = 3;
    executable = path "/usr/lib/firefox";
    start_time_ticks = some 50;
  };
}

get-cache_prompt_answer_example :
    get (cache_prompt_answer empty (some asked) none deny true) asked
    ≡ (if prompt_key_beq asked asked then some deny else get empty asked)
get-cache_prompt_answer_example =
    get-cache_prompt_answer empty asked asked none deny true (inr refl)

allows_authorization-cache_prompt_answer_run :
    allows_authorization
      (cache_prompt_answer empty none (some below_firefox) allow true)
      (some below_firefox)
    ≡ ((true
          && is_allow allow
          && is_some_and (some below_firefox) (λ x. key_beq (key x) (key below_firefox)))
        || allows_authorization empty (some below_firefox))
allows_authorization-cache_prompt_answer_run =
    allows_authorization-cache_prompt_answer empty none (some below_firefox) allow true
      below_firefox

-- Another path and another scope than at the first question.
answer_reused_example :
    immediate_prompt_decision non_interactive
      (cache_prompt_answer empty (some asked) none deny true)
      (some asked)
      none
      []
      (prompt cross_owner_read allow (path "/home/u/.kube"))
    ≡ (some deny, cache_prompt_answer empty (some asked) none deny true)
unfolding program allows_authorization
answer_reused_example =
    answer_reused empty asked none deny true non_interactive asked none [] cross_owner_read allow
      (path "/home/u/.kube") (inr refl) refl

authorization_reused_run :
    immediate_prompt_decision non_interactive
      (cache_prompt_answer empty none (some below_firefox) allow true)
      (some asked)
      (some below_firefox)
      []
      (prompt cross_owner_read deny (path "/home/u/.kube"))
    ≡ (some allow, cache_prompt_answer empty none (some below_firefox) allow true)
unfolding program
authorization_reused_run =
    authorization_reused empty none (some asked) below_firefox below_firefox non_interactive []
      cross_owner_read deny (path "/home/u/.kube") refl

abbrev request : PolicyPromptRequest
request = record {
  authorization = none;
  subject = record { executable = path "/usr/bin/cat"; command = []; ancestors = [] };
  target_path = path "/home/u/.kube/config";
  env = [];
  decision = prompt cross_owner_read deny (path "/home/u/.kube");
}

resolution-IsFinal_example :
    (d : Decision) × (c : PromptDecisionCache) × (prompt_for_policy_decision_with_authorization
        non_interactive empty
        (some asked)
        request
      ≡ some (d, c))
    × IsFinal d
    × CacheIsFinal c
resolution-IsFinal_example =
    resolution-IsFinal non_interactive empty (some asked) request non_interactive-IsFinal tt
      (inr refl)
