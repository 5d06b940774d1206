-- ===== src/Policy/Decide.antt =====
-- src/policy.rs: `Policy::decide` and its rules. The policy is its configuration.
use config_guard.Base.{
  ℕ, Bool, ◌&&◌, ◌||◌, List, [], ◌∷◌, Option, none, some, if◌then◌else◌, any, keep, find, length,
  list_beq, nat_eq, ltb, is_some_and,
}
use config_guard.Std.Bytes.{Bytes, bytes}
use config_guard.Std.Bytes as Bytes
use config_guard.Std.FilePath.{FilePath, file_name, starts_with}
use config_guard.Policy.Types.{
  ProcessSubject, AccessKind, read, write, destructive_write, Decision, allow, deny, prompt,
  DecisionReason, cross_owner_read, cross_owner_write, sensitive_read_by_dev_tool, sensitive_write,
  OwnedPath, SharedPath, PathRule, PolicyConfig, access_beq,
}
use config_guard.Policy.Subject.{subject_name, subjects_allow, has_name}

unfoldable pub default_decision : PolicyConfig → Decision
default_decision c = if c.fail_open then allow else deny

-- Identity in the source.
unfoldable pub apply_prompt_answer : PolicyConfig → Decision → Decision
apply_prompt_answer c answer = answer

-- `max_by_key`: of equal keys the last one wins.
module _ {ℓ} {A : Type ℓ} (key : A → ℕ) where
  unfoldable pub max_from : A → List A → A
  max_from best [] = best
  max_from best (x ∷ xs) = max_from (if ltb (key x) (key best) then best else x) xs

  unfoldable pub max_by_key : List A → Option A
  max_by_key [] = none
  max_by_key (x ∷ xs) = some (max_from x xs)

abbrev pub path_len : FilePath → ℕ
path_len p = length p.os_str

unfoldable pub owner_for : PolicyConfig → FilePath → Option OwnedPath
owner_for c target =
    max_by_key (λ o. path_len o.path) (keep (λ o. starts_with target o.path) c.owned_paths)

unfoldable pub allows : OwnedPath → ProcessSubject → Bytes → Bool
allows o s name = list_beq o.owner name || subjects_allow o.allowed_subjects s name

-- A prefix match is by bytes, any other by whole components.
unfoldable pub shared_path_matches : SharedPath → FilePath → Bool
shared_path_matches shared target =
    if shared.path_prefix
    then Bytes.starts_with shared.path.os_str target.os_str
    else starts_with target shared.path

unfoldable pub shared_path_allows :
    PolicyConfig → ProcessSubject → Bytes → FilePath → AccessKind → Bool
unfolding access_beq
shared_path_allows c s name target access =
    any
      (λ shared.
        shared_path_matches shared target
        && any (access_beq access) shared.access
        && subjects_allow shared.allowed_subjects s name)
      c.shared_paths

unfoldable pub sensitive_dev_tool_access :
    PolicyConfig → ProcessSubject → Bytes → FilePath → Option PathRule
sensitive_dev_tool_access c s name target =
    if subjects_allow c.dev_tools s name
    then max_by_key (λ r. path_len r.path) (keep (λ r. starts_with target r.path) c.sensitive_paths)
    else none

unfoldable pub prompt_decision : PolicyConfig → DecisionReason → FilePath → Decision
prompt_decision c reason scope = prompt reason (default_decision c) scope

sensitive_reason : AccessKind → DecisionReason
sensitive_reason read = sensitive_read_by_dev_tool
sensitive_reason write = sensitive_write
sensitive_reason destructive_write = sensitive_write

cross_owner_reason : AccessKind → DecisionReason
cross_owner_reason read = cross_owner_read
cross_owner_reason write = cross_owner_write
cross_owner_reason destructive_write = cross_owner_write

unfoldable pub prompt_for_sensitive_access : PolicyConfig → AccessKind → FilePath → Decision
unfolding sensitive_reason prompt_decision
prompt_for_sensitive_access c access target = prompt_decision c (sensitive_reason access) target

unfoldable pub prompt_for_cross_owner_access : PolicyConfig → AccessKind → FilePath → Decision
unfolding cross_owner_reason prompt_decision
prompt_for_cross_owner_access c access scope = prompt_decision c (cross_owner_reason access) scope

abbrev pub is_gitignore : FilePath → Bool
is_gitignore target = is_some_and (file_name target) (λ n. list_beq n (bytes ".gitignore"))

unfoldable pub decide : PolicyConfig → ProcessSubject → FilePath → AccessKind → Decision
decide c s target access =
    if is_gitignore target
    then allow
    else let name = subject_name s in
      let owner = owner_for c target in
      if is_some_and owner (λ o. allows o s name)
      then allow
      else if is_some_and owner (λ o. o.deny_non_owner)
      then deny
      else if shared_path_allows c s name target access
      then allow
      else elim (sensitive_dev_tool_access c s name target) [
        | some rule ↦ prompt_for_sensitive_access c access rule.path
        | none ↦ elim owner [
          | some o ↦ prompt_for_cross_owner_access c access o.path
          | none ↦ allow
        ]
      ]

-- `find_map` over the ancestors, nearest first.
unfoldable pub find_owner : List OwnedPath → List FilePath → Option Bytes
find_owner owned [] = none
find_owner owned (a ∷ as') = elim (find (λ o. has_name o.owner a) owned) [
  | some o ↦ some o.owner
  | none ↦ find_owner owned as'
]

unfoldable pub authorization_owner_subject : PolicyConfig → ProcessSubject → Option Bytes
unfolding find_owner
authorization_owner_subject c s = find_owner c.owned_paths s.ancestors
