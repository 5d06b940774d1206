-- ===== src/Policy/Tests.antt =====
-- src/policy.rs: the theorems at one policy, with runs of its decisions.
use config_guard.Base.{
  ◌≡◌, refl, ◌↔◌, true, false, List, [], ◌∷◌, ◌++◌, some, arith, list_beq, any, keep, find, Any,
  ◌&&◌,
}
use config_guard.Std.Bytes.{bytes, strip_prefix, split_once}
use config_guard.Std.Utf8.{to_str, is_utf8}
use config_guard.Std.FilePath.{
  FilePath, path, components, component_beq, starts_with, file_name, path_beq, is_prefix,
}
use config_guard.Policy.Types.{
  ProcessSubject, read, write, allow, deny, prompt, cross_owner_read, OwnedPath, PolicyConfig,
  access_beq,
}
use config_guard.Policy.Subject.{
  has_name, subject_name, ancestor_matches, subject_matches_body, subject_matches_within,
  subject_matches, subjects_allow, subject_matches_with_ancestor,
}
use config_guard.Policy.Decide.{
  default_decision, max_from, max_by_key, owner_for, allows, shared_path_matches,
  shared_path_allows, sensitive_dev_tool_access, prompt_decision, prompt_for_sensitive_access,
  prompt_for_cross_owner_access, decide, find_owner, authorization_owner_subject, is_gitignore,
}
use config_guard.Policy.Matching.{subject_matches-with_ancestor, with_ancestor_nested}
use config_guard.Policy.Grammar.{IsAdmitted, subject_matches_iff}
use config_guard.Policy.Ownership.{
  owner_for-most_specific, authorization_owner_subject-nearest, NoOwner,
}
use config_guard.Policy.Precedence.{
  IsScope, decide-gitignore, decide-deny_iff, decide-prompt, decide-strict, decide-unlisted,
}

program : Unit {0}
unfolding components component_beq starts_with file_name path_beq is_prefix list_beq strip_prefix
    split_once any keep find subject_name ancestor_matches subject_matches_body
    subject_matches_within subject_matches subject_matches_with_ancestor subjects_allow
    default_decision max_from max_by_key owner_for allows shared_path_matches shared_path_allows
    sensitive_dev_tool_access prompt_decision prompt_for_sensitive_access
    prompt_for_cross_owner_access decide find_owner authorization_owner_subject access_beq to_str
    is_utf8
program = tt

abbrev pub firefox_dir : OwnedPath
firefox_dir = record {
  path = path "/home/u/.mozilla";
  owner = bytes "firefox";
  allowed_subjects = [];
  deny_non_owner = false;
}

abbrev pub keys_dir : OwnedPath
keys_dir = record {
  path = path "/home/u/.mozilla/keys";
  owner = bytes "keyring";
  allowed_subjects = bytes "exe:/usr/bin/backup" ∷ [];
  deny_non_owner = true;
}

abbrev pub config : PolicyConfig
config = record {
  owned_paths = firefox_dir ∷ keys_dir ∷ [];
  shared_paths = [];
  sensitive_paths = record { path = path "/home/u/.ssh" } ∷ [];
  dev_tools = bytes "node" ∷ [];
  fail_open = false;
}

abbrev pub cat : ProcessSubject
cat = record {
  executable = path "/usr/bin/cat";
  command = bytes "cat" ∷ [];
  ancestors = path "/usr/bin/bash" ∷ path "/usr/lib/firefox" ∷ [];
}

strict_run : decide config cat (path "/home/u/.mozilla/keys/a") read ≡ deny
unfolding program
strict_run = refl

question_run :
    decide config cat (path "/home/u/.mozilla/prefs.js") read
    ≡ prompt cross_owner_read deny (path "/home/u/.mozilla")
unfolding program
question_run = refl

decide-gitignore_example : decide config cat (path "/home/u/.mozilla/.gitignore") write ≡ allow
unfolding program
decide-gitignore_example =
    decide-gitignore config cat (path "/home/u/.mozilla/.gitignore") write refl

decide-deny_iff_example : (decide config cat (path "/home/u/.mozilla/keys/a") read ≡ deny) ↔ (
    (is_gitignore (path "/home/u/.mozilla/keys/a") ≡ false)
    × ((o : OwnedPath) × (owner_for config (path "/home/u/.mozilla/keys/a") ≡ some o)
        × (o.deny_non_owner ≡ true)
        × (allows o cat (subject_name cat) ≡ false)))
decide-deny_iff_example = decide-deny_iff config cat (path "/home/u/.mozilla/keys/a") read

decide-prompt_example :
    IsScope config cat (path "/home/u/.mozilla/prefs.js") cross_owner_read (path "/home/u/.mozilla")
unfolding program
decide-prompt_example =
    (decide-prompt config cat (path "/home/u/.mozilla/prefs.js") read cross_owner_read deny
      (path "/home/u/.mozilla") refl).5

decide-strict_run :
    decide
      (record config { fail_open = true; dev_tools = [] })
      cat
      (path "/home/u/.mozilla/keys/a")
      write
    ≡ decide config cat (path "/home/u/.mozilla/keys/a") read
unfolding program
decide-strict_run =
    decide-strict config (record config { fail_open = true; dev_tools = [] }) cat
      (path "/home/u/.mozilla/keys/a") read write keys_dir refl refl refl

decide-unlisted_run : decide config cat (path "/home/u/notes") write ≡ allow
unfolding program
decide-unlisted_run =
    decide-unlisted config cat (path "/home/u/notes") write (refl, (refl, tt)) (refl, tt)

owner_for-most_specific_run : starts_with (path "/home/u/.mozilla/keys/a") keys_dir.path ≡ true
unfolding program
owner_for-most_specific_run =
    (owner_for-most_specific config (path "/home/u/.mozilla/keys/a") keys_dir refl).0

authorization_owner_subject-nearest_example :
    (before : List FilePath) × (a : FilePath) × (after : List FilePath) × (cat.ancestors
      ≡ before ++ a ∷ after)
    × NoOwner config.owned_paths before
    × (has_name (bytes "firefox") a ≡ true)
    × Any (λ o. o.owner ≡ bytes "firefox") config.owned_paths
unfolding program
authorization_owner_subject-nearest_example =
    authorization_owner_subject-nearest config cat (bytes "firefox") refl

subject_matches_iff_example :
    (subject_matches_within 30 cat (bytes "cat") (bytes "with-ancestor:cat|bash")
      ≡ some (subject_matches (bytes "with-ancestor:cat|bash") cat (bytes "cat")))
    × ((subject_matches (bytes "with-ancestor:cat|bash") cat (bytes "cat") ≡ true)
        ↔ IsAdmitted cat (bytes "cat") (bytes "with-ancestor:cat|bash"))
subject_matches_iff_example =
    subject_matches_iff cat (bytes "cat") (bytes "with-ancestor:cat|bash") 30 (omega arith)

ancestor_run : subject_matches (bytes "with-ancestor:cat|bash") cat (bytes "cat") ≡ true
unfolding program
ancestor_run = refl

subject_matches-with_ancestor_example :
    subject_matches (bytes "with-ancestor:cat|bash") cat (bytes "cat") ≡ (
      subject_matches (bytes "cat") cat (bytes "cat")
      && any (ancestor_matches (bytes "bash")) cat.ancestors)
unfolding program
subject_matches-with_ancestor_example =
    subject_matches-with_ancestor (bytes "cat") (bytes "bash") cat (bytes "cat") refl refl

with_ancestor_nested_example :
    subject_matches (bytes "with-ancestor:with-ancestor:cat|bash") cat (bytes "cat") ≡ false
unfolding program
with_ancestor_nested_example =
    with_ancestor_nested (bytes "cat") (bytes "bash") cat (bytes "cat") refl refl refl
