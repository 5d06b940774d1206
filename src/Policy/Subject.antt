-- ===== src/Policy/Subject.antt =====
-- src/policy.rs: `subject_name`, `executable_label` and the matching of a subject against the entries
-- of an `allowed_subjects` list.
use config_guard.Base.{
  ℕ, zero, suc, Bool, true, false, ◌&&◌, ◌||◌, List, ◌++◌, Option, none, some, if◌then◌else◌, any,
  first, length, list_beq, nat_eq, or_else, unwrap_or, is_some_and,
}
use config_guard.Std.Bytes.{Bytes, bytes, strip_prefix, split_once}
use config_guard.Std.FilePath.{FilePath, file_name_str, starts_with, path_beq, path, to_path}
use config_guard.Policy.Types.{ProcessSubject}
use mathlib.Core.Option

unfoldable pub subject_name : ProcessSubject → Bytes
subject_name s =
    unwrap_or (or_else (file_name_str s.executable) (first s.command)) (bytes "unknown")

-- `display` writes the path's bytes.
unfoldable pub executable_label : FilePath → Bytes
executable_label executable =
    if starts_with executable (path "/home/osso/.local/share/claude/versions")
    then bytes "claude:" ++ executable.os_str
    else unwrap_or (file_name_str executable) (bytes "unknown")

-- `file_name().and_then(to_str) == Some(name)`.
abbrev pub has_name : Bytes → FilePath → Bool
has_name name p = is_some_and (file_name_str p) (λ n. list_beq n name)

unfoldable pub ancestor_matches : Bytes → FilePath → Bool
ancestor_matches rule ancestor = elim (strip_prefix (bytes "exe-prefix:") rule) [
  | some base ↦ starts_with ancestor (to_path base)
  | none ↦ elim (strip_prefix (bytes "exe:") rule) [
    | some p ↦ path_beq ancestor (to_path p)
    | none ↦ has_name rule ancestor
  ]
]

unfoldable pub subject_matches_executable_with_ancestor_prefix : Bytes → ProcessSubject → Bool
subject_matches_executable_with_ancestor_prefix rule s = elim (split_once b':' rule) [
  | none ↦ false
  | some (executable, ancestor_prefix) ↦
      path_beq s.executable (to_path executable)
      && any (λ a. starts_with a (to_path ancestor_prefix)) s.ancestors
]

-- `matches` is the recursive call of `subject_matches`, and `none` a call that has not ended.
unfoldable pub subject_matches_with_ancestor :
    (Bytes → Option Bool) → Bytes → ProcessSubject → Option Bool
subject_matches_with_ancestor matches rule s = elim (split_once b'|' rule) [
  | none ↦ some false
  | some (subject_rule, ancestor_rule) ↦
      Option.map (λ m. m && any (ancestor_matches ancestor_rule) s.ancestors) (matches subject_rule)
]

-- The body of `subject_matches` over its recursive call.
unfoldable pub subject_matches_body :
    (Bytes → Option Bool) → ProcessSubject → Bytes → Bytes → Option Bool
subject_matches_body matches s name allowed =
    if list_beq allowed (bytes "*") || list_beq allowed name
    then some true
    else elim (strip_prefix (bytes "exe-prefix:") allowed) [
      | some base ↦ some (starts_with s.executable (to_path base))
      | none ↦ elim (strip_prefix (bytes "exe:") allowed) [
        | some p ↦ some (path_beq s.executable (to_path p))
        | none ↦ elim (strip_prefix (bytes "exe-with-ancestor-prefix:") allowed) [
          | some rule ↦ some (subject_matches_executable_with_ancestor_prefix rule s)
          | none ↦ elim (strip_prefix (bytes "with-ancestor:") allowed) [
            | some rule ↦ subject_matches_with_ancestor matches rule s
            | none ↦ some false
          ]
        ]
      ]
    ]

-- The recursion by its depth: `none` if it is deeper than the fuel.
unfoldable pub subject_matches_within : ℕ → ProcessSubject → Bytes → Bytes → Option Bool
subject_matches_within zero s name allowed = none
subject_matches_within (suc fuel) s name allowed =
    subject_matches_body (subject_matches_within fuel s name) s name allowed

-- The recursion is on a part of the text, so it is never deeper than the text is long.
unfoldable pub subject_matches : Bytes → ProcessSubject → Bytes → Bool
subject_matches allowed s name =
    unwrap_or (subject_matches_within (suc (length allowed)) s name allowed) false

unfoldable pub subjects_allow : List Bytes → ProcessSubject → Bytes → Bool
subjects_allow allowed_subjects s name =
    any (λ allowed. subject_matches allowed s name) allowed_subjects
