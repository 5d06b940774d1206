-- ===== src/Learning.antt =====
-- src/learning.rs: the roots of the configuration directories, and the observations of the audit.
pub mod Owners
pub mod Symlinks
pub mod Output
mod Tests
use config_guard.Base.{
  ℕ, suc, ◌+◌, ◌^◌, ◌≡◌, refl, Bool, true, false, ◌&&◌, List, [], ◌∷◌, Option, none, some, arith,
  Eq, ◌==◌, if◌then◌else◌, and_then, or_else, unwrap_or, is_some_and, length, first, nat_eq,
  list_eq, list_beq, list_refl, list_sym, list_left,
}
use config_guard.Std.Bytes.{Bytes, bytes}
use config_guard.Std.Utf8.{to_str}
use config_guard.Std.FilePath.{
  FilePath, Component, path_beq, path_eq, path_refl, path_sym, path_left, join, path, to_path,
  strip_prefix, component_str,
}
use config_guard.Std.Map as Map
use config_guard.Std.Map.{Map}
use config_guard.Policy.Types.{ProcessSubject, AccessKind, access_beq}
use config_guard.Policy.Subject.{subject_name}
use config_guard.Fanotify.PromptResolution.Key.{access_refl, access_sound}

pub record PathAlias : Type 0 where
  pub real_root : FilePath
  pub logical_root : FilePath

-- `AccessLabel`, which Output declares, has the cases of `AccessKind`; the key has the latter.
pub record ObservationKey : Type 0 where
  pub subject : Bytes
  pub config_root : FilePath
  pub access : AccessKind

unfoldable pub observation_beq : ObservationKey → ObservationKey → Bool
observation_beq a b =
    list_beq a.subject b.subject
    && path_beq a.config_root b.config_root
    && access_beq a.access b.access

pub observation_refl : (a : ObservationKey) → observation_beq a a ≡ true
unfolding observation_beq
observation_refl a =
    ground (arith, list_refl a.subject, path_refl a.config_root, access_refl a.access)

pub observation_sym : (a b : ObservationKey) → observation_beq a b ≡ observation_beq b a
unfolding observation_beq access_beq
observation_sym a b =
    ground (arith, list_sym a.subject b.subject, path_sym a.config_root b.config_root)

pub observation_left :
    (a b c : ObservationKey)
    → observation_beq a b ≡ true
    → observation_beq a c ≡ observation_beq b c
unfolding observation_beq
observation_left a b c h = ground (
  arith,
  list_left a.subject b.subject c.subject,
  path_left a.config_root b.config_root c.config_root,
  access_sound a.access b.access,
)

instance abbrev pub observation_eq : Eq ObservationKey
observation_eq = record {
  beq = observation_beq;
  beq_refl = observation_refl;
  beq_sym = observation_sym;
  beq_left = observation_left;
}

-- The counts wrap nowhere: they are unbounded here, and 64 bits wide in the source.
pub record AuditLearner : Type 0 where
  pub home_dir : FilePath
  pub path_aliases : List PathAlias
  pub observations : Map ObservationKey ℕ

unfoldable pub config_subdir_root : FilePath → Bytes → Option FilePath
config_subdir_root home subdir =
    if list_beq subdir [] then none else some (join (join home (path ".config")) (to_path subdir))

-- The rest of the components, after the first.
config_root_of : FilePath → Bytes → List Component → Option FilePath
unfolding config_subdir_root
config_root_of home first rest =
    if list_beq first (bytes ".config")
    then elim rest [
      | [] ↦ none
      | c ∷ cs ↦ and_then (to_str (component_str c)) (config_subdir_root home)
    ]
    else if list_beq first (bytes ".codex")
    then some (join home (path ".codex"))
    else if list_beq first (bytes ".kube")
    then some (join home (path ".kube"))
    else if list_beq first (bytes ".ssh")
    then some (join home (path ".ssh"))
    else if list_beq first (bytes ".mozilla")
    then some (join home (path ".mozilla"))
    else none

from_relative : FilePath → List Component → Option FilePath
unfolding config_root_of
from_relative home [] = none
from_relative home (c ∷ cs) =
    and_then (to_str (component_str c)) (λ first. config_root_of home first cs)

unfoldable pub config_root_for_home : FilePath → FilePath → Option FilePath
unfolding from_relative
config_root_for_home p home = and_then (strip_prefix p home) (from_relative home)

-- `find_map`: the first alias whose real root holds the path.
unfoldable pub config_root_for_alias : FilePath → List PathAlias → Option FilePath
config_root_for_alias p [] = none
config_root_for_alias p (alias ∷ aliases) =
    let rest = config_root_for_alias p aliases in
    if is_some_and (strip_prefix p alias.real_root) (λ r. true)
    then some alias.logical_root
    else rest

unfoldable pub config_root_for_home_or_alias :
    FilePath → FilePath → List PathAlias → Option FilePath
config_root_for_home_or_alias p home aliases =
    or_else (config_root_for_home p home) (config_root_for_alias p aliases)

-- `entry(key).or_default() += 1`.
unfoldable pub count_up : ObservationKey → Map ObservationKey ℕ → Map ObservationKey ℕ
count_up key m = Map.insert key (unwrap_or (Map.get key m) 0 + 1) m

-- `written` says whether the output file can be written, and the first result whether the call is
-- `Ok`. A path outside the configuration directories writes nothing.
unfoldable pub observe :
    Bool → AuditLearner → ProcessSubject → FilePath → AccessKind → Bool × AuditLearner
observe written l subject target access =
    elim (config_root_for_home_or_alias target l.home_dir l.path_aliases) [
      | none ↦ (true, l)
      | some root ↦ (
        written,
        record l {
          observations =
              count_up
                (record { subject = subject_name subject; config_root = root; access = access })
                l.observations;
        },
      )
    ]

pub record LearnedOwnedPath : Type 0 where
  pub path : FilePath
  pub owner : Bytes
  pub allowed_subjects : List Bytes

-- The subjects seen under each root. The maps of the source are ordered; here only what they hold
-- counts.
unfoldable pub add_subject : Map FilePath (List Bytes) → ObservationKey → Map FilePath (List Bytes)
add_subject m key =
    Map.insert key.config_root (Map.add key.subject (unwrap_or (Map.get key.config_root m) [])) m

unfoldable pub subjects_by_root_from :
    Map FilePath (List Bytes) → Map ObservationKey ℕ → Map FilePath (List Bytes)
subjects_by_root_from m [] = m
subjects_by_root_from m ((key, n) ∷ observations) =
    subjects_by_root_from (add_subject m key) observations

unfoldable pub subjects_by_root : Map ObservationKey ℕ → Map FilePath (List Bytes)
subjects_by_root observations = subjects_by_root_from [] observations

unfoldable pub candidate_owner_for_root : FilePath → List Bytes → Option LearnedOwnedPath
candidate_owner_for_root root [] = none
candidate_owner_for_root root (s ∷ []) =
    some (record { path = root; owner = s; allowed_subjects = [] })
candidate_owner_for_root root (s ∷ t ∷ ss) = none

unfoldable pub candidates : Map FilePath (List Bytes) → List LearnedOwnedPath
candidates [] = []
candidates ((root, subjects) ∷ m) =
    let rest = candidates m in
    elim (candidate_owner_for_root root subjects) [ none ↦ rest | some c ↦ c ∷ rest ]

unfoldable pub candidate_owned_paths : AuditLearner → List LearnedOwnedPath
candidate_owned_paths l = candidates (subjects_by_root l.observations)
