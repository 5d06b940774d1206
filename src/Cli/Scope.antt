-- ===== src/Cli/Scope.antt =====
-- src/main.rs: the paths that are watched, and the path that the policy is asked about.
use config_guard.Base.{
  Bool, not, ◌&&◌, List, [], ◌∷◌, ◌++◌, Option, none, some, if◌then◌else◌, any, and_then, or_else,
  unwrap_or, is_some_and, list_beq, nat_eq,
}
use config_guard.Std.Bytes.{Bytes, bytes}
use config_guard.Std.FilePath.{
  FilePath, path, to_path, path_eq, starts_with, strip_prefix, is_absolute, join, from_components,
  file_name,
}
use config_guard.Std.FilePath.Parent.{parent}
use config_guard.Std.Map as Map
use config_guard.Policy.Types.{PolicyConfig}
use config_guard.Policy.Decide as Decide
use config_guard.Learning.{PathAlias}
use config_guard.Fanotify.Events.{AccessPolicy}
use mathlib.Core.Option

-- The path below the logical root of the first alias whose real root holds it.
unfoldable pub logical_policy_path : FilePath → List PathAlias → FilePath
logical_policy_path target [] = target
logical_policy_path target (alias ∷ aliases) =
    let rest = logical_policy_path target aliases in
    elim (strip_prefix target alias.real_root) [
      | none ↦ rest
      | some relative ↦ join alias.logical_root (from_components relative)
    ]

-- `StaticPolicy`: the policy asked about the logical path. It never fails.
unfoldable pub static_policy : PolicyConfig → List PathAlias → AccessPolicy
static_policy config aliases = record {
  decide = λ subject target access.
      some (Decide.decide config subject (logical_policy_path target aliases) access);
  authorization_owner_subject = λ subject. Decide.authorization_owner_subject config subject;
}

-- The set of the paths, as it is before the loop.
unfoldable pub path_set : List FilePath → List FilePath
path_set [] = []
path_set (p ∷ ps) = Map.add p (path_set ps)

unfoldable pub alias_is_watched : List FilePath → PathAlias → Bool
alias_is_watched logical_roots alias =
    any (λ root. starts_with alias.logical_root root) logical_roots

-- The loop over the aliases, with the set of the paths seen and the paths so far.
unfoldable pub expand_loop :
    List FilePath → List FilePath → List FilePath → List PathAlias → List FilePath
expand_loop logical_roots seen paths [] = paths
expand_loop logical_roots seen paths (alias ∷ aliases) =
    let added = alias_is_watched logical_roots alias && not (Map.contains alias.real_root seen) in
    expand_loop logical_roots (if added then alias.real_root ∷ seen else seen)
      (if added then paths ++ alias.real_root ∷ [] else paths) aliases

unfoldable pub expand_scope_with_aliases : List FilePath → List PathAlias → List FilePath
unfolding path_set expand_loop alias_is_watched
expand_scope_with_aliases paths aliases = expand_loop paths (path_set paths) paths aliases

-- `collect` into a `Result`: the first failure, or all values.
unfoldable pub canonicalize_scope_paths_in :
    (FilePath → Option FilePath) → FilePath → List FilePath → Option (List FilePath)
canonicalize_scope_paths_in canonicalize current_dir [] = some []
canonicalize_scope_paths_in canonicalize current_dir (p ∷ ps) =
    let absolute_path = if is_absolute p then p else join current_dir p in
    and_then (canonicalize absolute_path) (λ canonical.
      Option.map (λ rest. canonical ∷ rest)
        (canonicalize_scope_paths_in canonicalize current_dir ps))

-- The parent of the first path named `.config`, if it has one.
unfoldable pub find_home : List FilePath → Option FilePath
find_home [] = none
find_home (p ∷ ps) =
    let rest = find_home ps in
    if is_some_and (file_name p) (λ name. list_beq name (bytes ".config"))
    then or_else (parent p) rest
    else rest

unfoldable pub audit_home : Option Bytes → List FilePath → FilePath
unfolding find_home
audit_home home paths =
    unwrap_or (or_else (find_home paths) (Option.map to_path home)) (path "/home/osso")
