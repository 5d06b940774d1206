-- ===== src/Policy/Defaults.antt =====
-- src/policy.rs: the configuration that holds when there is no policy file. The value of `HOME` is an
-- argument.
use config_guard.Base.{Bool, true, false, List, [], ◌∷◌, map, Option, unwrap_or}
use config_guard.Std.Bytes.{Bytes, bytes}
use config_guard.Std.FilePath.{FilePath, path, join}
use config_guard.Policy.Types.{
  AccessKind, read, write, destructive_write, OwnedPath, SharedPath, PathRule, PolicyConfig,
}

home_relative_path : Option FilePath → FilePath → FilePath
home_relative_path home suffix = join (unwrap_or home (path "/home/osso")) suffix

abbrev default_fail_open : Bool
default_fail_open = true

abbrev all_access_kinds : List AccessKind
all_access_kinds = read ∷ write ∷ destructive_write ∷ []

abbrev default_dev_tools : List Bytes
default_dev_tools =
    bytes "codex"
    ∷ bytes "claude"
    ∷ bytes "cursor"
    ∷ bytes "node"
    ∷ bytes "python"
    ∷ bytes "python3"
    ∷ []

abbrev default_shared_subjects : List Bytes
default_shared_subjects =
    bytes "gtk-launch"
    ∷ bytes "xdg-open"
    ∷ bytes "xdg-desktop-portal"
    ∷ bytes "xdg-desktop-portal-gtk"
    ∷ bytes "xdg-desktop-portal-kde"
    ∷ []

owned_row : Option FilePath → Bytes × FilePath → OwnedPath
owned_row home (owner, suffix) = record {
  path = home_relative_path home suffix;
  owner = owner;
  allowed_subjects = [];
  deny_non_owner = false;
}

unfoldable pub default_owned_paths : Option FilePath → List OwnedPath
unfolding owned_row home_relative_path
default_owned_paths home = map (owned_row home) (
    (bytes "kitty", path ".config/kitty")
    ∷ (bytes "nvim", path ".config/nvim")
    ∷ (bytes "gh", path ".config/gh")
    ∷ (bytes "slack", path ".config/Slack")
    ∷ (bytes "firefox", path ".mozilla/firefox")
    ∷ (bytes "chromium", path ".config/chromium")
    ∷ [])

shared_row : Option FilePath → FilePath → SharedPath
shared_row home suffix = record {
  path = home_relative_path home suffix;
  path_prefix = false;
  allowed_subjects = default_shared_subjects;
  access = all_access_kinds;
}

unfoldable pub default_shared_paths : Option FilePath → List SharedPath
unfolding shared_row home_relative_path
default_shared_paths home = map (shared_row home) (
    path ".config/mimeapps.list"
    ∷ path ".config/user-dirs.dirs"
    ∷ path ".config/gtk-3.0"
    ∷ path ".config/gtk-4.0"
    ∷ path ".config/fontconfig"
    ∷ [])

sensitive_row : Option FilePath → FilePath → PathRule
sensitive_row home suffix = record { path = home_relative_path home suffix }

unfoldable pub default_sensitive_paths : Option FilePath → List PathRule
unfolding sensitive_row home_relative_path
default_sensitive_paths home = map (sensitive_row home) (
    path ".config/gh"
    ∷ path ".config/gcloud"
    ∷ path ".config/hass"
    ∷ path ".config/sentry"
    ∷ path ".ssh"
    ∷ path ".mozilla/firefox"
    ∷ [])

-- `PolicyConfig::default`.
unfoldable pub default_config : Option FilePath → PolicyConfig
unfolding default_owned_paths default_shared_paths default_sensitive_paths
default_config home = record {
  owned_paths = default_owned_paths home;
  shared_paths = default_shared_paths home;
  sensitive_paths = default_sensitive_paths home;
  dev_tools = default_dev_tools;
  fail_open = default_fail_open;
}
