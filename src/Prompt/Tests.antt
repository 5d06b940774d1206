-- ===== src/Prompt/Tests.antt =====
-- src/prompt.rs: the owner of an authorization in one ancestry.
use config_guard.Base.{ℕ, ◌≡◌, ◌⊎◌, true, refl, [], ◌∷◌, none, some, list_beq}
use config_guard.Std.Bytes.{bytes}
use config_guard.Std.Utf8.{to_str, is_utf8}
use config_guard.Std.FilePath.{path, components, component_beq, file_name}
use config_guard.Policy.Types.{Decision, allow, deny, prompt, cross_owner_read}
use config_guard.Process.Identity.{ProcessAncestor, ProcessIdentity}
use config_guard.Prompt.Types.{
  AncestryAuthorization, PromptAnswer, explicit, default, PromptRequest,
}
use config_guard.Prompt.Adapters.{AuthResponse}
use config_guard.Prompt.Texts.{prompt_message, display_subject}
use config_guard.Prompt.Authd.{Socket, authd_prompt}
use config_guard.Prompt.Reply.{IsReplied, authd_prompt-answers}
use config_guard.Prompt.Ancestry.{
  executable_name, ancestor_matches_owner, skip_to, take_while, chain_root, owner_chain_root, new,
  owner_is_current,
}
use config_guard.Process.Procfs.{is_process_generation_current}
use config_guard.Process.Procfs.Ancestors.{IsAncestor}
use config_guard.Process.Samples.{procfs, inspected, inspect_run}
use config_guard.Prompt.Inspected.{new-inspect_process}
use config_guard.Prompt.OwnerChain.{OwnerChain, owner_chain_root-OwnerChain, new_sound}

program : Unit {0}
unfolding components component_beq file_name list_beq to_str is_utf8 executable_name
    ancestor_matches_owner skip_to take_while chain_root owner_chain_root new
program = tt

abbrev firefox : ℕ → ProcessAncestor
firefox pid = record {
  pid = pid;
  executable = path "/usr/lib/firefox/firefox";
  start_time_ticks = some pid;
}

abbrev bash : ProcessAncestor
bash = record { pid = 30; executable = path "/usr/bin/bash"; start_time_ticks = some 30 }

-- A shell below a content process of the browser.
abbrev cat : ProcessIdentity
cat = record {
  pid = 40;
  executable = some (path "/usr/bin/cat");
  command = [];
  cwd = none;
  start_time_ticks = some 40;
  ancestors = [];
  ancestor_processes = bash ∷ firefox 20 ∷ firefox 10 ∷ bash ∷ [];
}

owner_chain_root-OwnerChain_example : OwnerChain cat (bytes "firefox") (firefox 10)
unfolding program
owner_chain_root-OwnerChain_example =
    owner_chain_root-OwnerChain cat (bytes "firefox") (firefox 10) refl

abbrev granted : AncestryAuthorization
granted = record { subject_executable = path "/usr/bin/cat"; owner_ancestor = firefox 10 }

new_sound_example : OwnerChain cat (bytes "firefox") granted.owner_ancestor
unfolding program
new_sound_example =
    (new_sound cat (bytes "firefox") (prompt cross_owner_read deny (path "/home/u/.mozilla"))
      granted refl).2

abbrev kitty_grant : AncestryAuthorization
kitty_grant = record {
  subject_executable = path "/usr/bin/vim";
  owner_ancestor = record {
    pid = 7;
    executable = path "/usr/bin/kitty";
    start_time_ticks = some 500;
  };
}

abbrev kitty_read : Decision
kitty_read = prompt cross_owner_read deny (path "/home/u/.config/kitty")

kitty_owner : new inspected (bytes "kitty") kitty_read ≡ some kitty_grant
unfolding program
kitty_owner = refl

new-inspect_process_example :
    IsAncestor procfs 12 kitty_grant.owner_ancestor
    × (ancestor_matches_owner kitty_grant.owner_ancestor (bytes "kitty") ≡ true)
    × (owner_is_current (is_process_generation_current procfs) kitty_grant ≡ true)
new-inspect_process_example =
    new-inspect_process procfs 12 inspected (bytes "kitty") kitty_read kitty_grant inspect_run
      kitty_owner

abbrev request : PromptRequest
request = record {
  subject = record { executable = path "/usr/bin/cat"; command = []; ancestors = [] };
  target_path = path "/home/u/.mozilla/prefs.js";
  reason = cross_owner_read;
  default_decision = deny;
  env = [];
  authorization = none;
}

-- A socket on which the user says yes.
abbrev socket : Socket
socket = record {
  connects = true;
  sets_read_timeout = true;
  sets_write_timeout = true;
  encode = λ r. some (bytes "?");
  writes = λ payload. true;
  received = some (bytes "yes");
  decode = λ reply. some AuthResponse.success;
}

authd_prompt-answers_example :
    (a : PromptAnswer) × ((authd_prompt socket).ask_answer request ≡ some a)
    × ((a ≡ default request.default_decision)
        ⊎ ((a ≡ explicit allow) × IsReplied socket request AuthResponse.success)
        ⊎ ((a ≡ explicit deny)
            × (IsReplied socket request AuthResponse.denied
                ⊎ IsReplied socket request AuthResponse.auth_failed)))
authd_prompt-answers_example = authd_prompt-answers socket request

message_run : prompt_message request ≡ bytes "Allow cat to access this config file?"
unfolding program prompt_message display_subject
message_run = refl
