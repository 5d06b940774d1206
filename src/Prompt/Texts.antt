-- ===== src/Prompt/Texts.antt =====
-- src/prompt.rs: what the user is shown. A path is displayed as its bytes.
use config_guard.Base.{◌++◌, ◌∷◌, none, some}
use config_guard.Std.Bytes.{Bytes, bytes}
use config_guard.Std.Number.{to_string}
use config_guard.Policy.Types.{
  ProcessSubject, DecisionReason, cross_owner_read, cross_owner_write, sensitive_read_by_dev_tool,
  sensitive_write,
}
use config_guard.Prompt.Types.{AncestryAuthorization, PromptRequest}
use config_guard.Prompt.Ancestry.{executable_name}

-- The derived `Debug` of the type.
unfoldable pub debug_reason : DecisionReason → Bytes
debug_reason cross_owner_read = bytes "CrossOwnerRead"
debug_reason cross_owner_write = bytes "CrossOwnerWrite"
debug_reason sensitive_read_by_dev_tool = bytes "SensitiveReadByDevTool"
debug_reason sensitive_write = bytes "SensitiveWrite"

unfoldable pub display_subject : ProcessSubject → Bytes
display_subject subject = executable_name subject.executable

unfoldable pub prompt_message : PromptRequest → Bytes
prompt_message request =
    let subject = display_subject request.subject in
    elim request.authorization [
      | none ↦ bytes "Allow " ++ (subject ++ bytes " to access this config file?")
      | some authorization ↦
          bytes "Allow "
          ++ (subject
              ++ (bytes " launched by "
                  ++ (authorization.owner_ancestor.executable.os_str
                      ++ bytes
                          " to access all Config Guard protected paths until Config Guard restarts?")))
    ]

unfoldable pub grant_detail : AncestryAuthorization → Bytes
grant_detail authorization =
    bytes "\n\nGrant: read and write across all Config Guard protected paths\nOwner executable: "
    ++ (authorization.owner_ancestor.executable.os_str
        ++ (bytes "\nCurrent owner process: PID " ++ to_string authorization.owner_ancestor.pid))

unfoldable pub prompt_detail : PromptRequest → Bytes
prompt_detail request =
    let detail = debug_reason request.reason ++ (b'\n' ∷ request.target_path.os_str) in
    elim request.authorization [
      | none ↦ detail
      | some authorization ↦ detail ++ grant_detail authorization
    ]
