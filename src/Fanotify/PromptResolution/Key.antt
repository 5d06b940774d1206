-- ===== src/Fanotify/PromptResolution/Key.antt =====
-- src/fanotify/prompt_resolution.rs: `PromptDecisionKey`, which ties an answer to one generation of a
-- process. Paths in a key are compared by components.
use config_guard.Base.{ℕ, ◌≡◌, refl, Bool, true, ◌&&◌, Option, none, some, arith, Eq, ◌==◌}
use config_guard.Std.FilePath.{FilePath, path_beq, path_refl, path_sym, path_left}
use config_guard.Policy.Types.{
  AccessKind, read, write, destructive_write, Decision, allow, deny, prompt, DecisionReason,
  cross_owner_read, cross_owner_write, sensitive_read_by_dev_tool, sensitive_write, access_beq,
  reason_beq,
}
use config_guard.Process.Identity.{ProcessIdentity}

pub record PromptDecisionKey : Type 0 where
  pub pid : ℕ
  pub start_time_ticks : ℕ
  pub executable : FilePath
  pub access : AccessKind
  pub reason : DecisionReason

key_of :
    ProcessIdentity
    → AccessKind
    → DecisionReason
    → Option FilePath
    → Option ℕ
    → Option PromptDecisionKey
key_of p a r (some executable) (some ticks) = some (record {
  pid = p.pid;
  start_time_ticks = ticks;
  executable = executable;
  access = a;
  reason = r;
})
key_of p a r _ _ = none

-- `PromptDecisionKey::new`.
unfoldable pub new : ProcessIdentity → AccessKind → Decision → Option PromptDecisionKey
unfolding key_of
new p a allow = none
new p a deny = none
new p a (prompt r d s) = key_of p a r p.executable p.start_time_ticks

unfoldable pub is_current_process : (ℕ → ℕ → Bool) → PromptDecisionKey → Bool
is_current_process is_current k = is_current k.pid k.start_time_ticks

unfoldable pub prompt_key_beq : PromptDecisionKey → PromptDecisionKey → Bool
prompt_key_beq a b =
    a.pid == b.pid
    && a.start_time_ticks == b.start_time_ticks
    && path_beq a.executable b.executable
    && access_beq a.access b.access
    && reason_beq a.reason b.reason

pub access_refl : (a : AccessKind) → access_beq a a ≡ true
unfolding access_beq
access_refl read = refl
access_refl write = refl
access_refl destructive_write = refl

pub access_sound : (a b : AccessKind) → access_beq a b ≡ true → a ≡ b
unfolding access_beq
access_sound a b h = ground arith

reason_refl : (a : DecisionReason) → reason_beq a a ≡ true
unfolding reason_beq
reason_refl cross_owner_read = refl
reason_refl cross_owner_write = refl
reason_refl sensitive_read_by_dev_tool = refl
reason_refl sensitive_write = refl

reason_sound : (a b : DecisionReason) → reason_beq a b ≡ true → a ≡ b
unfolding reason_beq
reason_sound a b h = ground arith

access_sym : (a b : AccessKind) → access_beq a b ≡ access_beq b a
unfolding access_beq
access_sym a b = ground arith

reason_sym : (a b : DecisionReason) → reason_beq a b ≡ reason_beq b a
unfolding reason_beq
reason_sym a b = ground arith

pub prompt_key_refl : (a : PromptDecisionKey) → prompt_key_beq a a ≡ true
unfolding prompt_key_beq
prompt_key_refl a =
    ground (arith, path_refl a.executable, access_refl a.access, reason_refl a.reason)

pub prompt_key_sym : (a b : PromptDecisionKey) → prompt_key_beq a b ≡ prompt_key_beq b a
unfolding prompt_key_beq
prompt_key_sym a b = ground (
  arith,
  path_sym a.executable b.executable,
  access_sym a.access b.access,
  reason_sym a.reason b.reason,
)

pub prompt_key_left :
    (a b c : PromptDecisionKey)
    → prompt_key_beq a b ≡ true
    → prompt_key_beq a c ≡ prompt_key_beq b c
unfolding prompt_key_beq
prompt_key_left a b c h = ground (
  arith,
  path_left a.executable b.executable c.executable,
  access_sound a.access b.access,
  reason_sound a.reason b.reason,
)

instance abbrev pub prompt_key_eq : Eq PromptDecisionKey
prompt_key_eq = record {
  beq = prompt_key_beq;
  beq_refl = prompt_key_refl;
  beq_sym = prompt_key_sym;
  beq_left = prompt_key_left;
}
