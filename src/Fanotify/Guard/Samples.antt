-- ===== src/Fanotify/Guard/Samples.antt =====
-- src/fanotify/guard.rs: the inputs of the runs: one event that waits for one question.
use config_guard.Base.{true, List, [], ◌∷◌, Option, none, some, nat_eq}
use config_guard.Base.Int.{pos}
use config_guard.Std.FilePath.{FilePath, path}
use config_guard.Policy.Types.{read, Decision, deny, prompt, cross_owner_read}
use config_guard.Process.Identity.{ProcessIdentity}
use config_guard.Fanotify.PromptResolution.Key.{PromptDecisionKey}
use config_guard.Fanotify.PromptResolution.{empty}
use config_guard.Fanotify.Events.{Io, AccessPolicy}
use config_guard.Fanotify.Guard.Types.{PendingEvent, PendingPrompt, PromptSpec, PromptCoordinator}
use config_guard.Fanotify.Guard.Coordinator.{new, queue_prompt}
use config_guard.Fanotify.Guard.Loop.{Metadata, Facts}
use config_guard.Fanotify.Guard.Invariant.{
  IsWellFormed, new-IsWellFormed, queue_prompt-IsWellFormed,
}

abbrev pub io : Io
io = record { writes = λ fd. true; closes = λ fd. true }

abbrev pub key : PromptDecisionKey
key = record {
  pid = 7;
  start_time_ticks = 100;
  executable = path "/usr/bin/cat";
  access = read;
  reason = cross_owner_read;
}

abbrev pub cat : ProcessIdentity
cat = record {
  pid = 7;
  executable = some (path "/usr/bin/cat");
  command = [];
  cwd = none;
  start_time_ticks = some 100;
  ancestors = [];
  ancestor_processes = [];
}

abbrev pub question : PromptSpec
question = record {
  key = some key;
  authorization = none;
  subject = record { executable = path "/usr/bin/cat"; command = []; ancestors = [] };
  target_path = path "/home/u/.mozilla/prefs.js";
  reason = cross_owner_read;
  default_decision = deny;
  env = [];
}

abbrev pub asks : Decision
asks = prompt cross_owner_read deny (path "/home/u/.mozilla")

-- A policy that says one thing.
abbrev pub says : Option Decision → AccessPolicy
says d = record { decide = λ s t a. d; authorization_owner_subject = λ s. none }

abbrev pub start : PromptCoordinator
start = new empty

abbrev pub opened : Metadata
opened = record { mask = 0x10000; fd = pos 5; pid = 7 }

abbrev pub facts : Facts
facts = record { target = some (path "/home/u/.mozilla/prefs.js"); process = some cat; env = [] }

abbrev pub roots : List FilePath
roots = path "/home/u/.mozilla" ∷ []

abbrev pub first_event : PendingEvent
first_event = record { fd = 5; mask = 0x10000; default_decision = deny }

abbrev pub waiting : PendingPrompt
waiting = record { key = some key; authorization = none; events = first_event ∷ [] }

abbrev pub asked : PromptCoordinator
asked = (queue_prompt io true start 5 0x10000 question).state

pub asked-IsWellFormed : IsWellFormed asked
asked-IsWellFormed =
    queue_prompt-IsWellFormed start (new-IsWellFormed empty) io true 5 0x10000 question
