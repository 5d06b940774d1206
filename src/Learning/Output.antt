-- ===== src/Learning/Output.antt =====
-- src/learning.rs: what is written after an observation.
use config_guard.Base.{ℕ, Bool, List, [], ◌∷◌, Option, is_some_and}
use config_guard.Std.Bytes.{Bytes}
use config_guard.Std.FilePath.{FilePath}
use config_guard.Std.Map.{Map}
use config_guard.Policy.Types.{AccessKind}
use config_guard.Learning.{ObservationKey, AuditLearner, LearnedOwnedPath, candidate_owned_paths}

pub data AccessLabel : Type 0 where
  read write destructive_write : AccessLabel

-- `From<AccessKind>`.
unfoldable pub label_from : AccessKind → AccessLabel
label_from AccessKind.read = AccessLabel.read
label_from AccessKind.write = AccessLabel.write
label_from AccessKind.destructive_write = AccessLabel.destructive_write

pub record LearnedObservation : Type 0 where
  pub subject : Bytes
  pub config_root : FilePath
  pub access : AccessLabel
  pub count : ℕ

pub record LearnedConfig : Type 0 where
  pub owned_paths : List LearnedOwnedPath
  pub observations : List LearnedObservation

unfoldable pub learned_observations : Map ObservationKey ℕ → List LearnedObservation
learned_observations [] = []
learned_observations ((key, count) ∷ observations) =
    record {
      subject = key.subject;
      config_root = key.config_root;
      access = label_from key.access;
      count = count;
    }
    ∷ learned_observations observations

-- Whether the output is written; the serialisation is that of another library.
unfoldable pub write_output : (LearnedConfig → Option Bytes) → (Bytes → Bool) → AuditLearner → Bool
write_output to_string_pretty write_file l =
    let learned : LearnedConfig = record {
      owned_paths = candidate_owned_paths l;
      observations = learned_observations l.observations;
    } in
    is_some_and (to_string_pretty learned) write_file
