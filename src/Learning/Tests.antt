-- ===== src/Learning/Tests.antt =====
-- src/learning.rs: the theorems at one home directory.
use config_guard.Base.{◌+◌, ◌≡◌, refl, true, [], ◌∷◌, list_beq, All, if◌then◌else◌}
use config_guard.Std.Bytes.{bytes}
use config_guard.Std.Utf8.{to_str, is_utf8}
use config_guard.Std.FilePath.{
  path, components, component_beq, strip_prefix, component_str, join, path_beq,
}
use config_guard.Policy.Types.{ProcessSubject, read}
use config_guard.Policy.Subject.{subject_name}
use config_guard.Learning.{
  AuditLearner, ObservationKey, observation_beq, config_root_for_home, config_root_for_alias,
  config_root_for_home_or_alias, config_subdir_root, observe, candidate_owned_paths,
}
use config_guard.Learning.Owners.{
  count_of, observe-counts, candidate_owned_paths-only_subject, IsFirstAlias,
  config_root_for_home_or_alias-alias,
}

program : Unit {0}
unfolding components component_beq list_beq to_str is_utf8 strip_prefix component_str join
    config_root_for_home config_root_for_alias config_root_for_home_or_alias config_subdir_root
program = tt

abbrev learner : AuditLearner
learner = record {
  home_dir = path "/home/u";
  path_aliases =
      record { real_root = path "/data/nvim"; logical_root = path "/home/u/.config/nvim" } ∷ [];
  observations =
      (
        record { subject = bytes "nvim"; config_root = path "/home/u/.config/nvim"; access = read },
        3,
      )
      ∷ (record { subject = bytes "cat"; config_root = path "/home/u/.ssh"; access = read }, 1)
      ∷ [];
}

abbrev nvim : ProcessSubject
nvim = record { executable = path "/usr/bin/nvim"; command = []; ancestors = [] }

abbrev seen : ObservationKey
seen = record { subject = bytes "nvim"; config_root = path "/home/u/.config/nvim"; access = read }

observe-counts_run :
    count_of (observe true learner nvim (path "/data/nvim/init.lua") read).1.observations seen
    ≡ (if observation_beq
          (record {
            subject = subject_name nvim;
            config_root = path "/home/u/.config/nvim";
            access = read;
          })
          seen
        then 1
        else 0)
      + count_of learner.observations seen
unfolding program
observe-counts_run =
    observe-counts true learner nvim (path "/data/nvim/init.lua") read (path "/home/u/.config/nvim")
      seen refl

candidate_owned_paths-only_subject_example :
    All
      (λ c.
        All
          (λ o. path_beq o.0.config_root c.path ≡ true → o.0.subject ≡ c.owner)
          learner.observations)
      (candidate_owned_paths learner)
candidate_owned_paths-only_subject_example = candidate_owned_paths-only_subject learner

config_root_for_home_or_alias-alias_example :
    IsFirstAlias (path "/data/nvim/init.lua") learner.path_aliases (path "/home/u/.config/nvim")
unfolding program
config_root_for_home_or_alias-alias_example =
    config_root_for_home_or_alias-alias (path "/data/nvim/init.lua") (path "/home/u")
      learner.path_aliases (path "/home/u/.config/nvim") refl refl
