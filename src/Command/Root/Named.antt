-- ===== src/Command/Root/Named.antt =====
-- services/*/cli/root.go: what a start does with the file that --config names.
use go_task_flow.Command.Init.{Disk, Entry, F, file, directory}
use go_task_flow.Command.Root.{
  ConfigReader, source_of, after_read, init_config, execute, exit_code, launched,
}
use go_task_flow.Domain.Errors.{Error, Result}
use go_task_flow.Prelude.{
  ℕ, String, ◌≡◌, refl, true, false, Option, none, some, str_eq, ◌≢◌, inl, inr, Bool-cases,
  Option-cases,
}
use go_task_flow.Command.Root.Configured.{IsConfigReader}

-- What a command does whose --config names a path that is no directory.
pub data Executed (r : ConfigReader) (cfg_file : String) (command : F) (d : Disk) (o : ℕ × Disk)
    : Type 0 where
  refused_type :
      r.supported (r.config_type cfg_file) ≡ false → o ≡ (1, d) → Executed r cfg_file command d o
  stopped :
      (content : String) (e : Error)
      → r.supported (r.config_type cfg_file) ≡ true
      → d cfg_file ≡ some (file content)
      → r.parse_error (r.config_type cfg_file) content ≡ some e
      → o ≡ (1, d)
      → Executed r cfg_file command d o
  ran_configured :
      (content : String)
      → r.supported (r.config_type cfg_file) ≡ true
      → d cfg_file ≡ some (file content)
      → r.parse_error (r.config_type cfg_file) content ≡ none
      → o ≡ (exit_code (command d).0, (command d).1)
      → Executed r cfg_file command d o
  ran_unconfigured :
      r.supported (r.config_type cfg_file) ≡ true
      → d cfg_file ≡ none
      → o ≡ (exit_code (command d).0, (command d).1)
      → Executed r cfg_file command d o

module _ (r : ConfigReader) (home : Result String) (name cfg_file : String) (command : F) (d : Disk)
    (laws : IsConfigReader r) (given : str_eq cfg_file "" ≡ false)
    (known : r.supported (r.config_type cfg_file) ≡ true) where
  content-Executed :
      (content : String)
      → d cfg_file ≡ some (file content)
      → Executed r cfg_file command d (execute r home name cfg_file command d)
  unfolding execute init_config source_of after_read launched
  content-Executed content there =
      elim (Option-cases (r.parse_error (r.config_type cfg_file) content)) [
        | inl good ↦
            ran_configured content known there good
              (rw (given, laws.named d cfg_file content known there good) refl)
        | inr (e, bad) ↦
            stopped content e known there bad
              (rw (given, laws.malformed d cfg_file content e known there bad) refl)
      ]

  entry-Executed :
      (entry : Option Entry)
      → d cfg_file ≡ entry
      → entry ≢ some directory
      → Executed r cfg_file command d (execute r home name cfg_file command d)
  unfolding execute init_config source_of after_read launched
  entry-Executed none there plain =
      ran_unconfigured known there (rw (given, laws.missing d cfg_file known there) refl)
  entry-Executed (some directory) there plain = absurd (plain refl)
  entry-Executed (some (file content)) there plain = content-Executed content there

-- With --config, a path whose extension viper does not support, and a file that does not parse as
-- its extension says, end every command, init --force too, before it does anything: the exit code
-- is 1 and the disk is as it was. A file that parses, and with a supported extension also one that
-- is not there, lets the command run, and the exit code is 1 exactly where it returns an error.
pub execute-Executed :
    (r : ConfigReader) (home : Result String) (name cfg_file : String) (command : F) (d : Disk)
    → IsConfigReader r
    → str_eq cfg_file "" ≡ false
    → d cfg_file ≢ some directory
    → Executed r cfg_file command d (execute r home name cfg_file command d)
unfolding execute init_config source_of after_read launched
execute-Executed r home name cfg_file command d laws given plain =
    elim (Bool-cases (r.supported (r.config_type cfg_file))) [
      | inl known ↦
          entry-Executed r home name cfg_file command d laws given known (d cfg_file) refl plain
      | inr unknown ↦ refused_type unknown (rw (given, laws.refused d cfg_file unknown) refl)
    ]
