-- ===== src/Command/Root/Configured.antt =====
-- services/*/cli/root.go against services/*/cli/init.go: the file that init writes and the file
-- that a start finds.
use mathlib.Core.Path.{subst}
use go_task_flow.Command.Init.{Disk, Os, file, put, destination, run_init}
use go_task_flow.Command.Init.Files.{
  MakesDirectories, Written, homeless, done, unfinished, run_init-Written,
}
use go_task_flow.Command.Root.{
  ConfigReader, explicit, searched, used, not_exist, other, configured, config_paths, source_of,
  after_read, init_config, home_or_empty,
}
use go_task_flow.Domain.Errors.{Error, ok}
use go_task_flow.Prelude.Texts.{str_eq_refl}
use go_task_flow.Prelude.{
  String, ◌<>◌, ◌≡◌, refl, ◌∙◌, Bool, true, false, Option, none, some, List, [], ◌∷◌, str_eq, arith,
  ap, ◌≢◌, inl, inr, Bool-cases, ◌⊎◌, if◌then◌else◌,
}

abbrev pub yaml_in : String → String → String
yaml_in dir name = dir <> ("/" <> (name <> ".yaml"))

-- What viper documents of ReadInConfig: a file that is named is refused for its extension alone, if
-- that is not supported; else it is read and parsed as its extension says. Otherwise the
-- directories are searched in their order, and the first file of the name is used, parsed as the
-- type that was set. A directory with the file <name>.yaml is not passed over.
pub record IsConfigReader (r : ConfigReader) : Type 0 where
  pub refused :
      (d : Disk) (path : String)
      → r.supported (r.config_type path) ≡ false
      → r.read_in_config d (explicit path) ≡ other (r.unsupported_config_error (r.config_type path))
  pub named :
      (d : Disk) (path content : String)
      → r.supported (r.config_type path) ≡ true
      → d path ≡ some (file content)
      → r.parse_error (r.config_type path) content ≡ none
      → r.read_in_config d (explicit path) ≡ used path content
  pub malformed :
      (d : Disk) (path content : String) (e : Error)
      → r.supported (r.config_type path) ≡ true
      → d path ≡ some (file content)
      → r.parse_error (r.config_type path) content ≡ some e
      → r.read_in_config d (explicit path) ≡ other e
  pub missing :
      (d : Disk) (path : String)
      → r.supported (r.config_type path) ≡ true
      → d path ≡ none
      → r.read_in_config d (explicit path) ≡ not_exist
  pub second :
      (d : Disk) (name type first dir : String) (rest : List String) (path content : String)
      → r.in_directory d first name ≡ none
      → r.in_directory d dir name ≡ some path
      → d path ≡ some (file content)
      → r.supported type ≡ true
      → r.parse_error type content ≡ none
      → r.read_in_config d (searched name type (first ∷ dir ∷ rest)) ≡ used path content
  pub present :
      (d : Disk) (dir name content : String)
      → d (yaml_in dir name) ≡ some (file content)
      → r.in_directory d dir name ≢ none

put-same : (path content : String) (d : Disk) → put path content d path ≡ some (file content)
unfolding put
put-same path content d = rw (str_eq_refl path) refl

module _ (r : ConfigReader) (os : Os) (service : String) where
  -- The home directory is known and filepath.Join spells its file as the search does; the
  -- directory of the service has no other file of the name, and the directory of the start none.
  pub record IsUnshadowed (g : Disk) : Type 0 where
    pub home : String
    pub at_home : os.home_dir ≡ ok home
    pub joined :
        os.join (home ∷ ".go-task-flow" ∷ (service <> ".yaml") ∷ [])
        ≡ yaml_in (home <> "/.go-task-flow") service
    pub alone :
        (r.in_directory g (home <> "/.go-task-flow") service ≡ none)
        ⊎ (r.in_directory g (home <> "/.go-task-flow") service
            ≡ some (yaml_in (home <> "/.go-task-flow") service))
    pub not_here : r.in_directory g "." service ≡ none

  -- The type under which the next start reads the file: that of the --config given, or YAML.
  abbrev pub type_read : String → String
  type_read cfg_file = if str_eq cfg_file "" then "yaml" else r.config_type cfg_file

  -- The type is one that viper supports, and the content parses under it.
  pub record Parses (type yaml : String) : Type 0 where
    pub known : r.supported type ≡ true
    pub good : r.parse_error type yaml ≡ none

  module _ (yaml : String) (laws : IsConfigReader r) where
    at_home :
        (dest : String) (d : Disk) (x : IsUnshadowed (put dest yaml d))
        → yaml_in (x.home <> "/.go-task-flow") service ≡ dest
        → r.in_directory (put dest yaml d) (x.home <> "/.go-task-flow") service ≡ some dest
    at_home dest d x e = elim x.alone [
      | inl absent ↦ absurd (
          laws.present (put dest yaml d) (x.home <> "/.go-task-flow") service yaml
            (rw e (put-same dest yaml d)) absent)
      | inr there ↦ there ∙ ap some e
    ]

    found-configured :
        (dest : String) (d : Disk) (x : IsUnshadowed (put dest yaml d))
        → yaml_in (x.home <> "/.go-task-flow") service ≡ dest
        → Parses "yaml" yaml
        → r.read_in_config (put dest yaml d) (searched service "yaml" (config_paths (ok x.home)))
          ≡ used dest yaml
    unfolding config_paths home_or_empty
    found-configured dest d x e parses =
        laws.second (put dest yaml d) service "yaml" "." (x.home <> "/.go-task-flow")
          ("/etc/go-task-flow" ∷ []) dest yaml x.not_here (at_home dest d x e)
          (put-same dest yaml d) parses.known parses.good

    named-configured :
        (cfg_file dest : String) (d : Disk)
        → str_eq cfg_file "" ≡ false
        → Parses (type_read cfg_file) yaml
        → destination os cfg_file service ≡ ok dest
        → init_config r os.home_dir service cfg_file (put dest yaml d) ≡ configured dest yaml
    unfolding init_config source_of after_read destination
    named-configured cfg_file dest d given parses at =
        let same : cfg_file ≡ dest = ground (arith, at, given) in
        let type : type_read cfg_file ≡ r.config_type dest = ground (arith, given, same) in
        rw
          (
            given,
            same,
            laws.named (put dest yaml d) dest yaml (rw (← type) parses.known) (put-same dest yaml d)
                (rw (← type) parses.good),
          )
          refl

    searched-configured :
        (cfg_file dest : String) (d : Disk)
        → str_eq cfg_file "" ≡ true
        → IsUnshadowed (put dest yaml d)
        → Parses (type_read cfg_file) yaml
        → destination os cfg_file service ≡ ok dest
        → init_config r os.home_dir service cfg_file (put dest yaml d) ≡ configured dest yaml
    unfolding init_config source_of after_read destination
    searched-configured cfg_file dest d absent x parses at =
        let type : type_read cfg_file ≡ "yaml" = ground (arith, absent) in
        let same : yaml_in (x.home <> "/.go-task-flow") service ≡ dest =
          ground (arith, at, absent, x.at_home, x.joined) in
        rw
          (
            absent,
            x.at_home,
            found-configured dest d x same (subst (λ t. Parses t yaml) type parses),
          )
          refl

    put-configured :
        (cfg_file dest : String) (d : Disk)
        → (str_eq cfg_file "" ≡ true → IsUnshadowed (put dest yaml d))
        → Parses (type_read cfg_file) yaml
        → destination os cfg_file service ≡ ok dest
        → init_config r os.home_dir service cfg_file (put dest yaml d) ≡ configured dest yaml
    put-configured cfg_file dest d x parses at = elim (Bool-cases (str_eq cfg_file "")) [
      | inl absent ↦ searched-configured cfg_file dest d absent (x absent) parses at
      | inr given ↦ named-configured cfg_file dest d given parses at
    ]

    configured_after :
        (cfg_file : String) (d : Disk) (o : Option Error × Disk)
        → (str_eq cfg_file "" ≡ true → IsUnshadowed o.1)
        → Parses (type_read cfg_file) yaml
        → Written os cfg_file service yaml d o
        → o.0 ≡ none
        → (dest : String) × (destination os cfg_file service ≡ ok dest)
          × (init_config r os.home_dir service cfg_file o.1 ≡ configured dest yaml)
    configured_after cfg_file d o x parses (homeless e at end) quiet = absurd (cc (end, quiet))
    configured_after cfg_file d o x parses (unfinished dest e at end same) quiet =
        absurd (cc (end, quiet))
    configured_after cfg_file d o x parses (done dest at end) quiet = (
      dest,
      at,
      rw end (put-configured cfg_file dest _ (λ absent. rw end at (x absent)) parses at),
    )

-- Where init returns nil, with or without --force, the next start with the same --config, which may
-- be absent, is configured by the file that init wrote, with its content. The default configuration
-- parses under the type of that file, which is the extension of a --config given, one that viper
-- supports, and YAML without; and without --config no other file comes in front of it: the home
-- directory is known, its .go-task-flow has no other file of the name, and the current directory
-- has none.
pub run_init-init_config :
    (r : ConfigReader) (os : Os) (service yaml : String) (force : Bool) (cfg_file : String)
    (d : Disk)
    → IsConfigReader r
    → MakesDirectories os
    → Parses r os service (type_read r os service cfg_file) yaml
    → (str_eq cfg_file "" ≡ true
        → IsUnshadowed r os service (run_init os force cfg_file service yaml d).1)
    → (run_init os force cfg_file service yaml d).0 ≡ none
    → (dest : String) × (destination os cfg_file service ≡ ok dest)
      × (init_config r os.home_dir service cfg_file (run_init os force cfg_file service yaml d).1
          ≡ configured dest yaml)
run_init-init_config r os service yaml force cfg_file d laws makes parses x quiet =
    configured_after r os service yaml laws cfg_file d _ x parses
      (run_init-Written os force cfg_file service yaml d makes) quiet
