-- ===== src/Tests/Root.antt =====
-- initConfig and Execute on concrete disks.
use go_task_flow.Command.Init.{Entry, file, directory, Disk, Os, put, destination, run_init}
use go_task_flow.Command.Init.Files.{MakesDirectories}
use go_task_flow.Command.Root.{
  ConfigReader, Source, explicit, searched, Reading, used, config_file_not_found, not_exist, other,
  configured, init_config, execute,
}
use go_task_flow.Command.Root.Configured.{yaml_in, IsConfigReader, run_init-init_config}
use go_task_flow.Command.Root.Named.{Executed, execute-Executed}
use go_task_flow.Domain.Errors.{Error, ok, external}
use go_task_flow.Tests.Command.{joined}
use Prim.Native.Char.{code}
use go_task_flow.Prelude.{
  Bool, ◌||◌, ◌==◌, ◌<>◌, String, ◌≡◌, ◌≢◌, refl, true, false, Option, none, some, List, [], ◌∷◌,
  str_eq, if◌then◌else◌, inr,
}

abbrev has_slash : String → Bool
has_slash String.[] = false
has_slash (String.◌∷◌ c s) = code c == b'/' || has_slash s

abbrev or_else : Option String → Option String → Option String
or_else (some e) rest = some e
or_else none rest = rest

-- What stands behind the last dot of the last element of a path.
abbrev last_extension : String → Option String
last_extension String.[] = none
last_extension (String.◌∷◌ c s) =
    let rest = last_extension s in
    or_else rest (if has_slash s then none else if code c == b'.' then some s else none)

abbrev or_empty : Option String → String
or_empty none = ""
or_empty (some e) = e

abbrev is_supported : String → Bool
is_supported type =
    str_eq type "json"
    || str_eq type "toml"
    || str_eq type "yaml"
    || str_eq type "yml"
    || str_eq type "properties"
    || str_eq type "props"
    || str_eq type "prop"
    || str_eq type "hcl"
    || str_eq type "tfvars"
    || str_eq type "dotenv"
    || str_eq type "env"
    || str_eq type "ini"

-- Parsers that refuse one content, and that of JSON all but one.
abbrev content_error : String → String → Option Error
content_error type content =
    if str_eq type "json"
    then (if str_eq content "{}" then none else some (external "json"))
    else if str_eq content "bad"
    then some (external "yaml")
    else none

abbrev parsed : String → String → Option Error → Reading
parsed path content none = used path content
parsed path content (some e) = other e

abbrev read_entry : String → String → Option Entry → Reading
read_entry type path none = not_exist
read_entry type path (some directory) = other (external "is a directory")
read_entry type path (some (file content)) = parsed path content (content_error type content)

-- The entry <name>.yaml of a directory.
abbrev named_in : String → Option Entry → Option String
named_in path none = none
named_in path (some directory) = none
named_in path (some (file content)) = some path

file_named :
    (path content : String) (entry : Option Entry)
    → entry ≡ some (file content)
    → named_in path entry ≢ none
file_named path content none there absent = cc
file_named path content (some directory) there absent = cc
file_named path content (some (file c)) there absent = cc

abbrev read_found : Disk → String → Option String → Reading → Reading
read_found d type none rest = rest
read_found d type (some path) rest = read_entry type path (d path)

abbrev search_paths : Disk → String → String → List String → Reading
search_paths d name type [] = config_file_not_found
search_paths d name type (dir ∷ dirs) =
    read_found d type (named_in (yaml_in dir name) (d (yaml_in dir name)))
      (search_paths d name type dirs)

abbrev unsupported : String → Error
unsupported type = external ("Unsupported Config Type " <> type)

abbrev checked : String → Reading → Reading
checked type reading = if is_supported type then reading else other (unsupported type)

abbrev read_source : Disk → Source → Reading
read_source d (explicit path) =
    let type = or_empty (last_extension path) in checked type (read_entry type path (d path))
read_source d (searched name type dirs) = checked type (search_paths d name type dirs)

abbrev plain : ConfigReader
plain = record {
  read_in_config = read_source;
  in_directory = λ d dir name. named_in (yaml_in dir name) (d (yaml_in dir name));
  config_type = λ path. or_empty (last_extension path);
  supported = is_supported;
  unsupported_config_error = unsupported;
  parse_error = content_error;
}

plain-IsConfigReader : IsConfigReader plain
plain-IsConfigReader = record {
  refused = λ d path unknown. rw unknown refl;
  named = λ d path content known there good. rw (known, there, good) refl;
  malformed = λ d path content e known there bad. rw (known, there, bad) refl;
  missing = λ d path known absent. rw (known, absent) refl;
  second = λ d name type first dir rest path content none_ found there known good.
      rw (known, none_, found, there, good) refl;
  present = λ d dir name content there absent.
      file_named (yaml_in dir name) content (d (yaml_in dir name)) there absent;
}

-- A file system on which every call succeeds.
abbrev healthy : Os
healthy = record {
  home_dir = ok "/home/u";
  join = joined;
  dir = λ path. "/home/u/.go-task-flow";
  mkdir_all = λ d path. (none, d);
  stat_error = λ d path. none;
  write_error = λ d path. none;
}

healthy-MakesDirectories : MakesDirectories healthy
healthy-MakesDirectories = record { keeps = λ d path q content here. here }

abbrev empty : Disk
empty path = none

run_init-init_config_example :
    (dest : String) × (destination healthy "" "worker" ≡ ok dest)
    × (init_config plain
          (ok "/home/u")
          "worker"
          ""
          (run_init healthy false "" "worker" "yaml" empty).1
        ≡ configured dest "yaml")
unfolding run_init destination put
run_init-init_config_example =
    run_init-init_config plain healthy "worker" "yaml" false "" empty plain-IsConfigReader
      healthy-MakesDirectories (record { known = refl; good = refl })
      (λ absent. record {
        home = "/home/u";
        at_home = refl;
        joined = refl;
        alone = inr refl;
        not_here = refl;
      })
      refl

abbrev spoilt : Disk
spoilt path = if str_eq path "c.yaml" then some (file "bad") else none

execute-Executed_example :
    Executed plain "c.yaml" (run_init healthy true "c.yaml" "worker" "good") spoilt (
      execute plain
        (ok "/home/u")
        "worker"
        "c.yaml"
        (run_init healthy true "c.yaml" "worker" "good")
        spoilt)
execute-Executed_example =
    execute-Executed plain (ok "/home/u") "worker" "c.yaml"
      (run_init healthy true "c.yaml" "worker" "good") spoilt plain-IsConfigReader refl (λ e. cc)

-- A supported extension is asked for even of a file that is not there.
no_extension_test :
    execute plain (ok "/home/u") "worker" "config" (λ d. (none, d)) empty ≡ (1, empty)
unfolding execute
no_extension_test = refl

-- init --force does not replace it.
still_spoilt :
    (execute plain
        (ok "/home/u")
        "worker"
        "c.yaml"
        (run_init healthy true "c.yaml" "worker" "good")
        spoilt).1
      "c.yaml"
    ≡ some (file "bad")
unfolding execute
still_spoilt = refl
