-- ===== src/Tests/Service.antt =====
-- The commands at concrete flags and services.
use go_task_flow.World.Views.{value}
use go_task_flow.Worker.{process_message}
use go_task_flow.Prelude.{ℕ, String, true, ◌≡◌, refl, Option, none, some, [], ◌∷◌, ap}
use go_task_flow.Prelude.Int.{ℤ, pos}
use go_task_flow.Domain.Errors.{external, ok, err}
use go_task_flow.Service.Flags.{
  FlagSet, Bindings, Viper, ReadsFlags, lookup, bind_flags, Setting, words, whole, span,
}
use go_task_flow.Service.Process.{Outside}
use go_task_flow.Service.Brokers.{split_commas, join_commas, NoCommas, split_commas_lem}
use go_task_flow.Service.Reads.{
  load-flags, worker_config, dispatcher_config, scheduler_config, gateway_config,
}
use go_task_flow.Service.Worker.Handling.{Handling, build_worker-Handling}
use go_task_flow.Service.Worker as WorkerService
use go_task_flow.Service.Dispatcher as DispatcherService
use go_task_flow.Service.Scheduler as SchedulerService
use go_task_flow.Service.Gateway as GatewayService
use go_task_flow.Tests.Fixtures.{calm, sample}

brokers_of_list : split_commas "a:1,b:2" ≡ "a:1" ∷ "b:2" ∷ []
unfolding split_commas
brokers_of_list = refl

-- Every flag that a command binds is declared.
all_declared :
    (bind_flags WorkerService.declared WorkerService.bindings ≡ true)
    × (bind_flags DispatcherService.declared DispatcherService.bindings ≡ true)
    × (bind_flags SchedulerService.declared SchedulerService.bindings ≡ true)
    × (bind_flags GatewayService.declared GatewayService.bindings ≡ true)
unfolding bind_flags lookup WorkerService.declared WorkerService.bindings DispatcherService.declared
    DispatcherService.bindings SchedulerService.declared SchedulerService.bindings
    GatewayService.declared GatewayService.bindings
all_declared = (refl, refl, refl, refl)

abbrev words_of : Option Setting → String
words_of (some (words s)) = s
words_of _ = ""

abbrev whole_of : Option Setting → ℤ
whole_of (some (whole n)) = n
whole_of _ = pos 0

abbrev span_of : Option Setting → ℕ
span_of (some (span n)) = n
span_of _ = 0

-- A command line without flags.
abbrev defaults : FlagSet → Viper
defaults fs = record {
  get_string = λ flag. words_of (lookup flag fs);
  get_int = λ flag. whole_of (lookup flag fs);
  get_duration = λ flag. span_of (lookup flag fs);
}

abbrev string_of : Viper → Option String → String
string_of flags (some flag) = flags.get_string flag
string_of flags none = ""

abbrev int_of : Viper → Option String → ℤ
int_of flags (some flag) = flags.get_int flag
int_of flags none = pos 0

abbrev duration_of : Viper → Option String → ℕ
duration_of flags (some flag) = flags.get_duration flag
duration_of flags none = 0

-- viper without environment and file.
abbrev bound : Bindings → Viper → Viper
bound bs flags = record {
  get_string = λ key. string_of flags (lookup key bs);
  get_int = λ key. int_of flags (lookup key bs);
  get_duration = λ key. duration_of flags (lookup key bs);
}

bound-ReadsFlags : (bs : Bindings) (flags : Viper) → ReadsFlags (bound bs flags) bs flags
bound-ReadsFlags bs flags = record {
  strings = λ key flag e. ap (string_of flags) e;
  ints = λ key flag e. ap (int_of flags) e;
  durations = λ key flag e. ap (duration_of flags) e;
}

abbrev by_default : FlagSet → Bindings → Viper
by_default fs bs = bound bs (defaults fs)

load-flags_example :
    (WorkerService.load (by_default WorkerService.declared WorkerService.bindings)
      ≡ worker_config (defaults WorkerService.declared))
    × (DispatcherService.load (by_default DispatcherService.declared DispatcherService.bindings)
        ≡ dispatcher_config (defaults DispatcherService.declared))
    × (SchedulerService.load (by_default SchedulerService.declared SchedulerService.bindings)
        ≡ scheduler_config (defaults SchedulerService.declared))
    × (GatewayService.load (by_default GatewayService.declared GatewayService.bindings)
        ≡ gateway_config (defaults GatewayService.declared))
load-flags_example =
    load-flags _ _ _ _ _ _ _ _
      (bound-ReadsFlags WorkerService.bindings (defaults WorkerService.declared))
      (bound-ReadsFlags DispatcherService.bindings (defaults DispatcherService.declared))
      (bound-ReadsFlags SchedulerService.bindings (defaults SchedulerService.declared))
      (bound-ReadsFlags GatewayService.bindings (defaults GatewayService.declared))

abbrev pub willing : Outside
willing = record {
  exporter_error = λ p endpoint. none;
  pool_error = λ p dsn. none;
  ping_error = λ p. some (external "connection refused");
  listen_error = λ p addr. none;
  read_file = λ name. ok name;
  exec_error = λ p sql. none;
}

abbrev decoders : WorkerService.Decoders
decoders = record { email = λ s. err (external "eof"); webhook = λ s. err (external "eof") }

split_commas_lem_example :
    (join_commas (split_commas "a:1,b:2") ≡ "a:1,b:2") × NoCommas (split_commas "a:1,b:2")
split_commas_lem_example = split_commas_lem "a:1,b:2"

abbrev default_config : WorkerService.Config
default_config = worker_config (defaults WorkerService.declared)

build_worker-Handling_example :
    Handling calm decoders default_config "w-1"
      (sample "t1")
      "t1"
      []
      (process_message calm (WorkerService.build_worker calm decoders default_config "w-1") "t1" [])
unfolding value
build_worker-Handling_example =
    build_worker-Handling calm decoders default_config "w-1" (sample "t1") "t1" [] refl (λ s e. cc)
      refl
