-- ===== src/Tests/Defaults.antt =====
-- The default configuration files on a concrete viper, the instruments and the build variables.
use go_task_flow.Command.Init.Defaults.{
  ConfigFile, default_worker_yaml, default_dispatcher_yaml, default_scheduler_yaml,
  default_api_gateway_yaml, setting, text_of, int_of, duration_of, ReadsFile, no_flags,
  load-default_yaml,
}
use go_task_flow.Command.Root.{level_of, level_info}
use go_task_flow.Command.Version.{unset, version_lines, version_worker}
use go_task_flow.Service.Dispatcher as DispatcherService
use go_task_flow.Service.Flags.{Bindings, FlagSet, Viper}
use go_task_flow.Service.Gateway as GatewayService
use go_task_flow.Service.Reads.{worker_config, dispatcher_config, scheduler_config, gateway_config}
use go_task_flow.Service.Scheduler as SchedulerService
use go_task_flow.Service.Worker as WorkerService
use go_task_flow.Prelude.{◌≡◌, refl, ap, [], ◌∷◌}

-- viper with a file, and neither flags nor environment.
abbrev with_file : ConfigFile → Bindings → FlagSet → Viper
with_file entries bs fs = record {
  get_string = λ key. text_of (setting entries bs fs key);
  get_int = λ key. int_of (setting entries bs fs key);
  get_duration = λ key. duration_of (setting entries bs fs key);
}

with_file-ReadsFile :
    (entries : ConfigFile) (bs : Bindings) (fs : FlagSet)
    → ReadsFile (with_file entries bs fs) entries bs fs
unfolding text_of int_of duration_of
with_file-ReadsFile entries bs fs = record {
  strings = λ key s e. ap text_of e;
  ints = λ key n e. ap int_of e;
  durations = λ key t e. ap duration_of e;
}

abbrev worker_viper : Viper
worker_viper = with_file default_worker_yaml WorkerService.bindings WorkerService.declared

abbrev dispatcher_viper : Viper
dispatcher_viper =
    with_file default_dispatcher_yaml DispatcherService.bindings DispatcherService.declared

abbrev scheduler_viper : Viper
scheduler_viper =
    with_file default_scheduler_yaml SchedulerService.bindings SchedulerService.declared

abbrev gateway_viper : Viper
gateway_viper = with_file default_api_gateway_yaml GatewayService.bindings GatewayService.declared

load-default_yaml_example :
    (WorkerService.load worker_viper ≡ worker_config (no_flags WorkerService.declared))
    × (DispatcherService.load dispatcher_viper
        ≡ dispatcher_config (no_flags DispatcherService.declared))
    × (SchedulerService.load scheduler_viper
        ≡ scheduler_config (no_flags SchedulerService.declared))
    × (GatewayService.load gateway_viper ≡ gateway_config (no_flags GatewayService.declared))
load-default_yaml_example =
    load-default_yaml worker_viper dispatcher_viper scheduler_viper gateway_viper
      (with_file-ReadsFile default_worker_yaml WorkerService.bindings WorkerService.declared)
      (with_file-ReadsFile default_dispatcher_yaml DispatcherService.bindings
        DispatcherService.declared)
      (with_file-ReadsFile default_scheduler_yaml SchedulerService.bindings
        SchedulerService.declared)
      (with_file-ReadsFile default_api_gateway_yaml GatewayService.bindings GatewayService.declared)

-- A log level of warn is one of info.
warn_is_info : level_of "warn" ≡ level_info
unfolding level_of
warn_is_info = refl

unset_version :
    version_worker (unset "go1.25")
    ≡ "worker dev" ∷ "  commit:     unknown" ∷ "  built:      unknown" ∷ "  go version: go1.25" ∷ []
unfolding version_worker version_lines unset
unset_version = refl
