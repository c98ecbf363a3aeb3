-- ===== src/Service/Closes.antt =====
-- runServe of services/*/cli/serve.go: the resources of the four commands.
use go_task_flow.Service.Process.{Process}
use go_task_flow.Service.Worker as WorkerService
use go_task_flow.Service.Dispatcher as DispatcherService
use go_task_flow.Service.Scheduler as SchedulerService
use go_task_flow.Service.Gateway as GatewayService
