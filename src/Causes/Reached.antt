-- ===== src/Causes/Reached.antt =====
-- The services together, in any order of their steps: why a task has the status that it has.
use mathlib.Core.List.{Memᴰ}
use go_task_flow.Causes.{Cause, Cause-mono, Grows, Grows-same}
use go_task_flow.Causes.Dispatcher.{route-Growing}
use go_task_flow.Causes.Gateway.{submit_task-Growing, grpc_submit_task-Growing}
use go_task_flow.Causes.Scheduler.{tick-Growing}
use go_task_flow.Lineage.{
  Step, rest_submitted, grpc_submitted, ticked, dispatched, worked, elsewhere,
}
use go_task_flow.StateStore.{state_key}
use go_task_flow.Worker.Growth.{process-Growing}
use go_task_flow.World.{History, Env}
use go_task_flow.World.Views.{sets, successes}
use go_task_flow.Prelude.{String, ◌≡◌, inl, inr, []}

module _ (env : Env) where
  -- What happens elsewhere writes no status and runs no handler.
  abbrev pub IsApart : {h g : History} → Step env h g → Type 0
  IsApart {h} (elsewhere g same) =
      ((id : String) → sets (state_key id) g ≡ sets (state_key id) h)
      × ((id : String) → successes id g ≡ successes id h)
  IsApart (rest_submitted decode_request body) = Unit {0}
  IsApart (grpc_submitted req) = Unit {0}
  IsApart (ticked instance_id) = Unit {0}
  IsApart (dispatched limiter m quiet x) = Unit {0}
  IsApart (worked w type m quiet x) = Unit {0}

  -- The states that the services reach from the empty history, where nobody else writes a status.
  pub data ReachesAlone : History → Type 0 where
    begin : ReachesAlone []
    next : {h g : History} → ReachesAlone h → (s : Step env h g) → IsApart s → ReachesAlone g

  Step-Grows : {h g : History} (s : Step env h g) → IsApart s → Grows h g
  Step-Grows {h} (rest_submitted decode_request body) a =
      submit_task-Growing env decode_request body h
  Step-Grows {h} (grpc_submitted req) a = grpc_submit_task-Growing env req h
  Step-Grows {h} (ticked instance_id) a = tick-Growing env instance_id h
  Step-Grows {h} (dispatched limiter m quiet x) a = route-Growing env limiter quiet m.value h
  Step-Grows {h} (worked w type m quiet x) a = process-Growing env w quiet m.value h
  Step-Grows {h} (elsewhere g same) a = Grows-same h g a.0 a.1 same

  -- In every state that the services reach by steps that are whole handlers, in whatever order
  -- they are taken, every status that a write gave a task in Redis, acknowledged or not, is
  -- PENDING, QUEUED, RUNNING or RETRYING, or is DONE, and a handler has run on a task with this
  -- identifier and returned nil, or is DEAD, and a message under this identifier was sent to the
  -- dead-letter topic, acknowledged or not. The states inside a handler, and a crash there, are
  -- not among them. Handlers and limiters write no status, and nobody else does.
  pub reached-Cause :
      {h : History}
      → ReachesAlone h
      → (id s : String) → Memᴰ s (sets (state_key id) h)
      → Cause id s h
  unfolding sets
  reached-Cause begin id s x = elim x [ ]
  reached-Cause (next r step a) id s x = elim ((Step-Grows step a).adds id s x) [
    | inl y ↦ Cause-mono (Step-Grows step a) (reached-Cause r id s y)
    | inr c ↦ c
  ]
