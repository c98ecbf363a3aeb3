-- ===== src/StateStore/Effects.antt =====
-- What writing a task's metadata leaves alone, whether the task can be encoded or not.
use go_task_flow.Domain.Errors.{Result-cases}
use go_task_flow.World.Views.{statements}
use go_task_flow.StateStore.{set_task_meta}
use go_task_flow.World.{History, Env}
use go_task_flow.Prelude.{◌≡◌, inl, inr, arith}
use go_task_flow.Domain.{Task}

pub statements-set_task_meta :
    (env : Env) (task : Task) (h : History) → statements (set_task_meta env task h).1 ≡ statements h
unfolding set_task_meta statements
statements-set_task_meta env task h = elim (Result-cases (env.encode task)) [
  | inl (b, e) ↦ ground arith
  | inr (x, e) ↦ ground arith
]
