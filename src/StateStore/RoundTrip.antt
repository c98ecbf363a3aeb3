-- ===== src/StateStore/RoundTrip.antt =====
-- What is written to the store is what a later read gives back.
use go_task_flow.World.Views.{value}
use go_task_flow.World.{History, Env}
use go_task_flow.Domain.{Task}
use text.Mathlib.TextLemmas.{append_cancel_left}
use go_task_flow.Prelude.{str_eq, eq_iff, false, sym, String, ◌≡◌, ◌≢◌, arith, ◌∙◌, some}
use go_task_flow.Prelude.Texts.{code-eq_of_fork}
use go_task_flow.StateStore.{state_key, meta_key, ok}

pub state_key-injective : (a b : String) → state_key a ≡ state_key b → a ≡ b
state_key-injective a b e = append_cancel_left "task:state:" a b e

pub meta_key-injective : (a b : String) → meta_key a ≡ meta_key b → a ≡ b
meta_key-injective a b e = append_cancel_left "task:meta:" a b e

-- The key spaces of states, metadata and results do not meet.
pub state_key-ne-meta_key : (a b : String) → state_key a ≢ meta_key b
state_key-ne-meta_key a b e = omega (arith, code-eq_of_fork "task:" "s" "m" "tate:" "eta:" a b e)

pub state_key-other-meta_key : (a b : String) → str_eq (meta_key a) (state_key b) ≡ false
state_key-other-meta_key a b = ground (
  arith,
  eq_iff (meta_key a) (state_key b),
  λ (e : meta_key a ≡ state_key b). state_key-ne-meta_key b a (sym e),
)

pub meta_key-other-state_key : (a b : String) → str_eq (state_key a) (meta_key b) ≡ false
meta_key-other-state_key a b = ground (
  arith,
  eq_iff (state_key a) (meta_key b),
  λ (e : state_key a ≡ meta_key b). state_key-ne-meta_key a b e,
)

-- json.Unmarshal gives back what json.Marshal was given, up to the layout of the payload, which
-- json.Marshal compacts.
pub record IsCodec (env : Env) : Type 0 where
  pub round_trip :
      (t : Task) (bytes : String)
      → env.encode t ≡ ok bytes
      → (payload : String) × (env.decode bytes ≡ some (record t { payload = payload }))

-- What a submission fixes of a task.
pub record IsSame (t u : Task) : Type 0 where
  pub same_id : t.id ≡ u.id
  pub same_type : t.type ≡ u.type
  pub same_priority : t.priority ≡ u.priority
  pub same_creation : t.created_at ≡ u.created_at

-- The metadata of a task can be read.
pub record IsKept (env : Env) (task : Task) (h : History) : Type 0 where
  pub bytes : String
  pub read : Task
  pub stored : value (meta_key task.id) h ≡ some bytes
  pub decoded : env.decode bytes ≡ some read
  pub same : IsSame read task

pub IsKept-same :
    (env : Env) (task : Task) (h g : History)
    → value (meta_key task.id) g ≡ value (meta_key task.id) h
    → IsKept env task h
    → IsKept env task g
IsKept-same env task h g e x = record {
  bytes = x.bytes;
  read = x.read;
  stored = e ∙ x.stored;
  decoded = x.decoded;
  same = x.same;
}
