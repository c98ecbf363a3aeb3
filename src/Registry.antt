-- ===== src/Registry.antt =====
-- internal/handlers/handler.go: handlers by task type. The mutex makes each operation atomic.
use go_task_flow.Prelude.Texts.{str_eq_refl}
use go_task_flow.Prelude.{
  String, Option, List, [], ◌∷◌, str_eq, if◌then◌else◌, ◌≡◌, inl, inr, false, arith, eq_iff,
  Bool-cases,
}
use go_task_flow.Domain.{Task}
use go_task_flow.Domain.Errors.{Error, Result, ok, err, invalid_task_type}
use go_task_flow.World.{M}

-- The Handler interface: what it does with a task is a computation of its own. Handle takes a
-- pointer to the task, through which neither handler of the package writes.
pub record Handler : Type 0 where
  pub task_type : String
  pub handle : Task → M (Option Error)

-- Go's map[string]Handler: each key once, newest in front.
abbrev pub Registry : Type 0
Registry = List (String × Handler)

abbrev pub new_registry : Registry
new_registry = []

store : String → Handler → Registry → Registry
store k h [] = (k, h) ∷ []
store k h ((j, g) ∷ r) = if str_eq j k then (k, h) ∷ r else (j, g) ∷ store k h r

unfoldable pub register : Handler → Registry → Registry
unfolding store
register h r = store h.task_type h r

find : String → Registry → Result Handler
find k [] = err (invalid_task_type k)
find k ((j, h) ∷ r) = if str_eq j k then ok h else find k r

unfoldable pub get : Registry → String → Result Handler
unfolding find
get r k = find k r

find-store : (k : String) (h : Handler) (r : Registry) → find k (store k h r) ≡ ok h
unfolding find store
find-store k h [] = ground (arith, str_eq_refl k)
find-store k h ((j, g) ∷ r) = elim (Bool-cases (str_eq j k)) [
  | inl same ↦ ground (arith, str_eq_refl k)
  | inr other ↦ ground (arith, find-store k h r)
]

find-store_other :
    (k j : String) (h : Handler) (r : Registry)
    → str_eq k j ≡ false
    → find j (store k h r) ≡ find j r
unfolding find store
find-store_other k j h [] apart = ground arith
find-store_other k j h ((i, g) ∷ r) apart = elim (Bool-cases (str_eq i k)) [
  | inl same ↦ let skipped : str_eq i j ≡ false = rw ((eq_iff i k).0 same, apart) in ground arith
  | inr other ↦ ground (arith, find-store_other k j h r apart)
]

-- Register is a map's update: the handler is found under its own type, and every other type finds
-- what it found before.
pub register-get :
    (h : Handler) (r : Registry)
    → (get (register h r) h.task_type ≡ ok h)
      × ((k : String) → str_eq h.task_type k ≡ false → get (register h r) k ≡ get r k)
unfolding get register
register-get h r = (find-store h.task_type h r, λ k apart. find-store_other h.task_type k h r apart)
