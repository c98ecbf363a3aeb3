-- ===== src/Worker/Finishing.antt =====
-- services/worker/worker.go: what stands in Redis when a task has been run.
use go_task_flow.Prelude.Int.{pos}
use go_task_flow.Worker.Retries.{retry-Executed}
use go_task_flow.StateStore.RoundTrip.{
  meta_key-other-state_key, IsKept-same, IsCodec, IsSame, IsKept,
}
use go_task_flow.Registry.{Handler, get}
use go_task_flow.Repository.{set_row_status, record_execution}
use go_task_flow.Producer.{publish}
use go_task_flow.Prelude.Texts.{str_eq_refl}
use go_task_flow.Domain.Errors.{Result-cases, Error, ok}
use go_task_flow.Worker.{process_message, Worker, mark_done, execute, finish, run_task, mark_dead}
use go_task_flow.StateStore.{state_ttl, state_key, meta_key, set_task_meta, set_status}
use go_task_flow.World.{History, Env, clock_read}
use go_task_flow.Prelude.{String, ◌≡◌, false, inl, inr, some, arith, ℕ, refl, Option, none, ◌∷◌}
use go_task_flow.Worker.Final.{final_status}
use go_task_flow.Worker.Lifecycle.{
  started, begun, outcome, Processed, process-run_task, run_task-Processed,
}
use go_task_flow.Worker.Delivery.{IsFaithful, value-finish}
use go_task_flow.World.Views.{value, IsQuiet}
use go_task_flow.Domain.{Task, Status, done, is_terminal, dead}

module _ (env : Env) (faithful : IsFaithful env) (codec : IsCodec env) where
  -- A write of metadata, of a task with the same fixed fields.
  set_task_meta-IsKept :
      (task final : Task) (h : History)
      → IsSame final task
      → IsKept env task h
      → IsKept env task (set_task_meta env final h).1
  unfolding set_task_meta value
  set_task_meta-IsKept task final h same kept = elim (Result-cases (env.encode final)) [
    | inl (b, e) ↦
        let (payload, back) = codec.round_trip final b e in
        record {
          bytes = b;
          read = record final { payload = payload };
          stored = ground (
            arith,
            same.same_id,
            str_eq_refl (meta_key task.id),
            faithful.acks h (meta_key final.id) b state_ttl,
          );
          decoded = back;
          same = record {
            same_id = same.same_id;
            same_type = same.same_type;
            same_priority = same.same_priority;
            same_creation = same.same_creation;
          };
        }
    | inr (x, e) ↦ rw e kept
  ]

  set_status-IsKept :
      (task : Task) (id : String) (status : Status) (h : History)
      → IsKept env task h
      → IsKept env task (set_status env id status h).1
  unfolding set_status value
  set_status-IsKept task id status h kept =
      IsKept-same env task h _ (ground (arith, meta_key-other-state_key id task.id)) kept

  module _ (w : Worker) where
    finish-IsKept :
        (task final : Task) (e : Option Error) (d : ℕ) (raw : String) (h : History)
        → IsSame final task
        → IsKept env task h
        → IsKept env task (finish env w final e d raw h).1
    unfolding finish record_execution set_row_status publish value is_terminal
    finish-IsKept task final none d raw h same kept = IsKept-same env task _ _ refl (
        set_task_meta-IsKept task (mark_done final (env.now h)) _
          (record {
            same_id = same.same_id;
            same_type = same.same_type;
            same_priority = same.same_priority;
            same_creation = same.same_creation;
          })
          (set_status-IsKept task final.id done (clock_read (env.now h) ∷ h)
            (IsKept-same env task h _ refl kept)))
    finish-IsKept task final (some e) d raw h same kept = IsKept-same env task _ _ refl (
        set_task_meta-IsKept task (mark_dead final (env.now h)) _
          (record {
            same_id = same.same_id;
            same_type = same.same_type;
            same_priority = same.same_priority;
            same_creation = same.same_creation;
          })
          (set_status-IsKept task final.id dead (clock_read (env.now h) ∷ h)
            (IsKept-same env task h _ refl kept)))

    run_task-IsKept :
        (handler : Handler) (task : Task) (raw : String) (h : History)
        → ((t : Task) → IsQuiet (handler.handle t))
        → IsKept env task h
        → IsKept env task (run_task env w handler task raw (started task h)).1
    unfolding run_task execute value
    run_task-IsKept handler task raw h quiet kept =
        let (n, j, x) = retry-Executed env w handler task quiet (begun env (started task h)) in
        IsKept-same env task _ _ refl (
          finish-IsKept task (record task { attempts = pos (outcome env w handler task h).1 }) _ _
            raw _
            (record {
              same_id = refl;
              same_type = refl;
              same_priority = refl;
              same_creation = refl;
            })
            (IsKept-same env task h _
              (ground (
                arith,
                x.same_values (meta_key task.id) (meta_key-other-state_key task.id task.id),
                meta_key-other-state_key task.id task.id,
              ))
              kept))

    value-run_task :
        (handler : Handler) (task : Task) (raw : String) (h : History)
        → value (state_key task.id) (run_task env w handler task raw (started task h)).1
          ≡ some (final_status (outcome env w handler task h).0)
    unfolding run_task value
    value-run_task handler task raw h =
        value-finish env w (record task { attempts = pos (outcome env w handler task h).1 })
          faithful _ _ raw _

    -- What is known once a message has been executed to its end.
    pub record IsFinished (task : Task) (raw : String) (h : History) (r : Option Error × History)
        : Type 0 where
      pub ended : Option Error
      pub ran : ℕ
      pub waited : ℕ
      pub result : r.0 ≡ none
      pub processed : Processed env w task raw ended ran waited h r.1
      pub state : value (state_key task.id) r.1 ≡ some (final_status ended)
      pub kept : IsKept env task r.1

    pub process-IsFinished :
        (handler : Handler) (task : Task) (raw : String) (s : Status) (h : History)
        → ((t : Task) → IsQuiet (handler.handle t))
        → env.decode raw ≡ some task
        → get w.registry task.type ≡ ok handler
        → value (state_key task.id) h ≡ some s
        → is_terminal s ≡ false
        → IsKept env task h
        → IsFinished task raw h (process_message env w raw h)
    process-IsFinished handler task raw s h quiet decoded found state live kept =
        rw
          (process-run_task env w handler task raw h decoded found
            (λ t e. ground (arith, e, faithful.reads h (state_key task.id) s state, live))
            (faithful.acks _ _ _ _))
          (let (n, j, x) = run_task-Processed env w handler task raw quiet h in
            record {
              ended = (outcome env w handler task h).0;
              ran = n;
              waited = j;
              result = unfold run_task in refl;
              processed = x;
              state = value-run_task handler task raw h;
              kept = run_task-IsKept handler task raw h quiet kept;
            })
