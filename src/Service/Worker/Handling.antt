-- ===== src/Service/Worker/Handling.antt =====
-- services/worker/cli/serve.go and services/worker/worker.go: the worker that serve builds and its
-- messages.
use go_task_flow.Gateway.Grpc.{found}
use go_task_flow.Prelude.Texts.{ne_of_str_eq}
use go_task_flow.Worker.Final.{dead_letter}
use go_task_flow.Worker.Lifecycle.{process-Processed, Processed}
use go_task_flow.Worker.Delivery.{unknown_type}
use go_task_flow.Domain.Errors.{Error, ok, err, invalid_task_type}
use go_task_flow.Handlers.Email.{email_handler, email_handler-IsQuiet}
use go_task_flow.Handlers.Webhook.{webhook_handler, webhook_handler-IsQuiet}
use go_task_flow.World.Views.{sets, sent, statements, runs, IsQuiet}
use go_task_flow.Worker.{
  process_message, Worker, with_retries, with_timeout, with_worker_type, new_worker,
}
use go_task_flow.StateStore.{state_ttl, state_key}
use go_task_flow.World.{History, Env, redis_get}
use go_task_flow.Dispatcher.{topic_dlq}
use go_task_flow.Prelude.{
  ℕ, String, ◌≡◌, refl, sym, ◌∙◌, ◌≢◌, ◌⊎◌, inl, inr, false, Option, none, some, ◌∷◌, str_eq,
  eq_iff, if◌then◌else◌, Bool-cases,
}
use go_task_flow.Service.Worker.{Config, email_config, registry, build_worker, Decoders}
use go_task_flow.Domain.{Status, running, dead, is_terminal, Task}
use go_task_flow.Worker
use go_task_flow.Registry.{get, register, Handler}

module _ (env : Env) (decoders : Decoders) (cfg : Config) where
  -- The two handlers, by their types.
  pub get-registry :
      (k : String)
      → get (registry env decoders cfg) k ≡ (
          if str_eq "email" k
          then ok (email_handler env (email_config cfg) decoders.email)
          else if str_eq "webhook" k
          then ok (webhook_handler env decoders.webhook)
          else err (invalid_task_type k))
  unfolding get register registry email_handler webhook_handler
  get-registry k = refl

  abbrev worker : String → Worker.Worker
  worker id = build_worker env decoders cfg id

  -- What becomes of a message: it is processed by one of the two handlers, or its type has none and
  -- it is handed to the dead-letter topic with no row written.
  pub data Handling (id : String) (task : Task) (raw : String) (h : History)
      (r : Option Error × History) : Type 0 where
    processed :
        (e : Option Error) (n j : ℕ)
        → (task.type ≡ "email") ⊎ (task.type ≡ "webhook")
        → r.0 ≡ none
        → Processed env (worker id) task raw e n j h r.1
        → Handling id task raw h r
    unserved :
        task.type ≢ "email"
        → task.type ≢ "webhook"
        → r.0 ≡ none
        → sets (state_key task.id) r.1 ≡ dead ∷ sets (state_key task.id) h
        → sent topic_dlq r.1 ≡ dead_letter task raw ∷ sent topic_dlq h
        → runs r.1 ≡ runs h
        → statements r.1 ≡ statements h
        → Handling id task raw h r

  registry-build_worker : (id : String) → (worker id).registry ≡ registry env decoders cfg
  unfolding build_worker Worker.new_worker Worker.with_retries Worker.with_timeout
      Worker.with_worker_type
  registry-build_worker id = refl

  module _ (id : String) (task : Task) (raw : String) (h : History)
      (decoded : env.decode raw ≡ some task)
      (live : (s : Status)
        → env.get_answer h (state_key task.id) ≡ ok s
        → is_terminal s ≡ false) where
    by_handler :
        (handler : Handler)
        → ((t : Task) → IsQuiet (handler.handle t))
        → get (worker id).registry task.type ≡ ok handler
        → (task.type ≡ "email") ⊎ (task.type ≡ "webhook")
        → env.set_answer (redis_get (state_key task.id) ∷ h) (state_key task.id) running state_ttl
          ≡ none
        → Handling id task raw h (Worker.process_message env (worker id) raw h)
    by_handler handler quiet found kind acked =
        let (nil, (e, n, j, x)) =
          process-Processed env (worker id) handler task raw quiet h decoded found live acked in
        processed e n j kind nil x

    -- A message that decodes to a task that is not known to be finished, and whose write of
    -- RUNNING is acknowledged, is processed to its end by a worker that serve has built if the
    -- task's type is email or webhook, whatever the worker's own type is; any other type is a dead
    -- letter, DEAD in Redis, with no run of a handler and no row written, also if it is the
    -- worker's own type.
    pub build_worker-Handling :
        env.set_answer (redis_get (state_key task.id) ∷ h) (state_key task.id) running state_ttl
          ≡ none
        → Handling id task raw h (Worker.process_message env (worker id) raw h)
    build_worker-Handling acked = elim (Bool-cases (str_eq "email" task.type)) [
      | inl email ↦
          by_handler (email_handler env (email_config cfg) decoders.email)
            (email_handler-IsQuiet env (email_config cfg) decoders.email)
            (rw registry-build_worker (get-registry task.type ∙ rw email refl))
            (inl (sym ((eq_iff "email" task.type).0 email))) acked
      | inr not_email ↦ elim (Bool-cases (str_eq "webhook" task.type)) [
        | inl hook ↦
            by_handler (webhook_handler env decoders.webhook)
              (webhook_handler-IsQuiet env decoders.webhook)
              (rw registry-build_worker (get-registry task.type ∙ rw (not_email, hook) refl))
              (inr (sym ((eq_iff "webhook" task.type).0 hook))) acked
        | inr other ↦
            let none_found : get (worker id).registry task.type
                ≡ err (invalid_task_type task.type) =
              rw registry-build_worker (get-registry task.type ∙ rw (not_email, other) refl) in
            let (nil, dead_now, letter, ran, rows) =
              unknown_type env (worker id) raw task h (invalid_task_type task.type) decoded
                none_found live in
            unserved (λ e. ne_of_str_eq _ _ not_email (sym e)) (λ e. ne_of_str_eq _ _ other (sym e))
              nil dead_now letter ran rows
      ]
    ]
