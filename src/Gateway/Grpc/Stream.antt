-- ===== src/Gateway/Grpc/Stream.antt =====
-- StreamTaskUpdates: the status of a task, sent every 500 ms until it is terminal. What stream.Send
-- answers is a parameter.
pub mod Updates
use go_task_flow.Prelude.Int.{pos}
use go_task_flow.Domain.Errors.{Error}
use go_task_flow.Gateway.Grpc.{
  get_task_status, Code, Reply, TaskStatusResponse, status_error, invalid_argument, reply,
}
use go_task_flow.World.{History, M, ◌>>=◌, ◌>>◌, pure, wait_timer, Env, streamed}
use go_task_flow.Prelude.{
  ℕ, zero, suc, String, true, false, Option, none, some, ◌∷◌, str_eq, if◌then◌else◌,
}
use go_task_flow.Domain.{is_terminal}

-- How the loop goes on, or how the call ends: with nil, with a status, or with the error of Send.
pub data Progress : Type 0 where
  going closed : Progress
  status_failed : Code → String → Progress
  send_failed : Error → Progress

abbrev pub poll_interval : ℕ
poll_interval = 500_000_000

module _ (env : Env) (send : TaskStatusResponse → History → Option Error) where
  abbrev send_response : TaskStatusResponse → M (Option Error)
  send_response r h = let e = send r h in (e, streamed r.task_id r.status e ∷ h)

  after_send : TaskStatusResponse → Option Error → Progress
  unfolding is_terminal
  after_send r (some e) = send_failed e
  after_send r none = if is_terminal r.status then closed else going

  update : Reply TaskStatusResponse → M Progress
  unfolding after_send
  update (status_error c msg) = pure (status_failed c msg)
  update (reply r) = do e ← send_response r; pure (after_send r e)

  -- One turn of the select: the context's end, or the ticker.
  poll : String → M Progress
  unfolding update
  poll id h =
      let (fired, h₁) = wait_timer env (pos poll_interval) h in
      let (r, h₂) = get_task_status env id h₁ in
      elim fired [ false ↦ (closed, h₁) | true ↦ update r h₂ ]

  polls : String → ℕ → M Progress
  unfolding poll
  polls id zero h = (going, h)
  polls id (suc n) h =
      let (p, h') = poll id h in
      elim p [
        | going ↦ polls id n h'
        | closed ↦ (closed, h')
        | status_failed c msg ↦ (status_failed c msg, h')
        | send_failed e ↦ (send_failed e, h')
      ]

  -- The call, for n rounds of its loop.
  unfoldable pub stream_task_updates : String → ℕ → M Progress
  unfolding polls
  stream_task_updates id n =
      if str_eq id ""
      then pure (status_failed invalid_argument "task_id is required")
      else polls id n
