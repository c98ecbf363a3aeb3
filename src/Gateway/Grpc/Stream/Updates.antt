-- ===== src/Gateway/Grpc/Stream/Updates.antt =====
-- The updates that a stream sends, and when it ends.
use go_task_flow.World.Views.{sent}
use go_task_flow.Domain.Errors.{Error, as_not_found, Result, ok, err}
use go_task_flow.Gateway.Grpc.Stream.{
  poll_interval, Progress, going, closed, status_failed, send_failed, update, poll, after_send,
  stream_task_updates, polls,
}
use go_task_flow.Gateway.Grpc.{
  get_task_status, Code, found, Reply, TaskStatusResponse, status_error, reply,
}
use go_task_flow.StateStore.{get_status, get_task_meta}
use go_task_flow.World.{History, Env, streamed, waited}
use go_task_flow.Prelude.{
  ℕ, String, ◌≡◌, true, false, List, [], ◌∷◌, ◌++◌, length, refl, ap, ◌∙◌, inl, inr, Option, arith,
  str_eq, Bool-cases, Option-cases, zero, suc, ◌+◌,
}
use go_task_flow.Repository.{get_by_id}
use go_task_flow.Domain.{Status, is_terminal, Task}
use go_task_flow.Gateway.{find_task, with_live_status, pos, from_store}

-- The statuses that were sent, newest first.
unfoldable pub updates : History → List Status
updates [] = []
updates (streamed id s e ∷ h) = s ∷ updates h
updates (_ ∷ h) = updates h

-- None of the statuses is terminal.
unfoldable pub AllLive : List Status → Type 0
AllLive [] = Unit
AllLive (s ∷ ss) = (is_terminal s ≡ false) × AllLive ss

-- How a run of n rounds may end, with the updates that it sent, newest first.
pub data Streamed (n : ℕ) (h : History) (r : Progress × History) : Type 0 where
  running :
      (ss : List Status)
      → updates r.1 ≡ ss ++ updates h
      → AllLive ss
      → length ss ≡ n
      → r.0 ≡ going
      → Streamed n h r
  finished :
      (s : Status) (ss : List Status)
      → updates r.1 ≡ (s ∷ ss) ++ updates h
      → AllLive ss
      → is_terminal s ≡ true
      → r.0 ≡ closed
      → Streamed n h r
  cancelled :
      (ss : List Status) (g : History)
      → updates r.1 ≡ ss ++ updates h
      → AllLive ss
      → r ≡ (closed, waited (pos poll_interval) false ∷ g)
      → Streamed n h r
  unanswered :
      (ss : List Status) (c : Code) (msg : String)
      → updates r.1 ≡ ss ++ updates h
      → AllLive ss
      → r.0 ≡ status_failed c msg
      → Streamed n h r
  undelivered :
      (s : Status) (ss : List Status) (e : Error)
      → updates r.1 ≡ (s ∷ ss) ++ updates h
      → AllLive ss
      → r.0 ≡ send_failed e
      → Streamed n h r

module _ (env : Env) (id : String) where
  updates-from_store :
      (r : Result Task) (h : History) → updates (from_store env id r h).1 ≡ updates h
  unfolding from_store get_by_id updates
  updates-from_store (ok task) h = refl
  updates-from_store (err e) h = elim (Bool-cases (as_not_found e)) [
    | inl absent ↦ rw absent refl
    | inr broken ↦ rw broken refl
  ]

  updates-found : (r : Result Task) (h : History) → updates (found env id r h).1 ≡ updates h
  unfolding found get_status with_live_status updates
  updates-found (ok task) h = refl
  updates-found (err e) h = refl

  -- Reading a task's status sends no update.
  updates-get_task_status : (h : History) → updates (get_task_status env id h).1 ≡ updates h
  unfolding get_task_status find_task get_task_meta updates
  updates-get_task_status h = elim (Bool-cases (str_eq id "")) [
    | inl empty ↦ rw empty refl
    | inr named ↦
        let m = get_task_meta env id h in
        let r = from_store env id m.0 m.1 in
        rw named (updates-found r.0 r.1 ∙ updates-from_store m.0 m.1)
  ]

module _ (env : Env) (send : TaskStatusResponse → History → Option Error) (id : String) where
  -- What one round does.
  data Polled (h : History) (r : Progress × History) : Type 0 where
    sent_live :
        (s : Status)
        → is_terminal s ≡ false
        → updates r.1 ≡ s ∷ updates h
        → r.0 ≡ going
        → Polled h r
    sent_last :
        (s : Status)
        → is_terminal s ≡ true
        → updates r.1 ≡ s ∷ updates h
        → r.0 ≡ closed
        → Polled h r
    stopped : r ≡ (closed, waited (pos poll_interval) false ∷ h) → Polled h r
    no_status :
        (c : Code) (msg : String) → updates r.1 ≡ updates h → r.0 ≡ status_failed c msg → Polled h r
    not_sent :
        (s : Status) (e : Error) → updates r.1 ≡ s ∷ updates h → r.0 ≡ send_failed e → Polled h r

  update-Polled :
      (r : Reply TaskStatusResponse) (h g : History)
      → updates g ≡ updates h
      → Polled h (update env send r g)
  unfolding update after_send updates
  update-Polled (status_error c msg) h g same = no_status c msg same refl
  update-Polled (reply r) h g same = elim (Option-cases (send r g)) [
    | inr (e, lost) ↦ not_sent r.status e (ap (λ x. r.status ∷ x) same) (ground arith)
    | inl took ↦ elim (Bool-cases (is_terminal r.status)) [
      | inl over ↦ sent_last r.status over (ap (λ x. r.status ∷ x) same) (ground arith)
      | inr live ↦ sent_live r.status live (ap (λ x. r.status ∷ x) same) (ground arith)
    ]
  ]

  poll-Polled : (h : History) → Polled h (poll env send id h)
  unfolding poll updates
  poll-Polled h = elim (Bool-cases (env.timer_fires h (pos poll_interval))) [
    | inr off ↦ rw off (stopped (ap (λ b. (closed, waited (pos poll_interval) b ∷ h)) off))
    | inl on ↦ rw on (update-Polled _ h _ (updates-get_task_status env id _))
  ]

  module _ (total : ℕ) (h₀ : History) where
    -- A round behind the updates ss, and the rounds that follow it if the loop goes on.
    round-Streamed :
        (n : ℕ) (ss : List Status) (h : History)
        → AllLive ss
        → updates h ≡ ss ++ updates h₀
        → let h' = (poll env send id h).1 in
          ((s : Status)
            → is_terminal s ≡ false
            → updates h' ≡ (s ∷ ss) ++ updates h₀
            → Streamed total h₀ (polls env send id n h'))
          → Polled h (poll env send id h)
          → Streamed total h₀ (polls env send id (suc n) h)
    unfolding polls updates
    round-Streamed n ss h live sent next (sent_live s on new goes) =
        rw goes (next s on (rw (new, sent) refl))
    round-Streamed n ss h live sent next (sent_last s over new ends) =
        rw ends (finished s ss (rw (new, sent) refl) live over refl)
    round-Streamed n ss h live sent next (stopped same) =
        let ends : (poll env send id h).0 ≡ closed = ap (λ x. x.0) same in
        let behind = ap (λ x. x.1) same in
        rw ends (cancelled ss h (rw behind sent) live (rw behind refl))
    round-Streamed n ss h live sent next (no_status c msg same ends) =
        rw ends (unanswered ss c msg (same ∙ sent) live refl)
    round-Streamed n ss h live sent next (not_sent s e new ends) =
        rw ends (undelivered s ss e (rw (new, sent) refl) live refl)

    -- The rounds that are left, behind the updates ss.
    polls-Streamed :
        (n : ℕ) (ss : List Status) (h : History)
        → AllLive ss
        → updates h ≡ ss ++ updates h₀
        → length ss + n ≡ total
        → Streamed total h₀ (polls env send id n h)
    unfolding polls AllLive
    polls-Streamed zero ss h live sent left = running ss sent live (omega arith) refl
    polls-Streamed (suc n) ss h live sent left =
        round-Streamed n ss h live sent
          (λ s on new.
            polls-Streamed n (s ∷ ss) (poll env send id h).1 (on, live) new (omega (arith, left)))
          (poll-Polled h)

-- However a run of the stream ends, no update follows a terminal one: all updates but the newest
-- have states that are not terminal. The call returns nil only behind an update with a terminal
-- state, or at the end of the context; a status that cannot be read and an update that cannot be
-- sent end it with their error; a run that goes on has sent one update for each round. The
-- identifier is not empty.
pub stream_task_updates-Streamed :
    (env : Env) (send : TaskStatusResponse → History → Option Error) (id : String) (n : ℕ)
    (h : History)
    → str_eq id "" ≡ false
    → Streamed n h (stream_task_updates env send id n h)
unfolding stream_task_updates AllLive
stream_task_updates-Streamed env send id n h named =
    rw named (polls-Streamed env send id n h n [] h tt refl (omega arith))
