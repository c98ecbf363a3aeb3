-- ===== src/Gateway/Grpc/Bulk/Counts.antt =====
-- The counts that a bulk submission answers, against the requests and the messages of
-- tasks.pending.
use go_task_flow.World.Views.{messages, sent}
use go_task_flow.Gateway.Grpc.Bulk.{
  bulk_submit_tasks, BulkSubmitResponse, Incoming, eof, receive, next, count_reply,
}
use go_task_flow.Gateway.Grpc.Submission.{
  invalid, refused, enqueued, submit_task-GrpcOutcome, GrpcOutcome,
}
use go_task_flow.Gateway.Grpc.{
  submit_task, Code, Reply, SubmitTaskRequest, SubmitTaskResponse, status_error, reply,
  invalid_argument, internal,
}
use go_task_flow.World.{History, Env}
use go_task_flow.Prelude.{
  ℕ, suc, ◌+◌, ◌<◌, String, ◌≡◌, refl, ap, ◌⊎◌, inl, inr, List, [], ◌∷◌, arith, length, ◌%◌, ◌^◌,
  ◌++◌, length-append,
}
use go_task_flow.Gateway.{pending_topic}

abbrev pub pending_count : History → ℕ
pending_count h = length (messages pending_topic h)

-- The requests of a stream that ends by io.EOF.
unfoldable pub stream_of : List SubmitTaskRequest → Incoming
stream_of [] = eof
stream_of (req ∷ reqs) = next req (stream_of reqs)

-- A submission is a status with no new message, or a response with one.
module _ (env : Env) where
  one_submission :
      (req : SubmitTaskRequest) (h : History)
      → let r = submit_task env req h in
        ((c : Code) × (msg : String) × (r.0 ≡ status_error c msg)
          × (pending_count r.1 ≡ pending_count h))
        ⊎ ((resp : SubmitTaskResponse) × (r.0 ≡ reply resp)
            × (pending_count r.1 ≡ suc (pending_count h)))
  one_submission req h = of_outcome (submit_task-GrpcOutcome env req h)
    where
      of_outcome :
          {r : Reply SubmitTaskResponse × History}
          → GrpcOutcome env req h r
          → ((c : Code) × (msg : String) × (r.0 ≡ status_error c msg)
              × (pending_count r.1 ≡ pending_count h))
            ⊎ ((resp : SubmitTaskResponse) × (r.0 ≡ reply resp)
                × (pending_count r.1 ≡ suc (pending_count h)))
      of_outcome (invalid msg same) =
          inl (invalid_argument, msg, ap (λ x. x.0) same, ap (λ x. pending_count x.1) same)
      of_outcome (refused msg bad topics) =
          inl (internal, msg, bad, ap length (topics pending_topic))
      of_outcome (enqueued id now bytes minted dated good encoded state meta topics) =
          inr (_, good, ap length (topics pending_topic))

  -- What the loop answers, from the counts that it has so far.
  record Counted (acc : BulkSubmitResponse) (n : ℕ) (h : History)
      (r : Reply BulkSubmitResponse × History) : Type 0 where
    response : BulkSubmitResponse
    answered : r.0 ≡ reply response
    all : response.submitted + response.failures ≡ acc.submitted + acc.failures + n
    named : length response.task_ids ≡ response.submitted
    sent_on : pending_count r.1 + acc.submitted ≡ response.submitted + pending_count h

  -- One more request in front.
  extend-Counted :
      (acc acc' : BulkSubmitResponse) (n : ℕ) (h g : History)
      {r : Reply BulkSubmitResponse × History}
      → acc'.submitted + acc'.failures ≡ acc.submitted + acc.failures + 1
      → pending_count g + acc.submitted ≡ acc'.submitted + pending_count h
      → Counted acc' n g r
      → Counted acc (suc n) h r
  extend-Counted acc acc' n h g more sent x = record {
    response = x.response;
    answered = x.answered;
    all = omega (arith, x.all);
    named = x.named;
    sent_on = omega (arith, x.sent_on);
  }

  receive-Counted :
      (reqs : List SubmitTaskRequest) (acc : BulkSubmitResponse) (h : History)
      → acc.submitted + acc.failures + length reqs < 2_147_483_648
      → length acc.task_ids ≡ acc.submitted
      → Counted acc (length reqs) h (receive env acc (stream_of reqs) h)
  unfolding receive count_reply stream_of
  receive-Counted [] acc h bound ids = record {
    response = acc;
    answered = refl;
    all = omega arith;
    named = ids;
    sent_on = omega arith;
  }
  receive-Counted (req ∷ reqs) acc h bound ids = elim (one_submission req h) [
    | inl (c, msg, bad, same) ↦
        let acc' : BulkSubmitResponse = record acc { failures = (acc.failures + 1) % 2 ^ 32 } in
        let g = (submit_task env req h).1 in
        rw bad (
          extend-Counted acc acc' (length reqs) h g (omega arith) (omega (arith, same))
            (receive-Counted reqs acc' g (omega arith) ids))
    | inr (resp, good, one) ↦
        let acc' : BulkSubmitResponse = record acc {
          submitted = (acc.submitted + 1) % 2 ^ 32;
          task_ids = acc.task_ids ++ resp.task_id ∷ [];
        } in
        let g = (submit_task env req h).1 in
        let ids' = length-append acc.task_ids (resp.task_id ∷ []) in
        rw good (
          extend-Counted acc acc' (length reqs) h g (omega arith) (omega (arith, one))
            (receive-Counted reqs acc' g (omega arith) (omega (arith, ids'))))
  ]

abbrev none_yet : BulkSubmitResponse
none_yet = record { submitted = 0; failures = 0; task_ids = [] }

-- A bulk submission of fewer than 2^31 requests answers how many of them were submitted and how
-- many failed: the two counts add up to the number of requests, there is one identifier for each
-- submitted task, and tasks.pending has exactly that many new messages.
pub bulk_submit_tasks-counts :
    (env : Env) (reqs : List SubmitTaskRequest) (h : History)
    → length reqs < 2_147_483_648
    → let r = bulk_submit_tasks env (stream_of reqs) h in
      (response : BulkSubmitResponse) × (r.0 ≡ reply response)
      × (response.submitted + response.failures ≡ length reqs)
      × (length response.task_ids ≡ response.submitted)
      × (pending_count r.1 ≡ response.submitted + pending_count h)
unfolding bulk_submit_tasks
bulk_submit_tasks-counts env reqs h bound =
    let x = receive-Counted env reqs none_yet h (omega arith) refl in
    (x.response, x.answered, omega (arith, x.all), x.named, omega (arith, x.sent_on))
