-- ===== src/Tests/Gateway.antt =====
-- The gateways at concrete requests.
use go_task_flow.Gateway.Agreement.{rest_request, submit_task-Agree, Agree}
use go_task_flow.Gateway.Grpc
use go_task_flow.StateStore.{set_status, set_task_meta}
use go_task_flow.Producer.{publish}
use go_task_flow.Gateway.{is_blank}
use go_task_flow.Worker.Delivery.{IsFaithful}
use go_task_flow.StateStore.RoundTrip.{IsCodec}
use go_task_flow.Gateway.Rest.Lookup.{IsFoundNew, submitted_is_found}
use go_task_flow.Domain.Errors.{Result, ok, err, external}
use go_task_flow.World.{Env}
use go_task_flow.Domain.{pending, Task}
use go_task_flow.Prelude.Int.{pos, ℤ, negsuc}
use go_task_flow.Gateway.Rest.Submission.{submit_task-SubmitOutcome, SubmitOutcome}
use go_task_flow.Gateway.Rest.{SubmitTaskRequest, new_task}
use go_task_flow.Gateway.Rest.{submit_task, get_task_status}
use go_task_flow.Gateway.Agreement.Status.{StatusAgree, get_task_status-StatusAgree}
use go_task_flow.Tests.Fixtures.{calm, or_nil}
use go_task_flow.Prelude.{
  false, String, Option, none, some, [], str_eq, if◌then◌else◌, ℕ, zero, Bool, true, ◌&&◌, ◌==◌,
  ◌≡◌, sym, arith, eq_iff, refl, ap,
}

abbrev pub request : SubmitTaskRequest
request = record { type = "email"; payload = "{}"; priority = pos 0; scheduled_at = none }

abbrev pub decode_request : String → Option SubmitTaskRequest
decode_request body = if str_eq body "" then none else some request

submit_task-SubmitOutcome_example :
    SubmitOutcome calm (some request) [] (submit_task calm decode_request "body" [])
submit_task-SubmitOutcome_example = submit_task-SubmitOutcome calm decode_request "body" []

-- An encoder that takes nothing but new tasks of the request, made at time 0.
abbrev encoded : ℤ → ℤ → ℕ → ℕ → Option ℤ → Option ℕ → Bool → String → Result String
encoded (pos zero) (pos zero) zero zero none none true id = ok id
encoded _ _ _ _ _ _ _ _ = err (external "unsupported value")

abbrev is_three : ℤ → Bool
is_three (pos n) = n == 3
is_three (negsuc n) = false

three_of : (n : ℤ) → is_three n ≡ true → n ≡ pos 3
three_of (pos n) e = ground (arith, e)
three_of (negsuc n) e = cc

abbrev is_plain : Task → Bool
is_plain t = str_eq t.type "email" && str_eq t.status pending && is_three t.max_retries

abbrev pub plain_task : String → Task
plain_task id = new_task id 0 request

abbrev pub decode_plain : String → Option Task
decode_plain String.[] = none
decode_plain (String.◌∷◌ c s) = some (plain_task s)

abbrev pub codec : Env
codec = record calm {
  now = λ h. 0;
  encode = λ t.
      encoded t.priority t.attempts t.created_at t.updated_at t.scheduled_at t.completed_at
        (is_plain t) (String.◌∷◌ "t" t.id);
  decode = decode_plain;
}

pub codec-IsFaithful : IsFaithful codec
codec-IsFaithful = record { reads = λ h k v e. ap or_nil e; acks = λ h k v ttl. refl }

-- What the encoder took.
record IsTaken (t : Task) (bytes : String) : Type 0 where
  typed : t.type ≡ "email"
  waiting : t.status ≡ pending
  retries : t.max_retries ≡ pos 3
  named : bytes ≡ String.◌∷◌ "t" t.id

plain-IsTaken :
    (t : Task) (bytes : String) → is_plain t ≡ true → String.◌∷◌ "t" t.id ≡ bytes → IsTaken t bytes
plain-IsTaken t bytes plain same = record {
  typed = (eq_iff t.type "email").0 (ground (arith, plain));
  waiting = (eq_iff t.status pending).0 (ground (arith, plain));
  retries = three_of t.max_retries (ground (arith, plain));
  named = sym same;
}

encoded-fields :
    (p a : ℤ) (c u : ℕ) (s : Option ℤ) (e : Option ℕ) (b : Bool) (id bytes : String)
    → encoded p a c u s e b id ≡ ok bytes
    → (p ≡ pos 0)
      × (a ≡ pos 0)
      × (c ≡ 0)
      × (u ≡ 0)
      × (s ≡ none)
      × (e ≡ none)
      × (b ≡ true)
      × (id ≡ bytes)
encoded-fields (pos zero) (pos zero) zero zero none none true id bytes q =
    (refl, refl, refl, refl, refl, refl, refl, cc)
encoded-fields _ _ _ _ _ _ _ id bytes q = absurd (cc q)

pub codec-IsCodec : IsCodec codec
codec-IsCodec = record {
  round_trip = λ t bytes e.
      let (p, a, c, u, s, d, b, same) = encoded-fields _ _ _ _ _ _ _ _ bytes e in
      let x = plain-IsTaken t bytes b same in
      ("{}", cc (p, a, c, u, s, d, x.typed, x.waiting, x.retries, x.named));
}

submitted_is_found_example :
    IsFoundNew codec decode_request "body" "u" (submit_task codec decode_request "body" []).1
unfolding submit_task is_blank set_task_meta set_status publish
submitted_is_found_example =
    submitted_is_found codec decode_request "body" [] codec-IsFaithful codec-IsCodec refl refl

abbrev pub remote : Grpc.SubmitTaskRequest
remote = record { type = "email"; payload = "{}"; priority = pos 0; scheduled_at = pos 0 }

-- A decoder that answers the REST form of the gRPC request.
abbrev decode_remote : String → Option SubmitTaskRequest
decode_remote body = some (rest_request remote)

submit_task-Agree_example :
    Agree "email" (submit_task calm decode_remote "body" []) (Grpc.submit_task calm remote [])
unfolding is_blank
submit_task-Agree_example =
    submit_task-Agree calm decode_remote "body" remote [] refl refl refl refl refl

get_task_status-StatusAgree_example :
    let h = (submit_task codec decode_request "body" []).1 in
    StatusAgree (get_task_status codec "u" h) (Grpc.get_task_status codec "u" h)
get_task_status-StatusAgree_example =
    get_task_status-StatusAgree codec "u" (submit_task codec decode_request "body" []).1
