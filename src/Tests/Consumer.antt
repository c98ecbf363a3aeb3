-- ===== src/Tests/Consumer.antt =====
-- The consumer and the header carrier at concrete messages.
use go_task_flow.Domain.Errors.{Result, external, ok, err}
use go_task_flow.Consumer.Offsets.{position, failure_is_passed}
use go_task_flow.Consumer.Rounds.{commits, fetches, subscribe-Subscribed, LeavesReader, Subscribed}
use go_task_flow.Tests.Fixtures.{calm}
use go_task_flow.World.{Fetched, Env}
use go_task_flow.Consumer.{HandlerFunc, round, subscribe}
use go_task_flow.Prelude.{
  ℕ, zero, suc, ◌<◌, String, ◌≡◌, refl, false, none, some, [], ◌∷◌, arith, str_eq, if◌then◌else◌,
  length,
}
use go_task_flow.Carrier.{HeaderCarrier, get, set, keys, occurrences, set-Updates}

abbrev pub message_at : ℕ → String → Fetched
message_at o value = record {
  topic = "tasks.pending";
  partition = 0;
  offset = o;
  key = "";
  value = value;
  headers = [];
}

-- The messages that the broker has, in the order of the fetches; then the connection is closed.
abbrev available : ℕ → Result Fetched
available zero = ok (message_at 7 "bad")
available (suc zero) = ok (message_at 8 "good")
available (suc (suc n)) = err (external "closed")

abbrev broker : Env
broker = record calm { fetch_answer = λ h. available (length (fetches h)) }

-- A handler that refuses one value.
abbrev refuses_bad : HandlerFunc
refuses_bad m h = (if str_eq m.value "bad" then some (external "boom") else none, h)

refuses_bad-LeavesReader : LeavesReader refuses_bad
refuses_bad-LeavesReader = record { commits_same = λ m h. refl; fetches_same = λ m h. refl }

commits_test : commits (subscribe broker refuses_bad 3 []).1 ≡ (0, 8) ∷ []
unfolding subscribe round fetches commits
commits_test = refl

subscribe-Subscribed_example :
    Subscribed broker refuses_bad 3 [] (subscribe broker refuses_bad 3 [])
subscribe-Subscribed_example = subscribe-Subscribed broker refuses_bad refuses_bad-LeavesReader 3 []

failure_is_passed_example :
    (resume : ℕ) × (position 0 (subscribe broker refuses_bad 2 []).1 ≡ some resume) × (7 < resume)
unfolding round fetches
failure_is_passed_example =
    failure_is_passed broker refuses_bad (message_at 7 "bad") (message_at 8 "good")
      (external "boom") [] refl refl refl refl refl (omega arith) (λ g. refl)

abbrev headers : HeaderCarrier
headers =
    record { key = "traceparent"; value = "a" }
    ∷ record { key = "x"; value = "b" }
    ∷ record { key = "traceparent"; value = "c" }
    ∷ []

set-Updates_example :
    (get (set headers "traceparent" "d") "traceparent" ≡ "d")
    × ((k : String)
        → str_eq "traceparent" k ≡ false
        → get (set headers "traceparent" "d") k ≡ get headers k)
    × (occurrences "traceparent" (keys (set headers "traceparent" "d")) ≡ 1)
set-Updates_example = set-Updates headers "traceparent" "d"
