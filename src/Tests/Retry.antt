-- ===== src/Tests/Retry.antt =====
-- Do at a call that fails twice and then succeeds.
use go_task_flow.Prelude.Int.{pos}
use go_task_flow.Domain.Errors.{Error, external}
use go_task_flow.Retry.Outcome.{retry-Outcome, Outcome}
use go_task_flow.Prelude.{ℕ, ◌+◌, ◌≡◌, refl, true, Option, none, some, ltb, if◌then◌else◌}
use go_task_flow.Retry.{retry, Config}

abbrev fails_below : ℕ → ℕ → Option Error × ℕ
fails_below m n = (if ltb n m then some (external "boom") else none, n + 1)

abbrev three_attempts : Config ℕ
three_attempts = record {
  max_attempts = pos 3;
  base_delay = 1;
  on_retry = none;
  wait = λ d n. (true, n);
  ctx_err = λ n. external "context canceled";
}

third_succeeds : retry three_attempts (fails_below 2) 0 ≡ (none, 3)
unfolding retry
third_succeeds = refl

retry-Outcome_example :
    Outcome three_attempts (fails_below 2) 0 (retry three_attempts (fails_below 2) 0)
retry-Outcome_example = retry-Outcome three_attempts (fails_below 2) 0
