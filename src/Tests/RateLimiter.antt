-- ===== src/Tests/RateLimiter.antt =====
-- The limiter over the sorted set.
use go_task_flow.RateLimiter.{within, window_start, allow}
use go_task_flow.RateLimiter.Window.{has, above, zadd, kept, zset}
use go_task_flow.Tests.Fixtures.{calm}
use go_task_flow.Domain.Errors.{ok}
use go_task_flow.Prelude.Int.{pos}
use go_task_flow.World.{Env, History, windowed}
use go_task_flow.Prelude.{ℕ, true, ◌≡◌, refl, [], ◌∷◌, length, false}

-- Redis with its sorted sets, at a time, with doubles of a spacing of 256.
abbrev sorted_at : ℕ → Env
sorted_at t = record calm {
  now = λ h. t;
  window_answer = λ h key from score member ttl.
      ok (length (zadd score member (kept calm.float64 from (zset calm.float64 key h))));
}

-- One request at time 1000, with windows of 10000, and another at 8000.
abbrev asked_once : History
asked_once =
    windowed "ratelimit:email" (window_start 10_000 1000) (calm.float64 1000) 1000 20_000 (ok 1)
    ∷ []

second_refused : (allow (sorted_at 8000) (pos 1) 10_000 "email" asked_once).0 ≡ ok false
unfolding allow within zadd kept zset has above window_start
second_refused = refl

-- At the edge, the rounding lets a request through that lies in the window: the second comes one
-- nanosecond before the first leaves it.
abbrev asked_at_edge : History
asked_at_edge =
    windowed "ratelimit:email" (window_start 1_000_000_000 1_700_000_000_000_000_000)
      (calm.float64 1_700_000_000_000_000_000) 1_700_000_000_000_000_000 2_000_000_000 (ok 1)
    ∷ []

edge_allowed :
    (allow (sorted_at 1_700_000_000_999_999_999) (pos 1) 1_000_000_000 "email" asked_at_edge).0
    ≡ ok true
unfolding allow within zadd kept zset has above window_start
edge_allowed = refl
