-- ===== src/RateLimiter.antt =====
-- internal/redis/rate_limiter.go: a sliding window of the requests of a key in a sorted set of
-- Redis.
pub mod Window
use go_task_flow.Prelude.Int.{neg, ℤ, pos, negsuc}
use go_task_flow.Domain.Errors.{Result, err, wrap, ok}
use go_task_flow.World.{M, ◌>>=◌, pure, time_now, run_window, Env}
use go_task_flow.Prelude.{ℕ, ◌-◌, ◌*◌, String, ◌<>◌, Bool, false, leb, if◌then◌else◌}

-- countCmd.Val() <= int64(limit)
unfoldable pub within : ℕ → ℤ → Bool
within n (pos l) = leb n l
within n (negsuc l) = false

-- now - window, which may lie before 1970.
unfoldable pub window_start : ℕ → ℕ → ℤ
unfolding neg
window_start window now = if leb window now then pos (now - window) else neg (window - now)

module _ (env : Env) (limit : ℤ) (window : ℕ) where
  unfoldable pub verdict : String → Result ℕ → Result Bool
  verdict key (err e) = err (wrap ("rate limiter pipeline for " <> env.format.quote key) e)
  verdict key (ok n) = ok (within n limit)

  -- The score is the double that float64(now) rounds to, the member is exact.
  unfoldable pub allow : String → M (Result Bool)
  unfolding verdict
  allow key = do
    now ← time_now env
    r ←
        run_window env ("ratelimit:" <> key) (window_start window now) (env.float64 now) now
          (window * 2)
    pure (verdict key r)
