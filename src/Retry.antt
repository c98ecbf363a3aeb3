-- ===== src/Retry.antt =====
-- pkg/retry/retry.go: a call repeated up to a number of attempts, with growing waits.
-- The state type S holds whatever the closures and the clock change.
pub mod Outcome
use go_task_flow.Prelude.{ℕ, zero, suc, ◌+◌, ◌*◌, ◌==◌, Bool, true, false, Option, none, some}
use go_task_flow.Prelude.Int.{ℤ, pos, negsuc, int64}
use go_task_flow.Domain.Errors.{Error, retry_cancelled}

-- `on_retry` is none for a nil callback. `wait` is the select on the timer and on ctx.Done: true
-- when the timer fired; `ctx_err` is ctx.Err().
pub record Config (S : Type 0) : Type 0 where
  pub max_attempts : ℤ
  pub base_delay : ℕ
  pub on_retry : Option (ℕ → Error → S → S)
  pub wait : ℤ → S → Bool × S
  pub ctx_err : S → Error

-- `if cfg.MaxAttempts <= 0 { cfg.MaxAttempts = 1 }`
unfoldable pub attempts_of : ℤ → ℕ
attempts_of (pos zero) = 1
attempts_of (pos (suc n)) = suc n
attempts_of (negsuc n) = 1

-- cfg.BaseDelay * time.Duration(attempt*attempt), on int64.
unfoldable pub delay : ℕ → ℕ → ℤ
unfolding int64
delay base attempt = int64 (base * (attempt * attempt))

abbrev pub notify : {S : Type 0} → Option (ℕ → Error → S → S) → ℕ → Error → S → S
notify none attempt e s = s
notify (some f) attempt e s = f attempt e s

module _ {S : Type 0} (cfg : Config S) (fn : S → Option Error × S) where
  -- The loop: `left` counts the attempts that `attempt <= cfg.MaxAttempts` still admits, and
  -- `last` is lastErr.
  loop : ℕ → ℕ → ℕ → Option Error → S → Option Error × S
  unfolding delay
  loop zero max attempt last s = (last, s)
  loop (suc left) max attempt last s =
      let (r, s₁) = fn s in
      elim r [
        | none ↦ (none, s₁)
        | some e ↦ elim (attempt == max) [
          | true ↦ (some e, s₁)
          | false ↦
              let (fired, s₂) =
                cfg.wait (delay cfg.base_delay attempt) (notify cfg.on_retry attempt e s₁) in
              elim fired [
                | true ↦ loop left max (attempt + 1) (some e) s₂
                | false ↦ (some (retry_cancelled attempt (cfg.ctx_err s₂)), s₂)
              ]
        ]
      ]

  unfoldable pub retry : S → Option Error × S
  unfolding loop attempts_of
  retry s = loop (attempts_of cfg.max_attempts) (attempts_of cfg.max_attempts) 1 none s
