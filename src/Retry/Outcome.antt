-- ===== src/Retry/Outcome.antt =====
-- How a run of retry.Do may end, as a relation that does not mention the loop: some failed
-- attempts, each followed by its wait, and then a success, the last failure or a cancellation.
use native.Mathlib.Numerals.{add-one}
use mathlib.Core.Path.{subst}
use go_task_flow.Prelude.{
  ℕ, zero, suc, ◌+◌, ◌<◌, ◌==◌, ◌≡◌, sym, inl, inr, Bool, true, false, Option, none, some, arith,
  Bool-cases, Option-cases,
}
use go_task_flow.Domain.Errors.{Error, retry_cancelled}
use go_task_flow.Retry.{Config, attempts_of, delay, notify, loop, retry}

module _ {S : Type 0} (cfg : Config S) (fn : S → Option Error × S) where
  -- The state after the wait that follows attempt k + 1, which failed with e in state t.
  abbrev pub wait_after : ℕ → Error → S → Bool × S
  wait_after k e t =
      cfg.wait (delay cfg.base_delay (k + 1)) (notify cfg.on_retry (k + 1) e (fn t).1)

  -- k attempts have failed, and each wait ended by its timer.
  pub data Retrying (s : S) : ℕ → S → Type 0 where
    start : Retrying s 0 s
    again :
        {k : ℕ} {t : S} (e : Error)
        → Retrying s k t
        → (fn t).0 ≡ some e
        → (wait_after k e t).0 ≡ true
        → Retrying s (suc k) (wait_after k e t).1

  pub data Outcome (s : S) (r : Option Error × S) : Type 0 where
    succeeded :
        (k : ℕ) (t : S)
        → Retrying s k t
        → k < attempts_of cfg.max_attempts
        → (fn t).0 ≡ none
        → r ≡ (none, (fn t).1)
        → Outcome s r
    exhausted :
        (k : ℕ) (t : S) (e : Error)
        → Retrying s k t
        → k + 1 ≡ attempts_of cfg.max_attempts
        → (fn t).0 ≡ some e
        → r ≡ (some e, (fn t).1)
        → Outcome s r
    cancelled :
        (k : ℕ) (t : S) (e : Error)
        → Retrying s k t
        → k + 1 < attempts_of cfg.max_attempts
        → (fn t).0 ≡ some e
        → (wait_after k e t).0 ≡ false
        → r ≡ (
          some (retry_cancelled (k + 1) (cfg.ctx_err (wait_after k e t).1)),
          (wait_after k e t).1,
        )
        → Outcome s r

  loop-Outcome :
      (left k : ℕ) (last : Option Error) (s t : S)
      → k + left ≡ attempts_of cfg.max_attempts
      → 0 < left
      → Retrying s k t
      → Outcome s (loop cfg fn left (attempts_of cfg.max_attempts) (k + 1) last t)
  unfolding loop
  loop-Outcome zero k last s t e p r = absurd (omega arith)
  loop-Outcome (suc left) k last s t e p r = elim (Option-cases (fn t).0) [
    | inl ok ↦ succeeded k t r (omega arith) ok (ground arith)
    | inr (x, bad) ↦ elim (Bool-cases (k + 1 == attempts_of cfg.max_attempts)) [
      | inl end ↦ exhausted k t x r (ground arith) bad (ground arith)
      | inr more ↦ elim (Bool-cases (wait_after k x t).0) [
        | inl fired ↦ subst (Outcome s) (sym (ground arith)) (
            loop-Outcome left (k + 1) (some x) s (wait_after k x t).1 (omega arith) (ground arith)
              (rw add-one (again x r bad fired)))
        | inr stopped ↦ cancelled k t x r (ground arith) bad stopped (ground arith)
      ]
    ]
  ]

  attempts_of-pos : 0 < attempts_of cfg.max_attempts
  unfolding attempts_of
  attempts_of-pos = ground arith

  -- Every run of Do ends in one of the three ways, with the result that belongs to it.
  pub retry-Outcome : (s : S) → Outcome s (retry cfg fn s)
  unfolding retry
  retry-Outcome s =
      loop-Outcome (attempts_of cfg.max_attempts) 0 none s s (omega arith) attempts_of-pos start
