-- ===== src/Service/Dispatcher/Relaying.antt =====
-- services/dispatcher/cli/serve.go: the dispatcher that the command builds, under the loop of the
-- consumer.
use mathlib.Core.Path.{subst}
use go_task_flow.Prelude.Int.{ℤ}
use go_task_flow.Consumer.Relaying.{Relayed}
use go_task_flow.Consumer.Rounds.{commits, fetches}
use go_task_flow.RateLimiter.{allow}
use go_task_flow.Dispatcher.{Limiter, route, run}
use go_task_flow.Dispatcher.Limits.{new_rate_limiter}
use go_task_flow.Dispatcher.Relaying.{LeavesKafka, run-Relayed}
use go_task_flow.Service.Dispatcher.{Config, is_positive, limiter_of, second}
use go_task_flow.World.{History, Env}
use go_task_flow.World.Views.{taken}
use go_task_flow.Prelude.{ℕ, String, ◌≡◌, refl, Bool, true, false, none, some, if◌then◌else◌, arith}

some_injective : {A : Type 0} {x y : A} → some x ≡ some y → x ≡ y
some_injective e = cc

module _ (env : Env) where
  -- The limiter of Redis reads the clock and runs its pipeline.
  allow-LeavesKafka :
      (limit : ℤ) (window : ℕ) (type : String) → LeavesKafka (allow env limit window type)
  unfolding allow taken commits fetches
  allow-LeavesKafka limit window type = record {
    taken_same = λ h. refl;
    commits_same = λ h. refl;
    fetches_same = λ h. refl;
  }

  chosen-LeavesKafka :
      (b : Bool) (limit : ℤ) (window : ℕ) (l : Limiter) (type : String)
      → (if b then some (new_rate_limiter env limit window) else none) ≡ some l
      → LeavesKafka (l.allow type)
  chosen-LeavesKafka true limit window l type e =
      subst (λ l'. LeavesKafka (l'.allow type)) (some_injective e)
        (allow-LeavesKafka limit window type)
  chosen-LeavesKafka false limit window l type e = absurd (ground (arith, e))

  -- In every run of the dispatcher as its command builds it, with a limiter or without one, the
  -- contents that Kafka takes from it, newest first, are those of the messages whose offsets it
  -- hands to Kafka, in the same order and once each: nothing is committed that was not sent on, as
  -- a task or as a dead letter, and nothing is sent on that is not committed.
  pub limiter_of-Relayed :
      (cfg : Config) (n : ℕ) (h : History)
      → let limiter = limiter_of env cfg in
        Relayed env (λ msg. route env limiter msg.value) n h (run env limiter n h)
  unfolding limiter_of
  limiter_of-Relayed cfg n h =
      run-Relayed env (limiter_of env cfg)
        (chosen-LeavesKafka (is_positive cfg.rate_limit) cfg.rate_limit second) n h
