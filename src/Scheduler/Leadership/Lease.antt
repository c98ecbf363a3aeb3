-- ===== src/Scheduler/Leadership/Lease.antt =====
-- The key of the election as a lease: who holds it by the acknowledged calls, what Redis documents
-- of it, and what may happen while it lasts.
use go_task_flow.Scheduler.{leader_key, leader_ttl, leader_ttl_ms}
use go_task_flow.World.{History, Event, Env, redis_set_nx, redis_renew}
use go_task_flow.Prelude.{
  ℕ, ◌+◌, ◌*◌, ◌≤◌, ◌<◌, String, ◌≡◌, ◌≢◌, ◌&&◌, Option, none, some, [], ◌∷◌, str_eq, ◌==◌,
  if◌then◌else◌,
}
use go_task_flow.Domain.Errors.{ok}

-- Who holds the lease and until when, on the clock of the Redis server, as the acknowledged calls
-- say.
unfoldable pub lease : (History → ℕ) → History → Option (String × ℕ)
lease clock [] = none
lease clock (redis_set_nx k v ttl none ∷ h) =
    if str_eq k leader_key then some (v, clock h + ttl) else lease clock h
lease clock (redis_renew k v ms (ok n) ∷ h) =
    if str_eq k leader_key && n == 1 then some (v, clock h + ms * 1_000_000) else lease clock h
lease clock (_ ∷ h) = lease clock h

-- What Redis documents of SET NX with a TTL and of a script that compares, then extends: a key
-- that has not expired is not set again, only its holder extends it, and the server's clock does
-- not go back.
pub record IsLeaseServer (env : Env) : Type 0 where
  pub held :
      (h : History) (v : String) (ttl : ℕ) (owner : String) (until : ℕ)
      → lease env.redis_time h ≡ some (owner, until)
      → env.redis_time h < until
      → env.set_nx_answer h leader_key v ttl ≢ none
  pub own :
      (h : History) (v : String) (ms : ℕ)
      → env.renew_answer h leader_key v ms ≡ ok 1
      → (until : ℕ) × (lease env.redis_time h ≡ some (v, until))
  pub forward : (h : History) (e : Event) → env.redis_time h ≤ env.redis_time (e ∷ h)

-- What may happen behind an attempt: single calls of the election by any instance, in any order,
-- and events that are no use of the lease.
pub data Later (env : Env) (h : History) : History → Type 0 where
  now : Later env h h
  asked :
      {g : History} (i : String)
      → Later env h g
      → Later env h
          (redis_set_nx leader_key i leader_ttl (env.set_nx_answer g leader_key i leader_ttl) ∷ g)
  renewal :
      {g : History} (i : String)
      → Later env h g
      → Later env h (
          redis_renew leader_key i leader_ttl_ms (env.renew_answer g leader_key i leader_ttl_ms)
          ∷ g)
  other :
      {g : History} (e : Event)
      → lease env.redis_time (e ∷ g) ≡ lease env.redis_time g
      → Later env h g
      → Later env h (e ∷ g)

-- The instance a holds the lease at least until t, and at most 30 seconds of that lie ahead.
pub record Holds (env : Env) (a : String) (t : ℕ) (h : History) : Type 0 where
  pub until : ℕ
  pub held_by : lease env.redis_time h ≡ some (a, until)
  pub long : t ≤ until
  pub near : t ≤ env.redis_time h + leader_ttl
