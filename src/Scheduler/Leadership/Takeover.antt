-- ===== src/Scheduler/Leadership/Takeover.antt =====
-- acquireOrRenewLeadership of services/scheduler/scheduler.go behind a leader that has stopped.
use go_task_flow.Scheduler.Leadership.Lease.{lease, IsLeaseServer}
use go_task_flow.Scheduler.{
  acquire_or_renew_leadership, elected, renewed, leader_key, leader_ttl, leader_ttl_ms,
}
use go_task_flow.Domain.Errors.{Error, Result, ok, err, is_redis_nil}
use go_task_flow.World.{History, Env, redis_set_nx, redis_renew, ◌>>=◌, pure, run_renew_script}
use go_task_flow.Prelude.{
  ℕ, ◌+◌, ◌≤◌, String, ◌≡◌, refl, ◌∙◌, true, false, Option, none, some, ◌∷◌, arith, Bool,
  if◌then◌else◌,
}

-- What Redis answers while it is up: SET NX sets a key that has expired.
pub record IsExpiring (env : Env) : Type 0 where
  pub free :
      (h : History) (v : String) (ttl : ℕ) (owner : String) (until : ℕ)
      → lease env.redis_time h ≡ some (owner, until)
      → until ≤ env.redis_time h
      → env.set_nx_answer h leader_key v ttl ≡ none

-- The instance a holds the lease, for 30 seconds at most.
record IsGranted (env : Env) (a : String) (g : History) : Type 0 where
  until : ℕ
  held : lease env.redis_time g ≡ some (a, until)
  short : until ≤ env.redis_time g + leader_ttl

module _ (env : Env) (server : IsLeaseServer env) where
  renewed-IsGranted :
      (a : String) (g : History) (r : Result ℕ)
      → renewed env a r ≡ true
      → IsGranted env a (redis_renew leader_key a leader_ttl_ms r ∷ g)
  unfolding renewed lease
  renewed-IsGranted a g (err e) won = cc
  renewed-IsGranted a g (ok n) won = record {
    until = env.redis_time g + leader_ttl;
    held = rw won;
    short = omega (arith, server.forward g (redis_renew leader_key a leader_ttl_ms (ok n)));
  }

  retried-IsGranted :
      (a : String) (e : Error) (h : History) (b : Bool)
      → let m =
          if b
          then (do r ← run_renew_script env leader_key a leader_ttl_ms; pure (renewed env a r))
          else pure false in
        let g = redis_set_nx leader_key a leader_ttl (some e) ∷ h in
        (m g).0 ≡ true → IsGranted env a (m g).1
  retried-IsGranted a e h true won = renewed-IsGranted a _ _ won
  retried-IsGranted a e h false won = cc

  elected-IsGranted :
      (a : String) (h : History) (answer : Option Error)
      → let r = elected env a answer (redis_set_nx leader_key a leader_ttl answer ∷ h) in
        r.0 ≡ true → IsGranted env a r.1
  unfolding elected lease
  elected-IsGranted a h none won = record {
    until = env.redis_time h + leader_ttl;
    held = refl;
    short = omega (arith, server.forward h (redis_set_nx leader_key a leader_ttl none));
  }
  elected-IsGranted a h (some e) won = retried-IsGranted a e h (is_redis_nil e) won

  acquired-IsGranted :
      (a : String) (h : History)
      → (acquire_or_renew_leadership env a h).0 ≡ true
      → IsGranted env a (acquire_or_renew_leadership env a h).1
  unfolding acquire_or_renew_leadership
  acquired-IsGranted a h won = elected-IsGranted a h _ won

free-wins :
    (env : Env) (b : String) (g : History)
    → env.set_nx_answer g leader_key b leader_ttl ≡ none
    → (acquire_or_renew_leadership env b g).0 ≡ true
unfolding acquire_or_renew_leadership elected
free-wins env b g e = rw e refl

-- A leader that makes no more attempts is replaced: when 30 seconds have passed on the Redis clock
-- behind its last successful attempt, and no attempt of another instance has changed the lease
-- before, the next attempt of any instance succeeds. Redis keeps the lease and is up.
pub leader_replaced :
    (env : Env) (a b : String) (h g : History)
    → IsLeaseServer env
    → IsExpiring env
    → (acquire_or_renew_leadership env a h).0 ≡ true
    → lease env.redis_time g ≡ lease env.redis_time (acquire_or_renew_leadership env a h).1
    → env.redis_time (acquire_or_renew_leadership env a h).1 + leader_ttl ≤ env.redis_time g
    → (acquire_or_renew_leadership env b g).0 ≡ true
leader_replaced env a b h g server expiring won same late =
    let x = acquired-IsGranted env server a h won in
    free-wins env b g
      (expiring.free g b leader_ttl a x.until (same ∙ x.held) (omega (arith, x.short, late)))
