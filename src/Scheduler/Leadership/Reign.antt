-- ===== src/Scheduler/Leadership/Reign.antt =====
-- acquireOrRenewLeadership of services/scheduler/scheduler.go over time: the attempts of one
-- leader.
use go_task_flow.Scheduler.Leadership.{Later-Holds, acquired-Holds, not_true, attempt-Holds}
use go_task_flow.Scheduler.Leadership.Lease.{lease, IsLeaseServer, Later, Holds}
use go_task_flow.Scheduler.{
  acquire_or_renew_leadership, elected, renewed, leader_key, leader_ttl, leader_ttl_ms,
}
use go_task_flow.Domain.Errors.{Error, ok, is_redis_nil}
use go_task_flow.World.{History, Env, redis_set_nx}
use go_task_flow.Prelude.{
  ℕ, ◌+◌, ◌<◌, String, ◌≡◌, ◌≢◌, true, false, Option, none, some, ◌∷◌, arith,
}

-- What Redis answers while it is up: SET NX on a key that has not expired answers nil, and the
-- script of its holder extends it.
pub record IsAvailable (env : Env) : Type 0 where
  pub taken :
      (h : History) (v : String) (ttl : ℕ) (owner : String) (until : ℕ)
      → lease env.redis_time h ≡ some (owner, until)
      → env.redis_time h < until
      → (e : Error) × (env.set_nx_answer h leader_key v ttl ≡ some e) × (is_redis_nil e ≡ true)
  pub extends :
      (h : History) (v : String) (ms until : ℕ)
      → lease env.redis_time h ≡ some (v, until)
      → env.redis_time h < until
      → env.renew_answer h leader_key v ms ≡ ok 1

module _ (env : Env) (a : String) where
  -- Between the two calls of an attempt.
  abbrev pub asked_once : History → History
  asked_once g =
      redis_set_nx leader_key a leader_ttl (env.set_nx_answer g leader_key a leader_ttl) ∷ g

  -- The states behind the attempts of a leader, with the time of its last attempt: it was elected,
  -- and then made an attempt again and again whose second call comes within 30 seconds of the
  -- attempt before.
  pub data Reign : ℕ → History → Type 0 where
    crowned :
        (h : History)
        → (acquire_or_renew_leadership env a h).0 ≡ true
        → Reign (env.redis_time h) (acquire_or_renew_leadership env a h).1
    again :
        {s : ℕ} {h : History} (g : History)
        → Reign s h
        → Later env h g
        → env.redis_time (asked_once g) < s + leader_ttl
        → Reign (env.redis_time g) (acquire_or_renew_leadership env a g).1

  module _ (server : IsLeaseServer env) (up : IsAvailable env) where
    -- The second call of the holder, behind the answer of the first.
    elected-succeeds :
        (g : History) (until : ℕ) (answer : Option Error) (e : Error)
        → lease env.redis_time g ≡ some (a, until)
        → answer ≡ some e
        → is_redis_nil e ≡ true
        → env.redis_time (redis_set_nx leader_key a leader_ttl answer ∷ g) < until
        → (elected env a answer (redis_set_nx leader_key a leader_ttl answer ∷ g)).0 ≡ true
    unfolding elected renewed lease
    elected-succeeds g until none e held same nil early = cc
    elected-succeeds g until (some x) e held same nil early =
        let on : is_redis_nil x ≡ true = cc in
        ground (
          arith,
          on,
          up.extends (redis_set_nx leader_key a leader_ttl (some x) ∷ g) a leader_ttl_ms until held
              early,
        )

    attempt-succeeds :
        (g : History) (t : ℕ)
        → Holds env a t g
        → env.redis_time (asked_once g) < t
        → (acquire_or_renew_leadership env a g).0 ≡ true
    unfolding acquire_or_renew_leadership
    attempt-succeeds g t x early =
        let (e, answer, nil) = up.taken g a leader_ttl a x.until x.held_by (
          omega (
            arith,
            x.long,
            early,
            server.forward g (
                redis_set_nx leader_key a leader_ttl (env.set_nx_answer g leader_key a leader_ttl)),
          )) in
        elected-succeeds g x.until (env.set_nx_answer g leader_key a leader_ttl) e x.held_by answer
          nil (omega (arith, x.long, early))

    sooner : (g : History) (t : ℕ) → env.redis_time (asked_once g) < t → env.redis_time g < t
    sooner g t early = omega (
      arith,
      server.forward g
          (redis_set_nx leader_key a leader_ttl (env.set_nx_answer g leader_key a leader_ttl)),
    )

    Reign-Holds : {s : ℕ} {h : History} → Reign s h → Holds env a (s + leader_ttl) h
    Reign-Holds (crowned h won) = acquired-Holds env server a h won
    Reign-Holds (again {s} {h} g r later early) = acquired-Holds env server a g (
        attempt-succeeds g (s + leader_ttl)
          (Later-Holds env server a (s + leader_ttl) (Reign-Holds r) later
            (sooner g (s + leader_ttl) early))
          early)

    -- A leader that was elected, and makes each attempt so that its second call comes within 30
    -- seconds of the attempt before, is answered with true each time, for as long as it goes on
    -- so, whatever attempts others make in between, and an attempt of another instance at the same
    -- moment fails. Redis keeps the lease and is up, as IsLeaseServer and IsAvailable say.
    pub leader_stays :
        {s : ℕ} {h : History} (b : String) (g : History)
        → Reign s h
        → b ≢ a
        → Later env h g
        → env.redis_time (asked_once g) < s + leader_ttl
        → ((acquire_or_renew_leadership env a g).0 ≡ true)
          × ((acquire_or_renew_leadership env b g).0 ≡ false)
    leader_stays {s} {h} b g r differ later early =
        let x =
          Later-Holds env server a (s + leader_ttl) (Reign-Holds r) later
            (sooner g (s + leader_ttl) early) in
        (
          attempt-succeeds g (s + leader_ttl) x early,
          not_true (λ won. differ (
              (attempt-Holds env server a b (s + leader_ttl) g x
                  (sooner g (s + leader_ttl) early)).1
                won)),
        )
