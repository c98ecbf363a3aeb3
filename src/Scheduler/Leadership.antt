-- ===== src/Scheduler/Leadership.antt =====
-- At most one scheduler leads: the key of the election as a lease, whoever asks for it.
pub mod Lease
pub mod Reign
pub mod Takeover
use go_task_flow.Scheduler.Leadership.Lease.{
  lease, IsLeaseServer, Later, Holds, asked, renewal, other,
}
use go_task_flow.Domain.Errors.{is_redis_nil, Error, Result, err}
use go_task_flow.Scheduler.{
  leader_ttl, acquire_or_renew_leadership, ok, leader_key, leader_ttl_ms, renewed, elected,
}
use go_task_flow.World.{
  History, Event, Env, redis_set_nx, redis_renew, ◌>>=◌, pure, run_renew_script, ◌>>◌,
}
use go_task_flow.Prelude.{
  ℕ, ◌+◌, ◌*◌, ◌≤◌, ◌<◌, String, ◌≡◌, ◌≢◌, true, Option, none, some, [], ◌∷◌, ◌==◌, if◌then◌else◌,
  refl, Bool, false, arith, ◌∙◌, inl, inr, Bool-cases, ◌&&◌, str_eq,
}

pub not_true : {b : Bool} → b ≢ true → b ≡ false
not_true {b = true} n = absurd (n refl)
not_true {b = false} n = refl

module _ (env : Env) (server : IsLeaseServer env) where
  -- A renewal that is answered with 1 starts a full term.
  renewed-Holds :
      (a : String) (g h : History) (r : Result ℕ)
      → env.redis_time h ≤ env.redis_time g
      → renewed env a r ≡ true
      → Holds env a (env.redis_time h + leader_ttl) (redis_renew leader_key a leader_ttl_ms r ∷ g)
  unfolding renewed lease
  renewed-Holds a g h (err e) later won = cc
  renewed-Holds a g h (ok n) later won = record {
    until = env.redis_time g + leader_ttl;
    held_by = rw won;
    long = omega arith;
    near = omega (arith, server.forward g (redis_renew leader_key a leader_ttl_ms (ok n)));
  }

  retried-Holds :
      (a : String) (e : Error) (h : History) (b : Bool)
      → let m =
          if b
          then (do r ← run_renew_script env leader_key a leader_ttl_ms; pure (renewed env a r))
          else pure false in
        let g = redis_set_nx leader_key a leader_ttl (some e) ∷ h in
        (m g).0 ≡ true → Holds env a (env.redis_time h + leader_ttl) (m g).1
  retried-Holds a e h true won =
      renewed-Holds a _ h _ (server.forward h (redis_set_nx leader_key a leader_ttl (some e))) won
  retried-Holds a e h false won = cc

  elected-Holds :
      (a : String) (h : History) (ans : Option Error)
      → let r = elected env a ans (redis_set_nx leader_key a leader_ttl ans ∷ h) in
        r.0 ≡ true → Holds env a (env.redis_time h + leader_ttl) r.1
  unfolding elected lease
  elected-Holds a h none won = record {
    until = env.redis_time h + leader_ttl;
    held_by = refl;
    long = omega arith;
    near = omega (arith, server.forward h (redis_set_nx leader_key a leader_ttl none));
  }
  elected-Holds a h (some e) won = retried-Holds a e h (is_redis_nil e) won

  keep-Holds :
      (a : String) (t : ℕ) (g : History) (e : Event)
      → lease env.redis_time (e ∷ g) ≡ lease env.redis_time g
      → Holds env a t g
      → Holds env a t (e ∷ g)
  keep-Holds a t g e same x = record {
    until = x.until;
    held_by = same ∙ x.held_by;
    long = x.long;
    near = omega (arith, x.near, server.forward g e);
  }

  -- While a holds the lease, a renewal leaves it with a; one that is answered with 1 is a's own.
  renewing-Holds :
      (a i : String) (t : ℕ) (g : History) (r : Result ℕ)
      → env.renew_answer g leader_key i leader_ttl_ms ≡ r
      → Holds env a t g
      → Holds env a t (redis_renew leader_key i leader_ttl_ms r ∷ g)
        × ((renewed env i r ≡ true) → i ≡ a)
  unfolding renewed lease
  renewing-Holds a i t g (err e) ans x = (keep-Holds a t g _ refl x, λ won. cc)
  renewing-Holds a i t g (ok n) ans x = elim (Bool-cases (n == 1)) [
    | inr differs ↦ (keep-Holds a t g _ (rw differs) x, λ won. cc)
    | inl one ↦
        let (u, l) = server.own g i leader_ttl_ms (ground (arith, ans, one)) in
        let mine : i ≡ a = cc (l, x.held_by) in
        (
          record {
            until = env.redis_time g + leader_ttl;
            held_by = rw (one, mine);
            long = omega (arith, x.near);
            near =
                omega
                  (arith, x.near, server.forward g (redis_renew leader_key i leader_ttl_ms (ok n)));
          },
          λ won. mine,
        )
  ]

  retrying-Holds :
      (a i : String) (t : ℕ) (e : Error) (g : History) (b : Bool)
      → Holds env a t g
      → let m =
          if b
          then (do r ← run_renew_script env leader_key i leader_ttl_ms; pure (renewed env i r))
          else pure false in
        let g' = redis_set_nx leader_key i leader_ttl (some e) ∷ g in
        Holds env a t (m g').1 × ((m g').0 ≡ true → i ≡ a)
  unfolding lease
  retrying-Holds a i t e g true x =
      renewing-Holds a i t _ _ refl
        (keep-Holds a t g (redis_set_nx leader_key i leader_ttl (some e)) refl x)
  retrying-Holds a i t e g false x =
      (keep-Holds a t g (redis_set_nx leader_key i leader_ttl (some e)) refl x, λ won. cc)

  electing-Holds :
      (a i : String) (t : ℕ) (g : History) (ans : Option Error)
      → env.set_nx_answer g leader_key i leader_ttl ≡ ans
      → Holds env a t g
      → env.redis_time g < t
      → let r = elected env i ans (redis_set_nx leader_key i leader_ttl ans ∷ g) in
        Holds env a t r.1 × (r.0 ≡ true → i ≡ a)
  unfolding elected
  electing-Holds a i t g none ans x early =
      absurd (server.held g i leader_ttl a x.until x.held_by (omega (arith, x.long)) ans)
  electing-Holds a i t g (some e) ans x early = retrying-Holds a i t e g (is_redis_nil e) x

  -- While the lease lasts, an attempt of any instance leaves it with its holder, and only the
  -- holder's own attempt succeeds.
  pub attempt-Holds :
      (a i : String) (t : ℕ) (g : History)
      → Holds env a t g
      → env.redis_time g < t
      → let r = acquire_or_renew_leadership env i g in Holds env a t r.1 × (r.0 ≡ true → i ≡ a)
  unfolding acquire_or_renew_leadership
  attempt-Holds a i t g x early = electing-Holds a i t g _ refl x early

  asking-Holds :
      (a i : String) (t : ℕ) (g : History) (ans : Option Error)
      → env.set_nx_answer g leader_key i leader_ttl ≡ ans
      → Holds env a t g
      → env.redis_time g < t
      → Holds env a t (redis_set_nx leader_key i leader_ttl ans ∷ g)
  unfolding lease
  asking-Holds a i t g none ans x early =
      absurd (server.held g i leader_ttl a x.until x.held_by (omega (arith, x.long)) ans)
  asking-Holds a i t g (some e) ans x early = keep-Holds a t g _ refl x

  -- The instance that an attempt has made leader holds the lease for a full term.
  pub acquired-Holds :
      (a : String) (h : History)
      → (acquire_or_renew_leadership env a h).0 ≡ true
      → Holds env a (env.redis_time h + leader_ttl) (acquire_or_renew_leadership env a h).1
  unfolding acquire_or_renew_leadership
  acquired-Holds a h won = elected-Holds a h _ won

  pub Later-Holds :
      {h : History} (a : String) (t : ℕ)
      → Holds env a t h
      → {g : History} → Later env h g
      → env.redis_time g < t
      → Holds env a t g
  Later-Holds a t x Later.now early = x
  Later-Holds a t x (asked {g} i l) early =
      let sooner : env.redis_time g < t = omega (arith, server.forward g _) in
      asking-Holds a i t g _ refl (Later-Holds a t x l sooner) sooner
  Later-Holds a t x (renewal {g} i l) early =
      (renewing-Holds a i t g _ refl (Later-Holds a t x l (omega (arith, server.forward g _)))).0
  Later-Holds a t x (other {g} e same l) early =
      keep-Holds a t g e same (Later-Holds a t x l (omega (arith, server.forward g e)))

-- When an attempt has made an instance leader, or has renewed its leadership, no other instance
-- succeeds within 30 seconds of that attempt, on the clock of the Redis server: neither of the two
-- calls of an attempt succeeds, so that it fails also if calls of others come between them. Before
-- it, calls of any instances and events that do not concern the lease may come in any order. The
-- server keeps the lease as Redis documents it.
pub leadership_exclusive :
    (env : Env) (a b : String) (h g : History)
    → IsLeaseServer env
    → b ≢ a
    → (acquire_or_renew_leadership env a h).0 ≡ true
    → Later env (acquire_or_renew_leadership env a h).1 g
    → env.redis_time g < env.redis_time h + leader_ttl
    → ((acquire_or_renew_leadership env b g).0 ≡ false)
      × (env.set_nx_answer g leader_key b leader_ttl ≢ none)
      × (renewed env b (env.renew_answer g leader_key b leader_ttl_ms) ≡ false)
leadership_exclusive env a b h g server differ won later early =
    let t = env.redis_time h + leader_ttl in
    let x = Later-Holds env server a t (acquired-Holds env server a h won) later early in
    (
      not_true (λ won'. differ ((attempt-Holds env server a b t g x early).1 won')),
      server.held g b leader_ttl a x.until x.held_by (omega (arith, x.long)),
      not_true (λ won'. differ ((renewing-Holds env server a b t g _ refl x).1 won')),
    )
