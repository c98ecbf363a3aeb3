-- ===== src/Service/Process/Closing.antt =====
-- The log of a command read as brackets: what runServe of services/*/cli/serve.go opens and closes.
use go_task_flow.Consumer.{again, returned}
use go_task_flow.Domain.Errors.{Error, wrap}
use go_task_flow.World.{M}
use go_task_flow.Consumer.{Flow, returned}
use go_task_flow.Dispatcher.{run}
use go_task_flow.Prelude.{
  ℕ, suc, ◌≤◌, String, ◌≡◌, refl, inl, inr, Option, none, some, List, ◌∷◌, arith, str_eq,
  Bool-cases, ◌⊎◌, ap, sym,
}
use go_task_flow.Service.Process.{
  failed, P, stepped, with_tracer, with_pool, serving, Resource, Step, Process, Outside, pooled,
  pinged, metrics_served, executed, opening, exported, opened, listened, http_shut_down,
  grpc_stopped, pool, closed, closed_after,
}

-- From one log to a longer one: each resource that was opened in between was closed, by brackets
-- that nest, except for pools whose Ping failed where they were opened.
pub data Closes (out : Outside) : List Step → ℕ → List Step → Type 0 where
  unchanged : {l : List Step} → Closes out l 0 l
  metrics :
      {l m : List Step} {n : ℕ} (addr : String)
      → Closes out l n m
      → Closes out l n (metrics_served addr ∷ m)
  listening :
      {l m : List Step} {n : ℕ} (addr : String)
      → Closes out l n m
      → Closes out l n (listened addr ∷ m)
  executing :
      {l m : List Step} {n : ℕ} (sql : String) (e : Option Error)
      → Closes out l n m
      → Closes out l n (executed sql e ∷ m)
  stopping :
      {l m : List Step} {n : ℕ}
      → Closes out l n m
      → Closes out l n (http_shut_down ∷ grpc_stopped ∷ m)
  left_open :
      {l : List Step} {n : ℕ} (dsn : String) (p : Process) (e : Error)
      → out.ping_error p ≡ some e
      → Closes out l n p.steps
      → Closes out l (suc n) (opened (pool dsn) ∷ p.steps)
  bracket :
      {l m : List Step} {n : ℕ} (r : Resource)
      → Closes out (opened r ∷ l) n m
      → Closes out l n (closed r ∷ m)

-- The error of a command whose database does not answer.
abbrev pub no_ping : Error → Error
no_ping x = wrap "postgres" (wrap "postgres ping" x)

-- Nothing is left open, or one pool is, whose Ping failed, and the command returns that error.
pub record Tidy (out : Outside) (l : List Step) (e : Option Error) (m : List Step) : Type 0 where
  pub leaks : ℕ
  pub closes : Closes out l leaks m
  pub few : leaks ≤ 1
  pub clean : (leaks ≡ 0) ⊎ ((x : Error) × (e ≡ some (no_ping x)))

abbrev pub IsTidy : Outside → P → Type 0
IsTidy out m =
    (p : Process) (e : Option Error) → (m p).0 ≡ returned e → Tidy out p.steps e (m p).1.steps

pub failed-IsTidy : (out : Outside) (x : Error) → IsTidy out (failed x)
failed-IsTidy out x p e eq = record {
  leaks = 0;
  closes = unchanged;
  few = omega arith;
  clean = inl refl;
}

-- The deferred Close, behind what the rest of the function did.
closing-Tidy :
    (out : Outside) (r : Resource) (l : List Step) (f : Flow) (q : Process) (e : Option Error)
    → ((e' : Option Error) → f ≡ returned e' → Tidy out (opened r ∷ l) e' q.steps)
    → (closed_after r f q).0 ≡ returned e
    → Tidy out l e (closed_after r f q).1.steps
unfolding closed_after
closing-Tidy out r l again q e tidy eq = cc
closing-Tidy out r l (returned e') q e tidy eq =
    let x = tidy e eq in
    record { leaks = x.leaks; closes = bracket r x.closes; few = x.few; clean = x.clean }

pub opening-IsTidy :
    (out : Outside) (r : Resource) (rest : P) → IsTidy out rest → IsTidy out (opening r rest)
unfolding opening
opening-IsTidy out r rest tidy p e eq =
    closing-Tidy out r p.steps _ _ e (tidy (stepped (opened r) p)) eq

flow_error : Flow → Option Error
flow_error again = none
flow_error (returned e) = e

returned_injective : {e e' : Option Error} → returned e ≡ returned e' → e ≡ e'
unfolding flow_error
returned_injective eq = ap flow_error eq

module _ (out : Outside) where
  exported-IsTidy :
      (name endpoint : String) (rest : P) (x : Option Error)
      → IsTidy out rest
      → IsTidy out (exported out name endpoint rest x)
  unfolding exported
  exported-IsTidy name endpoint rest (some x) tidy = failed-IsTidy out _
  exported-IsTidy name endpoint rest none tidy = opening-IsTidy out _ rest tidy

  pub with_tracer-IsTidy :
      (name endpoint : String) (rest : P)
      → IsTidy out rest
      → IsTidy out (with_tracer out name endpoint rest)
  unfolding with_tracer
  with_tracer-IsTidy name endpoint rest tidy p e = elim (Bool-cases (str_eq endpoint "")) [
    | inl off ↦ rw off (tidy p e)
    | inr on ↦ rw on (exported-IsTidy name endpoint rest _ tidy p e)
  ]

  pinged-IsTidy :
      (dsn : String) (rest : P) (x : Option Error) (p : Process)
      → out.ping_error p ≡ x
      → IsTidy out rest
      → (e : Option Error) → (pinged out dsn rest x p).0 ≡ returned e
      → Tidy out p.steps e (pinged out dsn rest x p).1.steps
  unfolding pinged
  pinged-IsTidy dsn rest (some x) p down tidy e eq = record {
    leaks = 1;
    closes = left_open dsn p x down unchanged;
    few = omega arith;
    clean = inr (x, sym (returned_injective eq));
  }
  pinged-IsTidy dsn rest none p up tidy e eq = opening-IsTidy out _ rest tidy p e eq

  pooled-IsTidy :
      (dsn : String) (rest : P) (x : Option Error)
      → IsTidy out rest
      → IsTidy out (pooled out dsn rest x)
  unfolding pooled
  pooled-IsTidy dsn rest (some x) tidy p = failed-IsTidy out _ p
  pooled-IsTidy dsn rest none tidy p = pinged-IsTidy dsn rest _ p refl tidy

  pub with_pool-IsTidy :
      (dsn : String) (rest : P) → IsTidy out rest → IsTidy out (with_pool out dsn rest)
  unfolding with_pool
  with_pool-IsTidy dsn rest tidy p = pooled-IsTidy dsn rest _ tidy p

pub serving-IsTidy :
    (out : Outside) (service addr : String) (run : M Flow) → IsTidy out (serving service addr run)
unfolding serving
serving-IsTidy out service addr run p e eq = record {
  leaks = 0;
  closes = metrics addr unchanged;
  few = omega arith;
  clean = inl refl;
}
