-- ===== src/Consumer/Rounds.antt =====
-- What Subscribe commits: the messages whose handler returned nil, in the order of the fetches.
use mathlib.Core.Path.{subst}
use go_task_flow.Domain.Errors.{Error, ok, Result-cases}
use go_task_flow.World.{History, Fetched, Env, kafka_commit, kafka_fetch}
use go_task_flow.Consumer.{
  message, HandlerFunc, subscribe, Message, Flow, again, returned, err, wrap, round,
}
use go_task_flow.Prelude.{
  ℕ, ◌≡◌, true, Option, none, some, List, [], ◌∷◌, ◌++◌, length, zero, suc, ◌+◌, refl, sym, inl,
  inr, false, arith, Bool-cases, Option-cases,
}

-- The offsets that were handed to CommitMessages with their partitions, newest first.
unfoldable pub commits : History → List (ℕ × ℕ)
commits [] = []
commits (kafka_commit p o e ∷ h) = (p, o) ∷ commits h
commits (_ ∷ h) = commits h

-- The messages that were fetched, newest first.
unfoldable pub fetches : History → List Fetched
fetches [] = []
fetches (kafka_fetch (ok m) ∷ h) = m ∷ fetches h
fetches (_ ∷ h) = fetches h

-- A handler that does not touch the consumer's own reader.
pub record LeavesReader (handler : HandlerFunc) : Type 0 where
  pub commits_same : (m : Message) (h : History) → commits (handler m h).1 ≡ commits h
  pub fetches_same : (m : Message) (h : History) → fetches (handler m h).1 ≡ fetches h

-- The positions of the messages whose handler returned nil.
unfoldable pub successes : List (Fetched × Option Error) → List (ℕ × ℕ)
successes [] = []
successes ((m, none) ∷ ds) = (m.partition, m.offset) ∷ successes ds
successes ((m, some e) ∷ ds) = successes ds

unfoldable pub messages_of : List (Fetched × Option Error) → List Fetched
messages_of [] = []
messages_of ((m, e) ∷ ds) = m ∷ messages_of ds

module _ (env : Env) (handler : HandlerFunc) where
  -- What the handler returns for a message that is fetched in state g.
  abbrev pub handled : Fetched → History → Option Error × History
  handled m g = handler (message m) (kafka_fetch (ok m) ∷ g)

  -- The rounds of a run from state h that fetched a message, newest first: the message, with what
  -- the handler returned for it, and the state behind the round.
  pub data Deliveries (h : History) : List (Fetched × Option Error) → History → Type 0 where
    nothing : Deliveries h [] h
    delivered :
        {ds : List (Fetched × Option Error)} (m : Fetched) (g : History)
        → Deliveries h ds g
        → env.fetch_answer g ≡ ok m
        → Deliveries h ((m, (handled m g).0) ∷ ds) (round env handler g).1

  -- Why a run ended behind state g: it is out of the n rounds, or a fetch failed, which is a
  -- normal return if the context is cancelled.
  pub data Ended (n rounds : ℕ) (g : History) (r : Flow × History) : Type 0 where
    all_done : rounds ≡ n → r ≡ (again, g) → Ended n rounds g r
    shut_down :
        (e : Error)
        → env.fetch_answer g ≡ err e
        → env.cancelled (kafka_fetch (err e) ∷ g) ≡ true
        → r ≡ (returned none, kafka_fetch (err e) ∷ g)
        → Ended n rounds g r
    fetch_failed :
        (e : Error)
        → env.fetch_answer g ≡ err e
        → env.cancelled (kafka_fetch (err e) ∷ g) ≡ false
        → r ≡ (returned (some (wrap "kafka fetch" e)), kafka_fetch (err e) ∷ g)
        → Ended n rounds g r

  pub record Subscribed (n : ℕ) (h : History) (r : Flow × History) : Type 0 where
    pub deliveries : List (Fetched × Option Error)
    pub last : History
    pub by_handler : Deliveries h deliveries last
    pub ended : Ended n (length deliveries) last r
    pub all_fetched : fetches r.1 ≡ messages_of deliveries ++ fetches h
    pub all_committed : commits r.1 ≡ successes deliveries ++ commits h

  -- A run that has the deliveries ds behind it.
  record Run (h : History) (ds : List (Fetched × Option Error)) (g : History) : Type 0 where
    made : Deliveries h ds g
    took : fetches g ≡ messages_of ds ++ fetches h
    gave : commits g ≡ successes ds ++ commits h

module _ (env : Env) (handler : HandlerFunc) (leaves : LeavesReader handler) where
  -- A round extends the run by its delivery.
  round-Run :
      {h : History} {ds : List (Fetched × Option Error)} (m : Fetched) (g : History)
      → Run env handler h ds g
      → env.fetch_answer g ≡ ok m
      → ((round env handler g).0 ≡ again)
        × Run env handler h ((m, (handled env handler m g).0) ∷ ds) (round env handler g).1
  unfolding round fetches commits messages_of successes
  round-Run m g x got =
      let made = delivered m g x.made got in
      let fetches_same = leaves.fetches_same (message m) (kafka_fetch (ok m) ∷ g) in
      let commits_same = leaves.commits_same (message m) (kafka_fetch (ok m) ∷ g) in
      elim (Option-cases (handled env handler m g).0) [
        | inl good ↦ (
          ground arith,
          record {
            made = made;
            took = ground (arith, fetches_same, x.took);
            gave = ground (arith, commits_same, x.gave);
          },
        )
        | inr (e, bad) ↦ (
          ground arith,
          record {
            made = made;
            took = ground (arith, fetches_same, x.took);
            gave = ground (arith, commits_same, x.gave);
          },
        )
      ]

  -- A failed fetch ends the run where it is.
  failed-Subscribed :
      (n total : ℕ) {h : History} {ds : List (Fetched × Option Error)} (g : History) (e : Error)
      → Run env handler h ds g
      → env.fetch_answer g ≡ err e
      → Subscribed env handler total h (subscribe env handler (suc n) g)
  unfolding subscribe round fetches commits
  failed-Subscribed n total {h} {ds} g e x lost =
      elim (Bool-cases (env.cancelled (kafka_fetch (err e) ∷ g))) [
        | inl stop ↦ record {
          deliveries = ds;
          last = g;
          by_handler = x.made;
          ended = shut_down e lost stop (ground arith);
          all_fetched = ground (arith, x.took);
          all_committed = ground (arith, x.gave);
        }
        | inr live ↦ record {
          deliveries = ds;
          last = g;
          by_handler = x.made;
          ended = fetch_failed e lost live (ground arith);
          all_fetched = ground (arith, x.took);
          all_committed = ground (arith, x.gave);
        }
      ]

  subscribe_on-Subscribed :
      (n total : ℕ) {h : History} {ds : List (Fetched × Option Error)} (g : History)
      → Run env handler h ds g
      → length ds + n ≡ total
      → Subscribed env handler total h (subscribe env handler n g)
  unfolding subscribe
  subscribe_on-Subscribed zero total {h} {ds} g x left = record {
    deliveries = ds;
    last = g;
    by_handler = x.made;
    ended = all_done (omega arith) refl;
    all_fetched = x.took;
    all_committed = x.gave;
  }
  subscribe_on-Subscribed (suc n) total {h} {ds} g x left =
      elim (Result-cases (env.fetch_answer g)) [
        | inl (m, got) ↦
            let (on, y) = round-Run m g x got in
            subst (Subscribed env handler total h) (sym (ground (arith, on)))
              (subscribe_on-Subscribed n total (round env handler g).1 y (omega arith))
        | inr (e, lost) ↦ failed-Subscribed n total g e x lost
      ]

  -- Every run of Subscribe has a list of deliveries, the fetched messages in their order and for
  -- each what the handler returned, and the offsets handed to Kafka are those of the messages for
  -- which that was nil, in the same order and once each. The loop ends only by a cancelled
  -- context, with nil, or by a failed fetch, with its error. The handler does not use the
  -- consumer's reader.
  pub subscribe-Subscribed :
      (n : ℕ) (h : History) → Subscribed env handler n h (subscribe env handler n h)
  unfolding messages_of successes
  subscribe-Subscribed n h =
      subscribe_on-Subscribed n n h (record { made = nothing; took = refl; gave = refl })
        (omega arith)
