-- ===== src/Consumer/Relaying.antt =====
-- A service that sends each message on, behind the loop of the consumer: what Kafka takes from it
-- against what it commits.
use go_task_flow.Domain.Errors.{Error, ok}
use go_task_flow.World.{History, Fetched, Env, kafka_fetch}
use go_task_flow.World.Views.{taken}
use go_task_flow.Consumer.{message, HandlerFunc, subscribe, Message, Flow, round}
use go_task_flow.Consumer.Offsets.{round_skips, round_commits}
use go_task_flow.Consumer.Rounds.{
  LeavesReader, Subscribed, Deliveries, nothing, delivered, Ended, all_done, shut_down,
  fetch_failed, handled, subscribe-Subscribed,
}
use go_task_flow.Prelude.{
  ℕ, String, ◌≡◌, refl, Option, none, some, List, [], ◌∷◌, ◌++◌, ◌∙◌, inl, inr, Option-cases, arith,
}

-- A handler that leaves the consumer's reader alone, returns nil where Kafka took one message from
-- it, with the content of the one it was given, and an error where Kafka took none.
pub record Relays (handler : HandlerFunc) : Type 0 where
  pub reader : LeavesReader handler
  pub passes_on :
      (m : Message) (h : History)
      → (handler m h).0 ≡ none
      → taken (handler m h).1 ≡ m.value ∷ taken h
  pub holds_back :
      (m : Message) (h : History) (e : Error)
      → (handler m h).0 ≡ some e
      → taken (handler m h).1 ≡ taken h

-- The contents of the messages whose handler returned nil.
unfoldable pub relayed : List (Fetched × Option Error) → List String
relayed [] = []
relayed ((m, none) ∷ ds) = m.value ∷ relayed ds
relayed ((m, some e) ∷ ds) = relayed ds

module _ (env : Env) (handler : HandlerFunc) where
  -- A run of the loop, with what Kafka has taken behind it.
  pub record Relayed (n : ℕ) (h : History) (r : Flow × History) : Type 0 where
    pub run : Subscribed env handler n h r
    pub all_taken : taken r.1 ≡ relayed run.deliveries ++ taken h

module _ (env : Env) (handler : HandlerFunc) (relays : Relays handler) where
  round-taken :
      (ds : List (Fetched × Option Error)) (m : Fetched) (h g : History)
      → env.fetch_answer g ≡ ok m
      → taken g ≡ relayed ds ++ taken h
      → taken (round env handler g).1 ≡ relayed ((m, (handled env handler m g).0) ∷ ds) ++ taken h
  unfolding relayed taken
  round-taken ds m h g got before =
      let k : History = kafka_fetch (ok m) ∷ g in
      elim (Option-cases (handled env handler m g).0) [
        | inl good ↦ ground (
          arith,
          round_commits env handler m g got good,
          relays.passes_on (message m) k good,
          before,
        )
        | inr (e, bad) ↦ ground (
          arith,
          round_skips env handler m e g got bad,
          relays.holds_back (message m) k e bad,
          before,
        )
      ]

  Deliveries-taken :
      {h : History} {ds : List (Fetched × Option Error)} {g : History}
      → Deliveries env handler h ds g
      → taken g ≡ relayed ds ++ taken h
  unfolding relayed
  Deliveries-taken nothing = refl
  Deliveries-taken {h} (delivered {ds} m g x got) = round-taken ds m h g got (Deliveries-taken x)

  Ended-taken :
      {n rounds : ℕ} {g : History} {r : Flow × History}
      → Ended env handler n rounds g r
      → taken r.1 ≡ taken g
  unfolding taken
  Ended-taken (all_done e eq) = ground (arith, eq)
  Ended-taken (shut_down e lost stop eq) = ground (arith, eq)
  Ended-taken (fetch_failed e lost live eq) = ground (arith, eq)

  pub subscribe-Relayed :
      (n : ℕ) (h : History) → Relayed env handler n h (subscribe env handler n h)
  subscribe-Relayed n h =
      let x = subscribe-Subscribed env handler relays.reader n h in
      record { run = x; all_taken = Ended-taken x.ended ∙ Deliveries-taken x.by_handler }
