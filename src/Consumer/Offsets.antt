-- ===== src/Consumer/Offsets.antt =====
-- What a committed offset means to Kafka: the group resumes a partition behind the newest offset
-- that was committed for it.
use go_task_flow.Domain.Errors.{Error}
use go_task_flow.Consumer.Rounds.{handled}
use go_task_flow.World.{History, Fetched, Env, kafka_commit}
use go_task_flow.Consumer.{HandlerFunc, round, subscribe, ok, again}
use go_task_flow.Prelude.{ℕ, ◌+◌, ◌<◌, ◌≡◌, Option, none, some, [], ◌∷◌, arith, ◌==◌, if◌then◌else◌}

-- Where the group resumes partition p, as the acknowledged commits say.
unfoldable pub position : ℕ → History → Option ℕ
position p [] = none
position p (kafka_commit q o none ∷ h) = if p == q then some (o + 1) else position p h
position p (_ ∷ h) = position p h

module _ (env : Env) (handler : HandlerFunc) where
  pub round_skips :
      (m : Fetched) (e : Error) (h : History)
      → env.fetch_answer h ≡ ok m
      → (handled env handler m h).0 ≡ some e
      → round env handler h ≡ (again, (handled env handler m h).1)
  unfolding round
  round_skips m e h got bad = ground arith

  pub round_commits :
      (m : Fetched) (h : History)
      → env.fetch_answer h ≡ ok m
      → (handled env handler m h).0 ≡ none
      → let g = (handled env handler m h).1 in
        round env handler h
        ≡ (again, kafka_commit m.partition m.offset (env.commit_answer g m.partition m.offset) ∷ g)
  unfolding round
  round_commits m h got good = ground arith

-- A message whose handler fails is passed over by the next success in its partition: after the two
-- rounds the group resumes the partition behind the failed message, so that Kafka does not deliver
-- it again. Kafka takes the commit.
pub failure_is_passed :
    (env : Env) (handler : HandlerFunc) (first second : Fetched) (e : Error) (h : History)
    → env.fetch_answer h ≡ ok first
    → (handled env handler first h).0 ≡ some e
    → env.fetch_answer (round env handler h).1 ≡ ok second
    → (handled env handler second (round env handler h).1).0 ≡ none
    → second.partition ≡ first.partition
    → first.offset < second.offset
    → ((g : History) → env.commit_answer g second.partition second.offset ≡ none)
    → (resume : ℕ) × (position first.partition (subscribe env handler 2 h).1 ≡ some resume)
      × (first.offset < resume)
unfolding subscribe position
failure_is_passed env handler first second e h got bad got' good same later taken = (
  second.offset + 1,
  ground (
    arith,
    round_skips env handler first e h got bad,
    round_commits env handler second (round env handler h).1 got' good,
    taken (handled env handler second (round env handler h).1).1,
    same,
  ),
  omega arith,
)
