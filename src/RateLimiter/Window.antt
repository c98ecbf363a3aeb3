-- ===== src/RateLimiter/Window.antt =====
-- internal/redis/rate_limiter.go: the sorted set behind the limiter, as Redis documents its
-- commands.
use go_task_flow.RateLimiter.{window_start}
use go_task_flow.Prelude.Int.{ℤ, pos, negsuc}
use go_task_flow.Domain.Errors.{Result, ok, err, Error}
use go_task_flow.World.{Env, History, Event, windowed}
use go_task_flow.Prelude.{
  ℕ, suc, ◌<◌, ◌≤◌, String, ◌≡◌, Bool, true, false, ◌||◌, List, [], ◌∷◌, str_eq, ltb, ◌==◌,
  if◌then◌else◌, length,
}

module _ (float64 : ℕ → ℕ) where
  -- A score that ZREMRANGEBYSCORE key 0 from leaves: Redis reads the end of the range as a double.
  unfoldable pub above : ℤ → ℕ → Bool
  above (pos f) s = ltb (float64 f) s
  above (negsuc f) s = true

  -- A sorted set as its scores and members.
  unfoldable pub kept : ℤ → List (ℕ × ℕ) → List (ℕ × ℕ)
  kept from [] = []
  kept from (s ∷ l) = if above from s.0 then s ∷ kept from l else kept from l

unfoldable pub has : ℕ → List (ℕ × ℕ) → Bool
has x [] = false
has x (s ∷ l) = s.1 == x || has x l

-- ZADD: a member that is there is not added again.
unfoldable pub zadd : ℕ → ℕ → List (ℕ × ℕ) → List (ℕ × ℕ)
zadd score x l = if has x l then l else (score, x) ∷ l

module _ (float64 : ℕ → ℕ) where
  -- The sorted set of a key, from the transactions that Redis answered.
  unfoldable pub zset : String → History → List (ℕ × ℕ)
  zset k [] = []
  zset k (windowed j from score member ttl (ok n) ∷ h) =
      if str_eq j k then zadd score member (kept float64 from (zset k h)) else zset k h
  zset k (_ ∷ h) = zset k h

  -- The requests of a key in a history whose score lies in the window.
  unfoldable pub recent : String → ℤ → History → ℕ
  recent k from [] = 0
  recent k from (windowed j f score member ttl (ok n) ∷ h) =
      let rest = recent k from h in
      if str_eq j k then (if above float64 from score then suc rest else rest) else rest
  recent k from (_ ∷ h) = recent k from h

-- ZCARD, at the end of a transaction, answers the number of members. A key that expires has
-- nothing in its window any more. The conversion to a double, Go's and that of Redis, rounds and
-- keeps the order.
pub record IsSortedSet (env : Env) : Type 0 where
  pub counts :
      (h : History) (key : String) (from : ℤ) (score member ttl n : ℕ)
      → env.window_answer h key from score member ttl ≡ ok n
      → n ≡ length (zadd score member (kept env.float64 from (zset env.float64 key h)))
  pub keeps_order : (a b : ℕ) → a ≤ b → env.float64 a ≤ env.float64 b

abbrev pub is_window : Event → Bool
is_window (windowed _ _ _ _ _ _) = true
is_window _ = false

-- The requests of a key come one behind the other, all before a time, and with the same window.
pub data InOrder (key : String) (window : ℕ) : ℕ → History → Type 0 where
  start : {now : ℕ} → InOrder key window now []
  request :
      {now t score ttl n : ℕ} {h : History}
      → t < now
      → InOrder key window t h
      → InOrder key window now (windowed key (window_start window t) score t ttl (ok n) ∷ h)
  failed :
      {now t score ttl : ℕ} {from : ℤ} {j : String} {e : Error} {h : History}
      → InOrder key window now h
      → InOrder key window now (windowed j from score t ttl (err e) ∷ h)
  elsewhere :
      {now t score ttl : ℕ} {from : ℤ} {j : String} {r : Result ℕ} {h : History}
      → str_eq j key ≡ false
      → InOrder key window now h
      → InOrder key window now (windowed j from score t ttl r ∷ h)
  other :
      {now : ℕ} {e : Event} {h : History}
      → is_window e ≡ false
      → InOrder key window now h
      → InOrder key window now (e ∷ h)

-- Every member lies before a time.
unfoldable pub Below : ℕ → List (ℕ × ℕ) → Type 0
Below now [] = Unit
Below now (s ∷ l) = (s.1 < now) × Below now l
