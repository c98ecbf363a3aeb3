-- ===== src/Domain/Errors.antt =====
-- internal/domain/errors.go: the domain's errors, and Go's `error` values as the services see them.
use go_task_flow.Prelude.{
  ℕ, String, ◌<>◌, Bool, true, false, Option, none, some, ◌≡◌, refl, ◌⊎◌, inl, inr,
}

-- The four struct types of errors.go, the errors of the libraries by their text, redis.Nil,
-- pgx.ErrNoRows, what fmt.Errorf("%s: %w") wraps, and the cancellation of retry.Do.
pub data Error : Type 0 where
  task_not_found : String → Error
  rate_limit_exceeded : String → ℕ → Error
  invalid_task_type : String → Error
  task_already_processed : String → String → Error
  redis_nil : Error
  no_rows : Error
  external : String → Error
  wrap : String → Error → Error
  retry_cancelled : ℕ → Error → Error

-- strconv.Quote and decimal printing, which the messages use by %q and %d.
pub record Format : Type 0 where
  pub quote : String → String
  pub itoa : ℕ → String

module _ (f : Format) where
  -- The Error methods.
  unfoldable pub text : Error → String
  text (task_not_found id) = "task not found: " <> id
  text (rate_limit_exceeded type limit) =
      "rate limit exceeded for task type " <> f.quote type <> ": limit is " <> f.itoa limit
  text (invalid_task_type type) = "no handler registered for task type " <> f.quote type
  text (task_already_processed id status) =
      "task " <> id <> " already processed with status " <> status
  text redis_nil = "redis: nil"
  text no_rows = "no rows in result set"
  text (external s) = s
  text (wrap msg e) = msg <> ": " <> text e
  text (retry_cancelled n e) = "retry cancelled after attempt " <> f.itoa n <> ": " <> text e

-- errors.As(err, *TaskNotFoundError), through the wrapping.
unfoldable pub as_not_found : Error → Bool
as_not_found (task_not_found id) = true
as_not_found (wrap msg e) = as_not_found e
as_not_found (retry_cancelled n e) = as_not_found e
as_not_found _ = false

-- errors.Is(err, redis.Nil).
unfoldable pub is_redis_nil : Error → Bool
is_redis_nil redis_nil = true
is_redis_nil (wrap msg e) = is_redis_nil e
is_redis_nil (retry_cancelled n e) = is_redis_nil e
is_redis_nil _ = false

-- `if err != nil { return fmt.Errorf("msg: %w", err) }; return nil`.
abbrev pub wrap_err : String → Option Error → Option Error
wrap_err msg none = none
wrap_err msg (some e) = some (wrap msg e)

-- Go's pair of a value and an error.
pub data Result {ℓ} (A : Type ℓ) : Type ℓ where
  ok : A → Result A
  err : Error → Result A

pub Result-cases {ℓ} :
    {A : Type ℓ} (r : Result A) → ((a : A) × (r ≡ ok a)) ⊎ ((e : Error) × (r ≡ err e))
Result-cases (ok a) = inl (a, refl)
Result-cases (err e) = inr (e, refl)
