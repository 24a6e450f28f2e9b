-- ===== src/Storage/Postgres/Retry.antt =====
-- The transactions of backend/internal/storage/pg_store.go: `run`, which retries, and the errors that it
-- returns. What one attempt comes to is given by the number of the attempt, since every attempt meets
-- the database as it is then.
use interstellar_trade_platf.Base.{
  ℕ, zero, suc, ◌≤◌, ◌<◌, ◌≡◌, Bool, true, false, if◌then◌else◌, ◌⊎◌, Result, ok, err,
}
use interstellar_trade_platf.Domain.Errors.{AppError, conflict}

-- `pgconn.PgError.Code`: 40001, 40P01, 23505, 23514, 23503, or another
pub data PgCode : Type 0 where
  serialization_failure deadlock_detected : PgCode
  unique_violation check_violation foreign_key_violation other_code : PgCode

-- An error of a transaction: the handler's, the database's, or another.
pub data TxError : Type 0 where
  app_error : AppError → TxError
  pg_error : PgCode → TxError
  other_error : TxError

-- retryablePG
unfoldable pub retryable_pg : TxError → Bool
retryable_pg (pg_error serialization_failure) = true
retryable_pg (pg_error deadlock_detected) = true
retryable_pg _ = false

-- mapPGError, without the name of the constraint
unfoldable pub map_pg_error : TxError → TxError
map_pg_error (pg_error unique_violation) = app_error (conflict "already exists")
map_pg_error (pg_error check_violation) = app_error (conflict "constraint violated")
map_pg_error (pg_error foreign_key_violation) = app_error (conflict "referenced row missing")
map_pg_error e = e

module _ {A : Type 0} where
  unfoldable pub is_retryable : Result TxError A → Bool
  is_retryable (ok a) = false
  is_retryable (err e) = retryable_pg e

  unfoldable pub mapped : Result TxError A → Result TxError A
  mapped (ok a) = ok a
  mapped (err e) = err (map_pg_error e)

  -- The loop from attempt `i` on, with `n` attempts left behind it.
  unfoldable pub attempts : (ℕ → Result TxError A) → ℕ → ℕ → Result TxError A
  attempts once zero i = once i
  attempts once (suc n) i =
      let rest = attempts once n (suc i) in if is_retryable (once i) then rest else once i

  -- pgStore.run
  unfoldable pub run : (ℕ → Result TxError A) → Result TxError A
  run once = mapped (attempts once 4 0)

  -- The attempts from `i` up to `k` failed and could be retried; `k` is the first that was not, or the
  -- last that there is.
  pub record IsLast (once : ℕ → Result TxError A) (i last k : ℕ) : Type 0 where
    pub begun : i ≤ k
    pub counted : k ≤ last
    pub before : (j : ℕ) → i ≤ j → j < k → is_retryable (once j) ≡ true
    pub over : (k ≡ last) ⊎ (is_retryable (once k) ≡ false)
