-- ===== src/Storage/Atomic.antt =====
-- `StoreUpdateScoped` of backend/internal/storage/store.go on every outcome.
use interstellar_trade_platf.Base.{ℕ, ◌≡◌, refl, Bool, true, false, Result, ok, err}
use interstellar_trade_platf.Domain.Clock.{format_time}
use interstellar_trade_platf.Domain.Errors.{AppError}
use interstellar_trade_platf.Domain.State.{AppState}
use interstellar_trade_platf.Storage.{Store, commit, store_update}

-- What an update leaves: the callback failed or the file was not written, and the caller gets an
-- error; or both copies are the callback's state, with a fresh time of update.
pub data Committed {A : Type 0} (now : ℕ) (fn : AppState → Result AppError (A × AppState))
    (st : Store) : Result AppError A × Store → Type 0 where
  kept : (e : AppError) → Committed now fn st (err e, st)
  replaced :
      (out : A) (work : AppState)
      → fn st.state ≡ ok (out, work)
      → (new : AppState)
      → new ≡ record work { meta = record work.meta { updated_at = format_time now } }
      → Committed now fn st (ok out, record { state = new; file = new })

commit_result :
    {A : Type 0} (saved : Bool) (now : ℕ) (fn : AppState → Result AppError (A × AppState))
    (st : Store) (r : Result AppError (A × AppState))
    → fn st.state ≡ r
    → Committed now fn st (commit saved now st r)
unfolding commit
commit_result saved now fn st (err e) h = kept e
commit_result true now fn st (ok (out, work)) h = replaced out work h _ refl
commit_result false now fn st (ok (out, work)) h = kept _

-- An update either returns an error and changes neither copy of the state, or both copies become
-- the result of the callback with the time of the update.
pub update-Committed :
    {A : Type 0} (saved : Bool) (now : ℕ) (fn : AppState → Result AppError (A × AppState))
    (st : Store)
    → Committed now fn st (store_update saved now fn st)
unfolding store_update
update-Committed saved now fn st = commit_result saved now fn st (fn st.state) refl
