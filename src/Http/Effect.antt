-- ===== src/Http/Effect.antt =====
-- What a request to the API does to the store, beside the calls of Money/Run: the handlers and routes
-- of backend/internal/httpapi.
pub mod Account
pub mod Handlers
use interstellar_trade_platf.Base.{
  ℕ, Bool, true, false, ◌≡◌, refl, sym, ap, subst, ◌∙◌, Option, none, some, List, [], ◌∷◌, ◌++◌,
  Bool-cases, inl, inr, Result, ok, err, ◌>>=◌,
}
use interstellar_trade_platf.Domain.Errors.{AppError}
use interstellar_trade_platf.Domain.State.{AppState}
use interstellar_trade_platf.Domain.Host.{Host}
use interstellar_trade_platf.Storage.{Store, store_update, commit}
use interstellar_trade_platf.Money.Run
use interstellar_trade_platf.Money.Run.{Request, Call, perform, serve, drop_answer}
use interstellar_trade_platf.Http.Request.{HttpRequest, Response, Api, Exchange}
use interstellar_trade_platf.Http.Handlers.{reading, updating, decoding}
use interstellar_trade_platf.Http.Routes.{Handler, Route, select}

-- The call that a request makes of the service.
abbrev pub call_of : Exchange → Request → Call
call_of x req = record { request = req; inputs = x.inputs; saved = x.saved; time = x.time }

-- The store is as before, or as one call of the service leaves it.
pub data Effect (host : Host) (x : Exchange) (st : Store) : Store → Type 0 where
  untouched : Effect host x st st
  called : (req : Request) → Effect host x st (serve host (call_of x req) st)

commit_drop :
    {A : Type 0} (saved : Bool) (now : ℕ) (st : Store) (m : Result AppError (A × AppState))
    → (commit saved now st (drop_answer m)).1 ≡ (commit saved now st m).1
unfolding commit ◌>>=◌
commit_drop saved now st (err e) = refl
commit_drop true now st (ok a) = refl
commit_drop false now st (ok a) = refl

pub drop_unit : (m : Result AppError (Unit {0} × AppState)) → drop_answer m ≡ m
unfolding ◌>>=◌
drop_unit (err e) = refl
drop_unit (ok a) = refl

module _ (host : Host) (x : Exchange) (st : Store) where
  -- An update by a callback that is a request of the service but for its answer.
  pub updating-Effect :
      {A : Type 0} (respond : A → Response) (f : AppState → Result AppError (A × AppState))
      (req : Request)
      → perform host x.inputs req st.state ≡ drop_answer (f st.state)
      → Effect host x st (updating x respond f st).1
  unfolding updating store_update serve
  updating-Effect respond f req same =
      subst (Effect host x st)
        (ap (λ m. (commit x.saved x.time st m).1) same ∙ commit_drop x.saved x.time st (f st.state))
        (called req)

  pub reading-Effect :
      {A : Type 0} (respond : A → Response) (f : AppState → Result AppError A)
      → Effect host x st (reading x respond f st).1
  unfolding reading
  reading-Effect respond f = untouched

  pub decoding-Effect :
      {A : Type 0} (o : Option A) (handler : A → Store → Response × Store)
      → ((req : A) → Effect host x st (handler req st).1)
      → Effect host x st (decoding x o handler st).1
  unfolding decoding
  decoding-Effect none handler h = untouched
  decoding-Effect (some req) handler h = h req
