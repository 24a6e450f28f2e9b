-- ===== src/Money/Sweep.antt =====
-- The money of `SweepExpired` (backend/internal/service/trade_lifecycle.go).
use interstellar_trade_platf.Base.{
  ℕ, suc, ◌≡◌, refl, ◌∙◌, ◌≢◌, some, [], ◌∷◌, ◌==◌, Bool-cases, inl, inr, Ensures, on_ok,
  Ensures-bind, Ensures-continue, Ensures-map, Ensures-case,
}
use interstellar_trade_platf.Base.Int.{pos, int_laws}
use interstellar_trade_platf.Base.Map.{
  Map, lookup, Distinct, lookup-insert_ne, lookup-head, lookup-tail,
}
use interstellar_trade_platf.Domain.Text.{Ident}
use interstellar_trade_platf.Domain.State.{AppState, Trade}
use interstellar_trade_platf.Domain.Host.{Host, Inputs}
use interstellar_trade_platf.Service.Sweep.{
  due, due_count, expire_trade, sweep_trades, sweep_expired,
}
use interstellar_trade_platf.Service.Ledger.{append_ledger}
use interstellar_trade_platf.Money.{IsValid, Moves}
use interstellar_trade_platf.Money.Writes.{Moves-refl, Moves-trans}
use interstellar_trade_platf.Money.Cancel.{expired-Moves}

-- The trades of a list are in the state as they were read.
abbrev AreRead : Map Trade → AppState → Type 0
AreRead m s = (k : Ident) (t : Trade) → lookup k m ≡ some t → lookup k s.trades ≡ some t

expire_trade-Moves :
    (host : Host) (now : ℕ) (key : Ident) (t : Trade) (s : AppState)
    → IsValid s
    → lookup key s.trades ≡ some t
    → Ensures
        (λ s'.
          Moves s (pos 0) s' × ((j : Ident) → j ≢ key → lookup j s'.trades ≡ lookup j s.trades))
        (expire_trade host now key t s)
unfolding expire_trade append_ledger
expire_trade-Moves host now key t s v ht = Ensures-bind λ t' h. on_ok (
  expired-Moves t.seller_colony_id key _ t t' s (λ c. (refl, refl, refl)) v ht h,
  λ j ne. lookup-insert_ne j key t' s.trades ne,
)

sweep_trades-Moves :
    (host : Host) (inp : Inputs) (now i : ℕ) (m : Map Trade) (s : AppState)
    → IsValid s
    → Distinct m
    → AreRead m s
    → Ensures (λ (r : ℕ × AppState). Moves s (pos 0) r.1) (sweep_trades host inp now i m s)
unfolding sweep_trades
sweep_trades-Moves host inp now i [] s v d read = on_ok (Moves-refl s v)
sweep_trades-Moves host inp now i (e ∷ m) s v (absent, d) read =
    let rest : AreRead m s = λ k t h. read k t (lookup-tail e m k t absent h).1 in
    Ensures-case (due now e.1)
      (λ _.
        Ensures-continue
          (expire_trade-Moves host (inp.now (suc i)) e.0 e.1 s v (read e.0 e.1 (lookup-head e m)))
          λ s' (moves, kept).
            Ensures-map (λ r m'. Moves-trans (pos 0) moves m' (omega int_laws))
              (sweep_trades-Moves host inp now (suc i) m s' moves.valid d
                (λ k t h. kept k (lookup-tail e m k t absent h).0 ∙ rest k t h)))
      (λ _. sweep_trades-Moves host inp now i m s v d rest)

-- From a valid state, the expiry sweep leads to a valid state if it succeeds, and keeps balances
-- plus escrow, less what was minted.
pub sweep_expired-Moves :
    (host : Host) (inp : Inputs) (s : AppState)
    → IsValid s
    → Ensures (λ (r : ℕ × AppState). Moves s (pos 0) r.1) (sweep_expired host inp s)
unfolding sweep_expired
sweep_expired-Moves host inp s v = elim (Bool-cases (due_count (inp.now 0) s.trades == 0)) [
  | inl e ↦ rw e (on_ok (Moves-refl s v))
  | inr e ↦ rw e (sweep_trades-Moves host inp (inp.now 0) 0 s.trades s v v.distinct (λ k t h. h))
]
