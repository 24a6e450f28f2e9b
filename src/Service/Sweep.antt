-- ===== src/Service/Sweep.antt =====
-- `SweepExpired` of backend/internal/service/trade_lifecycle.go on the file store: a count of the
-- due offers, and only if there are any a pass that closes them. Go visits a map in any order; the
-- list of trades is one.
pub mod Closes
use interstellar_trade_platf.Base.{
  ℕ, suc, ◌+◌, Bool, true, false, ◌&&◌, ◌||◌, [], ◌∷◌, ◌==◌, if◌then◌else◌, Result, ok, ◌>>=◌,
}
use interstellar_trade_platf.Base.Map.{Map}
use interstellar_trade_platf.Domain.Text.{Ident, empty}
use interstellar_trade_platf.Domain.Errors.{AppError}
use interstellar_trade_platf.Domain.Status.{
  offer_pending_export, offer_received, expired, status_eq,
}
use interstellar_trade_platf.Domain.State.{AppState, Trade, trade_offer_expired, ident, stamp}
use interstellar_trade_platf.Domain.Trade.{advance_trade}
use interstellar_trade_platf.Domain.Host.{Host, Inputs}
use interstellar_trade_platf.Service.Accept.{is_expired}
use interstellar_trade_platf.Service.Ledger.{append_ledger}
use interstellar_trade_platf.Service.Tx.{put_trade, modify_colony}

-- An offer that nobody accepted and whose expiry has passed.
unfoldable pub due : ℕ → Trade → Bool
due now t =
    (status_eq t.status offer_pending_export || status_eq t.status offer_received)
    && is_expired t now

unfoldable pub due_count : ℕ → Map Trade → ℕ
due_count now [] = 0
due_count now (e ∷ m) = (if due now e.1 then 1 else 0) + due_count now m

-- One due offer is closed, with a ledger entry if the seller's colony is there.
unfoldable pub expire_trade : Host → ℕ → Ident → Trade → AppState → Result AppError AppState
expire_trade host t key trade state = advance_trade trade expired >>= λ trade'. ok (
    put_trade key trade' (
      modify_colony trade.seller_colony_id
        (λ c.
          append_ledger host t c trade_offer_expired empty
            (("trade_id", ident trade.id) ∷ ("expires_at", stamp trade.expires_at) ∷ []))
        state))

-- The loop of the update, over the trades that it began with; `i` counts the closed ones.
unfoldable pub sweep_trades :
    Host → Inputs → ℕ → ℕ → Map Trade → AppState → Result AppError (ℕ × AppState)
sweep_trades host inp now i [] state = ok (i, state)
sweep_trades host inp now i (e ∷ m) state = elim (due now e.1) [
  | true ↦ expire_trade host (inp.now (suc i)) e.0 e.1 state >>= λ state'.
      sweep_trades host inp now (suc i) m state'
  | false ↦ sweep_trades host inp now i m state
]

unfoldable pub sweep_expired : Host → Inputs → AppState → Result AppError (ℕ × AppState)
sweep_expired host inp state =
    if due_count (inp.now 0) state.trades == 0
    then ok (0, state)
    else sweep_trades host inp (inp.now 0) 0 state.trades state
