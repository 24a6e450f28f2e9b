-- ===== src/Service/Cancel.antt =====
-- `CancelTrade` of backend/internal/service/trade_lifecycle.go.
use interstellar_trade_platf.Base.{
  not, ◌&&◌, [], ◌∷◌, ◌==◌, Result, ok, err, ◌>>=◌, ◌>>◌, fail_if, or_fail,
}
use interstellar_trade_platf.Base.Map.{lookup}
use interstellar_trade_platf.Domain.Text.{Ident, empty}
use interstellar_trade_platf.Domain.Clock.{Stamp, format_time}
use interstellar_trade_platf.Domain.Errors.{AppError, not_found, forbidden, conflict}
use interstellar_trade_platf.Domain.Status.{
  Status, offer_pending_export, offer_received, acceptance_pending_export, cancelled,
}
use interstellar_trade_platf.Domain.Payload.{
  CancelUserSignable, CancelPayload, cancel_terms, cancel_request,
}
use interstellar_trade_platf.Domain.Payload.Json.{encode_cancel}
use interstellar_trade_platf.Domain.State.{
  AppState, Colony, Trade, User, Envelope, super_admin, trader, trade_offer_cancelled,
  trade_cancel_requested, ident,
}
use interstellar_trade_platf.Domain.Trade.{advance_trade}
use interstellar_trade_platf.Domain.Views.{TradeView}
use interstellar_trade_platf.Domain.Host.{Host, Inputs}
use interstellar_trade_platf.Service.Actor.{has_role, actor_from_token}
use interstellar_trade_platf.Service.Ledger.{append_ledger, sign_envelope}
use interstellar_trade_platf.Service.View.{to_trade_view}
use interstellar_trade_platf.Service.Tx.{
  put_colony, put_trade, modify_colony, push_outbox, internal,
}

-- The seller withdraws an offer that nobody accepted. The colony of the seller may be missing.
unfoldable pub withdraw_offer :
    Host → Inputs → AppState → Ident → User → Trade → Result AppError (TradeView × AppState)
withdraw_offer host inp state trade_id actor trade = do
  fail_if (not (actor.id == trade.seller_user_id) && not (has_role actor super_admin))
      (forbidden "only the seller can cancel an unaccepted offer")
  trade' ← advance_trade trade cancelled
  let write : Colony → Colony = λ c.
      append_ledger host (inp.now 0) c trade_offer_cancelled actor.id
        (("trade_id", ident trade.id) ∷ [])
  let state' = put_trade trade_id trade' (modify_colony trade.seller_colony_id write state)
  ok (to_trade_view state' trade', state')

unfoldable pub cancel_signable : Trade → User → Stamp → CancelUserSignable
cancel_signable t buyer requested_at = record {
  trade_id = t.id;
  buyer_user_id = buyer.id;
  buyer_colony_id = buyer.colony_id;
  requested_at = requested_at;
}

unfoldable pub cancel_payload : Trade → User → Stamp → Ident → CancelPayload
cancel_payload t buyer requested_at sig = record {
  trade_id = t.id;
  buyer_user_id = buyer.id;
  buyer_colony_id = buyer.colony_id;
  requested_at = requested_at;
  buyer_signature = sig;
}

-- The buyer asks the seller's colony for a refund; no balance changes.
unfoldable pub request_cancel :
    Host → Inputs → AppState → Ident → User → Trade → Result AppError (TradeView × AppState)
unfolding cancel_signable cancel_payload
request_cancel host inp state trade_id actor trade = do
  buyer ← or_fail (lookup trade.buyer_user_id state.users) (not_found "buyer not found")
  fail_if (not (actor.id == buyer.id) && not (has_role actor super_admin))
      (forbidden "only the buyer can request cancellation of an acceptance")
  colony ← or_fail (lookup buyer.colony_id state.colonies) (not_found "buyer colony not found")
  let requested_at = format_time (inp.now 0)
  buyer_sig ←
      or_fail
        (host.sign buyer.private_key (cancel_terms (cancel_signable trade buyer requested_at)))
        internal
  env_id ← or_fail (inp.id 0) internal
  let unsigned : Envelope = record {
    id = env_id;
    kind = cancel_request;
    from_colony_id = buyer.colony_id;
    to_colony_id = trade.seller_colony_id;
    payload = encode_cancel (cancel_payload trade buyer requested_at buyer_sig);
    colony_signature = empty;
    created_at = requested_at;
  }
  sig ← or_fail (sign_envelope host colony unsigned) internal
  let env = record unsigned { colony_signature = sig }
  let trade' = record trade { cancel_envelope_id = env_id }
  let colony' =
      append_ledger host (inp.now 1) (push_outbox env colony) trade_cancel_requested actor.id
        (("trade_id", ident trade.id) ∷ ("envelope_id", ident env_id) ∷ [])
  let state' = put_trade trade_id trade' (put_colony buyer.colony_id colony' state)
  ok (to_trade_view state' trade', state')

-- The `switch` on the trade's status.
unfoldable pub cancel_by_status :
    Status
    → Host
    → Inputs
    → AppState
    → Ident
    → User
    → Trade
    → Result AppError (TradeView × AppState)
cancel_by_status offer_pending_export host inp state trade_id actor trade =
    withdraw_offer host inp state trade_id actor trade
cancel_by_status offer_received host inp state trade_id actor trade =
    withdraw_offer host inp state trade_id actor trade
cancel_by_status acceptance_pending_export host inp state trade_id actor trade =
    request_cancel host inp state trade_id actor trade
cancel_by_status _ host inp state trade_id actor trade =
    err (conflict "trade cannot be cancelled in this state")

unfoldable pub cancel_trade :
    Host → Inputs → AppState → Ident → Ident → Result AppError (TradeView × AppState)
cancel_trade host inp state token trade_id = do
  actor ← actor_from_token host (inp.wall 0) state token
  trade ← or_fail (lookup trade_id state.trades) (not_found "trade not found")
  fail_if (not (has_role actor super_admin) && not (has_role actor trader))
      (forbidden "trader role is required")
  cancel_by_status trade.status host inp state trade_id actor trade
