-- ===== src/Service/Import/Acceptance.antt =====
-- `importAcceptance` of backend/internal/service/trade.go, which runs on the seller's colony.
use interstellar_trade_platf.Base.{
  ℕ, true, false, not, ◌||◌, [], ◌∷◌, ◌==◌, if◌then◌else◌, Result, ok, err, ◌>>=◌, ◌>>◌, fail_if,
  or_fail,
}
use interstellar_trade_platf.Base.Int.{ℤ, ◌==ℤ◌}
use interstellar_trade_platf.Base.Map.{lookup, insert}
use interstellar_trade_platf.Domain.Text.{Ident, empty}
use interstellar_trade_platf.Domain.Clock.{Stamp, format_time}
use interstellar_trade_platf.Domain.Errors.{AppError, bad_request, not_found, conflict}
use interstellar_trade_platf.Domain.Amount.{add_checked}
use interstellar_trade_platf.Domain.Status.{
  Status, acceptance_pending_export, settlement_pending_export, expired, cancelled, classify_step,
  StepKind, step_apply, step_too_early, step_duplicate,
}
use interstellar_trade_platf.Domain.Payload.{
  AcceptanceUserSignable, AcceptancePayload, SettlementPayload, acceptance_terms, settlement,
  late_acceptance, offer_closed,
}
use interstellar_trade_platf.Domain.Payload.Json.{decode_acceptance, encode_settlement}
use interstellar_trade_platf.Domain.State.{
  AppState, Account, Colony, Trade, User, Envelope, trade_acceptance_imported, ident, amount,
}
use interstellar_trade_platf.Domain.Trade.{advance_trade}
use interstellar_trade_platf.Domain.Host.{Host, Inputs}
use interstellar_trade_platf.Service.Ledger.{append_ledger, sign_envelope}
use interstellar_trade_platf.Service.Refund.{Imported, accepted_after_expiry, decide_refund}
use interstellar_trade_platf.Service.Tx.{
  put_trade, modify_colony, push_outbox, set_balance, amount_or_zero, internal,
}

unfoldable pub acceptance_signed_terms : AcceptancePayload → AcceptanceUserSignable
acceptance_signed_terms p = record {
  trade_id = p.trade_id;
  buyer_user_id = p.buyer_user_id;
  buyer_colony_id = p.buyer_colony_id;
  debit_amount = p.debit_amount;
  accepted_at = p.accepted_at;
}

settlement_payload : Trade → User → Colony → Colony → Stamp → SettlementPayload
settlement_payload t seller source target settled_at = record {
  trade_id = t.id;
  seller_user_id = seller.id;
  seller_colony_id = target.id;
  credit_amount = t.price;
  accepted_from_colony = source.id;
  settled_at = settled_at;
}

-- What all branches read: where the pointers of the call lie, and the checked payload.
pub record Case : Type 0 where
  pub source_key : Ident
  pub target_key : Ident
  pub source : Colony
  pub target : Colony
  pub env : Envelope
  pub payload : AcceptancePayload
  pub trade : Trade
  pub seller : User
  pub account : Account

-- The seller's colony after the credit.
unfoldable pub credit_seller : Host → ℕ → Case → ℤ → ℤ → Envelope → Colony → Colony
credit_seller host t k balance claims settlement_env c =
    let paid = set_balance k.seller.id k.account balance c in
    append_ledger host t
      (push_outbox settlement_env
        (record paid { net_claims = insert k.source.id claims paid.net_claims }))
      trade_acceptance_imported k.seller.id
      (("trade_id", ident k.trade.id)
        ∷ ("acceptance_envelope_id", ident k.env.id)
        ∷ ("credited_amount", amount k.trade.price)
        ∷ ("new_balance", amount balance)
        ∷ ("settlement_envelope_id", ident settlement_env.id)
        ∷ [])

-- The part after the `switch`: everything that can fail, then the credit.
unfoldable pub settle : Host → Inputs → AppState → Case → Result AppError Imported
unfolding settlement_payload credit_seller
settle host inp state k = do
  balance ← add_checked k.account.balance k.trade.price
  claims ← add_checked (amount_or_zero (lookup k.source.id k.target.net_claims)) k.trade.price
  obligations ←
      add_checked (amount_or_zero (lookup k.target.id k.source.net_obligations)) k.trade.price
  let settled_at = format_time (inp.now 0)
  env_id ← or_fail (inp.id 0) internal
  let unsigned : Envelope = record {
    id = env_id;
    kind = settlement;
    from_colony_id = k.target.id;
    to_colony_id = k.source.id;
    payload = encode_settlement (settlement_payload k.trade k.seller k.source k.target settled_at);
    colony_signature = empty;
    created_at = settled_at;
  }
  sig ← or_fail (sign_envelope host k.target unsigned) internal
  let settlement_env = record unsigned { colony_signature = sig }
  advanced ← advance_trade k.trade settlement_pending_export
  let trade' = record advanced {
    accepted_at = k.payload.accepted_at;
    acceptance_envelope_id = k.env.id;
    buyer_signature = k.payload.buyer_signature;
    settled_at = settled_at;
    settlement_envelope_id = env_id;
  }
  let owe : Colony → Colony =
      λ c. record c { net_obligations = insert k.target.id obligations c.net_obligations }
  let owing = modify_colony k.source_key owe state
  let credited =
      modify_colony k.target_key (credit_seller host (inp.now 1) k balance claims settlement_env)
        owing
  ok (trade', true, put_trade k.payload.trade_id trade' credited)

unfoldable pub refund_case : Host → Inputs → AppState → Case → Result AppError Imported
refund_case host inp state k =
    decide_refund host inp state k.target_key k.payload.trade_id k.source k.target k.trade k.env
      late_acceptance

unfoldable pub closed_case : Host → Inputs → AppState → Case → Result AppError Imported
closed_case host inp state k = do
  fail_if (k.trade.acceptance_envelope_id == empty)
      (conflict "acceptance for a closed offer without a recorded debit")
  decide_refund host inp state k.target_key k.payload.trade_id k.source k.target k.trade k.env
      offer_closed

unfoldable pub other_case : StepKind → AppState → Case → Result AppError Imported
other_case step_too_early state k = err (conflict "trade has not reached the expected status")
other_case step_apply state k = ok (k.trade, false, state)
other_case step_duplicate state k = ok (k.trade, false, state)

-- The `switch` on the trade's status.
unfoldable pub resolve : Status → Host → Inputs → AppState → Case → Result AppError Imported
resolve acceptance_pending_export host inp state k = do
  late ← accepted_after_expiry k.trade k.payload.accepted_at
  if late then refund_case host inp state k else settle host inp state k
resolve expired host inp state k = closed_case host inp state k
resolve cancelled host inp state k = closed_case host inp state k
resolve s host inp state k = other_case (classify_step s acceptance_pending_export) state k

unfoldable pub import_acceptance :
    Host → Inputs → AppState → Ident → Ident → Colony → Colony → Envelope → Result AppError Imported
unfolding acceptance_signed_terms
import_acceptance host inp state source_key target_key source target env = do
  p ← or_fail (decode_acceptance env.payload) (bad_request "invalid acceptance payload")
  fail_if (not (p.buyer_colony_id == source.id))
      (bad_request "acceptance buyer colony does not match envelope source")
  buyer ← or_fail (lookup p.buyer_user_id state.users) (not_found "buyer not found")
  fail_if (not (buyer.colony_id == source.id))
      (bad_request "buyer does not belong to the source colony")
  fail_if
      (not (
        host.verify buyer.public_key (acceptance_terms (acceptance_signed_terms p))
          p.buyer_signature))
      (bad_request "invalid buyer signature")
  trade ← or_fail (lookup p.trade_id state.trades) (not_found "trade not found")
  fail_if
      (not (trade.seller_colony_id == target.id)
        || (not (trade.buyer_colony_id == source.id)
            || (not (trade.buyer_user_id == buyer.id) || not (trade.price ==ℤ p.debit_amount))))
      (bad_request "acceptance payload does not match trade")
  seller ← or_fail (lookup trade.seller_user_id state.users) (not_found "seller not found")
  acc ← or_fail (lookup seller.id target.accounts) (not_found "seller account not found")
  resolve trade.status host inp state (record {
    source_key = source_key;
    target_key = target_key;
    source = source;
    target = target;
    env = env;
    payload = p;
    trade = trade;
    seller = seller;
    account = acc;
  })
