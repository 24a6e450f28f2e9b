-- ===== src/Service/Import/Settlement.antt =====
-- `importSettlement` of backend/internal/service/trade.go and `importCancel`, `importRefund` of
-- trade_lifecycle.go.
use interstellar_trade_platf.Base.{
  true, false, not, ◌||◌, Option, none, some, [], ◌∷◌, ◌==◌, if◌then◌else◌, Result, ok, err, ◌>>=◌,
  ◌>>◌, fail_if, or_fail,
}
use interstellar_trade_platf.Base.Int.{◌==ℤ◌}
use interstellar_trade_platf.Base.Map.{lookup}
use interstellar_trade_platf.Domain.Text.{Ident}
use interstellar_trade_platf.Domain.Clock.{format_time}
use interstellar_trade_platf.Domain.Errors.{AppError, bad_request, not_found, conflict}
use interstellar_trade_platf.Domain.Status.{
  settlement_pending_export, completed, acceptance_pending_export, refund_pending_export,
  classify_step, step_apply, step_too_early, step_duplicate,
}
use interstellar_trade_platf.Domain.Payload.{
  CancelUserSignable, CancelPayload, cancel_terms, cancel_requested,
}
use interstellar_trade_platf.Domain.Payload.Json.{decode_settlement, decode_cancel, decode_refund}
use interstellar_trade_platf.Domain.State.{
  AppState, Colony, User, Envelope, trade_completed, trade_refunded, ident, stamp,
}
use interstellar_trade_platf.Domain.Trade.{step_trade}
use interstellar_trade_platf.Domain.Host.{Host, Inputs}
use interstellar_trade_platf.Service.Ledger.{append_ledger}
use interstellar_trade_platf.Service.Refund.{Imported, decide_refund, apply_refund}
use interstellar_trade_platf.Service.Tx.{put_trade, modify_colony}

unfoldable pub import_settlement :
    Host → Inputs → AppState → Ident → Colony → Colony → Envelope → Result AppError Imported
import_settlement host inp state target_key source target env = do
  p ← or_fail (decode_settlement env.payload) (bad_request "invalid settlement payload")
  trade ← or_fail (lookup p.trade_id state.trades) (not_found "trade not found")
  fail_if
      (not (p.seller_colony_id == source.id)
        || (not (p.accepted_from_colony == target.id)
            || (not (p.seller_user_id == trade.seller_user_id)
                || (not (trade.buyer_colony_id == target.id)
                    || (not (trade.seller_colony_id == source.id)
                        || not (trade.price ==ℤ p.credit_amount))))))
      (bad_request "settlement payload does not match trade")
  (applied, stepped) ← step_trade trade settlement_pending_export completed
  let completed_at = format_time (inp.now 0)
  let trade' = record stepped {
    settled_at = p.settled_at;
    completed_at = completed_at;
    settlement_envelope_id = env.id;
  }
  let write : Colony → Colony = λ c.
      append_ledger host (inp.now 1) c trade_completed trade.buyer_user_id (
        ("trade_id", ident trade.id)
        ∷ ("settlement_envelope_id", ident env.id)
        ∷ ("completed_at", stamp completed_at)
        ∷ [])
  ok (
      if applied
      then (trade', true, put_trade p.trade_id trade' (modify_colony target_key write state))
      else (trade, false, state))

unfoldable pub cancel_signed_terms : CancelPayload → CancelUserSignable
cancel_signed_terms p = record {
  trade_id = p.trade_id;
  buyer_user_id = p.buyer_user_id;
  buyer_colony_id = p.buyer_colony_id;
  requested_at = p.requested_at;
}

-- `buyer == nil || buyer.ColonyID != source.ID`
buyer_in : Ident → Option User → Option User
buyer_in colony_id none = none
buyer_in colony_id (some u) = if u.colony_id == colony_id then some u else none

unfoldable pub import_cancel :
    Host → Inputs → AppState → Ident → Colony → Colony → Envelope → Result AppError Imported
unfolding cancel_signed_terms buyer_in
import_cancel host inp state target_key source target env = do
  p ← or_fail (decode_cancel env.payload) (bad_request "invalid cancel payload")
  fail_if (not (p.buyer_colony_id == source.id))
      (bad_request "cancel buyer colony does not match envelope source")
  buyer ←
      or_fail (buyer_in source.id (lookup p.buyer_user_id state.users))
        (bad_request "cancel buyer unknown or not in source colony")
  fail_if
      (not (host.verify buyer.public_key (cancel_terms (cancel_signed_terms p)) p.buyer_signature))
      (bad_request "invalid buyer signature")
  trade ← or_fail (lookup p.trade_id state.trades) (not_found "trade not found")
  fail_if
      (not (trade.seller_colony_id == target.id)
        || (not (trade.buyer_colony_id == source.id) || not (trade.buyer_user_id == buyer.id)))
      (bad_request "cancel payload does not match trade")
  elim (classify_step trade.status acceptance_pending_export) [
    | step_apply ↦
        decide_refund host inp state target_key p.trade_id source target trade env cancel_requested
    | step_too_early ↦ err (conflict "nothing to cancel yet")
    | step_duplicate ↦ ok (trade, false, state)
  ]

unfoldable pub import_refund :
    Host → Inputs → AppState → Colony → Colony → Envelope → Result AppError Imported
import_refund host inp state source target env = do
  p ← or_fail (decode_refund env.payload) (bad_request "invalid refund payload")
  trade ← or_fail (lookup p.trade_id state.trades) (not_found "trade not found")
  fail_if
      (not (p.seller_colony_id == source.id)
        || (not (p.buyer_colony_id == target.id)
            || (not (trade.seller_colony_id == source.id)
                || (not (trade.buyer_colony_id == target.id)
                    || (not (trade.buyer_user_id == p.buyer_user_id)
                        || not (trade.price ==ℤ p.refund_amount))))))
      (bad_request "refund payload does not match trade")
  elim (classify_step trade.status refund_pending_export) [
    | step_apply ↦ do
      (trade', state') ←
          apply_refund host inp state p.trade_id trade trade.buyer_user_id trade_refunded
            (("refund_envelope_id", ident env.id) ∷ [])
      ok (trade', true, state')
    | step_too_early ↦ err (conflict "refund was not decided by the seller colony")
    | step_duplicate ↦ ok (trade, false, state)
  ]
