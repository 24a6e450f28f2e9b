-- ===== src/Service/Refund.antt =====
-- Refunds: `decideRefund`, `applyRefund` and `acceptedAfterExpiry` of
-- backend/internal/service/trade_lifecycle.go. Where the source is given a pointer to a colony or a
-- trade, the key under which the state holds it comes along.
use interstellar_trade_platf.Base.{
  ℕ, Bool, true, false, Option, none, some, [], ◌∷◌, Result, ok, err, ◌>>=◌, or_fail, String,
}
use interstellar_trade_platf.Base.Map.{lookup}
use interstellar_trade_platf.Domain.Text.{Ident, empty}
use interstellar_trade_platf.Domain.Clock.{Stamp, format_time, parse_time, is_after}
use interstellar_trade_platf.Domain.Errors.{AppError, bad_request, not_found}
use interstellar_trade_platf.Domain.Amount.{add_checked}
use interstellar_trade_platf.Domain.Status.{refund_pending_export, refunded}
use interstellar_trade_platf.Domain.Payload.{
  RefundPayload, RefundReason, no_reason, late_acceptance, offer_closed, cancel_requested, refund,
  EnvelopeType, acceptance, cancel_request,
}
use interstellar_trade_platf.Domain.Payload.Json.{encode_refund}
use interstellar_trade_platf.Domain.State.{
  AppState, Colony, Trade, Envelope, EntryType, Detail, trade_refund_decided, ident, amount, label,
}
use interstellar_trade_platf.Domain.Trade.{advance_trade}
use interstellar_trade_platf.Domain.Host.{Host, Inputs}
use interstellar_trade_platf.Service.Ledger.{append_ledger, sign_envelope}
use interstellar_trade_platf.Service.Tx.{
  put_colony, put_trade, modify_colony, push_outbox, set_balance, internal,
}

-- `at.After(exp)` where the expiry parses
after_expiry : Option ℕ → Option ℕ → Result AppError Bool
after_expiry none accepted = ok false
after_expiry (some exp) none = err (bad_request "invalid accepted_at")
after_expiry (some exp) (some accepted) = ok (is_after accepted exp)

-- acceptedAfterExpiry
unfoldable pub accepted_after_expiry : Trade → Stamp → Result AppError Bool
unfolding after_expiry
accepted_after_expiry t accepted_at =
    after_expiry (parse_time t.expires_at) (parse_time accepted_at)

-- The envelope whose import led to the decision is recorded on the trade.
unfoldable pub note_trigger : EnvelopeType → Ident → Trade → Trade
note_trigger cancel_request id t = record t { cancel_envelope_id = id }
note_trigger acceptance id t = record t { acceptance_envelope_id = id }
note_trigger _ id t = t

reason_text : RefundReason → String
reason_text no_reason = ""
reason_text late_acceptance = "acceptance arrived after offer expiry"
reason_text offer_closed = "offer was closed before acceptance arrived"
reason_text cancel_requested = "cancel requested by buyer before acceptance was credited"

refund_payload : Colony → Colony → Trade → RefundReason → Stamp → RefundPayload
refund_payload source target t reason decided_at = record {
  trade_id = t.id;
  buyer_user_id = t.buyer_user_id;
  buyer_colony_id = source.id;
  seller_colony_id = target.id;
  refund_amount = t.price;
  reason = reason;
  decided_at = decided_at;
}

-- The result of an import step: the trade, whether it was applied, and the state.
abbrev pub Imported : Type 0
Imported = Trade × Bool × AppState

-- decideRefund
unfoldable pub decide_refund :
    Host
    → Inputs
    → AppState
    → Ident
    → Ident
    → Colony
    → Colony
    → Trade
    → Envelope
    → RefundReason
    → Result AppError Imported
unfolding note_trigger reason_text refund_payload
decide_refund host inp state target_key trade_key source target trade trigger reason = do
  let decided_at = format_time (inp.now 0)
  env_id ← or_fail (inp.id 0) internal
  let unsigned : Envelope = record {
    id = env_id;
    kind = refund;
    from_colony_id = target.id;
    to_colony_id = source.id;
    payload = encode_refund (refund_payload source target trade reason decided_at);
    colony_signature = empty;
    created_at = decided_at;
  }
  sig ← or_fail (sign_envelope host target unsigned) internal
  let env = record unsigned { colony_signature = sig }
  advanced ← advance_trade trade refund_pending_export
  let noted = note_trigger trigger.kind trigger.id advanced
  let trade' = record noted { refund_envelope_id = env_id }
  let detail : Detail =
      ("trade_id", ident trade.id)
      ∷ ("trigger_envelope_id", ident trigger.id)
      ∷ ("refund_envelope_id", ident env_id)
      ∷ ("reason", label (reason_text reason))
      ∷ []
  let write : Colony → Colony = λ c.
      append_ledger host (inp.now 1) (push_outbox env c) trade_refund_decided trade.seller_user_id
        detail
  ok (trade', true, put_trade trade_key trade' (modify_colony target_key write state))

-- applyRefund; `extra` is what the caller adds to the ledger payload.
unfoldable pub apply_refund :
    Host
    → Inputs
    → AppState
    → Ident
    → Trade
    → Ident
    → EntryType
    → Detail
    → Result AppError (Trade × AppState)
apply_refund host inp state trade_key trade actor_id kind extra = do
  colony ←
      or_fail (lookup trade.buyer_colony_id state.colonies) (not_found "buyer colony not found")
  acc ← or_fail (lookup trade.buyer_user_id colony.accounts) (not_found "buyer account not found")
  balance ← add_checked acc.balance trade.price
  advanced ← advance_trade trade refunded
  let trade' = record advanced { refunded_at = format_time (inp.now 0) }
  let colony' =
      append_ledger host (inp.now 1) (set_balance trade.buyer_user_id acc balance colony) kind
        actor_id
        (("trade_id", ident trade.id)
          ∷ ("refund_amount", amount trade.price)
          ∷ ("new_balance", amount balance)
          ∷ extra)
  ok (trade', put_trade trade_key trade' (put_colony trade.buyer_colony_id colony' state))
