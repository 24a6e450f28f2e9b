-- ===== src/Domain/Payload/Json.antt =====
-- `domain.MustJSON` of a payload and `json.Unmarshal` into a payload type, as the calls in
-- backend/internal/service/trade.go and trade_lifecycle.go use them.
use interstellar_trade_platf.Base.{◌≡◌, refl, Option, none, some, []}
use interstellar_trade_platf.Base.Int.{pos}
use interstellar_trade_platf.Domain.Text.{empty}
use interstellar_trade_platf.Domain.Clock.{blank}
use interstellar_trade_platf.Domain.Payload.{
  OfferPayload, AcceptancePayload, SettlementPayload, CancelPayload, RefundPayload, no_reason,
  JsonFields, RawMessage, malformed, object,
}

-- The object with no field set.
abbrev no_fields : JsonFields
no_fields = record {
  trade_id = empty;
  asset = [];
  price = pos 0;
  seller_user_id = empty;
  seller_name = [];
  seller_colony_id = empty;
  buyer_user_id = empty;
  buyer_name = [];
  buyer_colony_id = empty;
  created_at = blank;
  expires_at = blank;
  seller_signature = empty;
  debit_amount = pos 0;
  accepted_at = blank;
  buyer_signature = empty;
  credit_amount = pos 0;
  accepted_from_colony = empty;
  settled_at = blank;
  requested_at = blank;
  refund_amount = pos 0;
  reason = no_reason;
  decided_at = blank;
}

unfoldable pub encode_offer : OfferPayload → RawMessage
encode_offer p = object (record no_fields {
  trade_id = p.trade_id;
  asset = p.asset;
  price = p.price;
  seller_user_id = p.seller_user_id;
  seller_name = p.seller_name;
  seller_colony_id = p.seller_colony_id;
  buyer_user_id = p.buyer_user_id;
  buyer_name = p.buyer_name;
  buyer_colony_id = p.buyer_colony_id;
  created_at = p.created_at;
  expires_at = p.expires_at;
  seller_signature = p.seller_signature;
})

unfoldable pub decode_offer : RawMessage → Option OfferPayload
decode_offer malformed = none
decode_offer (object f) = some (record {
  trade_id = f.trade_id;
  asset = f.asset;
  price = f.price;
  seller_user_id = f.seller_user_id;
  seller_name = f.seller_name;
  seller_colony_id = f.seller_colony_id;
  buyer_user_id = f.buyer_user_id;
  buyer_name = f.buyer_name;
  buyer_colony_id = f.buyer_colony_id;
  created_at = f.created_at;
  expires_at = f.expires_at;
  seller_signature = f.seller_signature;
})

-- Decoding what was encoded gives the payload back.
pub decode_offer-encode_offer : (p : OfferPayload) → decode_offer (encode_offer p) ≡ some p
unfolding decode_offer encode_offer
decode_offer-encode_offer p = refl

unfoldable pub encode_acceptance : AcceptancePayload → RawMessage
encode_acceptance p = object (record no_fields {
  trade_id = p.trade_id;
  buyer_user_id = p.buyer_user_id;
  buyer_colony_id = p.buyer_colony_id;
  debit_amount = p.debit_amount;
  accepted_at = p.accepted_at;
  buyer_signature = p.buyer_signature;
})

unfoldable pub decode_acceptance : RawMessage → Option AcceptancePayload
decode_acceptance malformed = none
decode_acceptance (object f) = some (record {
  trade_id = f.trade_id;
  buyer_user_id = f.buyer_user_id;
  buyer_colony_id = f.buyer_colony_id;
  debit_amount = f.debit_amount;
  accepted_at = f.accepted_at;
  buyer_signature = f.buyer_signature;
})

-- Decoding what was encoded gives the payload back.
pub decode_acceptance-encode_acceptance :
    (p : AcceptancePayload) → decode_acceptance (encode_acceptance p) ≡ some p
unfolding decode_acceptance encode_acceptance
decode_acceptance-encode_acceptance p = refl

unfoldable pub encode_settlement : SettlementPayload → RawMessage
encode_settlement p = object (record no_fields {
  trade_id = p.trade_id;
  seller_user_id = p.seller_user_id;
  seller_colony_id = p.seller_colony_id;
  credit_amount = p.credit_amount;
  accepted_from_colony = p.accepted_from_colony;
  settled_at = p.settled_at;
})

unfoldable pub decode_settlement : RawMessage → Option SettlementPayload
decode_settlement malformed = none
decode_settlement (object f) = some (record {
  trade_id = f.trade_id;
  seller_user_id = f.seller_user_id;
  seller_colony_id = f.seller_colony_id;
  credit_amount = f.credit_amount;
  accepted_from_colony = f.accepted_from_colony;
  settled_at = f.settled_at;
})

-- Decoding what was encoded gives the payload back.
pub decode_settlement-encode_settlement :
    (p : SettlementPayload) → decode_settlement (encode_settlement p) ≡ some p
unfolding decode_settlement encode_settlement
decode_settlement-encode_settlement p = refl

unfoldable pub encode_cancel : CancelPayload → RawMessage
encode_cancel p = object (record no_fields {
  trade_id = p.trade_id;
  buyer_user_id = p.buyer_user_id;
  buyer_colony_id = p.buyer_colony_id;
  requested_at = p.requested_at;
  buyer_signature = p.buyer_signature;
})

unfoldable pub decode_cancel : RawMessage → Option CancelPayload
decode_cancel malformed = none
decode_cancel (object f) = some (record {
  trade_id = f.trade_id;
  buyer_user_id = f.buyer_user_id;
  buyer_colony_id = f.buyer_colony_id;
  requested_at = f.requested_at;
  buyer_signature = f.buyer_signature;
})

-- Decoding what was encoded gives the payload back.
pub decode_cancel-encode_cancel : (p : CancelPayload) → decode_cancel (encode_cancel p) ≡ some p
unfolding decode_cancel encode_cancel
decode_cancel-encode_cancel p = refl

unfoldable pub encode_refund : RefundPayload → RawMessage
encode_refund p = object (record no_fields {
  trade_id = p.trade_id;
  buyer_user_id = p.buyer_user_id;
  buyer_colony_id = p.buyer_colony_id;
  seller_colony_id = p.seller_colony_id;
  refund_amount = p.refund_amount;
  reason = p.reason;
  decided_at = p.decided_at;
})

unfoldable pub decode_refund : RawMessage → Option RefundPayload
decode_refund malformed = none
decode_refund (object f) = some (record {
  trade_id = f.trade_id;
  buyer_user_id = f.buyer_user_id;
  buyer_colony_id = f.buyer_colony_id;
  seller_colony_id = f.seller_colony_id;
  refund_amount = f.refund_amount;
  reason = f.reason;
  decided_at = f.decided_at;
})

-- Decoding what was encoded gives the payload back.
pub decode_refund-encode_refund : (p : RefundPayload) → decode_refund (encode_refund p) ≡ some p
unfolding decode_refund encode_refund
decode_refund-encode_refund p = refl
