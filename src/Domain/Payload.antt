-- ===== src/Domain/Payload.antt =====
-- The signed terms and the envelope payloads of backend/internal/domain/model.go. A raw JSON
-- payload is an object that has, of all the fields which some payload type names, those that were
-- set (a missing field decodes to its zero value), or bytes that `json.Unmarshal` refuses.
pub mod Json
use interstellar_trade_platf.Base.Int.{ℤ}
use interstellar_trade_platf.Domain.Text.{Ident, Text}
use interstellar_trade_platf.Domain.Clock.{Stamp}

pub record OfferUserSignable : Type 0 where
  pub trade_id : Ident
  pub asset : Text
  pub price : ℤ
  pub seller_user_id : Ident
  pub seller_colony_id : Ident
  pub buyer_user_id : Ident
  pub buyer_colony_id : Ident
  pub created_at : Stamp
  pub expires_at : Stamp

pub record OfferPayload : Type 0 where
  pub trade_id : Ident
  pub asset : Text
  pub price : ℤ
  pub seller_user_id : Ident
  pub seller_name : Text
  pub seller_colony_id : Ident
  pub buyer_user_id : Ident
  pub buyer_name : Text
  pub buyer_colony_id : Ident
  pub created_at : Stamp
  pub expires_at : Stamp
  pub seller_signature : Ident

pub record AcceptanceUserSignable : Type 0 where
  pub trade_id : Ident
  pub buyer_user_id : Ident
  pub buyer_colony_id : Ident
  pub debit_amount : ℤ
  pub accepted_at : Stamp

pub record AcceptancePayload : Type 0 where
  pub trade_id : Ident
  pub buyer_user_id : Ident
  pub buyer_colony_id : Ident
  pub debit_amount : ℤ
  pub accepted_at : Stamp
  pub buyer_signature : Ident

pub record SettlementPayload : Type 0 where
  pub trade_id : Ident
  pub seller_user_id : Ident
  pub seller_colony_id : Ident
  pub credit_amount : ℤ
  pub accepted_from_colony : Ident
  pub settled_at : Stamp

pub record CancelUserSignable : Type 0 where
  pub trade_id : Ident
  pub buyer_user_id : Ident
  pub buyer_colony_id : Ident
  pub requested_at : Stamp

pub record CancelPayload : Type 0 where
  pub trade_id : Ident
  pub buyer_user_id : Ident
  pub buyer_colony_id : Ident
  pub requested_at : Stamp
  pub buyer_signature : Ident

-- Why the seller colony refunds: the fixed texts that `decideRefund` is called with.
pub data RefundReason : Type 0 where
  no_reason late_acceptance offer_closed cancel_requested : RefundReason

pub record RefundPayload : Type 0 where
  pub trade_id : Ident
  pub buyer_user_id : Ident
  pub buyer_colony_id : Ident
  pub seller_colony_id : Ident
  pub refund_amount : ℤ
  pub reason : RefundReason
  pub decided_at : Stamp

-- The fields of a JSON object, under their JSON names.
pub record JsonFields : Type 0 where
  pub trade_id : Ident
  pub asset : Text
  pub price : ℤ
  pub seller_user_id : Ident
  pub seller_name : Text
  pub seller_colony_id : Ident
  pub buyer_user_id : Ident
  pub buyer_name : Text
  pub buyer_colony_id : Ident
  pub created_at : Stamp
  pub expires_at : Stamp
  pub seller_signature : Ident
  pub debit_amount : ℤ
  pub accepted_at : Stamp
  pub buyer_signature : Ident
  pub credit_amount : ℤ
  pub accepted_from_colony : Ident
  pub settled_at : Stamp
  pub requested_at : Stamp
  pub refund_amount : ℤ
  pub reason : RefundReason
  pub decided_at : Stamp

pub data RawMessage : Type 0 where
  malformed : RawMessage
  object : JsonFields → RawMessage

-- Envelope.Type; `unsupported` is any other string.
pub data EnvelopeType : Type 0 where
  offer acceptance settlement cancel_request refund unsupported : EnvelopeType

-- What the two signature routines of the program are given.
pub record EnvelopeSignable : Type 0 where
  pub id : Ident
  pub kind : EnvelopeType
  pub from_colony_id : Ident
  pub to_colony_id : Ident
  pub payload : RawMessage
  pub created_at : Stamp

pub data Signable : Type 0 where
  offer_terms : OfferUserSignable → Signable
  acceptance_terms : AcceptanceUserSignable → Signable
  cancel_terms : CancelUserSignable → Signable
  envelope_terms : EnvelopeSignable → Signable
