-- ===== src/Service/Offer.antt =====
-- `CreateOffer` of backend/internal/service/trade.go.
pub mod Ttl
use interstellar_trade_platf.Base.{
  ℕ, ◌+◌, ◌-◌, Bool, true, false, not, ◌&&◌, ◌||◌, Option, none, some, [], ◌∷◌, ◌==◌, if◌then◌else◌,
  Result, ok, err, ◌>>=◌, ◌>>◌, fail_if, or_fail,
}
use interstellar_trade_platf.Base.Int.{ℤ, pos, ltb_ℤ, ◌==ℤ◌, pos_part}
use interstellar_trade_platf.Base.Map.{lookup, insert}
use interstellar_trade_platf.Domain.Text.{Ident, Text, empty, trim_space, is_empty}
use interstellar_trade_platf.Domain.Clock.{Stamp, blank, format_time}
use interstellar_trade_platf.Domain.Errors.{AppError, bad_request, not_found, forbidden}
use interstellar_trade_platf.Domain.Amount.{valid_amount}
use interstellar_trade_platf.Domain.Status.{offer_pending_export}
use interstellar_trade_platf.Domain.Payload.{OfferUserSignable, OfferPayload, offer, offer_terms}
use interstellar_trade_platf.Domain.Payload.Json.{encode_offer}
use interstellar_trade_platf.Domain.State.{
  AppState, Colony, Trade, User, Envelope, super_admin, trader, trade_offer_created, ident, text,
  amount, stamp,
}
use interstellar_trade_platf.Domain.Views.{TradeView}
use interstellar_trade_platf.Domain.Host.{Host, Inputs}
use interstellar_trade_platf.Service.Actor.{has_role, actor_from_token}
use interstellar_trade_platf.Service.Ledger.{append_ledger, sign_envelope}
use interstellar_trade_platf.Service.View.{to_trade_view}
use interstellar_trade_platf.Service.Tx.{put_colony, put_trade, push_outbox, internal}
use interstellar_trade_platf.Service.Offer.Ttl.{offer_ttl}

pub record CreateOfferRequest : Type 0 where
  pub seller_user_id : Ident
  pub buyer_user_id : Ident
  pub asset : Text
  pub price : ℤ
  pub ttl_seconds : ℤ

-- The trade that an offer starts as.
unfoldable pub offered_trade :
    Ident → Text → ℤ → User → User → Ident → Ident → Stamp → Stamp → Trade
offered_trade trade_id asset price seller buyer env_id sig created_at expires_at = record {
  id = trade_id;
  asset = asset;
  price = price;
  seller_user_id = seller.id;
  buyer_user_id = buyer.id;
  seller_colony_id = seller.colony_id;
  buyer_colony_id = buyer.colony_id;
  status = offer_pending_export;
  offer_envelope_id = env_id;
  acceptance_envelope_id = empty;
  settlement_envelope_id = empty;
  seller_signature = sig;
  buyer_signature = empty;
  created_at = created_at;
  accepted_at = blank;
  settled_at = blank;
  completed_at = blank;
  expires_at = expires_at;
  refunded_at = blank;
  cancel_envelope_id = empty;
  refund_envelope_id = empty;
}

-- The terms that the seller signs, read off the trade.
unfoldable pub offer_signable : Trade → OfferUserSignable
offer_signable t = record {
  trade_id = t.id;
  asset = t.asset;
  price = t.price;
  seller_user_id = t.seller_user_id;
  seller_colony_id = t.seller_colony_id;
  buyer_user_id = t.buyer_user_id;
  buyer_colony_id = t.buyer_colony_id;
  created_at = t.created_at;
  expires_at = t.expires_at;
}

unfoldable pub offer_payload : Trade → User → User → OfferPayload
offer_payload t seller buyer = record {
  trade_id = t.id;
  asset = t.asset;
  price = t.price;
  seller_user_id = t.seller_user_id;
  seller_name = seller.display_name;
  seller_colony_id = t.seller_colony_id;
  buyer_user_id = t.buyer_user_id;
  buyer_name = buyer.display_name;
  buyer_colony_id = t.buyer_colony_id;
  created_at = t.created_at;
  expires_at = t.expires_at;
  seller_signature = t.seller_signature;
}

-- The writes at the end of the handler, after all that can fail.
unfoldable pub record_offer :
    Host → ℕ → User → Ident → Colony → Envelope → Trade → AppState → AppState
record_offer host t actor seller_colony_id colony env trade state = put_trade trade.id trade (
    put_colony seller_colony_id
      (append_ledger host t (push_outbox env colony) trade_offer_created actor.id (
        ("trade_id", ident trade.id)
        ∷ ("asset", text trade.asset)
        ∷ ("price", amount trade.price)
        ∷ ("buyer_user_id", ident trade.buyer_user_id)
        ∷ ("envelope_id", ident env.id)
        ∷ ("expires_at", stamp trade.expires_at)
        ∷ []))
      state)

unfoldable pub create_offer :
    Host → Inputs → AppState → Ident → CreateOfferRequest → Result AppError (TradeView × AppState)
create_offer host inp state token req = do
  let asset = trim_space req.asset
  fail_if (is_empty asset || not (valid_amount req.price))
      (bad_request "asset and a positive price within limits are required")
  ttl ← offer_ttl req.ttl_seconds
  actor ← actor_from_token host (inp.wall 0) state token
  seller ← or_fail (lookup req.seller_user_id state.users) (not_found "seller or buyer not found")
  buyer ← or_fail (lookup req.buyer_user_id state.users) (not_found "seller or buyer not found")
  fail_if (seller.colony_id == empty || buyer.colony_id == empty)
      (bad_request "seller and buyer must belong to colonies")
  fail_if (seller.id == buyer.id) (bad_request "seller and buyer must be different users")
  fail_if (seller.colony_id == buyer.colony_id) (bad_request "this POC expects inter-colony trades")
  fail_if (not (actor.id == seller.id) && not (has_role actor super_admin))
      (forbidden "only the seller can create this offer")
  fail_if (not (has_role actor super_admin) && not (has_role actor trader))
      (forbidden "trader role is required")
  seller_colony ←
      or_fail (lookup seller.colony_id state.colonies)
        (not_found "seller or buyer colony not found")
  _ ← or_fail (lookup buyer.colony_id state.colonies) (not_found "seller or buyer colony not found")
  trade_id ← or_fail (inp.id 0) internal
  let created_at = format_time (inp.now 0)
  let expires_at = format_time (inp.now 1 + ttl)
  let draft = offered_trade trade_id asset req.price seller buyer empty empty created_at expires_at
  seller_sig ← or_fail (host.sign seller.private_key (offer_terms (offer_signable draft))) internal
  env_id ← or_fail (inp.id 1) internal
  let trade = record draft { offer_envelope_id = env_id; seller_signature = seller_sig }
  let unsigned : Envelope = record {
    id = env_id;
    kind = offer;
    from_colony_id = seller.colony_id;
    to_colony_id = buyer.colony_id;
    payload = encode_offer (offer_payload trade seller buyer);
    colony_signature = empty;
    created_at = created_at;
  }
  sig ← or_fail (sign_envelope host seller_colony unsigned) internal
  let env = record unsigned { colony_signature = sig }
  let state' = record_offer host (inp.now 2) actor seller.colony_id seller_colony env trade state
  ok (to_trade_view state' trade, state')
