-- ===== src/Service/Import/Offer.antt =====
-- `importOffer` of backend/internal/service/trade.go, which runs on the buyer's colony.
use interstellar_trade_platf.Base.{
  Bool, true, not, ◌&&◌, ◌||◌, Option, none, some, [], ◌∷◌, ◌==◌, if◌then◌else◌, Result, ok, ◌>>=◌,
  ◌>>◌, fail_if, or_fail,
}
use interstellar_trade_platf.Base.Int.{◌==ℤ◌}
use interstellar_trade_platf.Base.Map.{lookup}
use interstellar_trade_platf.Domain.Text.{Ident, empty, trim_space, is_empty, text_eq}
use interstellar_trade_platf.Domain.Clock.{blank, stamp_eq}
use interstellar_trade_platf.Domain.Errors.{AppError, bad_request, not_found}
use interstellar_trade_platf.Domain.Amount.{valid_amount}
use interstellar_trade_platf.Domain.Status.{offer_pending_export, offer_received}
use interstellar_trade_platf.Domain.Payload.{OfferUserSignable, OfferPayload, offer_terms}
use interstellar_trade_platf.Domain.Payload.Json.{decode_offer}
use interstellar_trade_platf.Domain.State.{
  AppState, Colony, Trade, User, Envelope, trade_offer_imported, ident,
}
use interstellar_trade_platf.Domain.Trade.{step_trade}
use interstellar_trade_platf.Domain.Host.{Host, Inputs}
use interstellar_trade_platf.Service.Ledger.{append_ledger}
use interstellar_trade_platf.Service.Refund.{Imported}
use interstellar_trade_platf.Service.Tx.{put_trade, modify_colony}

unfoldable pub offer_signed_terms : OfferPayload → OfferUserSignable
offer_signed_terms p = record {
  trade_id = p.trade_id;
  asset = p.asset;
  price = p.price;
  seller_user_id = p.seller_user_id;
  seller_colony_id = p.seller_colony_id;
  buyer_user_id = p.buyer_user_id;
  buyer_colony_id = p.buyer_colony_id;
  created_at = p.created_at;
  expires_at = p.expires_at;
}

unfoldable pub received_trade : OfferPayload → Ident → Trade
received_trade p env_id = record {
  id = p.trade_id;
  asset = p.asset;
  price = p.price;
  seller_user_id = p.seller_user_id;
  buyer_user_id = p.buyer_user_id;
  seller_colony_id = p.seller_colony_id;
  buyer_colony_id = p.buyer_colony_id;
  status = offer_received;
  offer_envelope_id = env_id;
  acceptance_envelope_id = empty;
  settlement_envelope_id = empty;
  seller_signature = p.seller_signature;
  buyer_signature = empty;
  created_at = p.created_at;
  accepted_at = blank;
  settled_at = blank;
  completed_at = blank;
  expires_at = p.expires_at;
  refunded_at = blank;
  cancel_envelope_id = empty;
  refund_envelope_id = empty;
}

-- The offer agrees with the trade that is already there.
matches_trade : OfferPayload → Trade → Bool
matches_trade p t =
    stamp_eq t.expires_at p.expires_at
    && (text_eq t.asset p.asset
        && (t.price ==ℤ p.price
            && (t.seller_user_id == p.seller_user_id
                && (t.buyer_user_id == p.buyer_user_id
                    && (t.seller_colony_id == p.seller_colony_id
                        && t.buyer_colony_id == p.buyer_colony_id)))))

-- The trade after the offer: new, moved on, or left as it was.
unfoldable pub place_offer : Option Trade → OfferPayload → Ident → Result AppError (Bool × Trade)
unfolding received_trade matches_trade
place_offer none p env_id = ok (true, received_trade p env_id)
place_offer (some t) p env_id = do
  fail_if (not (matches_trade p t)) (bad_request "offer does not match existing trade")
  (applied, t') ← step_trade t offer_pending_export offer_received
  ok (
    applied,
    if applied
        then record t' { offer_envelope_id = env_id; seller_signature = p.seller_signature }
        else t',
  )

-- The writes of an offer that was applied.
unfoldable pub record_offer :
    Host → Inputs → AppState → Ident → Colony → User → OfferPayload → Ident → Trade → AppState
record_offer host inp state target_key source buyer p env_id t = put_trade p.trade_id t (
    modify_colony target_key
      (λ c. append_ledger host (inp.now 0) c trade_offer_imported buyer.id (
        ("trade_id", ident t.id)
        ∷ ("from_colony_id", ident source.id)
        ∷ ("offer_envelope_id", ident env_id)
        ∷ []))
      state)

unfoldable pub import_offer :
    Host → Inputs → AppState → Ident → Colony → Colony → Envelope → Result AppError Imported
import_offer host inp state target_key source target env = do
  p ← or_fail (decode_offer env.payload) (bad_request "invalid offer payload")
  fail_if (not (p.seller_colony_id == source.id) || not (p.buyer_colony_id == target.id))
      (bad_request "offer colonies do not match envelope route")
  fail_if (not (valid_amount p.price) || is_empty (trim_space p.asset))
      (bad_request "offer has invalid asset or price")
  seller ← or_fail (lookup p.seller_user_id state.users) (not_found "seller or buyer not found")
  buyer ← or_fail (lookup p.buyer_user_id state.users) (not_found "seller or buyer not found")
  fail_if (not (seller.colony_id == source.id) || not (buyer.colony_id == target.id))
      (bad_request "offer users do not belong to the stated colonies")
  fail_if
      (not (host.verify seller.public_key (offer_terms (offer_signed_terms p)) p.seller_signature))
      (bad_request "invalid seller signature")
  (applied, t) ← place_offer (lookup p.trade_id state.trades) p env.id
  ok (
    t,
    applied,
    if applied then record_offer host inp state target_key source buyer p env.id t else state,
  )
