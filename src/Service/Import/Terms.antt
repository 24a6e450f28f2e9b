-- ===== src/Service/Import/Terms.antt =====
-- What is signed when a message is sent, and what is verified when it is imported
-- (backend/internal/service/trade.go and trade_lifecycle.go).
use interstellar_trade_platf.Base.{◌≡◌, refl, Option, some}
use interstellar_trade_platf.Domain.Text.{Ident}
use interstellar_trade_platf.Domain.Clock.{Stamp}
use interstellar_trade_platf.Domain.Payload.{RawMessage}
use interstellar_trade_platf.Domain.Payload.Json.{
  encode_offer, decode_offer, encode_acceptance, decode_acceptance, encode_cancel, decode_cancel,
}
use interstellar_trade_platf.Domain.State.{Trade, User}
use interstellar_trade_platf.Service.Offer.{offer_signable, offer_payload}
use interstellar_trade_platf.Service.Accept.{acceptance_signable, acceptance_payload}
use interstellar_trade_platf.Service.Cancel.{cancel_signable, cancel_payload}
use interstellar_trade_platf.Service.Import.Offer.{offer_signed_terms}
use interstellar_trade_platf.Service.Import.Acceptance.{acceptance_signed_terms}
use interstellar_trade_platf.Service.Import.Settlement.{cancel_signed_terms}

-- A raw payload decodes, and the terms that the importer reads off it are these.
abbrev pub ReadsAs : {P T : Type 0} → (RawMessage → Option P) → RawMessage → (P → T) → T → Type 0
ReadsAs {P} decode raw terms_of terms = (p : P) × (decode raw ≡ some p) × (terms_of p ≡ terms)

-- The payload of an offer, of an acceptance and of a cancel request decodes where it is imported,
-- and the terms that the importer checks the user's signature against are those that the sender
-- had the user sign.
pub import-signed_terms :
    (t : Trade) (seller buyer : User) (time : Stamp) (sig : Ident)
    → ReadsAs decode_offer
        (encode_offer (offer_payload t seller buyer))
        offer_signed_terms
        (offer_signable t)
      × ReadsAs decode_acceptance
          (encode_acceptance (acceptance_payload t buyer time sig))
          acceptance_signed_terms
          (acceptance_signable t buyer time)
      × ReadsAs decode_cancel
          (encode_cancel (cancel_payload t buyer time sig))
          cancel_signed_terms
          (cancel_signable t buyer time)
unfolding decode_offer encode_offer decode_acceptance encode_acceptance decode_cancel encode_cancel
    offer_payload offer_signable offer_signed_terms acceptance_payload acceptance_signable
    acceptance_signed_terms cancel_payload cancel_signable cancel_signed_terms
import-signed_terms t seller buyer time sig = (
  (offer_payload t seller buyer, refl, refl),
  (acceptance_payload t buyer time sig, refl, refl),
  (cancel_payload t buyer time sig, refl, refl),
)
