-- ===== src/Service/Import.antt =====
-- `ImportBundle` and `importEnvelope` of backend/internal/service/trade.go.
pub mod Again
pub mod Terms
pub mod Count
pub mod Offer
pub mod Acceptance
pub mod Settlement
use interstellar_trade_platf.Base.{
  ℕ, zero, suc, ◌+◌, ◌-◌, ◌*◌, Bool, true, false, not, ◌&&◌, ◌||◌, Option, none, some, List, [],
  ◌∷◌, ◌++◌, ◌==◌, if◌then◌else◌, Result, ok, err, ◌>>=◌, ◌>>◌, fail_if, or_fail, length,
}
use interstellar_trade_platf.Base.Map.{lookup, insert}
use interstellar_trade_platf.Domain.Text.{Ident, empty}
use interstellar_trade_platf.Domain.Errors.{AppError, bad_request, not_found, forbidden}
use interstellar_trade_platf.Domain.Payload.{
  EnvelopeType, offer, acceptance, settlement, cancel_request, refund, unsupported,
}
use interstellar_trade_platf.Domain.State.{
  AppState, Colony, Trade, Envelope, Bundle, bundle_imported, ident, count,
}
use interstellar_trade_platf.Domain.Views.{TradeView}
use interstellar_trade_platf.Domain.Host.{Host, Inputs}
use interstellar_trade_platf.Service.Actor.{can_relay, actor_from_token}
use interstellar_trade_platf.Service.Ledger.{append_ledger, verify_envelope}
use interstellar_trade_platf.Service.View.{to_trade_view}
use interstellar_trade_platf.Service.Refund.{Imported}
use interstellar_trade_platf.Service.Tx.{
  put_colony, modify_colony, ident_or_empty, flag_or_false, internal,
}
use interstellar_trade_platf.Service.Import.Offer.{import_offer}
use interstellar_trade_platf.Service.Import.Acceptance.{import_acceptance}
use interstellar_trade_platf.Service.Import.Settlement.{
  import_settlement, import_cancel, import_refund,
}

pub record ImportBundleRequest : Type 0 where
  pub colony_id : Ident
  pub bundle : Bundle

pub record ImportBundleResult : Type 0 where
  pub bundle_id : Ident
  pub imported_count : ℕ
  pub skipped_duplicates : ℕ
  pub generated_outbox : ℕ
  pub processed_types : List EnvelopeType
  pub trades : List TradeView

-- importEnvelope: the handler for the envelope's type
unfoldable pub import_envelope :
    EnvelopeType
    → Host
    → Inputs
    → AppState
    → Ident
    → Ident
    → Colony
    → Colony
    → Envelope
    → Result AppError Imported
import_envelope offer host inp state source_key target_key source target env =
    import_offer host inp state target_key source target env
import_envelope acceptance host inp state source_key target_key source target env =
    import_acceptance host inp state source_key target_key source target env
import_envelope settlement host inp state source_key target_key source target env =
    import_settlement host inp state target_key source target env
import_envelope cancel_request host inp state source_key target_key source target env =
    import_cancel host inp state target_key source target env
import_envelope refund host inp state source_key target_key source target env =
    import_refund host inp state source target env
import_envelope unsupported host inp state source_key target_key source target env =
    err (bad_request "unsupported envelope type")

-- `target.ProcessedEnvelopes[env.ID] = true`
unfoldable pub mark_processed : Ident → Colony → Colony
mark_processed env_id c = record c {
  processed_envelopes = insert env_id true c.processed_envelopes;
}

-- `target.ProcessedEnvelopes[env.ID]`
unfoldable pub is_processed : Ident → Colony → Bool
is_processed env_id c = flag_or_false (lookup env_id c.processed_envelopes)

unfoldable pub skip_duplicate : ImportBundleResult → ImportBundleResult
skip_duplicate r = record r { skipped_duplicates = suc r.skipped_duplicates }

unfoldable pub count_import : EnvelopeType → TradeView → ImportBundleResult → ImportBundleResult
count_import kind view r = record r {
  imported_count = suc r.imported_count;
  processed_types = r.processed_types ++ kind ∷ [];
  trades = r.trades ++ view ∷ [];
}

-- One round of the loop, for a message that is there. The pointers to the two colonies are read
-- anew, so a write of an earlier message, or through the other pointer, is seen.
unfoldable pub import_message :
    Host
    → Inputs
    → Ident
    → Ident
    → Envelope
    → ImportBundleResult × AppState
    → Result AppError (ImportBundleResult × AppState)
import_message host inp source_key target_key env (result, state) = do
  source ← or_fail (lookup source_key state.colonies) internal
  target ← or_fail (lookup target_key state.colonies) internal
  fail_if (not (env.to_colony_id == target.id) || not (env.from_colony_id == source.id))
      (bad_request "bundle contains message with mismatched route")
  elim (is_processed env.id target) [
    | true ↦ ok (skip_duplicate result, state)
    | false ↦ do
      fail_if (not (verify_envelope host source env)) (bad_request "invalid envelope")
      (trade, applied, imported) ←
          import_envelope env.kind host inp state source_key target_key source target env
      let state' = modify_colony target_key (mark_processed env.id) imported
      ok (
        if applied
            then count_import env.kind (to_trade_view state' trade) result
            else skip_duplicate result,
        state',
      )
  ]

-- What message number `i` reads; reading 0 is that of the handler itself.
unfoldable pub message_inputs : Inputs → ℕ → Inputs
message_inputs inp i = record {
  now = λ j. inp.now (2 * i + j + 1);
  wall = inp.wall;
  id = λ j. inp.id (i + j);
  keys = inp.keys;
  token = inp.token;
  secret = inp.secret;
}

-- The loop over the messages of a bundle, the next of which is number `i`.
unfoldable pub import_messages :
    Host
    → Inputs
    → Ident
    → Ident
    → ℕ
    → List (Option Envelope)
    → ImportBundleResult × AppState
    → Result AppError (ImportBundleResult × AppState)
import_messages host inp source_key target_key i [] acc = ok acc
import_messages host inp source_key target_key i (none ∷ msgs) acc =
    import_messages host inp source_key target_key (suc i) msgs acc
import_messages host inp source_key target_key i (some env ∷ msgs) acc =
    import_message host (message_inputs inp i) source_key target_key env acc
    >>= import_messages host inp source_key target_key (suc i) msgs

outbox_length : Option Colony → ℕ
outbox_length none = 0
outbox_length (some c) = length c.outbox

start_result : Bundle → ImportBundleResult
start_result b = record {
  bundle_id = b.id;
  imported_count = 0;
  skipped_duplicates = 0;
  generated_outbox = 0;
  processed_types = [];
  trades = [];
}

-- The part of the handler after the loop.
unfoldable pub finish_import :
    Host
    → Inputs
    → Ident
    → Ident
    → Colony
    → ImportBundleRequest
    → ImportBundleResult × AppState
    → ImportBundleResult × AppState
unfolding outbox_length
finish_import host inp actor_id source_id target req (result, state) =
    let generated = outbox_length (lookup req.colony_id state.colonies) - length target.outbox in
    let filed = record state { bundles = insert req.bundle.id req.bundle state.bundles } in
    (
      record result { generated_outbox = generated },
      modify_colony req.colony_id
          (λ c. append_ledger host (inp.now 0) c bundle_imported actor_id (
            ("bundle_id", ident req.bundle.id)
            ∷ ("from_colony_id", ident source_id)
            ∷ ("imported_count", count result.imported_count)
            ∷ ("skipped_duplicates", count result.skipped_duplicates)
            ∷ []))
          filed,
    )

unfoldable pub import_bundle :
    Host
    → Inputs
    → AppState
    → Ident
    → ImportBundleRequest
    → Result AppError (ImportBundleResult × AppState)
unfolding start_result
import_bundle host inp state token req = do
  fail_if (req.colony_id == empty) (bad_request "colony_id is required")
  actor ← actor_from_token host (inp.wall 0) state token
  fail_if (not (can_relay actor req.colony_id)) (forbidden "not allowed to import for this colony")
  target ← or_fail (lookup req.colony_id state.colonies) (not_found "target colony not found")
  fail_if (not (req.bundle.to_colony_id == req.colony_id))
      (bad_request "bundle destination does not match target colony")
  source ←
      or_fail (lookup req.bundle.from_colony_id state.colonies)
        (not_found "source colony not found")
  fail_if (not (ident_or_empty (lookup source.id target.trusted_colonies) == source.public_key))
      (forbidden "target colony does not trust the source colony")
  done ←
      import_messages host inp req.bundle.from_colony_id req.colony_id 0 req.bundle.messages
        (start_result req.bundle, state)
  ok (finish_import host inp actor.id source.id target req done)
