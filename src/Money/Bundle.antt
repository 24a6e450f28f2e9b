-- ===== src/Money/Bundle.antt =====
-- The money of `ImportBundle` (backend/internal/service/trade.go).
use interstellar_trade_platf.Base.{
  ℕ, suc, ◌≡◌, refl, Option, none, some, List, [], ◌∷◌, Bool-cases, inl, inr, Ensures, on_ok,
  on_err, Ensures-bind, Ensures-guard, Ensures-or_fail, Ensures-map, Ensures-continue,
}
use interstellar_trade_platf.Base.Int.{pos, int_laws}
use interstellar_trade_platf.Base.Map.{lookup, insert}
use interstellar_trade_platf.Domain.Text.{Ident}
use interstellar_trade_platf.Domain.Payload.{
  EnvelopeType, offer, acceptance, settlement, cancel_request, refund, unsupported,
}
use interstellar_trade_platf.Domain.State.{
  AppState, Colony, Envelope, bundle_imported, ident, count,
}
use interstellar_trade_platf.Domain.Host.{Host, Inputs}
use interstellar_trade_platf.Service.Refund.{Imported}
use interstellar_trade_platf.Service.Import.{
  ImportBundleRequest, ImportBundleResult, import_envelope, mark_processed, is_processed,
  import_message, import_messages, message_inputs, finish_import, import_bundle,
}
use interstellar_trade_platf.Service.Ledger.{append_ledger}
use interstellar_trade_platf.Money.{IsValid, Moves, worth}
use interstellar_trade_platf.Money.Settle.{import_acceptance-Moves}
use interstellar_trade_platf.Money.Import.{
  import_offer-Moves, import_settlement-Moves, import_cancel-Moves, import_refund-Moves,
}
use interstellar_trade_platf.Money.Writes.{modify_colony-Moves, Moves-trans, Moves-refl}

-- Every imported envelope, of any type, applied or not, keeps balances plus escrow, less what was
-- minted, and the state valid.
pub import_envelope-Moves :
    (kind : EnvelopeType) (host : Host) (inp : Inputs) (s : AppState)
    (source_key target_key : Ident) (source target : Colony) (env : Envelope)
    → IsValid s
    → lookup target_key s.colonies ≡ some target
    → Ensures
        (λ (r : Imported). Moves s (pos 0) r.2)
        (import_envelope kind host inp s source_key target_key source target env)
unfolding import_envelope
import_envelope-Moves offer host inp s source_key target_key source target env v h =
    import_offer-Moves host inp s target_key source target env v
import_envelope-Moves acceptance host inp s source_key target_key source target env v h =
    import_acceptance-Moves host inp s source_key target_key source target env v h
import_envelope-Moves settlement host inp s source_key target_key source target env v h =
    import_settlement-Moves host inp s target_key source target env v
import_envelope-Moves cancel_request host inp s source_key target_key source target env v h =
    import_cancel-Moves host inp s target_key source target env v
import_envelope-Moves refund host inp s source_key target_key source target env v h =
    import_refund-Moves host inp s source target env v
import_envelope-Moves unsupported host inp s source_key target_key source target env v h = on_err

import_message-Moves :
    (host : Host) (inp : Inputs) (source_key target_key : Ident) (env : Envelope)
    (acc : ImportBundleResult × AppState)
    → IsValid acc.1
    → Ensures
        (λ (r : ImportBundleResult × AppState). Moves acc.1 (pos 0) r.1)
        (import_message host inp source_key target_key env acc)
unfolding import_message mark_processed
import_message-Moves host inp source_key target_key env (result, s) v =
    Ensures-or_fail _ λ source _. Ensures-or_fail _ λ target h. Ensures-guard _ _ λ _.
      elim (Bool-cases (is_processed env.id target)) [
        | inl old ↦ rw old (on_ok (Moves-refl s v))
        | inr new ↦ rw new (
            Ensures-guard _ _ λ _.
              Ensures-continue
                (import_envelope-Moves env.kind host inp s source_key target_key source target env v
                  h)
                λ r m. on_ok (
                  Moves-trans (pos 0) m
                    (modify_colony-Moves target_key _ r.2 (λ c. (refl, refl, refl)) m.valid)
                    (omega int_laws)))
      ]

import_messages-Moves :
    (host : Host) (inp : Inputs) (source_key target_key : Ident) (i : ℕ)
    (msgs : List (Option Envelope)) (acc : ImportBundleResult × AppState)
    → IsValid acc.1
    → Ensures
        (λ (r : ImportBundleResult × AppState). Moves acc.1 (pos 0) r.1)
        (import_messages host inp source_key target_key i msgs acc)
unfolding import_messages
import_messages-Moves host inp source_key target_key i [] acc v = on_ok (Moves-refl acc.1 v)
import_messages-Moves host inp source_key target_key i (none ∷ msgs) acc v =
    import_messages-Moves host inp source_key target_key (suc i) msgs acc v
import_messages-Moves host inp source_key target_key i (some env ∷ msgs) acc v =
    Ensures-continue
      (import_message-Moves host (message_inputs inp i) source_key target_key env acc v)
      λ r m.
        Ensures-map (λ q n. Moves-trans (pos 0) m n (omega int_laws))
          (import_messages-Moves host inp source_key target_key (suc i) msgs r m.valid)

-- Filing the bundle and the ledger entry holds no money.
finish_import-Moves :
    (host : Host) (inp : Inputs) (actor_id source_id : Ident) (target : Colony)
    (req : ImportBundleRequest) (r : ImportBundleResult × AppState)
    → IsValid r.1
    → Moves r.1 (pos 0) (finish_import host inp actor_id source_id target req r).1
unfolding finish_import append_ledger worth
finish_import-Moves host inp actor_id source_id target req r v =
    let filed = record r.1 { bundles = insert req.bundle.id req.bundle r.1.bundles } in
    let fv : IsValid filed = record {
      funded = v.funded;
      priced = v.priced;
      proposed = v.proposed;
      distinct = v.distinct;
    } in
    let m =
      modify_colony-Moves req.colony_id
        (λ c. append_ledger host (inp.now 0) c bundle_imported actor_id (
          ("bundle_id", ident req.bundle.id)
          ∷ ("from_colony_id", ident source_id)
          ∷ ("imported_count", count r.0.imported_count)
          ∷ ("skipped_duplicates", count r.0.skipped_duplicates)
          ∷ []))
        filed (λ c. (refl, refl, refl)) fv in
    record { valid = m.valid; moved = m.moved }

-- From a valid state, importing a bundle of any messages, however they repeat, leads to a valid
-- state if it succeeds, and moves no money in or out: balances plus escrow, less what was minted,
-- stay the same.
pub import_bundle-Moves :
    (host : Host) (inp : Inputs) (s : AppState) (token : Ident) (req : ImportBundleRequest)
    → IsValid s
    → Ensures
        (λ (r : ImportBundleResult × AppState). Moves s (pos 0) r.1)
        (import_bundle host inp s token req)
unfolding import_bundle
import_bundle-Moves host inp s token req v = Ensures-guard _ _ λ _. Ensures-bind λ actor _.
    Ensures-guard _ _ λ _. Ensures-or_fail _ λ target _. Ensures-guard _ _ λ _.
      Ensures-or_fail _ λ source _. Ensures-guard _ _ λ _.
        Ensures-continue
          (import_messages-Moves host inp req.bundle.from_colony_id req.colony_id 0
            req.bundle.messages _ v)
          λ r m. on_ok (
            Moves-trans (pos 0) m
              (finish_import-Moves host inp actor.id source.id target req r m.valid)
              (omega int_laws))
