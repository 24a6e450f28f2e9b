-- ===== src/Money/Import.antt =====
-- The money of `importOffer`, `importSettlement`, `importCancel` and `importRefund`
-- (backend/internal/service/trade.go and trade_lifecycle.go).
use interstellar_trade_platf.Base.{
  ◌≡◌, refl, subst, ◌∙◌, ap, arith, Option, none, some, Bool, true, false, Ensures, on_ok, on_err,
  Ensures-bind, Ensures-guard, Ensures-or_fail, inl, inr, ◌⊎◌, if◌then◌else◌, true_of_not,
  Ensures-continue, left_false,
}
use interstellar_trade_platf.Base.Int.{pos, ≃ℤ_of_eq, int_laws}
use interstellar_trade_platf.Base.Map.{lookup, All-lookup}
use interstellar_trade_platf.Domain.Text.{Ident, empty}
use interstellar_trade_platf.Domain.Amount.{valid_amount}
use interstellar_trade_platf.Domain.Amount.Bounds.{valid_amount_bounds}
use interstellar_trade_platf.Domain.Payload.{OfferPayload}
use interstellar_trade_platf.Domain.Status.{
  Status, offer_pending_export, offer_received, acceptance_pending_export,
  settlement_pending_export, completed, refund_pending_export, is_escrowed, classify_step,
  step_apply, step_too_early, step_duplicate, StepKind,
}
use interstellar_trade_platf.Domain.Status.Table.{status_eq→≡}
use interstellar_trade_platf.Domain.State.{AppState, Colony, Trade, Envelope}
use interstellar_trade_platf.Domain.Host.{Host, Inputs}
use interstellar_trade_platf.Service.Refund.{Imported}
use interstellar_trade_platf.Service.Import.Offer.{
  received_trade, place_offer, record_offer, import_offer,
}
use interstellar_trade_platf.Service.Import.Settlement.{
  import_settlement, import_cancel, import_refund,
}
use interstellar_trade_platf.Service.Ledger.{append_ledger}
use interstellar_trade_platf.Service.Tx.{put_trade, modify_colony}
use interstellar_trade_platf.Money.{IsPriced, NotAccepted, IsValid, Moves}
use interstellar_trade_platf.Money.Refund.{decide_refund_held-Moves, apply_refund_held-Moves}
use interstellar_trade_platf.Money.Writes.{
  put_trade-Moves, put_trade_new-Moves, modify_colony-Moves, KeepsMoney, Moves-trans, Moves-refl,
  step_trade_facts, IsPriced-status, escrow_held, escrow_none,
}

-- A trade that moves between two statuses outside escrow, with a write that holds no money.
stepped-Moves :
    (target_key trade_key : Ident) (g : Colony → Colony) (t t' : Trade) (from to : Status)
    (s : AppState)
    → IsValid s
    → KeepsMoney g
    → lookup trade_key s.trades ≡ some t
    → t.status ≡ from
    → t'.status ≡ to
    → t'.price ≡ t.price
    → is_escrowed from ≡ false
    → is_escrowed to ≡ false
    → NotAccepted t' to
    → Moves s (pos 0) (put_trade trade_key t' (modify_colony target_key g s))
stepped-Moves target_key trade_key g t t' from to s v keeps ht st st' pr out out' n =
    let p = All-lookup IsPriced trade_key t s.trades v.priced ht in
    let first = modify_colony-Moves target_key g s keeps v in
    Moves-trans (pos 0) first
      (put_trade-Moves trade_key t t' (modify_colony target_key g s) first.valid ht
        (IsPriced-status t t' to st' pr n p))
      (omega
        (int_laws, ≃ℤ_of_eq (escrow_none t from st out), ≃ℤ_of_eq (escrow_none t' to st' out')))

-- A step of classification `step_apply` finds the trade in the predecessor.
pub apply-eq : (st pred : Status) → classify_step st pred ≡ step_apply → st ≡ pred
unfolding classify_step
apply-eq st pred h = ground (arith, status_eq→≡ st pred)

pub StepKind-cases :
    (k : StepKind) → (k ≡ step_apply) ⊎ ((k ≡ step_too_early) ⊎ (k ≡ step_duplicate))
StepKind-cases step_apply = inl refl
StepKind-cases step_too_early = inr (inl refl)
StepKind-cases step_duplicate = inr (inr refl)

pub import_settlement-Moves :
    (host : Host) (inp : Inputs) (s : AppState) (target_key : Ident) (source target : Colony)
    (env : Envelope)
    → IsValid s
    → Ensures
        (λ (r : Imported). Moves s (pos 0) r.2)
        (import_settlement host inp s target_key source target env)
unfolding import_settlement append_ledger
import_settlement-Moves host inp s target_key source target env v = Ensures-or_fail _ λ p _.
    Ensures-or_fail _ λ trade ht. Ensures-guard _ _ λ _. Ensures-bind λ r stepped.
      elim (step_trade_facts trade settlement_pending_export completed r stepped) [
        | inl (applied, from, eq) ↦ rw applied (
            on_ok (
              stepped-Moves target_key p.trade_id _ trade _ settlement_pending_export completed s v
                (λ c. (refl, refl, refl)) ht from (ap (λ (x : Trade). x.status) eq)
                (ap (λ (x : Trade). x.price) eq) (unfold is_escrowed in refl)
                (unfold is_escrowed in refl) tt))
        | inr (skipped, same) ↦ rw skipped (on_ok (Moves-refl s v))
      ]

pub import_cancel-Moves :
    (host : Host) (inp : Inputs) (s : AppState) (target_key : Ident) (source target : Colony)
    (env : Envelope)
    → IsValid s
    → Ensures
        (λ (r : Imported). Moves s (pos 0) r.2)
        (import_cancel host inp s target_key source target env)
unfolding import_cancel
import_cancel-Moves host inp s target_key source target env v = Ensures-or_fail _ λ p _.
    Ensures-guard _ _ λ _. Ensures-or_fail _ λ buyer _. Ensures-guard _ _ λ _.
      Ensures-or_fail _ λ trade ht. Ensures-guard _ _ λ _.
        elim (StepKind-cases (classify_step trade.status acceptance_pending_export)) [
          | inl now ↦ rw now (
              decide_refund_held-Moves host inp s target_key p.trade_id source target trade env _ v
                ht
                (escrow_held trade acceptance_pending_export
                  (apply-eq trade.status acceptance_pending_export now)
                  (unfold is_escrowed in refl)))
          | inr (inl early) ↦ rw early on_err
          | inr (inr dup) ↦ rw dup (on_ok (Moves-refl s v))
        ]

pub import_refund-Moves :
    (host : Host) (inp : Inputs) (s : AppState) (source target : Colony) (env : Envelope)
    → IsValid s
    → Ensures (λ (r : Imported). Moves s (pos 0) r.2) (import_refund host inp s source target env)
unfolding import_refund
import_refund-Moves host inp s source target env v = Ensures-or_fail _ λ p _.
    Ensures-or_fail _ λ trade ht. Ensures-guard _ _ λ _.
      elim (StepKind-cases (classify_step trade.status refund_pending_export)) [
        | inl now ↦ rw now (
            Ensures-continue
              (apply_refund_held-Moves host inp s p.trade_id trade _ _ _ v ht (
                escrow_held trade refund_pending_export
                  (apply-eq trade.status refund_pending_export now) (unfold is_escrowed in refl)))
              λ r m. on_ok m)
        | inr (inl early) ↦ rw early on_err
        | inr (inr dup) ↦ rw dup (on_ok (Moves-refl s v))
      ]

-- Where an offer is placed: a new trade, or the one that waited for it.
data Placed (o : Option Trade) (p : OfferPayload) (env_id : Ident) (r : Bool × Trade) : Type 0 where
  left_alone : r.0 ≡ false → Placed o p env_id r
  created : r.0 ≡ true → o ≡ none → r.1 ≡ received_trade p env_id → Placed o p env_id r
  moved_on :
      (t : Trade)
      → r.0 ≡ true
      → o ≡ some t
      → t.status ≡ offer_pending_export
      → r.1.status ≡ offer_received
      → r.1.price ≡ t.price
      → r.1.acceptance_envelope_id ≡ t.acceptance_envelope_id
      → Placed o p env_id r

place_offer-Placed :
    (o : Option Trade) (p : OfferPayload) (env_id : Ident)
    → Ensures (Placed o p env_id) (place_offer o p env_id)
unfolding place_offer
place_offer-Placed none p env_id = on_ok (created refl refl refl)
place_offer-Placed (some t) p env_id = Ensures-guard _ _ λ _. Ensures-bind λ r stepped.
    elim (step_trade_facts t offer_pending_export offer_received r stepped) [
      | inl (applied, from, eq) ↦ rw applied (
          on_ok (
            moved_on t refl refl from (ap (λ (x : Trade). x.status) eq)
              (ap (λ (x : Trade). x.price) eq) (ap (λ (x : Trade). x.acceptance_envelope_id) eq)))
      | inr (skipped, same) ↦ rw skipped (on_ok (left_alone refl))
    ]

-- The writes of an offer, whichever way it was placed.
Placed-Moves :
    (host : Host) (inp : Inputs) (s : AppState) (target_key buyer_id source_id env_id : Ident)
    (p : OfferPayload) (g : Colony → Colony) (r : Bool × Trade)
    → IsValid s
    → KeepsMoney g
    → valid_amount p.price ≡ true
    → Placed (lookup p.trade_id s.trades) p env_id r
    → Moves s (pos 0) (if r.0 then put_trade p.trade_id r.1 (modify_colony target_key g s) else s)
Placed-Moves host inp s target_key buyer_id source_id env_id p g r v keeps amt (left_alone e) =
    rw e (Moves-refl s v)
Placed-Moves host inp s target_key buyer_id source_id env_id p g r v keeps amt (created e h new) =
    let first = modify_colony-Moves target_key g s keeps v in
    let (low, high) = valid_amount_bounds p.price amt in
    let t = received_trade p env_id in
    rw (e, new)
      (Moves-trans (pos 0) first
        (put_trade_new-Moves p.trade_id t (modify_colony target_key g s) first.valid h
          (unfold received_trade in (low, high, refl)))
        (omega (
          int_laws,
          ≃ℤ_of_eq (
              escrow_none t offer_received (unfold received_trade in refl)
                (unfold is_escrowed in refl)),
        )))
Placed-Moves host inp s target_key buyer_id source_id env_id p g r v keeps amt
      (moved_on t e h from to pr acc) =
    let n : t.acceptance_envelope_id ≡ empty =
      subst (NotAccepted t) from (All-lookup IsPriced p.trade_id t s.trades v.priced h).2 in
    rw e (
      stepped-Moves target_key p.trade_id g t r.1 offer_pending_export offer_received s v keeps h
        from to pr (unfold is_escrowed in refl) (unfold is_escrowed in refl) (acc ∙ n))

pub import_offer-Moves :
    (host : Host) (inp : Inputs) (s : AppState) (target_key : Ident) (source target : Colony)
    (env : Envelope)
    → IsValid s
    → Ensures
        (λ (r : Imported). Moves s (pos 0) r.2)
        (import_offer host inp s target_key source target env)
unfolding import_offer record_offer append_ledger
import_offer-Moves host inp s target_key source target env v = Ensures-or_fail _ λ p _.
    Ensures-guard _ _ λ _. Ensures-guard _ _ λ good. Ensures-or_fail _ λ seller _.
      Ensures-or_fail _ λ buyer _. Ensures-guard _ _ λ _. Ensures-guard _ _ λ _.
        Ensures-continue (place_offer-Placed (lookup p.trade_id s.trades) p env.id) λ r placed.
          on_ok (
            Placed-Moves host inp s target_key buyer.id source.id env.id p _ r v
              (λ c. (refl, refl, refl)) (true_of_not _ (left_false _ _ good)) placed)
