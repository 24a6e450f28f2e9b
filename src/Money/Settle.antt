-- ===== src/Money/Settle.antt =====
-- The money of `importAcceptance` (backend/internal/service/trade.go).
use interstellar_trade_platf.Base.{
  ℕ, ◌≡◌, refl, sym, subst, ◌∙◌, ap, ok, some, Bool-cases, Ensures, on_ok, on_err, Ensures-bind,
  Ensures-guard, Ensures-or_fail, inl, inr, ==-ne,
}
use interstellar_trade_platf.Base.Int.{ℤ, pos, ◌+ℤ◌, ◌≃ℤ◌, ≃ℤ_of_eq, int_laws}
use interstellar_trade_platf.Base.Map.{lookup, All-lookup, lookup-modify_kept}
use interstellar_trade_platf.Domain.Text.{Ident, empty}
use interstellar_trade_platf.Domain.Amount.{add_checked}
use interstellar_trade_platf.Domain.Status.{
  Status, acceptance_pending_export, settlement_pending_export, expired, cancelled, is_escrowed,
  StepKind, step_apply, step_too_early, step_duplicate,
}
use interstellar_trade_platf.Domain.State.{AppState, Colony, Trade, Envelope}
use interstellar_trade_platf.Domain.Trade.{advance_trade}
use interstellar_trade_platf.Domain.Host.{Host, Inputs}
use interstellar_trade_platf.Service.Refund.{Imported}
use interstellar_trade_platf.Service.Import.Acceptance.{
  Case, credit_seller, settle, refund_case, closed_case, other_case, resolve, import_acceptance,
}
use interstellar_trade_platf.Service.Ledger.{append_ledger}
use interstellar_trade_platf.Service.Tx.{put_trade, modify_colony, set_balance}
use interstellar_trade_platf.Money.{net, IsFunded, AreFunded, IsPriced, NotAccepted, IsValid, Moves}
use interstellar_trade_platf.Money.Refund.{decide_refund_held-Moves}
use interstellar_trade_platf.Money.Writes.{
  put_trade-Moves, modify_colony-Moves, modify_at-Moves, KeepsMoney, Moves-trans, Moves-refl,
  set_balance-net, set_balance-AreFunded, net_same, advance_trade_facts, IsPriced-status,
  escrow_held, escrow_none, add_checked_funded,
}

-- What the caller of a branch knows: the trade, the colony and the account are in the state.
record IsCase (s : AppState) (k : Case) : Type 0 where
  traded : lookup k.payload.trade_id s.trades ≡ some k.trade
  based : lookup k.target_key s.colonies ≡ some k.target
  banked : lookup k.seller.id k.target.accounts ≡ some k.account

-- The credit gives the price to the colony, whatever else it holds.
credit_seller-net :
    (host : Host) (t : ℕ) (k : Case) (balance claims : ℤ) (env : Envelope) (c : Colony)
    → AreFunded c
    → IsPriced k.trade
    → lookup k.seller.id c.accounts ≡ some k.account
    → add_checked k.account.balance k.trade.price ≡ ok balance
    → (net (credit_seller host t k balance claims env c) ≃ℤ net c +ℤ k.trade.price)
      × AreFunded (credit_seller host t k balance claims env c)
unfolding credit_seller append_ledger
credit_seller-net host t k balance claims env c f p ha sum =
    let (exact, low, high) =
      add_checked_funded k.account.balance k.trade.price balance
        (All-lookup IsFunded k.seller.id k.account c.accounts f.0 ha) (p.0, p.1) sum in
    let same = ≃ℤ_of_eq (
      net_same (set_balance k.seller.id k.account balance c)
        (credit_seller host t k balance claims env c) refl refl) in
    (
      omega (int_laws, same, ≃ℤ_of_eq exact, set_balance-net k.seller.id k.account balance c ha),
      set_balance-AreFunded k.seller.id k.account balance c f (low, high),
    )

-- The writes of a settled trade: `owe` on the source, the credit on the target, the trade.
settled-Moves :
    (host : Host) (t : ℕ) (k : Case) (owe : Colony → Colony) (balance claims : ℤ) (env : Envelope)
    (a t' : Trade) (s : AppState)
    → IsValid s
    → IsCase s k
    → KeepsMoney owe
    → k.trade.status ≡ acceptance_pending_export
    → add_checked k.account.balance k.trade.price ≡ ok balance
    → advance_trade k.trade settlement_pending_export ≡ ok a
    → t'.status ≡ a.status
    → t'.price ≡ a.price
    → Moves s (pos 0) (
        put_trade k.payload.trade_id t' (
          modify_colony k.target_key
            (credit_seller host t k balance claims env)
            (modify_colony k.source_key owe s)))
unfolding is_escrowed
settled-Moves host t k owe balance claims env a t' s v is_case keeps waiting sum h st pr =
    let (e, _) = advance_trade_facts k.trade a settlement_pending_export h in
    let st' : t'.status ≡ settlement_pending_export = st ∙ ap (λ (x : Trade). x.status) e in
    let pr' : t'.price ≡ k.trade.price = pr ∙ ap (λ (x : Trade). x.price) e in
    let p = All-lookup IsPriced k.payload.trade_id k.trade s.trades v.priced is_case.traded in
    let owing = modify_colony k.source_key owe s in
    let first = modify_colony-Moves k.source_key owe s keeps v in
    let (c, hc, same) =
      lookup-modify_kept (λ (x : Colony). x.accounts) owe k.target_key k.source_key s.colonies
        k.target (λ x. (keeps x).0) is_case.based in
    let (gain, funded) =
      credit_seller-net host t k balance claims env c
        (All-lookup AreFunded k.target_key c owing.colonies first.valid.funded hc) p
        (rw same is_case.banked) sum in
    let g = credit_seller host t k balance claims env in
    let second = modify_at-Moves k.target_key g c owing first.valid hc funded in
    Moves-trans (pos 0) (Moves-trans (k.trade.price) first second (omega (int_laws, gain)))
      (put_trade-Moves k.payload.trade_id k.trade t' (modify_colony k.target_key g owing)
        second.valid is_case.traded
        (IsPriced-status k.trade t' settlement_pending_export st' pr' tt p))
      (omega (
        int_laws,
        ≃ℤ_of_eq (escrow_none t' settlement_pending_export st' refl),
        ≃ℤ_of_eq (escrow_held k.trade acceptance_pending_export waiting refl),
      ))

settle-Moves :
    (host : Host) (inp : Inputs) (s : AppState) (k : Case)
    → IsValid s
    → IsCase s k
    → k.trade.status ≡ acceptance_pending_export
    → Ensures (λ (r : Imported). Moves s (pos 0) r.2) (settle host inp s k)
unfolding settle
settle-Moves host inp s k v is_case waiting = Ensures-bind λ balance sum. Ensures-bind λ claims _.
    Ensures-bind λ obligations _. Ensures-or_fail _ λ env_id _. Ensures-or_fail _ λ sig _.
      Ensures-bind λ a moved. on_ok (
        settled-Moves host _ k _ balance claims _ a _ s v is_case (λ c. (refl, refl, refl)) waiting
          sum moved refl refl)

refund_case-Moves :
    (host : Host) (inp : Inputs) (s : AppState) (k : Case)
    → IsValid s
    → IsCase s k
    → k.trade.status ≡ acceptance_pending_export
    → Ensures (λ (r : Imported). Moves s (pos 0) r.2) (refund_case host inp s k)
unfolding refund_case
refund_case-Moves host inp s k v is_case waiting =
    decide_refund_held-Moves host inp s k.target_key k.payload.trade_id k.source k.target k.trade
      k.env _ v is_case.traded
      (escrow_held k.trade acceptance_pending_export waiting (unfold is_escrowed in refl))

-- A closed offer has no acceptance on record, so the branch that refunds one is never taken.
closed_case-Moves :
    (host : Host) (inp : Inputs) (s : AppState) (k : Case)
    → k.trade.acceptance_envelope_id ≡ empty
    → Ensures (λ (r : Imported). Moves s (pos 0) r.2) (closed_case host inp s k)
unfolding closed_case
closed_case-Moves host inp s k e = Ensures-guard _ _ λ h. absurd (==-ne _ _ h e)

other_case-Moves :
    (kind : StepKind) (s : AppState) (k : Case)
    → IsValid s
    → Ensures (λ (r : Imported). Moves s (pos 0) r.2) (other_case kind s k)
unfolding other_case
other_case-Moves step_too_early s k v = on_err
other_case-Moves step_apply s k v = on_ok (Moves-refl s v)
other_case-Moves step_duplicate s k v = on_ok (Moves-refl s v)

resolve-Moves :
    (st : Status) (host : Host) (inp : Inputs) (s : AppState) (k : Case)
    → st ≡ k.trade.status
    → IsValid s
    → IsCase s k
    → Ensures (λ (r : Imported). Moves s (pos 0) r.2) (resolve st host inp s k)
unfolding resolve
resolve-Moves acceptance_pending_export host inp s k e v is_case = Ensures-bind λ late _.
    elim (Bool-cases late) [
      | inl yes_late ↦ rw yes_late (refund_case-Moves host inp s k v is_case (sym e))
      | inr in_time ↦ rw in_time (settle-Moves host inp s k v is_case (sym e))
    ]
resolve-Moves expired host inp s k e v is_case = closed_case-Moves host inp s k (
    subst (NotAccepted k.trade) (sym e)
      (All-lookup IsPriced k.payload.trade_id k.trade s.trades v.priced is_case.traded).2)
resolve-Moves cancelled host inp s k e v is_case = closed_case-Moves host inp s k (
    subst (NotAccepted k.trade) (sym e)
      (All-lookup IsPriced k.payload.trade_id k.trade s.trades v.priced is_case.traded).2)
resolve-Moves _ host inp s k e v is_case = other_case-Moves _ s k v

-- From a valid state that holds the target colony, importing an acceptance leads to a valid state
-- if it succeeds, and keeps balances plus escrow, less what was minted, on every branch: credit,
-- refund decision and duplicate.
pub import_acceptance-Moves :
    (host : Host) (inp : Inputs) (s : AppState) (source_key target_key : Ident)
    (source target : Colony) (env : Envelope)
    → IsValid s
    → lookup target_key s.colonies ≡ some target
    → Ensures
        (λ (r : Imported). Moves s (pos 0) r.2)
        (import_acceptance host inp s source_key target_key source target env)
unfolding import_acceptance
import_acceptance-Moves host inp s source_key target_key source target env v hc =
    Ensures-or_fail _ λ p _. Ensures-guard _ _ λ _. Ensures-or_fail _ λ buyer _.
      Ensures-guard _ _ λ _. Ensures-guard _ _ λ _. Ensures-or_fail _ λ trade ht.
        Ensures-guard _ _ λ _. Ensures-or_fail _ λ seller _. Ensures-or_fail _ λ acc ha.
          resolve-Moves trade.status host inp s _ refl v
            (record { traded = ht; based = hc; banked = ha })
