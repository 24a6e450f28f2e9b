-- ===== src/Money/Cancel.antt =====
-- The money of `CancelTrade` (backend/internal/service/trade_lifecycle.go).
use interstellar_trade_platf.Base.{
  ◌≡◌, refl, ◌∙◌, ap, ok, some, true, false, Ensures, on_ok, on_err, Ensures-bind, Ensures-guard,
  Ensures-or_fail,
}
use interstellar_trade_platf.Base.Int.{pos, ≃ℤ_of_eq, int_laws}
use interstellar_trade_platf.Base.Map.{lookup, All-lookup}
use interstellar_trade_platf.Domain.Text.{Ident, empty}
use interstellar_trade_platf.Domain.Status.{
  Status, offer_pending_export, offer_received, acceptance_pending_export, cancelled, expired,
  is_escrowed, transition_allowed,
}
use interstellar_trade_platf.Domain.State.{AppState, Colony, Trade, User}
use interstellar_trade_platf.Domain.Trade.{advance_trade}
use interstellar_trade_platf.Domain.Views.{TradeView}
use interstellar_trade_platf.Domain.Host.{Host, Inputs}
use interstellar_trade_platf.Service.Cancel.{
  cancel_trade, cancel_by_status, withdraw_offer, request_cancel,
}
use interstellar_trade_platf.Service.Ledger.{append_ledger}
use interstellar_trade_platf.Service.Tx.{put_colony, put_trade, modify_colony}
use interstellar_trade_platf.Money.{IsPriced, NotAccepted, IsValid, Moves}
use interstellar_trade_platf.Money.Trades.{put_kept-Moves}
use interstellar_trade_platf.Money.Writes.{
  put_trade-Moves, modify_colony-Moves, Moves-trans, Moves-eq, escrow_held, escrow_none, KeepsMoney,
  IsPriced-status, advance_trade_facts,
}

-- Only an offer that nobody accepted can be cancelled or expire.
cancel_facts :
    (t : Trade) (st : Status)
    → transition_allowed st cancelled ≡ true
    → NotAccepted t st
    → (is_escrowed st ≡ false) × (t.acceptance_envelope_id ≡ empty)
unfolding transition_allowed is_escrowed
cancel_facts t offer_pending_export h n = (refl, n)
cancel_facts t offer_received h n = (refl, n)
cancel_facts t _ h n = cc

expire_facts :
    (t : Trade) (st : Status)
    → transition_allowed st expired ≡ true
    → NotAccepted t st
    → (is_escrowed st ≡ false) × (t.acceptance_envelope_id ≡ empty)
unfolding transition_allowed is_escrowed
expire_facts t offer_pending_export h n = (refl, n)
expire_facts t offer_received h n = (refl, n)
expire_facts t _ h n = cc

closed-Moves :
    (k : Ident) (t t' : Trade) (to : Status) (s : AppState)
    → IsValid s
    → lookup k s.trades ≡ some t
    → t'.status ≡ to
    → t'.price ≡ t.price
    → is_escrowed to ≡ false
    → is_escrowed t.status ≡ false
    → NotAccepted t' to
    → Moves s (pos 0) (put_trade k t' s)
closed-Moves k t t' to s v ht st pr none_to none_from n =
    let p = All-lookup IsPriced k t s.trades v.priced ht in
    Moves-eq (put_trade-Moves k t t' s v ht (IsPriced-status t t' to st pr n p)) (
      omega (
        int_laws,
        ≃ℤ_of_eq (escrow_none t' to st none_to),
        ≃ℤ_of_eq (escrow_none t t.status refl none_from),
      ))

-- A ledger entry for the seller's colony, then the closed trade.
closed_at-Moves :
    (key k : Ident) (g : Colony → Colony) (t t' : Trade) (to : Status) (s : AppState)
    → KeepsMoney g
    → IsValid s
    → lookup k s.trades ≡ some t
    → t'.status ≡ to
    → t'.price ≡ t.price
    → is_escrowed to ≡ false
    → is_escrowed t.status ≡ false
    → NotAccepted t' to
    → Moves s (pos 0) (put_trade k t' (modify_colony key g s))
closed_at-Moves key k g t t' to s keeps v ht st pr none_to none_from n =
    let first = modify_colony-Moves key g s keeps v in
    Moves-trans (pos 0) first
      (closed-Moves k t t' to (modify_colony key g s) first.valid ht st pr none_to none_from n)
      (omega int_laws)

cancelled-Moves :
    (key k : Ident) (g : Colony → Colony) (t t' : Trade) (s : AppState)
    → KeepsMoney g
    → IsValid s
    → lookup k s.trades ≡ some t
    → advance_trade t cancelled ≡ ok t'
    → Moves s (pos 0) (put_trade k t' (modify_colony key g s))
unfolding is_escrowed
cancelled-Moves key k g t t' s keeps v ht h =
    let (e, allowed) = advance_trade_facts t t' cancelled h in
    let (none_from, n) =
      cancel_facts t t.status allowed (All-lookup IsPriced k t s.trades v.priced ht).2 in
    closed_at-Moves key k g t t' cancelled s keeps v ht (ap (λ (x : Trade). x.status) e)
      (ap (λ (x : Trade). x.price) e) refl none_from
      (ap (λ (x : Trade). x.acceptance_envelope_id) e ∙ n)

pub expired-Moves :
    (key k : Ident) (g : Colony → Colony) (t t' : Trade) (s : AppState)
    → KeepsMoney g
    → IsValid s
    → lookup k s.trades ≡ some t
    → advance_trade t expired ≡ ok t'
    → Moves s (pos 0) (put_trade k t' (modify_colony key g s))
unfolding is_escrowed
expired-Moves key k g t t' s keeps v ht h =
    let (e, allowed) = advance_trade_facts t t' expired h in
    let (none_from, n) =
      expire_facts t t.status allowed (All-lookup IsPriced k t s.trades v.priced ht).2 in
    closed_at-Moves key k g t t' expired s keeps v ht (ap (λ (x : Trade). x.status) e)
      (ap (λ (x : Trade). x.price) e) refl none_from
      (ap (λ (x : Trade). x.acceptance_envelope_id) e ∙ n)

withdraw_offer-Moves :
    (host : Host) (inp : Inputs) (s : AppState) (trade_id : Ident) (actor : User) (trade : Trade)
    → IsValid s
    → lookup trade_id s.trades ≡ some trade
    → Ensures
        (λ (r : TradeView × AppState). Moves s (pos 0) r.1)
        (withdraw_offer host inp s trade_id actor trade)
unfolding withdraw_offer append_ledger
withdraw_offer-Moves host inp s trade_id actor trade v ht = Ensures-guard _ _ λ _.
    Ensures-bind λ t' h. on_ok (
      cancelled-Moves trade.seller_colony_id trade_id _ trade t' s (λ c. (refl, refl, refl)) v ht h)

-- A request changes an identifier of the trade, no status.
requested-Moves :
    (key k : Ident) (c c' : Colony) (t t' : Trade) (s : AppState)
    → IsValid s
    → lookup key s.colonies ≡ some c
    → lookup k s.trades ≡ some t
    → c'.accounts ≡ c.accounts
    → c'.minted_total ≡ c.minted_total
    → c'.mint_cap ≡ c.mint_cap
    → t.status ≡ acceptance_pending_export
    → t'.status ≡ t.status
    → t'.price ≡ t.price
    → Moves s (pos 0) (put_trade k t' (put_colony key c' s))
unfolding is_escrowed
requested-Moves key k c c' t t' s v hc ht accs mint cap held st pr =
    let p = All-lookup IsPriced k t s.trades v.priced ht in
    let first = put_kept-Moves key c c' s v hc accs mint cap in
    Moves-trans (pos 0) first
      (put_trade-Moves k t t' (put_colony key c' s) first.valid ht
        (IsPriced-status t t' acceptance_pending_export (st ∙ held) pr tt p))
      (omega (
        int_laws,
        ≃ℤ_of_eq pr,
        ≃ℤ_of_eq (escrow_held t acceptance_pending_export held refl),
        ≃ℤ_of_eq (escrow_held t' acceptance_pending_export (st ∙ held) refl),
      ))

request_cancel-Moves :
    (host : Host) (inp : Inputs) (s : AppState) (trade_id : Ident) (actor : User) (trade : Trade)
    → IsValid s
    → lookup trade_id s.trades ≡ some trade
    → trade.status ≡ acceptance_pending_export
    → Ensures
        (λ (r : TradeView × AppState). Moves s (pos 0) r.1)
        (request_cancel host inp s trade_id actor trade)
unfolding request_cancel append_ledger
request_cancel-Moves host inp s trade_id actor trade v ht held = Ensures-or_fail _ λ buyer _.
    Ensures-guard _ _ λ _. Ensures-or_fail _ λ c hc. Ensures-or_fail _ λ buyer_sig _.
      Ensures-or_fail _ λ env_id _. Ensures-or_fail _ λ sig _. on_ok (
        requested-Moves buyer.colony_id trade_id c _ trade _ s v hc ht refl refl refl held refl
          refl)

cancel_by_status-Moves :
    (st : Status) (host : Host) (inp : Inputs) (s : AppState) (trade_id : Ident) (actor : User)
    (trade : Trade)
    → IsValid s
    → lookup trade_id s.trades ≡ some trade
    → trade.status ≡ st
    → Ensures
        (λ (r : TradeView × AppState). Moves s (pos 0) r.1)
        (cancel_by_status st host inp s trade_id actor trade)
unfolding cancel_by_status
cancel_by_status-Moves offer_pending_export host inp s trade_id actor trade v ht e =
    withdraw_offer-Moves host inp s trade_id actor trade v ht
cancel_by_status-Moves offer_received host inp s trade_id actor trade v ht e =
    withdraw_offer-Moves host inp s trade_id actor trade v ht
cancel_by_status-Moves acceptance_pending_export host inp s trade_id actor trade v ht e =
    request_cancel-Moves host inp s trade_id actor trade v ht e
cancel_by_status-Moves _ host inp s trade_id actor trade v ht e = on_err

-- From a valid state, cancelling a trade, whatever its status, leads to a valid state if it
-- succeeds, and keeps balances plus escrow, less what was minted.
pub cancel_trade-Moves :
    (host : Host) (inp : Inputs) (s : AppState) (token trade_id : Ident)
    → IsValid s
    → Ensures
        (λ (r : TradeView × AppState). Moves s (pos 0) r.1)
        (cancel_trade host inp s token trade_id)
unfolding cancel_trade
cancel_trade-Moves host inp s token trade_id v = Ensures-bind λ actor _.
    Ensures-or_fail _ λ trade ht.
      Ensures-guard _ _
        λ _. cancel_by_status-Moves trade.status host inp s trade_id actor trade v ht refl
