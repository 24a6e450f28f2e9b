-- ===== src/Money/Trades.antt =====
-- The money of `CreateOffer` and `ExportBundle` (backend/internal/service/trade.go).
use interstellar_trade_platf.Base.{
  ℕ, ◌≡◌, refl, arith, some, none, not, ◌||◌, Bool, true, false, Ensures, on_ok, Ensures-bind,
  Ensures-guard, Ensures-or_fail,
}
use interstellar_trade_platf.Base.Int.{pos, ≃ℤ_of_eq, int_laws}
use interstellar_trade_platf.Base.Map.{lookup, All-lookup}
use interstellar_trade_platf.Domain.Text.{Ident}
use interstellar_trade_platf.Domain.Amount.Bounds.{valid_amount_bounds}
use interstellar_trade_platf.Domain.Status.{offer_pending_export, is_escrowed}
use interstellar_trade_platf.Domain.State.{AppState, Colony, Trade, User, Envelope, Bundle}
use interstellar_trade_platf.Domain.Views.{TradeView}
use interstellar_trade_platf.Domain.Host.{Host, Inputs}
use interstellar_trade_platf.Service.Offer.{
  create_offer, CreateOfferRequest, record_offer, offered_trade,
}
use interstellar_trade_platf.Service.Export.{export_bundle, ExportBundleRequest}
use interstellar_trade_platf.Service.Ledger.{append_ledger}
use interstellar_trade_platf.Service.Tx.{put_colony, put_trade}
use interstellar_trade_platf.Money.{AreFunded, IsPriced, IsValid, Moves}
use interstellar_trade_platf.Money.Writes.{
  put_colony-Moves, put_trade_new-Moves, frame-Moves, Moves-trans, Moves-eq, AreFunded-same,
  net_same, escrow_none,
}

-- A colony whose money is the same is put in the place of the old one.
pub put_kept-Moves :
    (key : Ident) (c c' : Colony) (s : AppState)
    → IsValid s
    → lookup key s.colonies ≡ some c
    → c'.accounts ≡ c.accounts
    → c'.minted_total ≡ c.minted_total
    → c'.mint_cap ≡ c.mint_cap
    → Moves s (pos 0) (put_colony key c' s)
put_kept-Moves key c c' s v hc accs mint cap =
    let f = All-lookup AreFunded key c s.colonies v.funded hc in
    Moves-eq (put_colony-Moves key c c' s v hc (AreFunded-same c c' accs mint cap f))
      (omega (int_laws, ≃ℤ_of_eq (net_same c c' accs mint)))

offered-Moves :
    (key id : Ident) (c c' : Colony) (t : Trade) (s : AppState)
    → IsValid s
    → lookup key s.colonies ≡ some c
    → c'.accounts ≡ c.accounts
    → c'.minted_total ≡ c.minted_total
    → c'.mint_cap ≡ c.mint_cap
    → lookup id s.trades ≡ none
    → IsPriced t
    → t.status ≡ offer_pending_export
    → Moves s (pos 0) (put_trade id t (put_colony key c' s))
unfolding is_escrowed
offered-Moves key id c c' t s v hc accs mint cap fresh p st =
    let first = put_kept-Moves key c c' s v hc accs mint cap in
    Moves-trans (pos 0) first (put_trade_new-Moves id t (put_colony key c' s) first.valid fresh p)
      (omega (int_laws, ≃ℤ_of_eq (escrow_none t offer_pending_export st refl)))

record_offer-Moves :
    (host : Host) (t : ℕ) (actor : User) (key : Ident) (c : Colony) (env : Envelope) (trade : Trade)
    (s : AppState)
    → IsValid s
    → lookup key s.colonies ≡ some c
    → lookup trade.id s.trades ≡ none
    → IsPriced trade
    → trade.status ≡ offer_pending_export
    → Moves s (pos 0) (record_offer host t actor key c env trade s)
unfolding record_offer append_ledger
record_offer-Moves host t actor key c env trade s v hc fresh p st =
    offered-Moves key trade.id c _ trade s v hc refl refl refl fresh p st

price_valid : (a b : Bool) → a || not b ≡ false → b ≡ true
price_valid a b h = ground arith

-- From a valid state, creating an offer, under a trade id that is not in use, leads to a valid
-- state if it succeeds, and keeps balances plus escrow, less what was minted.
pub create_offer-Moves :
    (host : Host) (inp : Inputs) (s : AppState) (token : Ident) (req : CreateOfferRequest)
    → IsValid s
    → ((id : Ident) → inp.id 0 ≡ some id → lookup id s.trades ≡ none)
    → Ensures
        (λ (r : TradeView × AppState). Moves s (pos 0) r.1)
        (create_offer host inp s token req)
unfolding create_offer offered_trade
create_offer-Moves host inp s token req v fresh = Ensures-guard _ _ λ fine.
    let (low, high) = valid_amount_bounds req.price (price_valid _ _ fine) in
    Ensures-bind λ ttl _. Ensures-bind λ actor _. Ensures-or_fail _ λ seller _.
      Ensures-or_fail _ λ buyer _. Ensures-guard _ _ λ _. Ensures-guard _ _ λ _.
        Ensures-guard _ _ λ _. Ensures-guard _ _ λ _. Ensures-guard _ _ λ _.
          Ensures-or_fail _ λ c hc. Ensures-or_fail _ λ _ _. Ensures-or_fail _ λ id hid.
            Ensures-or_fail _ λ seller_sig _. Ensures-or_fail _ λ env_id _.
              Ensures-or_fail _ λ sig _. on_ok (
                record_offer-Moves host (inp.now 2) actor seller.colony_id c _ _ s v hc
                  (fresh id hid) (low, high, refl) refl)

filed-Moves :
    (key : Ident) (c c' : Colony) (s s' : AppState)
    → IsValid s
    → lookup key s.colonies ≡ some c
    → s'.colonies ≡ s.colonies
    → s'.trades ≡ s.trades
    → s'.pending_actions ≡ s.pending_actions
    → c'.accounts ≡ c.accounts
    → c'.minted_total ≡ c.minted_total
    → c'.mint_cap ≡ c.mint_cap
    → Moves s (pos 0) (put_colony key c' s')
filed-Moves key c c' s s' v hc colonies trades pending accs mint cap =
    let first = frame-Moves s s' colonies trades (rw pending v.proposed) v in
    Moves-trans (pos 0) first
      (put_kept-Moves key c c' s' first.valid (rw colonies hc) accs mint cap) (omega int_laws)

-- From a valid state, exporting a bundle leads to a valid state if it succeeds, and keeps balances
-- plus escrow, less what was minted.
pub export_bundle-Moves :
    (host : Host) (inp : Inputs) (s : AppState) (token : Ident) (req : ExportBundleRequest)
    → IsValid s
    → Ensures (λ (r : Bundle × AppState). Moves s (pos 0) r.1) (export_bundle host inp s token req)
unfolding export_bundle append_ledger
export_bundle-Moves host inp s token req v = Ensures-guard _ _ λ _. Ensures-bind λ actor _.
    Ensures-guard _ _ λ _. Ensures-or_fail _ λ c hc. Ensures-or_fail _ λ _ _.
      Ensures-or_fail _
        λ id _. on_ok (filed-Moves req.colony_id c _ s _ v hc refl refl refl refl refl refl)
