-- ===== src/Money/Accept.antt =====
-- The money of `AcceptTrade` (backend/internal/service/trade.go).
use interstellar_trade_platf.Base.{
  ℕ, ◌≡◌, refl, ◌∙◌, ap, false, some, true_of_not, ok, Ensures, on_ok, Ensures-bind, Ensures-guard,
  Ensures-or_fail,
}
use interstellar_trade_platf.Base.Int.{
  ℤ, pos, ◌+ℤ◌, ◌-ℤ◌, ◌≤ℤ◌, ◌≃ℤ◌, ≃ℤ_of_eq, ltb_ℤ, le_of_ltb-false, max_int64, int_laws, sub64,
  sub64_exact,
}
use interstellar_trade_platf.Base.Map.{lookup, All-lookup}
use interstellar_trade_platf.Domain.Text.{Ident}
use interstellar_trade_platf.Domain.Status.{offer_received, acceptance_pending_export, is_escrowed}
use interstellar_trade_platf.Domain.Status.Table.{status_eq→≡}
use interstellar_trade_platf.Domain.State.{AppState, Account, Colony, Trade, User, Envelope}
use interstellar_trade_platf.Domain.Trade.{advance_trade}
use interstellar_trade_platf.Domain.Views.{TradeView}
use interstellar_trade_platf.Domain.Host.{Host, Inputs}
use interstellar_trade_platf.Service.Accept.{accept_trade, debit_buyer}
use interstellar_trade_platf.Service.Ledger.{append_ledger}
use interstellar_trade_platf.Service.Tx.{put_colony, put_trade, set_balance}
use interstellar_trade_platf.Money.{net, escrow, IsFunded, AreFunded, IsPriced, IsValid, Moves}
use interstellar_trade_platf.Money.Writes.{
  put_colony-Moves, put_trade-Moves, Moves-trans, set_balance-net, set_balance-AreFunded, net_same,
  advance_trade_facts, IsPriced-status, escrow_held, escrow_none,
}

debit_exact :
    (a p : ℤ)
    → (pos 0 ≤ℤ a) × (a ≤ℤ max_int64)
    → pos 1 ≤ℤ p
    → p ≤ℤ a
    → (sub64 a p ≡ a -ℤ p) × (pos 0 ≤ℤ a -ℤ p) × (a -ℤ p ≤ℤ max_int64)
debit_exact a p h one le =
    (sub64_exact a p (omega int_laws, omega int_laws), omega int_laws, omega int_laws)

-- The debit takes the price from the colony, and leaves its accounts funded.
debit_buyer-net :
    (host : Host) (t : ℕ) (actor buyer : User) (trade : Trade) (acc : Account) (env : Envelope)
    (c : Colony)
    → AreFunded c
    → IsPriced trade
    → lookup buyer.id c.accounts ≡ some acc
    → ltb_ℤ acc.balance trade.price ≡ false
    → (net (debit_buyer host t actor buyer trade acc env c) +ℤ trade.price ≃ℤ net c)
      × AreFunded (debit_buyer host t actor buyer trade acc env c)
unfolding debit_buyer append_ledger
debit_buyer-net host t actor buyer trade acc env c f p ha enough =
    let (exact, low, high) =
      debit_exact acc.balance trade.price (All-lookup IsFunded buyer.id acc c.accounts f.0 ha) p.0
        (le_of_ltb-false acc.balance trade.price enough) in
    let b = sub64 acc.balance trade.price in
    let same = ≃ℤ_of_eq (
      net_same (set_balance buyer.id acc b c) (debit_buyer host t actor buyer trade acc env c) refl
        refl) in
    (
      omega (int_laws, same, ≃ℤ_of_eq exact, set_balance-net buyer.id acc b c ha),
      set_balance-AreFunded buyer.id acc b c f (rw exact low, rw exact high),
    )

-- The trade enters escrow.
enter_escrow :
    (t a t' : Trade)
    → advance_trade t acceptance_pending_export ≡ ok a
    → t.status ≡ offer_received
    → t'.status ≡ a.status
    → t'.price ≡ a.price
    → IsPriced t
    → IsPriced t' × (escrow t' ≡ t.price) × (escrow t ≡ pos 0)
unfolding is_escrowed
enter_escrow t a t' h ready st pr p =
    let (e, _) = advance_trade_facts t a acceptance_pending_export h in
    let st' : t'.status ≡ acceptance_pending_export = st ∙ ap (λ (x : Trade). x.status) e in
    let pr' : t'.price ≡ t.price = pr ∙ ap (λ (x : Trade). x.price) e in
    (
      IsPriced-status t t' acceptance_pending_export st' pr' tt p,
      escrow_held t' acceptance_pending_export st' refl ∙ pr',
      escrow_none t offer_received ready refl,
    )

-- The two writes of the handler: the price leaves the account and enters escrow.
accepted-Moves :
    (host : Host) (t : ℕ) (actor buyer : User) (trade a t' : Trade) (acc : Account) (env : Envelope)
    (c : Colony) (s : AppState) (trade_id : Ident)
    → IsValid s
    → lookup trade_id s.trades ≡ some trade
    → lookup buyer.colony_id s.colonies ≡ some c
    → lookup buyer.id c.accounts ≡ some acc
    → ltb_ℤ acc.balance trade.price ≡ false
    → trade.status ≡ offer_received
    → advance_trade trade acceptance_pending_export ≡ ok a
    → t'.status ≡ a.status
    → t'.price ≡ a.price
    → Moves s (pos 0) (
        put_trade trade_id t'
          (put_colony buyer.colony_id (debit_buyer host t actor buyer trade acc env c) s))
accepted-Moves host t actor buyer trade a t' acc env c s trade_id v ht hc ha enough ready h st pr =
    let p = All-lookup IsPriced trade_id trade s.trades v.priced ht in
    let f = All-lookup AreFunded buyer.colony_id c s.colonies v.funded hc in
    let c' = debit_buyer host t actor buyer trade acc env c in
    let (debited, funded) = debit_buyer-net host t actor buyer trade acc env c f p ha enough in
    let (priced, held, before) = enter_escrow trade a t' h ready st pr p in
    let first = put_colony-Moves buyer.colony_id c c' s v hc funded in
    Moves-trans (pos 0) first
      (put_trade-Moves trade_id trade t' (put_colony buyer.colony_id c' s) first.valid ht priced)
      (omega (int_laws, debited, ≃ℤ_of_eq held, ≃ℤ_of_eq before))

-- From a valid state, accepting a trade leads to a valid state if it succeeds, and what leaves the
-- buyer's account enters escrow: balances plus escrow, less what was minted, stay the same.
pub accept_trade-Moves :
    (host : Host) (inp : Inputs) (s : AppState) (token trade_id : Ident)
    → IsValid s
    → Ensures
        (λ (r : TradeView × AppState). Moves s (pos 0) r.1)
        (accept_trade host inp s token trade_id)
unfolding accept_trade
accept_trade-Moves host inp s token trade_id v = Ensures-bind λ actor _.
    Ensures-or_fail _ λ trade ht. Ensures-guard _ _ λ ready. Ensures-guard _ _ λ _.
      Ensures-or_fail _ λ buyer _. Ensures-guard _ _ λ _. Ensures-guard _ _ λ _.
        Ensures-or_fail _ λ colony hc. Ensures-or_fail _ λ acc ha. Ensures-guard _ _ λ enough.
          Ensures-or_fail _ λ buyer_sig _. Ensures-or_fail _ λ env_id _. Ensures-or_fail _ λ sig _.
            Ensures-bind λ advanced moved. on_ok (
              accepted-Moves host _ actor buyer trade advanced _ acc _ colony s trade_id v ht hc ha
                enough (status_eq→≡ trade.status offer_received (true_of_not _ ready)) moved refl
                refl)
