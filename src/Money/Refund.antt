-- ===== src/Money/Refund.antt =====
-- The money of `decideRefund` and `applyRefund` (backend/internal/service/trade_lifecycle.go).
use interstellar_trade_platf.Base.{
  ◌≡◌, refl, ◌∙◌, ap, ok, some, Ensures, on_ok, Ensures-bind, Ensures-or_fail, Ensures-map,
}
use interstellar_trade_platf.Base.Int.{ℤ, pos, ◌-ℤ◌, ≃ℤ_of_eq, int_laws}
use interstellar_trade_platf.Base.Map.{lookup, All-lookup}
use interstellar_trade_platf.Domain.Text.{Ident}
use interstellar_trade_platf.Domain.Amount.{add_checked}
use interstellar_trade_platf.Domain.Payload.{RefundReason, EnvelopeType, cancel_request}
use interstellar_trade_platf.Domain.Status.{refund_pending_export, refunded, is_escrowed}
use interstellar_trade_platf.Domain.State.{
  AppState, Account, Colony, Trade, Envelope, EntryType, Detail,
}
use interstellar_trade_platf.Domain.Trade.{advance_trade}
use interstellar_trade_platf.Domain.Host.{Host, Inputs}
use interstellar_trade_platf.Service.Refund.{decide_refund, apply_refund, Imported, note_trigger}
use interstellar_trade_platf.Service.Ledger.{append_ledger}
use interstellar_trade_platf.Service.Tx.{put_colony, put_trade, modify_colony, set_balance}
use interstellar_trade_platf.Money.{escrow, IsFunded, AreFunded, IsPriced, IsValid, Moves}
use interstellar_trade_platf.Money.Writes.{
  put_colony-Moves, put_trade-Moves, modify_colony-Moves, KeepsMoney, Moves-trans, Moves-eq,
  set_balance-net, set_balance-AreFunded, net_same, AreFunded-same, advance_trade_facts,
  IsPriced-status, escrow_held, escrow_none, add_checked_funded,
}

note_trigger_keeps :
    (kind : EnvelopeType) (id : Ident) (t : Trade)
    → ((note_trigger kind id t).status ≡ t.status) × ((note_trigger kind id t).price ≡ t.price)
unfolding note_trigger
note_trigger_keeps cancel_request id t = (refl, refl)
note_trigger_keeps _ id t = (refl, refl)

-- The writes of a decided refund.
decided-Moves :
    (target_key trade_key : Ident) (g : Colony → Colony) (trade a t' : Trade) (s : AppState)
    → IsValid s
    → KeepsMoney g
    → lookup trade_key s.trades ≡ some trade
    → advance_trade trade refund_pending_export ≡ ok a
    → t'.status ≡ a.status
    → t'.price ≡ a.price
    → Moves s (trade.price -ℤ escrow trade) (put_trade trade_key t' (modify_colony target_key g s))
unfolding is_escrowed
decided-Moves target_key trade_key g trade a t' s v keeps ht h st pr =
    let (e, _) = advance_trade_facts trade a refund_pending_export h in
    let st' : t'.status ≡ refund_pending_export = st ∙ ap (λ (x : Trade). x.status) e in
    let pr' : t'.price ≡ trade.price = pr ∙ ap (λ (x : Trade). x.price) e in
    let p =
      IsPriced-status trade t' refund_pending_export st' pr' tt
        (All-lookup IsPriced trade_key trade s.trades v.priced ht) in
    let held = escrow_held t' refund_pending_export st' refl ∙ pr' in
    let first = modify_colony-Moves target_key g s keeps v in
    Moves-trans (trade.price -ℤ escrow trade) first
      (put_trade-Moves trade_key trade t' (modify_colony target_key g s) first.valid ht p)
      (omega (int_laws, ≃ℤ_of_eq held))

pub decide_refund-Moves :
    (host : Host) (inp : Inputs) (s : AppState) (target_key trade_key : Ident)
    (source target : Colony) (trade : Trade) (trigger : Envelope) (why : RefundReason)
    → IsValid s
    → lookup trade_key s.trades ≡ some trade
    → Ensures
        (λ (r : Imported). Moves s (trade.price -ℤ escrow trade) r.2)
        (decide_refund host inp s target_key trade_key source target trade trigger why)
unfolding decide_refund append_ledger
decide_refund-Moves host inp s target_key trade_key source target trade trigger why v ht =
    Ensures-or_fail _ λ env_id _. Ensures-or_fail _ λ sig _. Ensures-bind λ a moved.
      let (st, pr) = note_trigger_keeps trigger.kind trigger.id a in
      on_ok (
        decided-Moves target_key trade_key _ trade a _ s v (λ c. (refl, refl, refl)) ht moved st pr)

-- The buyer's colony and the trade after a refund.
refunded-Moves :
    (key trade_key : Ident) (trade a t' : Trade) (acc : Account) (balance : ℤ) (c c' : Colony)
    (s : AppState)
    → IsValid s
    → lookup trade_key s.trades ≡ some trade
    → lookup key s.colonies ≡ some c
    → lookup trade.buyer_user_id c.accounts ≡ some acc
    → add_checked acc.balance trade.price ≡ ok balance
    → advance_trade trade refunded ≡ ok a
    → t'.status ≡ a.status
    → t'.price ≡ a.price
    → c'.accounts ≡ (set_balance trade.buyer_user_id acc balance c).accounts
    → c'.minted_total ≡ c.minted_total
    → c'.mint_cap ≡ c.mint_cap
    → Moves s (trade.price -ℤ escrow trade) (put_trade trade_key t' (put_colony key c' s))
unfolding is_escrowed
refunded-Moves key trade_key trade a t' acc balance c c' s v ht hc ha sum h st pr accs mint cap =
    let (e, _) = advance_trade_facts trade a refunded h in
    let st' : t'.status ≡ refunded = st ∙ ap (λ (x : Trade). x.status) e in
    let pr' : t'.price ≡ trade.price = pr ∙ ap (λ (x : Trade). x.price) e in
    let p = All-lookup IsPriced trade_key trade s.trades v.priced ht in
    let f = All-lookup AreFunded key c s.colonies v.funded hc in
    let (exact, low, high) =
      add_checked_funded acc.balance trade.price balance
        (All-lookup IsFunded trade.buyer_user_id acc c.accounts f.0 ha) (p.0, p.1) sum in
    let paid = set_balance trade.buyer_user_id acc balance c in
    let funded : AreFunded c' =
      AreFunded-same paid c' accs mint cap
        (set_balance-AreFunded trade.buyer_user_id acc balance c f (low, high)) in
    let first = put_colony-Moves key c c' s v hc funded in
    Moves-trans (trade.price -ℤ escrow trade) first
      (put_trade-Moves trade_key trade t' (put_colony key c' s) first.valid ht
        (IsPriced-status trade t' refunded st' pr' tt p))
      (omega (
        int_laws,
        ≃ℤ_of_eq (escrow_none t' refunded st' refl),
        ≃ℤ_of_eq exact,
        ≃ℤ_of_eq (net_same paid c' accs mint),
        set_balance-net trade.buyer_user_id acc balance c ha,
      ))

pub apply_refund-Moves :
    (host : Host) (inp : Inputs) (s : AppState) (trade_key : Ident) (trade : Trade)
    (actor_id : Ident) (kind : EntryType) (extra : Detail)
    → IsValid s
    → lookup trade_key s.trades ≡ some trade
    → Ensures
        (λ (r : Trade × AppState). Moves s (trade.price -ℤ escrow trade) r.1)
        (apply_refund host inp s trade_key trade actor_id kind extra)
unfolding apply_refund append_ledger
apply_refund-Moves host inp s trade_key trade actor_id kind extra v ht = Ensures-or_fail _ λ c hc.
    Ensures-or_fail _ λ acc ha. Ensures-bind λ balance sum. Ensures-bind λ a moved. on_ok (
      refunded-Moves trade.buyer_colony_id trade_key trade a _ acc balance c _ s v ht hc ha sum
        moved refl refl refl refl refl)

-- A decision about a trade in escrow moves nothing.
pub decide_refund_held-Moves :
    (host : Host) (inp : Inputs) (s : AppState) (target_key trade_key : Ident)
    (source target : Colony) (trade : Trade) (trigger : Envelope) (why : RefundReason)
    → IsValid s
    → lookup trade_key s.trades ≡ some trade
    → escrow trade ≡ trade.price
    → Ensures
        (λ (r : Imported). Moves s (pos 0) r.2)
        (decide_refund host inp s target_key trade_key source target trade trigger why)
decide_refund_held-Moves host inp s target_key trade_key source target trade trigger why v ht held =
    Ensures-map (λ r m. Moves-eq m (omega (int_laws, ≃ℤ_of_eq held)))
      (decide_refund-Moves host inp s target_key trade_key source target trade trigger why v ht)

-- So does a refund of a trade in escrow: the price goes back from escrow to the buyer.
pub apply_refund_held-Moves :
    (host : Host) (inp : Inputs) (s : AppState) (trade_key : Ident) (trade : Trade)
    (actor_id : Ident) (kind : EntryType) (extra : Detail)
    → IsValid s
    → lookup trade_key s.trades ≡ some trade
    → escrow trade ≡ trade.price
    → Ensures
        (λ (r : Trade × AppState). Moves s (pos 0) r.1)
        (apply_refund host inp s trade_key trade actor_id kind extra)
apply_refund_held-Moves host inp s trade_key trade actor_id kind extra v ht held =
    Ensures-map (λ r m. Moves-eq m (omega (int_laws, ≃ℤ_of_eq held)))
      (apply_refund-Moves host inp s trade_key trade actor_id kind extra v ht)
