-- ===== src/Service/Lists/Trades.antt =====
-- `ListTrades` and `GetTrade` of backend/internal/service/view.go.
use interstellar_trade_platf.Base.{
  ℕ, true, ◌≡◌, refl, sym, ap, ◌∙◌, some, List, ok, ◌>>=◌, fail_if, or_fail, Ensures, on_ok,
  Ensures-bind, Ensures-or_fail, Ensures-guard, Ensures-ok, bound_ok, true_of_not,
}
use interstellar_trade_platf.Base.Map.{Map, lookup, Distinct}
use interstellar_trade_platf.Base.Sort.{IsOrdered, sort_slice, sort_slice-Mem, sort_slice-IsOrdered}
use interstellar_trade_platf.Base.Collect.{collect, collected-IsViewOf, collect_complete}
use interstellar_trade_platf.Domain.Text.{Ident}
use interstellar_trade_platf.Domain.State.{Trade, User, AppState}
use interstellar_trade_platf.Domain.Views.{TradeView}
use interstellar_trade_platf.Domain.Order.{trade_before, sort_trades, trade_before_asym}
use interstellar_trade_platf.Domain.Host.{Host}
use interstellar_trade_platf.Service.Actor.{actor_from_token}
use interstellar_trade_platf.Service.View.{to_trade_view, trade_visible_to_actor, get_trade}
use interstellar_trade_platf.Service.Lists.{visible_views, filter_trades_for_actor, list_trades}
use mathlib.Core.List.{Memᴰ}

-- Every trade stands under its identifier, and no identifier twice.
pub record IsIndexed (m : Map Trade) : Type 0 where
  pub named : (k : Ident) (t : Trade) → lookup k m ≡ some t → t.id ≡ k
  pub distinct : Distinct m

module _ (host : Host) (wall : ℕ) (state : AppState) (token : Ident) (actor : User)
    (known : actor_from_token host wall state token ≡ ok actor) where
  get_trade_seen :
      (id : Ident) (t : Trade)
      → lookup id state.trades ≡ some t
      → trade_visible_to_actor t actor ≡ true
      → get_trade host wall state token id ≡ ok (to_trade_view state t)
  unfolding get_trade ◌>>=◌ or_fail fail_if
  get_trade_seen id t found seen = rw (known, found, seen) refl

  get_trade-IsViewOf :
      (id : Ident)
      → Ensures
          (λ v.
            (t : Trade) × (lookup id state.trades ≡ some t)
            × (trade_visible_to_actor t actor ≡ true)
            × (v ≡ to_trade_view state t))
          (get_trade host wall state token id)
  unfolding get_trade
  get_trade-IsViewOf id = Ensures-bind λ a same. Ensures-or_fail _ λ t found.
      Ensures-guard _ _ λ seen.
        let is_actor : a ≡ actor = cc in
        on_ok (t, found, rw (← is_actor) (true_of_not _ seen), refl)

-- The list has the newest trade first, and shows exactly what GetTrade shows, trade by trade.
pub record ListsVisible (host : Host) (wall : ℕ) (state : AppState) (token : Ident)
    (views : List TradeView) : Type 0 where
  pub ordered : IsOrdered trade_before views
  pub shown : (v : TradeView) → Memᴰ v views → get_trade host wall state token v.id ≡ ok v
  pub complete :
      (id : Ident) (v : TradeView) → get_trade host wall state token id ≡ ok v → Memᴰ v views

-- Where every trade stands under its identifier, none twice, a list of trades that is served has
-- the newest trade first and shows a trade, as the single view of it does, exactly if that view is
-- served to the same caller.
pub list_trades-ListsVisible :
    (host : Host) (wall : ℕ) (state : AppState) (token : Ident) (views : List TradeView)
    → IsIndexed state.trades
    → list_trades host wall state token ≡ ok views
    → ListsVisible host wall state token views
unfolding list_trades filter_trades_for_actor visible_views sort_trades to_trade_view
list_trades-ListsVisible host wall state token views h e =
    let (actor, known, sorted) = bound_ok e in
    let listed = collect (λ t. trade_visible_to_actor t actor) (to_trade_view state) state.trades in
    let same : sort_slice trade_before listed ≡ views = cc in
    record {
      ordered = rw (← same) (sort_slice-IsOrdered trade_before trade_before_asym listed);
      shown = λ v m.
          let i =
            collected-IsViewOf _ _ state.trades v h.distinct
              ((sort_slice-Mem trade_before v listed).0 (rw (← same) at m)) in
          let own : v.id ≡ i.key =
            ap (λ (x : TradeView). x.id) i.viewed ∙ h.named i.key i.value i.found in
          ap (λ x. get_trade host wall state token x) own
          ∙ get_trade_seen host wall state token actor known i.key i.value i.found i.kept
          ∙ ap ok (sym i.viewed);
      complete = λ id v got.
          let (t, found, seen, viewed) =
            Ensures-ok v (get_trade-IsViewOf host wall state token actor known id) got in
          rw (← same) (
            (sort_slice-Mem trade_before v listed).1
              (rw viewed (collect_complete _ _ state.trades id t found seen)));
    }
