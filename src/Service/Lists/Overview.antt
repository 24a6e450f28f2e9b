-- ===== src/Service/Lists/Overview.antt =====
-- `Dashboard` beside the lists of backend/internal/service/view.go.
use interstellar_trade_platf.Base.{
  ℕ, zero, suc, ◌≤◌, ◌≡◌, refl, ◌∙◌, List, [], ◌∷◌, length, arith, ok, Ensures, on_ok, Ensures-bind,
  Ensures-guard, Ensures-ok, bound_ok,
}
use interstellar_trade_platf.Base.Sort.{length-sort_slice}
use interstellar_trade_platf.Base.Collect.{length-collect_all}
use interstellar_trade_platf.Domain.Text.{Ident}
use interstellar_trade_platf.Domain.State.{AppState, User}
use interstellar_trade_platf.Domain.Views.{UserView, ColonyView, TradeView, Dashboard}
use interstellar_trade_platf.Domain.Order.{sort_users, sort_colonies, user_before, colony_before}
use interstellar_trade_platf.Domain.Host.{Host}
use interstellar_trade_platf.Service.Actor.{actor_from_token, actor_from_token_no_mfa}
use interstellar_trade_platf.Service.View.{to_colony_view, user_view_for, me}
use interstellar_trade_platf.Service.Lists.{
  list_trades, list_users, list_colonies, user_views_for, colony_views, filter_trades_for_actor,
  take, dashboard,
}

length-take : {A : Type 0} (n : ℕ) (l : List A) → length (take n l) ≤ n
unfolding take
length-take zero [] = omega arith
length-take zero (x ∷ l) = omega arith
length-take (suc n) [] = omega arith
length-take (suc n) (x ∷ l) = omega (arith, length-take n l)

-- The dashboard says what the lists say.
pub record Summarizes (d : Dashboard) (user : UserView) (users : List UserView)
    (colonies : List ColonyView) (trades : List TradeView) : Type 0 where
  pub caller : d.user ≡ user
  pub counted_users : d.counts.users ≡ length users
  pub counted_colonies : d.counts.colonies ≡ length colonies
  pub counted_trades : d.counts.trades ≡ length trades
  pub recent : d.recent_trades ≡ take 10 trades
  pub at_most : length d.recent_trades ≤ 10

admitted-without_mfa :
    (host : Host) (wall : ℕ) (state : AppState) (token : Ident)
    → Ensures
        (λ u. actor_from_token_no_mfa wall state token ≡ ok u)
        (actor_from_token host wall state token)
unfolding actor_from_token
admitted-without_mfa host wall state token =
    Ensures-bind λ u known. Ensures-guard _ _ λ g. on_ok known

length-users :
    (state : AppState) (actor : User)
    → length (sort_users (user_views_for state actor)) ≡ length state.users
unfolding sort_users user_views_for
length-users state actor =
    length-sort_slice user_before _
    ∙ length-collect_all _ (user_view_for actor) state.users λ u. refl

length-colonies :
    (state : AppState) → length (sort_colonies (colony_views state)) ≡ length state.colonies
unfolding sort_colonies colony_views
length-colonies state =
    length-sort_slice colony_before _ ∙ length-collect_all _ to_colony_view state.colonies λ c. refl

-- Where the dashboard and the lists are served to one caller from one state, the dashboard names
-- the caller, counts what the lists hold of users, colonies and trades, and its recent trades are
-- the first ten of the list of trades, or all if there are fewer.
pub dashboard-Summarizes :
    (host : Host) (wall : ℕ) (state : AppState) (token : Ident) (d : Dashboard) (user : UserView)
    (users : List UserView) (colonies : List ColonyView) (trades : List TradeView)
    → dashboard host wall state token ≡ ok d
    → me wall state token ≡ ok user
    → list_users host wall state token ≡ ok users
    → list_colonies host wall state token ≡ ok colonies
    → list_trades host wall state token ≡ ok trades
    → Summarizes d user users colonies trades
unfolding dashboard me list_users list_colonies list_trades
dashboard-Summarizes host wall state token d user users colonies trades hd hm hu hc ht =
    let (actor, known, rest) = bound_ok hd in
    let (summaries, _, built) = bound_ok rest in
    let (a1, k1, r1) = bound_ok hm in
    let (a2, k2, r2) = bound_ok hu in
    let (a3, k3, r3) = bound_ok hc in
    let (a4, k4, r4) = bound_ok ht in
    let admitted = Ensures-ok actor (admitted-without_mfa host wall state token) known in
    let seen : filter_trades_for_actor state actor ≡ trades = cc in
    let shown : take 10 (filter_trades_for_actor state actor) ≡ d.recent_trades = cc in
    let all_users = length-users state a2 in
    let all_colonies = length-colonies state in
    record {
      caller = cc;
      counted_users = cc;
      counted_colonies = cc;
      counted_trades = cc;
      recent = cc;
      at_most = rw (← shown) (length-take 10 (filter_trades_for_actor state actor));
    }
