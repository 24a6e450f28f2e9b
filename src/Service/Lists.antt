-- ===== src/Service/Lists.antt =====
-- The lists and the dashboard of backend/internal/service/view.go, and `ListApprovals` of
-- backend/internal/service/approvals.go, on the state of the file store. Go visits a map in any
-- order; the list of its entries is one.
pub mod Trades
pub mod Scope
pub mod Accounts
pub mod Overview
use interstellar_trade_platf.Base.{
  ℕ, zero, suc, ◌+◌, Bool, true, not, ◌&&◌, ◌||◌, Option, none, some, List, [], ◌∷◌, ◌==◌, ltb,
  if◌then◌else◌, length, Result, ok, ◌>>=◌, ◌>>◌, or_fail,
}
use interstellar_trade_platf.Base.Map.{Map, lookup}
use interstellar_trade_platf.Base.Collect.{collect}
use interstellar_trade_platf.Base.Sort.{sort_slice}
use interstellar_trade_platf.Domain.Text.{Ident, Text}
use interstellar_trade_platf.Domain.Errors.{AppError, internal_err}
use interstellar_trade_platf.Domain.State.{
  super_admin, Account, User, Colony, Trade, PendingAction, AppState,
}
use interstellar_trade_platf.Domain.Views.{
  UserView, ColonyView, AccountView, TradeView, ColonySummary, Dashboard,
}
use interstellar_trade_platf.Domain.Order.{
  newer, sort_trades, sort_users, sort_colonies, sort_accounts,
}
use interstellar_trade_platf.Domain.Host.{Host}
use interstellar_trade_platf.Service.Actor.{has_role, can_manage_colony, actor_from_token}
use interstellar_trade_platf.Service.View.{
  to_user_view, user_view_for, to_colony_view, to_trade_view, trade_visible_to_actor,
}

-- The loop of filterTradesForActor.
unfoldable pub visible_views : AppState → User → List TradeView
visible_views state actor =
    collect (λ t. trade_visible_to_actor t actor) (to_trade_view state) state.trades

-- filterTradesForActor
unfoldable pub filter_trades_for_actor : AppState → User → List TradeView
filter_trades_for_actor state actor = sort_trades (visible_views state actor)

-- ListTrades
unfoldable pub list_trades : Host → ℕ → AppState → Ident → Result AppError (List TradeView)
list_trades host wall state token = do
  actor ← actor_from_token host wall state token
  ok (filter_trades_for_actor state actor)

-- The loop of ListColonies.
unfoldable pub colony_views : AppState → List ColonyView
colony_views state = collect (λ c. true) to_colony_view state.colonies

-- ListColonies
unfoldable pub list_colonies : Host → ℕ → AppState → Ident → Result AppError (List ColonyView)
list_colonies host wall state token = do
  actor ← actor_from_token host wall state token
  ok (sort_colonies (colony_views state))

-- The loop of ListUsers.
unfoldable pub user_views_for : AppState → User → List UserView
user_views_for state actor = collect (λ u. true) (user_view_for actor) state.users

-- ListUsers
unfoldable pub list_users : Host → ℕ → AppState → Ident → Result AppError (List UserView)
list_users host wall state token = do
  actor ← actor_from_token host wall state token
  ok (sort_users (user_views_for state actor))

-- What is shown of an account of the colony whose user is there.
unfoldable pub to_account_view : Colony → Account → User → AccountView
to_account_view colony acc user = record {
  user_id = acc.user_id;
  username = user.username;
  display_name = user.display_name;
  colony_id = acc.colony_id;
  colony_name = colony.name;
  balance = acc.balance;
}

-- One round of the inner loop of ListAccounts, followed by `rest`.
unfoldable pub append_account : Option User → Colony → Account → List AccountView → List AccountView
append_account none colony acc rest = rest
append_account (some user) colony acc rest = to_account_view colony acc user ∷ rest

-- The inner loop of ListAccounts, followed by `rest`.
unfoldable pub account_views : Map User → Colony → Map Account → List AccountView → List AccountView
account_views users colony [] rest = rest
account_views users colony (e ∷ m) rest =
    append_account (lookup e.0 users) colony e.1 (account_views users colony m rest)

-- The outer loop of ListAccounts.
unfoldable pub visible_accounts : Map User → User → Map Colony → List AccountView
visible_accounts users actor [] = []
visible_accounts users actor (e ∷ m) =
    let rest = visible_accounts users actor m in
    if not (has_role actor super_admin) && not (actor.colony_id == e.1.id)
    then rest
    else account_views users e.1 e.1.accounts rest

-- ListAccounts
unfoldable pub list_accounts : Host → ℕ → AppState → Ident → Result AppError (List AccountView)
list_accounts host wall state token = do
  actor ← actor_from_token host wall state token
  ok (sort_accounts (visible_accounts state.users actor state.colonies))

-- The comparison of ListApprovals.
unfoldable pub action_before : PendingAction → PendingAction → Bool
action_before a b = newer a.proposed_at a.id b.proposed_at b.id

-- The loop of ListApprovals.
unfoldable pub manageable_actions : AppState → User → List PendingAction
manageable_actions state actor =
    collect (λ a. can_manage_colony actor a.colony_id) (λ a. a) state.pending_actions

-- ListApprovals
unfoldable pub list_approvals : Host → ℕ → AppState → Ident → Result AppError (List PendingAction)
list_approvals host wall state token = do
  actor ← actor_from_token host wall state token
  ok (sort_slice action_before (manageable_actions state actor))

account_count : Map Colony → ℕ
account_count [] = 0
account_count (e ∷ m) = length e.1.accounts + account_count m

-- The identifiers of the colonies that the dashboard summarizes.
unfoldable pub summarized : AppState → User → List Ident
summarized state actor =
    collect (λ c. has_role actor super_admin || actor.colony_id == c.id) (λ c. c.id) state.colonies

unfoldable pub trades_involved : Ident → Map Trade → ℕ
trades_involved colony_id [] = 0
trades_involved colony_id (e ∷ m) =
    if e.1.seller_colony_id == colony_id || e.1.buyer_colony_id == colony_id
    then suc (trades_involved colony_id m)
    else trades_involved colony_id m

-- The last loop of Dashboard. A colony that does not stand under its identifier is a nil pointer
-- there: the panic ends the request with this error.
unfoldable pub colony_summaries : AppState → List Ident → Result AppError (List ColonySummary)
colony_summaries state [] = ok []
colony_summaries state (id ∷ ids) =
    or_fail (lookup id state.colonies) (internal_err "internal server error") >>= λ colony.
    colony_summaries state ids >>= λ rest. ok (
      record {
        colony = to_colony_view colony;
        accounts = length colony.accounts;
        trades_involved = trades_involved id state.trades;
      }
      ∷ rest)

-- `trades[:n]` of a list that is longer
unfoldable pub take {ℓ} : {A : Type ℓ} → ℕ → List A → List A
take n [] = []
take zero (x ∷ xs) = []
take (suc n) (x ∷ xs) = x ∷ take n xs

-- Dashboard
unfoldable pub dashboard : Host → ℕ → AppState → Ident → Result AppError Dashboard
unfolding account_count
dashboard host wall state token = do
  actor ← actor_from_token host wall state token
  summaries ← colony_summaries state (sort_slice ltb (summarized state actor))
  let trades = filter_trades_for_actor state actor
  ok (record {
    user = to_user_view actor;
    counts = record {
      colonies = length state.colonies;
      users = length state.users;
      trades = length trades;
      accounts = account_count state.colonies;
    };
    colony_summaries = summaries;
    recent_trades = take 10 trades;
  })
