-- ===== src/Tests/Lists.antt =====
-- The lists, the ledger pages, the dashboard and the sweep on the demo state.
use interstellar_trade_platf.Base.{
  ℕ, zero, ◌+◌, ◌-◌, ◌*◌, ◌≡◌, refl, sym, ap, subst, ◌∙◌, inl, inr, arith, true, false, Option,
  none, List, [], ◌∷◌, length, Result, ok, err,
}
use interstellar_trade_platf.Base.Int.{pos}
use interstellar_trade_platf.Base.Map.{Map, All, lookup, Distinct, lookup-cases, no_entry}
use interstellar_trade_platf.Domain.Errors.{AppError}
use interstellar_trade_platf.Domain.State.{
  AppState, Colony, Trade, User, super_admin, colony_created, peer_trusted,
}
use interstellar_trade_platf.Domain.Views.{Dashboard}
use interstellar_trade_platf.Service.Actor.{actor_from_token}
use interstellar_trade_platf.Service.Ledger.{append_ledger}
use interstellar_trade_platf.Service.View.{me, to_user_view}
use interstellar_trade_platf.Service.Lists.{
  list_trades, list_users, list_colonies, list_accounts, list_approvals, dashboard,
}
use interstellar_trade_platf.Service.Lists.Trades.{
  IsIndexed, ListsVisible, list_trades-ListsVisible,
}
use interstellar_trade_platf.Service.Lists.Scope.{
  ListsUsers, list_users-ListsUsers, ListsManageable, list_approvals-ListsManageable,
}
use interstellar_trade_platf.Service.Lists.Accounts.{ListsAccounts, list_accounts-ListsAccounts}
use interstellar_trade_platf.Service.Lists.Overview.{Summarizes, dashboard-Summarizes}
use interstellar_trade_platf.Service.Page.{list_ledger_page}
use interstellar_trade_platf.Service.Sweep.{sweep_expired}
use interstellar_trade_platf.Service.Sweep.Closes.{SweepsAll, sweep_expired-SweepsAll}
use interstellar_trade_platf.Tests.Demo.{
  demo_host, demo_inputs, demo_state, demo_user, seller_colony,
}

module _ {A : Type 0} where
  abbrev value_of : Result AppError (List A) → List A
  value_of (ok v) = v
  value_of (err e) = []

abbrev wall : ℕ
wall = 1000000000000

listed_trades_succeeds :
    list_trades demo_host wall demo_state 1
    ≡ ok (value_of (list_trades demo_host wall demo_state 1))
unfolding list_trades interstellar_trade_platf.Base.◌>>=◌ actor_from_token
    interstellar_trade_platf.Service.Actor.actor_from_token_no_mfa
    interstellar_trade_platf.Base.fail_if interstellar_trade_platf.Base.or_fail lookup
    interstellar_trade_platf.Service.Actor.active_user
listed_trades_succeeds = refl

listed_users_succeeds :
    list_users demo_host wall demo_state 2 ≡ ok (value_of (list_users demo_host wall demo_state 2))
unfolding list_users interstellar_trade_platf.Base.◌>>=◌ actor_from_token
    interstellar_trade_platf.Service.Actor.actor_from_token_no_mfa
    interstellar_trade_platf.Base.fail_if interstellar_trade_platf.Base.or_fail lookup
    interstellar_trade_platf.Service.Actor.active_user
listed_users_succeeds = refl

listed_accounts_succeeds :
    list_accounts demo_host wall demo_state 3
    ≡ ok (value_of (list_accounts demo_host wall demo_state 3))
unfolding list_accounts interstellar_trade_platf.Base.◌>>=◌ actor_from_token
    interstellar_trade_platf.Service.Actor.actor_from_token_no_mfa
    interstellar_trade_platf.Base.fail_if interstellar_trade_platf.Base.or_fail lookup
    interstellar_trade_platf.Service.Actor.active_user
listed_accounts_succeeds = refl

listed_approvals_succeeds :
    list_approvals demo_host wall demo_state 1
    ≡ ok (value_of (list_approvals demo_host wall demo_state 1))
unfolding list_approvals interstellar_trade_platf.Base.◌>>=◌ actor_from_token
    interstellar_trade_platf.Service.Actor.actor_from_token_no_mfa
    interstellar_trade_platf.Base.fail_if interstellar_trade_platf.Base.or_fail lookup
    interstellar_trade_platf.Service.Actor.active_user
listed_approvals_succeeds = refl

listed_colonies_succeeds :
    list_colonies demo_host wall demo_state 1
    ≡ ok (value_of (list_colonies demo_host wall demo_state 1))
unfolding list_colonies interstellar_trade_platf.Base.◌>>=◌ actor_from_token
    interstellar_trade_platf.Service.Actor.actor_from_token_no_mfa
    interstellar_trade_platf.Base.fail_if interstellar_trade_platf.Base.or_fail lookup
    interstellar_trade_platf.Service.Actor.active_user
listed_colonies_succeeds = refl

all_users_succeeds :
    list_users demo_host wall demo_state 1 ≡ ok (value_of (list_users demo_host wall demo_state 1))
unfolding list_users interstellar_trade_platf.Base.◌>>=◌ actor_from_token
    interstellar_trade_platf.Service.Actor.actor_from_token_no_mfa
    interstellar_trade_platf.Base.fail_if interstellar_trade_platf.Base.or_fail lookup
    interstellar_trade_platf.Service.Actor.active_user
all_users_succeeds = refl

-- User 1 sees three trades, user 3 one account.
visible_count_succeeds : length (value_of (list_trades demo_host wall demo_state 1)) ≡ 3
unfolding list_trades interstellar_trade_platf.Base.◌>>=◌ actor_from_token
    interstellar_trade_platf.Service.Actor.actor_from_token_no_mfa
    interstellar_trade_platf.Base.fail_if interstellar_trade_platf.Base.or_fail lookup
    interstellar_trade_platf.Service.Actor.active_user
    interstellar_trade_platf.Service.Lists.filter_trades_for_actor
    interstellar_trade_platf.Domain.Order.sort_trades interstellar_trade_platf.Base.Sort.sort_slice
    interstellar_trade_platf.Service.Lists.visible_views
    interstellar_trade_platf.Base.Collect.collect
    interstellar_trade_platf.Service.View.trade_visible_to_actor
    interstellar_trade_platf.Service.Actor.has_role
    interstellar_trade_platf.Service.Actor.contains_role
    interstellar_trade_platf.Base.Sort.insert_sorted interstellar_trade_platf.Domain.Order.newer
    interstellar_trade_platf.Domain.Order.stamp_before
    interstellar_trade_platf.Domain.Order.trade_before
    interstellar_trade_platf.Service.Actor.is_admin_user
    interstellar_trade_platf.Service.View.to_trade_view
visible_count_succeeds = refl

account_count_succeeds : length (value_of (list_accounts demo_host wall demo_state 3)) ≡ 1
unfolding list_accounts interstellar_trade_platf.Base.◌>>=◌ actor_from_token
    interstellar_trade_platf.Service.Actor.actor_from_token_no_mfa
    interstellar_trade_platf.Base.fail_if interstellar_trade_platf.Base.or_fail lookup
    interstellar_trade_platf.Service.Actor.active_user
    interstellar_trade_platf.Domain.Order.sort_accounts
    interstellar_trade_platf.Base.Sort.sort_slice
    interstellar_trade_platf.Service.Lists.visible_accounts
    interstellar_trade_platf.Service.Actor.has_role
    interstellar_trade_platf.Service.Actor.contains_role
    interstellar_trade_platf.Service.Lists.account_views
    interstellar_trade_platf.Service.Lists.append_account
    interstellar_trade_platf.Base.Sort.insert_sorted
account_count_succeeds = refl

IsIndexed-nil : IsIndexed []
IsIndexed-nil = record { named = λ k t found. absurd (no_entry k t found); distinct = tt }

IsIndexed-cons :
    (t : Trade) (m : Map Trade) → lookup t.id m ≡ none → IsIndexed m → IsIndexed ((t.id, t) ∷ m)
IsIndexed-cons t m fresh h = record {
  named = λ k u found. elim (lookup-cases (t.id, t) m k u found) [
    | inl (key, same) ↦ ap (λ (x : Trade). x.id) (sym same) ∙ sym key
    | inr later ↦ h.named k u later
  ];
  distinct = (fresh, h.distinct);
}

demo_trades-IsIndexed : IsIndexed demo_state.trades
unfolding lookup
demo_trades-IsIndexed =
    IsIndexed-cons _ _ refl (IsIndexed-cons _ _ refl (IsIndexed-cons _ _ refl IsIndexed-nil))

list_trades-ListsVisible_example :
    ListsVisible demo_host wall demo_state 1 (value_of (list_trades demo_host wall demo_state 1))
list_trades-ListsVisible_example =
    list_trades-ListsVisible demo_host wall demo_state 1
      (value_of (list_trades demo_host wall demo_state 1)) demo_trades-IsIndexed
      listed_trades_succeeds

demo_users-Distinct : Distinct demo_state.users
unfolding lookup
demo_users-Distinct = (refl, (refl, (refl, tt)))

list_users-ListsUsers_example :
    (actor : User) × (actor_from_token demo_host wall demo_state 2 ≡ ok actor)
    × ListsUsers actor demo_state.users (value_of (list_users demo_host wall demo_state 2))
list_users-ListsUsers_example =
    list_users-ListsUsers demo_host wall demo_state 2
      (value_of (list_users demo_host wall demo_state 2)) demo_users-Distinct listed_users_succeeds

demo_colonies-Distinct : Distinct demo_state.colonies
unfolding lookup
demo_colonies-Distinct = (refl, (refl, tt))

demo_accounts-Distinct : All (λ c. Distinct c.accounts) demo_state.colonies
unfolding lookup
demo_accounts-Distinct = ((refl, tt), ((refl, tt), tt))

list_accounts-ListsAccounts_example :
    (actor : User) × (actor_from_token demo_host wall demo_state 3 ≡ ok actor)
    × ListsAccounts actor demo_state (value_of (list_accounts demo_host wall demo_state 3))
list_accounts-ListsAccounts_example =
    list_accounts-ListsAccounts demo_host wall demo_state 3
      (value_of (list_accounts demo_host wall demo_state 3)) demo_colonies-Distinct
      demo_accounts-Distinct listed_accounts_succeeds

demo_actions-Distinct : Distinct demo_state.pending_actions
unfolding lookup
demo_actions-Distinct = (refl, tt)

list_approvals-ListsManageable_example :
    (actor : User) × (actor_from_token demo_host wall demo_state 1 ≡ ok actor)
    × ListsManageable actor demo_state.pending_actions
        (value_of (list_approvals demo_host wall demo_state 1))
list_approvals-ListsManageable_example =
    list_approvals-ListsManageable demo_host wall demo_state 1
      (value_of (list_approvals demo_host wall demo_state 1)) demo_actions-Distinct
      listed_approvals_succeeds

-- The dashboard of user 1, as its parts are shown elsewhere.
abbrev demo_dashboard : Dashboard → Result AppError Dashboard → Dashboard
demo_dashboard d (ok v) = v
demo_dashboard d (err e) = d

abbrev no_dashboard : Dashboard
no_dashboard = record {
  user = to_user_view (demo_user 1 10 []);
  counts = record { colonies = 0; users = 0; trades = 0; accounts = 0 };
  colony_summaries = [];
  recent_trades = [];
}

abbrev shown_dashboard : Dashboard
shown_dashboard = demo_dashboard no_dashboard (dashboard demo_host wall demo_state 1)

shown_dashboard_succeeds : dashboard demo_host wall demo_state 1 ≡ ok shown_dashboard
unfolding dashboard interstellar_trade_platf.Base.◌>>=◌ actor_from_token
    interstellar_trade_platf.Service.Actor.actor_from_token_no_mfa
    interstellar_trade_platf.Base.fail_if interstellar_trade_platf.Base.or_fail lookup
    interstellar_trade_platf.Service.Actor.active_user
    interstellar_trade_platf.Service.Lists.colony_summaries
    interstellar_trade_platf.Base.Sort.sort_slice interstellar_trade_platf.Service.Lists.summarized
    interstellar_trade_platf.Base.Collect.collect interstellar_trade_platf.Service.Actor.has_role
    interstellar_trade_platf.Service.Actor.contains_role
    interstellar_trade_platf.Base.Sort.insert_sorted
shown_dashboard_succeeds = refl

me_succeeds : me wall demo_state 1 ≡ ok (to_user_view (demo_user 1 10 (super_admin ∷ [])))
unfolding me interstellar_trade_platf.Base.◌>>=◌
    interstellar_trade_platf.Service.Actor.actor_from_token_no_mfa
    interstellar_trade_platf.Base.fail_if interstellar_trade_platf.Base.or_fail lookup
    interstellar_trade_platf.Service.Actor.active_user
me_succeeds = refl

dashboard-Summarizes_example :
    Summarizes shown_dashboard
      (to_user_view (demo_user 1 10 (super_admin ∷ [])))
      (value_of (list_users demo_host wall demo_state 1))
      (value_of (list_colonies demo_host wall demo_state 1))
      (value_of (list_trades demo_host wall demo_state 1))
dashboard-Summarizes_example =
    dashboard-Summarizes demo_host wall demo_state 1 shown_dashboard _ _ _ _
      shown_dashboard_succeeds me_succeeds all_users_succeeds listed_colonies_succeeds
      listed_trades_succeeds

-- A colony with two entries in its ledger.
abbrev logged_colony : Colony
logged_colony =
    append_ledger demo_host 5 (append_ledger demo_host 4 seller_colony colony_created 1 [])
      peer_trusted 1 []

abbrev logged_state : AppState
logged_state = record demo_state { colonies = (10, logged_colony) ∷ [] }

page_size_succeeds :
    length (value_of (list_ledger_page demo_host wall logged_state 1 10 (pos 1) (pos 2))) ≡ 1
unfolding list_ledger_page interstellar_trade_platf.Base.◌>>=◌ actor_from_token
    interstellar_trade_platf.Service.Actor.actor_from_token_no_mfa
    interstellar_trade_platf.Base.fail_if interstellar_trade_platf.Base.or_fail lookup
    interstellar_trade_platf.Service.Actor.active_user
    interstellar_trade_platf.Service.Actor.has_role
    interstellar_trade_platf.Service.Actor.contains_role
    interstellar_trade_platf.Service.Actor.is_admin_user
    interstellar_trade_platf.Service.Page.page_of interstellar_trade_platf.Service.Page.page_limit
    interstellar_trade_platf.Service.Page.drop interstellar_trade_platf.Service.Page.page_end
    interstellar_trade_platf.Service.Page.not_before interstellar_trade_platf.Service.Page.seq_from
    interstellar_trade_platf.Service.Page.get_elem? interstellar_trade_platf.Service.Lists.take
    interstellar_trade_platf.Base.Search.search interstellar_trade_platf.Base.Search.search_loop
    interstellar_trade_platf.Base.Search.IsSmaller_wf native.Mathlib.Decide.dec_lt append_ledger
    interstellar_trade_platf.Service.Ledger.next_entry
page_size_succeeds = refl

demo_trades-Distinct : Distinct demo_state.trades
unfolding lookup
demo_trades-Distinct = (refl, (refl, (refl, tt)))

sweep_expired-SweepsAll_example :
    (closes : ℕ) × (s' : AppState) × (sweep_expired demo_host demo_inputs demo_state
      ≡ ok (closes, s'))
    × SweepsAll demo_inputs demo_state closes s'
sweep_expired-SweepsAll_example =
    sweep_expired-SweepsAll demo_host demo_inputs demo_state demo_trades-Distinct
