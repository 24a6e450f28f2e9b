-- ===== src/Service/View.antt =====
-- The read side of backend/internal/service/view.go: what is shown of a user, a colony and a trade,
-- and to whom.
use interstellar_trade_platf.Base.{
  ℕ, Bool, false, not, ◌&&◌, ◌||◌, Option, none, some, List, [], ◌∷◌, ◌==◌, leb, if◌then◌else◌,
  Result, ok, ◌>>=◌, ◌>>◌, fail_if, or_fail,
}
use interstellar_trade_platf.Base.Map.{lookup}
use interstellar_trade_platf.Domain.Text.{Ident, Text, empty}
use interstellar_trade_platf.Domain.Clock.{blank}
use interstellar_trade_platf.Domain.Amount.{effective_mint_cap}
use interstellar_trade_platf.Domain.Errors.{AppError, forbidden, not_found}
use interstellar_trade_platf.Domain.State.{
  Role, super_admin, colony_admin, trader, relay_operator, other_role, User, Colony, Trade,
  AppState,
}
use interstellar_trade_platf.Domain.Views.{UserView, ColonyView, TradeView}
use interstellar_trade_platf.Domain.Host.{Host}
use interstellar_trade_platf.Service.Actor.{has_role, actor_from_token, actor_from_token_no_mfa}

-- The alphabetical order of the role names, for `sort.Strings`.
role_order : Role → ℕ
role_order colony_admin = 0
role_order relay_operator = 1
role_order super_admin = 2
role_order trader = 3
role_order other_role = 4

insert_role : Role → List Role → List Role
unfolding role_order
insert_role r [] = r ∷ []
insert_role r (x ∷ xs) =
    if leb (role_order r) (role_order x) then r ∷ x ∷ xs else x ∷ insert_role r xs

unfoldable pub sort_roles : List Role → List Role
unfolding insert_role
sort_roles [] = []
sort_roles (r ∷ rs) = insert_role r (sort_roles rs)

-- toUserView, of a user that is there
unfoldable pub to_user_view : User → UserView
to_user_view u = record {
  id = u.id;
  username = u.username;
  display_name = u.display_name;
  colony_id = u.colony_id;
  roles = sort_roles u.roles;
  created_at = u.created_at;
  active = u.active;
  mfa_enabled = u.mfa_enabled;
}

-- userViewFor
unfoldable pub user_view_for : User → User → UserView
user_view_for actor u =
    if has_role actor super_admin
      || (actor.id == u.id || not (actor.colony_id == empty) && actor.colony_id == u.colony_id)
    then to_user_view u
    else record {
      id = u.id;
      username = u.username;
      display_name = u.display_name;
      colony_id = u.colony_id;
      roles = [];
      created_at = blank;
      active = u.active;
      mfa_enabled = false;
    }

-- toColonyView, of a colony that is there
unfoldable pub to_colony_view : Colony → ColonyView
to_colony_view c = record {
  id = c.id;
  name = c.name;
  public_key = c.public_key;
  created_at = c.created_at;
  trusted_colonies = c.trusted_colonies;
  net_obligations = c.net_obligations;
  net_claims = c.net_claims;
  mint_cap = effective_mint_cap c;
  minted_total = c.minted_total;
  require_dual_control = c.require_dual_control;
}

user_name : Option User → Text
user_name none = []
user_name (some u) = u.display_name

colony_name : Option Colony → Text
colony_name none = []
colony_name (some c) = c.name

-- toTradeView
unfoldable pub to_trade_view : AppState → Trade → TradeView
unfolding user_name colony_name
to_trade_view state t = record {
  id = t.id;
  asset = t.asset;
  price = t.price;
  seller_user_id = t.seller_user_id;
  seller_name = user_name (lookup t.seller_user_id state.users);
  seller_colony_id = t.seller_colony_id;
  seller_colony_name = colony_name (lookup t.seller_colony_id state.colonies);
  buyer_user_id = t.buyer_user_id;
  buyer_name = user_name (lookup t.buyer_user_id state.users);
  buyer_colony_id = t.buyer_colony_id;
  buyer_colony_name = colony_name (lookup t.buyer_colony_id state.colonies);
  status = t.status;
  created_at = t.created_at;
  accepted_at = t.accepted_at;
  settled_at = t.settled_at;
  completed_at = t.completed_at;
  offer_envelope_id = t.offer_envelope_id;
  acceptance_envelope_id = t.acceptance_envelope_id;
  settlement_envelope_id = t.settlement_envelope_id;
  expires_at = t.expires_at;
  refunded_at = t.refunded_at;
}

-- tradeVisibleToActor, of a trade and an actor that are there
unfoldable pub trade_visible_to_actor : Trade → User → Bool
trade_visible_to_actor t actor =
    has_role actor super_admin
    || (actor.id == t.seller_user_id
        || actor.id == t.buyer_user_id
        || not (actor.colony_id == empty)
          && (actor.colony_id == t.seller_colony_id || actor.colony_id == t.buyer_colony_id))

-- GetTrade
unfoldable pub get_trade : Host → ℕ → AppState → Ident → Ident → Result AppError TradeView
get_trade host wall state token trade_id = do
  actor ← actor_from_token host wall state token
  trade ← or_fail (lookup trade_id state.trades) (not_found "trade not found")
  fail_if (not (trade_visible_to_actor trade actor)) (forbidden "not allowed to view this trade")
  ok (to_trade_view state trade)

-- Me
unfoldable pub me : ℕ → AppState → Ident → Result AppError UserView
me wall state token = do actor ← actor_from_token_no_mfa wall state token; ok (to_user_view actor)
