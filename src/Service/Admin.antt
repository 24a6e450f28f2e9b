-- ===== src/Service/Admin.antt =====
-- Colonies, trust and users: `CreateColony`, `TrustPeer` and `CreateUser` of
-- backend/internal/service/admin.go, and `newUser` of common.go. An identifier holds no spaces.
use interstellar_trade_platf.Base.{
  ℕ, Bool, true, false, not, ◌&&◌, ◌||◌, List, [], ◌∷◌, ◌==◌, is_some, length, ltb, if◌then◌else◌,
  Result, ok, ◌>>=◌, ◌>>◌, fail_if, or_fail,
}
use interstellar_trade_platf.Base.Int.{pos}
use interstellar_trade_platf.Base.Map.{Map, lookup, insert}
use interstellar_trade_platf.Domain.Text.{
  Ident, Text, empty, is_empty, trim_space, to_lower, equal_fold,
}
use interstellar_trade_platf.Domain.Clock.{format_time, blank}
use interstellar_trade_platf.Domain.Errors.{AppError, bad_request, not_found, forbidden, conflict}
use interstellar_trade_platf.Domain.Roles.{normalize_roles}
use interstellar_trade_platf.Domain.State.{
  AppState, Account, Colony, User, Role, super_admin, trader, colony_created, peer_trusted,
  user_created, ident, text, role_list,
}
use interstellar_trade_platf.Domain.Views.{ColonyView, UserView}
use interstellar_trade_platf.Domain.Host.{Host, Inputs}
use interstellar_trade_platf.Service.Actor.{
  has_role, contains_role, can_manage_colony, actor_from_token,
}
use interstellar_trade_platf.Service.Ledger.{append_ledger}
use interstellar_trade_platf.Service.View.{to_colony_view, to_user_view}
use interstellar_trade_platf.Service.Tx.{put_colony, internal}

-- The loop of `CreateColony` over the names in use.
unfoldable pub name_taken : Text → Map Colony → Bool
name_taken name [] = false
name_taken name (e ∷ m) = equal_fold e.1.name name || name_taken name m

-- userExistsByUsername, findUserByUsername
unfoldable pub username_taken : Text → Map User → Bool
username_taken name [] = false
username_taken name (e ∷ m) = equal_fold e.1.username name || username_taken name m

-- NormalizeUsername
abbrev pub normalize_username : Text → Text
normalize_username name = to_lower (trim_space name)

-- A colony as it is created; it trusts itself.
unfoldable pub new_colony : ℕ → Ident → Text → Ident × Ident → Colony
new_colony t id name (public_key, private_key) = record {
  id = id;
  name = name;
  public_key = public_key;
  private_key = private_key;
  created_at = format_time t;
  trusted_colonies = (id, public_key) ∷ [];
  accounts = [];
  processed_envelopes = [];
  outbox = [];
  ledger = [];
  next_ledger_seq = 0;
  last_ledger_hash = empty;
  net_obligations = [];
  net_claims = [];
  minted_total = pos 0;
  mint_cap = pos 0;
  require_dual_control = false;
}

unfoldable pub create_colony :
    Host → Inputs → AppState → Ident → Text → Result AppError (ColonyView × AppState)
create_colony host inp state token raw_name = do
  let name = trim_space raw_name
  fail_if (is_empty name) (bad_request "colony name is required")
  actor ← actor_from_token host (inp.wall 0) state token
  fail_if (not (has_role actor super_admin)) (forbidden "only super_admin can create colonies")
  fail_if (name_taken name state.colonies) (conflict "colony name already exists")
  id ← or_fail (inp.id 0) internal
  keys ← or_fail inp.keys internal
  let colony =
      append_ledger host (inp.now 1) (new_colony (inp.now 0) id name keys) colony_created actor.id
        (("colony_id", ident id) ∷ ("name", text name) ∷ [])
  ok (to_colony_view colony, put_colony id colony state)

unfoldable pub trust_peer :
    Host → Inputs → AppState → Ident → Ident → Ident → Result AppError (ColonyView × AppState)
trust_peer host inp state token colony_id peer_colony_id = do
  fail_if (peer_colony_id == empty) (bad_request "peer_colony_id is required")
  actor ← actor_from_token host (inp.wall 0) state token
  colony ← or_fail (lookup colony_id state.colonies) (not_found "colony not found")
  peer ← or_fail (lookup peer_colony_id state.colonies) (not_found "peer colony not found")
  fail_if (not (can_manage_colony actor colony_id))
      (forbidden "not allowed to trust peers for this colony")
  let trusting = record colony {
    trusted_colonies = insert peer.id peer.public_key colony.trusted_colonies;
  }
  let colony' =
      append_ledger host (inp.now 0) trusting peer_trusted actor.id
        (("peer_colony_id", ident peer.id) ∷ [])
  ok (to_colony_view colony', put_colony colony_id colony' state)

-- A password is the text of its bytes.
pub record CreateUserRequest : Type 0 where
  pub username : Text
  pub display_name : Text
  pub password : Text
  pub colony_id : Ident
  pub roles : List Text

-- newUser, after its identifier and keys are drawn
unfoldable pub new_user : ℕ → Ident → Ident × Ident → Text → Text → Ident → Ident → List Role → User
new_user t id (public_key, private_key) username display password_hash colony_id roles = record {
  id = id;
  username = username;
  display_name = display;
  colony_id = colony_id;
  roles = roles;
  password_salt = empty;
  password_hash = password_hash;
  public_key = public_key;
  private_key = private_key;
  created_at = format_time t;
  active = true;
  failed_logins = 0;
  locked_until = blank;
  mfa_enabled = false;
  mfa_secret = empty;
  mfa_pending_secret = empty;
  mfa_last_step = 0;
  reset_token_hash = empty;
  reset_expires_at = blank;
  password_changed_at = blank;
}

abbrev default_roles : List Role → List Role
default_roles [] = trader ∷ []
default_roles (r ∷ rs) = r ∷ rs

abbrev pub or_username : Text → Text → Text
or_username username display = if is_empty display then username else display

-- The check before the password is hashed, on the state that is read then.
unfoldable pub may_create_user :
    Host → Inputs → AppState → Ident → Ident → Result AppError (Unit {0})
may_create_user host inp state token colony_id = do
  actor ← actor_from_token host (inp.wall 0) state token
  fail_if (is_some (lookup colony_id state.colonies) && not (can_manage_colony actor colony_id))
      (forbidden "not allowed to create users in this colony")

-- The update, with the hash of the password.
unfoldable pub insert_user :
    Host
    → Inputs
    → AppState
    → Ident
    → CreateUserRequest
    → Text
    → List Role
    → Ident
    → Result AppError (UserView × AppState)
insert_user host inp state token req username roles password_hash = do
  actor ← actor_from_token host (inp.wall 1) state token
  fail_if (username_taken username state.users) (conflict "username already exists")
  colony ← or_fail (lookup req.colony_id state.colonies) (not_found "colony not found")
  fail_if (not (can_manage_colony actor req.colony_id))
      (forbidden "not allowed to create users in this colony")
  fail_if (contains_role roles super_admin && not (has_role actor super_admin))
      (forbidden "only super_admin can assign super_admin")
  let display = or_username username (trim_space req.display_name)
  id ← or_fail (inp.id 0) internal
  keys ← or_fail inp.keys internal
  let user = new_user (inp.now 0) id keys username display password_hash req.colony_id roles
  let account : Account = record { user_id = id; colony_id = req.colony_id; balance = pos 0 }
  let opened = record colony { accounts = insert id account colony.accounts }
  let colony' =
      append_ledger host (inp.now 1) opened user_created actor.id
        (("user_id", ident id) ∷ ("username", text username) ∷ ("roles", role_list roles) ∷ [])
  let registered = record state { users = insert id user state.users }
  ok (to_user_view user, put_colony req.colony_id colony' registered)

-- CreateUser: `seen` is the state at the check and `state` the one at the update, since the store
-- is free in between.
unfoldable pub create_user :
    Host
    → Inputs
    → AppState
    → AppState
    → Ident
    → CreateUserRequest
    → Result AppError (UserView × AppState)
create_user host inp seen state token req = do
  let username = normalize_username req.username
  fail_if (is_empty username || (ltb (length req.password) 8 || ltb 256 (length req.password)))
      (bad_request "username and password of at least 8 characters are required")
  let roles = default_roles (normalize_roles req.roles)
  may_create_user host inp seen token req.colony_id
  password_hash ← or_fail (host.hash_password req.password) internal
  insert_user host inp state token req username roles password_hash
