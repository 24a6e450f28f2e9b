-- ===== src/Http/Handlers.antt =====
-- The handlers of backend/internal/httpapi/handlers.go: what is decoded, which call of the service is
-- made on the store, and how its result is answered.
pub mod Account
use interstellar_trade_platf.Base.{
  ℕ, Bool, true, false, not, Option, none, some, List, [], ◌∷◌, if◌then◌else◌, ltb, Result, ok, err,
}
use interstellar_trade_platf.Base.Int.{ℤ, pos, ltb_ℤ}
use interstellar_trade_platf.Domain.Text.{Ident, Text, empty, equal_fold}
use interstellar_trade_platf.Domain.Errors.{AppError, bad_request, forbidden}
use interstellar_trade_platf.Domain.State.{AppState}
use interstellar_trade_platf.Domain.Host.{Host}
use interstellar_trade_platf.Service.View.{get_trade, me}
use interstellar_trade_platf.Service.Lists.{
  list_trades, list_colonies, list_users, list_accounts, list_approvals, dashboard,
}
use interstellar_trade_platf.Service.Page.{list_ledger_page}
use interstellar_trade_platf.Service.Session.{AuthResponse}
use interstellar_trade_platf.Service.Auth.{LoginAnswer, granted, denied, bootstrap, login, logout}
use interstellar_trade_platf.Service.Admin.{create_colony, trust_peer, create_user}
use interstellar_trade_platf.Service.Mint.{MintOutcome, minted, proposed, mint_or_propose}
use interstellar_trade_platf.Service.Approvals.{
  PolicyOutcome, changed, proposed as proposed_policy, set_policy, propose_force_refund,
  decide_approval,
}
use interstellar_trade_platf.Service.Offer.{create_offer}
use interstellar_trade_platf.Service.Accept.{accept_trade}
use interstellar_trade_platf.Service.Export.{export_bundle}
use interstellar_trade_platf.Service.Import.{import_bundle}
use interstellar_trade_platf.Service.Cancel.{cancel_trade}
use interstellar_trade_platf.Storage.{Store, store_read, store_update}
use interstellar_trade_platf.Http.Request.{
  Number, absent, refused, given, HttpRequest, error_json, status_json, ok_json,
  needs_bootstrap_json, auth_json, user_json, users_json, dashboard_json, colony_json,
  colonies_json, account_json, accounts_json, action_json, actions_json, trade_json, trades_json,
  bundle_json, imported_json, ledger_json, Response, write_json, Api, Exchange, bytes, is_https,
  bootstrap_allowed, token_of, request_token,
}

-- writeError; every error that the service returns is an AppError.
abbrev pub write_error : AppError → Response
write_error e = write_json e.status (error_json e)

-- The end of a handler: the error of the call, or its value.
unfoldable pub reply : {A : Type 0} → (A → Response) → Result AppError A → Response
reply respond (err e) = write_error e
reply respond (ok v) = respond v

-- `respondAuth`
unfoldable pub respond_auth : HttpRequest → ℕ → AuthResponse → Response
respond_auth r status v =
    if equal_fold r.session_mode (bytes "cookie")
    then record (write_json status (auth_json (record v { token = empty }))) {
      cookie = some (record { value = v.token; secure = is_https r; keep = true });
    }
    else write_json status (auth_json v)

-- `clearSessionCookie` and the answer of a logout
unfoldable pub respond_logout : HttpRequest → Response
respond_logout r = record (write_json 200 ok_json) {
  cookie = some (record { value = empty; secure = is_https r; keep = false });
}

-- A login that was counted as failed is an error.
unfoldable pub respond_login : HttpRequest → LoginAnswer → Response
respond_login r (granted v) = respond_auth r 200 v
respond_login r (denied e) = write_error e

-- Dual control: a proposal is accepted only.
unfoldable pub respond_mint : MintOutcome → Response
respond_mint (minted v) = write_json 200 (account_json v)
respond_mint (proposed p) = write_json 202 (action_json p)

unfoldable pub respond_policy : PolicyOutcome → Response
respond_policy (changed v) = write_json 200 (colony_json v)
respond_policy (proposed_policy p) = write_json 202 (action_json p)

-- `limit` of a ledger request; `none` where it is not a number
unfoldable pub limit_of : Number → Option ℤ
limit_of absent = some (pos 0)
limit_of refused = none
limit_of (given n) = some n

-- `before_seq` of a ledger request; `none` where it is not a number or below 0
unfoldable pub before_seq_of : Number → Option ℤ
before_seq_of absent = some (pos 0)
before_seq_of refused = none
before_seq_of (given n) = if ltb_ℤ n (pos 0) then none else some n

-- `UserCount(state) == 0`
no_users : {A : Type 0} → List A → Bool
no_users [] = true
no_users (u ∷ us) = false

module _ (x : Exchange) where
  unfoldable pub reading :
      {A : Type 0} → (A → Response) → (AppState → Result AppError A) → Store → Response × Store
  reading respond fn st = (reply respond (store_read fn st), st)

  unfoldable pub updating :
      {A : Type 0}
      → (A → Response)
      → (AppState → Result AppError (A × AppState))
      → Store
      → Response × Store
  updating respond fn st =
      let (result, st') = store_update x.saved x.time fn st in (reply respond result, st')

  -- `if err := decodeJSON(r, &req); err != nil`
  unfoldable pub decoding :
      {A : Type 0} → Option A → (A → Store → Response × Store) → Store → Response × Store
  decoding none handler st = (write_error (bad_request "invalid json"), st)
  decoding (some req) handler st = handler req st

module _ (host : Host) (api : Api) (x : Exchange) (r : HttpRequest) where
  token : Ident
  token = token_of api r

  wall : ℕ
  wall = x.inputs.wall 0

  unfoldable pub handle_healthz : Store → Response × Store
  handle_healthz st = (write_json 200 (status_json "ok"), st)

  -- The file store is always reachable.
  unfoldable pub handle_readyz : Store → Response × Store
  handle_readyz st = (write_json 200 (status_json "ready"), st)

  -- NeedsBootstrap cannot fail on the file store.
  unfoldable pub handle_needs_bootstrap : Store → Response × Store
  unfolding no_users
  handle_needs_bootstrap st = (write_json 200 (needs_bootstrap_json (no_users st.state.users)), st)

  unfoldable pub handle_bootstrap : Store → Response × Store
  handle_bootstrap st =
      if bootstrap_allowed api r
      then decoding x r.body.bootstrap
          (λ req. updating x (respond_auth r 201) (λ s. bootstrap host x.inputs x.seen s req)) st
      else (write_error (forbidden "a valid bootstrap token is required (X-Bootstrap-Token)"), st)

  unfoldable pub handle_login : Store → Response × Store
  handle_login =
      decoding x r.body.login
        λ req. updating x (respond_login r) (λ s. login host x.inputs x.seen s req)

  unfoldable pub handle_logout : Store → Response × Store
  handle_logout = updating x (λ _. respond_logout r) (λ s. logout s (request_token api r))

  unfoldable pub handle_me : Store → Response × Store
  unfolding token wall
  handle_me = reading x (λ v. write_json 200 (user_json v)) (λ s. me wall s token)

  unfoldable pub handle_dashboard : Store → Response × Store
  unfolding token wall
  handle_dashboard =
      reading x (λ v. write_json 200 (dashboard_json v)) (λ s. dashboard host wall s token)

  unfoldable pub handle_list_colonies : Store → Response × Store
  unfolding token wall
  handle_list_colonies =
      reading x (λ v. write_json 200 (colonies_json v)) (λ s. list_colonies host wall s token)

  unfoldable pub handle_create_colony : Store → Response × Store
  unfolding token
  handle_create_colony = decoding x r.body.colony λ req.
      updating x (λ v. write_json 201 (colony_json v))
        (λ s. create_colony host x.inputs s token req)

  -- `id` is the segment of the path that the route names so.
  unfoldable pub handle_trust_peer : Ident → Store → Response × Store
  unfolding token
  handle_trust_peer id = decoding x r.body.trust λ req.
      updating x (λ v. write_json 200 (colony_json v))
        (λ s. trust_peer host x.inputs s token id req)

  unfoldable pub handle_list_users : Store → Response × Store
  unfolding token wall
  handle_list_users =
      reading x (λ v. write_json 200 (users_json v)) (λ s. list_users host wall s token)

  unfoldable pub handle_create_user : Store → Response × Store
  unfolding token
  handle_create_user = decoding x r.body.user λ req.
      updating x (λ v. write_json 201 (user_json v))
        (λ s. create_user host x.inputs x.seen s token req)

  unfoldable pub handle_list_accounts : Store → Response × Store
  unfolding token wall
  handle_list_accounts =
      reading x (λ v. write_json 200 (accounts_json v)) (λ s. list_accounts host wall s token)

  unfoldable pub handle_mint : Store → Response × Store
  unfolding token
  handle_mint =
      decoding x r.body.mint
        λ req. updating x respond_mint (λ s. mint_or_propose host x.inputs s token req)

  unfoldable pub handle_list_trades : Store → Response × Store
  unfolding token wall
  handle_list_trades =
      reading x (λ v. write_json 200 (trades_json v)) (λ s. list_trades host wall s token)

  unfoldable pub handle_get_trade : Ident → Store → Response × Store
  unfolding token wall
  handle_get_trade id =
      reading x (λ v. write_json 200 (trade_json v)) (λ s. get_trade host wall s token id)

  unfoldable pub handle_create_offer : Store → Response × Store
  unfolding token
  handle_create_offer = decoding x r.body.offer λ req.
      updating x (λ v. write_json 201 (trade_json v)) (λ s. create_offer host x.inputs s token req)

  unfoldable pub handle_accept_trade : Ident → Store → Response × Store
  unfolding token
  handle_accept_trade id =
      updating x (λ v. write_json 200 (trade_json v)) (λ s. accept_trade host x.inputs s token id)

  unfoldable pub handle_cancel_trade : Ident → Store → Response × Store
  unfolding token
  handle_cancel_trade id =
      updating x (λ v. write_json 200 (trade_json v)) (λ s. cancel_trade host x.inputs s token id)

  unfoldable pub handle_force_refund : Ident → Store → Response × Store
  unfolding token
  handle_force_refund id =
      updating x (λ v. write_json 202 (action_json v))
        (λ s. propose_force_refund host x.inputs s token id)

  unfoldable pub handle_set_policy : Ident → Store → Response × Store
  unfolding token
  handle_set_policy id =
      decoding x r.body.policy
        λ req. updating x respond_policy (λ s. set_policy host x.inputs s token id req)

  unfoldable pub handle_list_approvals : Store → Response × Store
  unfolding token wall
  handle_list_approvals =
      reading x (λ v. write_json 200 (actions_json v)) (λ s. list_approvals host wall s token)

  -- `decide` of handleApprove and handleReject
  unfoldable pub decide : Bool → Ident → Store → Response × Store
  unfolding token
  decide approve id =
      updating x (λ v. write_json 200 (action_json v))
        (λ s. decide_approval host x.inputs s token id approve)

  unfoldable pub handle_export_bundle : Store → Response × Store
  unfolding token
  handle_export_bundle = decoding x r.body.export λ req.
      updating x (λ v. write_json 200 (bundle_json v))
        (λ s. export_bundle host x.inputs s token req)

  unfoldable pub handle_import_bundle : Store → Response × Store
  unfolding token
  handle_import_bundle = decoding x r.body.import λ req.
      updating x (λ v. write_json 200 (imported_json v))
        (λ s. import_bundle host x.inputs s token req)

  -- What follows the parsing of the two numbers, of which either can be refused.
  unfoldable pub ledger_page : Option ℤ → Option ℤ → Store → Response × Store
  unfolding token wall
  ledger_page none before_seq st = (write_error (bad_request "invalid limit"), st)
  ledger_page (some limit) none st = (write_error (bad_request "invalid before_seq"), st)
  ledger_page (some limit) (some before_seq) st =
      reading x (λ v. write_json 200 (ledger_json v))
        (λ s. list_ledger_page host wall s token r.colony_id limit before_seq) st

  unfoldable pub handle_list_ledger : Store → Response × Store
  handle_list_ledger = ledger_page (limit_of r.limit) (before_seq_of r.before_seq)
