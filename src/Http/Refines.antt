-- ===== src/Http/Refines.antt =====
-- The API server as a client of the service: `API.Handler` of backend/internal/httpapi/handlers.go
-- beside the sequences of service calls of Money/Run.
use interstellar_trade_platf.Base.{
  Bool, true, false, not, ◌&&◌, Option, none, some, List, [], ◌∷◌, Bool-cases, inl, inr,
}
use interstellar_trade_platf.Base.Int.{ltb_ℤ}
use interstellar_trade_platf.Domain.Text.{Ident, Text}
use interstellar_trade_platf.Domain.Host.{Host}
use interstellar_trade_platf.Storage.{Store}
use interstellar_trade_platf.Money.Run.{Run, IsFresh}
use interstellar_trade_platf.Http.Request.{
  HttpRequest, Response, Api, Exchange, same_origin, is_mutating,
}
use interstellar_trade_platf.Http.Routes.{
  Handler, Route, match_path, serves, select, security_routes, routes, serve_mux,
}
use interstellar_trade_platf.Http.Middleware.{
  Next, is_options, body_limit, with_body_limit, with_cors, session_cookie, with_cookie,
  with_session, with_security_headers, handler,
}
use interstellar_trade_platf.Http.Effect.{Effect, untouched}
use interstellar_trade_platf.Http.Effect.Account
use interstellar_trade_platf.Http.Effect.Handlers

module _ (host : Host) (x : Exchange) where
  -- Whatever it is given, the handler leaves the store alone or makes one call of the service.
  abbrev Serves : Handler → Type 0
  Serves h = (id : Ident) (st : Store) → Effect host x st (h id st).1

  infixr 5 ◌&◌
  data AllServe : List Route → Type 0 where
    no_routes : AllServe []
    ◌&◌ :
        {route : Route} {rest : List Route}
        → Serves route.handler
        → AllServe rest
        → AllServe (route ∷ rest)

  pick :
      (found : Option Text) (method_ok : Bool) (st : Store) (h : Text → Response × Store)
      (other later : Response × Store)
      → ((id : Text) → Effect host x st (h id).1)
      → Effect host x st other.1
      → Effect host x st later.1
      → Effect host x st
          (elim found as (λ o. Response × Store) [
            | none ↦ other
            | some id ↦ elim method_ok as (λ b. Response × Store) [ true ↦ h id | false ↦ later ]
          ]).1
  pick none method_ok st h other later a b c = b
  pick (some id) true st h other later a b c = a id
  pick (some id) false st h other later a b c = c

  select-Effect :
      (api : Api) (r : HttpRequest) (rs : List Route) (known : Bool) (st : Store)
      → AllServe rs
      → Effect host x st (select api r rs known st).1
  unfolding select
  select-Effect api r [] known st no_routes = untouched
  select-Effect api r (route ∷ rest) known st (h & hs) =
      pick (match_path route.pattern r.path []) (serves route.method r.method) st
        (λ id. route.handler (api.ident_of id) st) _ _ (λ id. h (api.ident_of id) st)
        (select-Effect api r rest known st hs) (select-Effect api r rest true st hs)

  module _ (api : Api) (r : HttpRequest) where
    routes-AllServe : AllServe (routes host api x r)
    unfolding routes security_routes
    routes-AllServe =
        (λ id. Handlers.handle_healthz-Effect host api x r)
        & (λ id. Handlers.handle_readyz-Effect host api x r)
        & (λ id. Handlers.handle_needs_bootstrap-Effect host api x r)
        & (λ id. Handlers.handle_bootstrap-Effect host api x r)
        & (λ id. Handlers.handle_login-Effect host api x r)
        & (λ id. Handlers.handle_logout-Effect host api x r)
        & (λ id. Handlers.handle_me-Effect host api x r)
        & (λ id. Account.handle_mfa_enroll-Effect host api x r)
        & (λ id. Account.handle_mfa_confirm-Effect host api x r)
        & (λ id. Account.handle_change_password-Effect host api x r)
        & (λ id. Account.handle_complete_reset-Effect host api x r)
        & (Account.handle_issue_reset-Effect host api x r)
        & (Account.handle_reset_mfa-Effect host api x r)
        & (Account.handle_set_active-Effect host api x r)
        & (Account.handle_set_roles-Effect host api x r)
        & (λ id. Handlers.handle_dashboard-Effect host api x r)
        & (λ id. Handlers.handle_list_colonies-Effect host api x r)
        & (λ id. Handlers.handle_create_colony-Effect host api x r)
        & (Handlers.handle_trust_peer-Effect host api x r)
        & (λ id. Handlers.handle_list_users-Effect host api x r)
        & (λ id. Handlers.handle_create_user-Effect host api x r)
        & (λ id. Handlers.handle_list_accounts-Effect host api x r)
        & (λ id. Handlers.handle_mint-Effect host api x r)
        & (λ id. Handlers.handle_list_trades-Effect host api x r)
        & (Handlers.handle_get_trade-Effect host api x r)
        & (λ id. Handlers.handle_create_offer-Effect host api x r)
        & (Handlers.handle_accept_trade-Effect host api x r)
        & (Handlers.handle_cancel_trade-Effect host api x r)
        & (Handlers.handle_force_refund-Effect host api x r)
        & (Handlers.handle_set_policy-Effect host api x r)
        & (λ id. Handlers.handle_list_approvals-Effect host api x r)
        & (Handlers.decide-Effect host api x r true)
        & (Handlers.decide-Effect host api x r false)
        & (λ id. Handlers.handle_export_bundle-Effect host api x r)
        & (λ id. Handlers.handle_import_bundle-Effect host api x r)
        & (λ id. Handlers.handle_list_ledger-Effect host api x r)
        & no_routes

    serve_mux-Effect : (st : Store) → Effect host x st (serve_mux host api x r st).1
    unfolding serve_mux
    serve_mux-Effect st = select-Effect api r (routes host api x r) false st routes-AllServe

  -- What is passed on has one of these effects, whatever the request.
  abbrev NextServes : Next → Type 0
  NextServes n = (r : HttpRequest) (st : Store) → Effect host x st (n r st).1

  with_security_headers-Effect : (n : Next) → NextServes n → NextServes (with_security_headers n)
  unfolding with_security_headers
  with_security_headers-Effect n h r st = h r st

  with_body_limit-Effect : (n : Next) → NextServes n → NextServes (with_body_limit n)
  unfolding with_body_limit
  with_body_limit-Effect n h r st = elim (Bool-cases (ltb_ℤ (body_limit r.path) r.content_length)) [
    | inl e ↦ rw e untouched
    | inr e ↦ rw e (h r st)
  ]

  either :
      (b : Bool) (st : Store) (early later : Response × Store)
      → Effect host x st early.1
      → Effect host x st later.1
      → Effect host x st (elim b as (λ t. Response × Store) [ true ↦ early | false ↦ later ]).1
  either true st early later h k = h
  either false st early later h k = k

  with_cors-Effect : (api : Api) (n : Next) → NextServes n → NextServes (with_cors api n)
  unfolding with_cors
  with_cors-Effect api n h r st = either (is_options r.method) st _ _ untouched (h r st)

  with_cookie-Effect :
      (api : Api) (n : Next) (r : HttpRequest) (st : Store) (o : Option Text)
      → NextServes n
      → Effect host x st (with_cookie api n r st o).1
  unfolding with_cookie
  with_cookie-Effect api n r st none h = h r st
  with_cookie-Effect api n r st (some value) h =
      either (is_mutating r.method && not (same_origin api r)) st _ _ untouched (h _ st)

  with_session-Effect : (api : Api) (n : Next) → NextServes n → NextServes (with_session api n)
  unfolding with_session
  with_session-Effect api n h r st = with_cookie-Effect api n r st (session_cookie r) h

  -- An exchange leaves the store alone or makes one call of the service.
  pub handler-Effect :
      (api : Api) (r : HttpRequest) (st : Store) → Effect host x st (handler host api x r st).1
  unfolding handler
  handler-Effect api = with_security_headers-Effect _ (
      with_body_limit-Effect _
        (with_cors-Effect api _ (with_session-Effect api _ λ r. serve_mux-Effect api r)))

-- The stores that the API server can make of a store.
pub data Exchanges (host : Host) (api : Api) (st : Store) : Store → Type 0 where
  no_requests : Exchanges host api st st
  one_more :
      (x : Exchange) (r : HttpRequest) {mid : Store}
      → Exchanges host api st mid
      → IsFresh x.inputs mid.state
      → Exchanges host api st (handler host api x r mid).1
