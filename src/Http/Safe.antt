-- ===== src/Http/Safe.antt =====
-- Which requests cannot change the store: safe methods, and the browser's requests from elsewhere, in
-- `withSession` (backend/internal/httpapi/security_handlers.go) and the routes of handlers.go.
use interstellar_trade_platf.Base.{
  Bool, true, false, not, ◌&&◌, ◌≡◌, refl, ap, ◌∙◌, Option, none, some, List, [], ◌∷◌, Bool-cases,
  inl, inr, arith,
}
use interstellar_trade_platf.Base.Int.{ℤ, ltb_ℤ}
use interstellar_trade_platf.Domain.Text.{Ident, Text}
use interstellar_trade_platf.Domain.Host.{Host}
use interstellar_trade_platf.Storage.{Store}
use interstellar_trade_platf.Http.Request.{
  Method, get, post, head_method, options, other_method, HttpRequest, Response, Api, Exchange,
  is_mutating, same_origin,
}
use interstellar_trade_platf.Http.Handlers.{
  reading, limit_of, before_seq_of, ledger_page, handle_healthz, handle_readyz,
  handle_needs_bootstrap, handle_me, handle_dashboard, handle_list_colonies, handle_list_users,
  handle_list_accounts, handle_list_trades, handle_get_trade, handle_list_approvals,
  handle_list_ledger,
}
use interstellar_trade_platf.Http.Routes.{
  Route, match_path, serves, select, security_routes, routes, serve_mux,
}
use interstellar_trade_platf.Http.Middleware.{
  Next, is_options, body_limit, with_body_limit, with_cors, session_cookie, with_cookie,
  with_session, with_security_headers, handler,
}

-- A route that is served to POST only, or whose handler leaves the store alone.
data IsSafe : Route → Type 0 where
  posts : {route : Route} → route.method ≡ post → IsSafe route
  reads :
      {route : Route} → ((id : Ident) (st : Store) → (route.handler id st).1 ≡ st) → IsSafe route

infixr 5 ◌&◌
data AllSafe : List Route → Type 0 where
  no_routes : AllSafe []
  ◌&◌ : {route : Route} {rest : List Route} → IsSafe route → AllSafe rest → AllSafe (route ∷ rest)

post-serves : (m : Method) → is_mutating m ≡ false → serves post m ≡ false
unfolding is_mutating serves
post-serves get h = refl
post-serves post h = absurd (cc)
post-serves head_method h = refl
post-serves options h = refl
post-serves other_method h = refl

-- The store after a choice between two continuations, if each keeps it where it is taken.
kept_either :
    (b : Bool) (st : Store) (one other : Response × Store)
    → (b ≡ true → one.1 ≡ st)
    → (b ≡ false → other.1 ≡ st)
    → (elim b as (λ t. Response × Store) [ true ↦ one | false ↦ other ]).1 ≡ st
kept_either true st one other h k = h refl
kept_either false st one other h k = k refl

kept_found :
    (found : Option Text) (st : Store) (none_found : Response × Store)
    (one : Text → Response × Store)
    → none_found.1 ≡ st
    → ((id : Text) → (one id).1 ≡ st)
    → (elim found as (λ o. Response × Store) [ none ↦ none_found | some id ↦ one id ]).1 ≡ st
kept_found none st none_found one h k = h
kept_found (some id) st none_found one h k = k id

handler_kept :
    (route : Route) (m : Method) (id : Ident) (st : Store)
    → IsSafe route
    → is_mutating m ≡ false
    → serves route.method m ≡ true
    → (route.handler id st).1 ≡ st
handler_kept route m id st (reads h) quiet served = h id st
handler_kept route m id st (posts is_post) quiet served =
    let refused : serves route.method m ≡ false =
      ap (λ n. serves n m) is_post ∙ post-serves m quiet in
    absurd (cc)

select_kept :
    (api : Api) (r : HttpRequest) (rs : List Route) (known : Bool) (st : Store)
    → AllSafe rs
    → is_mutating r.method ≡ false
    → (select api r rs known st).1 ≡ st
unfolding select
select_kept api r [] known st no_routes quiet = refl
select_kept api r (route ∷ rest) known st (h & hs) quiet =
    kept_found (match_path route.pattern r.path []) st _ _
      (select_kept api r rest known st hs quiet)
      λ id.
        kept_either (serves route.method r.method) st _ _
          (handler_kept route r.method (api.ident_of id) st h quiet)
          λ _. select_kept api r rest true st hs quiet

module _ (host : Host) (api : Api) (x : Exchange) (r : HttpRequest) where
  ledger_page_kept :
      (limit before_seq : Option ℤ) (st : Store)
      → (ledger_page host api x r limit before_seq st).1 ≡ st
  unfolding ledger_page reading
  ledger_page_kept none before_seq st = refl
  ledger_page_kept (some limit) none st = refl
  ledger_page_kept (some limit) (some before_seq) st = refl

  routes-AllSafe : AllSafe (routes host api x r)
  unfolding routes security_routes reading handle_healthz handle_readyz handle_needs_bootstrap
      handle_me handle_dashboard handle_list_colonies handle_list_users handle_list_accounts
      handle_list_trades handle_get_trade handle_list_approvals handle_list_ledger
  routes-AllSafe =
      (reads (λ id st. refl))
      & (reads (λ id st. refl))
      & (reads (λ id st. refl))
      & (posts refl)
      & (posts refl)
      & (posts refl)
      & (reads (λ id st. refl))
      & (posts refl)
      & (posts refl)
      & (posts refl)
      & (posts refl)
      & (posts refl)
      & (posts refl)
      & (posts refl)
      & (posts refl)
      & (reads (λ id st. refl))
      & (reads (λ id st. refl))
      & (posts refl)
      & (posts refl)
      & (reads (λ id st. refl))
      & (posts refl)
      & (reads (λ id st. refl))
      & (posts refl)
      & (reads (λ id st. refl))
      & (reads (λ id st. refl))
      & (posts refl)
      & (posts refl)
      & (posts refl)
      & (posts refl)
      & (posts refl)
      & (reads (λ id st. refl))
      & (posts refl)
      & (posts refl)
      & (posts refl)
      & (posts refl)
      & (reads (λ id st. ledger_page_kept (limit_of r.limit) (before_seq_of r.before_seq) st))
      & no_routes

  serve_mux_kept : (st : Store) → is_mutating r.method ≡ false → (serve_mux host api x r st).1 ≡ st
  unfolding serve_mux
  serve_mux_kept st = select_kept api r (routes host api x r) false st routes-AllSafe

-- The store after the middleware around `withSession`, if that keeps it.
outer_kept :
    (api : Api) (n : Next) (r : HttpRequest) (st : Store)
    → (n r st).1 ≡ st
    → (with_security_headers (with_body_limit (with_cors api n)) r st).1 ≡ st
unfolding with_security_headers with_body_limit with_cors
outer_kept api n r st h = elim (Bool-cases (ltb_ℤ (body_limit r.path) r.content_length)) [
  | inl e ↦ rw e refl
  | inr e ↦ rw e (kept_either (is_options r.method) st _ _ (λ _. refl) λ _. h)
]

with_session_kept :
    (host : Host) (api : Api) (x : Exchange) (r : HttpRequest) (st : Store) (o : Option Text)
    → is_mutating r.method ≡ false
    → (with_cookie api (λ q. serve_mux host api x q) r st o).1 ≡ st
unfolding with_cookie
with_session_kept host api x r st none quiet = serve_mux_kept host api x r st quiet
with_session_kept host api x r st (some value) quiet =
    kept_either (is_mutating r.method && not (same_origin api r)) st _ _ (λ _. refl)
      λ _. serve_mux_kept host api x _ st quiet

-- A GET, HEAD or OPTIONS request leaves the store as it is, whatever its path, headers and body.
pub handler-safe_method :
    (host : Host) (api : Api) (x : Exchange) (r : HttpRequest) (st : Store)
    → is_mutating r.method ≡ false
    → (handler host api x r st).1 ≡ st
unfolding handler with_session
handler-safe_method host api x r st quiet =
    outer_kept api (with_session api (λ q. serve_mux host api x q)) r st
      (with_session_kept host api x r st (session_cookie r) quiet)

-- A request that brings its session in the cookie and no Authorization header, and that comes from
-- another origin, leaves the store as it is, whatever its method and route.
pub handler-cross_origin :
    (host : Host) (api : Api) (x : Exchange) (r : HttpRequest) (st : Store) (value : Text)
    → session_cookie r ≡ some value
    → same_origin api r ≡ false
    → (handler host api x r st).1 ≡ st
unfolding handler with_session with_cookie
handler-cross_origin host api x r st value given foreign =
    elim (Bool-cases (is_mutating r.method)) [
      | inr quiet ↦ handler-safe_method host api x r st quiet
      | inl mutates ↦ outer_kept api (with_session api (λ q. serve_mux host api x q)) r st (
          ap (λ o. (with_cookie api (λ q. serve_mux host api x q) r st o).1) given
          ∙ kept_either (is_mutating r.method && not (same_origin api r)) st _ _ (λ _. refl)
              λ passed. absurd (ground (arith, mutates, foreign)))
    ]
