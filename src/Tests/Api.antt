-- ===== src/Tests/Api.antt =====
-- Requests to the API server on the demo state.
use interstellar_trade_platf.Base.{
  ℕ, zero, suc, ◌+◌, ◌-◌, ◌*◌, ◌≡◌, refl, sym, ap, ◌∙◌, inl, inr, arith, true, false, Option, none,
  some, List, [], ◌∷◌, length, Result, ok, err,
}
use interstellar_trade_platf.Base.Int.{pos}
use interstellar_trade_platf.Base.Map.{All, lookup}
use interstellar_trade_platf.Domain.Text.{Ident, Text}
use interstellar_trade_platf.Service.Actor.{actor_from_token}
use interstellar_trade_platf.Service.Ledger.{append_ledger, last_hash}
use interstellar_trade_platf.Storage.{Store}
use interstellar_trade_platf.Money.Run.{Run}
use interstellar_trade_platf.Money.Admin.{HasNoAccount}
use interstellar_trade_platf.Http.Request.{
  Method, get, post, Body, absent, HttpRequest, Api, Exchange, Response, bytes, is_mutating,
  same_origin,
}
use interstellar_trade_platf.Http.Middleware.{session_cookie, handler}
use interstellar_trade_platf.Http.Safe.{handler-safe_method, handler-cross_origin}
use interstellar_trade_platf.Tests.Demo.{demo_host, demo_inputs, demo_state}

-- The number that a text of digits writes.
abbrev number : ℕ → Text → ℕ
number n [] = n
number n (c ∷ cs) = number (10 * n + (c - b'0')) cs

abbrev demo_api : Api
demo_api = record {
  allowed_origins = [];
  bootstrap_token = [];
  ident_of = number 0;
  origin_host = λ t. some t;
}

abbrev no_body : Body
no_body = record {
  bootstrap = none;
  login = none;
  colony = none;
  trust = none;
  user = none;
  mint = none;
  policy = none;
  offer = none;
  export = none;
  import = none;
  mfa_code = none;
  password = none;
  reset = none;
  active = none;
  roles = none;
}

-- A request to accept trade 50.
abbrev accept_request : Method → Text → Option Text → HttpRequest
accept_request method authorization cookie = record {
  method = method;
  path = bytes "api" ∷ bytes "v1" ∷ bytes "trades" ∷ bytes "50" ∷ bytes "accept" ∷ [];
  host_name = bytes "here";
  authorization = authorization;
  origin = bytes "elsewhere";
  bootstrap_token = [];
  session_mode = [];
  forwarded_proto = [];
  cookie = cookie;
  tls = true;
  from_proxy = false;
  content_length = pos 0;
  colony_id = 0;
  limit = absent;
  before_seq = absent;
  body = no_body;
}

abbrev demo_exchange : Exchange
demo_exchange = record {
  inputs = demo_inputs;
  saved = true;
  time = 1000000000000;
  seen = demo_state;
}

abbrev demo_store : Store
demo_store = record { state = demo_state; file = demo_state }

abbrev by_token : HttpRequest
by_token = accept_request post (bytes "Bearer 3") none

accepted_succeeds : (handler demo_host demo_api demo_exchange by_token demo_store).0.status ≡ 200
unfolding handler interstellar_trade_platf.Http.Middleware.with_security_headers
    interstellar_trade_platf.Http.Middleware.security_headers
    interstellar_trade_platf.Http.Middleware.starts_with
    interstellar_trade_platf.Http.Middleware.with_body_limit
    interstellar_trade_platf.Http.Middleware.body_limit
    interstellar_trade_platf.Http.Middleware.with_cors
    interstellar_trade_platf.Http.Middleware.is_options
    interstellar_trade_platf.Http.Middleware.with_session
    interstellar_trade_platf.Http.Middleware.with_cookie session_cookie
    interstellar_trade_platf.Http.Request.is_https
    interstellar_trade_platf.Http.Request.contains_text
    interstellar_trade_platf.Http.Request.token_of
    interstellar_trade_platf.Http.Request.bearer_token
    interstellar_trade_platf.Http.Request.split_space bytes
    interstellar_trade_platf.Http.Routes.serve_mux interstellar_trade_platf.Http.Routes.select
    interstellar_trade_platf.Http.Routes.routes interstellar_trade_platf.Http.Routes.security_routes
    interstellar_trade_platf.Http.Routes.match_path interstellar_trade_platf.Http.Routes.serves
    interstellar_trade_platf.Http.Handlers.handle_accept_trade
    interstellar_trade_platf.Http.Handlers.updating interstellar_trade_platf.Http.Handlers.reply
    interstellar_trade_platf.Storage.store_update interstellar_trade_platf.Storage.commit
    interstellar_trade_platf.Service.Accept.accept_trade interstellar_trade_platf.Base.◌>>=◌
    interstellar_trade_platf.Base.fail_if interstellar_trade_platf.Base.or_fail actor_from_token
    interstellar_trade_platf.Service.Actor.actor_from_token_no_mfa lookup
    interstellar_trade_platf.Service.Accept.is_expired
    interstellar_trade_platf.Service.Actor.has_role
    interstellar_trade_platf.Service.Actor.contains_role
    interstellar_trade_platf.Service.Ledger.sign_envelope
    interstellar_trade_platf.Domain.Trade.advance_trade
    interstellar_trade_platf.Domain.Status.transition_allowed
    interstellar_trade_platf.Service.Actor.active_user
accepted_succeeds = refl

-- Nothing has the identifier.
abbrev IsUnused : Ident → Type 0
IsUnused id =
    (lookup id demo_state.trades ≡ none)
    × (lookup id demo_state.colonies ≡ none)
    × All (HasNoAccount id) demo_state.colonies

abbrev by_cookie : HttpRequest
by_cookie = accept_request post [] (some (bytes "3"))

cookie_given_succeeds : session_cookie by_cookie ≡ some (bytes "3")
unfolding session_cookie bytes
cookie_given_succeeds = refl

foreign_succeeds : same_origin demo_api by_cookie ≡ false
unfolding same_origin bytes interstellar_trade_platf.Http.Request.contains_text
    interstellar_trade_platf.Http.Request.is_host
foreign_succeeds = refl

handler-cross_origin_example :
    (handler demo_host demo_api demo_exchange by_cookie demo_store).1 ≡ demo_store
handler-cross_origin_example =
    handler-cross_origin demo_host demo_api demo_exchange by_cookie demo_store (bytes "3")
      cookie_given_succeeds foreign_succeeds

reading_succeeds : is_mutating (accept_request get (bytes "Bearer 3") none).method ≡ false
unfolding is_mutating
reading_succeeds = refl

handler-safe_method_example :
    (handler demo_host demo_api demo_exchange
      (accept_request get (bytes "Bearer 3") none)
      demo_store).1
    ≡ demo_store
handler-safe_method_example =
    handler-safe_method demo_host demo_api demo_exchange
      (accept_request get (bytes "Bearer 3") none) demo_store reading_succeeds
