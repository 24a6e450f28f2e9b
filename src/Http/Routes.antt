-- ===== src/Http/Routes.antt =====
-- The routes of `API.Handler` (backend/internal/httpapi/handlers.go) and `securityRoutes`
-- (security_handlers.go), and how `http.ServeMux` picks one. No two of them match the same request.
use interstellar_trade_platf.Base.{
  Bool, true, false, Option, none, some, List, [], ◌∷◌, ◌++◌, String, if◌then◌else◌,
}
use interstellar_trade_platf.Domain.Text.{Ident, Text, is_empty, text_eq}
use interstellar_trade_platf.Domain.Host.{Host}
use interstellar_trade_platf.Storage.{Store}
use interstellar_trade_platf.Http.Request.{
  Method, get, post, head_method, HttpRequest, no_page, no_method, Response, write_json, Api,
  Exchange, bytes,
}
use interstellar_trade_platf.Http.Handlers.{
  handle_healthz, handle_readyz, handle_needs_bootstrap, handle_bootstrap, handle_login,
  handle_logout, handle_me, handle_dashboard, handle_list_colonies, handle_create_colony,
  handle_trust_peer, handle_list_users, handle_create_user, handle_list_accounts, handle_mint,
  handle_list_trades, handle_get_trade, handle_create_offer, handle_accept_trade,
  handle_cancel_trade, handle_force_refund, handle_set_policy, handle_list_approvals, decide,
  handle_export_bundle, handle_import_bundle, handle_list_ledger,
}
use interstellar_trade_platf.Http.Handlers.Account.{
  handle_mfa_enroll, handle_mfa_confirm, handle_change_password, handle_complete_reset,
  handle_issue_reset, handle_reset_mfa, handle_set_active, handle_set_roles,
}

-- A segment of a pattern: a word, or `{id}`.
pub data Part : Type 0 where
  word : String → Part
  id_part : Part

-- A handler, which is given the segment at `{id}`.
abbrev pub Handler : Type 0
Handler = Ident → Store → Response × Store

pub record Route : Type 0 where
  pub method : Method
  pub pattern : List Part
  pub handler : Handler

-- The segment at `{id}`, or the empty one, where the pattern matches.
unfoldable pub match_path : List Part → List Text → Text → Option Text
match_path [] [] id = some id
match_path [] (t ∷ ts) id = none
match_path (p ∷ ps) [] id = none
match_path (word w ∷ ps) (t ∷ ts) id = if text_eq (bytes w) t then match_path ps ts id else none
match_path (id_part ∷ ps) (t ∷ ts) id = if is_empty t then none else match_path ps ts t

-- A route for GET serves HEAD too.
unfoldable pub serves : Method → Method → Bool
serves get get = true
serves get head_method = true
serves post post = true
serves _ _ = false

module _ (api : Api) (r : HttpRequest) where
  -- The route's handler where it matches; `known` says that a route before matched the path only.
  unfoldable pub select : List Route → Bool → Store → Response × Store
  select [] known st = (if known then write_json 405 no_method else write_json 404 no_page, st)
  select (route ∷ routes) known st = elim (match_path route.pattern r.path []) [
    | none ↦ select routes known st
    | some id ↦ elim (serves route.method r.method) [
      | true ↦ route.handler (api.ident_of id) st
      | false ↦ select routes true st
    ]
  ]

abbrev v1 : List Part → List Part
v1 ps = word "api" ∷ word "v1" ∷ ps

abbrev on_get : List Part → Handler → Route
on_get pattern handler = record { method = get; pattern = v1 pattern; handler = handler }

abbrev on_post : List Part → Handler → Route
on_post pattern handler = record { method = post; pattern = v1 pattern; handler = handler }

module _ (host : Host) (api : Api) (x : Exchange) (r : HttpRequest) where
  -- securityRoutes
  unfoldable pub security_routes : List Route
  security_routes =
      on_post (word "auth" ∷ word "mfa" ∷ word "enroll" ∷ []) (λ id. handle_mfa_enroll host api x r)
      ∷ on_post (word "auth" ∷ word "mfa" ∷ word "confirm" ∷ [])
          (λ id. handle_mfa_confirm host api x r)
      ∷ on_post (word "auth" ∷ word "password" ∷ []) (λ id. handle_change_password host api x r)
      ∷ on_post (word "auth" ∷ word "reset-password" ∷ [])
          (λ id. handle_complete_reset host api x r)
      ∷ on_post (word "users" ∷ id_part ∷ word "reset-password" ∷ [])
          (handle_issue_reset host api x r)
      ∷ on_post (word "users" ∷ id_part ∷ word "mfa" ∷ word "reset" ∷ [])
          (handle_reset_mfa host api x r)
      ∷ on_post (word "users" ∷ id_part ∷ word "active" ∷ []) (handle_set_active host api x r)
      ∷ on_post (word "users" ∷ id_part ∷ word "roles" ∷ []) (handle_set_roles host api x r)
      ∷ []

  -- The routes of API.Handler, without static files.
  unfoldable pub routes : List Route
  routes =
      on_get (word "healthz" ∷ []) (λ id. handle_healthz host api x r)
        ∷ on_get (word "readyz" ∷ []) (λ id. handle_readyz host api x r)
        ∷ on_get (word "bootstrap" ∷ []) (λ id. handle_needs_bootstrap host api x r)
        ∷ on_post (word "auth" ∷ word "bootstrap" ∷ []) (λ id. handle_bootstrap host api x r)
        ∷ on_post (word "auth" ∷ word "login" ∷ []) (λ id. handle_login host api x r)
        ∷ on_post (word "auth" ∷ word "logout" ∷ []) (λ id. handle_logout host api x r)
        ∷ on_get (word "auth" ∷ word "me" ∷ []) (λ id. handle_me host api x r)
        ∷ security_routes
      ++ on_get (word "dashboard" ∷ []) (λ id. handle_dashboard host api x r)
        ∷ on_get (word "colonies" ∷ []) (λ id. handle_list_colonies host api x r)
        ∷ on_post (word "colonies" ∷ []) (λ id. handle_create_colony host api x r)
        ∷ on_post (word "colonies" ∷ id_part ∷ word "trust" ∷ []) (handle_trust_peer host api x r)
        ∷ on_get (word "users" ∷ []) (λ id. handle_list_users host api x r)
        ∷ on_post (word "users" ∷ []) (λ id. handle_create_user host api x r)
        ∷ on_get (word "accounts" ∷ []) (λ id. handle_list_accounts host api x r)
        ∷ on_post (word "accounts" ∷ word "mint" ∷ []) (λ id. handle_mint host api x r)
        ∷ on_get (word "trades" ∷ []) (λ id. handle_list_trades host api x r)
        ∷ on_get (word "trades" ∷ id_part ∷ []) (handle_get_trade host api x r)
        ∷ on_post (word "trades" ∷ word "offers" ∷ []) (λ id. handle_create_offer host api x r)
        ∷ on_post (word "trades" ∷ id_part ∷ word "accept" ∷ []) (handle_accept_trade host api x r)
        ∷ on_post (word "trades" ∷ id_part ∷ word "cancel" ∷ []) (handle_cancel_trade host api x r)
        ∷ on_post (word "trades" ∷ id_part ∷ word "force-refund" ∷ [])
            (handle_force_refund host api x r)
        ∷ on_post (word "colonies" ∷ id_part ∷ word "policy" ∷ []) (handle_set_policy host api x r)
        ∷ on_get (word "approvals" ∷ []) (λ id. handle_list_approvals host api x r)
        ∷ on_post (word "approvals" ∷ id_part ∷ word "approve" ∷ []) (decide host api x r true)
        ∷ on_post (word "approvals" ∷ id_part ∷ word "reject" ∷ []) (decide host api x r false)
        ∷ on_post (word "relay" ∷ word "export" ∷ []) (λ id. handle_export_bundle host api x r)
        ∷ on_post (word "relay" ∷ word "import" ∷ []) (λ id. handle_import_bundle host api x r)
        ∷ on_get (word "ledger" ∷ []) (λ id. handle_list_ledger host api x r)
        ∷ []

  unfoldable pub serve_mux : Store → Response × Store
  serve_mux = select api r routes false
