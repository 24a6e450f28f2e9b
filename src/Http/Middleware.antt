-- ===== src/Http/Middleware.antt =====
-- The middleware of backend/internal/httpapi: `withSecurityHeaders` and `withSession`
-- (security_handlers.go), `withBodyLimit` (server.go) and `withCORS` (handlers.go), as
-- `API.Handler` composes them.
use interstellar_trade_platf.Base.{
  Bool, true, false, not, ◌&&◌, Option, none, some, List, [], ◌∷◌, ◌++◌, String, if◌then◌else◌,
}
use interstellar_trade_platf.Base.Int.{ℤ, pos, ltb_ℤ}
use interstellar_trade_platf.Domain.Text.{Text, is_empty, text_eq}
use interstellar_trade_platf.Domain.Host.{Host}
use interstellar_trade_platf.Storage.{Store}
use interstellar_trade_platf.Http.Request.{
  Method, options, HttpRequest, too_large, cross_origin, no_content, Response, write_json, Api,
  Exchange, bytes, is_mutating, is_https, contains_text, same_origin,
}
use interstellar_trade_platf.Http.Routes.{serve_mux}

-- What serves a request; a middleware may change the request before it passes it on.
abbrev pub Next : Type 0
Next = HttpRequest → Store → Response × Store

abbrev add_headers : List (String × Text) → Response × Store → Response × Store
add_headers headers (res, st) = (record res { headers = headers ++ res.headers }, st)

unfoldable pub is_options : Method → Bool
is_options options = true
is_options _ = false

unfoldable pub starts_with : Text → List Text → Bool
starts_with w [] = false
starts_with w (t ∷ ts) = text_eq w t

same_path : List Text → List Text → Bool
same_path [] [] = true
same_path (s ∷ ss) (t ∷ ts) = text_eq s t && same_path ss ts
same_path _ _ = false

-- `r.URL.Path == "/api/v1/relay/import"`
is_import : List Text → Bool
is_import path = same_path path (bytes "api" ∷ bytes "v1" ∷ bytes "relay" ∷ bytes "import" ∷ [])

-- MaxBodyBytes, 1 MiB, and maxRelayBodyBytes, 8 MiB
unfoldable pub body_limit : List Text → ℤ
unfolding is_import same_path
body_limit path = if is_import path then pos 8388608 else pos 1048576

-- withBodyLimit. Reads beyond the limit end in a decoding error.
unfoldable pub with_body_limit : Next → Next
with_body_limit next r st =
    if ltb_ℤ (body_limit r.path) r.content_length then (write_json 413 too_large, st) else next r st

-- withCORS
unfoldable pub with_cors : Api → Next → Next
with_cors api next r st =
    let headers =
      if not (is_empty r.origin) && contains_text api.allowed_origins r.origin
      then ("Access-Control-Allow-Origin", r.origin)
        ∷ ("Vary", bytes "Origin")
        ∷ (
          "Access-Control-Allow-Headers",
          bytes "Authorization, Content-Type, X-Session-Mode, X-Bootstrap-Token",
        )
        ∷ ("Access-Control-Allow-Methods", bytes "GET, POST, OPTIONS")
        ∷ []
      else [] in
    add_headers headers
      (elim (is_options r.method) [ true ↦ (write_json 204 no_content, st) | false ↦ next r st ])

not_empty : Option Text → Option Text
not_empty none = none
not_empty (some v) = if is_empty v then none else some v

-- The value of the session cookie, where it counts: the request has no Authorization header.
unfoldable pub session_cookie : HttpRequest → Option Text
unfolding not_empty
session_cookie r = if is_empty r.authorization then not_empty r.cookie else none

-- What follows the reading of the cookie.
unfoldable pub with_cookie : Api → Next → HttpRequest → Store → Option Text → Response × Store
with_cookie api next r st none = next r st
with_cookie api next r st (some value) = elim (is_mutating r.method && not (same_origin api r)) [
  | true ↦ (write_json 403 cross_origin, st)
  | false ↦ next (record r { authorization = bytes "Bearer " ++ value }) st
]

-- withSession
unfoldable pub with_session : Api → Next → Next
with_session api next r st = with_cookie api next r st (session_cookie r)

-- The headers of every answer.
unfoldable pub security_headers : List (String × Text)
security_headers =
    ("X-Content-Type-Options", bytes "nosniff")
    ∷ ("X-Frame-Options", bytes "DENY")
    ∷ ("Referrer-Policy", bytes "no-referrer")
    ∷ ("Permissions-Policy", bytes "geolocation=(), microphone=(), camera=(), payment=()")
    ∷ ("Cross-Origin-Opener-Policy", bytes "same-origin")
    ∷ ("Cross-Origin-Resource-Policy", bytes "same-origin")
    ∷ (
      "Content-Security-Policy",
      bytes
          "default-src 'self'; script-src 'self'; style-src 'self' 'unsafe-inline'; font-src 'self' data:; img-src 'self' data:; connect-src 'self'; object-src 'none'; base-uri 'none'; form-action 'self'; frame-ancestors 'none'",
    )
    ∷ []

-- withSecurityHeaders
unfoldable pub with_security_headers : Next → Next
with_security_headers next r st =
    let api_headers =
      if starts_with (bytes "api") r.path then ("Cache-Control", bytes "no-store") ∷ [] else [] in
    let tls_headers =
      if is_https r
      then ("Strict-Transport-Security", bytes "max-age=31536000; includeSubDomains") ∷ []
      else [] in
    add_headers (security_headers ++ api_headers ++ tls_headers) (next r st)

-- API.Handler
unfoldable pub handler : Host → Api → Exchange → HttpRequest → Store → Response × Store
handler host api x =
    with_security_headers
      (with_body_limit (with_cors api (with_session api (λ r. serve_mux host api x r))))
