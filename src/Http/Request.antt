-- ===== src/Http/Request.antt =====
-- Requests, answers and the settings of the API: `API`, `NewAPI`, `BearerToken`, `requestToken`,
-- `isHTTPS` and `sameOrigin` of backend/internal/httpapi and backend/internal/domain/util.go.
use Prim.Native.Char.{code}
use Prim.Native.String.{[], ◌∷◌}
use interstellar_trade_platf.Base.{
  ℕ, Bool, true, false, not, ◌&&◌, ◌||◌, Option, none, some, List, [], ◌∷◌, String, ◌==◌,
  if◌then◌else◌,
}
use interstellar_trade_platf.Base.Int.{ℤ}
use interstellar_trade_platf.Domain.Text.{Ident, Text, is_empty, trim_space, text_eq, equal_fold}
use interstellar_trade_platf.Domain.Errors.{AppError}
use interstellar_trade_platf.Domain.State.{AppState, Bundle, LedgerEntry, PendingAction}
use interstellar_trade_platf.Domain.Views.{UserView, ColonyView, AccountView, TradeView, Dashboard}
use interstellar_trade_platf.Domain.Host.{Inputs}
use interstellar_trade_platf.Service.Admin.{CreateUserRequest}
use interstellar_trade_platf.Service.Auth.{BootstrapRequest, LoginRequest}
use interstellar_trade_platf.Service.Session.{AuthResponse}
use interstellar_trade_platf.Service.Security.{ResetToken}
use interstellar_trade_platf.Service.Mint.{MintRequest}
use interstellar_trade_platf.Service.Approvals.{PolicyRequest}
use interstellar_trade_platf.Service.Offer.{CreateOfferRequest}
use interstellar_trade_platf.Service.Export.{ExportBundleRequest}
use interstellar_trade_platf.Service.Import.{ImportBundleRequest, ImportBundleResult}

-- The bytes of a text of the source.
unfoldable pub bytes : String → Text
bytes [] = []
bytes (c ∷ s) = code c ∷ bytes s

pub data Method : Type 0 where
  get post head_method options other_method : Method

-- `decodeJSON` of the body into the struct of each handler; `none` is its error.
pub record Body : Type 0 where
  pub bootstrap : Option BootstrapRequest
  pub login : Option LoginRequest
  pub colony : Option Text
  pub trust : Option Ident
  pub user : Option CreateUserRequest
  pub mint : Option MintRequest
  pub policy : Option PolicyRequest
  pub offer : Option CreateOfferRequest
  pub export : Option ExportBundleRequest
  pub import : Option ImportBundleRequest
  pub mfa_code : Option Text
  pub password : Option (Text × Text)
  pub reset : Option (ResetToken × Text)
  pub active : Option Bool
  pub roles : Option (List Text)

-- A number of the query: absent or empty, refused by `strconv`, or read.
pub data Number : Type 0 where
  absent refused : Number
  given : ℤ → Number

-- `path` is the URL's path, split at the slashes. A header that is absent is empty; `cookie` is the
-- value of the session cookie. `from_proxy` says that the direct peer is loopback or private.
pub record HttpRequest : Type 0 where
  pub method : Method
  pub path : List Text
  pub host_name : Text
  pub authorization : Text
  pub origin : Text
  pub bootstrap_token : Text
  pub session_mode : Text
  pub forwarded_proto : Text
  pub cookie : Option Text
  pub tls : Bool
  pub from_proxy : Bool
  pub content_length : ℤ
  pub colony_id : Ident
  pub limit : Number
  pub before_seq : Number
  pub body : Body

-- The body of an answer.
pub data Answer : Type 0 where
  error_json : AppError → Answer
  too_large cross_origin no_content no_page no_method : Answer
  status_json : String → Answer
  needs_bootstrap_json : Bool → Answer
  ok_json : Answer
  auth_json : AuthResponse → Answer
  user_json : UserView → Answer
  users_json : List UserView → Answer
  dashboard_json : Dashboard → Answer
  colony_json : ColonyView → Answer
  colonies_json : List ColonyView → Answer
  account_json : AccountView → Answer
  accounts_json : List AccountView → Answer
  action_json : PendingAction → Answer
  actions_json : List PendingAction → Answer
  trade_json : TradeView → Answer
  trades_json : List TradeView → Answer
  bundle_json : Bundle → Answer
  imported_json : ImportBundleResult → Answer
  ledger_json : List LedgerEntry → Answer
  enrollment_json : Ident → Answer
  reset_token_json : ResetToken → Answer

-- The session cookie that an answer sets, with path /api, HttpOnly and SameSite=Strict; it is
-- removed where `keep` is false.
pub record SessionCookie : Type 0 where
  pub value : Ident
  pub secure : Bool
  pub keep : Bool

pub record Response : Type 0 where
  pub status : ℕ
  pub answer : Answer
  pub cookie : Option SessionCookie
  pub headers : List (String × Text)

abbrev pub write_json : ℕ → Answer → Response
write_json status answer = record { status = status; answer = answer; cookie = none; headers = [] }

-- The settings, and what Go's library makes of a text: `ident_of` numbers identifiers and tokens,
-- with 0 for the empty one, and `origin_host` is the host of an origin that `url.Parse` accepts.
pub record Api : Type 0 where
  pub allowed_origins : List Text
  pub bootstrap_token : Text
  pub ident_of : Text → Ident
  pub origin_host : Text → Option Text

-- What one request meets: clocks and random source, whether the file can be written, the time of
-- the update, and the state that a first access of the handler saw.
pub record Exchange : Type 0 where
  pub inputs : Inputs
  pub saved : Bool
  pub time : ℕ
  pub seen : AppState

-- The loop of NewAPI.
unfoldable pub trimmed_origins : List Text → List Text
trimmed_origins [] = []
trimmed_origins (o ∷ os) =
    let t = trim_space o in let rest = trimmed_origins os in if is_empty t then rest else t ∷ rest

-- NewAPI and WithBootstrapToken
unfoldable pub new_api : List Text → Text → (Text → Ident) → (Text → Option Text) → Api
new_api origins token ident_of origin_host = record {
  allowed_origins = trimmed_origins origins;
  bootstrap_token = token;
  ident_of = ident_of;
  origin_host = origin_host;
}

-- `strings.SplitN(header, " ", 2)`: what stands before and behind the first space.
unfoldable pub split_space : Text → Option (Text × Text)
split_space [] = none
split_space (c ∷ cs) =
    if c == b' '
    then some ([], cs)
    else elim (split_space cs) [ none ↦ none | some p ↦ some (c ∷ p.0, p.1) ]

bearer_of : Option (Text × Text) → Text
bearer_of none = []
bearer_of (some p) = if equal_fold p.0 (bytes "Bearer") then trim_space p.1 else []

-- BearerToken
unfoldable pub bearer_token : Text → Text
unfolding bearer_of
bearer_token header = bearer_of (split_space header)

-- isMutating
unfoldable pub is_mutating : Method → Bool
is_mutating get = false
is_mutating head_method = false
is_mutating options = false
is_mutating _ = true

-- isHTTPS
unfoldable pub is_https : HttpRequest → Bool
is_https r = r.tls || r.from_proxy && equal_fold r.forwarded_proto (bytes "https")

unfoldable pub contains_text : List Text → Text → Bool
contains_text [] t = false
contains_text (x ∷ xs) t = text_eq x t || contains_text xs t

unfoldable pub is_host : Option Text → Text → Bool
is_host none h = false
is_host (some u) h = not (is_empty u) && equal_fold u h

-- sameOrigin
unfoldable pub same_origin : Api → HttpRequest → Bool
same_origin api r =
    not (is_empty r.origin)
    && (contains_text api.allowed_origins r.origin
        || is_host (api.origin_host r.origin) r.host_name)

-- bootstrapAllowed
unfoldable pub bootstrap_allowed : Api → HttpRequest → Bool
bootstrap_allowed api r =
    not (is_empty api.bootstrap_token) && text_eq r.bootstrap_token api.bootstrap_token

-- API.token
unfoldable pub token_of : Api → HttpRequest → Ident
token_of api r = api.ident_of (bearer_token r.authorization)

cookie_value : Option Text → Text
cookie_value none = []
cookie_value (some v) = v

-- requestToken
unfoldable pub request_token : Api → HttpRequest → Ident
unfolding cookie_value
request_token api r =
    let t = bearer_token r.authorization in
    api.ident_of (if is_empty t then cookie_value r.cookie else t)
