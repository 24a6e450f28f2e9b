-- ===== src/Service/Actor.antt =====
-- Who calls, and what the caller may do: backend/internal/domain/util.go and security.go (roles) and
-- backend/internal/service/common.go (authorization, session lookup).
use interstellar_trade_platf.Base.{
  ℕ, Bool, true, false, not, ◌&&◌, ◌||◌, Option, none, some, List, [], ◌∷◌, ◌==◌, if◌then◌else◌,
  Result, ok, ◌>>=◌, ◌>>◌, fail_if, or_fail,
}
use interstellar_trade_platf.Base.Map.{lookup}
use interstellar_trade_platf.Domain.Text.{Ident, empty}
use interstellar_trade_platf.Domain.Clock.{parse_time, is_after, Stamp}
use interstellar_trade_platf.Domain.Errors.{AppError, code_mfa_enrollment_required, unauthorized}
use interstellar_trade_platf.Domain.State.{
  Role, super_admin, colony_admin, trader, relay_operator, other_role, User, AppState,
}
use interstellar_trade_platf.Domain.Host.{Host}

abbrev pub role_index : Role → ℕ
role_index super_admin = 0
role_index colony_admin = 1
role_index trader = 2
role_index relay_operator = 3
role_index other_role = 4

-- containsRole
unfoldable pub contains_role : List Role → Role → Bool
contains_role [] role = false
contains_role (r ∷ rs) role = role_index r == role_index role || contains_role rs role

-- HasRole
unfoldable pub has_role : User → Role → Bool
has_role user role = contains_role user.roles role

-- IsAdminUser, of a user that is there
unfoldable pub is_admin_user : User → Bool
is_admin_user u = has_role u super_admin || has_role u colony_admin

-- canManageColony
unfoldable pub can_manage_colony : User → Ident → Bool
can_manage_colony actor colony_id =
    has_role actor super_admin || actor.colony_id == colony_id && has_role actor colony_admin

-- canRelay
unfoldable pub can_relay : User → Ident → Bool
can_relay actor colony_id =
    has_role actor super_admin
    || actor.colony_id == colony_id
      && (has_role actor colony_admin || has_role actor relay_operator)

-- `err != nil || now.After(expiresAt)` on a session's expiry
abbrev pub session_expired : ℕ → Stamp → Bool
session_expired now s = elim (parse_time s) [ none ↦ true | some exp ↦ is_after now exp ]

-- `user == nil || !user.Active`
unfoldable pub active_user : Option User → Option User
active_user none = none
active_user (some u) = if u.active then some u else none

-- actorFromTokenNoMFA, with the reading of `time.Now`
unfoldable pub actor_from_token_no_mfa : ℕ → AppState → Ident → Result AppError User
actor_from_token_no_mfa wall state token = do
  fail_if (token == empty) (unauthorized "missing bearer token")
  sess ← or_fail (lookup token state.sessions) (unauthorized "invalid session")
  fail_if (session_expired wall sess.expires_at) (unauthorized "session expired")
  or_fail (active_user (lookup sess.user_id state.users)) (unauthorized "user not found")

abbrev mfa_enrollment_required : AppError
mfa_enrollment_required = record {
  status = 403;
  code = code_mfa_enrollment_required;
  message = "administrators must enable MFA before using the API";
  reason = "";
}

-- actorFromToken
unfoldable pub actor_from_token : Host → ℕ → AppState → Ident → Result AppError User
actor_from_token host wall state token = do
  user ← actor_from_token_no_mfa wall state token
  fail_if (host.admin_mfa_required && (is_admin_user user && not user.mfa_enabled))
      mfa_enrollment_required
  ok user
