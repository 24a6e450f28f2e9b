-- ===== src/Service/Security.antt =====
-- Account security: backend/internal/service/security.go, with `ValidNewPassword` and the reset tokens
-- of backend/internal/domain/security.go. The link that shows a new secret as a code is left out.
pub mod Manned
pub mod Reset
use interstellar_trade_platf.Base.{
  ℕ, ◌+◌, Bool, true, false, not, ◌&&◌, ◌||◌, Option, none, some, List, [], ◌∷◌, ◌==◌, is_some,
  length, ltb, if◌then◌else◌, Result, ok, err, ◌>>=◌, ◌>>◌, fail_if, or_fail, String,
}
use interstellar_trade_platf.Base.Map.{Map, lookup, insert}
use interstellar_trade_platf.Domain.Text.{Ident, Text, empty}
use interstellar_trade_platf.Domain.Clock.{Stamp, blank, format_time, parse_time, is_before}
use interstellar_trade_platf.Domain.Errors.{AppError, bad_request, forbidden, not_found, conflict}
use interstellar_trade_platf.Domain.Roles.{normalize_roles}
use interstellar_trade_platf.Domain.State.{
  AppState, Colony, Session, User, Role, EntryType, Detail, super_admin, user_deactivated,
  user_reactivated, user_roles_changed, ident, role_list,
}
use interstellar_trade_platf.Domain.Views.{UserView}
use interstellar_trade_platf.Domain.Host.{Host, Inputs}
use interstellar_trade_platf.Service.Actor.{
  has_role, contains_role, can_manage_colony, actor_from_token, actor_from_token_no_mfa,
}
use interstellar_trade_platf.Service.Auth.{
  is_locked, verify_totp, invalid_creds, note_login_failure,
}
use interstellar_trade_platf.Service.Ledger.{append_ledger}
use interstellar_trade_platf.Service.View.{to_user_view}
use interstellar_trade_platf.Service.Tx.{modify_colony, internal}

-- The key of the user that a token's session belongs to.
abbrev pub session_user : AppState → Ident → Ident
session_user s token = elim (lookup token s.sessions) [ none ↦ empty | some x ↦ x.user_id ]

abbrev pub put_user : Ident → User → AppState → AppState
put_user k u s = record s { users = insert k u s.users }

-- EnrollMFA; the answer is the secret.
unfoldable pub enroll_mfa : Inputs → AppState → Ident → Result AppError (Ident × AppState)
enroll_mfa inp state token = do
  actor ← actor_from_token_no_mfa (inp.wall 0) state token
  fail_if actor.mfa_enabled
      (conflict "MFA is already enabled; ask an administrator to reset it first")
  secret ← or_fail inp.secret internal
  ok (
    secret,
    put_user (session_user state token) (record actor { mfa_pending_secret = secret }) state,
  )

unfoldable pub confirm_mfa :
    Host → Inputs → AppState → Ident → Text → Result AppError (UserView × AppState)
confirm_mfa host inp state token code = do
  actor ← actor_from_token_no_mfa (inp.wall 0) state token
  fail_if (actor.mfa_pending_secret == empty) (conflict "no MFA enrolment in progress")
  let step = verify_totp host (inp.wall 1) actor.mfa_pending_secret code 0
  fail_if (step == 0) (bad_request "invalid code")
  let actor' = record actor {
    mfa_secret = actor.mfa_pending_secret;
    mfa_pending_secret = empty;
    mfa_enabled = true;
    mfa_last_step = step;
  }
  ok (to_user_view actor', put_user (session_user state token) actor' state)

-- authorizeUserAdmin, of a target that is there
unfoldable pub authorize_user_admin : User → User → Result AppError (Unit {0})
authorize_user_admin actor target = do
  fail_if (actor.id == target.id) (forbidden "administrators cannot modify their own account here")
  fail_if (has_role target super_admin && not (has_role actor super_admin))
      (forbidden "only super_admin can administer a super_admin")
  fail_if (not (can_manage_colony actor target.colony_id))
      (forbidden "not allowed to administer this user")

-- The loop of dropSessions.
unfoldable pub without_sessions : Ident → Ident → Map Session → Map Session
without_sessions user_id except [] = []
without_sessions user_id except (e ∷ m) =
    if e.1.user_id == user_id && not (e.0 == except)
    then without_sessions user_id except m
    else e ∷ without_sessions user_id except m

-- dropSessions
abbrev pub drop_sessions : Ident → Ident → AppState → AppState
drop_sessions user_id except s = record s { sessions = without_sessions user_id except s.sessions }

-- ResetTokenTTL, one hour
abbrev reset_token_ttl : ℕ
reset_token_ttl = 3600000000000

-- A reset token, "<user id>.<secret>", or a text without these parts.
pub data ResetToken : Type 0 where
  malformed : ResetToken
  parts : Ident → Ident → ResetToken

-- IssueResetToken
unfoldable pub issue_reset_token :
    Host → Inputs → AppState → Ident → Ident → Result AppError (ResetToken × AppState)
issue_reset_token host inp state token user_id = do
  actor ← actor_from_token host (inp.wall 0) state token
  target ← or_fail (lookup user_id state.users) (not_found "user not found")
  authorize_user_admin actor target
  secret ← or_fail inp.secret internal
  let target' = record target {
    reset_token_hash = host.hash_secret secret;
    reset_expires_at = format_time (inp.wall 1 + reset_token_ttl);
  }
  ok (parts target.id secret, put_user user_id target' state)

-- ValidNewPassword
unfoldable pub valid_new_password : Text → Result AppError (Unit {0})
valid_new_password pw = do
  fail_if (ltb (length pw) 8) (bad_request "password must be at least 8 characters")
  fail_if (ltb 256 (length pw)) (bad_request "password must be at most 256 bytes")

abbrev bad_reset : String → AppError
bad_reset reason = record (bad_request "invalid or expired reset token") { reason = reason }

-- `valid` of CompleteReset
unfoldable pub reset_is_valid : ℕ → Ident → Option User → Bool
reset_is_valid now hash none = false
reset_is_valid now hash (some u) =
    u.active
    && (not (u.reset_token_hash == empty)
        && (u.reset_token_hash == hash && elim (parse_time u.reset_expires_at) [
          | none ↦ false
          | some exp ↦ is_before now exp
        ]))

abbrev pub valid_user : ℕ → Ident → Option User → Option User
valid_user now hash o = if reset_is_valid now hash o then o else none

-- The update of CompleteReset.
unfoldable pub consume_reset :
    Inputs → AppState → Ident → Ident → Ident → Result AppError (Unit {0} × AppState)
consume_reset inp state user_id hash password_hash = do
  u ←
      or_fail (valid_user (inp.wall 1) hash (lookup user_id state.users))
        (bad_reset "consumed_or_expired")
  let u' = record u {
    password_hash = password_hash;
    password_salt = empty;
    reset_token_hash = empty;
    reset_expires_at = blank;
    failed_logins = 0;
    locked_until = blank;
    password_changed_at = format_time (inp.now 0);
  }
  ok (tt, drop_sessions user_id empty (put_user user_id u' state))

-- CompleteReset with a token that has its parts; `seen` is the state at the first check.
unfoldable pub complete_reset :
    Host → Inputs → AppState → AppState → ResetToken → Text → Result AppError (Unit {0} × AppState)
complete_reset host inp seen state malformed pw = do
  valid_new_password pw
  err (bad_reset "malformed")
complete_reset host inp seen state (parts user_id secret) pw = do
  valid_new_password pw
  fail_if (not (reset_is_valid (inp.wall 0) (host.hash_secret secret) (lookup user_id seen.users)))
      (bad_reset "unknown_or_expired")
  password_hash ← or_fail (host.hash_password pw) internal
  consume_reset inp state user_id (host.hash_secret secret) password_hash

-- The update of ChangePassword; `c` is the user as read before.
unfoldable pub replace_password :
    Inputs → AppState → Ident → User → Ident → Result AppError (Unit {0} × AppState)
replace_password inp state token c password_hash = do
  u ← actor_from_token_no_mfa (inp.wall 2) state token
  fail_if (not (u.password_hash == c.password_hash))
      (conflict "password changed concurrently; retry")
  let u' = record u {
    password_hash = password_hash;
    password_salt = empty;
    password_changed_at = format_time (inp.now 0);
  }
  ok (tt, drop_sessions u.id token (put_user (session_user state token) u' state))

-- ChangePassword: `none` in the answer is the refusal of a wrong password, which is counted.
unfoldable pub change_password :
    Host
    → Inputs
    → AppState
    → AppState
    → Ident
    → Text
    → Text
    → Result AppError (Option (Unit {0}) × AppState)
change_password host inp seen state token current_password pw = do
  valid_new_password pw
  c ← actor_from_token_no_mfa (inp.wall 0) seen token
  fail_if (is_locked (inp.wall 1) c) (invalid_creds "locked")
  let (right, legacy) = host.verify_password current_password c.password_salt c.password_hash
  elim right [
    | false ↦ do
      let (locked, state') = note_login_failure (inp.wall 2) state c.id
      ok (none, state')
    | true ↦ do
      password_hash ← or_fail (host.hash_password pw) internal
      (_, state') ← replace_password inp state token c password_hash
      ok (some tt, state')
  ]

unfoldable pub reset_mfa :
    Host → Inputs → AppState → Ident → Ident → Result AppError (UserView × AppState)
reset_mfa host inp state token user_id = do
  actor ← actor_from_token host (inp.wall 0) state token
  target ← or_fail (lookup user_id state.users) (not_found "user not found")
  authorize_user_admin actor target
  let target' = record target {
    mfa_enabled = false;
    mfa_secret = empty;
    mfa_pending_secret = empty;
    mfa_last_step = 0;
  }
  ok (to_user_view target', drop_sessions target.id empty (put_user user_id target' state))

-- What a change of `Active` does besides: sessions or the lockout.
unfoldable pub with_active : Ident → User → Bool → AppState → User × AppState
with_active user_id target true state =
    let target' = record target { active = true; failed_logins = 0; locked_until = blank } in
    (target', put_user user_id target' state)
with_active user_id target false state =
    let target' = record target { active = false } in
    (target', drop_sessions target.id empty (put_user user_id target' state))

abbrev pub same_flag : Bool → Bool → Bool
same_flag true b = b
same_flag false b = not b

unfoldable pub set_user_active :
    Host → Inputs → AppState → Ident → Ident → Bool → Result AppError (UserView × AppState)
set_user_active host inp state token user_id active = do
  actor ← actor_from_token host (inp.wall 0) state token
  target ← or_fail (lookup user_id state.users) (not_found "user not found")
  authorize_user_admin actor target
  let (target', written) = with_active user_id target active state
  let write : Colony → Colony = λ c.
      append_ledger host (inp.now 0) c (if active then user_reactivated else user_deactivated)
        actor.id (("user_id", ident target.id) ∷ [])
  ok (
      if same_flag target.active active
      then (to_user_view target, state)
      else (to_user_view target', modify_colony target.colony_id write written))

abbrev no_roles : List Role → Bool
no_roles [] = true
no_roles (r ∷ rs) = false

unfoldable pub set_user_roles :
    Host → Inputs → AppState → Ident → Ident → List Text → Result AppError (UserView × AppState)
set_user_roles host inp state token user_id names = do
  let roles = normalize_roles names
  fail_if (no_roles roles) (bad_request "at least one valid role is required")
  actor ← actor_from_token host (inp.wall 0) state token
  target ← or_fail (lookup user_id state.users) (not_found "user not found")
  authorize_user_admin actor target
  fail_if (contains_role roles super_admin && not (has_role actor super_admin))
      (forbidden "only super_admin can assign super_admin")
  let target' = record target { roles = roles }
  let write : Colony → Colony = λ c. append_ledger host (inp.now 0) c user_roles_changed actor.id (
      ("user_id", ident target.id)
      ∷ ("from", role_list target.roles)
      ∷ ("to", role_list roles)
      ∷ [])
  ok (to_user_view target', modify_colony target.colony_id write (put_user user_id target' state))
