-- ===== src/Service/Auth.antt =====
-- `Bootstrap`, `Login` and `Logout` of backend/internal/service/auth.go, with `IsLocked` and
-- `VerifyTOTP` of backend/internal/domain/security.go. The readings of the clock come after 1970.
pub mod Lockout
pub mod Code
use interstellar_trade_platf.Base.{
  ℕ, suc, ◌+◌, ◌-◌, ◌/◌, Bool, true, false, not, ◌&&◌, ◌||◌, Option, none, some, List, [], ◌∷◌,
  ◌==◌, ltb, leb, length, if◌then◌else◌, Result, ok, err, ◌>>=◌, ◌>>◌, fail_if, or_fail, String,
}
use interstellar_trade_platf.Base.Map.{Map, lookup, insert, erase}
use interstellar_trade_platf.Domain.Text.{
  Ident, Text, empty, is_empty, trim_space, equal_fold, text_eq,
}
use interstellar_trade_platf.Domain.Clock.{
  blank, format_time, parse_time, is_before, is_blank, second,
}
use interstellar_trade_platf.Domain.Errors.{
  AppError, code_mfa_required, bad_request, unauthorized, conflict,
}
use interstellar_trade_platf.Domain.State.{AppState, Session, User, super_admin}
use interstellar_trade_platf.Domain.Host.{Host, Inputs}
use interstellar_trade_platf.Service.Admin.{
  normalize_username, new_user, or_username, username_taken,
}
use interstellar_trade_platf.Service.Session.{AuthResponse, create_session}
use interstellar_trade_platf.Service.Tx.{internal}

pub record BootstrapRequest : Type 0 where
  pub username : Text
  pub display_name : Text
  pub password : Text

abbrev has_users : Map User → Bool
has_users [] = false
has_users (e ∷ m) = true

-- The update of Bootstrap, with the hash of the password.
unfoldable pub first_user :
    Inputs → AppState → Text → Text → Ident → Result AppError (AuthResponse × AppState)
first_user inp state username display password_hash = do
  fail_if (has_users state.users) (conflict "bootstrap has already been completed")
  fail_if (username_taken username state.users) (conflict "username already exists")
  id ← or_fail (inp.id 0) internal
  keys ← or_fail inp.keys internal
  let user = new_user (inp.now 0) id keys username display password_hash empty (super_admin ∷ [])
  create_session inp 0 (record state { users = insert id user state.users }) user

-- Bootstrap: `seen` is the state at the first check.
unfoldable pub bootstrap :
    Host
    → Inputs
    → AppState
    → AppState
    → BootstrapRequest
    → Result AppError (AuthResponse × AppState)
bootstrap host inp seen state req = do
  let username = normalize_username req.username
  fail_if (is_empty username || (ltb (length req.password) 8 || ltb 256 (length req.password)))
      (bad_request "username and password of at least 8 characters are required")
  fail_if (has_users seen.users) (conflict "bootstrap has already been completed")
  password_hash ← or_fail (host.hash_password req.password) internal
  first_user inp state username (or_username username (trim_space req.display_name)) password_hash

pub record LoginRequest : Type 0 where
  pub username : Text
  pub password : Text
  pub totp_code : Text

-- IsLocked
unfoldable pub is_locked : ℕ → User → Bool
is_locked now u =
    if is_blank u.locked_until
    then false
    else elim (parse_time u.locked_until) [ none ↦ true | some until ↦ is_before now until ]

-- One candidate of `VerifyTOTP`; `none` is a failure of `TotpAt`.
unfoldable pub try_step : Host → Ident → Text → ℕ → ℕ → ℕ → Option ℕ
try_step host secret code last_step step matched = elim (host.totp_at secret step) [
  | none ↦ none
  | some want ↦
      some (if text_eq want code && (ltb last_step step && matched == 0) then step else matched)
]

-- The steps that `VerifyTOTP` tries, in order.
unfoldable pub try_steps : Host → Ident → Text → ℕ → List ℕ → ℕ → ℕ
try_steps host secret code last_step [] matched = matched
try_steps host secret code last_step (step ∷ steps) matched =
    elim (try_step host secret code last_step step matched) [
      | none ↦ 0
      | some m ↦ try_steps host secret code last_step steps m
    ]

-- VerifyTOTP: the step that the code belongs to, or 0.
unfoldable pub verify_totp : Host → ℕ → Ident → Text → ℕ → ℕ
verify_totp host now secret raw_code last_step =
    let code = trim_space raw_code in
    let cur = now / second / 30 in
    if not (length code == 6)
    then 0
    else try_steps host secret code last_step ((cur - 1) ∷ cur ∷ (cur + 1) ∷ []) 0

-- findUserByUsername; the users are visited in the order of the list.
unfoldable pub find_user_by_username : Text → Map User → Option User
find_user_by_username name [] = none
find_user_by_username name (e ∷ m) =
    if equal_fold e.1.username name then some e.1 else find_user_by_username name m

-- invalidCreds
abbrev pub invalid_creds : String → AppError
invalid_creds reason = record (unauthorized "invalid credentials") { reason = reason }

abbrev mfa_code_missing : AppError
mfa_code_missing = record (unauthorized "a one-time code is required") {
  code = code_mfa_required;
  reason = "mfa_code_missing";
}

-- `u == nil || !u.Active`, then the copy of the credentials
abbrev known_user : Option User → Option User
known_user none = none
known_user (some u) = if u.active then some u else none

-- What the checks before the update find: a refusal, a failure that counts, or a match with the hash
-- of an upgraded password.
pub data Checked : Type 0 where
  refused : AppError → Checked
  counted : User → String → Checked
  matched : User → Option Ident → Checked

-- The one-time code, where the account asks for one.
unfoldable pub check_code : Host → ℕ → User → LoginRequest → Option Ident → Checked
check_code host now u req upgraded =
    if not u.mfa_enabled
    then matched u upgraded
    else if is_empty (trim_space req.totp_code)
    then refused mfa_code_missing
    else if verify_totp host now u.mfa_secret req.totp_code u.mfa_last_step == 0
    then counted u "bad_totp"
    else matched u upgraded

-- The upgrade of a legacy hash.
unfoldable pub check_upgrade : Host → ℕ → User → LoginRequest → Bool → Checked
check_upgrade host now u req true = elim (check_code host now u req none) [
  | refused e ↦ refused e
  | counted v reason ↦ counted v reason
  | matched v _ ↦ elim (host.hash_password req.password) [
    | none ↦ refused internal
    | some h ↦ matched v (some h)
  ]
]
check_upgrade host now u req false = check_code host now u req none

unfoldable pub check_password : Host → Inputs → User → LoginRequest → Checked
check_password host inp u req =
    if is_locked (inp.wall 0) u
    then refused (invalid_creds "locked")
    else let (right, legacy) = host.verify_password req.password u.password_salt u.password_hash in
      if not right then counted u "bad_password" else check_upgrade host (inp.wall 1) u req legacy

-- The part of `Login` before the update, on the state that it read.
unfoldable pub check_login : Host → Inputs → AppState → LoginRequest → Checked
check_login host inp seen req =
    let username = normalize_username req.username in
    if is_empty username || is_empty req.password
    then refused (bad_request "username and password are required")
    else if ltb 256 (length req.password)
    then refused (invalid_creds "oversized_password")
    else elim (known_user (find_user_by_username username seen.users)) [
      | none ↦ refused (invalid_creds "unknown_or_inactive")
      | some u ↦ check_password host inp u req
    ]

abbrev pub max_failed_logins : ℕ
max_failed_logins = 5

-- LockoutDuration, 15 minutes
abbrev pub lockout_duration : ℕ
lockout_duration = 900000000000

-- The counter of noteLoginFailure; the Boolean says whether a lockout began.
unfoldable pub count_failure : ℕ → User → Bool × User
count_failure now u =
    if leb max_failed_logins (suc u.failed_logins)
    then (true, record u { failed_logins = 0; locked_until = format_time (now + lockout_duration) })
    else (false, record u { failed_logins = suc u.failed_logins })

-- noteLoginFailure
unfoldable pub note_login_failure : ℕ → AppState → Ident → Bool × AppState
note_login_failure now state user_id = elim (lookup user_id state.users) [
  | none ↦ (false, state)
  | some u ↦
      let (locked, u') = count_failure now u in
      (locked, record state { users = insert user_id u' state.users })
]

-- The second check of the code, which uses it up.
unfoldable pub use_code : Host → ℕ → User → LoginRequest → Result AppError User
use_code host now user req =
    if not user.mfa_enabled
    then ok user
    else let step = verify_totp host now user.mfa_secret req.totp_code user.mfa_last_step in
      if step == 0
      then err (invalid_creds "totp_replay")
      else ok (record user { mfa_last_step = step })

abbrev upgrade : Option Ident → User → User
upgrade none u = u
upgrade (some h) u = record u { password_hash = h; password_salt = empty }

-- The update of Login; `c` is the user as it was when the password was checked.
unfoldable pub finish_login :
    Host
    → Inputs
    → AppState
    → User
    → LoginRequest
    → Option Ident
    → Result AppError (AuthResponse × AppState)
finish_login host inp state c req upgraded = do
  user ← or_fail (lookup c.id state.users) (invalid_creds "changed_during_login")
  fail_if
      (not user.active
        || (not (user.password_hash == c.password_hash) || is_locked (inp.wall 2) user))
      (invalid_creds "changed_during_login")
  used ← use_code host (inp.wall 3) user req
  let user' = record (upgrade upgraded used) { failed_logins = 0; locked_until = blank }
  create_session inp 4 (record state { users = insert c.id user' state.users }) user'

-- An answer that goes with a written state: a session, or the refusal that was counted.
pub data LoginAnswer : Type 0 where
  granted : AuthResponse → LoginAnswer
  denied : AppError → LoginAnswer

unfoldable pub after_check :
    Checked → Host → Inputs → AppState → LoginRequest → Result AppError (LoginAnswer × AppState)
after_check (refused e) host inp state req = err e
after_check (counted u reason) host inp state req =
    let (locked, state') = note_login_failure (inp.wall 2) state u.id in
    ok (denied (invalid_creds reason), state')
after_check (matched u upgraded) host inp state req =
    finish_login host inp state u req upgraded >>= λ r. ok (granted r.0, r.1)

-- Login: `seen` is the state at the check. The reason of a refusal, which goes to the audit log
-- only, is kept without the note that a lockout began.
unfoldable pub login :
    Host → Inputs → AppState → AppState → LoginRequest → Result AppError (LoginAnswer × AppState)
login host inp seen state req = after_check (check_login host inp seen req) host inp state req

unfoldable pub logout : AppState → Ident → Result AppError (Unit {0} × AppState)
logout state token = ok (tt, record state { sessions = erase token state.sessions })
