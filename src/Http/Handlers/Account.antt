-- ===== src/Http/Handlers/Account.antt =====
-- The handlers of backend/internal/httpapi/security_handlers.go: second factor, passwords, and the
-- administration of users.
use interstellar_trade_platf.Base.{Option, none, some}
use interstellar_trade_platf.Domain.Text.{Ident}
use interstellar_trade_platf.Domain.Host.{Host}
use interstellar_trade_platf.Service.Auth.{invalid_creds}
use interstellar_trade_platf.Service.Security.{
  enroll_mfa, confirm_mfa, issue_reset_token, complete_reset, change_password, reset_mfa,
  set_user_active, set_user_roles,
}
use interstellar_trade_platf.Storage.{Store}
use interstellar_trade_platf.Http.Request.{
  HttpRequest, ok_json, user_json, enrollment_json, reset_token_json, Response, write_json, Api,
  Exchange, token_of,
}
use interstellar_trade_platf.Http.Handlers.{write_error, updating, decoding}

-- A wrong password that was counted is an error.
unfoldable pub respond_change : Option (Unit {0}) → Response
respond_change none = write_error (invalid_creds "bad_password")
respond_change (some u) = write_json 200 ok_json

module _ (host : Host) (api : Api) (x : Exchange) (r : HttpRequest) where
  token : Ident
  token = token_of api r

  unfoldable pub handle_mfa_enroll : Store → Response × Store
  unfolding token
  handle_mfa_enroll =
      updating x (λ v. write_json 200 (enrollment_json v)) (λ s. enroll_mfa x.inputs s token)

  unfoldable pub handle_mfa_confirm : Store → Response × Store
  unfolding token
  handle_mfa_confirm = decoding x r.body.mfa_code λ code.
      updating x (λ v. write_json 200 (user_json v)) (λ s. confirm_mfa host x.inputs s token code)

  unfoldable pub handle_change_password : Store → Response × Store
  unfolding token
  handle_change_password = decoding x r.body.password λ req.
      updating x respond_change (λ s. change_password host x.inputs x.seen s token req.0 req.1)

  unfoldable pub handle_complete_reset : Store → Response × Store
  handle_complete_reset = decoding x r.body.reset λ req.
      updating x (λ _. write_json 200 ok_json)
        (λ s. complete_reset host x.inputs x.seen s req.0 req.1)

  -- `id` is the segment of the path that the route names so.
  unfoldable pub handle_issue_reset : Ident → Store → Response × Store
  unfolding token
  handle_issue_reset id =
      updating x (λ v. write_json 200 (reset_token_json v))
        (λ s. issue_reset_token host x.inputs s token id)

  unfoldable pub handle_reset_mfa : Ident → Store → Response × Store
  unfolding token
  handle_reset_mfa id =
      updating x (λ v. write_json 200 (user_json v)) (λ s. reset_mfa host x.inputs s token id)

  unfoldable pub handle_set_active : Ident → Store → Response × Store
  unfolding token
  handle_set_active id = decoding x r.body.active λ active.
      updating x (λ v. write_json 200 (user_json v))
        (λ s. set_user_active host x.inputs s token id active)

  unfoldable pub handle_set_roles : Ident → Store → Response × Store
  unfolding token
  handle_set_roles id = decoding x r.body.roles λ names.
      updating x (λ v. write_json 200 (user_json v))
        (λ s. set_user_roles host x.inputs s token id names)
