-- ===== src/Http/Effect/Account.antt =====
-- The handlers of backend/internal/httpapi/security_handlers.go beside the calls of Money/Run.
use interstellar_trade_platf.Base.{refl}
use interstellar_trade_platf.Domain.Text.{Ident}
use interstellar_trade_platf.Domain.Host.{Host}
use interstellar_trade_platf.Storage.{Store}
use interstellar_trade_platf.Money.Run
use interstellar_trade_platf.Money.Run.{perform}
use interstellar_trade_platf.Http.Request.{HttpRequest, Api, Exchange, token_of}
use interstellar_trade_platf.Http.Handlers.Account.{
  handle_mfa_enroll, handle_mfa_confirm, handle_change_password, handle_complete_reset,
  handle_issue_reset, handle_reset_mfa, handle_set_active, handle_set_roles,
}
use interstellar_trade_platf.Http.Effect.{Effect, updating-Effect, decoding-Effect}

module _ (host : Host) (api : Api) (x : Exchange) (r : HttpRequest) where
  pub handle_mfa_enroll-Effect :
      (st : Store) → Effect host x st (handle_mfa_enroll host api x r st).1
  unfolding handle_mfa_enroll perform
  handle_mfa_enroll-Effect st = updating-Effect host x st _ _ (Run.enroll (token_of api r)) refl

  pub handle_mfa_confirm-Effect :
      (st : Store) → Effect host x st (handle_mfa_confirm host api x r st).1
  unfolding handle_mfa_confirm perform
  handle_mfa_confirm-Effect st =
      decoding-Effect host x st _ _
        λ req. updating-Effect host x st _ _ (Run.confirm (token_of api r) req) refl

  pub handle_change_password-Effect :
      (st : Store) → Effect host x st (handle_change_password host api x r st).1
  unfolding handle_change_password perform
  handle_change_password-Effect st =
      decoding-Effect host x st _ _
        λ req. updating-Effect host x st _ _ (Run.change x.seen (token_of api r) req.0 req.1) refl

  pub handle_complete_reset-Effect :
      (st : Store) → Effect host x st (handle_complete_reset host api x r st).1
  unfolding handle_complete_reset perform
  handle_complete_reset-Effect st =
      decoding-Effect host x st _ _
        λ req. updating-Effect host x st _ _ (Run.reset x.seen req.0 req.1) refl

  pub handle_issue_reset-Effect :
      (id : Ident) (st : Store) → Effect host x st (handle_issue_reset host api x r id st).1
  unfolding handle_issue_reset perform
  handle_issue_reset-Effect id st =
      updating-Effect host x st _ _ (Run.issue_reset (token_of api r) id) refl

  pub handle_reset_mfa-Effect :
      (id : Ident) (st : Store) → Effect host x st (handle_reset_mfa host api x r id st).1
  unfolding handle_reset_mfa perform
  handle_reset_mfa-Effect id st =
      updating-Effect host x st _ _ (Run.drop_mfa (token_of api r) id) refl

  pub handle_set_active-Effect :
      (id : Ident) (st : Store) → Effect host x st (handle_set_active host api x r id st).1
  unfolding handle_set_active perform
  handle_set_active-Effect id st =
      decoding-Effect host x st _ _
        λ req. updating-Effect host x st _ _ (Run.activate (token_of api r) id req) refl

  pub handle_set_roles-Effect :
      (id : Ident) (st : Store) → Effect host x st (handle_set_roles host api x r id st).1
  unfolding handle_set_roles perform
  handle_set_roles-Effect id st =
      decoding-Effect host x st _ _
        λ req. updating-Effect host x st _ _ (Run.assign (token_of api r) id req) refl
