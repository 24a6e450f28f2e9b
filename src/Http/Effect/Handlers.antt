-- ===== src/Http/Effect/Handlers.antt =====
-- The handlers of backend/internal/httpapi/handlers.go beside the calls of Money/Run.
use interstellar_trade_platf.Base.{Bool, true, Option, none, some, sym, refl, inl, inr, Bool-cases}
use interstellar_trade_platf.Base.Int.{ℤ}
use interstellar_trade_platf.Domain.Text.{Ident}
use interstellar_trade_platf.Domain.Host.{Host}
use interstellar_trade_platf.Storage.{Store}
use interstellar_trade_platf.Money.Run
use interstellar_trade_platf.Money.Run.{perform}
use interstellar_trade_platf.Http.Request.{
  HttpRequest, Api, Exchange, token_of, request_token, bootstrap_allowed,
}
use interstellar_trade_platf.Service.Mint.{mint_or_propose}
use interstellar_trade_platf.Http.Handlers.{
  reading, limit_of, ledger_page, before_seq_of, handle_healthz, handle_readyz,
  handle_needs_bootstrap, handle_bootstrap, handle_login, handle_logout, handle_me,
  handle_dashboard, handle_list_colonies, handle_create_colony, handle_trust_peer,
  handle_list_users, handle_create_user, handle_list_accounts, handle_mint, handle_list_trades,
  handle_get_trade, handle_create_offer, handle_accept_trade, handle_cancel_trade,
  handle_force_refund, handle_set_policy, handle_list_approvals, decide, handle_export_bundle,
  handle_import_bundle, handle_list_ledger,
}
use interstellar_trade_platf.Http.Effect.{
  Effect, untouched, updating-Effect, decoding-Effect, drop_unit,
}

module _ (host : Host) (api : Api) (x : Exchange) (r : HttpRequest) where
  pub handle_healthz-Effect : (st : Store) → Effect host x st (handle_healthz host api x r st).1
  unfolding handle_healthz
  handle_healthz-Effect st = untouched

  pub handle_readyz-Effect : (st : Store) → Effect host x st (handle_readyz host api x r st).1
  unfolding handle_readyz
  handle_readyz-Effect st = untouched

  pub handle_needs_bootstrap-Effect :
      (st : Store) → Effect host x st (handle_needs_bootstrap host api x r st).1
  unfolding handle_needs_bootstrap
  handle_needs_bootstrap-Effect st = untouched

  pub handle_bootstrap-Effect : (st : Store) → Effect host x st (handle_bootstrap host api x r st).1
  unfolding handle_bootstrap perform
  handle_bootstrap-Effect st = elim (Bool-cases (bootstrap_allowed api r)) [
    | inl e ↦ rw e (
        decoding-Effect host x st _ _
          λ req. updating-Effect host x st _ _ (Run.begin x.seen req) refl)
    | inr e ↦ rw e untouched
  ]

  pub handle_login-Effect : (st : Store) → Effect host x st (handle_login host api x r st).1
  unfolding handle_login perform
  handle_login-Effect st =
      decoding-Effect host x st _ _ λ req. updating-Effect host x st _ _ (Run.enter x.seen req) refl

  pub handle_logout-Effect : (st : Store) → Effect host x st (handle_logout host api x r st).1
  unfolding handle_logout perform
  handle_logout-Effect st =
      updating-Effect host x st _ _ (Run.leave (request_token api r)) (sym (drop_unit _))

  pub handle_me-Effect : (st : Store) → Effect host x st (handle_me host api x r st).1
  unfolding handle_me reading
  handle_me-Effect st = untouched

  pub handle_dashboard-Effect : (st : Store) → Effect host x st (handle_dashboard host api x r st).1
  unfolding handle_dashboard reading
  handle_dashboard-Effect st = untouched

  pub handle_list_colonies-Effect :
      (st : Store) → Effect host x st (handle_list_colonies host api x r st).1
  unfolding handle_list_colonies reading
  handle_list_colonies-Effect st = untouched

  pub handle_create_colony-Effect :
      (st : Store) → Effect host x st (handle_create_colony host api x r st).1
  unfolding handle_create_colony perform
  handle_create_colony-Effect st =
      decoding-Effect host x st _ _
        λ req. updating-Effect host x st _ _ (Run.colony (token_of api r) req) refl

  pub handle_trust_peer-Effect :
      (id : Ident) (st : Store) → Effect host x st (handle_trust_peer host api x r id st).1
  unfolding handle_trust_peer perform
  handle_trust_peer-Effect id st =
      decoding-Effect host x st _ _
        λ req. updating-Effect host x st _ _ (Run.trust (token_of api r) id req) refl

  pub handle_list_users-Effect :
      (st : Store) → Effect host x st (handle_list_users host api x r st).1
  unfolding handle_list_users reading
  handle_list_users-Effect st = untouched

  pub handle_create_user-Effect :
      (st : Store) → Effect host x st (handle_create_user host api x r st).1
  unfolding handle_create_user perform
  handle_create_user-Effect st =
      decoding-Effect host x st _ _
        λ req. updating-Effect host x st _ _ (Run.user x.seen (token_of api r) req) refl

  pub handle_list_accounts-Effect :
      (st : Store) → Effect host x st (handle_list_accounts host api x r st).1
  unfolding handle_list_accounts reading
  handle_list_accounts-Effect st = untouched

  pub handle_mint-Effect : (st : Store) → Effect host x st (handle_mint host api x r st).1
  unfolding handle_mint perform mint_or_propose
  handle_mint-Effect st =
      decoding-Effect host x st _ _
        λ req. updating-Effect host x st _ _ (Run.mint (token_of api r) req true) refl

  pub handle_list_trades-Effect :
      (st : Store) → Effect host x st (handle_list_trades host api x r st).1
  unfolding handle_list_trades reading
  handle_list_trades-Effect st = untouched

  pub handle_get_trade-Effect :
      (id : Ident) (st : Store) → Effect host x st (handle_get_trade host api x r id st).1
  unfolding handle_get_trade reading
  handle_get_trade-Effect id st = untouched

  pub handle_create_offer-Effect :
      (st : Store) → Effect host x st (handle_create_offer host api x r st).1
  unfolding handle_create_offer perform
  handle_create_offer-Effect st =
      decoding-Effect host x st _ _
        λ req. updating-Effect host x st _ _ (Run.offer (token_of api r) req) refl

  pub handle_accept_trade-Effect :
      (id : Ident) (st : Store) → Effect host x st (handle_accept_trade host api x r id st).1
  unfolding handle_accept_trade perform
  handle_accept_trade-Effect id st =
      updating-Effect host x st _ _ (Run.accept (token_of api r) id) refl

  pub handle_cancel_trade-Effect :
      (id : Ident) (st : Store) → Effect host x st (handle_cancel_trade host api x r id st).1
  unfolding handle_cancel_trade perform
  handle_cancel_trade-Effect id st =
      updating-Effect host x st _ _ (Run.cancel (token_of api r) id) refl

  pub handle_force_refund-Effect :
      (id : Ident) (st : Store) → Effect host x st (handle_force_refund host api x r id st).1
  unfolding handle_force_refund perform
  handle_force_refund-Effect id st =
      updating-Effect host x st _ _ (Run.force_refund (token_of api r) id) refl

  pub handle_set_policy-Effect :
      (id : Ident) (st : Store) → Effect host x st (handle_set_policy host api x r id st).1
  unfolding handle_set_policy perform
  handle_set_policy-Effect id st =
      decoding-Effect host x st _ _
        λ req. updating-Effect host x st _ _ (Run.policy (token_of api r) id req) refl

  pub handle_list_approvals-Effect :
      (st : Store) → Effect host x st (handle_list_approvals host api x r st).1
  unfolding handle_list_approvals reading
  handle_list_approvals-Effect st = untouched

  pub decide-Effect :
      (approve : Bool) (id : Ident) (st : Store)
      → Effect host x st (decide host api x r approve id st).1
  unfolding decide perform
  decide-Effect approve id st =
      updating-Effect host x st _ _ (Run.decide (token_of api r) id approve) refl

  pub handle_export_bundle-Effect :
      (st : Store) → Effect host x st (handle_export_bundle host api x r st).1
  unfolding handle_export_bundle perform
  handle_export_bundle-Effect st =
      decoding-Effect host x st _ _
        λ req. updating-Effect host x st _ _ (Run.export (token_of api r) req) refl

  pub handle_import_bundle-Effect :
      (st : Store) → Effect host x st (handle_import_bundle host api x r st).1
  unfolding handle_import_bundle perform
  handle_import_bundle-Effect st =
      decoding-Effect host x st _ _
        λ req. updating-Effect host x st _ _ (Run.import (token_of api r) req) refl

  ledger_page-Effect :
      (limit before_seq : Option ℤ) (st : Store)
      → Effect host x st (ledger_page host api x r limit before_seq st).1
  unfolding ledger_page reading
  ledger_page-Effect none before_seq st = untouched
  ledger_page-Effect (some limit) none st = untouched
  ledger_page-Effect (some limit) (some before_seq) st = untouched

  pub handle_list_ledger-Effect :
      (st : Store) → Effect host x st (handle_list_ledger host api x r st).1
  unfolding handle_list_ledger
  handle_list_ledger-Effect = ledger_page-Effect (limit_of r.limit) (before_seq_of r.before_seq)
