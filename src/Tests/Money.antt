-- ===== src/Tests/Money.antt =====
-- Runs of the handlers on the small platform, and the theorems on money at these runs.
use interstellar_trade_platf.Base.{
  ℕ, ◌≡◌, refl, subst, length, Bool, true, false, Option, none, some, List, [], ◌∷◌, Result, ok,
  err, arith, Ensures, ◌>>=◌, fail_if, or_fail,
}
use interstellar_trade_platf.Base.Int.{ℤ, pos, int_laws, ◌≤ℤ◌, ◌+ℤ◌, ◌≃ℤ◌}
use interstellar_trade_platf.Base.Map.{lookup, insert, modify, sum_by, All}
use interstellar_trade_platf.Domain.Amount.{cap_or_default}
use interstellar_trade_platf.Domain.State.{AppState, PendingAction}
use interstellar_trade_platf.Domain.Views.{TradeView, ColonyView}
use interstellar_trade_platf.Service.Actor.{actor_from_token, actor_from_token_no_mfa}
use interstellar_trade_platf.Service.Accept.{accept_trade}
use interstellar_trade_platf.Service.Offer.{create_offer, CreateOfferRequest}
use interstellar_trade_platf.Service.Export.{export_bundle, ExportBundleRequest}
use interstellar_trade_platf.Service.Import.{import_bundle, ImportBundleRequest, ImportBundleResult}
use interstellar_trade_platf.Service.Import.Acceptance.{import_acceptance}
use interstellar_trade_platf.Service.Refund.{Imported}
use interstellar_trade_platf.Service.Cancel.{cancel_trade}
use interstellar_trade_platf.Service.Sweep.{sweep_expired}
use interstellar_trade_platf.Service.Mint.{MintRequest, MintOutcome, mint_request}
use interstellar_trade_platf.Service.Approvals.{
  PolicyRequest, PolicyOutcome, set_policy, propose_force_refund, decide_approval,
}
use interstellar_trade_platf.Service.Admin.{
  create_colony, trust_peer, create_user, CreateUserRequest,
}
use interstellar_trade_platf.Service.Auth.{BootstrapRequest}
use interstellar_trade_platf.Storage.{Store, new_empty_state}
use interstellar_trade_platf.Money.{IsValid, Moves, AreFunded, balances, escrow}
use interstellar_trade_platf.Money.Accept.{accept_trade-Moves}
use interstellar_trade_platf.Money.Settle.{import_acceptance-Moves}
use interstellar_trade_platf.Money.Bundle.{import_bundle-Moves}
use interstellar_trade_platf.Money.Mint.{mint_request-Moves}
use interstellar_trade_platf.Money.Approvals.{decide_approval-Moves}
use interstellar_trade_platf.Money.Cancel.{cancel_trade-Moves}
use interstellar_trade_platf.Money.Admin.{trust_peer-Moves}
use interstellar_trade_platf.Money.Run.{
  Request, begin, colony, Call, IsFresh, Run, idle, next, serve, minted_of, Run-balanced,
}
use interstellar_trade_platf.Tests.Demo.{
  demo_host, demo_inputs, demo_state, seller_colony, buyer_colony, demo_acceptance, demo_bundle,
}

abbrev is_ok : {E A : Type 0} → Result E A → Bool
is_ok (ok a) = true
is_ok (err e) = false

demo_state-IsValid : IsValid demo_state
unfolding cap_or_default lookup
demo_state-IsValid = record {
  funded = (
    (((omega arith, omega int_laws), tt), (omega arith, omega int_laws, omega int_laws)),
    ((((omega arith, omega int_laws), tt), (omega arith, omega int_laws, omega int_laws)), tt),
  );
  priced = (
    (omega arith, omega int_laws, refl),
    ((omega arith, omega int_laws, refl), ((omega arith, omega int_laws, tt), tt)),
  );
  proposed = ((omega arith, omega int_laws), tt);
  distinct = (refl, (refl, (refl, tt)));
}

abbrev offer_request : CreateOfferRequest
offer_request = record {
  seller_user_id = 2;
  buyer_user_id = 3;
  asset = 7 ∷ [];
  price = pos 30;
  ttl_seconds = pos 0;
}

abbrev mint_demo : MintRequest
mint_demo = record { colony_id = 10; user_id = 2; amount = pos 25 }

abbrev export_request : ExportBundleRequest
export_request = record { colony_id = 20; to_colony_id = 10 }

abbrev import_request : ImportBundleRequest
import_request = record { colony_id = 10; bundle = demo_bundle }

abbrev policy_request : PolicyRequest
policy_request = record { mint_cap = some (pos 1000); require_dual_control = some true }

abbrev user_request : CreateUserRequest
user_request = record {
  username = 97 ∷ [];
  display_name = [];
  password = 1 ∷ 2 ∷ 3 ∷ 4 ∷ 5 ∷ 6 ∷ 7 ∷ 8 ∷ [];
  colony_id = 10;
  roles = [];
}

accept_trade_succeeds : is_ok (accept_trade demo_host demo_inputs demo_state 3 50) ≡ true
unfolding accept_trade ◌>>=◌ fail_if or_fail actor_from_token actor_from_token_no_mfa lookup
    interstellar_trade_platf.Service.Accept.is_expired
    interstellar_trade_platf.Service.Actor.has_role
    interstellar_trade_platf.Service.Actor.contains_role
    interstellar_trade_platf.Service.Ledger.sign_envelope
    interstellar_trade_platf.Domain.Trade.advance_trade
    interstellar_trade_platf.Domain.Status.transition_allowed
    interstellar_trade_platf.Service.Actor.active_user
accept_trade_succeeds = refl

accept_trade-Moves_example :
    Ensures
      (λ (r : TradeView × AppState). Moves demo_state (pos 0) r.1)
      (accept_trade demo_host demo_inputs demo_state 3 50)
accept_trade-Moves_example =
    accept_trade-Moves demo_host demo_inputs demo_state 3 50 demo_state-IsValid

import_bundle_succeeds :
    is_ok (import_bundle demo_host demo_inputs demo_state 1 import_request) ≡ true
unfolding import_bundle ◌>>=◌ fail_if or_fail actor_from_token actor_from_token_no_mfa lookup
    interstellar_trade_platf.Service.Actor.can_relay interstellar_trade_platf.Service.Actor.has_role
    interstellar_trade_platf.Service.Actor.contains_role
    interstellar_trade_platf.Service.Import.import_messages
    interstellar_trade_platf.Service.Import.import_message
    interstellar_trade_platf.Service.Import.is_processed
    interstellar_trade_platf.Service.Ledger.verify_envelope
    interstellar_trade_platf.Service.Import.import_envelope import_acceptance
    interstellar_trade_platf.Domain.Payload.Json.decode_acceptance
    interstellar_trade_platf.Domain.Payload.Json.encode_acceptance
    interstellar_trade_platf.Service.Import.Acceptance.resolve
    interstellar_trade_platf.Service.Refund.accepted_after_expiry
    interstellar_trade_platf.Service.Import.Acceptance.settle
    interstellar_trade_platf.Domain.Amount.add_checked interstellar_trade_platf.Base.Int.sub64
    interstellar_trade_platf.Base.Int.◌-ℤ◌ interstellar_trade_platf.Base.Int.add64 ◌+ℤ◌ insert
    modify interstellar_trade_platf.Service.Import.message_inputs
    interstellar_trade_platf.Service.Import.mark_processed
    interstellar_trade_platf.Service.Import.Acceptance.credit_seller
    interstellar_trade_platf.Service.Ledger.sign_envelope
    interstellar_trade_platf.Service.Ledger.append_ledger
    interstellar_trade_platf.Domain.Trade.advance_trade
    interstellar_trade_platf.Domain.Status.transition_allowed
    interstellar_trade_platf.Service.Import.finish_import
    interstellar_trade_platf.Service.Actor.active_user
    interstellar_trade_platf.Service.Import.skip_duplicate
    interstellar_trade_platf.Service.Import.count_import
import_bundle_succeeds = refl

import_bundle-Moves_example :
    Ensures
      (λ (r : ImportBundleResult × AppState). Moves demo_state (pos 0) r.1)
      (import_bundle demo_host demo_inputs demo_state 1 import_request)
import_bundle-Moves_example =
    import_bundle-Moves demo_host demo_inputs demo_state 1 import_request demo_state-IsValid

mint_request_succeeds :
    is_ok (mint_request demo_host demo_inputs demo_state 1 mint_demo false) ≡ true
unfolding mint_request ◌>>=◌ fail_if or_fail actor_from_token actor_from_token_no_mfa lookup
    interstellar_trade_platf.Domain.Amount.valid_amount
    interstellar_trade_platf.Service.Actor.can_manage_colony
    interstellar_trade_platf.Service.Actor.has_role
    interstellar_trade_platf.Service.Actor.contains_role
    interstellar_trade_platf.Service.Mint.apply_mint
    interstellar_trade_platf.Domain.Amount.add_checked interstellar_trade_platf.Base.Int.sub64
    interstellar_trade_platf.Base.Int.◌-ℤ◌ cap_or_default interstellar_trade_platf.Base.Int.add64
    ◌+ℤ◌ interstellar_trade_platf.Service.Actor.active_user
mint_request_succeeds = refl

mint_request-Moves_example :
    Ensures
      (λ (r : MintOutcome × AppState). Moves demo_state (pos 0) r.1)
      (mint_request demo_host demo_inputs demo_state 1 mint_demo false)
mint_request-Moves_example =
    mint_request-Moves demo_host demo_inputs demo_state 1 mint_demo false demo_state-IsValid

decide_approval_succeeds : is_ok (decide_approval demo_host demo_inputs demo_state 1 70 true) ≡ true
unfolding decide_approval ◌>>=◌ fail_if or_fail actor_from_token actor_from_token_no_mfa lookup
    interstellar_trade_platf.Service.Actor.can_manage_colony
    interstellar_trade_platf.Service.Actor.has_role
    interstellar_trade_platf.Service.Actor.contains_role
    interstellar_trade_platf.Service.Approvals.is_pending
    interstellar_trade_platf.Service.Approvals.action_expired
    interstellar_trade_platf.Service.Approvals.execute
    interstellar_trade_platf.Service.Mint.apply_mint
    interstellar_trade_platf.Domain.Amount.add_checked interstellar_trade_platf.Base.Int.sub64
    interstellar_trade_platf.Base.Int.◌-ℤ◌ cap_or_default interstellar_trade_platf.Base.Int.add64
    ◌+ℤ◌ interstellar_trade_platf.Service.Actor.active_user
decide_approval_succeeds = refl

decide_approval-Moves_example :
    Ensures
      (λ (r : PendingAction × AppState). Moves demo_state (pos 0) r.1)
      (decide_approval demo_host demo_inputs demo_state 1 70 true)
decide_approval-Moves_example =
    decide_approval-Moves demo_host demo_inputs demo_state 1 70 true demo_state-IsValid

set_policy_succeeds : is_ok (set_policy demo_host demo_inputs demo_state 1 10 policy_request) ≡ true
unfolding set_policy ◌>>=◌ fail_if or_fail actor_from_token actor_from_token_no_mfa lookup
    interstellar_trade_platf.Service.Actor.has_role
    interstellar_trade_platf.Service.Actor.contains_role
    interstellar_trade_platf.Service.Approvals.validate_policy
    interstellar_trade_platf.Service.Approvals.bad_cap
    interstellar_trade_platf.Service.Approvals.apply_policy
    interstellar_trade_platf.Service.Actor.active_user
set_policy_succeeds = refl

propose_force_refund_succeeds :
    is_ok (propose_force_refund demo_host demo_inputs demo_state 1 52) ≡ true
unfolding propose_force_refund ◌>>=◌ fail_if or_fail actor_from_token actor_from_token_no_mfa lookup
    interstellar_trade_platf.Service.Actor.can_manage_colony
    interstellar_trade_platf.Service.Actor.has_role
    interstellar_trade_platf.Service.Actor.contains_role
    interstellar_trade_platf.Domain.Status.is_escrowed
    interstellar_trade_platf.Service.Actor.active_user
propose_force_refund_succeeds = refl

export_bundle_succeeds :
    is_ok (export_bundle demo_host demo_inputs demo_state 1 export_request) ≡ true
unfolding export_bundle ◌>>=◌ fail_if or_fail actor_from_token actor_from_token_no_mfa lookup
    interstellar_trade_platf.Service.Actor.can_relay interstellar_trade_platf.Service.Actor.has_role
    interstellar_trade_platf.Service.Actor.contains_role
    interstellar_trade_platf.Service.Actor.active_user
export_bundle_succeeds = refl

cancel_trade_succeeds : is_ok (cancel_trade demo_host demo_inputs demo_state 3 52) ≡ true
unfolding cancel_trade ◌>>=◌ fail_if or_fail actor_from_token actor_from_token_no_mfa lookup
    interstellar_trade_platf.Service.Actor.has_role
    interstellar_trade_platf.Service.Actor.contains_role
    interstellar_trade_platf.Service.Cancel.cancel_by_status
    interstellar_trade_platf.Service.Cancel.request_cancel
    interstellar_trade_platf.Service.Ledger.sign_envelope
    interstellar_trade_platf.Service.Actor.active_user
cancel_trade_succeeds = refl

cancel_trade-Moves_example :
    Ensures
      (λ (r : TradeView × AppState). Moves demo_state (pos 0) r.1)
      (cancel_trade demo_host demo_inputs demo_state 3 52)
cancel_trade-Moves_example =
    cancel_trade-Moves demo_host demo_inputs demo_state 3 52 demo_state-IsValid

sweep_expired_succeeds : is_ok (sweep_expired demo_host demo_inputs demo_state) ≡ true
unfolding sweep_expired ◌>>=◌ fail_if or_fail actor_from_token actor_from_token_no_mfa lookup
    interstellar_trade_platf.Service.Sweep.due_count interstellar_trade_platf.Service.Sweep.due
    interstellar_trade_platf.Service.Accept.is_expired
    interstellar_trade_platf.Service.Sweep.sweep_trades
    interstellar_trade_platf.Service.Sweep.expire_trade
    interstellar_trade_platf.Domain.Trade.advance_trade
    interstellar_trade_platf.Domain.Status.transition_allowed
sweep_expired_succeeds = refl

trust_peer_succeeds : is_ok (trust_peer demo_host demo_inputs demo_state 1 10 20) ≡ true
unfolding trust_peer ◌>>=◌ fail_if or_fail actor_from_token actor_from_token_no_mfa lookup
    interstellar_trade_platf.Service.Actor.can_manage_colony
    interstellar_trade_platf.Service.Actor.has_role
    interstellar_trade_platf.Service.Actor.contains_role
    interstellar_trade_platf.Service.Actor.active_user
trust_peer_succeeds = refl

trust_peer-Moves_example :
    Ensures
      (λ (r : ColonyView × AppState). Moves demo_state (pos 0) r.1)
      (trust_peer demo_host demo_inputs demo_state 1 10 20)
trust_peer-Moves_example =
    trust_peer-Moves demo_host demo_inputs demo_state 1 10 20 demo_state-IsValid

create_offer_succeeds : is_ok (create_offer demo_host demo_inputs demo_state 2 offer_request) ≡ true
unfolding create_offer ◌>>=◌ fail_if or_fail actor_from_token actor_from_token_no_mfa lookup
    interstellar_trade_platf.Domain.Amount.valid_amount
    interstellar_trade_platf.Service.Offer.Ttl.offer_ttl
    interstellar_trade_platf.Service.Actor.has_role
    interstellar_trade_platf.Service.Actor.contains_role
    interstellar_trade_platf.Service.Ledger.sign_envelope
    interstellar_trade_platf.Service.Actor.active_user
create_offer_succeeds = refl

create_user_succeeds :
    is_ok (create_user demo_host demo_inputs demo_state demo_state 1 user_request) ≡ true
unfolding create_user ◌>>=◌ fail_if or_fail actor_from_token actor_from_token_no_mfa lookup
    interstellar_trade_platf.Service.Admin.may_create_user
    interstellar_trade_platf.Service.Actor.can_manage_colony
    interstellar_trade_platf.Service.Actor.has_role
    interstellar_trade_platf.Service.Actor.contains_role
    interstellar_trade_platf.Service.Admin.insert_user
    interstellar_trade_platf.Service.Admin.username_taken
    interstellar_trade_platf.Domain.Roles.normalize_roles
    interstellar_trade_platf.Domain.Roles.sort_roles
    interstellar_trade_platf.Domain.Roles.collect_roles
    interstellar_trade_platf.Service.Actor.active_user
create_user_succeeds = refl

import_acceptance-Moves_example :
    Ensures
      (λ (r : Imported). Moves demo_state (pos 0) r.2)
      (import_acceptance demo_host demo_inputs demo_state 20 10 buyer_colony seller_colony
        demo_acceptance)
unfolding lookup
import_acceptance-Moves_example =
    import_acceptance-Moves demo_host demo_inputs demo_state 20 10 buyer_colony seller_colony
      demo_acceptance demo_state-IsValid refl

abbrev first_store : Store
first_store = record { state = new_empty_state 0; file = new_empty_state 0 }

abbrev bootstrap_request : BootstrapRequest
bootstrap_request = record {
  username = 97 ∷ [];
  display_name = [];
  password = 1 ∷ 2 ∷ 3 ∷ 4 ∷ 5 ∷ 6 ∷ 7 ∷ 8 ∷ [];
}

abbrev begin_call : Call
begin_call = record {
  request = begin (new_empty_state 0) bootstrap_request;
  inputs = demo_inputs;
  saved = true;
  time = 0;
}

abbrev colony_call : Call
colony_call = record {
  request = colony 500 (98 ∷ []);
  inputs = demo_inputs;
  saved = true;
  time = 0;
}

abbrev begun : Store
begun = serve demo_host begin_call first_store

abbrev platform : Store
platform = serve demo_host colony_call begun

first-IsFresh : IsFresh demo_inputs first_store.state
unfolding new_empty_state lookup
first-IsFresh id h = (refl, refl, tt)

begun-IsFresh : IsFresh demo_inputs begun.state
unfolding serve lookup interstellar_trade_platf.Storage.store_update
    interstellar_trade_platf.Storage.commit interstellar_trade_platf.Money.Run.perform ◌>>=◌
    interstellar_trade_platf.Service.Auth.bootstrap fail_if new_empty_state or_fail
    interstellar_trade_platf.Service.Auth.first_user
    interstellar_trade_platf.Service.Admin.username_taken
    interstellar_trade_platf.Service.Session.create_session
begun-IsFresh id h = (refl, refl, tt)

platform-Run : Run demo_host first_store platform
platform-Run = next colony_call (next begin_call idle first-IsFresh) begun-IsFresh

-- The first call makes an administrator with a session, the second a colony.
platform_colonies : length platform.state.colonies ≡ 1
unfolding serve lookup interstellar_trade_platf.Storage.store_update
    interstellar_trade_platf.Storage.commit interstellar_trade_platf.Money.Run.perform ◌>>=◌
    interstellar_trade_platf.Service.Auth.bootstrap fail_if new_empty_state or_fail
    interstellar_trade_platf.Service.Auth.first_user
    interstellar_trade_platf.Service.Admin.username_taken
    interstellar_trade_platf.Service.Session.create_session create_colony actor_from_token
    actor_from_token_no_mfa insert interstellar_trade_platf.Service.Session.prune_sessions
    interstellar_trade_platf.Service.Session.live_sessions
    interstellar_trade_platf.Service.Session.sessions_of
    interstellar_trade_platf.Service.Admin.new_user interstellar_trade_platf.Service.Actor.has_role
    interstellar_trade_platf.Service.Actor.contains_role
    interstellar_trade_platf.Service.Admin.name_taken
    interstellar_trade_platf.Service.Admin.new_colony
    interstellar_trade_platf.Service.Actor.active_user
platform_colonies = refl

Run-balanced_example :
    (sum_by balances platform.state.colonies +ℤ sum_by escrow platform.state.trades
      ≃ℤ sum_by minted_of platform.state.colonies)
    × All AreFunded platform.state.colonies
    × (platform.file ≡ platform.state)
Run-balanced_example = Run-balanced demo_host 0 platform platform-Run
