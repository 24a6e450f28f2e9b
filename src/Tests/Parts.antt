-- ===== src/Tests/Parts.antt =====
-- The theorems about single parts at concrete inputs.
use interstellar_trade_platf.Base.{
  ℕ, ◌+◌, ◌*◌, ◌≡◌, ◌⊎◌, ◌↔◌, ◌<◌, refl, arith, true, false, [], ◌∷◌, ◌++◌, ok, err, Ensures,
}
use interstellar_trade_platf.Base.Int.{pos, int_laws, ◌+ℤ◌, IsInt64}
use interstellar_trade_platf.Base.Map.{lookup}
use interstellar_trade_platf.Domain.Errors.{conflict}
use interstellar_trade_platf.Domain.Amount.{add_checked}
use interstellar_trade_platf.Domain.Amount.Bounds.{add_checked_exact}
use interstellar_trade_platf.Domain.Status.{
  offer_received, acceptance_pending_export, settlement_pending_export, completed, reachable,
  transition_allowed,
}
use interstellar_trade_platf.Domain.Text.{Text}
use interstellar_trade_platf.Domain.Clock.{at}
use interstellar_trade_platf.Domain.Trade.{step_trade}
use interstellar_trade_platf.Domain.Trade.Step.{step_trade_once}
use interstellar_trade_platf.Domain.Roles.{normalize_roles}
use interstellar_trade_platf.Domain.Roles.Sorted.{IsSorted, normalize_roles-IsSorted}
use interstellar_trade_platf.Domain.Views.{UserView}
use interstellar_trade_platf.Service.Actor.{has_role, contains_role}
use interstellar_trade_platf.Service.Security.{
  set_user_active, set_user_roles, consume_reset, reset_is_valid,
}
use interstellar_trade_platf.Service.Security.Manned.{
  IsManned, set_user_active-IsManned, set_user_roles-IsManned,
}
use interstellar_trade_platf.Service.Security.Reset.{consume_reset_once}
use interstellar_trade_platf.Domain.Payload.Json.{
  encode_offer, decode_offer, encode_acceptance, decode_acceptance, encode_cancel, decode_cancel,
}
use interstellar_trade_platf.Service.Offer.{offer_signable, offer_payload}
use interstellar_trade_platf.Service.Accept.{acceptance_signable, acceptance_payload}
use interstellar_trade_platf.Service.Cancel.{cancel_signable, cancel_payload}
use interstellar_trade_platf.Service.Import.Offer.{offer_signed_terms}
use interstellar_trade_platf.Service.Import.Acceptance.{acceptance_signed_terms}
use interstellar_trade_platf.Service.Import.Settlement.{cancel_signed_terms}
use interstellar_trade_platf.Service.Import.Terms.{ReadsAs, import-signed_terms}
use interstellar_trade_platf.Service.Export.Split.{Split}
use interstellar_trade_platf.Service.Import.{import_messages, ImportBundleResult, import_message}
use interstellar_trade_platf.Service.Import.Count.{Counts, present, import_messages-Counts}
use interstellar_trade_platf.Service.Import.Again.{import_message_again}
use interstellar_trade_platf.Domain.Status.Reach.{Reaches, reachable_iff}
use interstellar_trade_platf.Domain.State.{
  super_admin, Trade, Envelope, colony_admin, trader, AppState, Colony, User, PendingAction,
  colony_created, peer_trusted, approved,
}
use interstellar_trade_platf.Service.Ledger.{
  append_ledger, next_entry, preimage, previous_hash, last_hash,
}
use interstellar_trade_platf.Service.Ledger.Chain.{
  IsLedgered, HasNoCollision, append_ledger-IsLedgered, same_head-same_ledger,
}
use interstellar_trade_platf.Service.Offer.Ttl.{offer_ttl, offer_ttl_wraps}
use interstellar_trade_platf.Service.Auth.{
  is_locked, LoginRequest, use_code, verify_totp, try_steps, try_step,
}
use interstellar_trade_platf.Service.Auth.Lockout.{failures, failures_locked}
use interstellar_trade_platf.Service.Auth.Code.{use_code_later}
use interstellar_trade_platf.Service.Approvals.{decide_approval}
use interstellar_trade_platf.Service.Approvals.Once.{IsDecided, decide_approval-IsDecided}
use interstellar_trade_platf.Storage.{Store, store_update, backfill_head}
use interstellar_trade_platf.Storage.Atomic.{Committed, update-Committed}
use interstellar_trade_platf.Storage.Heads.{backfill_head-previous_hash}
use interstellar_trade_platf.Service.Sweep.{sweep_expired}
use interstellar_trade_platf.Tests.Demo.{
  demo_bundle, demo_trade, demo_acceptance, demo_host, demo_inputs, demo_state, demo_user,
  demo_action, seller_colony,
}

abbrev returned : Envelope
returned = record demo_acceptance { id = 62; to_colony_id = 20 }

abbrev no_result : ImportBundleResult
no_result = record {
  bundle_id = 80;
  imported_count = 0;
  skipped_duplicates = 0;
  generated_outbox = 0;
  processed_types = [];
  trades = [];
}

abbrev trader_text : Text
trader_text = b'T' ∷ b'r' ∷ b'a' ∷ b'd' ∷ b'e' ∷ b'r' ∷ []

abbrev admin_text : Text
admin_text =
    b' ' ∷ b'c' ∷ b'o' ∷ b'l' ∷ b'o' ∷ b'n' ∷ b'y' ∷ b'_' ∷ b'a' ∷ b'd' ∷ b'm' ∷ b'i' ∷ b'n' ∷ b' '
    ∷ []

-- User 3 with a reset token that is good for an hour more.
abbrev resetting_state : AppState
resetting_state = record demo_state {
  users =
      (3, record (demo_user 3 20 []) { reset_token_hash = 9600; reset_expires_at = at 4600 }) ∷ [];
}

seller_colony-IsLedgered : IsLedgered demo_host seller_colony
unfolding last_hash
seller_colony-IsLedgered = record { chained = tt; counted = refl; headed = refl }

abbrev noted_once : Colony
noted_once = append_ledger demo_host 5 seller_colony peer_trusted 1 []

append_ledger-IsLedgered_example : IsLedgered demo_host noted_once
append_ledger-IsLedgered_example =
    append_ledger-IsLedgered demo_host 5 seller_colony peer_trusted 1 [] seller_colony-IsLedgered

noted_once-IsLedgered : IsLedgered demo_host noted_once
noted_once-IsLedgered =
    append_ledger-IsLedgered demo_host 5 seller_colony peer_trusted 1 [] seller_colony-IsLedgered

noted_twice-IsLedgered :
    IsLedgered demo_host (append_ledger demo_host 9 noted_once colony_created 1 [])
noted_twice-IsLedgered =
    append_ledger-IsLedgered demo_host 9 noted_once colony_created 1 [] noted_once-IsLedgered

-- The same entries in a colony with another outbox and other accounts.
abbrev copied_colony : Colony
copied_colony = record (append_ledger demo_host 9 noted_once colony_created 1 []) { accounts = [] }

copied_colony-IsLedgered : IsLedgered demo_host copied_colony
copied_colony-IsLedgered = record {
  chained = noted_twice-IsLedgered.chained;
  counted = noted_twice-IsLedgered.counted;
  headed = noted_twice-IsLedgered.headed;
}

no_collision :
    HasNoCollision demo_host
      (append_ledger demo_host 9 noted_once colony_created 1 []).ledger
      copied_colony.ledger
unfolding append_ledger next_entry preimage
no_collision = ((λ h. refl, (λ h. ground arith, tt)), ((λ h. ground arith, (λ h. refl, tt)), tt))

same_head-same_ledger_example :
    (append_ledger demo_host 9 noted_once colony_created 1 []).ledger ≡ copied_colony.ledger
same_head-same_ledger_example =
    same_head-same_ledger demo_host (append_ledger demo_host 9 noted_once colony_created 1 [])
      copied_colony noted_twice-IsLedgered copied_colony-IsLedgered no_collision refl refl

reachable_iff_example :
    (reachable offer_received completed ≡ true) ↔ Reaches offer_received completed
reachable_iff_example = reachable_iff offer_received completed

add_checked_exact_example :
    ((add_checked (pos 4) (pos 5) ≡ ok (pos 4 +ℤ pos 5)) × IsInt64 (pos 4 +ℤ pos 5))
    ⊎ ((add_checked (pos 4) (pos 5) ≡ err (conflict "amount overflow"))
        × (¬ IsInt64 (pos 4 +ℤ pos 5)))
add_checked_exact_example =
    add_checked_exact (pos 4) (pos 5) (omega int_laws, omega int_laws)
      (omega int_laws, omega int_laws)

offer_ttl_wraps_example : offer_ttl (pos (90 + 3 * 36028797018963968)) ≡ ok (90 * 1000000000)
offer_ttl_wraps_example = offer_ttl_wraps 90 3 (omega arith) (omega arith)

failures_locked_example :
    is_locked 1000000000000
      (failures ((10 ∷ 20 ∷ 30 ∷ 40 ∷ []) ++ 999000000000 ∷ []) (demo_user 3 20 []))
    ≡ true
failures_locked_example =
    failures_locked (10 ∷ 20 ∷ 30 ∷ 40 ∷ []) 999000000000 1000000000000 (demo_user 3 20 []) refl
      (omega arith)

abbrev secured_user : User
secured_user = record (demo_user 3 20 []) { mfa_enabled = true; mfa_last_step = 32 }

abbrev code_request : LoginRequest
code_request = record {
  username = 3 ∷ [];
  password = 5 ∷ [];
  totp_code = 1 ∷ 2 ∷ 3 ∷ 4 ∷ 5 ∷ 6 ∷ [];
}

code_used :
    use_code demo_host 1000000000000 secured_user code_request
    ≡ ok (record secured_user { mfa_last_step = 33 })
unfolding use_code verify_totp try_steps try_step
code_used = refl

use_code_later_example : 32 < 33
use_code_later_example =
    use_code_later demo_host 1000000000000 secured_user (record secured_user { mfa_last_step = 33 })
      code_request refl code_used

decide_approval-IsDecided_example :
    Ensures
      (λ (r : PendingAction × AppState). IsDecided demo_state 70 r.0 r.1)
      (decide_approval demo_host demo_inputs demo_state 1 70 false)
decide_approval-IsDecided_example =
    decide_approval-IsDecided demo_host demo_inputs demo_state 1 70 false

abbrev decided_action : PendingAction
decided_action = record demo_action { status = approved; decided_by = 1 }

abbrev decided_state : AppState
decided_state = record demo_state { pending_actions = (70, decided_action) ∷ [] }

abbrev demo_store : Store
demo_store = record { state = demo_state; file = demo_state }

update-Committed_example :
    Committed 7
      (sweep_expired demo_host demo_inputs)
      demo_store
      (store_update true 7 (sweep_expired demo_host demo_inputs) demo_store)
update-Committed_example = update-Committed true 7 (sweep_expired demo_host demo_inputs) demo_store

abbrev headless_colony : Colony
headless_colony = record noted_once { last_ledger_hash = 0 }

backfill_head-previous_hash_example :
    (previous_hash (backfill_head headless_colony) ≡ previous_hash headless_colony)
    × ((backfill_head headless_colony).last_ledger_hash ≡ previous_hash headless_colony)
backfill_head-previous_hash_example = backfill_head-previous_hash headless_colony

import_message_again_example :
    Ensures
      (λ (r : ImportBundleResult × AppState).
        Ensures
          (λ (r' : ImportBundleResult × AppState). r'.1 ≡ r.1)
          (import_message demo_host demo_inputs 20 10 demo_acceptance r))
      (import_message demo_host demo_inputs 20 10 demo_acceptance (no_result, demo_state))
import_message_again_example =
    import_message_again demo_host demo_inputs demo_inputs 20 10 demo_acceptance
      (no_result, demo_state)

abbrev settled_trade : Trade
settled_trade = demo_trade 52 completed (at 5000)

step_trade_once_example :
    step_trade settled_trade acceptance_pending_export settlement_pending_export
    ≡ ok (false, settled_trade)
unfolding transition_allowed reachable
step_trade_once_example =
    step_trade_once settled_trade acceptance_pending_export settlement_pending_export refl refl

normalize_roles-IsSorted_example :
    IsSorted (normalize_roles (trader_text ∷ admin_text ∷ trader_text ∷ []))
normalize_roles-IsSorted_example =
    normalize_roles-IsSorted (trader_text ∷ admin_text ∷ trader_text ∷ [])

-- Of the three names one repeats and one has spaces around it.
normalized :
    normalize_roles (trader_text ∷ admin_text ∷ trader_text ∷ []) ≡ colony_admin ∷ trader ∷ []
unfolding normalize_roles interstellar_trade_platf.Domain.Roles.sort_roles
    interstellar_trade_platf.Domain.Roles.collect_roles
    interstellar_trade_platf.Domain.Roles.role_named
    interstellar_trade_platf.Domain.Roles.insert_role
normalized = refl

import_messages-Counts_example :
    Ensures
      (λ (r : ImportBundleResult × AppState). Counts no_result (present demo_bundle.messages) r.0)
      (import_messages demo_host demo_inputs 20 10 0 demo_bundle.messages (no_result, demo_state))
import_messages-Counts_example =
    import_messages-Counts demo_host demo_inputs 20 10 0 demo_bundle.messages
      (no_result, demo_state)

demo_users-IsManned : IsManned demo_state.users
unfolding lookup has_role contains_role
demo_users-IsManned = record {
  keyed = λ k u h. ground arith;
  holder = 1;
  admin = demo_user 1 10 (super_admin ∷ []);
  found = refl;
  active = refl;
  super = refl;
}

set_user_active-IsManned_example :
    Ensures
      (λ (r : UserView × AppState). IsManned r.1.users)
      (set_user_active demo_host demo_inputs demo_state 1 2 false)
set_user_active-IsManned_example =
    set_user_active-IsManned demo_host demo_inputs demo_state 1 2 false demo_users-IsManned

set_user_roles-IsManned_example :
    Ensures
      (λ (r : UserView × AppState). IsManned r.1.users)
      (set_user_roles demo_host demo_inputs demo_state 1 2 (trader_text ∷ []))
set_user_roles-IsManned_example =
    set_user_roles-IsManned demo_host demo_inputs demo_state 1 2 (trader_text ∷ [])
      demo_users-IsManned

consume_reset_once_example :
    Ensures
      (λ (r : Unit {0} × AppState).
        (now : ℕ) (h : ℕ) → reset_is_valid now h (lookup 3 r.1.users) ≡ false)
      (consume_reset demo_inputs resetting_state 3 9600 77)
consume_reset_once_example = consume_reset_once demo_inputs resetting_state 3 9600 77

resetting_valid : reset_is_valid 1000000000000 9600 (lookup 3 resetting_state.users) ≡ true
unfolding reset_is_valid lookup
resetting_valid = refl

import-signed_terms_example :
    ReadsAs decode_offer
      (encode_offer (offer_payload settled_trade (demo_user 2 10 []) (demo_user 3 20 [])))
      offer_signed_terms
      (offer_signable settled_trade)
    × ReadsAs decode_acceptance
        (encode_acceptance (acceptance_payload settled_trade (demo_user 3 20 []) (at 800) 9))
        acceptance_signed_terms
        (acceptance_signable settled_trade (demo_user 3 20 []) (at 800))
    × ReadsAs decode_cancel
        (encode_cancel (cancel_payload settled_trade (demo_user 3 20 []) (at 800) 9))
        cancel_signed_terms
        (cancel_signable settled_trade (demo_user 3 20 []) (at 800))
import-signed_terms_example =
    import-signed_terms settled_trade (demo_user 2 10 []) (demo_user 3 20 []) (at 800) 9
