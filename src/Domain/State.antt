-- ===== src/Domain/State.antt =====
-- The stored documents of backend/internal/domain/model.go, field by field.
use interstellar_trade_platf.Base.{ℕ, Bool, Option, List, String}
use interstellar_trade_platf.Base.Int.{ℤ}
use interstellar_trade_platf.Base.Map.{Map}
use interstellar_trade_platf.Domain.Text.{Ident, Text}
use interstellar_trade_platf.Domain.Clock.{Stamp}
use interstellar_trade_platf.Domain.Status.{Status}
use interstellar_trade_platf.Domain.Payload.{RawMessage, EnvelopeType}

-- The roles of User.Roles; `other_role` is any other string that a file may hold.
pub data Role : Type 0 where
  super_admin colony_admin trader relay_operator other_role : Role

pub record Meta : Type 0 where
  pub created_at : Stamp
  pub updated_at : Stamp

pub record Account : Type 0 where
  pub user_id : Ident
  pub colony_id : Ident
  pub balance : ℤ

pub record User : Type 0 where
  pub id : Ident
  pub username : Text
  pub display_name : Text
  pub colony_id : Ident
  pub roles : List Role
  pub password_salt : Ident
  pub password_hash : Ident
  pub public_key : Ident
  pub private_key : Ident
  pub created_at : Stamp
  pub active : Bool
  pub failed_logins : ℕ
  pub locked_until : Stamp
  pub mfa_enabled : Bool
  pub mfa_secret : Ident
  pub mfa_pending_secret : Ident
  pub mfa_last_step : ℕ
  pub reset_token_hash : Ident
  pub reset_expires_at : Stamp
  pub password_changed_at : Stamp

-- `created_at` keeps the nanoseconds (time.RFC3339Nano).
pub record Session : Type 0 where
  pub token : Ident
  pub user_id : Ident
  pub created_at : ℕ
  pub expires_at : Stamp
  pub last_seen_at : Stamp

pub record Trade : Type 0 where
  pub id : Ident
  pub asset : Text
  pub price : ℤ
  pub seller_user_id : Ident
  pub buyer_user_id : Ident
  pub seller_colony_id : Ident
  pub buyer_colony_id : Ident
  pub status : Status
  pub offer_envelope_id : Ident
  pub acceptance_envelope_id : Ident
  pub settlement_envelope_id : Ident
  pub seller_signature : Ident
  pub buyer_signature : Ident
  pub created_at : Stamp
  pub accepted_at : Stamp
  pub settled_at : Stamp
  pub completed_at : Stamp
  pub expires_at : Stamp
  pub refunded_at : Stamp
  pub cancel_envelope_id : Ident
  pub refund_envelope_id : Ident

-- LedgerEntry.Type
pub data EntryType : Type 0 where
  trade_offer_created trade_accepted bundle_exported bundle_imported : EntryType
  trade_offer_imported trade_acceptance_imported trade_completed : EntryType
  trade_refund_decided trade_refunded trade_force_refunded : EntryType
  trade_offer_cancelled trade_cancel_requested trade_offer_expired : EntryType
  colony_created peer_trusted user_created mint_proposed funds_minted : EntryType
  policy_proposed policy_changed force_refund_proposed approval_rejected : EntryType
  user_deactivated user_reactivated user_roles_changed : EntryType

-- A value of the `map[string]any` that a ledger payload is.
pub data Datum : Type 0 where
  ident : Ident → Datum
  text : Text → Datum
  amount : ℤ → Datum
  count : ℕ → Datum
  stamp : Stamp → Datum
  flag : Bool → Datum
  role_list : List Role → Datum
  label : String → Datum

abbrev pub Detail : Type 0
Detail = List (String × Datum)

pub record LedgerEntry : Type 0 where
  pub seq : ℕ
  pub colony_id : Ident
  pub time : Stamp
  pub kind : EntryType
  pub actor_user_id : Ident
  pub payload : Detail
  pub prev_hash : Ident
  pub hash : Ident

pub record Envelope : Type 0 where
  pub id : Ident
  pub kind : EnvelopeType
  pub from_colony_id : Ident
  pub to_colony_id : Ident
  pub payload : RawMessage
  pub colony_signature : Ident
  pub created_at : Stamp

-- `messages` may hold nil pointers, as a request body can.
pub record Bundle : Type 0 where
  pub id : Ident
  pub from_colony_id : Ident
  pub to_colony_id : Ident
  pub exported_at : Stamp
  pub messages : List (Option Envelope)

pub record Colony : Type 0 where
  pub id : Ident
  pub name : Text
  pub public_key : Ident
  pub private_key : Ident
  pub created_at : Stamp
  pub trusted_colonies : Map Ident
  pub accounts : Map Account
  pub processed_envelopes : Map Bool
  pub outbox : List Envelope
  pub ledger : List LedgerEntry
  pub next_ledger_seq : ℕ
  pub last_ledger_hash : Ident
  pub net_obligations : Map ℤ
  pub net_claims : Map ℤ
  pub minted_total : ℤ
  pub mint_cap : ℤ
  pub require_dual_control : Bool

pub data ActionType : Type 0 where
  mint force_refund policy unknown_action : ActionType

pub data ActionStatus : Type 0 where
  pending approved rejected : ActionStatus

pub record PendingAction : Type 0 where
  pub id : Ident
  pub kind : ActionType
  pub colony_id : Ident
  pub user_id : Ident
  pub trade_id : Ident
  pub amount : ℤ
  pub mint_cap : Option ℤ
  pub require_dual : Option Bool
  pub proposed_by : Ident
  pub proposed_at : Stamp
  pub expires_at : Stamp
  pub status : ActionStatus
  pub decided_by : Ident
  pub decided_at : Stamp

-- The state of the file store, in which AppState.Counts is always nil.
pub record AppState : Type 0 where
  pub meta : Meta
  pub colonies : Map Colony
  pub users : Map User
  pub sessions : Map Session
  pub trades : Map Trade
  pub bundles : Map Bundle
  pub pending_actions : Map PendingAction
