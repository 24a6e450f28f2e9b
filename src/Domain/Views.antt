-- ===== src/Domain/Views.antt =====
-- The read models of backend/internal/domain/model.go that the handlers return.
use interstellar_trade_platf.Base.{ℕ, Bool, List}
use interstellar_trade_platf.Base.Int.{ℤ}
use interstellar_trade_platf.Base.Map.{Map}
use interstellar_trade_platf.Domain.Text.{Ident, Text}
use interstellar_trade_platf.Domain.Clock.{Stamp}
use interstellar_trade_platf.Domain.Status.{Status}
use interstellar_trade_platf.Domain.State.{Role}

pub record DashboardCounts : Type 0 where
  pub colonies : ℕ
  pub users : ℕ
  pub trades : ℕ
  pub accounts : ℕ

pub record UserView : Type 0 where
  pub id : Ident
  pub username : Text
  pub display_name : Text
  pub colony_id : Ident
  pub roles : List Role
  pub created_at : Stamp
  pub active : Bool
  pub mfa_enabled : Bool

pub record ColonyView : Type 0 where
  pub id : Ident
  pub name : Text
  pub public_key : Ident
  pub created_at : Stamp
  pub trusted_colonies : Map Ident
  pub net_obligations : Map ℤ
  pub net_claims : Map ℤ
  pub mint_cap : ℤ
  pub minted_total : ℤ
  pub require_dual_control : Bool

pub record AccountView : Type 0 where
  pub user_id : Ident
  pub username : Text
  pub display_name : Text
  pub colony_id : Ident
  pub colony_name : Text
  pub balance : ℤ

pub record TradeView : Type 0 where
  pub id : Ident
  pub asset : Text
  pub price : ℤ
  pub seller_user_id : Ident
  pub seller_name : Text
  pub seller_colony_id : Ident
  pub seller_colony_name : Text
  pub buyer_user_id : Ident
  pub buyer_name : Text
  pub buyer_colony_id : Ident
  pub buyer_colony_name : Text
  pub status : Status
  pub created_at : Stamp
  pub accepted_at : Stamp
  pub settled_at : Stamp
  pub completed_at : Stamp
  pub offer_envelope_id : Ident
  pub acceptance_envelope_id : Ident
  pub settlement_envelope_id : Ident
  pub expires_at : Stamp
  pub refunded_at : Stamp

pub record ColonySummary : Type 0 where
  pub colony : ColonyView
  pub accounts : ℕ
  pub trades_involved : ℕ

pub record Dashboard : Type 0 where
  pub user : UserView
  pub counts : DashboardCounts
  pub colony_summaries : List ColonySummary
  pub recent_trades : List TradeView
