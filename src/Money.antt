-- ===== src/Money.antt =====
-- The money of the whole platform: what the accounts hold, what is in escrow, and what was minted.
-- The handlers of backend/internal/service move it; the child modules say how.
pub mod Writes
pub mod Accept
pub mod Refund
pub mod Settle
pub mod Import
pub mod Bundle
pub mod Mint
pub mod Approvals
pub mod Trades
pub mod Cancel
pub mod Sweep
pub mod Admin
pub mod Auth
pub mod Security
pub mod Run
use interstellar_trade_platf.Base.{◌≡◌, Bool, true, false, if◌then◌else◌}
use interstellar_trade_platf.Base.Int.{ℤ, pos, ◌+ℤ◌, ◌-ℤ◌, ◌≤ℤ◌, ◌≃ℤ◌, max_int64}
use interstellar_trade_platf.Base.Map.{Map, All, Distinct, sum_by}
use interstellar_trade_platf.Domain.Text.{empty}
use interstellar_trade_platf.Domain.Amount.{max_amount, default_mint_cap, effective_mint_cap}
use interstellar_trade_platf.Domain.Status.{
  Status, offer_pending_export, offer_received, expired, cancelled, is_escrowed,
}
use interstellar_trade_platf.Domain.State.{
  AppState, Colony, Account, Trade, PendingAction, ActionType, mint,
}

abbrev pub balance_of : Account → ℤ
balance_of a = a.balance

unfoldable pub balances : Colony → ℤ
balances c = sum_by balance_of c.accounts

-- What the accounts of a colony hold above what it minted.
unfoldable pub net : Colony → ℤ
net c = balances c -ℤ c.minted_total

-- The amount that a trade has taken from its buyer and not passed on.
unfoldable pub escrow : Trade → ℤ
escrow t = if is_escrowed t.status then t.price else pos 0

-- All balances and all escrow, less all that was minted.
unfoldable pub worth : AppState → ℤ
worth s = sum_by net s.colonies +ℤ sum_by escrow s.trades

-- A balance is not negative and is an int64.
abbrev pub IsFunded : Account → Type 0
IsFunded a = (pos 0 ≤ℤ a.balance) × (a.balance ≤ℤ max_int64)

-- What a colony minted stays within its cap, and the cap within the platform's maximum.
abbrev pub IsSupplied : ℤ → ℤ → Type 0
IsSupplied minted cap = (pos 0 ≤ℤ minted) × (minted ≤ℤ cap) × (cap ≤ℤ default_mint_cap)

abbrev pub AreFunded : Colony → Type 0
AreFunded c = All IsFunded c.accounts × IsSupplied c.minted_total (effective_mint_cap c)

-- A trade that is not accepted, or was closed before that, has no acceptance on record.
abbrev pub NotAccepted : Trade → Status → Type 0
NotAccepted t offer_pending_export = t.acceptance_envelope_id ≡ empty
NotAccepted t offer_received = t.acceptance_envelope_id ≡ empty
NotAccepted t expired = t.acceptance_envelope_id ≡ empty
NotAccepted t cancelled = t.acceptance_envelope_id ≡ empty
NotAccepted t _ = Unit

abbrev pub IsPriced : Trade → Type 0
IsPriced t = (pos 1 ≤ℤ t.price) × (t.price ≤ℤ max_amount) × NotAccepted t t.status

-- A proposed mint has an amount within the limits.
abbrev pub ProposedAmount : PendingAction → ActionType → Type 0
ProposedAmount pa mint = (pos 1 ≤ℤ pa.amount) × (pa.amount ≤ℤ max_amount)
ProposedAmount pa _ = Unit

abbrev pub IsProposed : PendingAction → Type 0
IsProposed pa = ProposedAmount pa pa.kind

pub record IsValid (s : AppState) : Type 0 where
  pub funded : All AreFunded s.colonies
  pub priced : All IsPriced s.trades
  pub proposed : All IsProposed s.pending_actions
  pub distinct : Distinct s.trades

-- The second state is valid, and worth the first and `d`.
pub record Moves (s : AppState) (d : ℤ) (s' : AppState) : Type 0 where
  pub valid : IsValid s'
  pub moved : worth s' ≃ℤ worth s +ℤ d
