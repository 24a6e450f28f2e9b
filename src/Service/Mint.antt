-- ===== src/Service/Mint.antt =====
-- Supply: `mint`, `Mint`, `MintOrPropose` and `applyMint` of backend/internal/service/admin.go, and
-- `newPendingAction` of approvals.go.
use interstellar_trade_platf.Base.{
  ℕ, ◌+◌, Bool, true, false, not, none, [], ◌∷◌, ◌==◌, is_some, if◌then◌else◌, Result, ok, err,
  ◌>>=◌, ◌>>◌, fail_if, or_fail,
}
use interstellar_trade_platf.Base.Int.{ℤ, pos, ltb_ℤ}
use interstellar_trade_platf.Base.Map.{lookup, insert}
use interstellar_trade_platf.Domain.Text.{Ident, empty}
use interstellar_trade_platf.Domain.Clock.{format_time, blank}
use interstellar_trade_platf.Domain.Errors.{AppError, bad_request, not_found, forbidden, conflict}
use interstellar_trade_platf.Domain.Amount.{valid_amount, effective_mint_cap, add_checked}
use interstellar_trade_platf.Domain.State.{
  AppState, Colony, User, PendingAction, ActionType, mint, pending, mint_proposed, funds_minted,
  ident, amount, Detail,
}
use interstellar_trade_platf.Domain.Views.{AccountView}
use interstellar_trade_platf.Domain.Host.{Host, Inputs}
use interstellar_trade_platf.Service.Actor.{can_manage_colony, actor_from_token}
use interstellar_trade_platf.Service.Ledger.{append_ledger}
use interstellar_trade_platf.Service.Tx.{put_colony, set_balance, internal}

pub record MintRequest : Type 0 where
  pub colony_id : Ident
  pub user_id : Ident
  pub amount : ℤ

-- Exactly one of the two pointers of the source's struct is set.
pub data MintOutcome : Type 0 where
  minted : AccountView → MintOutcome
  proposed : PendingAction → MintOutcome

-- PendingActionTTL, 72 hours
abbrev pending_action_ttl : ℕ
pending_action_ttl = 259200000000000

-- newPendingAction, before it is stored; `t` is its reading of the clock.
unfoldable pub new_pending_action : ℕ → Ident → User → ActionType → Ident → PendingAction
new_pending_action t id proposer kind colony_id = record {
  id = id;
  kind = kind;
  colony_id = colony_id;
  user_id = empty;
  trade_id = empty;
  amount = pos 0;
  mint_cap = none;
  require_dual = none;
  proposed_by = proposer.id;
  proposed_at = format_time t;
  expires_at = format_time (t + pending_action_ttl);
  status = pending;
  decided_by = empty;
  decided_at = blank;
}

abbrev pub put_action : Ident → PendingAction → AppState → AppState
put_action k pa s = record s { pending_actions = insert k pa s.pending_actions }

-- `if approvedBy != "" { payload["approved_by"] = approvedBy }`
abbrev pub approved_by : Ident → Detail
approved_by id = if id == empty then [] else ("approved_by", ident id) ∷ []

-- applyMint; the colony is stored under `key`, and `t` is the reading of the clock.
unfoldable pub apply_mint :
    Host
    → ℕ
    → AppState
    → Ident
    → Colony
    → Ident
    → ℤ
    → Ident
    → Ident
    → Result AppError (AccountView × AppState)
apply_mint host t state key colony user_id amt actor_id approver = do
  acc ← or_fail (lookup user_id colony.accounts) (not_found "account not found")
  user ← or_fail (lookup user_id state.users) (not_found "account not found")
  total ← add_checked colony.minted_total amt
  fail_if (ltb_ℤ (effective_mint_cap colony) total) (conflict "mint cap exceeded")
  balance ← add_checked acc.balance amt
  let paid = set_balance user_id acc balance (record colony { minted_total = total })
  let colony' = append_ledger host t paid funds_minted actor_id (
      ("user_id", ident user.id)
      ∷ ("amount", amount amt)
      ∷ ("new_balance", amount balance)
      ∷ ("minted_total", amount total)
      ∷ approved_by approver)
  ok (
    record {
      user_id = user.id;
      username = user.username;
      display_name = user.display_name;
      colony_id = colony.id;
      colony_name = colony.name;
      balance = balance;
    },
    put_colony key colony' state,
  )

-- `AddChecked` failed, or the sum is over the cap
over_cap : Colony → ℤ → Bool
over_cap colony amt = elim (add_checked colony.minted_total amt) [
  | err e ↦ true
  | ok total ↦ ltb_ℤ (effective_mint_cap colony) total
]

unfoldable pub propose_mint :
    Host
    → Inputs
    → AppState
    → User
    → Colony
    → MintRequest
    → Result AppError (MintOutcome × AppState)
unfolding over_cap
propose_mint host inp state actor colony req = do
  fail_if (over_cap colony req.amount) (conflict "mint cap exceeded")
  id ← or_fail (inp.id 0) internal
  let pa = record (new_pending_action (inp.now 0) id actor mint colony.id) {
    user_id = req.user_id;
    amount = req.amount;
  }
  let colony' = append_ledger host (inp.now 1) colony mint_proposed actor.id (
      ("action_id", ident id) ∷ ("user_id", ident req.user_id) ∷ ("amount", amount req.amount) ∷ [])
  ok (proposed pa, put_colony req.colony_id colony' (put_action id pa state))

-- mint, with its flag `allowPropose`
unfoldable pub mint_request :
    Host → Inputs → AppState → Ident → MintRequest → Bool → Result AppError (MintOutcome × AppState)
mint_request host inp state token req allow_propose = do
  fail_if (not (valid_amount req.amount))
      (bad_request "amount must be positive and at most the per-mint limit")
  actor ← actor_from_token host (inp.wall 0) state token
  fail_if (not (can_manage_colony actor req.colony_id))
      (forbidden "not allowed to mint in this colony")
  colony ← or_fail (lookup req.colony_id state.colonies) (not_found "colony not found")
  fail_if (not (is_some (lookup req.user_id colony.accounts))) (not_found "account not found")
  fail_if (not (is_some (lookup req.user_id state.users))) (not_found "user not found")
  elim colony.require_dual_control [
    | true ↦ do
      fail_if (not allow_propose)
          (conflict "colony requires dual control; propose the mint via the approvals flow")
      propose_mint host inp state actor colony req
    | false ↦ do
      (view, state') ←
          apply_mint host (inp.now 0) state req.colony_id colony req.user_id req.amount actor.id
            empty
      ok (minted view, state')
  ]

-- Mint and MintOrPropose
unfoldable pub mint_now :
    Host → Inputs → AppState → Ident → MintRequest → Result AppError (MintOutcome × AppState)
mint_now host inp state token req = mint_request host inp state token req false

unfoldable pub mint_or_propose :
    Host → Inputs → AppState → Ident → MintRequest → Result AppError (MintOutcome × AppState)
mint_or_propose host inp state token req = mint_request host inp state token req true
