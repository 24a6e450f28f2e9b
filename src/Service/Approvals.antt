-- ===== src/Service/Approvals.antt =====
-- Dual control: backend/internal/service/approvals.go.
pub mod Once
use interstellar_trade_platf.Base.{
  ℕ, Bool, true, false, not, ◌&&◌, ◌||◌, Option, none, some, List, [], ◌∷◌, ◌++◌, ◌==◌, is_some,
  if◌then◌else◌, Result, ok, err, ◌>>=◌, ◌>>◌, fail_if, or_fail,
}
use interstellar_trade_platf.Base.Int.{ℤ, pos, ltb_ℤ}
use interstellar_trade_platf.Base.Map.{Map, lookup}
use interstellar_trade_platf.Domain.Text.{Ident, empty}
use interstellar_trade_platf.Domain.Clock.{Stamp, format_time, parse_time, is_after}
use interstellar_trade_platf.Domain.Errors.{
  AppError, bad_request, not_found, forbidden, conflict, internal_err,
}
use interstellar_trade_platf.Domain.Amount.{effective_mint_cap, default_mint_cap}
use interstellar_trade_platf.Domain.Status.{is_escrowed}
use interstellar_trade_platf.Domain.State.{
  AppState, Colony, Trade, User, PendingAction, ActionType, mint, force_refund, policy,
  unknown_action, ActionStatus, pending, approved, rejected, super_admin, policy_proposed,
  policy_changed, force_refund_proposed, approval_rejected, trade_force_refunded, ident, amount,
  flag, Datum, label,
}
use interstellar_trade_platf.Domain.Views.{ColonyView}
use interstellar_trade_platf.Domain.Host.{Host, Inputs}
use interstellar_trade_platf.Service.Actor.{has_role, can_manage_colony, actor_from_token}
use interstellar_trade_platf.Service.Ledger.{append_ledger}
use interstellar_trade_platf.Service.View.{to_colony_view}
use interstellar_trade_platf.Service.Refund.{apply_refund}
use interstellar_trade_platf.Service.Mint.{apply_mint, new_pending_action, put_action, approved_by}
use interstellar_trade_platf.Service.Tx.{put_colony, modify_colony, internal}

pub record PolicyRequest : Type 0 where
  pub mint_cap : Option ℤ
  pub require_dual_control : Option Bool

pub data PolicyOutcome : Type 0 where
  changed : ColonyView → PolicyOutcome
  proposed : PendingAction → PolicyOutcome

-- The refusal of validatePolicy.
unfoldable pub bad_cap : Colony → Option ℤ → Bool
bad_cap c none = false
bad_cap c (some cap) =
    not (ltb_ℤ (pos 0) cap) || (ltb_ℤ cap c.minted_total || ltb_ℤ default_mint_cap cap)

-- validatePolicy
unfoldable pub validate_policy : Colony → PolicyRequest → Result AppError (Unit {0})
validate_policy c req = fail_if (bad_cap c req.mint_cap) (
    bad_request
      "mint_cap must be positive, at least the amount already minted, and at most the platform maximum")

unfoldable pub set_cap : Option ℤ → Colony → Colony
set_cap none c = c
set_cap (some cap) c = record c { mint_cap = cap }

unfoldable pub set_dual : Option Bool → Colony → Colony
set_dual none c = c
set_dual (some dual) c = record c { require_dual_control = dual }

-- applyPolicy; the new colony is returned.
unfoldable pub apply_policy :
    Host → ℕ → Colony → PolicyRequest → Ident → Ident → Result AppError Colony
apply_policy host t c req actor_id approver = do
  validate_policy c req
  let c' = set_dual req.require_dual_control (set_cap req.mint_cap c)
  ok (
      append_ledger host t c' policy_changed actor_id (
        ("mint_cap", amount (effective_mint_cap c'))
        ∷ ("require_dual_control", flag c'.require_dual_control)
        ∷ approved_by approver))

unfoldable pub set_policy :
    Host
    → Inputs
    → AppState
    → Ident
    → Ident
    → PolicyRequest
    → Result AppError (PolicyOutcome × AppState)
set_policy host inp state token colony_id req = do
  fail_if (not (is_some req.mint_cap) && not (is_some req.require_dual_control))
      (bad_request "mint_cap or require_dual_control is required")
  actor ← actor_from_token host (inp.wall 0) state token
  fail_if (not (has_role actor super_admin)) (forbidden "only super_admin can change supply policy")
  colony ← or_fail (lookup colony_id state.colonies) (not_found "colony not found")
  validate_policy colony req
  elim colony.require_dual_control [
    | true ↦ do
      id ← or_fail (inp.id 0) internal
      let pa = record (new_pending_action (inp.now 0) id actor policy colony_id) {
        mint_cap = req.mint_cap;
        require_dual = req.require_dual_control;
      }
      let colony' =
          append_ledger host (inp.now 1) colony policy_proposed actor.id
            (("action_id", ident id) ∷ [])
      ok (proposed pa, put_colony colony_id colony' (put_action id pa state))
    | false ↦ do
      colony' ← apply_policy host (inp.now 0) colony req actor.id empty
      ok (changed (to_colony_view colony'), put_colony colony_id colony' state)
  ]

unfoldable pub propose_force_refund :
    Host → Inputs → AppState → Ident → Ident → Result AppError (PendingAction × AppState)
propose_force_refund host inp state token trade_id = do
  actor ← actor_from_token host (inp.wall 0) state token
  trade ← or_fail (lookup trade_id state.trades) (not_found "trade not found")
  fail_if (not (can_manage_colony actor trade.buyer_colony_id))
      (forbidden "only an admin of the buyer colony can propose a force refund")
  fail_if (not (is_escrowed trade.status)) (conflict "trade is not in escrow")
  id ← or_fail (inp.id 0) internal
  let pa = record (new_pending_action (inp.now 0) id actor force_refund trade.buyer_colony_id) {
    trade_id = trade.id;
    amount = trade.price;
  }
  let write : Colony → Colony = λ c.
      append_ledger host (inp.now 1) c force_refund_proposed actor.id
        (("action_id", ident id) ∷ ("trade_id", ident trade.id) ∷ [])
  ok (pa, modify_colony trade.buyer_colony_id write (put_action id pa state))

unfoldable pub is_pending : ActionStatus → Bool
is_pending pending = true
is_pending _ = false

unfoldable pub kind_name : ActionType → Datum
kind_name mint = label "mint"
kind_name force_refund = label "force_refund"
kind_name policy = label "policy"
kind_name unknown_action = label "unknown"

-- `err != nil || now.After(exp)`
unfoldable pub action_expired : ℕ → Stamp → Bool
action_expired now s = elim (parse_time s) [ none ↦ true | some exp ↦ is_after now exp ]

-- `trade == nil || !IsEscrowed(trade.Status)`
unfoldable pub escrowed_trade : Option Trade → Option Trade
escrowed_trade none = none
escrowed_trade (some t) = if is_escrowed t.status then some t else none

-- What an approval does, by the type of the action.
unfoldable pub execute :
    ActionType → Host → Inputs → AppState → User → Colony → PendingAction → Result AppError AppState
execute mint host inp state actor colony pa = do
  (_, state') ←
      apply_mint host (inp.now 1) state pa.colony_id colony pa.user_id pa.amount pa.proposed_by
        actor.id
  ok state'
execute force_refund host inp state actor colony pa = do
  trade ←
      or_fail (escrowed_trade (lookup pa.trade_id state.trades))
        (conflict "trade is no longer in escrow")
  (_, state') ←
      apply_refund host (record inp { now = λ i. inp.now (ℕ.suc i) }) state pa.trade_id trade
        actor.id trade_force_refunded
        (("proposed_by", ident pa.proposed_by) ∷ ("approved_by", ident actor.id) ∷ [])
  ok state'
execute policy host inp state actor colony pa = do
  colony' ←
      apply_policy host (inp.now 1) colony
        (record { mint_cap = pa.mint_cap; require_dual_control = pa.require_dual }) pa.proposed_by
        actor.id
  ok (put_colony pa.colony_id colony' state)
execute unknown_action host inp state actor colony pa = err (internal_err "unknown action type")

unfoldable pub reject : Host → Inputs → AppState → User → Colony → PendingAction → AppState
reject host inp state actor colony pa =
    put_colony pa.colony_id
      (append_ledger host (inp.now 1) colony approval_rejected actor.id
        (("action_id", ident pa.id) ∷ ("type", kind_name pa.kind) ∷ []))
      state

unfoldable pub decide_approval :
    Host → Inputs → AppState → Ident → Ident → Bool → Result AppError (PendingAction × AppState)
decide_approval host inp state token action_id approve = do
  actor ← actor_from_token host (inp.wall 0) state token
  pa ← or_fail (lookup action_id state.pending_actions) (not_found "approval not found")
  fail_if (not (can_manage_colony actor pa.colony_id))
      (forbidden "not allowed to decide this approval")
  fail_if (actor.id == pa.proposed_by) (forbidden "the proposer cannot decide their own proposal")
  fail_if (not (is_pending pa.status)) (conflict "approval already decided")
  fail_if (action_expired (inp.now 0) pa.expires_at) (conflict "approval has expired")
  colony ← or_fail (lookup pa.colony_id state.colonies) (not_found "colony not found")
  executed ← elim approve [
    | true ↦ execute pa.kind host inp state actor colony pa
    | false ↦ ok (reject host inp state actor colony pa)
  ]
  let pa' = record pa {
    status = if approve then approved else rejected;
    decided_by = actor.id;
    decided_at = format_time (inp.now 3);
  }
  ok (pa', put_action action_id pa' executed)
