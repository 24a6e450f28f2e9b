-- ===== src/Domain/Trade/Step.antt =====
-- `StepTrade` of backend/internal/domain/trade_state.go on a trade that has taken the step before.
use interstellar_trade_platf.Base.{◌≡◌, refl, arith, Bool, true, false, not, ◌&&◌, ◌||◌, ok}
use interstellar_trade_platf.Domain.Status.{
  Status, status_eq, transition_allowed, reachable, classify_step, step_duplicate,
}
use interstellar_trade_platf.Domain.Status.Table.{for_all, for_all_sound}
use interstellar_trade_platf.Domain.State.{Trade}
use interstellar_trade_platf.Domain.Trade.{step_trade}

-- The state is the target of a step, or lies behind it.
abbrev pub is_after_step : Status → Status → Bool
is_after_step to st = status_eq to st || reachable to st

-- From no state at or behind the target of a transition is its source in reach.
abbrev onward_holds : Status → Status → Status → Bool
onward_holds p q r =
    not (transition_allowed p q && is_after_step q r) || not (status_eq r p) && not (reachable r p)

onward_table : for_all (λ p. for_all (λ q. for_all (λ r. onward_holds p q r))) ≡ true
unfolding for_all transition_allowed reachable
onward_table = refl

onward :
    (p q r : Status)
    → transition_allowed p q ≡ true
    → is_after_step q r ≡ true
    → (status_eq r p ≡ false) × (reachable r p ≡ false)
onward p q r h k =
    let at_p =
      for_all_sound (λ a. for_all (λ b. for_all (λ c. onward_holds a b c))) onward_table p in
    let at_q = for_all_sound (λ b. for_all (λ c. onward_holds p b c)) at_p q in
    let here = for_all_sound (λ c. onward_holds p q c) at_q r in (ground arith, ground arith)

classified :
    (r p : Status)
    → status_eq r p ≡ false
    → reachable r p ≡ false
    → classify_step r p ≡ step_duplicate
unfolding classify_step
classified r p other behind = ground arith

-- A step is applied at most once in the life of a trade: once the trade is in the step's target,
-- or anywhere that transitions can lead from there, the step is a duplicate and leaves the trade
-- as it is.
pub step_trade_once :
    (t : Trade) (pred to : Status)
    → transition_allowed pred to ≡ true
    → is_after_step to t.status ≡ true
    → step_trade t pred to ≡ ok (false, t)
unfolding step_trade
step_trade_once t pred to h k =
    let (other, behind) = onward pred to t.status h k in
    rw (step_trade, classified t.status pred other behind) refl
