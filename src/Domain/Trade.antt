-- ===== src/Domain/Trade.antt =====
-- `AdvanceTrade` and `StepTrade` of backend/internal/domain/trade_state.go. The source writes
-- through the pointer to the trade; here the new trade is returned.
pub mod Step
use interstellar_trade_platf.Base.{Bool, true, false, if◌then◌else◌, Result, ok, err, ◌>>=◌}
use interstellar_trade_platf.Domain.Errors.{AppError, conflict}
use interstellar_trade_platf.Domain.Status.{
  Status, transition_allowed, classify_step, step_apply, step_duplicate, step_too_early,
}
use interstellar_trade_platf.Domain.State.{Trade}

unfoldable pub advance_trade : Trade → Status → Result AppError Trade
advance_trade t to =
    if transition_allowed t.status to
    then ok (record t { status = to })
    else err (conflict "illegal trade transition")

-- The Boolean says whether the step was applied; a duplicate leaves the trade as it was.
unfoldable pub step_trade : Trade → Status → Status → Result AppError (Bool × Trade)
step_trade t pred to = elim (classify_step t.status pred) [
  | step_apply ↦ advance_trade t to >>= λ t'. ok (true, t')
  | step_too_early ↦ err (conflict "trade has not reached the expected status")
  | step_duplicate ↦ ok (false, t)
]
