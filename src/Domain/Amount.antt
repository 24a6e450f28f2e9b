-- ===== src/Domain/Amount.antt =====
-- The amount limits of backend/internal/domain/trade_state.go.
pub mod Bounds
use interstellar_trade_platf.Base.{
  ◌+◌, ◌≤◌, ◌≡◌, Bool, true, ◌&&◌, ◌||◌, not, arith, if◌then◌else◌, Result, ok, err,
}
use interstellar_trade_platf.Base.Int.{
  ℤ, pos, negsuc, ◌+ℤ◌, ◌-ℤ◌, ◌≤ℤ◌, ltb_ℤ, pos_part, neg_part, max_int64, min_int64, add64, sub64,
  IsInt64, int_laws, add64_exact, sub64_exact,
}
use interstellar_trade_platf.Domain.Errors.{AppError, conflict}
use interstellar_trade_platf.Domain.State.{Colony}

abbrev pub max_amount : ℤ
max_amount = pos 1000000000000

abbrev pub default_mint_cap : ℤ
default_mint_cap = pos 1000000000000000

-- ValidAmount
unfoldable pub valid_amount : ℤ → Bool
valid_amount a = ltb_ℤ (pos 0) a && not (ltb_ℤ max_amount a)

-- EffectiveMintCap
unfoldable pub cap_or_default : ℤ → ℤ
cap_or_default cap = if ltb_ℤ (pos 0) cap then cap else default_mint_cap

abbrev pub effective_mint_cap : Colony → ℤ
effective_mint_cap c = cap_or_default c.mint_cap

-- The test of AddChecked.
overflows : ℤ → ℤ → Bool
overflows a b =
    ltb_ℤ (pos 0) b && ltb_ℤ (sub64 max_int64 b) a || ltb_ℤ b (pos 0) && ltb_ℤ a (sub64 min_int64 b)

-- AddChecked
unfoldable pub add_checked : ℤ → ℤ → Result AppError ℤ
unfolding overflows
add_checked a b = if overflows a b then err (conflict "amount overflow") else ok (add64 a b)
