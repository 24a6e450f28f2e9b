-- ===== src/Service/Tx.antt =====
-- Writes to the stored state, and the amounts map reads, that the handlers share.
use interstellar_trade_platf.Base.{Bool, false, Option, none, some, [], ◌∷◌, ◌++◌}
use interstellar_trade_platf.Base.Int.{ℤ, pos}
use interstellar_trade_platf.Base.Map.{insert, modify}
use interstellar_trade_platf.Domain.Text.{Ident, empty}
use interstellar_trade_platf.Domain.State.{AppState, Colony, Trade, Account, Envelope}
use interstellar_trade_platf.Domain.Errors.{AppError, internal_err}

-- A write through the pointer to a colony, and to a trade.
abbrev pub put_colony : Ident → Colony → AppState → AppState
put_colony k c s = record s { colonies = insert k c s.colonies }

abbrev pub put_trade : Ident → Trade → AppState → AppState
put_trade k t s = record s { trades = insert k t s.trades }

abbrev pub modify_colony : Ident → (Colony → Colony) → AppState → AppState
modify_colony k f s = record s { colonies = modify k f s.colonies }

-- `m[k]` of a map of amounts, of keys and of flags: a missing key reads as the zero value.
abbrev pub amount_or_zero : Option ℤ → ℤ
amount_or_zero none = pos 0
amount_or_zero (some v) = v

abbrev pub ident_or_empty : Option Ident → Ident
ident_or_empty none = empty
ident_or_empty (some v) = v

abbrev pub flag_or_false : Option Bool → Bool
flag_or_false none = false
flag_or_false (some b) = b

-- The account with another balance, in its colony.
abbrev pub set_balance : Ident → Account → ℤ → Colony → Colony
set_balance user_id acc balance c = record c {
  accounts = insert user_id (record acc { balance = balance }) c.accounts;
}

abbrev pub push_outbox : Envelope → Colony → Colony
push_outbox env c = record c { outbox = c.outbox ++ env ∷ [] }

-- The error of a failed random source or signature.
abbrev pub internal : AppError
internal = internal_err "internal error"
