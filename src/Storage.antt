-- ===== src/Storage.antt =====
-- The file store of backend/internal/storage/store.go: `StoreRead`, `StoreUpdate` and their scoped
-- forms under the store's mutex, with the file as a second copy of the state. The file store ignores
-- the scope.
pub mod Atomic
pub mod Heads
pub mod Postgres
use interstellar_trade_platf.Base.{
  ℕ, Bool, true, false, Option, none, some, List, [], ◌∷◌, ◌==◌, if◌then◌else◌, get_last?, Result,
  ok, err,
}
use interstellar_trade_platf.Base.Map.{Map}
use interstellar_trade_platf.Domain.Text.{empty}
use interstellar_trade_platf.Domain.Clock.{format_time}
use interstellar_trade_platf.Domain.Errors.{AppError, internal_err}
use interstellar_trade_platf.Domain.State.{AppState, Colony}
use interstellar_trade_platf.Service.Ledger.{last_hash}

-- The state in memory, and the state that the file holds.
pub record Store : Type 0 where
  pub state : AppState
  pub file : AppState

unfoldable pub new_empty_state : ℕ → AppState
new_empty_state now = record {
  meta = record { created_at = format_time now; updated_at = format_time now };
  colonies = [];
  users = [];
  sessions = [];
  trades = [];
  bundles = [];
  pending_actions = [];
}

-- `NewStore` where the file does not exist; `saved` says whether it can be written.
unfoldable pub new_store : Bool → ℕ → Option Store
new_store saved now =
    if saved
    then some (record { state = new_empty_state now; file = new_empty_state now })
    else none

-- `StoreReadScoped`: the callback runs on the live state.
unfoldable pub store_read :
    {A : Type 0} → (AppState → Result AppError A) → Store → Result AppError A
store_read fn st = fn st.state

-- What follows the callback of an update: the clock is read, and the copy is written to the file and
-- then takes the place of the live state.
unfoldable pub commit :
    {A : Type 0} → Bool → ℕ → Store → Result AppError (A × AppState) → Result AppError A × Store
commit saved now st (err e) = (err e, st)
commit saved now st (ok (out, work)) =
    let stamped = record work { meta = record work.meta { updated_at = format_time now } } in
    if saved
    then (ok out, record { state = stamped; file = stamped })
    else (err (internal_err "internal error"), st)

-- `StoreUpdateScoped`. The callback mutates a copy, here the state that it returns; `CloneJSON` of
-- a state and `ensureStateMaps` give the state back.
unfoldable pub store_update :
    {A : Type 0}
    → Bool
    → ℕ
    → (AppState → Result AppError (A × AppState))
    → Store
    → Result AppError A × Store
store_update saved now fn st = commit saved now st (fn st.state)

-- The colony with the head of its ledger filled in.
unfoldable pub backfill_head : Colony → Colony
backfill_head c =
    if c.last_ledger_hash == empty then record c { last_ledger_hash = last_hash c.ledger } else c

unfoldable pub backfill_heads : Map Colony → Map Colony
backfill_heads [] = []
backfill_heads (e ∷ m) = (e.0, backfill_head e.1) ∷ backfill_heads m

-- backfillLedgerHeads
unfoldable pub backfill_ledger_heads : AppState → AppState
backfill_ledger_heads s = record s { colonies = backfill_heads s.colonies }
