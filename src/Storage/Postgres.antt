-- ===== src/Storage/Postgres.antt =====
-- backend/internal/storage/pg_persist.go: the statements by which the PostgreSQL store writes the
-- differences between what a transaction loaded (`pgOrig` of pg_load.go) and what the handler made of it.
-- A statement is its kind, the row that it is about, the columns that it sets, and the document.
pub mod Persist
pub mod Effects
pub mod Documents
pub mod Segments
pub mod Accounts
pub mod Rows
pub mod Sessions
pub mod Persisted
pub mod Retry
use interstellar_trade_platf.Base.{
  ℕ, Bool, true, false, not, ◌&&◌, ◌||◌, Option, none, some, List, [], ◌∷◌, ◌++◌, String, ◌==◌, ltb,
  if◌then◌else◌,
}
use interstellar_trade_platf.Base.Int.{ℤ, ◌==ℤ◌}
use interstellar_trade_platf.Base.Sort.{sort_slice}
use interstellar_trade_platf.Base.Map.{Map, lookup}
use interstellar_trade_platf.Domain.Text.{Ident, Text, to_lower}
use interstellar_trade_platf.Domain.Clock.{Stamp, parse_time}
use interstellar_trade_platf.Domain.Status.{Status}
use interstellar_trade_platf.Domain.State.{
  AppState, Colony, User, Session, Trade, PendingAction, ActionStatus, Account, LedgerEntry,
  Envelope, Bundle,
}

pub data Table : Type 0 where
  colonies users sessions trades pending_actions : Table
  accounts ledger_entries outbox processed_envelopes bundles : Table

-- The unique key of a row: `id` is its first part, and `sub` the second, or 0 if there is none.
pub record Key : Type 0 where
  pub table : Table
  pub id : ℕ
  pub sub : ℕ

-- What a row stores besides its key and the columns that are copied out for queries.
pub data Value : Type 0 where
  colony_doc : Colony → Value
  user_doc : User → Value
  session_doc : Session → Value
  trade_doc : Trade → Value
  action_doc : PendingAction → Value
  balance : ℤ → Value
  entry_doc : LedgerEntry → Value
  envelope_doc : Envelope → Value
  bundle_doc : Bundle → Value
  present_row : Value

pub data Column : Type 0 where
  ident : Ident → Column
  text : Text → Column
  status : Status → Column
  action_status : ActionStatus → Column
  stamp : Stamp → Column
  timestamp : Option ℕ → Column

abbrev pub Columns : Type 0
Columns = List (String × Column)

pub data Statement : Type 0 where
  insert_row : Key → Columns → Value → Statement
  update_row : Key → Columns → Value → Statement
  delete_row : Key → Statement
  insert_new_row : Key → Columns → Value → Statement

-- `pgOrig`. A map keyed by a pair is a map of maps, and the text of a loaded document is kept as the
-- document.
pub record PgOrig : Type 0 where
  pub colonies : Map Value
  pub users : Map Value
  pub sessions : Map Value
  pub trades : Map Value
  pub actions : Map Value
  pub locked : Map Bool
  pub accounts : Map (Map ℤ)
  pub outbox : Map Ident
  pub processed : Map (Map Bool)

-- `m[k]` of a map of Booleans
abbrev pub flag : Option Bool → Bool
flag none = false
flag (some b) = b

abbrev pub is_some {ℓ} : {A : Type ℓ} → Option A → Bool
is_some none = false
is_some (some a) = true

-- `m[[2]string{k, j}]`
unfoldable pub lookup_pair : {V : Type 0} → Option (Map V) → ℕ → Option V
lookup_pair none j = none
lookup_pair (some m) j = lookup j m

unfoldable pub keys : {V : Type 0} → Map V → List ℕ
keys [] = []
keys (e ∷ m) = e.0 ∷ keys m

-- sortedKeys
unfoldable pub sorted_keys : {V : Type 0} → Map V → List ℕ
sorted_keys m = sort_slice ltb (keys m)

-- `for _, id := range ids`
unfoldable pub for_each : {I : Type 0} → (I → List Statement) → List I → List Statement
for_each write [] = []
for_each write (i ∷ is) = write i ++ for_each write is

-- parseTimeOrNil
abbrev pub parse_time_or_nil : Stamp → Option ℕ
parse_time_or_nil s = parse_time s

-- colonyHeader
abbrev pub colony_header : Colony → Colony
colony_header c = record c { accounts = []; ledger = []; outbox = []; processed_envelopes = [] }

-- The switch of the loops over documents and accounts: a row that was not loaded is inserted, and one
-- that differs from what was loaded is updated.
module _ {V W : Type 0} (key : ℕ → Key) (doc : V → Value) (new old : V → Columns)
    (unchanged : W → V → Bool) where
  unfoldable pub write_loaded : ℕ → V → Option W → List Statement
  write_loaded id v none = insert_row (key id) (new v) (doc v) ∷ []
  write_loaded id v (some w) =
      if unchanged w v then [] else update_row (key id) (old v) (doc v) ∷ []

  unfoldable pub write_found : ℕ → Option V → Option W → List Statement
  write_found id none w = []
  write_found id (some v) w = write_loaded id v w

  unfoldable pub write_rows : Map V → Map W → List Statement
  write_rows now prev =
      for_each (λ id. write_found id (lookup id now) (lookup id prev)) (sorted_keys now)

abbrev pub row : Table → ℕ → Key
row table id = record { table = table; id = id; sub = 0 }

abbrev pub pair_row : Table → ℕ → ℕ → Key
pair_row table id sub = record { table = table; id = id; sub = sub }
