-- ===== src/Tests/Postgres.antt =====
-- The PostgreSQL store on a database that is a function from keys to documents.
use interstellar_trade_platf.Base.{
  ℕ, ◌≡◌, refl, sym, ap, Bool, true, false, Option, none, some, List, [], ◌∷◌, ◌==◌, if◌then◌else◌,
  Bool-cases, inl, inr, arith, Result, ok, err,
}
use interstellar_trade_platf.Base.Int.{ℤ, pos}
use interstellar_trade_platf.Base.Map.{lookup}
use interstellar_trade_platf.Domain.Errors.{conflict}
use interstellar_trade_platf.Domain.Clock.{blank}
use interstellar_trade_platf.Domain.Status.{offer_received}
use interstellar_trade_platf.Storage.Postgres
use interstellar_trade_platf.Storage.Postgres.{
  Table, colonies, users, sessions, trades, pending_actions, accounts, ledger_entries, outbox,
  processed_envelopes, bundles, Key, Value, colony_doc, user_doc, session_doc, trade_doc, balance,
  Statement, insert_row, update_row, delete_row, insert_new_row, PgOrig, is_some, lookup_pair,
  colony_header,
}
use interstellar_trade_platf.Storage.Postgres.Persist.{
  owned, persist, account_rows, bundle_row, child_rows, delete_envelope, delete_session,
  is_in_outbox, ledger_row, outbox_row, present, processed_row, write_actions, write_bundles,
  write_children, write_colonies, write_sessions, write_trades, write_users,
}
use interstellar_trade_platf.Storage.Postgres.Effects.{
  effect, Database, IsDatabase, exec_all, key_of,
}
use interstellar_trade_platf.Storage.Postgres.Persisted.{IsLoaded, IsPersisted, persist-IsPersisted}
use interstellar_trade_platf.Storage.Postgres.Retry.{
  TxError, app_error, pg_error, serialization_failure, unique_violation,
}
use interstellar_trade_platf.Tests.Demo.{
  demo_user, demo_session, demo_trade, seller_colony, buyer_colony, demo_state,
}

abbrev Rows : Type 0
Rows = Key → Option Value

-- A row cannot be inserted under a key that is taken.
abbrev is_violated : Statement → Option Value → Bool
is_violated (insert_row k c v) o = is_some o
is_violated _ o = false

abbrev demo_db : Database Rows TxError
demo_db = record {
  exec = λ x s.
      if is_violated x (s (key_of x))
      then err (pg_error unique_violation)
      else ok (λ k. effect k x (s k));
  value_at = λ k s. s k;
}

demo_db-IsDatabase : IsDatabase demo_db
demo_db-IsDatabase = record {
  executed = λ x s s' k done. elim (Bool-cases (is_violated x (s (key_of x)))) [
    | inl taken ↦ absurd (ground (arith, taken, done))
    | inr free ↦
        let e : ok (λ j. effect j x (s j)) ≡ ok s' = rw free at done in
        let same : (λ j. effect j x (s j)) ≡ s' = cc in ap (λ r. r k) (sym same)
  ];
}

-- Every document counts as changed.
abbrev never : Value → Value → Bool
never a b = false

-- User 1 had no role yet, the session of user 9 was closed since, and trade 50 is new.
abbrev demo_orig : PgOrig
demo_orig = record {
  colonies =
      (10, colony_doc (colony_header seller_colony))
      ∷ (20, colony_doc (colony_header buyer_colony))
      ∷ [];
  users = (1, user_doc (demo_user 1 10 [])) ∷ [];
  sessions = (9, session_doc (demo_session 9)) ∷ (1, session_doc (demo_session 1)) ∷ [];
  trades = (51, trade_doc (demo_trade 51 offer_received blank)) ∷ [];
  actions = [];
  locked = (20, true) ∷ [];
  accounts = (20, (3, pos 620) ∷ []) ∷ [];
  outbox = [];
  processed = [];
}

abbrev balance_of : Option ℤ → Option Value
balance_of none = none
balance_of (some b) = some (balance b)

-- The tables with just what was loaded.
abbrev loaded_in : PgOrig → Table → ℕ → ℕ → Option Value
loaded_in o colonies i j = lookup i o.colonies
loaded_in o users i j = lookup i o.users
loaded_in o sessions i j = lookup i o.sessions
loaded_in o trades i j = lookup i o.trades
loaded_in o pending_actions i j = lookup i o.actions
loaded_in o accounts i j = balance_of (lookup_pair (lookup i o.accounts) j)
loaded_in o ledger_entries i j = none
loaded_in o outbox i j = none
loaded_in o processed_envelopes i j = none
loaded_in o bundles i j = none

abbrev demo_rows : Rows
demo_rows k = loaded_in demo_orig k.table k.id k.sub

demo_rows-IsLoaded : IsLoaded demo_db demo_rows demo_orig
demo_rows-IsLoaded = record {
  colonies = λ k w h. h;
  users = λ k w h. h;
  sessions = λ k w h. h;
  trades = λ k w h. h;
  actions = λ k w h. h;
  accounts = λ k j l h. ap balance_of h;
}

abbrev rows_of : Result TxError Rows → Rows
rows_of (ok s) = s
rows_of (err e) = demo_rows

abbrev final_rows : Rows
final_rows = rows_of (exec_all demo_db (persist never 100 demo_state demo_orig) demo_rows)

persist_succeeds :
    exec_all demo_db (persist never 100 demo_state demo_orig) demo_rows ≡ ok final_rows
unfolding exec_all persist write_colonies Postgres.for_each Postgres.sorted_keys
    interstellar_trade_platf.Base.Sort.sort_slice Postgres.keys
    interstellar_trade_platf.Base.Sort.insert_sorted Postgres.write_found lookup
    Postgres.write_loaded interstellar_trade_platf.Base.◌>>=◌ write_users Postgres.write_rows effect
    interstellar_trade_platf.Storage.Postgres.Effects.key_eq write_sessions account_rows bundle_row
    child_rows delete_envelope delete_session is_in_outbox ledger_row lookup_pair outbox_row owned
    present processed_row write_actions write_bundles write_children write_trades
persist_succeeds = refl

persist-IsPersisted_example :
    IsPersisted demo_db (owned never 100 demo_orig) demo_state demo_orig final_rows
persist-IsPersisted_example =
    persist-IsPersisted demo_db never 100 demo_state demo_orig demo_rows final_rows
      demo_db-IsDatabase (λ a b h. absurd (ground arith)) demo_rows-IsLoaded persist_succeeds

-- Two attempts meet another transaction, the third fails for good.
abbrev demo_attempts : ℕ → Result TxError ℕ
demo_attempts k =
    if k == 2 then err (app_error (conflict "taken")) else err (pg_error serialization_failure)
