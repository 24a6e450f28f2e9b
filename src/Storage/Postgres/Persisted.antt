-- ===== src/Storage/Postgres/Persisted.antt =====
-- What the statements of `persist` leave in the tables.
use interstellar_trade_platf.Base.{ℕ, ◌≡◌, ◌∙◌, Bool, true, none, some, ok}
use interstellar_trade_platf.Base.Int.{ℤ}
use interstellar_trade_platf.Base.Map.{lookup}
use interstellar_trade_platf.Domain.State.{
  AppState, Colony, User, Session, Trade, PendingAction, Account,
}
use interstellar_trade_platf.Storage.Postgres
use interstellar_trade_platf.Storage.Postgres.{
  colonies, users, sessions, trades, pending_actions, accounts, Key, Value, colony_doc, user_doc,
  session_doc, trade_doc, action_doc, Statement, PgOrig, flag, is_some, lookup_pair, sorted_keys,
  for_each, colony_header, row, pair_row, write_found, write_rows,
}
use interstellar_trade_platf.Storage.Postgres.Persist.{owned, persist}
use interstellar_trade_platf.Storage.Postgres.Effects.{
  effects, Database, IsDatabase, exec_all, exec_all-effects,
}
use interstellar_trade_platf.Storage.Postgres.Rows.{
  colony_effects, user_effects, trade_effects, action_effects, account_effects,
}
use interstellar_trade_platf.Storage.Postgres.Sessions.{session_effects, gone_effects}

-- The tables hold what the transaction remembers to have loaded.
pub record IsLoaded {S E : Type 0} (db : Database S E) (s : S) (o : PgOrig) : Type 0 where
  pub colonies :
      (k : ℕ) (w : Value) → lookup k o.colonies ≡ some w → db.value_at (row colonies k) s ≡ some w
  pub users : (k : ℕ) (w : Value) → lookup k o.users ≡ some w → db.value_at (row users k) s ≡ some w
  pub sessions :
      (k : ℕ) (w : Value) → lookup k o.sessions ≡ some w → db.value_at (row sessions k) s ≡ some w
  pub trades :
      (k : ℕ) (w : Value) → lookup k o.trades ≡ some w → db.value_at (row trades k) s ≡ some w
  pub actions :
      (k : ℕ) (w : Value)
      → lookup k o.actions ≡ some w
      → db.value_at (row pending_actions k) s ≡ some w
  pub accounts :
      (k j : ℕ) (l : ℤ)
      → lookup_pair (lookup k o.accounts) j ≡ some l
      → db.value_at (pair_row accounts k j) s ≡ some (Postgres.balance l)

-- The tables hold the state: its documents, and the headers and balances of the colonies that the
-- transaction owns. A session that was loaded and is not in the state has no row.
pub record IsPersisted {S E : Type 0} (db : Database S E) (owns : ℕ → Bool) (st : AppState)
    (o : PgOrig) (s : S) : Type 0 where
  pub colony :
      (k : ℕ) (c : Colony)
      → owns k ≡ true
      → lookup k st.colonies ≡ some c
      → db.value_at (row colonies k) s ≡ some (colony_doc (colony_header c))
  pub user :
      (k : ℕ) (u : User)
      → lookup k st.users ≡ some u
      → db.value_at (row users k) s ≡ some (user_doc u)
  pub session :
      (k : ℕ) (v : Session)
      → lookup k st.sessions ≡ some v
      → db.value_at (row sessions k) s ≡ some (session_doc v)
  pub gone :
      (k : ℕ) (w : Value)
      → lookup k o.sessions ≡ some w
      → lookup k st.sessions ≡ none
      → db.value_at (row sessions k) s ≡ none
  pub trade :
      (k : ℕ) (t : Trade)
      → lookup k st.trades ≡ some t
      → db.value_at (row trades k) s ≡ some (trade_doc t)
  pub action :
      (k : ℕ) (a : PendingAction)
      → lookup k st.pending_actions ≡ some a
      → db.value_at (row pending_actions k) s ≡ some (action_doc a)
  pub account :
      (k j : ℕ) (c : Colony) (a : Account)
      → owns k ≡ true
      → lookup k st.colonies ≡ some c
      → lookup j c.accounts ≡ some a
      → db.value_at (pair_row accounts k j) s ≡ some (Postgres.balance a.balance)

-- On a database that executes INSERT, UPDATE and DELETE by key as documented, where documents with
-- the same JSON text are the same and the tables hold what the transaction loaded, the statements
-- that write a state, once all are executed, leave in the tables every user, session, trade and
-- pending action of it, and of the colonies that the transaction owns the header and every
-- balance; a session that was loaded and is not in the state has no row.
pub persist-IsPersisted :
    {S E : Type 0} (db : Database S E) (equal : Value → Value → Bool) (now : ℕ) (st : AppState)
    (o : PgOrig) (s s' : S)
    → IsDatabase db
    → ((a b : Value) → equal a b ≡ true → a ≡ b)
    → IsLoaded db s o
    → exec_all db (persist equal now st o) s ≡ ok s'
    → IsPersisted db (owned equal now o) st o s'
persist-IsPersisted db equal now st o s s' laws sound loaded done =
    let left : (k : Key) → db.value_at k s' ≡ effects k (persist equal now st o) (db.value_at k s) =
      λ k. exec_all-effects db laws (persist equal now st o) s s' k done in
    record {
      colony = λ k c ours found.
          left _ ∙ colony_effects equal sound now st o k c _ ours found (loaded.colonies k);
      user = λ k u found. left _ ∙ user_effects equal sound now st o k u _ found (loaded.users k);
      session = λ k v found.
          left _ ∙ session_effects equal sound now st o k v _ found (loaded.sessions k);
      gone = λ k w stood missing. left _ ∙ gone_effects equal sound now st o k w _ stood missing;
      trade =
          λ k t found. left _ ∙ trade_effects equal sound now st o k t _ found (loaded.trades k);
      action =
          λ k a found. left _ ∙ action_effects equal sound now st o k a _ found (loaded.actions k);
      account = λ k j c a ours stands found.
          left _
          ∙ account_effects equal sound now st o k j c a _ ours stands found (loaded.accounts k j);
    }
