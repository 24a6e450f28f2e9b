-- ===== src/Storage/Postgres/Persist.antt =====
-- `persist` of backend/internal/storage/pg_persist.go, loop by loop.
use interstellar_trade_platf.Base.{
  ℕ, Bool, false, not, ◌&&◌, ◌||◌, Option, none, some, List, [], ◌∷◌, ◌++◌, ◌==◌, if◌then◌else◌,
}
use interstellar_trade_platf.Base.Int.{◌==ℤ◌}
use interstellar_trade_platf.Base.Map.{Map, lookup}
use interstellar_trade_platf.Domain.Text.{to_lower}
use interstellar_trade_platf.Domain.State.{
  AppState, Colony, User, Session, Trade, PendingAction, Account, LedgerEntry, Envelope, Bundle,
}
use interstellar_trade_platf.Storage.Postgres.{
  colonies, users, sessions, trades, pending_actions, accounts, ledger_entries, outbox,
  processed_envelopes, bundles, colony_doc, user_doc, session_doc, trade_doc, action_doc, balance,
  entry_doc, envelope_doc, bundle_doc, present_row, ident, text, status, action_status, stamp,
  timestamp, insert_row, delete_row, insert_new_row, Value, Columns, Statement, PgOrig, flag,
  is_some, lookup_pair, sorted_keys, for_each, parse_time_or_nil, colony_header, write_found,
  write_rows, row, pair_row,
}

-- `equal` says whether two documents have the same JSON text.
module _ (equal : Value → Value → Bool) (now : ℕ) where
  colony_columns : Colony → Columns
  colony_columns c = ("name_lower", text (to_lower c.name)) ∷ []

  -- A colony that was loaded without its lock is not written.
  unfoldable pub write_colonies : AppState → PgOrig → List Statement
  unfolding colony_columns
  write_colonies st o =
      for_each
        (λ id.
          write_found (row colonies) (λ c. colony_doc (colony_header c)) colony_columns
            colony_columns
            (λ w c. not (flag (lookup id o.locked)) || equal w (colony_doc (colony_header c))) id
            (lookup id st.colonies) (lookup id o.colonies))
        (sorted_keys st.colonies)

  user_columns : User → Columns
  user_columns u =
      ("username_lower", text (to_lower u.username)) ∷ ("colony_id", ident u.colony_id) ∷ []

  unfoldable pub write_users : AppState → PgOrig → List Statement
  unfolding user_columns
  write_users st o =
      write_rows (row users) user_doc user_columns user_columns (λ w u. equal w (user_doc u))
        st.users o.users

  -- A session whose expiry cannot be read expires now.
  or_now : Option ℕ → ℕ
  or_now none = now
  or_now (some t) = t

  session_columns : Session → Columns
  session_columns s =
      ("user_id", ident s.user_id)
      ∷ ("expires_at", timestamp (some (or_now (parse_time_or_nil s.expires_at))))
      ∷ []

  unfoldable pub delete_session : AppState → ℕ → List Statement
  delete_session st tok =
      if is_some (lookup tok st.sessions) then [] else delete_row (row sessions tok) ∷ []

  unfoldable pub write_sessions : AppState → PgOrig → List Statement
  unfolding session_columns or_now
  write_sessions st o =
      for_each (delete_session st) (sorted_keys o.sessions)
      ++ write_rows (row sessions) session_doc session_columns session_columns
          (λ w s. equal w (session_doc s)) st.sessions o.sessions

  changed_trade : Trade → Columns
  changed_trade t =
      ("status", status t.status) ∷ ("expires_at", timestamp (parse_time_or_nil t.expires_at)) ∷ []

  trade_columns : Trade → Columns
  trade_columns t =
      ("seller_user_id", ident t.seller_user_id)
      ∷ ("buyer_user_id", ident t.buyer_user_id)
      ∷ ("seller_colony_id", ident t.seller_colony_id)
      ∷ ("buyer_colony_id", ident t.buyer_colony_id)
      ∷ ("created_at", stamp t.created_at)
      ∷ changed_trade t

  unfoldable pub write_trades : AppState → PgOrig → List Statement
  unfolding trade_columns changed_trade
  write_trades st o =
      write_rows (row trades) trade_doc trade_columns changed_trade (λ w t. equal w (trade_doc t))
        st.trades o.trades

  changed_action : PendingAction → Columns
  changed_action a = ("status", action_status a.status) ∷ []

  action_columns : PendingAction → Columns
  action_columns a =
      ("colony_id", ident a.colony_id)
      ∷ ("trade_id", ident a.trade_id)
      ∷ ("user_id", ident a.user_id)
      ∷ ("proposed_at", stamp a.proposed_at)
      ∷ changed_action a

  unfoldable pub write_actions : AppState → PgOrig → List Statement
  unfolding action_columns changed_action
  write_actions st o =
      write_rows (row pending_actions) action_doc action_columns changed_action
        (λ w a. equal w (action_doc a)) st.pending_actions o.actions

  -- The colony rows that the transaction may write: locked, or created in it.
  unfoldable pub owned : PgOrig → ℕ → Bool
  owned o id = flag (lookup id o.locked) || not (is_some (lookup id o.colonies))

  unfoldable pub account_rows : PgOrig → ℕ → Colony → List Statement
  account_rows o cid c =
      for_each
        (λ uid.
          write_found (pair_row accounts cid) (λ (a : Account). balance a.balance) (λ a. [])
            (λ a. []) (λ w a. w ==ℤ a.balance) uid (lookup uid c.accounts)
            (lookup_pair (lookup cid o.accounts) uid))
        (sorted_keys c.accounts)

  unfoldable pub ledger_row : ℕ → LedgerEntry → List Statement
  ledger_row cid e = insert_row (pair_row ledger_entries cid e.seq) [] (entry_doc e) ∷ []

  unfoldable pub outbox_row : PgOrig → ℕ → Envelope → List Statement
  outbox_row o cid e =
      if is_some (lookup e.id o.outbox)
      then []
      else insert_row (row outbox e.id)
          (("colony_id", ident cid) ∷ ("to_colony_id", ident e.to_colony_id) ∷ []) (envelope_doc e)
        ∷ []

  unfoldable pub processed_row : PgOrig → ℕ → Colony → ℕ → List Statement
  processed_row o cid c eid =
      if not (flag (lookup eid c.processed_envelopes))
        || flag (lookup_pair (lookup cid o.processed) eid)
      then []
      else insert_row (pair_row processed_envelopes cid eid) [] present_row ∷ []

  -- The body of the loop over the colonies and their rows.
  unfoldable pub child_rows : PgOrig → ℕ → Option Colony → List Statement
  child_rows o cid none = []
  child_rows o cid (some c) =
      if owned o cid
      then account_rows o cid c
        ++ (for_each (ledger_row cid) c.ledger
            ++ (for_each (outbox_row o cid) c.outbox
                ++ for_each (processed_row o cid c) (sorted_keys c.processed_envelopes)))
      else []

  unfoldable pub write_children : AppState → PgOrig → List Statement
  write_children st o =
      for_each (λ cid. child_rows o cid (lookup cid st.colonies)) (sorted_keys st.colonies)

  -- `present`: the envelopes in the outboxes of the colonies that are written
  unfoldable pub is_in_outbox : ℕ → List Envelope → Bool
  is_in_outbox eid [] = false
  is_in_outbox eid (e ∷ es) = eid == e.id || is_in_outbox eid es

  unfoldable pub present : PgOrig → Map Colony → ℕ → Bool
  present o [] eid = false
  present o (e ∷ m) eid = owned o e.0 && is_in_outbox eid e.1.outbox || present o m eid

  unfoldable pub delete_envelope : AppState → PgOrig → ℕ → List Statement
  delete_envelope st o eid =
      if present o st.colonies eid then [] else delete_row (row outbox eid) ∷ []

  unfoldable pub bundle_row : ℕ → Option Bundle → List Statement
  bundle_row id none = []
  bundle_row id (some b) = insert_new_row (row bundles id) [] (bundle_doc b) ∷ []

  unfoldable pub write_bundles : AppState → List Statement
  write_bundles st = for_each (λ id. bundle_row id (lookup id st.bundles)) (sorted_keys st.bundles)

  -- persist
  unfoldable pub persist : AppState → PgOrig → List Statement
  persist st o =
      write_colonies st o
      ++ (write_users st o
          ++ (write_sessions st o
              ++ (write_trades st o
                  ++ (write_actions st o
                      ++ (write_children st o
                          ++ (for_each (delete_envelope st o) (sorted_keys o.outbox)
                              ++ write_bundles st))))))
