-- ===== src/Storage/Postgres/Rows.antt =====
-- What the statements of `persist` leave in the rows of colonies, users, trades, pending
-- actions and accounts.
use interstellar_trade_platf.Base.{ℕ, ◌≡◌, refl, Bool, true, Option, some, List, ◌++◌, arith}
use interstellar_trade_platf.Base.Int.{ℤ}
use interstellar_trade_platf.Base.Map.{lookup}
use interstellar_trade_platf.Domain.State.{AppState, Colony, User, Trade, PendingAction, Account}
use interstellar_trade_platf.Storage.Postgres
use interstellar_trade_platf.Storage.Postgres.{
  colonies, users, sessions, trades, pending_actions, accounts, Key, Value, colony_doc, user_doc,
  session_doc, trade_doc, action_doc, Statement, Columns, PgOrig, flag, is_some, lookup_pair,
  sorted_keys, for_each, colony_header, row, pair_row, write_found, write_rows,
}
use interstellar_trade_platf.Storage.Postgres.Persist.{
  write_colonies, write_users, write_sessions, write_trades, write_actions, owned, persist,
}
use interstellar_trade_platf.Storage.Postgres.Effects.{
  key_eq, effects, Avoids-append, effects-before, effects-behind,
}
use interstellar_trade_platf.Storage.Postgres.Documents.{IsApart, rows_lem}
use interstellar_trade_platf.Storage.Postgres.Segments.{
  write_colonies-Avoids, write_users-Avoids, write_sessions-Avoids, write_trades-Avoids,
  write_actions-Avoids, deletes-Avoids, children-Avoids,
}
use interstellar_trade_platf.Storage.Postgres.Accounts.{write_children_lem}

module _ (equal : Value → Value → Bool) (sound : (a b : Value) → equal a b ≡ true → a ≡ b) (now : ℕ)
    (st : AppState) (o : PgOrig) where
  pub colony_effects :
      (k : ℕ) (c : Colony) (x : Option Value)
      → owned equal now o k ≡ true
      → lookup k st.colonies ≡ some c
      → ((w : Value) → lookup k o.colonies ≡ some w → x ≡ some w)
      → effects (row colonies k) (persist equal now st o) x ≡ some (colony_doc (colony_header c))
  unfolding persist write_colonies owned key_eq
  colony_effects k c x ours found held =
      let key = row colonies k in
      effects-behind key _ _ x _
        (rows_lem colonies (λ c. colony_doc (colony_header c)) _ _ _ st.colonies o.colonies k c x
          found held
          λ w loaded same. sound w (colony_doc (colony_header c)) (
            let known : is_some (lookup k o.colonies) ≡ true = rw loaded refl in
            ground (arith, ours, known, same)))
        (Avoids-append key _ _ (write_users-Avoids equal now key st o λ i j. refl) (
          Avoids-append key _ _ (write_sessions-Avoids equal now key st o λ i j. refl) (
            Avoids-append key _ _ (write_trades-Avoids equal now key st o λ i j. refl) (
              Avoids-append key _ _ (write_actions-Avoids equal now key st o λ i j. refl) (
                children-Avoids equal now key st o (λ i j. refl) (λ i j. refl) (λ i j. refl)
                  (λ i j. refl) λ i j. refl)))))

  pub user_effects :
      (k : ℕ) (u : User) (x : Option Value)
      → lookup k st.users ≡ some u
      → ((w : Value) → lookup k o.users ≡ some w → x ≡ some w)
      → effects (row users k) (persist equal now st o) x ≡ some (user_doc u)
  unfolding persist write_users write_rows key_eq
  user_effects k u x found held =
      let key = row users k in
      effects-before key _ _ x _ (write_colonies-Avoids equal now key st o λ i j. refl) (
        effects-behind key _ _ x _
          (rows_lem users user_doc _ _ _ st.users o.users k u x found held
            λ w _ same. sound w (user_doc u) same)
          (Avoids-append key _ _ (write_sessions-Avoids equal now key st o λ i j. refl) (
            Avoids-append key _ _ (write_trades-Avoids equal now key st o λ i j. refl) (
              Avoids-append key _ _ (write_actions-Avoids equal now key st o λ i j. refl) (
                children-Avoids equal now key st o (λ i j. refl) (λ i j. refl) (λ i j. refl)
                  (λ i j. refl) λ i j. refl)))))

  pub trade_effects :
      (k : ℕ) (t : Trade) (x : Option Value)
      → lookup k st.trades ≡ some t
      → ((w : Value) → lookup k o.trades ≡ some w → x ≡ some w)
      → effects (row trades k) (persist equal now st o) x ≡ some (trade_doc t)
  unfolding persist write_trades write_rows key_eq
  trade_effects k t x found held =
      let key = row trades k in
      effects-before key _ _ x _ (write_colonies-Avoids equal now key st o λ i j. refl) (
        effects-before key _ _ x _ (write_users-Avoids equal now key st o λ i j. refl) (
          effects-before key _ _ x _ (write_sessions-Avoids equal now key st o λ i j. refl) (
            effects-behind key _ _ x _
              (rows_lem trades trade_doc _ _ _ st.trades o.trades k t x found held
                λ w _ same. sound w (trade_doc t) same)
              (Avoids-append key _ _ (write_actions-Avoids equal now key st o λ i j. refl) (
                children-Avoids equal now key st o (λ i j. refl) (λ i j. refl) (λ i j. refl)
                  (λ i j. refl) λ i j. refl)))))

  -- The documents before the pending actions, where the row is none of them.
  documents_before :
      (k : Key) (ys : List Statement) (x w : Option Value)
      → IsApart k colonies
      → IsApart k users
      → IsApart k sessions
      → IsApart k trades
      → effects k ys x ≡ w
      → effects k
          (write_colonies equal now st o
            ++ (write_users equal now st o
                ++ (write_sessions equal now st o ++ (write_trades equal now st o ++ ys))))
          x
        ≡ w
  documents_before k ys x w c u v t h =
      effects-before k _ _ x _ (write_colonies-Avoids equal now k st o c) (
        effects-before k _ _ x _ (write_users-Avoids equal now k st o u) (
          effects-before k _ _ x _ (write_sessions-Avoids equal now k st o v)
            (effects-before k _ _ x _ (write_trades-Avoids equal now k st o t) h)))

  pub action_effects :
      (k : ℕ) (a : PendingAction) (x : Option Value)
      → lookup k st.pending_actions ≡ some a
      → ((w : Value) → lookup k o.actions ≡ some w → x ≡ some w)
      → effects (row pending_actions k) (persist equal now st o) x ≡ some (action_doc a)
  unfolding persist write_actions write_rows key_eq
  action_effects k a x found held =
      let key = row pending_actions k in
      documents_before key _ x _ (λ i j. refl) (λ i j. refl) (λ i j. refl) (λ i j. refl)
        (effects-behind key _ _ x _
          (rows_lem pending_actions action_doc _ _ _ st.pending_actions o.actions k a x found held
            λ w _ same. sound w (action_doc a) same)
          (children-Avoids equal now key st o (λ i j. refl) (λ i j. refl) (λ i j. refl)
            (λ i j. refl) λ i j. refl))

  pub account_effects :
      (k j : ℕ) (c : Colony) (a : Account) (x : Option Value)
      → owned equal now o k ≡ true
      → lookup k st.colonies ≡ some c
      → lookup j c.accounts ≡ some a
      → ((l : ℤ) → lookup_pair (lookup k o.accounts) j ≡ some l → x ≡ some (Postgres.balance l))
      → effects (pair_row accounts k j) (persist equal now st o) x
        ≡ some (Postgres.balance a.balance)
  unfolding persist key_eq
  account_effects k j c a x ours stands found held =
      let key = pair_row accounts k j in
      documents_before key _ x _ (λ i j. refl) (λ i j. refl) (λ i j. refl) (λ i j. refl)
        (effects-before key _ _ x _ (write_actions-Avoids equal now key st o λ i j. refl) (
          effects-behind key _ _ x _
            (write_children_lem equal now st o k j c a x ours stands found held)
            (deletes-Avoids equal now key st o (λ i j. refl) λ i j. refl)))
