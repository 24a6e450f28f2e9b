-- ===== src/Storage/Postgres/Sessions.antt =====
-- What the statements of `persist` leave in the rows of sessions.
use interstellar_trade_platf.Base.{
  ℕ, ◌≡◌, refl, subst, Bool, true, Option, none, some, [], ◌++◌, ◌==◌, Bool-cases, inl, inr, arith,
}
use interstellar_trade_platf.Base.Map.{lookup}
use interstellar_trade_platf.Domain.State.{AppState, Session}
use interstellar_trade_platf.Storage.Postgres.{
  sessions, Key, Value, session_doc, Columns, PgOrig, sorted_keys, for_each, row, write_found,
  write_rows,
}
use interstellar_trade_platf.Storage.Postgres.Persist.{
  delete_session, write_sessions, write_trades, write_actions, write_children, persist,
  write_bundles, delete_envelope,
}
use interstellar_trade_platf.Storage.Postgres.Effects.{
  key_eq, effect, effects, Avoids, Avoids-append, Avoids-for_each, effects-before, effects-behind,
  effects-for_each, sorted_keys-Mem,
}
use interstellar_trade_platf.Storage.Postgres.Documents.{
  key_eq_self, key_eq-row, write_found-Avoids, rows_lem,
}
use interstellar_trade_platf.Storage.Postgres.Segments.{
  write_colonies-Avoids, write_users-Avoids, delete_session-Avoids, write_trades-Avoids,
  write_actions-Avoids, children-Avoids,
}

Avoids-none : (k : Key) → Avoids k []
unfolding Avoids
Avoids-none k = tt

module _ (equal : Value → Value → Bool) (sound : (a b : Value) → equal a b ≡ true → a ≡ b) (now : ℕ)
    (st : AppState) (o : PgOrig) where
  -- No session of the state is deleted.
  deletes-Avoids_kept :
      (k : ℕ) (v : Session)
      → lookup k st.sessions ≡ some v
      → Avoids (row sessions k) (for_each (delete_session equal now st) (sorted_keys o.sessions))
  unfolding delete_session
  deletes-Avoids_kept k v found = Avoids-for_each (row sessions k) _ (sorted_keys o.sessions) λ j.
      elim (Bool-cases (k == j)) [
        | inl same ↦
            let e : k ≡ j = ground (arith, same) in
            subst (λ n. Avoids (row sessions k) (delete_session equal now st n)) e
              (rw found (Avoids-none (row sessions k)))
        | inr differs ↦
            delete_session-Avoids equal now (row sessions k) st o j
              (key_eq-row sessions k j differs)
      ]

  behind_sessions-Avoids :
      (k : ℕ)
      → Avoids (row sessions k) (
          write_trades equal now st o
          ++ (write_actions equal now st o
              ++ (write_children equal now st o
                  ++ (for_each (delete_envelope equal now st o) (sorted_keys o.outbox)
                      ++ write_bundles equal now st))))
  unfolding key_eq
  behind_sessions-Avoids k =
      let key = row sessions k in
      Avoids-append key _ _ (write_trades-Avoids equal now key st o λ i j. refl) (
        Avoids-append key _ _ (write_actions-Avoids equal now key st o λ i j. refl) (
          children-Avoids equal now key st o (λ i j. refl) (λ i j. refl) (λ i j. refl) (λ i j. refl)
            λ i j. refl))

  -- What the loops over sessions leave is what persist leaves.
  session_rows_effects :
      (k : ℕ) (x w : Option Value)
      → effects (row sessions k) (write_sessions equal now st o) x ≡ w
      → effects (row sessions k) (persist equal now st o) x ≡ w
  unfolding persist key_eq
  session_rows_effects k x w h =
      let key = row sessions k in
      effects-before key _ _ x _ (write_colonies-Avoids equal now key st o λ i j. refl) (
        effects-before key _ _ x _ (write_users-Avoids equal now key st o λ i j. refl)
          (effects-behind key _ _ x _ h (behind_sessions-Avoids k)))

  pub session_effects :
      (k : ℕ) (v : Session) (x : Option Value)
      → lookup k st.sessions ≡ some v
      → ((w : Value) → lookup k o.sessions ≡ some w → x ≡ some w)
      → effects (row sessions k) (persist equal now st o) x ≡ some (session_doc v)
  unfolding write_sessions write_rows
  session_effects k v x found held = session_rows_effects k x _ (
      effects-before (row sessions k) _ _ x _ (deletes-Avoids_kept k v found) (
        rows_lem sessions session_doc _ _ _ st.sessions o.sessions k v x found held
          λ w _ same. sound w (session_doc v) same))

  -- A session that is not in the state is not written.
  session_rows-Avoids :
      (new old : Session → Columns) (unchanged : Value → Session → Bool) (k : ℕ)
      → lookup k st.sessions ≡ none
      → Avoids
          (row sessions k)
          (write_rows (row sessions) session_doc new old unchanged st.sessions o.sessions)
  unfolding write_rows write_found
  session_rows-Avoids new old unchanged k missing =
      Avoids-for_each (row sessions k) _ (sorted_keys st.sessions) λ j. elim (Bool-cases (k == j)) [
        | inl same ↦
            let e : k ≡ j = ground (arith, same) in
            subst
              (λ n. Avoids (row sessions k) (
                write_found (row sessions) session_doc new old unchanged n (lookup n st.sessions)
                  (lookup n o.sessions)))
              e (rw missing (Avoids-none (row sessions k)))
        | inr differs ↦
            write_found-Avoids (row sessions) session_doc new old unchanged (row sessions k) j _ _
              (key_eq-row sessions k j differs)
      ]

  delete_session_lem :
      (k : ℕ) (x : Option Value)
      → lookup k st.sessions ≡ none
      → effects (row sessions k) (delete_session equal now st k) x ≡ none
  unfolding delete_session effects effect
  delete_session_lem k x missing = rw (missing, key_eq_self sessions k 0) refl

  pub gone_effects :
      (k : ℕ) (w : Value) (x : Option Value)
      → lookup k o.sessions ≡ some w
      → lookup k st.sessions ≡ none
      → effects (row sessions k) (persist equal now st o) x ≡ none
  unfolding write_sessions
  gone_effects k w x loaded missing =
      let key = row sessions k in
      session_rows_effects k x none (
        effects-behind key _ _ x none
          (effects-for_each key (delete_session equal now st) k none
            (λ j differs.
              delete_session-Avoids equal now key st o j (key_eq-row sessions k j differs))
            (delete_session_lem k none missing) (sorted_keys o.sessions) x
            (delete_session_lem k x missing) (sorted_keys-Mem o.sessions k w loaded))
          (session_rows-Avoids _ _ _ k missing))
