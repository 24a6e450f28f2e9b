-- ===== src/Storage/Postgres/Segments.antt =====
-- Which tables the parts of `persist` write to.
use interstellar_trade_platf.Base.{
  ℕ, ◌≡◌, Bool, false, not, ◌||◌, Option, none, some, ◌++◌, Bool-cases, inl, inr,
}
use interstellar_trade_platf.Base.Map.{lookup}
use interstellar_trade_platf.Domain.State.{AppState, Colony, Envelope, Bundle}
use interstellar_trade_platf.Storage.Postgres.{
  colonies, users, sessions, trades, pending_actions, accounts, ledger_entries, outbox,
  processed_envelopes, bundles, Key, Value, PgOrig, flag, is_some, lookup_pair, sorted_keys,
  for_each, row, pair_row, write_rows,
}
use interstellar_trade_platf.Storage.Postgres.Persist.{
  write_colonies, write_users, delete_session, write_sessions, write_trades, write_actions, owned,
  account_rows, ledger_row, outbox_row, processed_row, child_rows, write_children, delete_envelope,
  bundle_row, write_bundles, present,
}
use interstellar_trade_platf.Storage.Postgres.Effects.{
  key_eq, Avoids, Avoids-append, Avoids-for_each,
}
use interstellar_trade_platf.Storage.Postgres.Documents.{IsApart, write_found-Avoids, rows-Avoids}

module _ (equal : Value → Value → Bool) (now : ℕ) (k : Key) (st : AppState) (o : PgOrig) where
  pub write_colonies-Avoids : IsApart k colonies → Avoids k (write_colonies equal now st o)
  unfolding write_colonies
  write_colonies-Avoids a = rows-Avoids colonies _ _ _ _ st.colonies o.colonies k a

  pub write_users-Avoids : IsApart k users → Avoids k (write_users equal now st o)
  unfolding write_users write_rows
  write_users-Avoids a = rows-Avoids users _ _ _ _ st.users o.users k a

  pub delete_session-Avoids :
      (tok : ℕ) → key_eq k (row sessions tok) ≡ false → Avoids k (delete_session equal now st tok)
  unfolding delete_session Avoids
  delete_session-Avoids tok a = elim (Bool-cases (is_some (lookup tok st.sessions))) [
    | inl there ↦ rw there tt
    | inr gone ↦ rw gone (a, tt)
  ]

  pub write_sessions-Avoids : IsApart k sessions → Avoids k (write_sessions equal now st o)
  unfolding write_sessions write_rows
  write_sessions-Avoids a =
      Avoids-append k _ _
        (Avoids-for_each k _ (sorted_keys o.sessions) λ tok. delete_session-Avoids tok (a tok 0))
        (rows-Avoids sessions _ _ _ _ st.sessions o.sessions k a)

  pub write_trades-Avoids : IsApart k trades → Avoids k (write_trades equal now st o)
  unfolding write_trades write_rows
  write_trades-Avoids a = rows-Avoids trades _ _ _ _ st.trades o.trades k a

  pub write_actions-Avoids : IsApart k pending_actions → Avoids k (write_actions equal now st o)
  unfolding write_actions write_rows
  write_actions-Avoids a = rows-Avoids pending_actions _ _ _ _ st.pending_actions o.actions k a

  pub account_rows-Avoids :
      (cid : ℕ) (c : Colony)
      → ((uid : ℕ) → key_eq k (pair_row accounts cid uid) ≡ false)
      → Avoids k (account_rows equal now o cid c)
  unfolding account_rows
  account_rows-Avoids cid c a =
      Avoids-for_each k _ (sorted_keys c.accounts)
        λ uid. write_found-Avoids (pair_row accounts cid) _ _ _ _ k uid _ _ (a uid)

  outbox_row-Avoids :
      (cid : ℕ) (e : Envelope) → IsApart k outbox → Avoids k (outbox_row equal now o cid e)
  unfolding outbox_row Avoids
  outbox_row-Avoids cid e a = elim (Bool-cases (is_some (lookup e.id o.outbox))) [
    | inl there ↦ rw there tt
    | inr new ↦ rw new (a e.id 0, tt)
  ]

  processed_row-Avoids :
      (cid : ℕ) (c : Colony) (eid : ℕ)
      → key_eq k (pair_row processed_envelopes cid eid) ≡ false
      → Avoids k (processed_row equal now o cid c eid)
  unfolding processed_row Avoids
  processed_row-Avoids cid c eid a =
      elim (Bool-cases (
        not (flag (lookup eid c.processed_envelopes))
        || flag (lookup_pair (lookup cid o.processed) eid))) [
          | inl there ↦ rw there tt
          | inr new ↦ rw new (a, tt)
        ]

  -- The rows of a colony besides its accounts.
  pub records-Avoids :
      (cid : ℕ) (c : Colony)
      → ((i : ℕ) → key_eq k (pair_row ledger_entries cid i) ≡ false)
      → IsApart k outbox
      → ((i : ℕ) → key_eq k (pair_row processed_envelopes cid i) ≡ false)
      → Avoids k (
          for_each (ledger_row equal now cid) c.ledger
          ++ (for_each (outbox_row equal now o cid) c.outbox
              ++ for_each (processed_row equal now o cid c) (sorted_keys c.processed_envelopes)))
  unfolding ledger_row Avoids
  records-Avoids cid c l x p =
      Avoids-append k _ _ (Avoids-for_each k _ c.ledger λ e. (l e.seq, tt)) (
        Avoids-append k _ _ (Avoids-for_each k _ c.outbox λ e. outbox_row-Avoids cid e x) (
          Avoids-for_each k _ (sorted_keys c.processed_envelopes)
            λ eid. processed_row-Avoids cid c eid (p eid)))

  pub child_rows-Avoids :
      (cid : ℕ) (c : Option Colony)
      → ((i : ℕ) → key_eq k (pair_row accounts cid i) ≡ false)
      → ((i : ℕ) → key_eq k (pair_row ledger_entries cid i) ≡ false)
      → IsApart k outbox
      → ((i : ℕ) → key_eq k (pair_row processed_envelopes cid i) ≡ false)
      → Avoids k (child_rows equal now o cid c)
  unfolding child_rows Avoids
  child_rows-Avoids cid none a l x p = tt
  child_rows-Avoids cid (some c) a l x p = elim (Bool-cases (owned equal now o cid)) [
    | inl ours ↦
        rw ours (Avoids-append k _ _ (account_rows-Avoids cid c a) (records-Avoids cid c l x p))
    | inr others ↦ rw others tt
  ]

  pub write_children-Avoids :
      IsApart k accounts
      → IsApart k ledger_entries
      → IsApart k outbox
      → IsApart k processed_envelopes
      → Avoids k (write_children equal now st o)
  unfolding write_children
  write_children-Avoids a l x p =
      Avoids-for_each k _ (sorted_keys st.colonies)
        λ cid. child_rows-Avoids cid _ (a cid) (l cid) x (p cid)

  delete_envelope-Avoids :
      (eid : ℕ) → IsApart k outbox → Avoids k (delete_envelope equal now st o eid)
  unfolding delete_envelope Avoids
  delete_envelope-Avoids eid a = elim (Bool-cases (present equal now o st.colonies eid)) [
    | inl there ↦ rw there tt
    | inr gone ↦ rw gone (a eid 0, tt)
  ]

  bundle_row-Avoids :
      (id : ℕ) (b : Option Bundle) → IsApart k bundles → Avoids k (bundle_row equal now id b)
  unfolding bundle_row Avoids
  bundle_row-Avoids id none a = tt
  bundle_row-Avoids id (some b) a = (a id 0, tt)

  -- The last part.
  pub deletes-Avoids :
      IsApart k outbox
      → IsApart k bundles
      → Avoids k (
          for_each (delete_envelope equal now st o) (sorted_keys o.outbox)
          ++ write_bundles equal now st)
  unfolding write_bundles
  deletes-Avoids x b =
      Avoids-append k _ _
        (Avoids-for_each k _ (sorted_keys o.outbox) λ eid. delete_envelope-Avoids eid x)
        (Avoids-for_each k _ (sorted_keys st.bundles) λ id. bundle_row-Avoids id _ b)

  -- From the loop over the colonies' rows on.
  pub children-Avoids :
      IsApart k accounts
      → IsApart k ledger_entries
      → IsApart k outbox
      → IsApart k processed_envelopes
      → IsApart k bundles
      → Avoids k (
          write_children equal now st o
          ++ (for_each (delete_envelope equal now st o) (sorted_keys o.outbox)
              ++ write_bundles equal now st))
  children-Avoids a l x p b =
      Avoids-append k _ _ (write_children-Avoids a l x p) (deletes-Avoids x b)
