-- ===== src/Storage/Postgres/Accounts.antt =====
-- The loop of `persist` over the colonies, and the row of one account.
use interstellar_trade_platf.Base.{
  ℕ, ◌≡◌, refl, ap, Bool, true, false, Option, some, [], ◌==◌, arith,
}
use interstellar_trade_platf.Base.Int.{ℤ, ◌==ℤ◌, eq_of_parts}
use interstellar_trade_platf.Base.Map.{lookup}
use interstellar_trade_platf.Domain.State.{AppState, Colony, Account}
use interstellar_trade_platf.Storage.Postgres
use interstellar_trade_platf.Storage.Postgres.{
  accounts, Value, PgOrig, lookup_pair, sorted_keys, pair_row, write_found,
}
use interstellar_trade_platf.Storage.Postgres.Persist.{
  owned, account_rows, child_rows, write_children,
}
use interstellar_trade_platf.Storage.Postgres.Effects.{
  key_eq, effects, effects-behind, effects-for_each, sorted_keys-Mem,
}
use interstellar_trade_platf.Storage.Postgres.Documents.{
  key_eq_self, write_found-Avoids, write_loaded_again, write_loaded_lem,
}
use interstellar_trade_platf.Storage.Postgres.Segments.{child_rows-Avoids, records-Avoids}

eq_of_test : (a b : ℤ) → a ==ℤ b ≡ true → a ≡ b
eq_of_test a b h = eq_of_parts a b (ground (arith, h))

key_eq-sub :
    (i u j : ℕ) → u == j ≡ false → key_eq (pair_row accounts i u) (pair_row accounts i j) ≡ false
unfolding key_eq
key_eq-sub i u j h = ground (arith, h)

key_eq-id :
    (i u j n : ℕ) → i == j ≡ false → key_eq (pair_row accounts i u) (pair_row accounts j n) ≡ false
unfolding key_eq
key_eq-id i u j n h = ground (arith, h)

module _ (equal : Value → Value → Bool) (now : ℕ) (st : AppState) (o : PgOrig) (cid uid : ℕ)
    (c : Colony) (a : Account) (held : Option Value) where
  -- The row held the balance that was loaded, if one was.
  abbrev pub IsHeld : Type 0
  IsHeld =
      (l : ℤ) → lookup_pair (lookup cid o.accounts) uid ≡ some l → held ≡ some (Postgres.balance l)

  account_rows_again :
      lookup uid c.accounts ≡ some a
      → effects
          (pair_row accounts cid uid)
          (account_rows equal now o cid c)
          (some (Postgres.balance a.balance))
        ≡ some (Postgres.balance a.balance)
  unfolding account_rows write_found
  account_rows_again found =
      let again =
        write_loaded_again (pair_row accounts cid) (λ (x : Account). Postgres.balance x.balance)
          (λ x. []) (λ x. []) (λ w x. w ==ℤ x.balance) uid (key_eq_self accounts cid uid) a _ in
      effects-for_each (pair_row accounts cid uid) _ uid (some (Postgres.balance a.balance))
        (λ j differs.
          write_found-Avoids (pair_row accounts cid) _ _ _ _ _ j _ _ (key_eq-sub cid uid j differs))
        (rw found again) (sorted_keys c.accounts) _ (rw found again)
        (sorted_keys-Mem c.accounts uid a found)

  account_rows_lem :
      lookup uid c.accounts ≡ some a
      → IsHeld
      → effects (pair_row accounts cid uid) (account_rows equal now o cid c) held
        ≡ some (Postgres.balance a.balance)
  unfolding account_rows write_found
  account_rows_lem found h =
      effects-for_each (pair_row accounts cid uid) _ uid (some (Postgres.balance a.balance))
        (λ j differs.
          write_found-Avoids (pair_row accounts cid) _ _ _ _ _ j _ _ (key_eq-sub cid uid j differs))
        (rw found (
          write_loaded_again (pair_row accounts cid) (λ (x : Account). Postgres.balance x.balance)
            (λ x. []) (λ x. []) (λ w x. w ==ℤ x.balance) uid (key_eq_self accounts cid uid) a _))
        (sorted_keys c.accounts) held
        (rw found (
          write_loaded_lem (pair_row accounts cid) (λ (x : Account). Postgres.balance x.balance)
            (λ x. []) (λ x. []) (λ w x. w ==ℤ x.balance) uid (key_eq_self accounts cid uid) a
            Postgres.balance _ held h
            λ l _ same. ap Postgres.balance (eq_of_test l a.balance same)))
        (sorted_keys-Mem c.accounts uid a found)

  child_rows_lem :
      (x : Option Value)
      → owned equal now o cid ≡ true
      → effects (pair_row accounts cid uid) (account_rows equal now o cid c) x
        ≡ some (Postgres.balance a.balance)
      → effects (pair_row accounts cid uid) (child_rows equal now o cid (some c)) x
        ≡ some (Postgres.balance a.balance)
  unfolding child_rows key_eq
  child_rows_lem x ours h = rw ours (
      effects-behind (pair_row accounts cid uid) _ _ x _ h (
        records-Avoids equal now (pair_row accounts cid uid) st o cid c (λ i. refl) (λ i j. refl)
          λ i. refl))

  pub write_children_lem :
      owned equal now o cid ≡ true
      → lookup cid st.colonies ≡ some c
      → lookup uid c.accounts ≡ some a
      → IsHeld
      → effects (pair_row accounts cid uid) (write_children equal now st o) held
        ≡ some (Postgres.balance a.balance)
  unfolding write_children key_eq
  write_children_lem ours stands found h =
      effects-for_each (pair_row accounts cid uid) _ cid (some (Postgres.balance a.balance))
        (λ j differs.
          child_rows-Avoids equal now (pair_row accounts cid uid) st o j _
            (λ i. key_eq-id cid uid j i differs) (λ i. refl) (λ i n. refl) λ i. refl)
        (rw stands (child_rows_lem _ ours (account_rows_again found))) (sorted_keys st.colonies)
        held (rw stands (child_rows_lem held ours (account_rows_lem found h)))
        (sorted_keys-Mem st.colonies cid c stands)
