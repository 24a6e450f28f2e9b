-- ===== src/Storage/Postgres/Documents.antt =====
-- The loop of `persist` over the documents of one table, and the row of one of them.
use interstellar_trade_platf.Base.{
  ℕ, ◌≡◌, refl, ap, ◌∙◌, Bool, true, false, Option, none, some, List, ◌==◌, Bool-cases, inl, inr,
  arith,
}
use interstellar_trade_platf.Base.Map.{Map, lookup}
use interstellar_trade_platf.Storage.Postgres.{
  Table, Key, Value, Columns, Statement, sorted_keys, for_each, row, pair_row, write_loaded,
  write_found,
}
use interstellar_trade_platf.Storage.Postgres.Effects.{
  key_eq, effect, effects, Avoids, Avoids-for_each, effects-for_each, sorted_keys-Mem,
}

-- The row is in another table.
abbrev pub IsApart : Key → Table → Type 0
IsApart k t = (i j : ℕ) → key_eq k (pair_row t i j) ≡ false

pub key_eq_self : (t : Table) (i j : ℕ) → key_eq (pair_row t i j) (pair_row t i j) ≡ true
unfolding key_eq
key_eq_self t i j = ground arith

pub key_eq-row : (t : Table) (i j : ℕ) → i == j ≡ false → key_eq (row t i) (row t j) ≡ false
unfolding key_eq
key_eq-row t i j h = ground (arith, h)

module _ {V W : Type 0} (key : ℕ → Key) (doc : V → Value) (new old : V → Columns)
    (unchanged : W → V → Bool) where
  pub write_found-Avoids :
      (k : Key) (id : ℕ) (v : Option V) (w : Option W)
      → key_eq k (key id) ≡ false
      → Avoids k (write_found key doc new old unchanged id v w)
  unfolding Avoids write_found write_loaded
  write_found-Avoids k id none w h = tt
  write_found-Avoids k id (some v) none h = (h, tt)
  write_found-Avoids k id (some v) (some w) h = elim (Bool-cases (unchanged w v)) [
    | inl same ↦ rw same tt
    | inr differs ↦ rw differs (h, tt)
  ]

  module _ (id : ℕ) (self : key_eq (key id) (key id) ≡ true) (v : V) where
    pub write_loaded_again :
        (w : Option W)
        → effects (key id) (write_loaded key doc new old unchanged id v w) (some (doc v))
          ≡ some (doc v)
    unfolding effects effect write_loaded
    write_loaded_again none = rw self refl
    write_loaded_again (some w) = elim (Bool-cases (unchanged w v)) [
      | inl same ↦ rw same refl
      | inr differs ↦ rw (differs, self) refl
    ]

    -- The row holds the document, if it held what was loaded.
    pub write_loaded_lem :
        (stored : W → Value) (w : Option W) (o : Option Value)
        → ((l : W) → w ≡ some l → o ≡ some (stored l))
        → ((l : W) → w ≡ some l → unchanged l v ≡ true → stored l ≡ doc v)
        → effects (key id) (write_loaded key doc new old unchanged id v w) o ≡ some (doc v)
    unfolding effects effect write_loaded
    write_loaded_lem stored none o held sound = rw self refl
    write_loaded_lem stored (some w) o held sound = elim (Bool-cases (unchanged w v)) [
      | inl same ↦ rw same (held w refl ∙ ap some (sound w refl same))
      | inr differs ↦ rw (differs, self, held w refl) refl
    ]

-- A loop over the documents of one table.
module _ {V : Type 0} (table : Table) (doc : V → Value) (new old : V → Columns)
    (unchanged : ℕ → Value → V → Bool) (now : Map V) (prev : Map Value) where
  abbrev rows : List Statement
  rows =
      for_each
        (λ id.
          write_found (row table) doc new old (unchanged id) id (lookup id now) (lookup id prev))
        (sorted_keys now)

  pub rows-Avoids : (k : Key) → IsApart k table → Avoids k rows
  rows-Avoids k apart =
      Avoids-for_each k _ (sorted_keys now)
        λ id. write_found-Avoids (row table) doc new old (unchanged id) k id _ _ (apart id 0)

  pub rows_lem :
      (id : ℕ) (v : V) (o : Option Value)
      → lookup id now ≡ some v
      → ((l : Value) → lookup id prev ≡ some l → o ≡ some l)
      → ((l : Value) → lookup id prev ≡ some l → unchanged id l v ≡ true → l ≡ doc v)
      → effects (row table id) rows o ≡ some (doc v)
  unfolding write_found
  rows_lem id v o found held sound =
      effects-for_each (row table id) _ id (some (doc v))
        (λ j differs.
          write_found-Avoids (row table) doc new old (unchanged j) (row table id) j _ _
            (key_eq-row table id j differs))
        (rw found (
          write_loaded_again (row table) doc new old (unchanged id) id (key_eq_self table id 0) v
            _))
        (sorted_keys now) o
        (rw found (
          write_loaded_lem (row table) doc new old (unchanged id) id (key_eq_self table id 0) v
            (λ l. l) _ o held sound))
        (sorted_keys-Mem now id v found)
