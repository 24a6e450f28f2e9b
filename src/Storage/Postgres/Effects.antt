-- ===== src/Storage/Postgres/Effects.antt =====
-- What statements do to a row, for any database that executes them one by one as PostgreSQL documents:
-- INSERT, UPDATE and DELETE by a unique key, and INSERT with ON CONFLICT DO NOTHING.
use interstellar_trade_platf.Base.{
  ℕ, ◌≡◌, refl, sym, ap, ◌∙◌, Bool, false, ◌&&◌, Option, none, some, List, [], ◌∷◌, ◌++◌, ◌==◌,
  if◌then◌else◌, Bool-cases, inl, inr, arith, Result, ok, ◌>>=◌, bound_ok,
}
use interstellar_trade_platf.Base.Sort.{sort_slice-Mem}
use interstellar_trade_platf.Base.Map.{Map, lookup}
use interstellar_trade_platf.Storage.Postgres.{
  Table, colonies, users, sessions, trades, pending_actions, accounts, ledger_entries, outbox,
  processed_envelopes, bundles, Key, Value, Statement, insert_row, update_row, delete_row,
  insert_new_row, keys, sorted_keys, for_each,
}
use mathlib.Core.List.{Memᴰ}
use mathlib.Core.List.Memᴰ.{head, tail}

abbrev pub table_number : Table → ℕ
table_number colonies = 0
table_number users = 1
table_number sessions = 2
table_number trades = 3
table_number pending_actions = 4
table_number accounts = 5
table_number ledger_entries = 6
table_number outbox = 7
table_number processed_envelopes = 8
table_number bundles = 9

unfoldable pub key_eq : Key → Key → Bool
key_eq a b = table_number a.table == table_number b.table && a.id == b.id && a.sub == b.sub

abbrev pub key_of : Statement → Key
key_of (insert_row k c v) = k
key_of (update_row k c v) = k
key_of (delete_row k) = k
key_of (insert_new_row k c v) = k

-- The row's document after the statement, which is about the row.
abbrev on_row : Statement → Option Value → Option Value
on_row (insert_row k c v) o = some v
on_row (update_row k c v) none = none
on_row (update_row k c v) (some w) = some v
on_row (delete_row k) o = none
on_row (insert_new_row k c v) none = some v
on_row (insert_new_row k c v) (some w) = some w

unfoldable pub effect : Key → Statement → Option Value → Option Value
effect k x o = if key_eq k (key_of x) then on_row x o else o

unfoldable pub effects : Key → List Statement → Option Value → Option Value
effects k [] o = o
effects k (x ∷ xs) o = effects k xs (effect k x o)

-- A database: how it executes a statement, or fails, and the document that it has under a key.
pub record Database (S E : Type 0) : Type 0 where
  pub exec : Statement → S → Result E S
  pub value_at : Key → S → Option Value

-- A statement that is executed changes the row that it is about as documented, and no other.
pub record IsDatabase {S E : Type 0} (db : Database S E) : Type 0 where
  pub executed :
      (x : Statement) (s s' : S) (k : Key)
      → db.exec x s ≡ ok s'
      → db.value_at k s' ≡ effect k x (db.value_at k s)

module _ {S E : Type 0} (db : Database S E) where
  -- The statements in turn, up to the first that fails.
  unfoldable pub exec_all : List Statement → S → Result E S
  exec_all [] s = ok s
  exec_all (x ∷ xs) s = db.exec x s >>= exec_all xs

  pub exec_all-effects :
      (laws : IsDatabase db) (xs : List Statement) (s s' : S) (k : Key)
      → exec_all xs s ≡ ok s'
      → db.value_at k s' ≡ effects k xs (db.value_at k s)
  unfolding exec_all effects
  exec_all-effects laws [] s s' k h = let e : s ≡ s' = cc in ap (db.value_at k) (sym e)
  exec_all-effects laws (x ∷ xs) s s' k h =
      let (t, first, rest) = bound_ok h in
      exec_all-effects laws xs t s' k rest ∙ ap (effects k xs) (laws.executed x s t k first)

module _ (k : Key) where
  pub effects-append :
      (xs ys : List Statement) (o : Option Value)
      → effects k (xs ++ ys) o ≡ effects k ys (effects k xs o)
  unfolding effects
  effects-append [] ys o = refl
  effects-append (x ∷ xs) ys o = effects-append xs ys (effect k x o)

  -- None of the statements is about the row.
  unfoldable pub Avoids : List Statement → Type 0
  Avoids [] = Unit {0}
  Avoids (x ∷ xs) = (key_eq k (key_of x) ≡ false) × Avoids xs

  pub Avoids-append : (xs ys : List Statement) → Avoids xs → Avoids ys → Avoids (xs ++ ys)
  unfolding Avoids
  Avoids-append [] ys a b = b
  Avoids-append (x ∷ xs) ys a b = (a.0, Avoids-append xs ys a.1 b)

  pub Avoids-for_each :
      {I : Type 0} (write : I → List Statement) (is : List I)
      → ((i : I) → Avoids (write i))
      → Avoids (for_each write is)
  unfolding Avoids for_each
  Avoids-for_each write [] a = tt
  Avoids-for_each write (i ∷ is) a =
      Avoids-append (write i) (for_each write is) (a i) (Avoids-for_each write is a)

  pub effects-Avoids : (xs : List Statement) (o : Option Value) → Avoids xs → effects k xs o ≡ o
  unfolding Avoids effects effect
  effects-Avoids [] o a = refl
  effects-Avoids (x ∷ xs) o a = rw (a.0) (effects-Avoids xs o a.1)

  -- Statements before and behind those that make the row what it is to be.
  pub effects-before :
      (xs ys : List Statement) (o w : Option Value)
      → Avoids xs
      → effects k ys o ≡ w
      → effects k (xs ++ ys) o ≡ w
  effects-before xs ys o w a h =
      effects-append xs ys o ∙ ap (effects k ys) (effects-Avoids xs o a) ∙ h

  pub effects-behind :
      (xs ys : List Statement) (o w : Option Value)
      → effects k xs o ≡ w
      → Avoids ys
      → effects k (xs ++ ys) o ≡ w
  effects-behind xs ys o w h a =
      effects-append xs ys o ∙ ap (effects k ys) h ∙ effects-Avoids ys w a

  -- A loop of which one round makes the row what it is to be, and no other round is about the row.
  module _ (write : ℕ → List Statement) (i : ℕ) (w : Option Value)
      (others : (j : ℕ) → i == j ≡ false → Avoids (write j))
      (again : effects k (write i) w ≡ w) where
    effects-stay : (is : List ℕ) → effects k (for_each write is) w ≡ w
    unfolding for_each effects
    effects-stay [] = refl
    effects-stay (j ∷ is) =
        effects-append (write j) (for_each write is) w ∙ (elim (Bool-cases (i == j)) [
          | inl same ↦
              let e : i ≡ j = ground (arith, same) in
              ap (λ n. effects k (for_each write is) (effects k (write n) w)) (sym e)
              ∙ ap (effects k (for_each write is)) again
              ∙ effects-stay is
          | inr differs ↦
              ap (effects k (for_each write is)) (effects-Avoids (write j) w (others j differs))
              ∙ effects-stay is
        ])

    pub effects-for_each :
        (is : List ℕ) (o : Option Value)
        → effects k (write i) o ≡ w
        → Memᴰ i is
        → effects k (for_each write is) o ≡ w
    unfolding for_each
    effects-for_each [] o first m = elim m [ ]
    effects-for_each (j ∷ is) o first m =
        effects-append (write j) (for_each write is) o ∙ (elim (Bool-cases (i == j)) [
          | inl same ↦
              let e : i ≡ j = ground (arith, same) in
              ap (λ n. effects k (for_each write is) (effects k (write n) o)) (sym e)
              ∙ ap (effects k (for_each write is)) first
              ∙ effects-stay is
          | inr differs ↦
              ap (effects k (for_each write is)) (effects-Avoids (write j) o (others j differs))
              ∙ effects-for_each is o first
                  (elim m [ head p ↦ absurd (ground (arith, differs, p)) | tail r ↦ r ])
        ])

keys-Mem : {V : Type 0} (m : Map V) (k : ℕ) (v : V) → lookup k m ≡ some v → Memᴰ k (keys m)
unfolding keys lookup
keys-Mem [] k v found = absurd (ground arith)
keys-Mem (e ∷ m) k v found = elim (Bool-cases (k == e.0)) [
  | inl same ↦ head (ground (arith, same))
  | inr differs ↦ tail (keys-Mem m k v (rw differs at found))
]

pub sorted_keys-Mem :
    {V : Type 0} (m : Map V) (k : ℕ) (v : V) → lookup k m ≡ some v → Memᴰ k (sorted_keys m)
unfolding sorted_keys
sorted_keys-Mem m k v found = (sort_slice-Mem _ k (keys m)).1 (keys-Mem m k v found)
