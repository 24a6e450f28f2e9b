-- ===== src/Base/Map.antt =====
-- A Go map keyed by identifiers, as an association list; sums and predicates over its values.
use Prim.Native.Nat.{ℕ}
use mathlib.Core.Path.{◌≡◌, refl}
use mathlib.Core.Logic.{◌≢◌, ◌⊎◌, inl, inr}
use mathlib.Core.Bool.{false}
use mathlib.Core.Option.{Option, none, some}
use mathlib.Core.List.{List, [], ◌∷◌}
use native.Mathlib.Omega.{arith}
use interstellar_trade_platf.Base.Tests.{◌==◌, if◌then◌else◌, Bool-cases}
use interstellar_trade_platf.Base.Int.{ℤ, pos, ◌+ℤ◌, ◌≃ℤ◌, int_laws}

abbrev pub Map {ℓ} : Type ℓ → Type ℓ
Map V = List (ℕ × V)

module _ {ℓ} {V : Type ℓ} where
  -- `m[k]`; `none` is the nil pointer or the missing key.
  unfoldable pub lookup : ℕ → Map V → Option V
  lookup k [] = none
  lookup k (e ∷ m) = if k == e.0 then some e.1 else lookup k m

  -- `m[k] = v`
  unfoldable pub insert : ℕ → V → Map V → Map V
  insert k v [] = (k, v) ∷ []
  insert k v (e ∷ m) = if k == e.0 then (k, v) ∷ m else e ∷ insert k v m

  -- `delete(m, k)`
  pub erase : ℕ → Map V → Map V
  erase k [] = []
  erase k (e ∷ m) = if k == e.0 then erase k m else e ∷ erase k m

  -- A write through the pointer that `m[k]` holds; without one there is nothing to write to.
  unfoldable pub modify : ℕ → (V → V) → Map V → Map V
  modify k f [] = []
  modify k f (e ∷ m) = if k == e.0 then (k, f e.1) ∷ m else e ∷ modify k f m

  pub lookup-modify :
      (j k : ℕ) (f : V → V) (m : Map V) (v : V)
      → lookup k m ≡ some v
      → lookup j (modify k f m) ≡ (if j == k then some (f v) else lookup j m)
  unfolding lookup modify
  lookup-modify j k f [] v h = cc
  lookup-modify j k f (e ∷ m) v h = ground (arith, lookup-modify j k f m v)

  pub lookup-insert :
      (j k : ℕ) (v : V) (m : Map V)
      → lookup j (insert k v m) ≡ (if j == k then some v else lookup j m)
  unfolding lookup insert
  lookup-insert j k v [] = ground arith
  lookup-insert j k v (e ∷ m) = ground (arith, lookup-insert j k v m)

  pub lookup-insert_self : (k : ℕ) (v : V) (m : Map V) → lookup k (insert k v m) ≡ some v
  lookup-insert_self k v m = ground (arith, lookup-insert k k v m)

  pub lookup-insert_ne :
      (j k : ℕ) (v : V) (m : Map V) → j ≢ k → lookup j (insert k v m) ≡ lookup j m
  lookup-insert_ne j k v m h = ground (arith, lookup-insert j k v m)

  pub lookup-erase :
      (j k : ℕ) (m : Map V) → lookup j (erase k m) ≡ (if j == k then none else lookup j m)
  unfolding lookup erase
  lookup-erase j k [] = ground arith
  lookup-erase j k (e ∷ m) = ground (arith, lookup-erase j k m)

  -- The predicate holds of every value.
  abbrev pub All : (V → Type 0) → Map V → Type 0
  All P [] = Unit
  All P (e ∷ m) = P e.1 × All P m

  pub All-lookup :
      (P : V → Type 0) (k : ℕ) (v : V) (m : Map V) → All P m → lookup k m ≡ some v → P v
  unfolding lookup
  All-lookup P k v [] h e = cc
  All-lookup P k v (x ∷ m) h e = ground (arith, All-lookup P k v m h.1)

  pub All-insert :
      (P : V → Type 0) (k : ℕ) (v : V) (m : Map V) → All P m → P v → All P (insert k v m)
  unfolding insert
  All-insert P k v [] h p = (p, tt)
  All-insert P k v (x ∷ m) h p = ground (arith, All-insert P k v m h.1 p)

  pub All-modify :
      (P : V → Type 0) (k : ℕ) (f : V → V) (m : Map V)
      → All P m
      → ((v : V) → P v → P (f v))
      → All P (modify k f m)
  unfolding modify
  All-modify P k f [] h p = tt
  All-modify P k f (x ∷ m) h p = ground (arith, All-modify P k f m h.1 p, p x.1 h.0)

  pub All-modify_at :
      (P : V → Type 0) (k : ℕ) (f : V → V) (m : Map V) (old : V)
      → All P m
      → lookup k m ≡ some old
      → P (f old)
      → All P (modify k f m)
  unfolding lookup modify
  All-modify_at P k f [] old h e p = tt
  All-modify_at P k f (x ∷ m) old h e p = ground (arith, All-modify_at P k f m old h.1)

  -- What the write leaves alone is found as before, under every key.
  pub lookup-modify_kept {κ} :
      {W : Type κ} (f : V → W) (g : V → V) (j k : ℕ) (m : Map V) (v : V)
      → ((x : V) → f (g x) ≡ f x)
      → lookup j m ≡ some v
      → (v' : V) × (lookup j (modify k g m) ≡ some v') × (f v' ≡ f v)
  unfolding lookup modify
  lookup-modify_kept f g j k [] v same h = cc
  lookup-modify_kept f g j k (x ∷ m) v same h = elim (Bool-cases (j == x.0)) [
    | inl ej ↦ elim (Bool-cases (k == x.0)) [
      | inl ek ↦ (g x.1, ground arith, ground (arith, same x.1))
      | inr ek ↦ (x.1, ground arith, ground arith)
    ]
    | inr ej ↦
        let (v', found, kept) = lookup-modify_kept f g j k m v same (ground arith) in
        elim (Bool-cases (k == x.0)) [
          | inl ek ↦ (v, ground arith, refl)
          | inr ek ↦ (v', ground arith, kept)
        ]
  ]

  -- The sum of a quantity over the values.
  pub sum_by : (V → ℤ) → Map V → ℤ
  sum_by f [] = pos 0
  sum_by f (e ∷ m) = f e.1 +ℤ sum_by f m

  pub sum_by-empty : (f : V → ℤ) → sum_by f [] ≡ pos 0
  unfolding sum_by
  sum_by-empty f = refl

  pub sum_by-cons : (f : V → ℤ) (e : ℕ × V) (m : Map V) → sum_by f (e ∷ m) ≡ f e.1 +ℤ sum_by f m
  unfolding sum_by
  sum_by-cons f e m = refl

  pub sum_by-insert :
      (f : V → ℤ) (k : ℕ) (v old : V) (m : Map V)
      → lookup k m ≡ some old
      → sum_by f (insert k v m) +ℤ f old ≃ℤ sum_by f m +ℤ f v
  unfolding lookup insert sum_by
  sum_by-insert f k v old [] e = cc
  sum_by-insert f k v old (x ∷ m) e = grind (int_laws, sum_by-insert f k v old m)

  pub sum_by-insert_new :
      (f : V → ℤ) (k : ℕ) (v : V) (m : Map V)
      → lookup k m ≡ none
      → sum_by f (insert k v m) ≃ℤ sum_by f m +ℤ f v
  unfolding lookup insert sum_by
  sum_by-insert_new f k v [] e = omega int_laws
  sum_by-insert_new f k v (x ∷ m) e = grind (int_laws, sum_by-insert_new f k v m)

  pub sum_by-modify :
      (f : V → ℤ) (g : V → V) (k : ℕ) (old : V) (m : Map V)
      → lookup k m ≡ some old
      → sum_by f (modify k g m) +ℤ f old ≃ℤ sum_by f m +ℤ f (g old)
  unfolding lookup modify sum_by
  sum_by-modify f g k old [] e = cc
  sum_by-modify f g k old (x ∷ m) e = grind (int_laws, sum_by-modify f g k old m)

  pub sum_by-modify_same :
      (f : V → ℤ) (g : V → V) (k : ℕ) (m : Map V)
      → ((v : V) → f (g v) ≡ f v)
      → sum_by f (modify k g m) ≡ sum_by f m
  unfolding modify sum_by
  sum_by-modify_same f g k [] h = refl
  sum_by-modify_same f g k (x ∷ m) h = ground (arith, h x.1, sum_by-modify_same f g k m h)

  -- No key occurs twice.
  abbrev pub Distinct : Map V → Type ℓ
  Distinct [] = Unit
  Distinct (e ∷ m) = (lookup e.0 m ≡ none) × Distinct m

  pub insert-Distinct : (k : ℕ) (v : V) (m : Map V) → Distinct m → Distinct (insert k v m)
  unfolding insert lookup
  insert-Distinct k v [] h = (refl, tt)
  insert-Distinct k v (x ∷ m) h =
      ground (arith, insert-Distinct k v m h.1, lookup-insert x.0 k v m, h.0)

  pub lookup-head : (e : ℕ × V) (m : Map V) → lookup e.0 (e ∷ m) ≡ some e.1
  unfolding lookup
  lookup-head e m = ground arith

  -- What stands behind an entry with a key of its own is found.
  pub lookup-tail :
      (e : ℕ × V) (m : Map V) (k : ℕ) (v : V)
      → lookup e.0 m ≡ none
      → lookup k m ≡ some v
      → (k ≢ e.0) × (lookup k (e ∷ m) ≡ some v)
  unfolding lookup
  lookup-tail e m k v absent found = let ne : k ≢ e.0 = λ same. cc in (ne, ground (arith, ne))

  -- What stands under the key of a write was written.
  pub lookup-modified :
      (k : ℕ) (f : V → V) (m : Map V) (v : V)
      → lookup k (modify k f m) ≡ some v
      → (old : V) × (v ≡ f old)
  unfolding lookup modify
  lookup-modified k f [] v h = cc
  lookup-modified k f (x ∷ m) v h = elim (Bool-cases (k == x.0)) [
    | inl e ↦ (x.1, ground arith)
    | inr e ↦ lookup-modified k f m v (ground arith)
  ]

  pub no_entry : (k : ℕ) (v : V) → lookup k [] ≡ some v → ⊥
  unfolding lookup
  no_entry k v h = cc

  -- What is found is the first entry, or found behind it.
  pub lookup-cases :
      (e : ℕ × V) (m : Map V) (k : ℕ) (v : V)
      → lookup k (e ∷ m) ≡ some v
      → ((k ≡ e.0) × (e.1 ≡ v)) ⊎ (lookup k m ≡ some v)
  unfolding lookup
  lookup-cases e m k v h = elim (Bool-cases (k == e.0)) [
    | inl here ↦ inl (ground arith, ground arith)
    | inr there ↦ inr (ground arith)
  ]

  pub lookup-skip :
      (e : ℕ × V) (m : Map V) (k : ℕ) → (k == e.0) ≡ false → lookup k (e ∷ m) ≡ lookup k m
  unfolding lookup
  lookup-skip e m k h = rw h refl

  pub lookup-nil : (k : ℕ) → lookup k [] ≡ none
  unfolding lookup
  lookup-nil k = refl
