-- ===== src/Base/Outcome.antt =====
-- A call that can fail with an error, and the rules that prove what holds of its successes.
use mathlib.Core.Path.{◌≡◌, refl, subst}
use mathlib.Core.Bool.{Bool, true, false}
use mathlib.Core.Option.{Option, none, some}

pub data Result {ℓ κ} (E : Type ℓ) (A : Type κ) : Type (ℓ ⊔ κ) where
  ok : A → Result E A
  err : E → Result E A

module _ {E : Type 0} where
  infixl 5 ◌>>=◌ ◌>>◌
  -- Shut in proofs, so that the rules below see the steps of a handler.
  unfoldable pub ◌>>=◌ : {A B : Type 0} → Result E A → (A → Result E B) → Result E B
  ok a >>= f = f a
  err e >>= f = err e

  abbrev pub ◌>>◌ : {B : Type 0} → Result E (Unit {0}) → Result E B → Result E B
  m >> k = m >>= λ _. k

  -- `if cond { return err }`
  unfoldable pub fail_if : Bool → E → Result E (Unit {0})
  fail_if true e = err e
  fail_if false e = ok tt

  -- `if p == nil { return err }`
  unfoldable pub or_fail : {A : Type 0} → Option A → E → Result E A
  or_fail none e = err e
  or_fail (some a) e = ok a

  -- The postcondition holds of the value, if there is one.
  pub data Ensures {A : Type 0} (P : A → Type 0) : Result E A → Type 0 where
    on_ok : {a : A} → P a → Ensures P (ok a)
    on_err : {e : E} → Ensures P (err e)

  pub Ensures-bind :
      {A B : Type 0} {P : B → Type 0} {m : Result E A} {f : A → Result E B}
      → ((a : A) → m ≡ ok a → Ensures P (f a))
      → Ensures P (m >>= f)
  unfolding ◌>>=◌
  Ensures-bind {m = ok a} h = h a refl
  Ensures-bind {m = err e} h = on_err

  pub Ensures-guard :
      {B : Type 0} {P : B → Type 0} {b : Bool} (e : E) (f : Unit {0} → Result E B)
      → (b ≡ false → Ensures P (f tt))
      → Ensures P (fail_if b e >>= f)
  unfolding ◌>>=◌ fail_if
  Ensures-guard {b = true} e f h = on_err
  Ensures-guard {b = false} e f h = h refl

  pub Ensures-or_fail :
      {A B : Type 0} {P : B → Type 0} {o : Option A} (e : E) {f : A → Result E B}
      → ((a : A) → o ≡ some a → Ensures P (f a))
      → Ensures P (or_fail o e >>= f)
  unfolding ◌>>=◌ or_fail
  Ensures-or_fail {o = none} e h = on_err
  Ensures-or_fail {o = some a} e h = h a refl

  -- From the rules back to a plain implication.
  pub Ensures-ok :
      {A : Type 0} {P : A → Type 0} {m : Result E A} (a : A) → Ensures P m → m ≡ ok a → P a
  Ensures-ok {P} a (on_ok h) e = subst P (cc) h
  Ensures-ok a on_err e = cc

  pub Ensures-map :
      {A : Type 0} {P Q : A → Type 0} {m : Result E A}
      → ((a : A) → P a → Q a)
      → Ensures P m
      → Ensures Q m
  Ensures-map f (on_ok {a} h) = on_ok (f a h)
  Ensures-map f on_err = on_err

  -- A step that is known to ensure `P`, and what follows it.
  pub Ensures-continue :
      {A B : Type 0} {P : A → Type 0} {Q : B → Type 0} {m : Result E A} {f : A → Result E B}
      → Ensures P m
      → ((a : A) → P a → Ensures Q (f a))
      → Ensures Q (m >>= f)
  unfolding ◌>>=◌
  Ensures-continue (on_ok {a} h) k = k a h
  Ensures-continue on_err k = on_err

  -- Both branches of a test.
  pub Ensures-case :
      {A : Type 0} {P : A → Type 0} (b : Bool) {m n : Result E A}
      → (b ≡ true → Ensures P m)
      → (b ≡ false → Ensures P n)
      → Ensures P (elim b [ true ↦ m | false ↦ n ])
  Ensures-case true h k = h refl
  Ensures-case false h k = k refl

  pub ensured_ok : {A : Type 0} {P : A → Type 0} {a : A} → Ensures P (ok a) → P a
  ensured_ok (on_ok h) = h

  pub Ensures-found :
      {A : Type 0} {P : A → Type 0} (o : Option A) (e : E)
      → ((a : A) → o ≡ some a → P a)
      → Ensures P (or_fail o e)
  unfolding or_fail
  Ensures-found none e h = on_err
  Ensures-found (some a) e h = on_ok (h a refl)

  -- What a call returned that succeeded.
  pub bound_ok :
      {A B : Type 0} {m : Result E A} {f : A → Result E B} {b : B}
      → (m >>= f) ≡ ok b
      → (a : A) × (m ≡ ok a) × (f a ≡ ok b)
  unfolding ◌>>=◌
  bound_ok {m = ok a} h = (a, refl, h)
  bound_ok {m = err e} h = absurd (cc)

  pub bind_eq :
      {A B : Type 0} {m : Result E A} {a : A} (f : A → Result E B) → m ≡ ok a → (m >>= f) ≡ f a
  unfolding ◌>>=◌
  bind_eq f h = rw h refl

  pub found_eq : {A : Type 0} {o : Option A} {a : A} (e : E) → o ≡ some a → or_fail o e ≡ ok a
  unfolding or_fail
  found_eq e h = rw h refl
