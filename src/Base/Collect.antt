-- ===== src/Base/Collect.antt =====
-- The loop `for _, v := range m { if keep(v) { out = append(out, view(v)) } }`.
use Prim.Native.Nat.{ℕ}
use mathlib.Core.Path.{◌≡◌, refl}
use mathlib.Core.Logic.{inl, inr}
use mathlib.Core.Bool.{Bool, true}
use mathlib.Core.Option.{some}
use mathlib.Core.List.{List, [], ◌∷◌, Memᴰ}
use mathlib.Core.List.Memᴰ.{head, tail}
use native.Mathlib.Omega.{arith}
use interstellar_trade_platf.Base.Tests.{if◌then◌else◌, Bool-cases, ◌==◌, length}
use interstellar_trade_platf.Base.Map.{Map, lookup, Distinct, lookup-head, lookup-tail}

module _ {V W : Type 0} (keep : V → Bool) (view : V → W) where
  unfoldable pub collect : Map V → List W
  collect [] = []
  collect (e ∷ m) = if keep e.1 then view e.1 ∷ collect m else collect m

  -- The item is the view of a kept value of the map.
  pub record IsViewOf (m : Map V) (w : W) : Type 0 where
    pub key : ℕ
    pub value : V
    pub found : lookup key m ≡ some value
    pub kept : keep value ≡ true
    pub viewed : w ≡ view value

  behind : {m : Map V} {w : W} (e : ℕ × V) → Distinct (e ∷ m) → IsViewOf m w → IsViewOf (e ∷ m) w
  behind {m} e d h = record {
    key = h.key;
    value = h.value;
    found = (lookup-tail e m h.key h.value d.0 h.found).1;
    kept = h.kept;
    viewed = h.viewed;
  }

  -- Only views of kept values are collected.
  pub collected-IsViewOf : (m : Map V) (w : W) → Distinct m → Memᴰ w (collect m) → IsViewOf m w
  unfolding collect
  collected-IsViewOf [] w d h = elim h [ ]
  collected-IsViewOf (e ∷ m) w d h = elim (Bool-cases (keep e.1)) [
    | inr out ↦ behind e d (collected-IsViewOf m w d.1 (rw out at h))
    | inl seen ↦ elim (rw seen at h) [
      | head p ↦ record { key = e.0; value = e.1; found = lookup-head e m; kept = seen; viewed = p }
      | tail r ↦ behind e d (collected-IsViewOf m w d.1 r)
    ]
  ]

  -- The view of every kept value is collected.
  pub collect_complete :
      (m : Map V) (k : ℕ) (v : V) → lookup k m ≡ some v → keep v ≡ true → Memᴰ (view v) (collect m)
  unfolding collect lookup
  collect_complete [] k v found seen = absurd (cc)
  collect_complete (e ∷ m) k v found seen = elim (Bool-cases (k == e.0)) [
    | inl here ↦ let same : e.1 ≡ v = ground arith in rw (same, seen) (head refl)
    | inr there ↦
        let rest = collect_complete m k v (ground arith) seen in
        elim (Bool-cases (keep e.1)) [ inl kept ↦ rw kept (tail rest) | inr out ↦ rw out rest ]
  ]

  pub length-collect_all : (m : Map V) → ((v : V) → keep v ≡ true) → length (collect m) ≡ length m
  unfolding collect
  length-collect_all [] h = refl
  length-collect_all (e ∷ m) h = ground (arith, h e.1, length-collect_all m h)
