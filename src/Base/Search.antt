-- ===== src/Base/Search.antt =====
-- `sort.Search`: the binary search of Go's sort package.
use Prim.Native.Nat.{ℕ, zero, suc, ◌+◌, ◌-◌, ◌/◌, ◌≤◌, ◌<◌}
use mathlib.Core.Path.{◌≡◌}
use mathlib.Core.Bool.{Bool, true, false}
use mathlib.Core.Logic.{dite, dif_pos, dif_neg, inl, inr}
use mathlib.Core.WellFounded.{Acc, WellFounded}
use native.Mathlib.Bridge.{le_prop}
use native.Mathlib.Decide.{dec_lt}
use native.Mathlib.Omega.{arith}
use interstellar_trade_platf.Base.Tests.{Bool-cases}

-- The indices that the loop still looks at, from `i` up to `j`.
pub record Span : Type 0 where
  pub i : ℕ
  pub j : ℕ

-- The relation of a span to those with a larger gap.
abbrev IsSmaller : Span → Span → Type 0
IsSmaller r s = r.j - r.i < s.j - s.i

Acc_below : (k : ℕ) (s : Span) → s.j - s.i < k → Acc IsSmaller s
Acc_below zero s h = elim h [ ]
Acc_below (suc k) s h = Acc.intro s λ r p. Acc_below k r (omega arith)

unfoldable pub IsSmaller_wf : WellFounded IsSmaller
unfolding Acc_below
IsSmaller_wf = record { apply = λ s. Acc_below (suc (s.j - s.i)) s (omega arith) }

abbrev middle : Span → ℕ
middle s = (s.i + s.j) / 2

abbrev upper : Span → Span
upper s = record { i = middle s + 1; j = s.j }

abbrev lower : Span → Span
lower s = record { i = s.i; j = middle s }

upper-IsSmaller : (s : Span) → s.i < s.j → IsSmaller (upper s) s
upper-IsSmaller s h = omega arith

lower-IsSmaller : (s : Span) → s.i < s.j → IsSmaller (lower s) s
lower-IsSmaller s h = omega arith

module _ (f : ℕ → Bool) where
  -- The loop, with its two variables; the gap between them shrinks in every round.
  unfoldable pub search_loop : (s : Span) → Acc IsSmaller s → ℕ
  unfolding upper-IsSmaller lower-IsSmaller
  search_loop s (Acc.intro _ smaller) =
      dite (dec_lt s.i s.j)
        (λ h. elim (f (middle s)) [
          | false ↦ search_loop (upper s) (smaller _ (upper-IsSmaller s h))
          | true ↦ search_loop (lower s) (smaller _ (lower-IsSmaller s h))
        ])
        (λ _. s.i)

  unfoldable pub search : ℕ → ℕ
  search n = let s : Span = record { i = 0; j = n } in search_loop s (IsSmaller_wf.apply s)

  -- `r` is where the test turns from false to true among the numbers below `n`.
  pub record Turns (n r : ℕ) : Type 0 where
    pub inside : r ≤ n
    pub below : (k : ℕ) → k < r → f k ≡ false
    pub above : (k : ℕ) → r ≤ k → k < n → f k ≡ true

  module _ (n : ℕ) (grows : (a b : ℕ) → a ≤ b → b < n → f a ≡ true → f b ≡ true) where
    falls : (a b : ℕ) → a ≤ b → b < n → f b ≡ false → f a ≡ false
    falls a b le lt e = elim (Bool-cases (f a)) [
      | inl t ↦ ground (arith, grows a b le lt t)
      | inr t ↦ t
    ]

    search_loop-Turns :
        (s : Span) (w : Acc IsSmaller s)
        → s.i ≤ s.j
        → s.j ≤ n
        → ((k : ℕ) → k < s.i → f k ≡ false)
        → ((k : ℕ) → s.j ≤ k → k < n → f k ≡ true)
        → Turns n (search_loop s w)
    unfolding search_loop
    search_loop-Turns s (Acc.intro _ smaller) le inside below above = elim (dec_lt s.i s.j) [
      | no stop ↦
          rw (dif_neg (dec_lt s.i s.j) stop)
            record { inside = omega arith; below = below; above = λ k p. above k (omega arith) }
      | yes h ↦ rw (dif_pos (dec_lt s.i s.j) le_prop h) (elim (Bool-cases (f (middle s))) [
        | inl t ↦ rw t (
            search_loop-Turns (lower s) (smaller _ (lower-IsSmaller s h)) (omega arith)
              (omega arith) below λ k p q. grows (middle s) k p q t)
        | inr t ↦ rw t (
            search_loop-Turns (upper s) (smaller _ (upper-IsSmaller s h)) (omega arith) inside
              (λ k p. falls k (middle s) (omega arith) (omega arith) t) above)
      ])
    ]

    -- The search returns the place where a test that stays true turns true.
    pub search-Turns : Turns n (search n)
    unfolding search
    search-Turns =
        search_loop-Turns (record { i = 0; j = n }) _ (omega arith) (omega arith)
          (λ k p. absurd (omega arith)) λ k p q. absurd (omega arith)
