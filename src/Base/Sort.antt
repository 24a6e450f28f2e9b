-- ===== src/Base/Sort.antt =====
-- `sort.Slice` with a `less` function, as an insertion sort. Go leaves the order of equal keys open;
-- here it is that of the list.
use Prim.Native.Nat.{suc}
use mathlib.Core.Path.{◌≡◌, refl, ap, ◌∙◌}
use mathlib.Core.Logic.{inl, inr, ◌↔◌}
use mathlib.Core.Bool.{Bool, true, false}
use mathlib.Core.List.{List, [], ◌∷◌, Memᴰ}
use mathlib.Core.List.Memᴰ.{head, tail}
use native.Mathlib.Omega.{arith}
use interstellar_trade_platf.Base.Tests.{if◌then◌else◌, Bool-cases, length}

module _ {A : Type 0} (less : A → A → Bool) where
  unfoldable pub insert_sorted : A → List A → List A
  insert_sorted x [] = x ∷ []
  insert_sorted x (y ∷ ys) = if less y x then y ∷ insert_sorted x ys else x ∷ y ∷ ys

  unfoldable pub sort_slice : List A → List A
  sort_slice [] = []
  sort_slice (x ∷ xs) = insert_sorted x (sort_slice xs)

  -- No element is less than the one before it.
  pub data IsOrdered : List A → Type 0 where
    none_listed : IsOrdered []
    one_listed : (x : A) → IsOrdered (x ∷ [])
    next_listed :
        (x y : A) (l : List A) → less y x ≡ false → IsOrdered (y ∷ l) → IsOrdered (x ∷ y ∷ l)

  insert_sorted-Mem : (a x : A) (l : List A) → Memᴰ a (insert_sorted x l) ↔ Memᴰ a (x ∷ l)
  unfolding insert_sorted
  insert_sorted-Mem a x [] = (λ h. h, λ h. h)
  insert_sorted-Mem a x (y ∷ ys) = elim (Bool-cases (less y x)) [
    | inl e ↦ rw e (
      elim [
        | head p ↦ tail (head p)
        | tail m ↦ elim ((insert_sorted-Mem a x ys).0 m) [
          | head p ↦ head p
          | tail r ↦ tail (tail r)
        ]
      ],
      elim [
        | head p ↦ tail ((insert_sorted-Mem a x ys).1 (head p))
        | tail (head p) ↦ head p
        | tail (tail r) ↦ tail ((insert_sorted-Mem a x ys).1 (tail r))
      ],
    )
    | inr e ↦ rw e (λ h. h, λ h. h)
  ]

  length-insert_sorted : (x : A) (l : List A) → length (insert_sorted x l) ≡ suc (length l)
  unfolding insert_sorted
  length-insert_sorted x [] = refl
  length-insert_sorted x (y ∷ ys) = ground (arith, length-insert_sorted x ys)

  pub length-sort_slice : (l : List A) → length (sort_slice l) ≡ length l
  unfolding sort_slice
  length-sort_slice [] = refl
  length-sort_slice (x ∷ xs) =
      length-insert_sorted x (sort_slice xs) ∙ ap suc (length-sort_slice xs)

  -- The sorted list has the same elements.
  pub sort_slice-Mem : (a : A) (l : List A) → Memᴰ a (sort_slice l) ↔ Memᴰ a l
  unfolding sort_slice
  sort_slice-Mem a [] = (λ h. h, λ h. h)
  sort_slice-Mem a (x ∷ xs) = (
    λ h. elim ((insert_sorted-Mem a x (sort_slice xs)).0 h) [
      | head p ↦ head p
      | tail m ↦ tail ((sort_slice-Mem a xs).0 m)
    ],
    elim [
      | head p ↦ (insert_sorted-Mem a x (sort_slice xs)).1 (head p)
      | tail m ↦ (insert_sorted-Mem a x (sort_slice xs)).1 (tail ((sort_slice-Mem a xs).1 m))
    ],
  )

  module _ (asym : (a b : A) → less a b ≡ true → less b a ≡ false) where
    insert_sorted-IsOrdered : (x : A) (l : List A) → IsOrdered l → IsOrdered (insert_sorted x l)
    unfolding insert_sorted
    insert_sorted-IsOrdered x [] h = one_listed x
    insert_sorted-IsOrdered x (y ∷ []) h = elim (Bool-cases (less y x)) [
      | inl e ↦ rw e (next_listed y x [] (asym y x e) (one_listed x))
      | inr e ↦ rw e (next_listed x y [] e h)
    ]
    insert_sorted-IsOrdered x (y ∷ z ∷ l) (next_listed _ _ _ p h) =
        let rest = insert_sorted-IsOrdered x (z ∷ l) h in
        elim (Bool-cases (less y x)) [
          | inl e ↦ elim (Bool-cases (less z x)) [
            | inl f ↦ rw (e, f) (next_listed y z _ p (rw f at rest))
            | inr f ↦ rw (e, f) (next_listed y x _ (asym y x e) (rw f at rest))
          ]
          | inr e ↦ rw e (next_listed x y _ e (next_listed y z l p h))
        ]

    pub sort_slice-IsOrdered : (l : List A) → IsOrdered (sort_slice l)
    unfolding sort_slice
    sort_slice-IsOrdered [] = none_listed
    sort_slice-IsOrdered (x ∷ xs) =
        insert_sorted-IsOrdered x (sort_slice xs) (sort_slice-IsOrdered xs)
