-- ===== src/Domain/Amount/Bounds.antt =====
-- Checked arithmetic on amounts.
use interstellar_trade_platf.Base.{
  ◌≡◌, refl, ◌⊎◌, inl, inr, arith, true, false, ok, err, Bool-cases,
}
use interstellar_trade_platf.Base.Int.{
  ℤ, pos, negsuc, ◌+ℤ◌, ◌-ℤ◌, ◌≤ℤ◌, sub64_exact, add64_exact, sub64, IsInt64, max_int64, min_int64,
  int_laws, +ℤ_parts, -ℤ_parts,
}
use interstellar_trade_platf.Domain.Errors.{conflict}
use interstellar_trade_platf.Domain.Amount.{overflows, add_checked, valid_amount, max_amount}

sub64_max : (b : ℤ) → pos 1 ≤ℤ b → IsInt64 b → sub64 max_int64 b ≡ max_int64 -ℤ b
sub64_max b h r = sub64_exact max_int64 b (omega int_laws)

sub64_min : (b : ℤ) → b ≤ℤ negsuc 0 → IsInt64 b → sub64 min_int64 b ≡ min_int64 -ℤ b
sub64_min b h r = sub64_exact min_int64 b (omega int_laws)

overflows_sound : (a b : ℤ) → IsInt64 a → IsInt64 b → overflows a b ≡ true → ¬ IsInt64 (a +ℤ b)
unfolding overflows
overflows_sound a (pos n) ha hb h =
    ground (arith, sub64_max (pos n), +ℤ_parts a (pos n), -ℤ_parts max_int64 (pos n))
overflows_sound a (negsuc n) ha hb h =
    ground (arith, sub64_min (negsuc n), +ℤ_parts a (negsuc n), -ℤ_parts min_int64 (negsuc n))

overflows_complete : (a b : ℤ) → IsInt64 a → IsInt64 b → overflows a b ≡ false → IsInt64 (a +ℤ b)
unfolding overflows
overflows_complete a (pos n) ha hb h =
    ground (arith, sub64_max (pos n), +ℤ_parts a (pos n), -ℤ_parts max_int64 (pos n))
overflows_complete a (negsuc n) ha hb h =
    ground (arith, sub64_min (negsuc n), +ℤ_parts a (negsuc n), -ℤ_parts min_int64 (negsuc n))

-- On two int64 values the checked addition returns their exact sum when it is an int64, and is a
-- conflict otherwise.
pub add_checked_exact :
    (a b : ℤ)
    → IsInt64 a
    → IsInt64 b
    → ((add_checked a b ≡ ok (a +ℤ b)) × IsInt64 (a +ℤ b))
      ⊎ ((add_checked a b ≡ err (conflict "amount overflow")) × (¬ IsInt64 (a +ℤ b)))
unfolding add_checked
add_checked_exact a b ha hb = elim (Bool-cases (overflows a b)) [
  | inl e ↦ inr (rw e refl, overflows_sound a b ha hb e)
  | inr e ↦
      let fits = overflows_complete a b ha hb e in inl (rw (e, add64_exact a b fits) refl, fits)
]

pub valid_amount_bounds : (a : ℤ) → valid_amount a ≡ true → (pos 1 ≤ℤ a) × (a ≤ℤ max_amount)
unfolding valid_amount
valid_amount_bounds a h = ground arith
