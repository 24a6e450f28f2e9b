-- ===== src/Domain/Roles/Sorted.antt =====
-- What `NormalizeRoles` returns (backend/internal/domain/util.go).
use interstellar_trade_platf.Base.{
  ℕ, ◌≡◌, ◌<◌, refl, ◌∙◌, arith, Bool-cases, false, ◌||◌, inl, inr, Option, none, some, List, [],
  ◌∷◌, ◌++◌, ◌==◌, leb,
}
use interstellar_trade_platf.Domain.Text.{Text, trim_space, to_lower}
use interstellar_trade_platf.Domain.State.{Role}
use interstellar_trade_platf.Domain.Roles.{
  rank, seen, role_named, take_role, collect_roles, insert_role, sort_roles, normalize_roles,
}

-- Every role comes before all that follow it, so none is there twice.
abbrev pub IsBelow : ℕ → List Role → Type 0
IsBelow n [] = Unit
IsBelow n (r ∷ rs) = (n < rank r) × IsBelow n rs

abbrev pub IsSorted : List Role → Type 0
IsSorted [] = Unit
IsSorted (r ∷ rs) = IsBelow (rank r) rs × IsSorted rs

-- No role occurs twice.
abbrev IsApart : List Role → Type 0
IsApart [] = Unit
IsApart (r ∷ rs) = (seen r rs ≡ false) × IsApart rs

seen-insert_role :
    (r s : Role) (rs : List Role) → seen r (insert_role s rs) ≡ (rank s == rank r || seen r rs)
unfolding insert_role
seen-insert_role r s [] = refl
seen-insert_role r s (x ∷ xs) = ground (arith, seen-insert_role r s xs)

insert_role-IsBelow :
    (n : ℕ) (r : Role) (rs : List Role) → n < rank r → IsBelow n rs → IsBelow n (insert_role r rs)
unfolding insert_role
insert_role-IsBelow n r [] h b = (h, tt)
insert_role-IsBelow n r (x ∷ xs) h b = elim (Bool-cases (leb (rank r) (rank x))) [
  | inl e ↦ rw e (h, b)
  | inr e ↦ rw e (b.0, insert_role-IsBelow n r xs h b.1)
]

IsBelow-weaken : (m n : ℕ) (rs : List Role) → m < n → IsBelow n rs → IsBelow m rs
IsBelow-weaken m n [] h b = tt
IsBelow-weaken m n (r ∷ rs) h b = (omega arith, IsBelow-weaken m n rs h b.1)

insert_role-IsSorted :
    (r : Role) (rs : List Role) → seen r rs ≡ false → IsSorted rs → IsSorted (insert_role r rs)
unfolding insert_role
insert_role-IsSorted r [] new s = (tt, tt)
insert_role-IsSorted r (x ∷ xs) new s = elim (Bool-cases (leb (rank r) (rank x))) [
  | inl e ↦
      let less : rank r < rank x = ground arith in
      rw e ((less, IsBelow-weaken (rank r) (rank x) xs less s.0), s)
  | inr e ↦
      let more : rank x < rank r = ground arith in
      rw e
        (insert_role-IsBelow (rank x) r xs more s.0, insert_role-IsSorted r xs (ground arith) s.1)
]

seen-sort_roles : (r : Role) (rs : List Role) → seen r (sort_roles rs) ≡ seen r rs
unfolding sort_roles
seen-sort_roles r [] = refl
seen-sort_roles r (x ∷ xs) =
    ground (arith, seen-insert_role r x (sort_roles xs), seen-sort_roles r xs)

sort_roles-IsSorted : (rs : List Role) → IsApart rs → IsSorted (sort_roles rs)
unfolding sort_roles
sort_roles-IsSorted [] h = tt
sort_roles-IsSorted (r ∷ rs) h =
    insert_role-IsSorted r (sort_roles rs) (seen-sort_roles r rs ∙ h.0) (sort_roles-IsSorted rs h.1)

seen-snoc : (r s : Role) (rs : List Role) → seen r (rs ++ s ∷ []) ≡ (seen r rs || rank s == rank r)
seen-snoc r s [] = ground arith
seen-snoc r s (x ∷ xs) = ground (arith, seen-snoc r s xs)

snoc-IsApart : (s : Role) (rs : List Role) → seen s rs ≡ false → IsApart rs → IsApart (rs ++ s ∷ [])
snoc-IsApart s [] new h = (refl, tt)
snoc-IsApart s (x ∷ xs) new h =
    (ground (arith, seen-snoc x s xs, h.0), snoc-IsApart s xs (ground arith) h.1)

take_role-IsApart : (o : Option Role) (out : List Role) → IsApart out → IsApart (take_role o out)
take_role-IsApart none out h = h
take_role-IsApart (some r) out h = elim (Bool-cases (seen r out)) [
  | inl e ↦ rw e h
  | inr e ↦ rw e (snoc-IsApart r out e h)
]

collect_roles-IsApart :
    (ts : List Text) (out : List Role) → IsApart out → IsApart (collect_roles ts out)
unfolding collect_roles
collect_roles-IsApart [] out h = h
collect_roles-IsApart (t ∷ ts) out h =
    let o = role_named (trim_space (to_lower t)) in
    collect_roles-IsApart ts (take_role o out) (take_role-IsApart o out h)

-- The roles of a user are in alphabetical order and without repetition, whatever was asked for.
pub normalize_roles-IsSorted : (ts : List Text) → IsSorted (normalize_roles ts)
unfolding normalize_roles
normalize_roles-IsSorted ts =
    sort_roles-IsSorted (collect_roles ts []) (collect_roles-IsApart ts [] tt)
