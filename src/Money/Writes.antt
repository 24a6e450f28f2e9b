-- ===== src/Money/Writes.antt =====
-- How the writes that the handlers are made of move money.
use interstellar_trade_platf.Base.{
  ◌≡◌, refl, sym, subst, arith, ok, inl, inr, ◌⊎◌, ◌>>=◌, none, some, Bool, true, false,
}
use interstellar_trade_platf.Base.Int.{
  ℤ, pos, ◌+ℤ◌, ◌-ℤ◌, ◌≤ℤ◌, max_int64, ◌≃ℤ◌, ≃ℤ_of_eq, int_laws,
}
use interstellar_trade_platf.Base.Map.{
  All, lookup, sum_by-insert, sum_by-insert_new, sum_by-modify_same, All-insert, All-modify,
  All-modify_at, sum_by-modify, insert-Distinct,
}
use interstellar_trade_platf.Domain.Text.{Ident}
use interstellar_trade_platf.Domain.State.{AppState, Colony, Account, Trade}
use interstellar_trade_platf.Domain.Status.{Status, is_escrowed, classify_step, transition_allowed}
use interstellar_trade_platf.Domain.Trade.{advance_trade, step_trade}
use interstellar_trade_platf.Domain.Amount.{add_checked, max_amount}
use interstellar_trade_platf.Domain.Amount.Bounds.{add_checked_exact}
use interstellar_trade_platf.Domain.Status.Table.{status_eq→≡}
use interstellar_trade_platf.Money.{
  balance_of, balances, net, escrow, worth, IsFunded, AreFunded, NotAccepted, IsPriced, IsProposed,
  IsValid, Moves,
}
use interstellar_trade_platf.Service.Tx.{put_colony, put_trade, modify_colony, set_balance}

pub Moves-refl : (s : AppState) → IsValid s → Moves s (pos 0) s
Moves-refl s v = record { valid = v; moved = omega int_laws }

pub Moves-trans :
    {s t u : AppState} {d e : ℤ} (f : ℤ) → Moves s d t → Moves t e u → d +ℤ e ≃ℤ f → Moves s f u
Moves-trans f m n h = record { valid = n.valid; moved = omega int_laws }

pub Moves-eq : {s t : AppState} {d e : ℤ} → Moves s d t → d ≃ℤ e → Moves s e t
Moves-eq m h = record { valid = m.valid; moved = omega int_laws }

pub put_colony-Moves :
    (k : Ident) (c c' : Colony) (s : AppState)
    → IsValid s
    → lookup k s.colonies ≡ some c
    → AreFunded c'
    → Moves s (net c' -ℤ net c) (put_colony k c' s)
unfolding worth
put_colony-Moves k c c' s v h f = record {
  valid = record {
    funded = All-insert AreFunded k c' s.colonies v.funded f;
    priced = v.priced;
    proposed = v.proposed;
    distinct = v.distinct;
  };
  moved = omega (int_laws, sum_by-insert net k c' c s.colonies h);
}

-- A write that leaves the accounts and the minted total of every colony alone.
abbrev pub KeepsMoney : (Colony → Colony) → Type 0
KeepsMoney g =
    (c : Colony)
    → ((g c).accounts ≡ c.accounts)
      × ((g c).minted_total ≡ c.minted_total)
      × ((g c).mint_cap ≡ c.mint_cap)

-- Funds depend on three fields only.
pub AreFunded-same :
    (c c' : Colony)
    → c'.accounts ≡ c.accounts
    → c'.minted_total ≡ c.minted_total
    → c'.mint_cap ≡ c.mint_cap
    → AreFunded c
    → AreFunded c'
AreFunded-same c c' a m p f = (rw a f.0, (rw m f.1.0, rw (m, p) f.1.1, rw p f.1.2))

balances_same : (c c' : Colony) → c'.accounts ≡ c.accounts → balances c' ≡ balances c
unfolding balances
balances_same c c' a = cc

pub net_same :
    (c c' : Colony) → c'.accounts ≡ c.accounts → c'.minted_total ≡ c.minted_total → net c' ≡ net c
unfolding net balances
net_same c c' a m = cc

pub modify_colony-Moves :
    (k : Ident) (g : Colony → Colony) (s : AppState)
    → KeepsMoney g
    → IsValid s
    → Moves s (pos 0) (modify_colony k g s)
unfolding worth
modify_colony-Moves k g s same v = record {
  valid = record {
    funded =
        All-modify AreFunded k g s.colonies v.funded
          (λ c f. AreFunded-same c (g c) (same c).0 (same c).1 (same c).2 f);
    priced = v.priced;
    proposed = v.proposed;
    distinct = v.distinct;
  };
  moved = omega (
    int_laws,
    ≃ℤ_of_eq (sum_by-modify_same net g k s.colonies (λ c. net_same c (g c) (same c).0 (same c).1)),
  );
}

pub put_trade-Moves :
    (k : Ident) (t t' : Trade) (s : AppState)
    → IsValid s
    → lookup k s.trades ≡ some t
    → IsPriced t'
    → Moves s (escrow t' -ℤ escrow t) (put_trade k t' s)
unfolding worth
put_trade-Moves k t t' s v h p = record {
  valid = record {
    funded = v.funded;
    priced = All-insert IsPriced k t' s.trades v.priced p;
    proposed = v.proposed;
    distinct = insert-Distinct k t' s.trades v.distinct;
  };
  moved = omega (int_laws, sum_by-insert escrow k t' t s.trades h);
}

pub put_trade_new-Moves :
    (k : Ident) (t : Trade) (s : AppState)
    → IsValid s
    → lookup k s.trades ≡ none
    → IsPriced t
    → Moves s (escrow t) (put_trade k t s)
unfolding worth
put_trade_new-Moves k t s v h p = record {
  valid = record {
    funded = v.funded;
    priced = All-insert IsPriced k t s.trades v.priced p;
    proposed = v.proposed;
    distinct = insert-Distinct k t s.trades v.distinct;
  };
  moved = omega (int_laws, sum_by-insert_new escrow k t s.trades h);
}

-- A state that differs in neither colonies, trades nor proposals.
pub frame-Moves :
    (s s' : AppState)
    → s'.colonies ≡ s.colonies
    → s'.trades ≡ s.trades
    → All IsProposed s'.pending_actions
    → IsValid s
    → Moves s (pos 0) s'
unfolding worth
frame-Moves s s' c t p v = record {
  valid = record {
    funded = rw c v.funded;
    priced = rw t v.priced;
    proposed = p;
    distinct = rw t v.distinct;
  };
  moved = rw (c, t) (omega int_laws);
}

pub set_balance-balances :
    (u : Ident) (acc : Account) (b : ℤ) (c : Colony)
    → lookup u c.accounts ≡ some acc
    → balances (set_balance u acc b c) +ℤ acc.balance ≃ℤ balances c +ℤ b
unfolding balances
set_balance-balances u acc b c h =
    sum_by-insert balance_of u (record acc { balance = b }) acc c.accounts h

pub set_balance-AreFunded :
    (u : Ident) (acc : Account) (b : ℤ) (c : Colony)
    → AreFunded c
    → IsFunded (record acc { balance = b })
    → AreFunded (set_balance u acc b c)
set_balance-AreFunded u acc b c f p =
    (All-insert IsFunded u (record acc { balance = b }) c.accounts f.0 p, f.1)

pub set_balance-net :
    (u : Ident) (acc : Account) (b : ℤ) (c : Colony)
    → lookup u c.accounts ≡ some acc
    → net (set_balance u acc b c) +ℤ acc.balance ≃ℤ net c +ℤ b
unfolding net
set_balance-net u acc b c h = omega (int_laws, set_balance-balances u acc b c h)

-- What a successful `AdvanceTrade` gives.
pub advance_trade_facts :
    (t t' : Trade) (to : Status)
    → advance_trade t to ≡ ok t'
    → (t' ≡ record t { status = to }) × (transition_allowed t.status to ≡ true)
unfolding advance_trade
advance_trade_facts t t' to h = ground arith

pub IsPriced-status :
    (t t' : Trade) (to : Status)
    → t'.status ≡ to
    → t'.price ≡ t.price
    → NotAccepted t' to
    → IsPriced t
    → IsPriced t'
IsPriced-status t t' to st p n v = (rw p v.0, rw p v.1, subst (NotAccepted t') (sym st) n)

pub escrow_held :
    (t : Trade) (st : Status) → t.status ≡ st → is_escrowed st ≡ true → escrow t ≡ t.price
unfolding escrow
escrow_held t st e h = rw (e, h) refl

pub escrow_none :
    (t : Trade) (st : Status) → t.status ≡ st → is_escrowed st ≡ false → escrow t ≡ pos 0
unfolding escrow
escrow_none t st e h = rw (e, h) refl

pub modify_at-Moves :
    (k : Ident) (g : Colony → Colony) (c : Colony) (s : AppState)
    → IsValid s
    → lookup k s.colonies ≡ some c
    → AreFunded (g c)
    → Moves s (net (g c) -ℤ net c) (modify_colony k g s)
unfolding worth
modify_at-Moves k g c s v h f = record {
  valid = record {
    funded = All-modify_at AreFunded k g s.colonies c v.funded h f;
    priced = v.priced;
    proposed = v.proposed;
    distinct = v.distinct;
  };
  moved = omega (int_laws, sum_by-modify net g k c s.colonies h);
}

-- A checked addition of a price to a balance keeps the balance funded.
pub add_checked_funded :
    (a b c : ℤ)
    → (pos 0 ≤ℤ a) × (a ≤ℤ max_int64)
    → (pos 1 ≤ℤ b) × (b ≤ℤ max_amount)
    → add_checked a b ≡ ok c
    → (c ≡ a +ℤ b) × (pos 0 ≤ℤ c) × (c ≤ℤ max_int64)
add_checked_funded a b c ha hb h =
    elim (add_checked_exact a b (omega arith, ha.1) (omega arith, omega arith)) [
      | inl fits ↦ let e : c ≡ a +ℤ b = cc (fits.0) in (e, rw e (omega int_laws), rw e fits.1.1)
      | inr over ↦ cc (over.0)
    ]

-- What a `StepTrade` without an error gives.
pub step_trade_facts :
    (t : Trade) (pred to : Status) (r : Bool × Trade)
    → step_trade t pred to ≡ ok r
    → ((r.0 ≡ true) × (t.status ≡ pred) × (r.1 ≡ record t { status = to }))
      ⊎ ((r.0 ≡ false) × (r.1 ≡ t))
unfolding step_trade advance_trade classify_step ◌>>=◌
step_trade_facts t pred to r h = ground (arith, status_eq→≡ t.status pred)

pub net_minted :
    (c : Colony) (total : ℤ)
    → net (record c { minted_total = total }) +ℤ total ≃ℤ net c +ℤ c.minted_total
unfolding net
net_minted c total =
    omega (int_laws, ≃ℤ_of_eq (balances_same c (record c { minted_total = total }) refl))
