-- ===== src/Service/Page/Walk.antt =====
-- Reading a ledger page by page, from the newest to the oldest, as a client of `ListLedgerPage`
-- (backend/internal/service/view.go) does.
use interstellar_trade_platf.Base.{
  ℕ, zero, suc, ◌≡◌, Bool, true, false, Option, none, some, List, [], ◌∷◌, ◌++◌, ◌==◌, err, Result,
  ok,
}
use interstellar_trade_platf.Domain.State.{LedgerEntry}
use interstellar_trade_platf.Domain.Host.{Host}

-- The entries are numbered from `n + 1`, without gaps.
data IsNumbered : ℕ → List LedgerEntry → Type 0 where
  no_entries : (n : ℕ) → IsNumbered n []
  numbered :
      (n : ℕ) (e : LedgerEntry) (l : List LedgerEntry)
      → e.seq ≡ suc n
      → IsNumbered (suc n) l
      → IsNumbered n (e ∷ l)

-- A client that is done with entry 1, and otherwise goes on with the page before what it has.
advance :
    Bool
    → (ℕ → List LedgerEntry → Option (List LedgerEntry))
    → ℕ
    → List LedgerEntry
    → Option (List LedgerEntry)
advance true next before acc = some acc
advance false next before acc = next before acc

-- What it does with a page; `none` is an error.
turn :
    {E : Type 0}
    → (ℕ → List LedgerEntry → Option (List LedgerEntry))
    → List LedgerEntry
    → Result E (List LedgerEntry)
    → Option (List LedgerEntry)
unfolding advance
turn next acc (err e) = none
turn next acc (ok []) = some acc
turn next acc (ok (e ∷ page)) = advance (e.seq == 1) next e.seq (e ∷ page ++ acc)

module _ {E : Type 0} (fetch : ℕ → Result E (List LedgerEntry)) where
  -- Such a client, for a number of rounds; `none` is also that they were used up.
  unfoldable pub read_back : ℕ → ℕ → List LedgerEntry → Option (List LedgerEntry)
  unfolding turn
  read_back zero before acc = none
  read_back (suc n) before acc = turn (λ b out. read_back n b out) acc (fetch before)
