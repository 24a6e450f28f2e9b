-- ===== src/Service/Page.antt =====
-- `ListLedgerPage` and `ListLedger` of backend/internal/service/view.go, with the limits of
-- backend/internal/domain/model.go. `CloneJSON` of the page gives the page back.
pub mod Walk
use interstellar_trade_platf.Base.{
  ℕ, zero, suc, ◌-◌, Bool, false, not, ◌&&◌, Option, none, some, List, [], ◌∷◌, ◌==◌, ltb, leb,
  if◌then◌else◌, length, Result, ok, ◌>>=◌, ◌>>◌, fail_if, or_fail,
}
use interstellar_trade_platf.Base.Int.{ℤ, pos, ltb_ℤ, pos_part}
use interstellar_trade_platf.Base.Map.{lookup}
use interstellar_trade_platf.Base.Search.{search}
use interstellar_trade_platf.Domain.Text.{Ident}
use interstellar_trade_platf.Domain.Errors.{AppError, forbidden, not_found}
use interstellar_trade_platf.Domain.State.{super_admin, LedgerEntry, AppState}
use interstellar_trade_platf.Domain.Host.{Host}
use interstellar_trade_platf.Service.Actor.{has_role, actor_from_token}
use interstellar_trade_platf.Service.Lists.{take}

-- DefaultLedgerLimit
abbrev pub default_ledger_limit : ℕ
default_ledger_limit = 200

-- MaxLedgerLimit
abbrev pub max_ledger_limit : ℕ
max_ledger_limit = 1000

-- The first two tests of ListLedgerPage.
unfoldable pub page_limit : ℤ → ℕ
page_limit limit =
    if ltb_ℤ (pos 0) limit
    then if ltb max_ledger_limit (pos_part limit) then max_ledger_limit else pos_part limit
    else default_ledger_limit

-- `xs[i]`
unfoldable pub get_elem? {ℓ} : {A : Type ℓ} → List A → ℕ → Option A
get_elem? [] i = none
get_elem? (x ∷ xs) zero = some x
get_elem? (x ∷ xs) (suc i) = get_elem? xs i

-- `xs[n:]`
unfoldable pub drop {ℓ} : {A : Type ℓ} → ℕ → List A → List A
drop zero xs = xs
drop (suc n) [] = []
drop (suc n) (x ∷ xs) = drop n xs

-- `e.Seq >= beforeSeq`
unfoldable pub seq_from : ℕ → Option LedgerEntry → Bool
seq_from before_seq none = false
seq_from before_seq (some e) = leb before_seq e.seq

-- The test of the binary search, which only asks it below the length of the ledger.
unfoldable pub not_before : List LedgerEntry → ℕ → ℕ → Bool
not_before ledger before_seq i = seq_from before_seq (get_elem? ledger i)

-- Where the page ends.
unfoldable pub page_end : List LedgerEntry → ℤ → ℕ
page_end ledger before_seq =
    if ltb_ℤ (pos 0) before_seq
    then search (not_before ledger (pos_part before_seq)) (length ledger)
    else length ledger

-- `colony.Ledger[start:end]`, with `start` at least 0
unfoldable pub page_of : List LedgerEntry → ℕ → ℤ → List LedgerEntry
page_of ledger limit before_seq =
    let stop = page_end ledger before_seq in drop (stop - limit) (take stop ledger)

-- ListLedgerPage
unfoldable pub list_ledger_page :
    Host → ℕ → AppState → Ident → Ident → ℤ → ℤ → Result AppError (List LedgerEntry)
list_ledger_page host wall state token colony_id limit before_seq = do
  actor ← actor_from_token host wall state token
  colony ← or_fail (lookup colony_id state.colonies) (not_found "colony not found")
  fail_if (not (has_role actor super_admin) && not (actor.colony_id == colony_id))
      (forbidden "not allowed to read this colony ledger")
  ok (page_of colony.ledger (page_limit limit) before_seq)

-- ListLedger
unfoldable pub list_ledger :
    Host → ℕ → AppState → Ident → Ident → ℤ → Result AppError (List LedgerEntry)
list_ledger host wall state token colony_id limit =
    list_ledger_page host wall state token colony_id limit (pos 0)
