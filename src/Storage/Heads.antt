-- ===== src/Storage/Heads.antt =====
-- The repair of ledger heads at start-up (backend/internal/storage/store.go).
use interstellar_trade_platf.Base.{◌≡◌, refl, arith, Bool-cases, inl, inr, ◌==◌}
use interstellar_trade_platf.Domain.Text.{empty}
use interstellar_trade_platf.Domain.State.{Colony}
use interstellar_trade_platf.Service.Ledger.{previous_hash}
use interstellar_trade_platf.Storage.{backfill_head}

-- Filling in the head of a ledger leaves the hash that the next entry links to, and makes it the
-- stored head.
pub backfill_head-previous_hash :
    (c : Colony)
    → (previous_hash (backfill_head c) ≡ previous_hash c)
      × ((backfill_head c).last_ledger_hash ≡ previous_hash c)
unfolding backfill_head previous_hash
backfill_head-previous_hash c = elim (Bool-cases (c.last_ledger_hash == empty)) [
  | inl e ↦ (rw e (ground arith), rw e refl)
  | inr e ↦ (rw e (rw e refl), ground arith)
]
