-- ===== src/Service/Export/Split.antt =====
-- What an export takes out of the outbox (backend/internal/service/trade.go, `ExportBundle`).
use interstellar_trade_platf.Base.{◌≡◌, ◌≢◌, Option, some, List, [], ◌∷◌}
use interstellar_trade_platf.Domain.Text.{Ident}
use interstellar_trade_platf.Domain.State.{Envelope}

-- An outbox is split by destination, in its order, with nothing lost or repeated.
pub data Split (to : Ident) : List Envelope → List (Option Envelope) → List Envelope → Type 0 where
  nothing : Split to [] [] []
  sent :
      (env : Envelope) {out : List Envelope} {msgs : List (Option Envelope)} {rest : List Envelope}
      → env.to_colony_id ≡ to
      → Split to out msgs rest
      → Split to (env ∷ out) (some env ∷ msgs) rest
  kept :
      (env : Envelope) {out : List Envelope} {msgs : List (Option Envelope)} {rest : List Envelope}
      → env.to_colony_id ≢ to
      → Split to out msgs rest
      → Split to (env ∷ out) msgs (env ∷ rest)
