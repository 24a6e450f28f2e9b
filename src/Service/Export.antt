-- ===== src/Service/Export.antt =====
-- `ExportBundle` of backend/internal/service/trade.go.
pub mod Split
use interstellar_trade_platf.Base.{
  not, ◌||◌, Option, some, List, [], ◌∷◌, ◌==◌, if◌then◌else◌, Result, ok, ◌>>=◌, ◌>>◌, fail_if,
  or_fail, length,
}
use interstellar_trade_platf.Base.Map.{lookup, insert}
use interstellar_trade_platf.Domain.Text.{Ident, empty}
use interstellar_trade_platf.Domain.Clock.{format_time}
use interstellar_trade_platf.Domain.Errors.{AppError, bad_request, not_found, forbidden}
use interstellar_trade_platf.Domain.State.{
  AppState, Envelope, Bundle, bundle_exported, ident, count,
}
use interstellar_trade_platf.Domain.Host.{Host, Inputs}
use interstellar_trade_platf.Service.Actor.{can_relay, actor_from_token}
use interstellar_trade_platf.Service.Ledger.{append_ledger}
use interstellar_trade_platf.Service.Tx.{put_colony, internal}

pub record ExportBundleRequest : Type 0 where
  pub colony_id : Ident
  pub to_colony_id : Ident

-- The loop that splits the outbox: the messages for the destination, and what remains.
unfoldable pub messages_to : Ident → List Envelope → List (Option Envelope)
messages_to to [] = []
messages_to to (env ∷ out) =
    if env.to_colony_id == to then some env ∷ messages_to to out else messages_to to out

unfoldable pub remaining : Ident → List Envelope → List Envelope
remaining to [] = []
remaining to (env ∷ out) =
    if env.to_colony_id == to then remaining to out else env ∷ remaining to out

unfoldable pub export_bundle :
    Host → Inputs → AppState → Ident → ExportBundleRequest → Result AppError (Bundle × AppState)
export_bundle host inp state token req = do
  fail_if (req.colony_id == empty || req.to_colony_id == empty)
      (bad_request "colony_id and to_colony_id are required")
  actor ← actor_from_token host (inp.wall 0) state token
  fail_if (not (can_relay actor req.colony_id)) (forbidden "not allowed to export for this colony")
  colony ← or_fail (lookup req.colony_id state.colonies) (not_found "colony not found")
  _ ← or_fail (lookup req.to_colony_id state.colonies) (not_found "destination colony not found")
  bundle_id ← or_fail (inp.id 0) internal
  let messages = messages_to req.to_colony_id colony.outbox
  let bundle : Bundle = record {
    id = bundle_id;
    from_colony_id = req.colony_id;
    to_colony_id = req.to_colony_id;
    exported_at = format_time (inp.now 0);
    messages = messages;
  }
  let emptied = record colony { outbox = remaining req.to_colony_id colony.outbox }
  let colony' = append_ledger host (inp.now 1) emptied bundle_exported actor.id (
      ("bundle_id", ident bundle_id)
      ∷ ("to_colony_id", ident req.to_colony_id)
      ∷ ("message_count", count (length messages))
      ∷ [])
  let filed = record state { bundles = insert bundle_id bundle state.bundles }
  ok (bundle, put_colony req.colony_id colony' filed)
