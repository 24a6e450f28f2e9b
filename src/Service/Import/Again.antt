-- ===== src/Service/Import/Again.antt =====
-- The record of imported messages: `ImportBundle` of backend/internal/service/trade.go.
use interstellar_trade_platf.Base.{
  ◌≡◌, refl, true, some, Ensures, on_ok, Ensures-bind, Ensures-guard, Ensures-or_fail, Ensures-case,
  Ensures-map,
}
use interstellar_trade_platf.Base.Map.{lookup, lookup-modified, lookup-insert_self}
use interstellar_trade_platf.Domain.Text.{Ident}
use interstellar_trade_platf.Domain.State.{AppState, Colony, Envelope}
use interstellar_trade_platf.Domain.Host.{Host, Inputs}
use interstellar_trade_platf.Service.Tx.{modify_colony}
use interstellar_trade_platf.Service.Import.{
  ImportBundleResult, is_processed, mark_processed, import_message,
}

-- The target colony, where it is there, has this message on record.
abbrev pub HasProcessed : Ident → Ident → AppState → Type 0
HasProcessed key env_id s =
    (c : Colony) → lookup key s.colonies ≡ some c → is_processed env_id c ≡ true

marked : (env_id : Ident) (c : Colony) → is_processed env_id (mark_processed env_id c) ≡ true
unfolding is_processed mark_processed
marked env_id c = rw (lookup-insert_self env_id true c.processed_envelopes) refl

mark-HasProcessed :
    (key env_id : Ident) (s : AppState)
    → HasProcessed key env_id (modify_colony key (mark_processed env_id) s)
mark-HasProcessed key env_id s c found =
    let (old, e) = lookup-modified key (mark_processed env_id) s.colonies c found in
    rw e (marked env_id old)

import_message-HasProcessed :
    (host : Host) (inp : Inputs) (source_key target_key : Ident) (env : Envelope)
    (acc : ImportBundleResult × AppState)
    → Ensures
        (λ (r : ImportBundleResult × AppState). HasProcessed target_key env.id r.1)
        (import_message host inp source_key target_key env acc)
unfolding import_message
import_message-HasProcessed host inp source_key target_key env (result, s) =
    Ensures-or_fail _ λ source _. Ensures-or_fail _ λ target found. Ensures-guard _ _ λ _.
      Ensures-case (is_processed env.id target) (λ done. on_ok (λ c h. cc))
        (λ _.
          Ensures-guard _ _
            λ _. Ensures-bind λ imported _. on_ok (mark-HasProcessed target_key env.id imported.2))

-- The message with this state again.
skipped :
    (host : Host) (inp : Inputs) (source_key target_key : Ident) (env : Envelope)
    (acc : ImportBundleResult × AppState)
    → HasProcessed target_key env.id acc.1
    → Ensures
        (λ (r : ImportBundleResult × AppState). r.1 ≡ acc.1)
        (import_message host inp source_key target_key env acc)
unfolding import_message
skipped host inp source_key target_key env (result, s) done = Ensures-or_fail _ λ source _.
    Ensures-or_fail _ λ target found. Ensures-guard _ _ λ _.
      Ensures-case (is_processed env.id target) (λ _. on_ok refl) (λ fresh. cc (done target found))

-- After a message was imported, importing it again at once does not change the state if it
-- succeeds, whatever the clocks and the random source give the second time.
pub import_message_again :
    (host : Host) (inp inp' : Inputs) (source_key target_key : Ident) (env : Envelope)
    (acc : ImportBundleResult × AppState)
    → Ensures
        (λ (r : ImportBundleResult × AppState).
          Ensures
            (λ (r' : ImportBundleResult × AppState). r'.1 ≡ r.1)
            (import_message host inp' source_key target_key env r))
        (import_message host inp source_key target_key env acc)
import_message_again host inp inp' source_key target_key env acc =
    Ensures-map (λ r done. skipped host inp' source_key target_key env r done)
      (import_message-HasProcessed host inp source_key target_key env acc)
