-- ===== src/Service/Import/Count.antt =====
-- What the result of an import counts: `ImportBundle` of backend/internal/service/trade.go.
use interstellar_trade_platf.Base.{
  ℕ, suc, ◌+◌, ◌≡◌, refl, arith, Bool, true, false, Option, none, some, List, [], ◌∷◌, ◌++◌, length,
  if◌then◌else◌, Ensures, on_ok, Ensures-bind, Ensures-guard, Ensures-or_fail, Ensures-case,
  Ensures-continue, Ensures-map,
}
use interstellar_trade_platf.Domain.Text.{Ident}
use interstellar_trade_platf.Domain.Payload.{EnvelopeType}
use interstellar_trade_platf.Domain.Views.{TradeView}
use interstellar_trade_platf.Domain.State.{AppState, Envelope}
use interstellar_trade_platf.Domain.Host.{Host, Inputs}
use interstellar_trade_platf.Service.Import.{
  ImportBundleResult, is_processed, import_message, import_messages, message_inputs, skip_duplicate,
  count_import,
}

-- The messages that are there.
abbrev pub present : List (Option Envelope) → ℕ
present [] = 0
present (none ∷ msgs) = present msgs
present (some env ∷ msgs) = suc (present msgs)

-- `n` messages more were counted, and a type was noted for each that was imported.
pub record Counts (before : ImportBundleResult) (n : ℕ) (after : ImportBundleResult) : Type 0 where
  pub counted :
      after.imported_count + after.skipped_duplicates
      ≡ before.imported_count + before.skipped_duplicates + n
  pub noted :
      length after.processed_types + before.imported_count
      ≡ length before.processed_types + after.imported_count

length-snoc : {A : Type 0} → (xs : List A) (x : A) → length (xs ++ x ∷ []) ≡ suc (length xs)
length-snoc [] x = refl
length-snoc (y ∷ xs) x = ground (arith, length-snoc xs x)

skip_duplicate-Counts : (r : ImportBundleResult) → Counts r 1 (skip_duplicate r)
unfolding skip_duplicate
skip_duplicate-Counts r = record { counted = omega arith; noted = refl }

-- Either way the message is counted.
tally :
    (applied : Bool) (kind : EnvelopeType) (view : TradeView) (r : ImportBundleResult)
    → Counts r 1 (if applied then count_import kind view r else skip_duplicate r)
unfolding count_import
tally false kind view r = skip_duplicate-Counts r
tally true kind view r = record {
  counted = omega arith;
  noted = omega (arith, length-snoc r.processed_types kind);
}

import_message-Counts :
    (host : Host) (inp : Inputs) (source_key target_key : Ident) (env : Envelope)
    (acc : ImportBundleResult × AppState)
    → Ensures
        (λ (r : ImportBundleResult × AppState). Counts acc.0 1 r.0)
        (import_message host inp source_key target_key env acc)
unfolding import_message
import_message-Counts host inp source_key target_key env (result, s) = Ensures-or_fail _ λ source _.
    Ensures-or_fail _ λ target _. Ensures-guard _ _ λ _.
      Ensures-case (is_processed env.id target) (λ _. on_ok (skip_duplicate-Counts result))
        (λ _.
          Ensures-guard _ _
            λ _. Ensures-bind λ imported _. on_ok (tally imported.1 env.kind _ result))

-- An import of messages that succeeds accounts for each of them, nil pointers apart: each counts
-- once as imported or once as skipped, and one type is noted for each imported message.
pub import_messages-Counts :
    (host : Host) (inp : Inputs) (source_key target_key : Ident) (i : ℕ)
    (msgs : List (Option Envelope)) (acc : ImportBundleResult × AppState)
    → Ensures
        (λ (r : ImportBundleResult × AppState). Counts acc.0 (present msgs) r.0)
        (import_messages host inp source_key target_key i msgs acc)
unfolding import_messages
import_messages-Counts host inp source_key target_key i [] acc =
    on_ok (record { counted = omega arith; noted = refl })
import_messages-Counts host inp source_key target_key i (none ∷ msgs) acc =
    import_messages-Counts host inp source_key target_key (suc i) msgs acc
import_messages-Counts host inp source_key target_key i (some env ∷ msgs) acc =
    Ensures-continue
      (import_message-Counts host (message_inputs inp i) source_key target_key env acc)
      λ mid first.
        Ensures-map
          (λ r rest. record {
            counted = omega (arith, first.counted, rest.counted);
            noted = omega (arith, first.noted, rest.noted);
          })
          (import_messages-Counts host inp source_key target_key (suc i) msgs mid)
