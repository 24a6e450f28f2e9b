-- ===== src/Service/Accept.antt =====
-- `AcceptTrade` of backend/internal/service/trade.go and `isExpired` of trade_lifecycle.go.
use interstellar_trade_platf.Base.{
  ℕ, Bool, false, not, ◌&&◌, none, some, [], ◌∷◌, ◌==◌, Result, ok, ◌>>=◌, ◌>>◌, fail_if, or_fail,
}
use interstellar_trade_platf.Base.Int.{ltb_ℤ, sub64}
use interstellar_trade_platf.Base.Map.{lookup}
use interstellar_trade_platf.Domain.Text.{Ident, empty}
use interstellar_trade_platf.Domain.Clock.{Stamp, format_time, parse_time, is_after}
use interstellar_trade_platf.Domain.Errors.{AppError, not_found, forbidden, conflict}
use interstellar_trade_platf.Domain.Status.{offer_received, acceptance_pending_export, status_eq}
use interstellar_trade_platf.Domain.Payload.{
  AcceptanceUserSignable, AcceptancePayload, acceptance, acceptance_terms,
}
use interstellar_trade_platf.Domain.Payload.Json.{encode_acceptance}
use interstellar_trade_platf.Domain.State.{
  AppState, Account, Colony, Trade, User, Envelope, super_admin, trader, trade_accepted, ident,
  amount,
}
use interstellar_trade_platf.Domain.Trade.{advance_trade}
use interstellar_trade_platf.Domain.Views.{TradeView}
use interstellar_trade_platf.Domain.Host.{Host, Inputs}
use interstellar_trade_platf.Service.Actor.{has_role, actor_from_token}
use interstellar_trade_platf.Service.Ledger.{append_ledger, sign_envelope}
use interstellar_trade_platf.Service.View.{to_trade_view}
use interstellar_trade_platf.Service.Tx.{put_colony, put_trade, push_outbox, set_balance, internal}

-- isExpired
unfoldable pub is_expired : Trade → ℕ → Bool
is_expired t now = elim (parse_time t.expires_at) [ none ↦ false | some exp ↦ is_after now exp ]

unfoldable pub acceptance_signable : Trade → User → Stamp → AcceptanceUserSignable
acceptance_signable t buyer accepted_at = record {
  trade_id = t.id;
  buyer_user_id = buyer.id;
  buyer_colony_id = buyer.colony_id;
  debit_amount = t.price;
  accepted_at = accepted_at;
}

unfoldable pub acceptance_payload : Trade → User → Stamp → Ident → AcceptancePayload
acceptance_payload t buyer accepted_at sig = record {
  trade_id = t.id;
  buyer_user_id = buyer.id;
  buyer_colony_id = buyer.colony_id;
  debit_amount = t.price;
  accepted_at = accepted_at;
  buyer_signature = sig;
}

-- The buyer's colony after the debit, with the envelope queued and the ledger entry appended.
unfoldable pub debit_buyer : Host → ℕ → User → User → Trade → Account → Envelope → Colony → Colony
debit_buyer host t actor buyer trade acc env colony =
    let balance = sub64 acc.balance trade.price in
    append_ledger host t (push_outbox env (set_balance buyer.id acc balance colony)) trade_accepted
      actor.id
      (("trade_id", ident trade.id)
        ∷ ("debit_amount", amount trade.price)
        ∷ ("new_balance", amount balance)
        ∷ ("envelope_id", ident env.id)
        ∷ [])

unfoldable pub accept_trade :
    Host → Inputs → AppState → Ident → Ident → Result AppError (TradeView × AppState)
unfolding acceptance_signable acceptance_payload debit_buyer
accept_trade host inp state token trade_id = do
  actor ← actor_from_token host (inp.wall 0) state token
  trade ← or_fail (lookup trade_id state.trades) (not_found "trade not found")
  fail_if (not (status_eq trade.status offer_received))
      (conflict "trade is not ready for acceptance")
  fail_if (is_expired trade (inp.now 0)) (conflict "offer has expired")
  buyer ← or_fail (lookup trade.buyer_user_id state.users) (not_found "buyer not found")
  fail_if (not (actor.id == buyer.id) && not (has_role actor super_admin))
      (forbidden "only the buyer can accept this trade")
  fail_if (not (has_role actor super_admin) && not (has_role actor trader))
      (forbidden "trader role is required")
  colony ← or_fail (lookup buyer.colony_id state.colonies) (not_found "buyer colony not found")
  acc ← or_fail (lookup buyer.id colony.accounts) (not_found "buyer account not found")
  fail_if (ltb_ℤ acc.balance trade.price) (conflict "insufficient buyer balance")
  let accepted_at = format_time (inp.now 1)
  buyer_sig ←
      or_fail
        (host.sign buyer.private_key
          (acceptance_terms (acceptance_signable trade buyer accepted_at)))
        internal
  env_id ← or_fail (inp.id 0) internal
  let unsigned : Envelope = record {
    id = env_id;
    kind = acceptance;
    from_colony_id = buyer.colony_id;
    to_colony_id = trade.seller_colony_id;
    payload = encode_acceptance (acceptance_payload trade buyer accepted_at buyer_sig);
    colony_signature = empty;
    created_at = accepted_at;
  }
  sig ← or_fail (sign_envelope host colony unsigned) internal
  let env = record unsigned { colony_signature = sig }
  advanced ← advance_trade trade acceptance_pending_export
  let trade' = record advanced {
    accepted_at = accepted_at;
    buyer_signature = buyer_sig;
    acceptance_envelope_id = env_id;
  }
  let colony' = debit_buyer host (inp.now 2) actor buyer trade acc env colony
  let state' = put_trade trade_id trade' (put_colony buyer.colony_id colony' state)
  ok (to_trade_view state' trade', state')
