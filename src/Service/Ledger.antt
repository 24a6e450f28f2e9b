-- ===== src/Service/Ledger.antt =====
-- The hash-chained ledger of a colony: `HashLedgerEntry` of backend/internal/domain/util.go and
-- `appendLedger`, `SignEnvelope`, `verifyEnvelope` of backend/internal/service/common.go. Marshalling
-- a ledger payload cannot fail, since it holds texts, numbers and flags only.
pub mod Chain
use interstellar_trade_platf.Base.{
  ℕ, suc, Bool, ◌&&◌, Option, none, some, List, [], ◌∷◌, ◌++◌, ◌==◌, if◌then◌else◌, get_last?,
}
use interstellar_trade_platf.Domain.Text.{Ident, empty}
use interstellar_trade_platf.Domain.Clock.{format_time}
use interstellar_trade_platf.Domain.Payload.{EnvelopeSignable, envelope_terms}
use interstellar_trade_platf.Domain.State.{EntryType, Detail, LedgerEntry, Colony, Envelope}
use interstellar_trade_platf.Domain.Host.{Host, Preimage}

-- The hashed fields of an entry.
unfoldable pub preimage : LedgerEntry → Preimage
preimage e = record {
  seq = e.seq;
  colony_id = e.colony_id;
  time = e.time;
  kind = e.kind;
  actor_user_id = e.actor_user_id;
  payload = e.payload;
  prev_hash = e.prev_hash;
}

-- The hash of the last entry, where the ledger has one.
unfoldable pub last_hash : List LedgerEntry → Ident
last_hash ledger = elim (get_last? ledger) [ none ↦ empty | some e ↦ e.hash ]

-- The hash that the next entry links to.
unfoldable pub previous_hash : Colony → Ident
previous_hash c = if c.last_ledger_hash == empty then last_hash c.ledger else c.last_ledger_hash

-- The entry that `appendLedger` builds; `t` is its reading of the clock.
unfoldable pub next_entry : Host → ℕ → Colony → EntryType → Ident → Detail → LedgerEntry
next_entry host t c kind actor payload =
    let e : LedgerEntry = record {
      seq = suc c.next_ledger_seq;
      colony_id = c.id;
      time = format_time t;
      kind = kind;
      actor_user_id = actor;
      payload = payload;
      prev_hash = previous_hash c;
      hash = empty;
    } in
    record e { hash = host.digest (preimage e) }

-- appendLedger
unfoldable pub append_ledger : Host → ℕ → Colony → EntryType → Ident → Detail → Colony
append_ledger host t c kind actor payload =
    let e = next_entry host t c kind actor payload in
    record c {
      next_ledger_seq = suc c.next_ledger_seq;
      ledger = c.ledger ++ e ∷ [];
      last_ledger_hash = e.hash;
    }

-- The signed part of an envelope.
signable : Envelope → EnvelopeSignable
signable env = record {
  id = env.id;
  kind = env.kind;
  from_colony_id = env.from_colony_id;
  to_colony_id = env.to_colony_id;
  payload = env.payload;
  created_at = env.created_at;
}

-- SignEnvelope
unfoldable pub sign_envelope : Host → Colony → Envelope → Option Ident
unfolding signable
sign_envelope host c env = host.sign c.private_key (envelope_terms (signable env))

-- verifyEnvelope
unfoldable pub verify_envelope : Host → Colony → Envelope → Bool
unfolding signable
verify_envelope host c env =
    host.verify c.public_key (envelope_terms (signable env)) env.colony_signature
