-- ===== src/Tests/Demo.antt =====
-- A small platform: two colonies that trust each other, three users, trades in several states.
use interstellar_trade_platf.Base.{Bool, true, false, none, some, List, [], ◌∷◌, ◌+◌}
use interstellar_trade_platf.Base.Int.{ℤ, pos}
use interstellar_trade_platf.Base.Map.{Map}
use interstellar_trade_platf.Domain.Text.{Ident, Text, empty, text_eq}
use interstellar_trade_platf.Domain.Clock.{Stamp, blank, at}
use interstellar_trade_platf.Domain.Status.{
  Status, offer_pending_export, offer_received, acceptance_pending_export,
}
use interstellar_trade_platf.Domain.Payload.{acceptance}
use interstellar_trade_platf.Domain.Payload.Json.{encode_acceptance}
use interstellar_trade_platf.Domain.State.{
  AppState, Account, Bundle, Colony, Envelope, PendingAction, Role, Session, Trade, User,
  super_admin, trader, mint, pending,
}
use interstellar_trade_platf.Domain.Host.{Host, Inputs}

-- The password of every user is the byte 5.
abbrev password_matches : Text → Bool
password_matches p = text_eq p (5 ∷ [])

abbrev pub demo_host : Host
demo_host = record {
  sign = λ key message. some (key + 1);
  verify = λ key message signature. true;
  digest = λ p. p.seq + 1000;
  hash_password = λ password. some 77;
  verify_password = λ password salt hash. (password_matches password, false);
  totp_at = λ secret step. some (1 ∷ 2 ∷ 3 ∷ 4 ∷ 5 ∷ 6 ∷ []);
  hash_secret = λ secret. secret + 9000;
  admin_mfa_required = false;
}

-- The clocks stand at 1000 seconds.
abbrev pub demo_inputs : Inputs
demo_inputs = record {
  now = λ i. 1000000000000;
  wall = λ i. 1000000000000;
  id = λ i. some (900 + i);
  keys = some (5, 6);
  token = some 500;
  secret = some 600;
}

abbrev pub demo_user : Ident → Ident → List Role → User
demo_user id colony_id roles = record {
  id = id;
  username = id ∷ [];
  display_name = id ∷ [];
  colony_id = colony_id;
  roles = roles;
  password_salt = empty;
  password_hash = empty;
  public_key = id + 2000;
  private_key = id + 3000;
  created_at = at 1;
  active = true;
  failed_logins = 0;
  locked_until = blank;
  mfa_enabled = false;
  mfa_secret = empty;
  mfa_pending_secret = empty;
  mfa_last_step = 0;
  reset_token_hash = empty;
  reset_expires_at = blank;
  password_changed_at = blank;
}

-- The session of a user, under a token of the same number.
abbrev pub demo_session : Ident → Session
demo_session id = record {
  token = id;
  user_id = id;
  created_at = 0;
  expires_at = at 5000;
  last_seen_at = blank;
}

abbrev pub demo_account : Ident → Ident → ℤ → Account
demo_account id colony_id balance = record {
  user_id = id;
  colony_id = colony_id;
  balance = balance;
}

abbrev pub demo_colony : Ident → Ident → Map Account → ℤ → Bool → Colony
demo_colony id peer accounts minted dual = record {
  id = id;
  name = id ∷ [];
  public_key = id + 4000;
  private_key = id + 5000;
  created_at = at 1;
  trusted_colonies = (peer, peer + 4000) ∷ [];
  accounts = accounts;
  processed_envelopes = [];
  outbox = [];
  ledger = [];
  next_ledger_seq = 0;
  last_ledger_hash = empty;
  net_obligations = [];
  net_claims = [];
  minted_total = minted;
  mint_cap = pos 0;
  require_dual_control = dual;
}

abbrev pub seller_colony : Colony
seller_colony = demo_colony 10 20 ((2, demo_account 2 10 (pos 0)) ∷ []) (pos 0) false

abbrev pub buyer_colony : Colony
buyer_colony = demo_colony 20 10 ((3, demo_account 3 20 (pos 500)) ∷ []) (pos 620) true

-- A trade between user 2 of colony 10 and user 3 of colony 20.
abbrev pub demo_trade : Ident → Status → Stamp → Trade
demo_trade id status expires_at = record {
  id = id;
  asset = 7 ∷ [];
  price = pos 120;
  seller_user_id = 2;
  buyer_user_id = 3;
  seller_colony_id = 10;
  buyer_colony_id = 20;
  status = status;
  offer_envelope_id = 60;
  acceptance_envelope_id = empty;
  settlement_envelope_id = empty;
  seller_signature = 1;
  buyer_signature = empty;
  created_at = at 1;
  accepted_at = blank;
  settled_at = blank;
  completed_at = blank;
  expires_at = expires_at;
  refunded_at = blank;
  cancel_envelope_id = empty;
  refund_envelope_id = empty;
}

abbrev pub demo_action : PendingAction
demo_action = record {
  id = 70;
  kind = mint;
  colony_id = 20;
  user_id = 3;
  trade_id = empty;
  amount = pos 40;
  mint_cap = none;
  require_dual = none;
  proposed_by = 4;
  proposed_at = at 1;
  expires_at = at 5000;
  status = pending;
  decided_by = empty;
  decided_at = blank;
}

abbrev pub demo_state : AppState
demo_state = record {
  meta = record { created_at = at 1; updated_at = at 1 };
  colonies = (10, seller_colony) ∷ (20, buyer_colony) ∷ [];
  users =
      (1, demo_user 1 10 (super_admin ∷ []))
      ∷ (2, demo_user 2 10 (trader ∷ []))
      ∷ (3, demo_user 3 20 (trader ∷ []))
      ∷ [];
  sessions = (1, demo_session 1) ∷ (2, demo_session 2) ∷ (3, demo_session 3) ∷ [];
  trades =
      (50, demo_trade 50 offer_received (at 5000))
      ∷ (51, demo_trade 51 offer_pending_export (at 900))
      ∷ (52, demo_trade 52 acceptance_pending_export (at 5000))
      ∷ [];
  bundles = [];
  pending_actions = (70, demo_action) ∷ [];
}

-- The acceptance of trade 52, on its way from colony 20 to colony 10.
abbrev pub demo_acceptance : Envelope
demo_acceptance = record {
  id = 61;
  kind = acceptance;
  from_colony_id = 20;
  to_colony_id = 10;
  payload = encode_acceptance (record {
    trade_id = 52;
    buyer_user_id = 3;
    buyer_colony_id = 20;
    debit_amount = pos 120;
    accepted_at = at 800;
    buyer_signature = 9;
  });
  colony_signature = 9;
  created_at = at 800;
}

abbrev pub demo_bundle : Bundle
demo_bundle = record {
  id = 80;
  from_colony_id = 20;
  to_colony_id = 10;
  exported_at = at 850;
  messages = some demo_acceptance ∷ some demo_acceptance ∷ none ∷ [];
}
