-- ===== src/Domain/Host.antt =====
-- What the program takes from outside the repository's logic: ed25519 signatures, SHA-256, the
-- clocks, the random source, and the start-up flag for administrators.
use interstellar_trade_platf.Base.{ℕ, Bool, Option}
use interstellar_trade_platf.Domain.Text.{Ident, Text}
use interstellar_trade_platf.Domain.Clock.{Stamp}
use interstellar_trade_platf.Domain.Payload.{Signable}
use interstellar_trade_platf.Domain.State.{EntryType, Detail}

-- What `HashLedgerEntry` formats into the hashed bytes.
pub record Preimage : Type 0 where
  pub seq : ℕ
  pub colony_id : Ident
  pub time : Stamp
  pub kind : EntryType
  pub actor_user_id : Ident
  pub payload : Detail
  pub prev_hash : Ident

-- `sign` is `SignWithPrivateKey` (`none` is its error), `verify` says whether
-- `VerifyWithPublicKey` returns nil, `digest` is SHA-256 of the formatted entry, and
-- `hash_password` is `HashPasswordArgon2id` (`none` is its error). `verify_password` is
-- `VerifyPassword` and `totp_at` is `TotpAt` (`none` is its error), and `hash_secret` is
-- the hash that `NewResetToken` and `SplitResetToken` take of a secret.
pub record Host : Type 0 where
  pub sign : Ident → Signable → Option Ident
  pub verify : Ident → Signable → Ident → Bool
  pub digest : Preimage → Ident
  pub hash_password : Text → Option Ident
  pub verify_password : Text → Ident → Ident → Bool × Bool
  pub totp_at : Ident → ℕ → Option Text
  pub hash_secret : Ident → Ident
  pub admin_mfa_required : Bool

-- What one call reads from the clocks and the random source: the i-th reading of each. `now` is
-- `domain.NowFn`, `wall` is `time.Now` and `domain.LockClock`, `id` is `domain.NewID` and `keys` is
-- `generateEd25519Keypair`, the public key first, and `token` is `RandomBase64URL(32)`, and `secret`
-- the secret of `NewTOTPSecret` or `NewResetToken` (`none` is their error).
pub record Inputs : Type 0 where
  pub now : ℕ → ℕ
  pub wall : ℕ → ℕ
  pub id : ℕ → Option Ident
  pub keys : Option (Ident × Ident)
  pub token : Option Ident
  pub secret : Option Ident
