-- ===== src/Service/Auth/Code.antt =====
-- The time steps of one-time codes: `VerifyTOTP` of backend/internal/domain/security.go in `Login`.
use interstellar_trade_platf.Base.{
  ℕ, ◌+◌, ◌-◌, ◌/◌, ◌≡◌, ◌<◌, ◌⊎◌, refl, arith, Bool-cases, true, not, inl, inr, List, [], ◌∷◌,
  length, ◌==◌, Option-cases, some, ok,
}
use interstellar_trade_platf.Domain.Text.{Ident, Text, trim_space}
use interstellar_trade_platf.Domain.Clock.{second}
use interstellar_trade_platf.Domain.State.{User}
use interstellar_trade_platf.Domain.Host.{Host}
use interstellar_trade_platf.Service.Auth.{LoginRequest, try_step, try_steps, verify_totp, use_code}

-- Nothing matched, or the matched step is later than the last one used.
abbrev IsLater : ℕ → ℕ → Type 0
IsLater last m = (m ≡ 0) ⊎ (last < m)

try_step-IsLater :
    (host : Host) (secret : Ident) (code : Text) (last step matched : ℕ)
    → IsLater last matched
    → (m : ℕ) → try_step host secret code last step matched ≡ some m
    → IsLater last m
unfolding try_step
try_step-IsLater host secret code last step matched h m e =
    elim (Option-cases (host.totp_at secret step)) [
      | inl absent ↦ ground arith
      | inr (want, present) ↦ ground arith
    ]

try_steps-IsLater :
    (host : Host) (secret : Ident) (code : Text) (last : ℕ) (steps : List ℕ) (matched : ℕ)
    → IsLater last matched
    → IsLater last (try_steps host secret code last steps matched)
unfolding try_steps
try_steps-IsLater host secret code last [] matched h = h
try_steps-IsLater host secret code last (step ∷ steps) matched h =
    elim (Option-cases (try_step host secret code last step matched)) [
      | inl failed ↦ rw (try_steps, failed) (inl refl)
      | inr (m, found) ↦
          rw (try_steps, found)
            (try_steps-IsLater host secret code last steps m
              (try_step-IsLater host secret code last step matched h m found))
    ]

-- What `verify_totp` returns is 0 or a step after the last one that was used.
verify_totp-IsLater :
    (host : Host) (now : ℕ) (secret : Ident) (code : Text) (last : ℕ)
    → IsLater last (verify_totp host now secret code last)
unfolding verify_totp
verify_totp-IsLater host now secret code last =
    let found =
      try_steps-IsLater host secret (trim_space code) last
        ((now / second / 30 - 1) ∷ now / second / 30 ∷ (now / second / 30 + 1) ∷ []) 0 (inl refl) in
    elim (Bool-cases (not (length (trim_space code) == 6))) [
      | inl e ↦ rw e (inl refl)
      | inr e ↦ rw e found
    ]

-- Where one-time codes are on and the code is accepted, the account moves to a later time step
-- than the last one used.
pub use_code_later :
    (host : Host) (now : ℕ) (u u' : User) (req : LoginRequest)
    → u.mfa_enabled ≡ true
    → use_code host now u req ≡ ok u'
    → u.mfa_last_step < u'.mfa_last_step
unfolding use_code
use_code_later host now u u' req enabled h =
    let later = verify_totp-IsLater host now u.mfa_secret req.totp_code u.mfa_last_step in
    ground (arith, later)
