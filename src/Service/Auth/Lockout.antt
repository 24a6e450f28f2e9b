-- ===== src/Service/Auth/Lockout.antt =====
-- The lockout after failed logins (backend/internal/service/auth.go and domain/security.go).
use interstellar_trade_platf.Base.{
  ℕ, suc, ◌+◌, ◌*◌, ◌/◌, ◌≡◌, ◌<◌, arith, true, List, [], ◌∷◌, ◌++◌, length,
}
use interstellar_trade_platf.Domain.Clock.{at, second}
use interstellar_trade_platf.Domain.State.{User}
use interstellar_trade_platf.Service.Auth.{
  is_locked, count_failure, max_failed_logins, lockout_duration,
}

-- Failures one after another, each with the reading of the clock.
abbrev pub failures : List ℕ → User → User
failures [] u = u
failures (t ∷ ts) u = failures ts (count_failure t u).1

-- A failure counts one up, or locks the account and starts again from 0.
count_failure_cases :
    (t : ℕ) (u : User)
    → ((suc u.failed_logins ≡ max_failed_logins)
        → (count_failure t u).1.locked_until ≡ at ((t + lockout_duration) / second))
      × ((suc u.failed_logins < max_failed_logins)
          → (count_failure t u).1.failed_logins ≡ suc u.failed_logins)
unfolding count_failure
count_failure_cases t u = (λ h. ground arith, λ h. ground arith)

locked_before :
    (u : User) (s now : ℕ) → u.locked_until ≡ at s → now < s * second → is_locked now u ≡ true
unfolding is_locked
locked_before u s now h early = rw h (ground arith)

-- The failures that fill the counter of a user up to five lock the account: until fifteen minutes
-- after the last of them, less the part of a second that a timestamp drops, it counts as locked.
pub failures_locked :
    (ts : List ℕ) (t now : ℕ) (u : User)
    → u.failed_logins + length ts ≡ 4
    → now < (t + lockout_duration) / second * second
    → is_locked now (failures (ts ++ t ∷ []) u) ≡ true
failures_locked [] t now u h early =
    locked_before (count_failure t u).1 ((t + lockout_duration) / second) now
      ((count_failure_cases t u).0 (ground arith)) early
failures_locked (t' ∷ ts) t now u h early =
    let counted = (count_failure_cases t' u).1 (ground arith) in
    failures_locked ts t now (count_failure t' u).1 (ground arith) early
