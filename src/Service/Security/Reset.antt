-- ===== src/Service/Security/Reset.antt =====
-- Reset tokens: `CompleteReset` of backend/internal/service/security.go.
use interstellar_trade_platf.Base.{
  ℕ, ◌≡◌, refl, Bool-cases, false, inl, inr, some, Ensures, on_ok, Ensures-or_fail,
}
use interstellar_trade_platf.Base.Map.{Map, lookup, lookup-insert_self}
use interstellar_trade_platf.Domain.Text.{Ident, empty}
use interstellar_trade_platf.Domain.State.{AppState, User}
use interstellar_trade_platf.Domain.Host.{Inputs}
use interstellar_trade_platf.Service.Security.{reset_is_valid, consume_reset}

no_hash-invalid :
    (now : ℕ) (hash : Ident) (u : User)
    → u.reset_token_hash ≡ empty
    → reset_is_valid now hash (some u) ≡ false
unfolding reset_is_valid
no_hash-invalid now hash u h = elim (Bool-cases u.active) [
  | inl e ↦ rw (e, h) refl
  | inr e ↦ rw e refl
]

consumed :
    (now : ℕ) (hash user_id : Ident) (u : User) (m : Map User)
    → lookup user_id m ≡ some u
    → u.reset_token_hash ≡ empty
    → reset_is_valid now hash (lookup user_id m) ≡ false
consumed now hash user_id u m found h = rw found (no_hash-invalid now hash u h)

-- A reset token is used once: after a reset, no token of the user is valid, at any time.
pub consume_reset_once :
    (inp : Inputs) (s : AppState) (user_id hash password_hash : Ident)
    → Ensures
        (λ (r : Unit {0} × AppState).
          (now : ℕ) (h : Ident) → reset_is_valid now h (lookup user_id r.1.users) ≡ false)
        (consume_reset inp s user_id hash password_hash)
unfolding consume_reset
consume_reset_once inp s user_id hash password_hash =
    Ensures-or_fail _
      λ u _. on_ok λ now h. consumed now h user_id _ _ (lookup-insert_self user_id _ s.users) refl
