-- ===== src/Money/Auth.antt =====
-- The money under `Bootstrap`, `Login` and `Logout` (backend/internal/service/auth.go).
use interstellar_trade_platf.Base.{
  ℕ, ◌≡◌, refl, Option, Ensures, on_ok, on_err, Ensures-bind, Ensures-guard, Ensures-or_fail,
  Ensures-continue, Option-cases, inl, inr,
}
use interstellar_trade_platf.Base.Int.{pos}
use interstellar_trade_platf.Base.Map.{lookup}
use interstellar_trade_platf.Domain.Text.{Ident}
use interstellar_trade_platf.Domain.State.{AppState, User}
use interstellar_trade_platf.Domain.Host.{Host, Inputs}
use interstellar_trade_platf.Service.Session.{AuthResponse, create_session}
use interstellar_trade_platf.Service.Auth.{
  BootstrapRequest, bootstrap, first_user, LoginRequest, LoginAnswer, login, Checked, refused,
  counted, matched, after_check, check_login, finish_login, note_login_failure, logout,
}
use interstellar_trade_platf.Money.{IsValid, Moves}
use interstellar_trade_platf.Money.Writes.{frame-Moves}

-- A state with other users or sessions only.
pub same_books-Moves :
    (s s' : AppState)
    → IsValid s
    → s'.colonies ≡ s.colonies
    → s'.trades ≡ s.trades
    → s'.pending_actions ≡ s.pending_actions
    → Moves s (pos 0) s'
same_books-Moves s s' v colonies trades pending =
    frame-Moves s s' colonies trades (rw pending v.proposed) v

create_session-Moves :
    (inp : Inputs) (i : ℕ) (s s' : AppState) (user : User)
    → IsValid s
    → s'.colonies ≡ s.colonies
    → s'.trades ≡ s.trades
    → s'.pending_actions ≡ s.pending_actions
    → Ensures (λ (r : AuthResponse × AppState). Moves s (pos 0) r.1) (create_session inp i s' user)
unfolding create_session
create_session-Moves inp i s s' user v colonies trades pending =
    Ensures-or_fail _ λ token _. on_ok (same_books-Moves s _ v colonies trades pending)

pub bootstrap-Moves :
    (host : Host) (inp : Inputs) (seen s : AppState) (req : BootstrapRequest)
    → IsValid s
    → Ensures (λ (r : AuthResponse × AppState). Moves s (pos 0) r.1) (bootstrap host inp seen s req)
unfolding bootstrap first_user
bootstrap-Moves host inp seen s req v = Ensures-guard _ _ λ _. Ensures-guard _ _ λ _.
    Ensures-or_fail _ λ password_hash _. Ensures-guard _ _ λ _. Ensures-guard _ _ λ _.
      Ensures-or_fail _
        λ id _. Ensures-or_fail _ λ keys _. create_session-Moves inp 0 s _ _ v refl refl refl

pub note_login_failure-Moves :
    (now : ℕ) (s : AppState) (id : Ident)
    → IsValid s
    → Moves s (pos 0) (note_login_failure now s id).1
unfolding note_login_failure
note_login_failure-Moves now s id v = elim (Option-cases (lookup id s.users)) [
  | inl e ↦ rw (note_login_failure, e) (same_books-Moves s s v refl refl refl)
  | inr (u, e) ↦ rw (note_login_failure, e) (same_books-Moves s _ v refl refl refl)
]

finish_login-Moves :
    (host : Host) (inp : Inputs) (s : AppState) (c : User) (req : LoginRequest)
    (upgraded : Option Ident)
    → IsValid s
    → Ensures
        (λ (r : AuthResponse × AppState). Moves s (pos 0) r.1)
        (finish_login host inp s c req upgraded)
unfolding finish_login
finish_login-Moves host inp s c req upgraded v = Ensures-or_fail _ λ user _.
    Ensures-guard _ _ λ _. Ensures-bind λ used _. create_session-Moves inp 4 s _ _ v refl refl refl

checked-Moves :
    (c : Checked) (host : Host) (inp : Inputs) (s : AppState) (req : LoginRequest)
    → IsValid s
    → Ensures (λ (r : LoginAnswer × AppState). Moves s (pos 0) r.1) (after_check c host inp s req)
unfolding after_check
checked-Moves (refused e) host inp s req v = on_err
checked-Moves (counted u reason) host inp s req v =
    on_ok (note_login_failure-Moves (inp.wall 2) s u.id v)
checked-Moves (matched u upgraded) host inp s req v =
    Ensures-continue (finish_login-Moves host inp s u req upgraded v) λ r m. on_ok m

pub login-Moves :
    (host : Host) (inp : Inputs) (seen s : AppState) (req : LoginRequest)
    → IsValid s
    → Ensures (λ (r : LoginAnswer × AppState). Moves s (pos 0) r.1) (login host inp seen s req)
unfolding login
login-Moves host inp seen s req v = checked-Moves (check_login host inp seen req) host inp s req v

pub logout-Moves :
    (s : AppState) (token : Ident)
    → IsValid s
    → Ensures (λ (r : Unit {0} × AppState). Moves s (pos 0) r.1) (logout s token)
unfolding logout
logout-Moves s token v = on_ok (same_books-Moves s _ v refl refl refl)
