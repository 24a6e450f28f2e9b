-- ===== src/Money/Security.antt =====
-- The money under the account operations of backend/internal/service/security.go.
use interstellar_trade_platf.Base.{
  refl, ok, Option, Bool, true, false, List, if◌then◌else◌, Ensures, on_ok, on_err, Ensures-bind,
  Ensures-guard, Ensures-or_fail, Ensures-continue, Ensures-case,
}
use interstellar_trade_platf.Base.Int.{pos, int_laws}
use interstellar_trade_platf.Domain.Text.{Ident, Text}
use interstellar_trade_platf.Domain.Errors.{AppError}
use interstellar_trade_platf.Domain.State.{AppState, Colony, User}
use interstellar_trade_platf.Domain.Views.{UserView}
use interstellar_trade_platf.Domain.Host.{Host, Inputs}
use interstellar_trade_platf.Service.Security.{
  enroll_mfa, confirm_mfa, issue_reset_token, ResetToken, malformed, parts, complete_reset,
  consume_reset, change_password, replace_password, reset_mfa, with_active, same_flag,
  set_user_active, set_user_roles,
}
use interstellar_trade_platf.Service.Ledger.{append_ledger}
use interstellar_trade_platf.Service.Tx.{modify_colony}
use interstellar_trade_platf.Money.{IsValid, Moves}
use interstellar_trade_platf.Money.Auth.{same_books-Moves, note_login_failure-Moves}
use interstellar_trade_platf.Money.Writes.{KeepsMoney, modify_colony-Moves, Moves-refl, Moves-trans}

pub enroll_mfa-Moves :
    (inp : Inputs) (s : AppState) (token : Ident)
    → IsValid s
    → Ensures (λ (r : Ident × AppState). Moves s (pos 0) r.1) (enroll_mfa inp s token)
unfolding enroll_mfa
enroll_mfa-Moves inp s token v = Ensures-bind λ actor _.
    Ensures-guard _ _
      λ _. Ensures-or_fail _ λ secret _. on_ok (same_books-Moves s _ v refl refl refl)

pub confirm_mfa-Moves :
    (host : Host) (inp : Inputs) (s : AppState) (token : Ident) (code : Text)
    → IsValid s
    → Ensures (λ (r : UserView × AppState). Moves s (pos 0) r.1) (confirm_mfa host inp s token code)
unfolding confirm_mfa
confirm_mfa-Moves host inp s token code v = Ensures-bind λ actor _.
    Ensures-guard _ _ λ _. Ensures-guard _ _ λ _. on_ok (same_books-Moves s _ v refl refl refl)

pub issue_reset_token-Moves :
    (host : Host) (inp : Inputs) (s : AppState) (token user_id : Ident)
    → IsValid s
    → Ensures
        (λ (r : ResetToken × AppState). Moves s (pos 0) r.1)
        (issue_reset_token host inp s token user_id)
unfolding issue_reset_token
issue_reset_token-Moves host inp s token user_id v = Ensures-bind λ actor _.
    Ensures-or_fail _ λ target _.
      Ensures-bind
        λ _ _. Ensures-or_fail _ λ secret _. on_ok (same_books-Moves s _ v refl refl refl)

pub complete_reset-Moves :
    (host : Host) (inp : Inputs) (seen s : AppState) (reset : ResetToken) (pw : Text)
    → IsValid s
    → Ensures
        (λ (r : Unit {0} × AppState). Moves s (pos 0) r.1)
        (complete_reset host inp seen s reset pw)
unfolding complete_reset consume_reset
complete_reset-Moves host inp seen s malformed pw v = Ensures-bind λ _ _. on_err
complete_reset-Moves host inp seen s (parts user_id secret) pw v = Ensures-bind λ _ _.
    Ensures-guard _ _ λ _.
      Ensures-or_fail _
        λ password_hash _. Ensures-or_fail _ λ u _. on_ok (same_books-Moves s _ v refl refl refl)

replace_password-Moves :
    (inp : Inputs) (s : AppState) (token : Ident) (c : User) (password_hash : Ident)
    → IsValid s
    → Ensures
        (λ (r : Unit {0} × AppState). Moves s (pos 0) r.1)
        (replace_password inp s token c password_hash)
unfolding replace_password
replace_password-Moves inp s token c password_hash v =
    Ensures-bind λ u _. Ensures-guard _ _ λ _. on_ok (same_books-Moves s _ v refl refl refl)

pub change_password-Moves :
    (host : Host) (inp : Inputs) (seen s : AppState) (token : Ident) (old pw : Text)
    → IsValid s
    → Ensures
        (λ (r : Option (Unit {0}) × AppState). Moves s (pos 0) r.1)
        (change_password host inp seen s token old pw)
unfolding change_password
change_password-Moves host inp seen s token old pw v = Ensures-bind λ _ _. Ensures-bind λ c _.
    Ensures-guard _ _ λ _.
      Ensures-case ((host.verify_password old c.password_salt c.password_hash).0)
        (λ _. Ensures-or_fail _ λ password_hash _.
          Ensures-continue (replace_password-Moves inp s token c password_hash v) λ r m. on_ok m)
        (λ _. on_ok (note_login_failure-Moves (inp.wall 2) s c.id v))

pub reset_mfa-Moves :
    (host : Host) (inp : Inputs) (s : AppState) (token user_id : Ident)
    → IsValid s
    → Ensures
        (λ (r : UserView × AppState). Moves s (pos 0) r.1)
        (reset_mfa host inp s token user_id)
unfolding reset_mfa
reset_mfa-Moves host inp s token user_id v = Ensures-bind λ actor _.
    Ensures-or_fail _ λ target _. Ensures-bind λ _ _. on_ok (same_books-Moves s _ v refl refl refl)

with_active-Moves :
    (user_id : Ident) (target : User) (active : Bool) (s : AppState)
    → IsValid s
    → Moves s (pos 0) (with_active user_id target active s).1
unfolding with_active
with_active-Moves user_id target true s v = same_books-Moves s _ v refl refl refl
with_active-Moves user_id target false s v = same_books-Moves s _ v refl refl refl

-- Users are written, then an entry in the ledger of their colony.
noted-Moves :
    (key : Ident) (g : Colony → Colony) (s s' : AppState)
    → KeepsMoney g
    → Moves s (pos 0) s'
    → Moves s (pos 0) (modify_colony key g s')
noted-Moves key g s s' keeps m =
    Moves-trans (pos 0) m (modify_colony-Moves key g s' keeps m.valid) (omega int_laws)

either_state :
    (s : AppState) (b : Bool) (p q : UserView × AppState)
    → Moves s (pos 0) p.1
    → Moves s (pos 0) q.1
    → Ensures {E = AppError}
        (λ (r : UserView × AppState). Moves s (pos 0) r.1)
        (ok (if b then p else q))
either_state s true p q h k = on_ok h
either_state s false p q h k = on_ok k

pub set_user_active-Moves :
    (host : Host) (inp : Inputs) (s : AppState) (token user_id : Ident) (active : Bool)
    → IsValid s
    → Ensures
        (λ (r : UserView × AppState). Moves s (pos 0) r.1)
        (set_user_active host inp s token user_id active)
unfolding set_user_active append_ledger
set_user_active-Moves host inp s token user_id active v = Ensures-bind λ actor _.
    Ensures-or_fail _ λ target _. Ensures-bind λ _ _.
      either_state s (same_flag target.active active) _ _ (Moves-refl s v) (
        noted-Moves target.colony_id _ s _ (λ c. (refl, refl, refl))
          (with_active-Moves user_id target active s v))

pub set_user_roles-Moves :
    (host : Host) (inp : Inputs) (s : AppState) (token user_id : Ident) (names : List Text)
    → IsValid s
    → Ensures
        (λ (r : UserView × AppState). Moves s (pos 0) r.1)
        (set_user_roles host inp s token user_id names)
unfolding set_user_roles append_ledger
set_user_roles-Moves host inp s token user_id names v = Ensures-guard _ _ λ _.
    Ensures-bind λ actor _. Ensures-or_fail _ λ target _. Ensures-bind λ _ _. Ensures-guard _ _ λ _.
      on_ok (
        noted-Moves target.colony_id _ s _ (λ c. (refl, refl, refl))
          (same_books-Moves s _ v refl refl refl))
