-- ===== src/Service/Security/Manned.antt =====
-- Who can administer the platform: the comment on `authorizeUserAdmin` in
-- backend/internal/service/security.go.
use interstellar_trade_platf.Base.{
  ℕ, ◌≡◌, ◌≢◌, refl, sym, ◌∙◌, arith, Bool, Bool-cases, true, false, inl, inr, Option, none, some,
  ok, fail_if, ◌>>=◌, if◌then◌else◌, List, Ensures, on_ok, Ensures-bind, Ensures-guard,
  Ensures-or_fail, Ensures-continue, Ensures-found, subst,
}
use interstellar_trade_platf.Base.Map.{Map, lookup, insert, lookup-insert, lookup-insert_ne}
use interstellar_trade_platf.Domain.Text.{Ident, Text}
use interstellar_trade_platf.Domain.Errors.{AppError}
use interstellar_trade_platf.Domain.State.{AppState, User, super_admin}
use interstellar_trade_platf.Domain.Views.{UserView}
use interstellar_trade_platf.Domain.Host.{Host, Inputs}
use interstellar_trade_platf.Service.Actor.{
  has_role, actor_from_token, actor_from_token_no_mfa, active_user,
}
use interstellar_trade_platf.Service.Security.{
  authorize_user_admin, with_active, set_user_active, set_user_roles, same_flag,
}

-- Users stand under their identifiers, and one of them is an active super_admin.
pub record IsManned (m : Map User) : Type 0 where
  pub keyed : (k : Ident) (u : User) → lookup k m ≡ some u → u.id ≡ k
  pub holder : Ident
  pub admin : User
  pub found : lookup holder m ≡ some admin
  pub active : admin.active ≡ true
  pub super : has_role admin super_admin ≡ true

active_user_facts :
    (o : Option User) (u : User) → active_user o ≡ some u → (o ≡ some u) × (u.active ≡ true)
unfolding active_user
active_user_facts none u h = cc
active_user_facts (some v) u h = ground arith

-- A caller is an active user.
abbrev IsCaller : AppState → User → Type 0
IsCaller s a = (k : Ident) × (lookup k s.users ≡ some a) × (a.active ≡ true)

actor_no_mfa-IsCaller :
    (wall : ℕ) (s : AppState) (token : Ident)
    → Ensures (IsCaller s) (actor_from_token_no_mfa wall s token)
unfolding actor_from_token_no_mfa
actor_no_mfa-IsCaller wall s token = Ensures-guard _ _ λ _. Ensures-or_fail _ λ session _.
    Ensures-guard _ _ λ _. Ensures-found _ _ λ a h.
      let (found, active) = active_user_facts (lookup session.user_id s.users) a h in
      (session.user_id, found, active)

actor-IsCaller :
    (host : Host) (wall : ℕ) (s : AppState) (token : Ident)
    → Ensures (IsCaller s) (actor_from_token host wall s token)
unfolding actor_from_token
actor-IsCaller host wall s token =
    Ensures-continue (actor_no_mfa-IsCaller wall s token)
      λ a caller. Ensures-guard _ _ λ _. on_ok caller

authorize_facts :
    (a t : User) (x : Unit {0})
    → authorize_user_admin a t ≡ ok x
    → (a.id ≢ t.id) × (has_role t super_admin ≡ true → has_role a super_admin ≡ true)
unfolding authorize_user_admin fail_if ◌>>=◌
authorize_facts a t x h = ground arith

insert-keyed :
    (k : Ident) (u : User) (m : Map User)
    → ((j : Ident) (v : User) → lookup j m ≡ some v → v.id ≡ j)
    → u.id ≡ k
    → (j : Ident) (v : User) → lookup j (insert k u m) ≡ some v
    → v.id ≡ j
insert-keyed k u m keyed e j v h = ground (arith, lookup-insert j k u m, keyed j v)

-- A user who is not the target stays.
remains :
    (m : Map User) (user_id key : Ident) (target target' admin : User)
    → IsManned m
    → lookup user_id m ≡ some target
    → target'.id ≡ target.id
    → lookup key m ≡ some admin
    → key ≢ user_id
    → admin.active ≡ true
    → has_role admin super_admin ≡ true
    → IsManned (insert user_id target' m)
remains m user_id key target target' admin manned ht same ha other active super = record {
  keyed = insert-keyed user_id target' m manned.keyed (same ∙ manned.keyed user_id target ht);
  holder = key;
  admin = admin;
  found = lookup-insert_ne key user_id target' m other ∙ ha;
  active = active;
  super = super;
}

-- Whatever an administrator makes of another user, someone remains.
authorized-IsManned :
    (m : Map User) (user_id key : Ident) (actor target target' : User) (x : Unit {0})
    → IsManned m
    → lookup key m ≡ some actor
    → actor.active ≡ true
    → lookup user_id m ≡ some target
    → authorize_user_admin actor target ≡ ok x
    → target'.id ≡ target.id
    → IsManned (insert user_id target' m)
authorized-IsManned m user_id key actor target target' x manned hk working ht allowed same =
    let (other, above) = authorize_facts actor target x allowed in
    elim (Bool-cases (has_role target super_admin)) [
      | inl e ↦
          let distinct : key ≢ user_id =
            λ k. other (manned.keyed key actor hk ∙ k ∙ sym (manned.keyed user_id target ht)) in
          remains m user_id key target target' actor manned ht same hk distinct working (above e)
      | inr e ↦
          let distinct : manned.holder ≢ user_id = λ k. cc (manned.found, manned.super) in
          remains m user_id manned.holder target target' manned.admin manned ht same manned.found
            distinct manned.active manned.super
    ]

with_active_users :
    (user_id : Ident) (target : User) (active : Bool) (s : AppState)
    → ((with_active user_id target active s).1.users
        ≡ insert user_id (with_active user_id target active s).0 s.users)
      × ((with_active user_id target active s).0.id ≡ target.id)
unfolding with_active
with_active_users user_id target true s = (refl, refl)
with_active_users user_id target false s = (refl, refl)

either :
    (b : Bool) (p q : UserView × AppState)
    → IsManned p.1.users
    → IsManned q.1.users
    → Ensures {E = AppError}
        (λ (r : UserView × AppState). IsManned r.1.users)
        (ok (if b then p else q))
either true p q h k = on_ok h
either false p q h k = on_ok k

-- Where users stand under their identifiers and one is an active super_admin, both still hold
-- after a user was deactivated or reactivated.
pub set_user_active-IsManned :
    (host : Host) (inp : Inputs) (s : AppState) (token user_id : Ident) (active : Bool)
    → IsManned s.users
    → Ensures
        (λ (r : UserView × AppState). IsManned r.1.users)
        (set_user_active host inp s token user_id active)
unfolding set_user_active
set_user_active-IsManned host inp s token user_id active manned =
    Ensures-continue (actor-IsCaller host (inp.wall 0) s token) λ actor (key, hk, working).
      Ensures-or_fail _ λ target ht. Ensures-bind λ x allowed.
        let (users, same) = with_active_users user_id target active s in
        let after = subst IsManned (sym users) (
          authorized-IsManned s.users user_id key actor target
            (with_active user_id target active s).0 x manned hk working ht allowed same) in
        either (same_flag target.active active) _ _ manned after

-- Where users stand under their identifiers and one is an active super_admin, both still hold
-- after the roles of a user were changed.
pub set_user_roles-IsManned :
    (host : Host) (inp : Inputs) (s : AppState) (token user_id : Ident) (names : List Text)
    → IsManned s.users
    → Ensures
        (λ (r : UserView × AppState). IsManned r.1.users)
        (set_user_roles host inp s token user_id names)
unfolding set_user_roles
set_user_roles-IsManned host inp s token user_id names manned = Ensures-guard _ _ λ _.
    Ensures-continue (actor-IsCaller host (inp.wall 0) s token) λ actor (key, hk, working).
      Ensures-or_fail _ λ target ht. Ensures-bind λ x allowed. Ensures-guard _ _ λ _.
        on_ok (
          authorized-IsManned s.users user_id key actor target _ x manned hk working ht allowed
            refl)
