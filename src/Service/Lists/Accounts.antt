-- ===== src/Service/Lists/Accounts.antt =====
-- `ListAccounts` of backend/internal/service/view.go.
use interstellar_trade_platf.Base.{
  ℕ, true, false, not, ◌&&◌, ◌≡◌, ◌⊎◌, refl, sym, ap, subst, ◌∙◌, Option, none, some, List, [], ◌∷◌,
  inl, inr, arith, Bool-cases, ◌==◌, ok, bound_ok,
}
use interstellar_trade_platf.Base.Map.{
  Map, lookup, All, Distinct, no_entry, lookup-cases, lookup-head, lookup-tail,
}
use interstellar_trade_platf.Base.Sort.{sort_slice, sort_slice-Mem}
use interstellar_trade_platf.Domain.Text.{Ident}
use interstellar_trade_platf.Domain.State.{super_admin, Account, User, Colony, AppState}
use interstellar_trade_platf.Domain.Views.{AccountView}
use interstellar_trade_platf.Domain.Order.{account_before, sort_accounts}
use interstellar_trade_platf.Domain.Host.{Host}
use interstellar_trade_platf.Service.Actor.{has_role, actor_from_token}
use interstellar_trade_platf.Service.Lists.{
  to_account_view, append_account, account_views, visible_accounts, list_accounts,
}
use mathlib.Core.List.{Memᴰ}
use mathlib.Core.List.Memᴰ.{head, tail}

-- The view is one of an account of the colony, whose user is there.
record IsAccountOf (users : Map User) (c : Colony) (m : Map Account) (v : AccountView)
    : Type 0 where
  key : Ident
  account : Account
  found : lookup key m ≡ some account
  user : User
  known : lookup key users ≡ some user
  viewed : v ≡ to_account_view c account user

behind :
    {users : Map User} {c : Colony} {m : Map Account} {v : AccountView} (e : Ident × Account)
    → Distinct (e ∷ m)
    → IsAccountOf users c m v
    → IsAccountOf users c (e ∷ m) v
behind {m} e d h = record {
  key = h.key;
  account = h.account;
  found = (lookup-tail e m h.key h.account d.0 h.found).1;
  user = h.user;
  known = h.known;
  viewed = h.viewed;
}

appended :
    (o : Option User) (c : Colony) (acc : Account) (rest : List AccountView) (v : AccountView)
    → Memᴰ v (append_account o c acc rest)
    → ((u : User) × (o ≡ some u) × (v ≡ to_account_view c acc u)) ⊎ Memᴰ v rest
unfolding append_account
appended none c acc rest v h = inr h
appended (some u) c acc rest v (head p) = inl (u, refl, p)
appended (some u) c acc rest v (tail r) = inr r

append_rest :
    (o : Option User) (c : Colony) (acc : Account) (rest : List AccountView) (v : AccountView)
    → Memᴰ v rest
    → Memᴰ v (append_account o c acc rest)
unfolding append_account
append_rest none c acc rest v h = h
append_rest (some u) c acc rest v h = tail h

append_known :
    (o : Option User) (c : Colony) (acc : Account) (rest : List AccountView) (u : User)
    → o ≡ some u
    → Memᴰ (to_account_view c acc u) (append_account o c acc rest)
unfolding append_account
append_known none c acc rest u e = absurd (cc)
append_known (some x) c acc rest u e =
    let same : x ≡ u = cc in head (ap (to_account_view c acc) (sym same))

account_views-IsAccountOf :
    (users : Map User) (c : Colony) (m : Map Account) (rest : List AccountView) (v : AccountView)
    → Distinct m
    → Memᴰ v (account_views users c m rest)
    → IsAccountOf users c m v ⊎ Memᴰ v rest
unfolding account_views
account_views-IsAccountOf users c [] rest v d h = inr h
account_views-IsAccountOf users c (e ∷ m) rest v d h =
    elim (appended (lookup e.0 users) c e.1 (account_views users c m rest) v h) [
      | inl (user, known, p) ↦ inl (record {
        key = e.0;
        account = e.1;
        found = lookup-head e m;
        user = user;
        known = known;
        viewed = p;
      })
      | inr r ↦ elim (account_views-IsAccountOf users c m rest v d.1 r) [
        | inl i ↦ inl (behind e d i)
        | inr r' ↦ inr r'
      ]
    ]

account_views-rest :
    (users : Map User) (c : Colony) (m : Map Account) (rest : List AccountView) (v : AccountView)
    → Memᴰ v rest
    → Memᴰ v (account_views users c m rest)
unfolding account_views
account_views-rest users c [] rest v h = h
account_views-rest users c (e ∷ m) rest v h =
    append_rest (lookup e.0 users) c e.1 _ v (account_views-rest users c m rest v h)

account_views_complete :
    (users : Map User) (c : Colony) (m : Map Account) (rest : List AccountView) (k : Ident)
    (acc : Account) (user : User)
    → lookup k m ≡ some acc
    → lookup k users ≡ some user
    → Memᴰ (to_account_view c acc user) (account_views users c m rest)
unfolding account_views
account_views_complete users c [] rest k acc user found known = absurd (no_entry k acc found)
account_views_complete users c (e ∷ m) rest k acc user found known =
    elim (lookup-cases e m k acc found) [
      | inl (key, same) ↦
          subst
            (λ a.
              Memᴰ (to_account_view c a user)
                (append_account (lookup e.0 users) c e.1 (account_views users c m rest)))
            same
            (append_known (lookup e.0 users) c e.1 (account_views users c m rest) user
              (ap (λ x. lookup x users) (sym key) ∙ known))
      | inr there ↦
          append_rest (lookup e.0 users) c e.1 _ _
            (account_views_complete users c m rest k acc user there known)
    ]

-- The colony is one whose accounts the actor may see.
abbrev pub MaySeeColony : User → Colony → Type 0
MaySeeColony actor c = (has_role actor super_admin ≡ true) ⊎ (actor.colony_id ≡ c.id)

-- The view is one of an account that the actor may see.
pub record IsVisibleAccount (users : Map User) (actor : User) (m : Map Colony) (v : AccountView)
    : Type 0 where
  colony_key : Ident
  colony : Colony
  stands : lookup colony_key m ≡ some colony
  allowed : MaySeeColony actor colony
  key : Ident
  account : Account
  found : lookup key colony.accounts ≡ some account
  user : User
  known : lookup key users ≡ some user
  viewed : v ≡ to_account_view colony account user

further :
    {users : Map User} {actor : User} {m : Map Colony} {v : AccountView} (e : Ident × Colony)
    → lookup e.0 m ≡ none
    → IsVisibleAccount users actor m v
    → IsVisibleAccount users actor (e ∷ m) v
further {m} e absent h = record {
  colony_key = h.colony_key;
  colony = h.colony;
  stands = (lookup-tail e m h.colony_key h.colony absent h.stands).1;
  allowed = h.allowed;
  key = h.key;
  account = h.account;
  found = h.found;
  user = h.user;
  known = h.known;
  viewed = h.viewed;
}

allowed_of_test :
    (actor : User) (c : Colony)
    → (not (has_role actor super_admin) && not (actor.colony_id == c.id)) ≡ false
    → MaySeeColony actor c
allowed_of_test actor c h = elim (Bool-cases (has_role actor super_admin)) [
  | inl e ↦ inl e
  | inr e ↦ inr (ground arith)
]

not_hidden :
    (actor : User) (c : Colony)
    → (not (has_role actor super_admin) && not (actor.colony_id == c.id)) ≡ true
    → MaySeeColony actor c
    → ⊥
not_hidden actor c h (inl e) = ground arith
not_hidden actor c h (inr e) = ground arith

visible_accounts-IsVisibleAccount :
    (users : Map User) (actor : User) (m : Map Colony) (v : AccountView)
    → Distinct m
    → All (λ c. Distinct c.accounts) m
    → Memᴰ v (visible_accounts users actor m)
    → IsVisibleAccount users actor m v
unfolding visible_accounts
visible_accounts-IsVisibleAccount users actor [] v d a h = elim h [ ]
visible_accounts-IsVisibleAccount users actor (e ∷ m) v d a h =
    elim (Bool-cases (not (has_role actor super_admin) && not (actor.colony_id == e.1.id))) [
      | inl out ↦
          further e d.0 (visible_accounts-IsVisibleAccount users actor m v d.1 a.1 (rw out at h))
      | inr shown ↦
          elim (account_views-IsAccountOf users e.1 e.1.accounts (visible_accounts users actor m) v
            a.0 (rw shown at h)) [
              | inl i ↦ record {
                colony_key = e.0;
                colony = e.1;
                stands = lookup-head e m;
                allowed = allowed_of_test actor e.1 shown;
                key = i.key;
                account = i.account;
                found = i.found;
                user = i.user;
                known = i.known;
                viewed = i.viewed;
              }
              | inr r ↦ further e d.0 (visible_accounts-IsVisibleAccount users actor m v d.1 a.1 r)
            ]
    ]

visible_accounts_complete :
    (users : Map User) (actor : User) (m : Map Colony) (j : Ident) (c : Colony) (k : Ident)
    (acc : Account) (user : User)
    → lookup j m ≡ some c
    → MaySeeColony actor c
    → lookup k c.accounts ≡ some acc
    → lookup k users ≡ some user
    → Memᴰ (to_account_view c acc user) (visible_accounts users actor m)
unfolding visible_accounts
visible_accounts_complete users actor [] j c k acc user stands allowed found known =
    absurd (no_entry j c stands)
visible_accounts_complete users actor (e ∷ m) j c k acc user stands allowed found known =
    elim (Bool-cases (not (has_role actor super_admin) && not (actor.colony_id == e.1.id))) [
      | inl out ↦ rw out (elim (lookup-cases e m j c stands) [
        | inl (_, same) ↦
            absurd (not_hidden actor e.1 out (subst (MaySeeColony actor) (sym same) allowed))
        | inr there ↦
            visible_accounts_complete users actor m j c k acc user there allowed found known
      ])
      | inr shown ↦ rw shown (elim (lookup-cases e m j c stands) [
        | inl (_, same) ↦
            subst
              (λ x.
                Memᴰ (to_account_view x acc user)
                  (account_views users e.1 e.1.accounts (visible_accounts users actor m)))
              same
              (account_views_complete users e.1 e.1.accounts _ k acc user
                (subst (λ (x : Colony). lookup k x.accounts ≡ some acc) (sym same) found) known)
        | inr there ↦
            account_views-rest users e.1 e.1.accounts _ _
              (visible_accounts_complete users actor m j c k acc user there allowed found known)
      ])
    ]

-- A list of the accounts that the actor may see.
pub record ListsAccounts (actor : User) (state : AppState) (views : List AccountView) : Type 0 where
  pub scoped :
      (v : AccountView) → Memᴰ v views → IsVisibleAccount state.users actor state.colonies v
  pub complete :
      (j : Ident) (c : Colony) (k : Ident) (acc : Account) (user : User)
      → lookup j state.colonies ≡ some c
      → MaySeeColony actor c
      → lookup k c.accounts ≡ some acc
      → lookup k state.users ≡ some user
      → Memᴰ (to_account_view c acc user) views

-- Where no colony and no account of a colony has an identifier twice, a list of accounts that is
-- served shows only accounts of colonies that the caller may see and whose user is there, and all
-- of those.
pub list_accounts-ListsAccounts :
    (host : Host) (wall : ℕ) (state : AppState) (token : Ident) (views : List AccountView)
    → Distinct state.colonies
    → All (λ c. Distinct c.accounts) state.colonies
    → list_accounts host wall state token ≡ ok views
    → (actor : User) × (actor_from_token host wall state token ≡ ok actor)
      × ListsAccounts actor state views
unfolding list_accounts sort_accounts
list_accounts-ListsAccounts host wall state token views d a e =
    let (actor, known, sorted) = bound_ok e in
    let raw = visible_accounts state.users actor state.colonies in
    let same : sort_slice account_before raw ≡ views = cc in
    (
      actor,
      known,
      record {
        scoped = λ v m.
            visible_accounts-IsVisibleAccount state.users actor state.colonies v d a
              ((sort_slice-Mem account_before v raw).0 (rw (← same) at m));
        complete = λ j c k acc user stands allowed found there. rw (← same) (
            (sort_slice-Mem account_before _ raw).1 (
              visible_accounts_complete state.users actor state.colonies j c k acc user stands
                allowed found there));
      },
    )
