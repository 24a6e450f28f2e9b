-- ===== src/Service/Lists/Scope.antt =====
-- Who sees what in `ListUsers`, `ListAccounts` (backend/internal/service/view.go) and
-- `ListApprovals` (backend/internal/service/approvals.go).
use interstellar_trade_platf.Base.{
  ℕ, true, false, not, ◌&&◌, ◌||◌, ◌≡◌, ◌⊎◌, ◌≢◌, refl, sym, ap, subst, ◌∙◌, some, List, [], inl,
  inr, arith, Bool-cases, ◌==◌, ok, bound_ok,
}
use interstellar_trade_platf.Base.Map.{Map, lookup, Distinct}
use interstellar_trade_platf.Base.Sort.{IsOrdered, sort_slice, sort_slice-Mem, sort_slice-IsOrdered}
use interstellar_trade_platf.Base.Collect.{collect, collected-IsViewOf, collect_complete}
use interstellar_trade_platf.Domain.Text.{Ident, empty}
use interstellar_trade_platf.Domain.Clock.{blank}
use interstellar_trade_platf.Domain.State.{super_admin, User, PendingAction, AppState}
use interstellar_trade_platf.Domain.Views.{UserView}
use interstellar_trade_platf.Domain.Order.{newer_asym, user_before, sort_users}
use interstellar_trade_platf.Domain.Host.{Host}
use interstellar_trade_platf.Service.Actor.{has_role, can_manage_colony, actor_from_token}
use interstellar_trade_platf.Service.View.{to_user_view, user_view_for}
use interstellar_trade_platf.Service.Lists.{
  user_views_for, list_users, action_before, manageable_actions, list_approvals,
}
use mathlib.Core.List.{Memᴰ}

-- The view hides what only the user's colony and a super_admin may know.
pub record IsRedacted (v : UserView) : Type 0 where
  pub roles : v.roles ≡ []
  pub created_at : v.created_at ≡ blank
  pub mfa_enabled : v.mfa_enabled ≡ false

-- The actor may see all of a user under this identifier and of this colony.
abbrev pub MaySee : User → UserView → Type 0
MaySee actor v =
    (has_role actor super_admin ≡ true)
    ⊎ ((actor.id ≡ v.id) ⊎ ((actor.colony_id ≢ empty) × (actor.colony_id ≡ v.colony_id)))

MaySee-of_test :
    (actor u : User)
    → (has_role actor super_admin
        || (actor.id == u.id || not (actor.colony_id == empty) && actor.colony_id == u.colony_id))
      ≡ true
    → MaySee actor (to_user_view u)
unfolding to_user_view
MaySee-of_test actor u h = elim (Bool-cases (has_role actor super_admin)) [
  | inl e ↦ inl e
  | inr e ↦ elim (Bool-cases (actor.id == u.id)) [
    | inl f ↦ inr (inl (ground arith))
    | inr f ↦ inr (inr (ground arith))
  ]
]

user_view_for-IsRedacted :
    (actor u : User) → MaySee actor (user_view_for actor u) ⊎ IsRedacted (user_view_for actor u)
unfolding user_view_for
user_view_for-IsRedacted actor u =
    elim (Bool-cases (
      has_role actor super_admin
      || (actor.id == u.id || not (actor.colony_id == empty) && actor.colony_id == u.colony_id))) [
        | inl e ↦ rw e (inl (MaySee-of_test actor u e))
        | inr e ↦ rw e (inr (record { roles = refl; created_at = refl; mfa_enabled = refl }))
      ]

-- A list of all users, as the actor may see them.
pub record ListsUsers (actor : User) (users : Map User) (views : List UserView) : Type 0 where
  pub scoped : (v : UserView) → Memᴰ v views → MaySee actor v ⊎ IsRedacted v
  pub complete :
      (k : Ident) (u : User) → lookup k users ≡ some u → Memᴰ (user_view_for actor u) views

-- Where no user has an identifier twice, a list of users that is served shows roles, creation time
-- and second factor only of users whom the caller may see in full, and shows every user.
pub list_users-ListsUsers :
    (host : Host) (wall : ℕ) (state : AppState) (token : Ident) (views : List UserView)
    → Distinct state.users
    → list_users host wall state token ≡ ok views
    → (actor : User) × (actor_from_token host wall state token ≡ ok actor)
      × ListsUsers actor state.users views
unfolding list_users user_views_for sort_users
list_users-ListsUsers host wall state token views d e =
    let (actor, known, sorted) = bound_ok e in
    let listed = collect (λ u. true) (user_view_for actor) state.users in
    let same : sort_slice user_before listed ≡ views = cc in
    let scoped : (v : UserView) → Memᴰ v views → MaySee actor v ⊎ IsRedacted v = λ v m.
      let i =
        collected-IsViewOf _ _ state.users v d
          ((sort_slice-Mem user_before v listed).0 (rw (← same) at m)) in
      subst (λ x. MaySee actor x ⊎ IsRedacted x) (sym i.viewed)
        (user_view_for-IsRedacted actor i.value) in
    (
      actor,
      known,
      record {
        scoped = scoped;
        complete = λ k u found. rw (← same) (
            (sort_slice-Mem user_before _ listed).1
              (collect_complete _ _ state.users k u found refl));
      },
    )

-- A list of the proposals that the actor may decide on or watch, the newest first.
pub record ListsManageable (actor : User) (actions : Map PendingAction)
    (listed : List PendingAction) : Type 0 where
  pub ordered : IsOrdered action_before listed
  pub scoped :
      (a : PendingAction)
      → Memᴰ a listed
      → (k : Ident) × (lookup k actions ≡ some a) × (can_manage_colony actor a.colony_id ≡ true)
  pub complete :
      (k : Ident) (a : PendingAction)
      → lookup k actions ≡ some a
      → can_manage_colony actor a.colony_id ≡ true
      → Memᴰ a listed

-- Where no proposal has an identifier twice, a list of proposals that is served holds exactly the
-- stored proposals of colonies that the caller manages, the newest first.
pub list_approvals-ListsManageable :
    (host : Host) (wall : ℕ) (state : AppState) (token : Ident) (listed : List PendingAction)
    → Distinct state.pending_actions
    → list_approvals host wall state token ≡ ok listed
    → (actor : User) × (actor_from_token host wall state token ≡ ok actor)
      × ListsManageable actor state.pending_actions listed
unfolding list_approvals manageable_actions action_before
list_approvals-ListsManageable host wall state token listed d e =
    let (actor, known, sorted) = bound_ok e in
    let raw = collect (λ a. can_manage_colony actor a.colony_id) (λ a. a) state.pending_actions in
    let same : sort_slice action_before raw ≡ listed = cc in
    (
      actor,
      known,
      record {
        ordered = rw (← same) (
            sort_slice-IsOrdered action_before
              (λ a b. newer_asym a.proposed_at a.id b.proposed_at b.id) raw);
        scoped = λ a m.
            let i =
              collected-IsViewOf _ _ state.pending_actions a d
                ((sort_slice-Mem action_before a raw).0 (rw (← same) at m)) in
            let stored : i.value ≡ a = sym i.viewed in
            (
              i.key,
              i.found ∙ ap some stored,
              ap (λ (x : PendingAction). can_manage_colony actor x.colony_id) (sym stored) ∙ i.kept,
            );
        complete = λ k a found kept. rw (← same) (
            (sort_slice-Mem action_before a raw).1
              (collect_complete _ _ state.pending_actions k a found kept));
      },
    )
