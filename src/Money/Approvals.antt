-- ===== src/Money/Approvals.antt =====
-- The money of dual control and supply policy (backend/internal/service/approvals.go).
use interstellar_trade_platf.Base.{
  ℕ, ◌≡◌, refl, ◌∙◌, arith, Option, some, none, Bool, Bool-cases, false, inl, inr, Ensures, on_ok,
  on_err, Ensures-bind, Ensures-guard, Ensures-or_fail, Ensures-continue, Ensures-case,
}
use interstellar_trade_platf.Base.Int.{ℤ, pos, ≃ℤ_of_eq, int_laws}
use interstellar_trade_platf.Base.Map.{lookup, All-lookup, All-insert}
use interstellar_trade_platf.Domain.Text.{Ident, empty}
use interstellar_trade_platf.Domain.Amount.{cap_or_default}
use interstellar_trade_platf.Domain.Status.{is_escrowed}
use interstellar_trade_platf.Domain.State.{
  AppState, Colony, User, Trade, PendingAction, ActionType, EntryType, Detail, mint, force_refund,
  policy, unknown_action,
}
use interstellar_trade_platf.Domain.Host.{Host, Inputs}
use interstellar_trade_platf.Service.Approvals.{
  PolicyRequest, PolicyOutcome, bad_cap, set_cap, set_dual, validate_policy, apply_policy,
  set_policy, propose_force_refund, escrowed_trade, execute, reject, decide_approval,
}
use interstellar_trade_platf.Service.Ledger.{append_ledger}
use interstellar_trade_platf.Service.Mint.{put_action, new_pending_action}
use interstellar_trade_platf.Service.Tx.{put_colony, modify_colony}
use interstellar_trade_platf.Money.{
  net, escrow, AreFunded, IsProposed, ProposedAmount, IsValid, Moves,
}
use interstellar_trade_platf.Money.Writes.{
  put_colony-Moves, modify_colony-Moves, frame-Moves, Moves-trans, Moves-eq, AreFunded-same,
  net_same, escrow_held, KeepsMoney,
}
use interstellar_trade_platf.Money.Mint.{apply_mint-Moves, put_action-Moves}
use interstellar_trade_platf.Money.Refund.{apply_refund_held-Moves}

-- A cap that passes the validation is within the platform's, and not below what was minted.
set_cap_supplied :
    (cap : Option ℤ) (c : Colony) → bad_cap c cap ≡ false → AreFunded c → AreFunded (set_cap cap c)
unfolding bad_cap set_cap cap_or_default
set_cap_supplied none c h f = f
set_cap_supplied (some cap) c h f = (f.0, (f.1.0, ground arith, ground arith))

set_cap-net : (cap : Option ℤ) (c : Colony) → net (set_cap cap c) ≡ net c
unfolding set_cap
set_cap-net none c = refl
set_cap-net (some cap) c = net_same c (record c { mint_cap = cap }) refl refl

set_dual-AreFunded : (dual : Option Bool) (c : Colony) → AreFunded c → AreFunded (set_dual dual c)
unfolding set_dual
set_dual-AreFunded none c f = f
set_dual-AreFunded (some dual) c f =
    AreFunded-same c (record c { require_dual_control = dual }) refl refl refl f

set_dual-net : (dual : Option Bool) (c : Colony) → net (set_dual dual c) ≡ net c
unfolding set_dual
set_dual-net none c = refl
set_dual-net (some dual) c = net_same c (record c { require_dual_control = dual }) refl refl

-- Nor does a ledger entry change it.
append_ledger-net :
    (host : Host) (t : ℕ) (c : Colony) (kind : EntryType) (actor_id : Ident) (detail : Detail)
    (old : Colony)
    → net c ≡ net old
    → AreFunded c
    → (net (append_ledger host t c kind actor_id detail) ≡ net old)
      × AreFunded (append_ledger host t c kind actor_id detail)
unfolding append_ledger
append_ledger-net host t c kind actor_id detail old e f =
    let c' = append_ledger host t c kind actor_id detail in
    (net_same c c' refl refl ∙ e, AreFunded-same c c' refl refl refl f)

-- A policy leaves what a colony is worth, and its minted total within the new cap.
apply_policy-net :
    (host : Host) (t : ℕ) (c : Colony) (req : PolicyRequest) (actor_id approver : Ident)
    → AreFunded c
    → Ensures (λ c'. (net c' ≡ net c) × AreFunded c') (apply_policy host t c req actor_id approver)
unfolding apply_policy validate_policy
apply_policy-net host t c req actor_id approver f =
    let capped = set_cap req.mint_cap c in
    let c' = set_dual req.require_dual_control capped in
    Ensures-guard _ _ λ fine.
      let funded =
        set_dual-AreFunded req.require_dual_control capped
          (set_cap_supplied req.mint_cap c fine f) in
      on_ok (
        append_ledger-net host t c' _ actor_id _ c
          (set_dual-net req.require_dual_control capped ∙ set_cap-net req.mint_cap c) funded)

-- A colony that is worth the same is put in the place of the old one.
put_same-Moves :
    (key : Ident) (c c' : Colony) (s : AppState)
    → IsValid s
    → lookup key s.colonies ≡ some c
    → (net c' ≡ net c) × AreFunded c'
    → Moves s (pos 0) (put_colony key c' s)
put_same-Moves key c c' s v hc h =
    Moves-eq (put_colony-Moves key c c' s v hc h.1) (omega (int_laws, ≃ℤ_of_eq h.0))

-- From a valid state, changing or proposing a supply policy leads to a valid state if it succeeds,
-- the minted total within the new cap included, and keeps balances plus escrow, less what was
-- minted.
pub set_policy-Moves :
    (host : Host) (inp : Inputs) (s : AppState) (token colony_id : Ident) (req : PolicyRequest)
    → IsValid s
    → Ensures
        (λ (r : PolicyOutcome × AppState). Moves s (pos 0) r.1)
        (set_policy host inp s token colony_id req)
unfolding set_policy new_pending_action append_ledger
set_policy-Moves host inp s token colony_id req v = Ensures-guard _ _ λ _. Ensures-bind λ actor _.
    Ensures-guard _ _ λ _. Ensures-or_fail _ λ c hc. Ensures-bind λ _ _.
      Ensures-case c.require_dual_control
        (λ _.
          Ensures-or_fail _
            λ id _. on_ok (put_action-Moves colony_id id c _ _ s v hc tt refl refl refl))
        (λ _.
          Ensures-continue
            (apply_policy-net host (inp.now 0) c req actor.id empty
              (All-lookup AreFunded colony_id c s.colonies v.funded hc))
            λ c' h. on_ok (put_same-Moves colony_id c c' s v hc h))

proposal-Moves :
    (id : Ident) (pa : PendingAction) (s : AppState)
    → IsProposed pa
    → IsValid s
    → Moves s (pos 0) (put_action id pa s)
proposal-Moves id pa s hp v =
    frame-Moves s (put_action id pa s) refl refl
      (All-insert IsProposed id pa s.pending_actions v.proposed hp) v

proposed_at-Moves :
    (key id : Ident) (g : Colony → Colony) (pa : PendingAction) (s : AppState)
    → KeepsMoney g
    → IsProposed pa
    → IsValid s
    → Moves s (pos 0) (modify_colony key g (put_action id pa s))
proposed_at-Moves key id g pa s keeps hp v =
    let first = proposal-Moves id pa s hp v in
    Moves-trans (pos 0) first (modify_colony-Moves key g (put_action id pa s) keeps first.valid)
      (omega int_laws)

-- From a valid state, proposing a forced refund leads to a valid state if it succeeds, and keeps
-- balances plus escrow, less what was minted.
pub propose_force_refund-Moves :
    (host : Host) (inp : Inputs) (s : AppState) (token trade_id : Ident)
    → IsValid s
    → Ensures
        (λ (r : PendingAction × AppState). Moves s (pos 0) r.1)
        (propose_force_refund host inp s token trade_id)
unfolding propose_force_refund new_pending_action append_ledger
propose_force_refund-Moves host inp s token trade_id v = Ensures-bind λ actor _.
    Ensures-or_fail _ λ trade _. Ensures-guard _ _ λ _. Ensures-guard _ _ λ _.
      Ensures-or_fail _ λ id _.
        on_ok (proposed_at-Moves trade.buyer_colony_id id _ _ s (λ c. (refl, refl, refl)) tt v)

escrowed_trade_facts :
    (o : Option Trade) (t : Trade) → escrowed_trade o ≡ some t → (o ≡ some t) × (escrow t ≡ t.price)
unfolding escrowed_trade
escrowed_trade_facts none t h = cc
escrowed_trade_facts (some u) t h = elim (Bool-cases (is_escrowed u.status)) [
  | inl e ↦
      let same : some u ≡ some t = ground arith in
      (same, escrow_held t t.status refl (ground arith))
  | inr e ↦ ground arith
]

-- What an approval does moves no money: a mint within the limits, a refund of a trade in escrow, a
-- policy that passes its validation.
execute-Moves :
    (kind : ActionType) (host : Host) (inp : Inputs) (s : AppState) (actor : User) (c : Colony)
    (pa : PendingAction)
    → IsValid s
    → lookup pa.colony_id s.colonies ≡ some c
    → ProposedAmount pa kind
    → Ensures (λ s'. Moves s (pos 0) s') (execute kind host inp s actor c pa)
unfolding execute
execute-Moves mint host inp s actor c pa v hc hp =
    Ensures-continue
      (apply_mint-Moves host (inp.now 1) s pa.colony_id c pa.user_id pa.amount pa.proposed_by
        actor.id v hc hp)
      λ r m. on_ok m
execute-Moves force_refund host inp s actor c pa v hc hp = Ensures-or_fail _ λ trade found.
    let (ht, held) = escrowed_trade_facts (lookup pa.trade_id s.trades) trade found in
    Ensures-continue (apply_refund_held-Moves host _ s pa.trade_id trade actor.id _ _ v ht held)
      λ r m. on_ok m
execute-Moves policy host inp s actor c pa v hc hp =
    Ensures-continue
      (apply_policy-net host (inp.now 1) c _ pa.proposed_by actor.id
        (All-lookup AreFunded pa.colony_id c s.colonies v.funded hc))
      λ c' h. on_ok (put_same-Moves pa.colony_id c c' s v hc h)
execute-Moves unknown_action host inp s actor c pa v hc hp = on_err

reject-Moves :
    (host : Host) (inp : Inputs) (s : AppState) (actor : User) (c : Colony) (pa : PendingAction)
    → IsValid s
    → lookup pa.colony_id s.colonies ≡ some c
    → Moves s (pos 0) (reject host inp s actor c pa)
unfolding reject
reject-Moves host inp s actor c pa v hc = put_same-Moves pa.colony_id c _ s v hc (
    append_ledger-net host (inp.now 1) c _ actor.id _ c refl
      (All-lookup AreFunded pa.colony_id c s.colonies v.funded hc))

-- From a valid state, deciding a proposal, of any kind and either way, leads to a valid state if
-- it succeeds, and keeps balances plus escrow, less what was minted.
pub decide_approval-Moves :
    (host : Host) (inp : Inputs) (s : AppState) (token action_id : Ident) (approve : Bool)
    → IsValid s
    → Ensures
        (λ (r : PendingAction × AppState). Moves s (pos 0) r.1)
        (decide_approval host inp s token action_id approve)
unfolding decide_approval
decide_approval-Moves host inp s token action_id approve v = Ensures-bind λ actor _.
    Ensures-or_fail _ λ pa hp. Ensures-guard _ _ λ _. Ensures-guard _ _ λ _. Ensures-guard _ _ λ _.
      Ensures-guard _ _ λ _. Ensures-or_fail _ λ c hc.
        let proposed = All-lookup IsProposed action_id pa s.pending_actions v.proposed hp in
        Ensures-continue {P = λ s'. Moves s (pos 0) s'}
          (Ensures-case approve (λ _. execute-Moves pa.kind host inp s actor c pa v hc proposed)
            (λ _. on_ok (reject-Moves host inp s actor c pa v hc)))
          λ s' m. on_ok (
            Moves-trans (pos 0) m (proposal-Moves action_id _ s' proposed m.valid) (omega int_laws))
