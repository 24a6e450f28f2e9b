-- ===== src/Money/Mint.antt =====
-- The money of `mint` and `applyMint` (backend/internal/service/admin.go).
use interstellar_trade_platf.Base.{
  ℕ, ◌≡◌, refl, arith, ok, some, Bool, false, true_of_not, Ensures, on_ok, Ensures-bind,
  Ensures-guard, Ensures-or_fail, Ensures-continue, Ensures-case,
}
use interstellar_trade_platf.Base.Int.{
  ℤ, pos, ◌≤ℤ◌, ◌≃ℤ◌, ≃ℤ_of_eq, ltb_ℤ, le_of_ltb-false, int_laws, max_int64,
}
use interstellar_trade_platf.Base.Map.{lookup, All-lookup, All-insert}
use interstellar_trade_platf.Domain.Text.{Ident, empty}
use interstellar_trade_platf.Domain.Amount.{add_checked, max_amount, effective_mint_cap}
use interstellar_trade_platf.Domain.Amount.Bounds.{valid_amount_bounds}
use interstellar_trade_platf.Domain.State.{AppState, Account, Colony, User, PendingAction}
use interstellar_trade_platf.Domain.Views.{AccountView}
use interstellar_trade_platf.Domain.Host.{Host, Inputs}
use interstellar_trade_platf.Service.Mint.{
  MintRequest, MintOutcome, apply_mint, propose_mint, mint_request, put_action, new_pending_action,
}
use interstellar_trade_platf.Service.Ledger.{append_ledger}
use interstellar_trade_platf.Service.Tx.{put_colony, set_balance}
use interstellar_trade_platf.Money.{net, IsFunded, AreFunded, IsProposed, IsValid, Moves}
use interstellar_trade_platf.Money.Writes.{
  put_colony-Moves, frame-Moves, Moves-trans, Moves-eq, set_balance-net, set_balance-AreFunded,
  AreFunded-same, add_checked_funded, net_minted, net_same,
}

-- The colony after a mint is worth what it was, and is still funded and within its cap.
minted-net :
    (u : Ident) (acc : Account) (amt total balance : ℤ) (c c' : Colony)
    → AreFunded c
    → (pos 1 ≤ℤ amt) × (amt ≤ℤ max_amount)
    → lookup u c.accounts ≡ some acc
    → add_checked c.minted_total amt ≡ ok total
    → ltb_ℤ (effective_mint_cap c) total ≡ false
    → add_checked acc.balance amt ≡ ok balance
    → c'.accounts ≡ (set_balance u acc balance c).accounts
    → c'.minted_total ≡ total
    → c'.mint_cap ≡ c.mint_cap
    → (net c' ≃ℤ net c) × AreFunded c'
minted-net u acc amt total balance c c' f ha hu sum cap bal accs mint same =
    let fits : c.minted_total ≤ℤ max_int64 = omega arith in
    let (total_eq, total_low, total_high) =
      add_checked_funded c.minted_total amt total (f.1.0, fits) ha sum in
    let (exact, low, high) =
      add_checked_funded acc.balance amt balance (All-lookup IsFunded u acc c.accounts f.0 hu) ha
        bal in
    let paid = set_balance u acc balance c in
    let supplied = record paid { minted_total = total } in
    let funded = set_balance-AreFunded u acc balance c f (low, high) in
    let within = le_of_ltb-false (effective_mint_cap c) total cap in
    (
      omega (
        int_laws,
        ≃ℤ_of_eq (net_same supplied c' accs mint),
        net_minted paid total,
        set_balance-net u acc balance c hu,
        ≃ℤ_of_eq exact,
        ≃ℤ_of_eq total_eq,
      ),
      AreFunded-same supplied c' accs mint same (funded.0, (total_low, within, f.1.2)),
    )

minted-Moves :
    (key u : Ident) (acc : Account) (amt total balance : ℤ) (c c' : Colony) (s : AppState)
    → IsValid s
    → lookup key s.colonies ≡ some c
    → (pos 1 ≤ℤ amt) × (amt ≤ℤ max_amount)
    → lookup u c.accounts ≡ some acc
    → add_checked c.minted_total amt ≡ ok total
    → ltb_ℤ (effective_mint_cap c) total ≡ false
    → add_checked acc.balance amt ≡ ok balance
    → c'.accounts ≡ (set_balance u acc balance c).accounts
    → c'.minted_total ≡ total
    → c'.mint_cap ≡ c.mint_cap
    → Moves s (pos 0) (put_colony key c' s)
minted-Moves key u acc amt total balance c c' s v hc ha hu sum cap bal accs mint same =
    let (worth_eq, funded) =
      minted-net u acc amt total balance c c' (All-lookup AreFunded key c s.colonies v.funded hc) ha
        hu sum cap bal accs mint same in
    Moves-eq (put_colony-Moves key c c' s v hc funded) (omega (int_laws, worth_eq))

-- A mint adds to a balance what it adds to the minted total, within the cap.
pub apply_mint-Moves :
    (host : Host) (t : ℕ) (s : AppState) (key : Ident) (c : Colony) (user_id : Ident) (amt : ℤ)
    (actor_id approver : Ident)
    → IsValid s
    → lookup key s.colonies ≡ some c
    → (pos 1 ≤ℤ amt) × (amt ≤ℤ max_amount)
    → Ensures
        (λ (r : AccountView × AppState). Moves s (pos 0) r.1)
        (apply_mint host t s key c user_id amt actor_id approver)
unfolding apply_mint append_ledger
apply_mint-Moves host t s key c user_id amt actor_id approver v hc ha = Ensures-or_fail _ λ acc hu.
    Ensures-or_fail _ λ user _. Ensures-bind λ total sum. Ensures-guard _ _ λ cap.
      Ensures-bind λ balance bal.
        on_ok (
          minted-Moves key user_id acc amt total balance c _ s v hc ha hu sum cap bal refl refl
            refl)

-- A proposal is stored, with an entry in the colony's ledger; no money moves.
pub put_action-Moves :
    (key id : Ident) (c c' : Colony) (pa : PendingAction) (s : AppState)
    → IsValid s
    → lookup key s.colonies ≡ some c
    → IsProposed pa
    → c'.accounts ≡ c.accounts
    → c'.minted_total ≡ c.minted_total
    → c'.mint_cap ≡ c.mint_cap
    → Moves s (pos 0) (put_colony key c' (put_action id pa s))
put_action-Moves key id c c' pa s v hc hp accs mint same =
    let funded = All-lookup AreFunded key c s.colonies v.funded hc in
    let first =
      frame-Moves s (put_action id pa s) refl refl
        (All-insert IsProposed id pa s.pending_actions v.proposed hp) v in
    Moves-trans (pos 0) first
      (put_colony-Moves key c c' (put_action id pa s) first.valid hc
        (AreFunded-same c c' accs mint same funded))
      (omega (int_laws, ≃ℤ_of_eq (net_same c c' accs mint)))

propose_mint-Moves :
    (host : Host) (inp : Inputs) (s : AppState) (actor : User) (c : Colony) (req : MintRequest)
    → IsValid s
    → lookup req.colony_id s.colonies ≡ some c
    → (pos 1 ≤ℤ req.amount) × (req.amount ≤ℤ max_amount)
    → Ensures
        (λ (r : MintOutcome × AppState). Moves s (pos 0) r.1)
        (propose_mint host inp s actor c req)
unfolding propose_mint append_ledger new_pending_action
propose_mint-Moves host inp s actor c req v hc ha = Ensures-guard _ _ λ _.
    Ensures-or_fail _
      λ id _. on_ok (put_action-Moves req.colony_id id c _ _ s v hc ha refl refl refl)

-- From a valid state, minting or proposing a mint leads to a valid state if it succeeds, the
-- supply within its cap included, and keeps balances plus escrow, less what was minted.
pub mint_request-Moves :
    (host : Host) (inp : Inputs) (s : AppState) (token : Ident) (req : MintRequest) (propose : Bool)
    → IsValid s
    → Ensures
        (λ (r : MintOutcome × AppState). Moves s (pos 0) r.1)
        (mint_request host inp s token req propose)
unfolding mint_request
mint_request-Moves host inp s token req propose v = Ensures-guard _ _ λ amounts.
    Ensures-bind λ actor _. Ensures-guard _ _ λ _. Ensures-or_fail _ λ colony hc.
      Ensures-guard _ _ λ _. Ensures-guard _ _ λ _.
        let ha = valid_amount_bounds req.amount (true_of_not _ amounts) in
        Ensures-case colony.require_dual_control
          (λ _. Ensures-guard _ _ λ _. propose_mint-Moves host inp s actor colony req v hc ha)
          (λ _.
            Ensures-continue
              (apply_mint-Moves host (inp.now 0) s req.colony_id colony req.user_id req.amount
                actor.id empty v hc ha)
              λ r m. on_ok m)
