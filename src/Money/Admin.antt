-- ===== src/Money/Admin.antt =====
-- The money of `CreateColony`, `TrustPeer` and `CreateUser` (backend/internal/service/admin.go).
use interstellar_trade_platf.Base.{
  ◌≡◌, refl, some, none, [], List, Ensures, on_ok, Ensures-bind, Ensures-guard, Ensures-or_fail,
}
use interstellar_trade_platf.Base.Int.{pos, ◌≃ℤ◌, ≃ℤ_of_eq, int_laws}
use interstellar_trade_platf.Base.Map.{
  lookup, insert, All, All-lookup, All-insert, sum_by-empty, sum_by-insert_new,
}
use interstellar_trade_platf.Domain.Text.{Ident, Text}
use interstellar_trade_platf.Domain.Amount.{cap_or_default}
use interstellar_trade_platf.Domain.State.{AppState, Account, Colony, Role}
use interstellar_trade_platf.Domain.Views.{ColonyView, UserView}
use interstellar_trade_platf.Domain.Host.{Host, Inputs}
use interstellar_trade_platf.Service.Admin.{
  create_colony, new_colony, trust_peer, CreateUserRequest, insert_user, create_user,
}
use interstellar_trade_platf.Service.Ledger.{append_ledger}
use interstellar_trade_platf.Service.Tx.{put_colony}
use interstellar_trade_platf.Money.{
  balance_of, balances, net, worth, IsFunded, AreFunded, IsValid, Moves,
}
use interstellar_trade_platf.Money.Writes.{
  put_colony-Moves, frame-Moves, Moves-trans, net_same, AreFunded-same,
}
use interstellar_trade_platf.Money.Trades.{put_kept-Moves}

-- A colony without accounts that has minted nothing.
bare_colony-net :
    (c : Colony)
    → c.accounts ≡ []
    → c.minted_total ≡ pos 0
    → c.mint_cap ≡ pos 0
    → (net c ≃ℤ pos 0) × AreFunded c
unfolding net balances cap_or_default
bare_colony-net c accs mint cap = (
  rw (accs, mint, sum_by-empty balance_of) (omega int_laws),
  (
    rw accs tt,
    (rw mint (omega int_laws), rw (mint, cap) (omega int_laws), rw cap (omega int_laws)),
  ),
)

put_colony_new-Moves :
    (k : Ident) (c : Colony) (s : AppState)
    → IsValid s
    → lookup k s.colonies ≡ none
    → c.accounts ≡ []
    → c.minted_total ≡ pos 0
    → c.mint_cap ≡ pos 0
    → Moves s (pos 0) (put_colony k c s)
unfolding worth
put_colony_new-Moves k c s v fresh accs mint cap =
    let (nothing, funded) = bare_colony-net c accs mint cap in
    record {
      valid = record {
        funded = All-insert AreFunded k c s.colonies v.funded funded;
        priced = v.priced;
        proposed = v.proposed;
        distinct = v.distinct;
      };
      moved = omega (int_laws, nothing, sum_by-insert_new net k c s.colonies fresh);
    }

-- Creating a colony, under an identifier that is not in use, moves no money.
pub create_colony-Moves :
    (host : Host) (inp : Inputs) (s : AppState) (token : Ident) (name : Text)
    → IsValid s
    → ((id : Ident) → inp.id 0 ≡ some id → lookup id s.colonies ≡ none)
    → Ensures
        (λ (r : ColonyView × AppState). Moves s (pos 0) r.1)
        (create_colony host inp s token name)
unfolding create_colony new_colony append_ledger
create_colony-Moves host inp s token name v fresh = Ensures-guard _ _ λ _. Ensures-bind λ actor _.
    Ensures-guard _ _ λ _. Ensures-guard _ _ λ _. Ensures-or_fail _ λ id hid.
      Ensures-or_fail _
        λ keys _. on_ok (put_colony_new-Moves id _ s v (fresh id hid) refl refl refl)

-- Trusting a peer moves no money.
pub trust_peer-Moves :
    (host : Host) (inp : Inputs) (s : AppState) (token colony_id peer_colony_id : Ident)
    → IsValid s
    → Ensures
        (λ (r : ColonyView × AppState). Moves s (pos 0) r.1)
        (trust_peer host inp s token colony_id peer_colony_id)
unfolding trust_peer append_ledger
trust_peer-Moves host inp s token colony_id peer_colony_id v = Ensures-guard _ _ λ _.
    Ensures-bind λ actor _. Ensures-or_fail _ λ c hc.
      Ensures-or_fail _
        λ peer _. Ensures-guard _ _ λ _. on_ok (put_kept-Moves colony_id c _ s v hc refl refl refl)

-- An account that is opened is empty.
opened-net :
    (u : Ident) (acc : Account) (c c' : Colony)
    → AreFunded c
    → lookup u c.accounts ≡ none
    → acc.balance ≡ pos 0
    → c'.accounts ≡ insert u acc c.accounts
    → c'.minted_total ≡ c.minted_total
    → c'.mint_cap ≡ c.mint_cap
    → (net c' ≃ℤ net c) × AreFunded c'
unfolding net balances
opened-net u acc c c' f fresh zero_balance accs mint cap =
    let opened = record c { accounts = insert u acc c.accounts } in
    let sum = sum_by-insert_new balance_of u acc c.accounts fresh in
    (
      omega (int_laws, sum, ≃ℤ_of_eq zero_balance, ≃ℤ_of_eq (net_same opened c' accs mint)),
      AreFunded-same opened c' accs mint cap (
        All-insert IsFunded u acc c.accounts f.0
            (rw zero_balance (omega int_laws), rw zero_balance (omega int_laws)),
        f.1,
      ),
    )

opened-Moves :
    (key u : Ident) (acc : Account) (c c' : Colony) (s s' : AppState)
    → IsValid s
    → lookup key s.colonies ≡ some c
    → lookup u c.accounts ≡ none
    → acc.balance ≡ pos 0
    → s'.colonies ≡ s.colonies
    → s'.trades ≡ s.trades
    → s'.pending_actions ≡ s.pending_actions
    → c'.accounts ≡ insert u acc c.accounts
    → c'.minted_total ≡ c.minted_total
    → c'.mint_cap ≡ c.mint_cap
    → Moves s (pos 0) (put_colony key c' s')
opened-Moves key u acc c c' s s' v hc fresh zero_balance colonies trades pending accs mint cap =
    let (same, funded) =
      opened-net u acc c c' (All-lookup AreFunded key c s.colonies v.funded hc) fresh zero_balance
        accs mint cap in
    let first = frame-Moves s s' colonies trades (rw pending v.proposed) v in
    Moves-trans (pos 0) first (put_colony-Moves key c c' s' first.valid (rw colonies hc) funded)
      (omega (int_laws, same))

-- No colony has an account under this identifier.
abbrev pub HasNoAccount : Ident → Colony → Type 0
HasNoAccount id c = lookup id c.accounts ≡ none

insert_user-Moves :
    (host : Host) (inp : Inputs) (s : AppState) (token : Ident) (req : CreateUserRequest)
    (username : Text) (roles : List Role) (password_hash : Ident)
    → IsValid s
    → ((id : Ident) → inp.id 0 ≡ some id → All (HasNoAccount id) s.colonies)
    → Ensures
        (λ (r : UserView × AppState). Moves s (pos 0) r.1)
        (insert_user host inp s token req username roles password_hash)
unfolding insert_user append_ledger
insert_user-Moves host inp s token req username roles password_hash v fresh =
    Ensures-bind λ actor _. Ensures-guard _ _ λ _. Ensures-or_fail _ λ c hc. Ensures-guard _ _ λ _.
      Ensures-guard _ _ λ _. Ensures-or_fail _ λ id hid. Ensures-or_fail _ λ keys _. on_ok (
        opened-Moves req.colony_id id _ c _ s _ v hc
          (All-lookup (HasNoAccount id) req.colony_id c s.colonies (fresh id hid) hc) refl refl refl
          refl refl refl refl)

-- From a valid state, creating a user, under an identifier that no account has, leads to a valid
-- state if it succeeds, and keeps balances plus escrow, less what was minted, whatever the state
-- was when the caller was checked.
pub create_user-Moves :
    (host : Host) (inp : Inputs) (seen s : AppState) (token : Ident) (req : CreateUserRequest)
    → IsValid s
    → ((id : Ident) → inp.id 0 ≡ some id → All (HasNoAccount id) s.colonies)
    → Ensures
        (λ (r : UserView × AppState). Moves s (pos 0) r.1)
        (create_user host inp seen s token req)
unfolding create_user
create_user-Moves host inp seen s token req v fresh = Ensures-guard _ _ λ _. Ensures-bind λ _ _.
    Ensures-or_fail _
      λ password_hash _. insert_user-Moves host inp s token req _ _ password_hash v fresh
