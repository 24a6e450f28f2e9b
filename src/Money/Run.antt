-- ===== src/Money/Run.antt =====
-- The service as a whole: any sequence of requests to the file store, each with its own clock
-- readings, random identifiers and outcome of the write to the file. A request is one call of the
-- package backend/internal/service on backend/internal/storage.
use interstellar_trade_platf.Base.{
  List, ℕ, [], ◌∷◌, ◌≡◌, refl, sym, ap, subst, ensured_ok, Bool, none, some, Result, ok, ◌>>=◌,
  Ensures, on_ok, Ensures-continue,
}
use interstellar_trade_platf.Base.Int.{ℤ, pos, ◌+ℤ◌, ◌≃ℤ◌, ≃ℤ_of_eq, int_laws}
use interstellar_trade_platf.Base.Map.{Map, All, lookup, sum_by, sum_by-empty, sum_by-cons}
use interstellar_trade_platf.Domain.Text.{Ident, Text}
use interstellar_trade_platf.Domain.Errors.{AppError}
use interstellar_trade_platf.Domain.State.{AppState, Colony}
use interstellar_trade_platf.Domain.Host.{Host, Inputs}
use interstellar_trade_platf.Service.Admin.{
  CreateUserRequest, create_colony, trust_peer, create_user,
}
use interstellar_trade_platf.Service.Auth.{BootstrapRequest, LoginRequest, bootstrap, login, logout}
use interstellar_trade_platf.Service.Security.{
  ResetToken, enroll_mfa, confirm_mfa, issue_reset_token, complete_reset, change_password,
  reset_mfa, set_user_active, set_user_roles,
}
use interstellar_trade_platf.Service.Mint.{MintRequest, mint_request}
use interstellar_trade_platf.Service.Approvals.{
  PolicyRequest, set_policy, propose_force_refund, decide_approval,
}
use interstellar_trade_platf.Service.Offer.{CreateOfferRequest, create_offer}
use interstellar_trade_platf.Service.Accept.{accept_trade}
use interstellar_trade_platf.Service.Export.{ExportBundleRequest, export_bundle}
use interstellar_trade_platf.Service.Import.{ImportBundleRequest, import_bundle}
use interstellar_trade_platf.Service.Cancel.{cancel_trade}
use interstellar_trade_platf.Service.Sweep.{sweep_expired}
use interstellar_trade_platf.Storage.{Store, new_empty_state, store_update}
use interstellar_trade_platf.Storage.Atomic.{Committed, kept, replaced, update-Committed}
use interstellar_trade_platf.Money.{
  balances, net, escrow, worth, AreFunded, IsProposed, IsValid, Moves,
}
use interstellar_trade_platf.Money.Writes.{frame-Moves}
use interstellar_trade_platf.Money.Auth.{bootstrap-Moves, login-Moves, logout-Moves}
use interstellar_trade_platf.Money.Security.{
  enroll_mfa-Moves, confirm_mfa-Moves, issue_reset_token-Moves, complete_reset-Moves,
  change_password-Moves, reset_mfa-Moves, set_user_active-Moves, set_user_roles-Moves,
}
use interstellar_trade_platf.Money.Accept.{accept_trade-Moves}
use interstellar_trade_platf.Money.Bundle.{import_bundle-Moves}
use interstellar_trade_platf.Money.Mint.{mint_request-Moves}
use interstellar_trade_platf.Money.Approvals.{
  set_policy-Moves, propose_force_refund-Moves, decide_approval-Moves,
}
use interstellar_trade_platf.Money.Trades.{create_offer-Moves, export_bundle-Moves}
use interstellar_trade_platf.Money.Cancel.{cancel_trade-Moves}
use interstellar_trade_platf.Money.Sweep.{sweep_expired-Moves}
use interstellar_trade_platf.Money.Admin.{
  HasNoAccount, create_colony-Moves, trust_peer-Moves, create_user-Moves,
}

-- The calls that update the state; a caller is known by a token. Five of them carry the state that
-- their first check saw.
pub data Request : Type 0 where
  begin : AppState → BootstrapRequest → Request
  enter : AppState → LoginRequest → Request
  leave : Ident → Request
  enroll : Ident → Request
  confirm : Ident → Text → Request
  issue_reset : Ident → Ident → Request
  reset : AppState → ResetToken → Text → Request
  change : AppState → Ident → Text → Text → Request
  drop_mfa : Ident → Ident → Request
  activate : Ident → Ident → Bool → Request
  assign : Ident → Ident → List Text → Request
  colony : Ident → Text → Request
  trust : Ident → Ident → Ident → Request
  user : AppState → Ident → CreateUserRequest → Request
  mint : Ident → MintRequest → Bool → Request
  policy : Ident → Ident → PolicyRequest → Request
  force_refund : Ident → Ident → Request
  decide : Ident → Ident → Bool → Request
  offer : Ident → CreateOfferRequest → Request
  accept : Ident → Ident → Request
  export : Ident → ExportBundleRequest → Request
  import : Ident → ImportBundleRequest → Request
  cancel : Ident → Ident → Request
  sweep : Request

-- The callback of a request without the answer to its caller.
module _ {A : Type 0} where
  abbrev pub drop_answer : Result AppError (A × AppState) → Result AppError (Unit {0} × AppState)
  drop_answer r = r >>= λ a. ok (tt, a.1)

unfoldable pub perform : Host → Inputs → Request → AppState → Result AppError (Unit {0} × AppState)
perform host inp (begin seen req) s = drop_answer (bootstrap host inp seen s req)
perform host inp (enter seen req) s = drop_answer (login host inp seen s req)
perform host inp (leave token) s = logout s token
perform host inp (enroll token) s = drop_answer (enroll_mfa inp s token)
perform host inp (confirm token code) s = drop_answer (confirm_mfa host inp s token code)
perform host inp (issue_reset token id) s = drop_answer (issue_reset_token host inp s token id)
perform host inp (reset seen secret pw) s = drop_answer (complete_reset host inp seen s secret pw)
perform host inp (change seen token old pw) s =
    drop_answer (change_password host inp seen s token old pw)
perform host inp (drop_mfa token id) s = drop_answer (reset_mfa host inp s token id)
perform host inp (activate token id active) s =
    drop_answer (set_user_active host inp s token id active)
perform host inp (assign token id names) s = drop_answer (set_user_roles host inp s token id names)
perform host inp (colony token name) s = drop_answer (create_colony host inp s token name)
perform host inp (trust token id peer) s = drop_answer (trust_peer host inp s token id peer)
perform host inp (user seen token req) s = drop_answer (create_user host inp seen s token req)
perform host inp (mint token req propose) s =
    drop_answer (mint_request host inp s token req propose)
perform host inp (policy token id req) s = drop_answer (set_policy host inp s token id req)
perform host inp (force_refund token id) s = drop_answer (propose_force_refund host inp s token id)
perform host inp (decide token id approve) s =
    drop_answer (decide_approval host inp s token id approve)
perform host inp (offer token req) s = drop_answer (create_offer host inp s token req)
perform host inp (accept token id) s = drop_answer (accept_trade host inp s token id)
perform host inp (export token req) s = drop_answer (export_bundle host inp s token req)
perform host inp (import token req) s = drop_answer (import_bundle host inp s token req)
perform host inp (cancel token id) s = drop_answer (cancel_trade host inp s token id)
perform host inp sweep s = drop_answer (sweep_expired host inp s)

-- A request with what it meets: the readings of clocks and random source, whether the file can be
-- written, and the time of the update.
pub record Call : Type 0 where
  pub request : Request
  pub inputs : Inputs
  pub saved : Bool
  pub time : ℕ

unfoldable pub serve : Host → Call → Store → Store
serve host call st =
    (store_update call.saved call.time (perform host call.inputs call.request) st).1

-- What `domain.NewID` promises of the first identifier that it draws: nothing has it.
abbrev pub IsFresh : Inputs → AppState → Type 0
IsFresh inp s =
    (id : Ident)
    → inp.id 0 ≡ some id
    → (lookup id s.trades ≡ none) × (lookup id s.colonies ≡ none) × All (HasNoAccount id) s.colonies

-- The stores that a store can become.
pub data Run (host : Host) (st : Store) : Store → Type 0 where
  idle : Run host st st
  next :
      (call : Call) {mid : Store}
      → Run host st mid
      → IsFresh call.inputs mid.state
      → Run host st (serve host call mid)

kept_answer :
    {A : Type 0} {s : AppState} {m : Result AppError (A × AppState)}
    → Ensures (λ (r : A × AppState). Moves s (pos 0) r.1) m
    → Ensures (λ (r : Unit {0} × AppState). Moves s (pos 0) r.1) (drop_answer m)
kept_answer h = Ensures-continue h λ r m. on_ok m

-- Every request keeps the state valid and moves no money in or out.
pub perform-Moves :
    (host : Host) (inp : Inputs) (req : Request) (s : AppState)
    → IsValid s
    → IsFresh inp s
    → Ensures (λ (r : Unit {0} × AppState). Moves s (pos 0) r.1) (perform host inp req s)
unfolding perform
perform-Moves host inp (begin seen req) s v new =
    kept_answer (bootstrap-Moves host inp seen s req v)
perform-Moves host inp (enter seen req) s v new = kept_answer (login-Moves host inp seen s req v)
perform-Moves host inp (leave token) s v new = logout-Moves s token v
perform-Moves host inp (enroll token) s v new = kept_answer (enroll_mfa-Moves inp s token v)
perform-Moves host inp (confirm token code) s v new =
    kept_answer (confirm_mfa-Moves host inp s token code v)
perform-Moves host inp (issue_reset token id) s v new =
    kept_answer (issue_reset_token-Moves host inp s token id v)
perform-Moves host inp (reset seen secret pw) s v new =
    kept_answer (complete_reset-Moves host inp seen s secret pw v)
perform-Moves host inp (change seen token old pw) s v new =
    kept_answer (change_password-Moves host inp seen s token old pw v)
perform-Moves host inp (drop_mfa token id) s v new =
    kept_answer (reset_mfa-Moves host inp s token id v)
perform-Moves host inp (activate token id active) s v new =
    kept_answer (set_user_active-Moves host inp s token id active v)
perform-Moves host inp (assign token id names) s v new =
    kept_answer (set_user_roles-Moves host inp s token id names v)
perform-Moves host inp (colony token name) s v new =
    kept_answer (create_colony-Moves host inp s token name v λ id h. (new id h).1)
perform-Moves host inp (trust token id peer) s v new =
    kept_answer (trust_peer-Moves host inp s token id peer v)
perform-Moves host inp (user seen token req) s v new =
    kept_answer (create_user-Moves host inp seen s token req v λ id h. (new id h).2)
perform-Moves host inp (mint token req propose) s v new =
    kept_answer (mint_request-Moves host inp s token req propose v)
perform-Moves host inp (policy token id req) s v new =
    kept_answer (set_policy-Moves host inp s token id req v)
perform-Moves host inp (force_refund token id) s v new =
    kept_answer (propose_force_refund-Moves host inp s token id v)
perform-Moves host inp (decide token id approve) s v new =
    kept_answer (decide_approval-Moves host inp s token id approve v)
perform-Moves host inp (offer token req) s v new =
    kept_answer (create_offer-Moves host inp s token req v λ id h. (new id h).0)
perform-Moves host inp (accept token id) s v new =
    kept_answer (accept_trade-Moves host inp s token id v)
perform-Moves host inp (export token req) s v new =
    kept_answer (export_bundle-Moves host inp s token req v)
perform-Moves host inp (import token req) s v new =
    kept_answer (import_bundle-Moves host inp s token req v)
perform-Moves host inp (cancel token id) s v new =
    kept_answer (cancel_trade-Moves host inp s token id v)
perform-Moves host inp sweep s v new = kept_answer (sweep_expired-Moves host inp s v)

-- Valid, worth nothing more than was minted, and the file as the memory.
pub record IsSound (st : Store) : Type 0 where
  pub valid : IsValid st.state
  pub balanced : worth st.state ≃ℤ pos 0
  pub durable : st.file ≡ st.state

commit-IsSound :
    (call : Call) (f : AppState → Result AppError (Unit {0} × AppState)) (st : Store)
    (r : Result AppError (Unit {0}) × Store)
    → IsSound st
    → Ensures (λ (a : Unit {0} × AppState). Moves st.state (pos 0) a.1) (f st.state)
    → Committed call.time f st r
    → IsSound r.1
commit-IsSound call f st _ sound h (kept e) = sound
commit-IsSound call f st _ sound h (replaced out work e new same) =
    let moves =
      ensured_ok (subst (Ensures (λ (a : Unit {0} × AppState). Moves st.state (pos 0) a.1)) e h) in
    let stamped =
      frame-Moves work new (ap (λ (x : AppState). x.colonies) same)
        (ap (λ (x : AppState). x.trades) same)
        (subst (All IsProposed) (sym (ap (λ (x : AppState). x.pending_actions) same))
          moves.valid.proposed)
        moves.valid in
    record {
      valid = stamped.valid;
      balanced = omega (int_laws, moves.moved, stamped.moved, sound.balanced);
      durable = refl;
    }

pub Run-IsSound : (host : Host) (st st' : Store) → Run host st st' → IsSound st → IsSound st'
unfolding serve
Run-IsSound host st _ idle sound = sound
Run-IsSound host st _ (next call {mid} before new) sound =
    let reached = Run-IsSound host st mid before sound in
    commit-IsSound call (perform host call.inputs call.request) mid _ reached
      (perform-Moves host call.inputs call.request mid.state reached.valid new)
      (update-Committed call.saved call.time (perform host call.inputs call.request) mid)

-- What all colonies minted.
abbrev pub minted_of : Colony → ℤ
minted_of c = c.minted_total

sum_net : (m : Map Colony) → sum_by net m +ℤ sum_by minted_of m ≃ℤ sum_by balances m
unfolding net
sum_net [] = omega (
  int_laws,
  ≃ℤ_of_eq (sum_by-empty net),
  ≃ℤ_of_eq (sum_by-empty minted_of),
  ≃ℤ_of_eq (sum_by-empty balances),
)
sum_net (e ∷ m) = omega (
  int_laws,
  sum_net m,
  ≃ℤ_of_eq (sum_by-cons net e m),
  ≃ℤ_of_eq (sum_by-cons minted_of e m),
  ≃ℤ_of_eq (sum_by-cons balances e m),
)

empty_state-IsSound :
    (now : ℕ) → IsSound (record { state = new_empty_state now; file = new_empty_state now })
unfolding new_empty_state worth
empty_state-IsSound now = record {
  valid = record { funded = tt; priced = tt; proposed = tt; distinct = tt };
  balanced = omega (int_laws, ≃ℤ_of_eq (sum_by-empty net), ≃ℤ_of_eq (sum_by-empty escrow));
  durable = refl;
}

-- After any sequence of requests to a new store, with any outcome of each, all balances plus all
-- escrow add up to what was minted, every balance is funded and every supply within its cap, and
-- the file holds the state in memory; drawn identifiers are new at the time.
pub Run-balanced :
    (host : Host) (now : ℕ) (st : Store)
    → Run host (record { state = new_empty_state now; file = new_empty_state now }) st
    → (sum_by balances st.state.colonies +ℤ sum_by escrow st.state.trades
        ≃ℤ sum_by minted_of st.state.colonies)
      × All AreFunded st.state.colonies
      × (st.file ≡ st.state)
unfolding worth
Run-balanced host now st run =
    let sound = Run-IsSound host _ st run (empty_state-IsSound now) in
    (omega (int_laws, sound.balanced, sum_net st.state.colonies), sound.valid.funded, sound.durable)
