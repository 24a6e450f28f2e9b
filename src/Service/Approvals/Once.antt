-- ===== src/Service/Approvals/Once.antt =====
-- Who decides a proposal, and when: `DecideApproval` of backend/internal/service/approvals.go.
use interstellar_trade_platf.Base.{
  ◌≡◌, ◌≢◌, refl, Bool, true, false, some, true_of_not, ==-ne, Ensures, on_ok, Ensures-bind,
  Ensures-guard, Ensures-or_fail, if◌then◌else◌,
}
use interstellar_trade_platf.Base.Map.{lookup, lookup-insert_self}
use interstellar_trade_platf.Domain.Text.{Ident}
use interstellar_trade_platf.Domain.State.{AppState, PendingAction, approved, rejected}
use interstellar_trade_platf.Domain.Host.{Host, Inputs}
use interstellar_trade_platf.Service.Approvals.{is_pending, decide_approval}

-- What stands after a decision: the action was pending, someone other than its proposer who may manage
-- its colony decided it, and it is stored as decided.
pub record IsDecided (s : AppState) (id : Ident) (pa : PendingAction) (s' : AppState) : Type 0 where
  pub before : PendingAction
  pub found : lookup id s.pending_actions ≡ some before
  pub was_pending : is_pending before.status ≡ true
  pub another : pa.decided_by ≢ pa.proposed_by
  pub same_proposer : pa.proposed_by ≡ before.proposed_by
  pub stored : lookup id s'.pending_actions ≡ some pa
  pub decided : is_pending pa.status ≡ false

decision-not_pending :
    (approve : Bool) → is_pending (if approve then approved else rejected) ≡ false
unfolding is_pending
decision-not_pending true = refl
decision-not_pending false = refl

-- A decision succeeds only on a pending action, is made by someone other than its proposer, and
-- leaves the action stored and no longer pending.
pub decide_approval-IsDecided :
    (host : Host) (inp : Inputs) (s : AppState) (token id : Ident) (approve : Bool)
    → Ensures
        (λ (r : PendingAction × AppState). IsDecided s id r.0 r.1)
        (decide_approval host inp s token id approve)
unfolding decide_approval
decide_approval-IsDecided host inp s token id approve = Ensures-bind λ actor _.
    Ensures-or_fail _ λ pa found. Ensures-guard _ _ λ _. Ensures-guard _ _ λ other.
      Ensures-guard _ _ λ undecided. Ensures-guard _ _ λ _. Ensures-or_fail _ λ colony _.
        Ensures-bind λ executed _. on_ok (record {
          before = pa;
          found = found;
          was_pending = true_of_not _ undecided;
          another = ==-ne actor.id pa.proposed_by other;
          same_proposer = refl;
          stored = lookup-insert_self id _ executed.pending_actions;
          decided = decision-not_pending approve;
        })
