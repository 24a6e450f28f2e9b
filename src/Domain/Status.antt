-- ===== src/Domain/Status.antt =====
-- The trade state machine of backend/internal/domain/trade_state.go: the graph of transitions, the
-- search through it, and the classification of an imported step. A status is one of the nine that
-- the source names, since `AdvanceTrade` and the two constructors of trades write no other.
pub mod Reach
pub mod Table
use interstellar_trade_platf.Base.{
  ℕ, zero, suc, Bool, true, false, ◌||◌, List, [], ◌∷◌, ◌++◌, ◌==◌, if◌then◌else◌,
}

pub data Status : Type 0 where
  offer_pending_export offer_received acceptance_pending_export : Status
  settlement_pending_export completed refund_pending_export refunded expired cancelled : Status

abbrev pub index : Status → ℕ
index offer_pending_export = 0
index offer_received = 1
index acceptance_pending_export = 2
index settlement_pending_export = 3
index completed = 4
index refund_pending_export = 5
index refunded = 6
index expired = 7
index cancelled = 8

abbrev pub status_eq : Status → Status → Bool
status_eq s t = index s == index t

abbrev pub trade_transitions : Status → List Status
trade_transitions offer_pending_export = offer_received ∷ expired ∷ cancelled ∷ []
trade_transitions offer_received = acceptance_pending_export ∷ expired ∷ cancelled ∷ []
trade_transitions acceptance_pending_export =
    settlement_pending_export ∷ refund_pending_export ∷ refunded ∷ []
trade_transitions settlement_pending_export = completed ∷ []
trade_transitions refund_pending_export = refunded ∷ []
trade_transitions expired = refund_pending_export ∷ []
trade_transitions cancelled = refund_pending_export ∷ []
trade_transitions completed = []
trade_transitions refunded = []

-- IsEscrowed
unfoldable pub is_escrowed : Status → Bool
is_escrowed s = status_eq s acceptance_pending_export || status_eq s refund_pending_export

abbrev pub contains_status : List Status → Status → Bool
contains_status [] s = false
contains_status (x ∷ xs) s = status_eq x s || contains_status xs s

-- TransitionAllowed
unfoldable pub transition_allowed : Status → Status → Bool
transition_allowed from to = contains_status (trade_transitions from) to

-- The inner loop of `Reachable` on the successors of one state: `found` is its early return.
visit : Status → List Status → Bool × List Status × List Status → Bool × List Status × List Status
visit to [] acc = acc
visit to (n ∷ ns) (found, seen, queue) =
    if found
    then (found, seen, queue)
    else if status_eq n to
    then (true, seen, queue)
    else if contains_status seen n
    then visit to ns (found, seen, queue)
    else visit to ns (found, n ∷ seen, queue ++ n ∷ [])

-- The outer loop. Each status joins the queue at most once, so nine rounds empty it.
search_queue : ℕ → Status → List Status → List Status → Bool
unfolding visit
search_queue zero to seen queue = false
search_queue (suc fuel) to seen [] = false
search_queue (suc fuel) to seen (cur ∷ queue) =
    let (found, seen', queue') = visit to (trade_transitions cur) (false, seen, queue) in
    let rest = search_queue fuel to seen' queue' in if found then true else rest

-- Reachable
unfoldable pub reachable : Status → Status → Bool
unfolding search_queue
reachable from to = search_queue 10 to (from ∷ []) (from ∷ [])

pub data StepKind : Type 0 where
  step_apply step_duplicate step_too_early : StepKind

-- ClassifyStep
unfoldable pub classify_step : Status → Status → StepKind
classify_step status pred =
    if status_eq status pred
    then step_apply
    else if reachable status pred
    then step_too_early
    else step_duplicate
