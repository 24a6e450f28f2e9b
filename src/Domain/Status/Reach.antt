-- ===== src/Domain/Status/Reach.antt =====
-- `Reachable` of backend/internal/domain/trade_state.go against the transitive closure of the graph.
use interstellar_trade_platf.Base.{
  ℕ, zero, suc, ◌≡◌, refl, subst, ◌⊎◌, ◌↔◌, inl, inr, Bool, true, false, not, ◌&&◌, ◌||◌, List, [],
  ◌∷◌, ◌++◌, arith, Bool-cases,
}
use interstellar_trade_platf.Domain.Status.{
  Status, trade_transitions, contains_status, transition_allowed, visit, search_queue, reachable,
  status_eq,
}
use interstellar_trade_platf.Domain.Status.Table.{
  for_all, for_all_sound, status_eq→≡, status_eq_self,
}

-- At least one allowed transition leads from one status to the other.
pub data Reaches : Status → Status → Type 0 where
  once : {s t : Status} → transition_allowed s t ≡ true → Reaches s t
  more : {s t u : Status} → transition_allowed s t ≡ true → Reaches t u → Reaches s u

Reaches-snoc : {s t u : Status} → Reaches s t → transition_allowed t u ≡ true → Reaches s u
Reaches-snoc (once a) b = more a (once b)
Reaches-snoc (more a r) b = more a (Reaches-snoc r b)

abbrev Each : (Status → Type 0) → List Status → Type 0
Each P [] = Unit
Each P (x ∷ xs) = P x × Each P xs

Each-snoc :
    (P : Status → Type 0) (x : Status) (xs : List Status) → Each P xs → P x → Each P (xs ++ x ∷ [])
Each-snoc P x [] h p = (p, tt)
Each-snoc P x (y ∷ ys) h p = (h.0, Each-snoc P x ys h.1 p)

-- The successors of a status are the ones to which it may go.
Each-of_contains :
    (P : Status → Type 0) (xs : List Status)
    → ((t : Status) → contains_status xs t ≡ true → P t)
    → Each P xs
Each-of_contains P [] h = tt
Each-of_contains P (x ∷ xs) h =
    (h x (ground (arith, status_eq_self x)), Each-of_contains P xs (λ t e. h t (ground arith)))

module _ (from to : Status) where
  -- The queue holds the start and states that it reaches.
  abbrev Queued : Status → Type 0
  Queued x = (x ≡ from) ⊎ Reaches from x

  next-Reaches :
      (cur : Status) → Queued cur → (t : Status) → transition_allowed cur t ≡ true → Reaches from t
  next-Reaches cur (inl e) t h = once (rw e at h)
  next-Reaches cur (inr r) t h = Reaches-snoc r h

  abbrev IsSound : Bool × List Status × List Status → Type 0
  IsSound (found, seen, queue) = Each Queued queue × (found ≡ true → Reaches from to)

  visit-IsSound :
      (ns : List Status) (acc : Bool × List Status × List Status)
      → Each (Reaches from) ns
      → IsSound acc
      → IsSound (visit to ns acc)
  unfolding visit
  visit-IsSound [] acc h s = s
  visit-IsSound (n ∷ ns) (true, seen, queue) h s = s
  visit-IsSound (n ∷ ns) (false, seen, queue) h s = elim (Bool-cases (status_eq n to)) [
    | inl e ↦ rw (e, visit) (s.0, λ _. subst (Reaches from) (status_eq→≡ n to e) h.0)
    | inr e ↦ elim (Bool-cases (contains_status seen n)) [
      | inl c ↦ rw (e, c) (visit-IsSound ns (false, seen, queue) h.1 s)
      | inr c ↦
          rw (e, c)
            (visit-IsSound ns (false, n ∷ seen, queue ++ n ∷ []) h.1
              (Each-snoc Queued n queue s.0 (inr h.0), λ q. cc))
    ]
  ]

  search_queue-Reaches :
      (fuel : ℕ) (seen queue : List Status)
      → Each Queued queue
      → search_queue fuel to seen queue ≡ true
      → Reaches from to
  unfolding search_queue
  search_queue-Reaches zero seen queue h e = cc
  search_queue-Reaches (suc fuel) seen [] h e = cc
  search_queue-Reaches (suc fuel) seen (cur ∷ queue) h e =
      let successors : Each (Reaches from) (trade_transitions cur) =
        Each-of_contains (Reaches from) (trade_transitions cur)
          (λ t c. next-Reaches cur h.0 t (unfold transition_allowed in c)) in
      let v = visit to (trade_transitions cur) (false, seen, queue) in
      let s =
        visit-IsSound (trade_transitions cur) (false, seen, queue) successors (h.1, λ q. cc) in
      elim (Bool-cases v.0) [
        | inl found ↦ s.1 found
        | inr other ↦ search_queue-Reaches fuel v.1 v.2 s.0 (rw other at e)
      ]

reachable-Reaches : (from to : Status) → reachable from to ≡ true → Reaches from to
unfolding reachable
reachable-Reaches from to h =
    search_queue-Reaches from to 10 (from ∷ []) (from ∷ []) (inl refl, tt) h

-- Checked on all pairs and triples of statuses.
abbrev step_holds : Status → Status → Status → Bool
step_holds a b c = not (transition_allowed a b && reachable b c) || reachable a c

abbrev once_holds : Status → Status → Bool
once_holds a b = not (transition_allowed a b) || reachable a b

step_table : for_all (λ a. for_all (λ b. for_all (λ c. step_holds a b c))) ≡ true
unfolding for_all transition_allowed reachable
step_table = refl

once_table : for_all (λ a. for_all (λ b. once_holds a b)) ≡ true
unfolding for_all transition_allowed reachable
once_table = refl

once-reachable : (a b : Status) → transition_allowed a b ≡ true → reachable a b ≡ true
once-reachable a b h = ground (
  arith,
  for_all_sound (λ y. once_holds a y)
      (for_all_sound (λ x. for_all (λ y. once_holds x y)) once_table a) b,
)

more-reachable :
    (a b c : Status) → transition_allowed a b ≡ true → reachable b c ≡ true → reachable a c ≡ true
more-reachable a b c h r = ground (
  arith,
  for_all_sound (λ z. step_holds a b z)
      (for_all_sound (λ y. for_all (λ z. step_holds a y z))
        (for_all_sound (λ x. for_all (λ y. for_all (λ z. step_holds x y z))) step_table a) b)
      c,
)

Reaches-reachable : {from to : Status} → Reaches from to → reachable from to ≡ true
Reaches-reachable (once {s} {t} a) = once-reachable s t a
Reaches-reachable (more {s} {t} {u} a r) = more-reachable s t u a (Reaches-reachable r)

-- The breadth-first search answers true exactly for the states that one or more allowed
-- transitions lead to.
pub reachable_iff : (from to : Status) → (reachable from to ≡ true) ↔ Reaches from to
reachable_iff from to = (reachable-Reaches from to, Reaches-reachable)
