-- ===== src/Service/Sweep/Closes.antt =====
-- What `SweepExpired` (backend/internal/service/trade_lifecycle.go) does to every trade.
use interstellar_trade_platf.Base.{
  ℕ, suc, ◌+◌, ◌≡◌, refl, sym, ap, ◌∙◌, true, false, Option, none, some, [], ◌∷◌, ◌==◌,
  if◌then◌else◌, arith, Bool-cases, inl, inr, ok, ◌>>=◌, bind_eq, ==-ne,
}
use interstellar_trade_platf.Base.Map.{
  Map, lookup, insert, Distinct, lookup-insert_ne, lookup-insert_self, lookup-head, lookup-tail,
  lookup-skip, lookup-nil,
}
use interstellar_trade_platf.Domain.Text.{Ident}
use interstellar_trade_platf.Domain.Status.{
  offer_pending_export, offer_received, expired, status_eq, transition_allowed,
}
use interstellar_trade_platf.Domain.Status.Table.{status_eq→≡}
use interstellar_trade_platf.Domain.State.{AppState, Trade}
use interstellar_trade_platf.Domain.Trade.{advance_trade}
use interstellar_trade_platf.Domain.Host.{Host, Inputs}
use interstellar_trade_platf.Service.Sweep.{
  due, due_count, expire_trade, sweep_trades, sweep_expired,
}

-- A due offer is expired, any other trade as it was.
abbrev pub closed : ℕ → Trade → Trade
closed now t = if due now t then record t { status = expired } else t

abbrev pub closed_if_found : ℕ → Option Trade → Option Trade
closed_if_found now none = none
closed_if_found now (some t) = some (closed now t)

-- The trades that the loop has still to visit are closed, the others stay.
abbrev visited : ℕ → Option Trade → Option Trade → Option Trade
visited now none rest = rest
visited now (some t) rest = some (closed now t)

due-advance_trade :
    (now : ℕ) (t : Trade)
    → due now t ≡ true
    → advance_trade t expired ≡ ok (record t { status = expired })
unfolding due advance_trade transition_allowed
due-advance_trade now t h = elim (Bool-cases (status_eq t.status offer_pending_export)) [
  | inl e ↦ rw (status_eq→≡ t.status offer_pending_export e) refl
  | inr e ↦ elim (Bool-cases (status_eq t.status offer_received)) [
    | inl f ↦ rw (status_eq→≡ t.status offer_received f) refl
    | inr f ↦ absurd (ground arith)
  ]
]

record Closes (host : Host) (inp : Inputs) (now i : ℕ) (m : Map Trade) (s : AppState) : Type 0 where
  after : AppState
  runs : sweep_trades host inp now i m s ≡ ok (i + due_count now m, after)
  trades : (k : Ident) → lookup k after.trades ≡ visited now (lookup k m) (lookup k s.trades)

expire_trade_lem :
    (host : Host) (t : ℕ) (key : Ident) (trade : Trade) (now : ℕ) (s : AppState)
    → due now trade ≡ true
    → (s' : AppState) × (expire_trade host t key trade s ≡ ok s')
      × (s'.trades ≡ insert key (record trade { status = expired }) s.trades)
unfolding expire_trade
expire_trade_lem host t key trade now s h = (_, bind_eq _ (due-advance_trade now trade h), refl)

sweep_trades-due :
    (host : Host) (inp : Inputs) (now i : ℕ) (e : Ident × Trade) (m : Map Trade) (s : AppState)
    → due now e.1 ≡ true
    → sweep_trades host inp now i (e ∷ m) s ≡ (
        expire_trade host (inp.now (suc i)) e.0 e.1 s >>= λ s'.
        sweep_trades host inp now (suc i) m s')
unfolding sweep_trades
sweep_trades-due host inp now i e m s h =
    ap
      (λ b. elim b [
        | true ↦ expire_trade host (inp.now (suc i)) e.0 e.1 s >>= λ s'.
            sweep_trades host inp now (suc i) m s'
        | false ↦ sweep_trades host inp now i m s
      ])
      h

sweep_trades-other :
    (host : Host) (inp : Inputs) (now i : ℕ) (e : Ident × Trade) (m : Map Trade) (s : AppState)
    → due now e.1 ≡ false
    → sweep_trades host inp now i (e ∷ m) s ≡ sweep_trades host inp now i m s
unfolding sweep_trades
sweep_trades-other host inp now i e m s h =
    ap
      (λ b. elim b [
        | true ↦ expire_trade host (inp.now (suc i)) e.0 e.1 s >>= λ s'.
            sweep_trades host inp now (suc i) m s'
        | false ↦ sweep_trades host inp now i m s
      ])
      h

-- The state after the entry was closed, seen from the entries behind it.
visited-due :
    (now : ℕ) (e : Ident × Trade) (m old : Map Trade) (k : Ident)
    → due now e.1 ≡ true
    → lookup e.0 m ≡ none
    → visited now (lookup k m) (lookup k (insert e.0 (record (e.1) { status = expired }) old))
      ≡ visited now (lookup k (e ∷ m)) (lookup k old)
visited-due now e m old k h absent = elim (Bool-cases (k == e.0)) [
  | inl here ↦
      let same : k ≡ e.0 = ground arith in
      let t = record (e.1) { status = expired } in
      let behind : lookup k m ≡ none = ap (λ j. lookup j m) same ∙ absent in
      let written : lookup k (insert e.0 t old) ≡ some t =
        ap (λ j. lookup j (insert e.0 t old)) same ∙ lookup-insert_self e.0 t old in
      let first : lookup k (e ∷ m) ≡ some e.1 = ap (λ j. lookup j (e ∷ m)) same ∙ lookup-head e m in
      rw (behind, written, first, h) refl
  | inr there ↦
      rw
        (
          lookup-skip e m k there,
          lookup-insert_ne k e.0 (record (e.1) { status = expired }) old (==-ne k e.0 there),
        )
        refl
]

visited-other :
    (now : ℕ) (e : Ident × Trade) (m old : Map Trade) (k : Ident)
    → due now e.1 ≡ false
    → lookup e.0 m ≡ none
    → lookup e.0 old ≡ some e.1
    → visited now (lookup k m) (lookup k old) ≡ visited now (lookup k (e ∷ m)) (lookup k old)
visited-other now e m old k h absent read = elim (Bool-cases (k == e.0)) [
  | inl here ↦
      let same : k ≡ e.0 = ground arith in
      let behind : lookup k m ≡ none = ap (λ j. lookup j m) same ∙ absent in
      let stands : lookup k old ≡ some e.1 = ap (λ j. lookup j old) same ∙ read in
      let first : lookup k (e ∷ m) ≡ some e.1 = ap (λ j. lookup j (e ∷ m)) same ∙ lookup-head e m in
      rw (behind, stands, first, h) refl
  | inr there ↦ rw (lookup-skip e m k there) refl
]

-- The trades of a list are in the state as they were read.
abbrev AreRead : Map Trade → Map Trade → Type 0
AreRead m old = (k : Ident) (t : Trade) → lookup k m ≡ some t → lookup k old ≡ some t

sweep_trades-Closes :
    (host : Host) (inp : Inputs) (now i : ℕ) (m : Map Trade) (s : AppState)
    → Distinct m
    → AreRead m s.trades
    → Closes host inp now i m s
unfolding sweep_trades due_count
sweep_trades-Closes host inp now i [] s d read = record {
  after = s;
  runs = ap (λ j. ok (j, s)) (omega arith);
  trades = λ k. ap (λ o. visited now o (lookup k s.trades)) (sym (lookup-nil k));
}
sweep_trades-Closes host inp now i (e ∷ m) s (absent, d) read = elim (Bool-cases (due now e.1)) [
  | inl h ↦
      let (s', ran, written) = expire_trade_lem host (inp.now (suc i)) e.0 e.1 now s h in
      let rest = sweep_trades-Closes host inp now (suc i) m s' d (λ k t found.
        let (ne, stands) = lookup-tail e m k t absent found in
        ap (lookup k) written ∙ lookup-insert_ne k e.0 _ s.trades ne ∙ read k t stands) in
      let counted : suc i + due_count now m ≡ i + due_count now (e ∷ m) = ground arith in
      record {
        after = rest.after;
        runs =
            sweep_trades-due host inp now i e m s h
            ∙ bind_eq _ ran
            ∙ rest.runs
            ∙ ap (λ j. ok (j, rest.after)) counted;
        trades = λ k.
            rest.trades k
            ∙ ap (λ ts. visited now (lookup k m) (lookup k ts)) written
            ∙ visited-due now e m s.trades k h absent;
      }
  | inr h ↦
      let rest =
        sweep_trades-Closes host inp now i m s d
          (λ k t found. read k t (lookup-tail e m k t absent found).1) in
      let counted : i + due_count now m ≡ i + due_count now (e ∷ m) = ground arith in
      record {
        after = rest.after;
        runs =
            sweep_trades-other host inp now i e m s h
            ∙ rest.runs
            ∙ ap (λ j. ok (j, rest.after)) counted;
        trades = λ k.
            rest.trades k
            ∙ visited-other now e m s.trades k h absent (read e.0 e.1 (lookup-head e m));
      }
]

due-closed : (now : ℕ) (t : Trade) → due now (closed now t) ≡ false
unfolding due
due-closed now t = elim (Bool-cases (due now t)) [ inl h ↦ rw h refl | inr h ↦ rw h h ]

-- What the sweep leaves: the same trades, the due ones expired, and none that is due.
pub record SweepsAll (inp : Inputs) (s : AppState) (closes : ℕ) (s' : AppState) : Type 0 where
  pub counted : closes ≡ due_count (inp.now 0) s.trades
  pub trades : (k : Ident) → lookup k s'.trades ≡ closed_if_found (inp.now 0) (lookup k s.trades)
  pub none_due : (k : Ident) (t : Trade) → lookup k s'.trades ≡ some t → due (inp.now 0) t ≡ false

visited_all : (now : ℕ) (o : Option Trade) → visited now o o ≡ closed_if_found now o
visited_all now none = refl
visited_all now (some t) = refl

not_due_after :
    (now : ℕ) (o : Option Trade) (t : Trade) → closed_if_found now o ≡ some t → due now t ≡ false
not_due_after now none t h = absurd (cc)
not_due_after now (some u) t h =
    let same : closed now u ≡ t = cc in ap (due now) (sym same) ∙ due-closed now u

SweepsAll-closed :
    (inp : Inputs) (s s' : AppState) (closes : ℕ)
    → closes ≡ due_count (inp.now 0) s.trades
    → ((k : Ident) → lookup k s'.trades ≡ closed_if_found (inp.now 0) (lookup k s.trades))
    → SweepsAll inp s closes s'
SweepsAll-closed inp s s' closes counted trades = record {
  counted = counted;
  trades = trades;
  none_due = λ k t found. not_due_after (inp.now 0) (lookup k s.trades) t (sym (trades k) ∙ found);
}

none_due-closed :
    (now : ℕ) (m : Map Trade) (k : Ident)
    → due_count now m ≡ 0
    → lookup k m ≡ closed_if_found now (lookup k m)
unfolding due_count lookup
none_due-closed now [] k h = refl
none_due-closed now (e ∷ m) k h = ground (arith, none_due-closed now m k)

-- Where no identifier of a trade occurs twice, the expiry sweep succeeds, counts the offers that
-- are due, gives each of them the closed status, leaves every other trade as it is, and no trade
-- is due afterwards.
pub sweep_expired-SweepsAll :
    (host : Host) (inp : Inputs) (s : AppState)
    → Distinct s.trades
    → (closes : ℕ) × (s' : AppState) × (sweep_expired host inp s ≡ ok (closes, s'))
      × SweepsAll inp s closes s'
unfolding sweep_expired
sweep_expired-SweepsAll host inp s d = elim (Bool-cases (due_count (inp.now 0) s.trades == 0)) [
  | inl e ↦
      let nothing : due_count (inp.now 0) s.trades ≡ 0 = ground arith in
      (
        0,
        s,
        rw e refl,
        SweepsAll-closed inp s s 0 (sym nothing)
            λ k. none_due-closed (inp.now 0) s.trades k nothing,
      )
  | inr e ↦
      let c = sweep_trades-Closes host inp (inp.now 0) 0 s.trades s d (λ k t h. h) in
      (
        due_count (inp.now 0) s.trades,
        c.after,
        rw e (c.runs ∙ ap (λ j. ok (j, c.after)) (omega arith)),
        SweepsAll-closed inp s c.after _ refl
            λ k. c.trades k ∙ visited_all (inp.now 0) (lookup k s.trades),
      )
]
