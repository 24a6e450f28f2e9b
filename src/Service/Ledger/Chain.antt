-- ===== src/Service/Ledger/Chain.antt =====
-- The hash chain that `appendLedger` of backend/internal/service/common.go writes.
use interstellar_trade_platf.Base.{
  ℕ, suc, ◌+◌, ◌≡◌, refl, ap, ◌∙◌, sym, arith, Bool-cases, inl, inr, some, List, [], ◌∷◌, ◌++◌,
  ◌==◌, get_last?, length,
}
use interstellar_trade_platf.Domain.Text.{Ident, empty}
use interstellar_trade_platf.Domain.State.{EntryType, Detail, LedgerEntry, Colony}
use interstellar_trade_platf.Domain.Host.{Host, Preimage}
use interstellar_trade_platf.Service.Ledger.{
  preimage, last_hash, previous_hash, next_entry, append_ledger,
}

-- Entries of one colony that follow an entry with this hash and number, each linked to the one before.
abbrev pub IsChain : Host → Ident → Ident → ℕ → List LedgerEntry → Type 0
IsChain host id prev n [] = Unit
IsChain host id prev n (e ∷ l) =
    (e.colony_id ≡ id)
    × (e.prev_hash ≡ prev)
    × (e.seq ≡ suc n)
    × (e.hash ≡ host.digest (preimage e))
    × IsChain host id e.hash (suc n) l

-- The ledger is a chain from its first entry, and the colony holds its length and its last hash.
pub record IsLedgered (host : Host) (c : Colony) : Type 0 where
  pub chained : IsChain host c.id empty 0 c.ledger
  pub counted : c.next_ledger_seq ≡ length c.ledger
  pub headed : c.last_ledger_hash ≡ last_hash c.ledger

-- The hash of the last entry, or else the hash that the entries follow.
hash_from : Ident → List LedgerEntry → Ident
hash_from prev [] = prev
hash_from prev (e ∷ l) = hash_from e.hash l

last_of : LedgerEntry → List LedgerEntry → LedgerEntry
last_of e [] = e
last_of e (f ∷ l) = last_of f l

get_last_of : (e : LedgerEntry) (l : List LedgerEntry) → get_last? (e ∷ l) ≡ some (last_of e l)
unfolding last_of
get_last_of e [] = refl
get_last_of e (f ∷ l) = rw (get_last_of f l) refl

hash_of_last : (e : LedgerEntry) (l : List LedgerEntry) → (last_of e l).hash ≡ hash_from e.hash l
unfolding last_of hash_from
hash_of_last e [] = refl
hash_of_last e (f ∷ l) = hash_of_last f l

last_hash_lem : (l : List LedgerEntry) → last_hash l ≡ hash_from empty l
unfolding last_hash hash_from
last_hash_lem [] = refl
last_hash_lem (e ∷ l) = rw (last_hash, get_last_of e l) (hash_of_last e l)

extend-IsChain :
    (host : Host) (id prev : Ident) (n : ℕ) (l : List LedgerEntry) (e : LedgerEntry)
    → IsChain host id prev n l
    → e.colony_id ≡ id
    → e.prev_hash ≡ hash_from prev l
    → e.seq ≡ suc (n + length l)
    → e.hash ≡ host.digest (preimage e)
    → IsChain host id prev n (l ++ e ∷ [])
unfolding hash_from
extend-IsChain host id prev n [] e h own link seq hash = (own, link, seq ∙ ground arith, hash, tt)
extend-IsChain host id prev n (x ∷ l) e (own', link', seq', hash', rest) own link seq hash = (
  own',
  link',
  seq',
  hash',
  extend-IsChain host id x.hash (suc n) l e rest own link (seq ∙ ground arith) hash,
)

hash_from_extend :
    (prev : Ident) (l : List LedgerEntry) (e : LedgerEntry) → hash_from prev (l ++ e ∷ []) ≡ e.hash
unfolding hash_from
hash_from_extend prev [] e = refl
hash_from_extend prev (x ∷ l) e = hash_from_extend x.hash l e

length_extend : (l : List LedgerEntry) (e : LedgerEntry) → length (l ++ e ∷ []) ≡ suc (length l)
length_extend [] e = refl
length_extend (x ∷ l) e = ap suc (length_extend l e)

-- The hash that the next entry links to is that of the last entry.
linked : (host : Host) (c : Colony) → IsLedgered host c → previous_hash c ≡ last_hash c.ledger
unfolding previous_hash
linked host c h = elim (Bool-cases (c.last_ledger_hash == empty)) [
  | inl e ↦ rw e refl
  | inr e ↦ rw e h.headed
]

-- Appending an entry to a well-formed ledger gives a well-formed ledger: each entry holds the hash
-- of the one before, its number, from 1 without gaps, and the hash of its own fields.
pub append_ledger-IsLedgered :
    (host : Host) (t : ℕ) (c : Colony) (kind : EntryType) (actor_id : Ident) (detail : Detail)
    → IsLedgered host c
    → IsLedgered host (append_ledger host t c kind actor_id detail)
unfolding append_ledger next_entry preimage
append_ledger-IsLedgered host t c kind actor_id detail h =
    let e = next_entry host t c kind actor_id detail in
    record {
      chained =
          extend-IsChain host c.id empty 0 c.ledger e h.chained refl
            (linked host c h ∙ last_hash_lem c.ledger) (ap suc h.counted ∙ ground arith) refl;
      counted = ap suc h.counted ∙ sym (length_extend c.ledger e);
      headed = sym (last_hash_lem (c.ledger ++ e ∷ []) ∙ hash_from_extend empty c.ledger e);
    }

-- No entry of one ledger has the digest of a different entry of the other.
abbrev pub DiffersFrom : Host → LedgerEntry → List LedgerEntry → Type 0
DiffersFrom host e [] = Unit
DiffersFrom host e (f ∷ l) =
    (host.digest (preimage e) ≡ host.digest (preimage f) → preimage e ≡ preimage f)
    × DiffersFrom host e l

abbrev pub HasNoCollision : Host → List LedgerEntry → List LedgerEntry → Type 0
HasNoCollision host [] m = Unit
HasNoCollision host (e ∷ l) m = DiffersFrom host e m × HasNoCollision host l m

drop_first :
    (host : Host) (f : LedgerEntry) (l m : List LedgerEntry)
    → HasNoCollision host l (f ∷ m)
    → HasNoCollision host l m
drop_first host f [] m h = tt
drop_first host f (e ∷ l) m h = (h.0.1, drop_first host f l m h.1)

abbrev rebuild : Preimage → Ident → LedgerEntry
rebuild p hash = record {
  seq = p.seq;
  colony_id = p.colony_id;
  time = p.time;
  kind = p.kind;
  actor_user_id = p.actor_user_id;
  payload = p.payload;
  prev_hash = p.prev_hash;
  hash = hash;
}

entry_eq : (e f : LedgerEntry) → preimage e ≡ preimage f → e.hash ≡ f.hash → e ≡ f
unfolding preimage
entry_eq e f same hash = ap (λ p. rebuild p e.hash) same ∙ ap (rebuild (preimage f)) hash

prev_of : (e f : LedgerEntry) → preimage e ≡ preimage f → e.prev_hash ≡ f.prev_hash
unfolding preimage
prev_of e f same = ap (λ (p : Preimage). p.prev_hash) same

-- Two chains of the same length that end in the same hash are the same, and follow the same hash.
same_chain :
    (host : Host) (id id' prev prev' : Ident) (n n' : ℕ) (l m : List LedgerEntry)
    → IsChain host id prev n l
    → IsChain host id' prev' n' m
    → HasNoCollision host l m
    → length l ≡ length m
    → hash_from prev l ≡ hash_from prev' m
    → (l ≡ m) × (prev ≡ prev')
unfolding hash_from
same_chain host id id' prev prev' n n' [] [] h k apart len hash = (refl, hash)
same_chain host id id' prev prev' n n' [] (f ∷ m) h k apart len hash = ground arith
same_chain host id id' prev prev' n n' (e ∷ l) [] h k apart len hash = ground arith
same_chain host id id' prev prev' n n' (e ∷ l) (f ∷ m) (_, link, _, hashed, rest)
      (_, link', _, hashed', rest') apart len hash =
    let (tails, heads) =
      same_chain host id id' e.hash f.hash (suc n) (suc n') l m rest rest'
        (drop_first host f l m apart.1) (ground arith) hash in
    let same = apart.0.0 (sym hashed ∙ heads ∙ hashed') in
    (
      ap (λ x. x ∷ l) (entry_eq e f same heads) ∙ ap (λ x. f ∷ x) tails,
      sym link ∙ prev_of e f same ∙ link',
    )

-- Two colonies with well-formed ledgers that agree on the number of the last entry and on the last
-- hash have the same entries, unless an entry of one has the digest of a different entry of the
-- other.
pub same_head-same_ledger :
    (host : Host) (c d : Colony)
    → IsLedgered host c
    → IsLedgered host d
    → HasNoCollision host c.ledger d.ledger
    → c.next_ledger_seq ≡ d.next_ledger_seq
    → c.last_ledger_hash ≡ d.last_ledger_hash
    → c.ledger ≡ d.ledger
same_head-same_ledger host c d h k apart seq head =
    (same_chain host c.id d.id empty empty 0 0 c.ledger d.ledger h.chained k.chained apart
      (sym h.counted ∙ seq ∙ k.counted)
      (sym (last_hash_lem c.ledger) ∙ sym h.headed ∙ head ∙ k.headed ∙ last_hash_lem d.ledger)).0
