-- ===== src/Domain/Order.antt =====
-- The order of strings, and the sorting of views: `SortTrades`, `SortUsers`, `SortColonies` and
-- `SortAccounts` of backend/internal/domain/util.go.
use interstellar_trade_platf.Base.{
  Bool, true, false, ◌&&◌, ◌||◌, List, [], ◌∷◌, ◌≡◌, refl, ltb, ◌==◌, if◌then◌else◌, arith,
}
use interstellar_trade_platf.Base.Sort.{sort_slice}
use interstellar_trade_platf.Domain.Text.{Ident, Text, text_eq}
use interstellar_trade_platf.Domain.Clock.{Stamp, blank, garbled, at, stamp_eq}
use interstellar_trade_platf.Domain.Views.{UserView, ColonyView, AccountView, TradeView}

-- `<` on texts, byte by byte
unfoldable pub text_before : Text → Text → Bool
text_before s [] = false
text_before [] (d ∷ ds) = true
text_before (c ∷ cs) (d ∷ ds) = ltb c d || c == d && text_before cs ds

-- `<` on the texts of timestamps, of times in the four-digit years. A text that is no timestamp is
-- put behind those that are, in the order of its number.
unfoldable pub stamp_before : Stamp → Stamp → Bool
stamp_before s blank = false
stamp_before blank (garbled n) = true
stamp_before blank (at t) = true
stamp_before (garbled m) (garbled n) = ltb m n
stamp_before (garbled m) (at t) = false
stamp_before (at s) (garbled n) = true
stamp_before (at s) (at t) = ltb s t

-- `>` on the times, then `>` on the identifiers
unfoldable pub newer : Stamp → Ident → Stamp → Ident → Bool
newer s i t j = if stamp_eq s t then ltb j i else stamp_before t s

unfoldable pub trade_before : TradeView → TradeView → Bool
trade_before a b = newer a.created_at a.id b.created_at b.id

unfoldable pub user_before : UserView → UserView → Bool
user_before a b =
    if a.colony_id == b.colony_id
    then text_before a.username b.username
    else ltb a.colony_id b.colony_id

unfoldable pub colony_before : ColonyView → ColonyView → Bool
colony_before a b = text_before a.name b.name

unfoldable pub account_before : AccountView → AccountView → Bool
account_before a b =
    if text_eq a.colony_name b.colony_name
    then text_before a.username b.username
    else text_before a.colony_name b.colony_name

-- SortTrades
unfoldable pub sort_trades : List TradeView → List TradeView
sort_trades = sort_slice trade_before

-- SortUsers
unfoldable pub sort_users : List UserView → List UserView
sort_users = sort_slice user_before

-- SortColonies
unfoldable pub sort_colonies : List ColonyView → List ColonyView
sort_colonies = sort_slice colony_before

-- SortAccounts
unfoldable pub sort_accounts : List AccountView → List AccountView
sort_accounts = sort_slice account_before

-- Two different items are not each before the other.
text_before_asym : (s t : Text) → text_before s t ≡ true → text_before t s ≡ false
unfolding text_before
text_before_asym [] [] h = refl
text_before_asym [] (d ∷ ds) h = refl
text_before_asym (c ∷ cs) [] h = absurd (ground arith)
text_before_asym (c ∷ cs) (d ∷ ds) h = ground (arith, text_before_asym cs ds)

stamp_before_asym : (s t : Stamp) → stamp_before s t ≡ true → stamp_before t s ≡ false
unfolding stamp_before
stamp_before_asym blank blank h = refl
stamp_before_asym blank (garbled n) h = refl
stamp_before_asym blank (at t) h = refl
stamp_before_asym (garbled m) blank h = absurd (ground arith)
stamp_before_asym (garbled m) (garbled n) h = ground arith
stamp_before_asym (garbled m) (at t) h = absurd (ground arith)
stamp_before_asym (at s) blank h = absurd (ground arith)
stamp_before_asym (at s) (garbled n) h = refl
stamp_before_asym (at s) (at t) h = ground arith

stamp_eq_sym : (s t : Stamp) → stamp_eq s t ≡ stamp_eq t s
stamp_eq_sym blank blank = refl
stamp_eq_sym blank (garbled n) = refl
stamp_eq_sym blank (at t) = refl
stamp_eq_sym (garbled m) blank = refl
stamp_eq_sym (garbled m) (garbled n) = ground arith
stamp_eq_sym (garbled m) (at t) = refl
stamp_eq_sym (at s) blank = refl
stamp_eq_sym (at s) (garbled n) = refl
stamp_eq_sym (at s) (at t) = ground arith

pub newer_asym :
    (s : Stamp) (i : Ident) (t : Stamp) (j : Ident) → newer s i t j ≡ true → newer t j s i ≡ false
unfolding newer
newer_asym s i t j h = ground (arith, stamp_eq_sym s t, stamp_before_asym t s)

pub trade_before_asym : (a b : TradeView) → trade_before a b ≡ true → trade_before b a ≡ false
unfolding trade_before
trade_before_asym a b = newer_asym a.created_at a.id b.created_at b.id
