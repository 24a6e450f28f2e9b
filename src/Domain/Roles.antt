-- ===== src/Domain/Roles.antt =====
-- `NormalizeRoles` of backend/internal/domain/util.go.
pub mod Sorted
use interstellar_trade_platf.Base.{
  ℕ, Bool, false, ◌||◌, Option, none, some, List, [], ◌∷◌, ◌++◌, if◌then◌else◌, leb, ◌==◌,
}
use interstellar_trade_platf.Domain.Text.{Text, trim_space, to_lower, text_eq}
use interstellar_trade_platf.Domain.State.{
  Role, super_admin, colony_admin, trader, relay_operator, other_role,
}

abbrev super_admin_name : Text
super_admin_name = b's' ∷ b'u' ∷ b'p' ∷ b'e' ∷ b'r' ∷ b'_' ∷ b'a' ∷ b'd' ∷ b'm' ∷ b'i' ∷ b'n' ∷ []

abbrev colony_admin_name : Text
colony_admin_name =
    b'c' ∷ b'o' ∷ b'l' ∷ b'o' ∷ b'n' ∷ b'y' ∷ b'_' ∷ b'a' ∷ b'd' ∷ b'm' ∷ b'i' ∷ b'n' ∷ []

abbrev trader_name : Text
trader_name = b't' ∷ b'r' ∷ b'a' ∷ b'd' ∷ b'e' ∷ b'r' ∷ []

abbrev relay_operator_name : Text
relay_operator_name =
    b'r' ∷ b'e' ∷ b'l' ∷ b'a' ∷ b'y' ∷ b'_' ∷ b'o' ∷ b'p' ∷ b'e' ∷ b'r' ∷ b'a' ∷ b't' ∷ b'o' ∷ b'r'
    ∷ []

-- The four names that the `switch` accepts.
unfoldable pub role_named : Text → Option Role
role_named t =
    if text_eq t super_admin_name
    then some super_admin
    else if text_eq t colony_admin_name
    then some colony_admin
    else if text_eq t trader_name
    then some trader
    else if text_eq t relay_operator_name
    then some relay_operator
    else none

-- The place of a role's name in alphabetical order.
abbrev pub rank : Role → ℕ
rank colony_admin = 0
rank other_role = 1
rank relay_operator = 2
rank super_admin = 3
rank trader = 4

abbrev pub seen : Role → List Role → Bool
seen r [] = false
seen r (x ∷ xs) = rank x == rank r || seen r xs

abbrev take_role : Option Role → List Role → List Role
take_role none out = out
take_role (some r) out = if seen r out then out else out ++ r ∷ []

-- The loop; what is out is also what is seen.
unfoldable pub collect_roles : List Text → List Role → List Role
collect_roles [] out = out
collect_roles (t ∷ ts) out = collect_roles ts (take_role (role_named (trim_space (to_lower t))) out)

unfoldable pub insert_role : Role → List Role → List Role
insert_role r [] = r ∷ []
insert_role r (x ∷ xs) = if leb (rank r) (rank x) then r ∷ x ∷ xs else x ∷ insert_role r xs

-- sort.Strings
unfoldable pub sort_roles : List Role → List Role
sort_roles [] = []
sort_roles (r ∷ rs) = insert_role r (sort_roles rs)

unfoldable pub normalize_roles : List Text → List Role
normalize_roles ts = sort_roles (collect_roles ts [])
