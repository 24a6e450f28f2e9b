-- ===== src/Domain/Text.antt =====
-- Identifiers and texts. Identifiers, tokens, keys and signatures are only compared and tested for
-- emptiness, so they are numbers, with 0 for the empty string, in the order of the strings. Names and assets are lists of bytes;
-- `strings.TrimSpace` and `strings.ToLower` are those of ASCII text.
use interstellar_trade_platf.Base.{
  ℕ, ◌+◌, Bool, true, false, ◌&&◌, ◌||◌, List, [], ◌∷◌, leb, ◌==◌, if◌then◌else◌,
}
use mathlib.Core.List.{reverse, map}

abbrev pub Ident : Type 0
Ident = ℕ

abbrev pub empty : Ident
empty = 0

abbrev pub Text : Type 0
Text = List ℕ

abbrev is_space : ℕ → Bool
is_space c = c == b' ' || leb 9 c && leb c 13

abbrev trim_left : Text → Text
trim_left [] = []
trim_left (c ∷ cs) = if is_space c then trim_left cs else c ∷ cs

-- strings.TrimSpace
abbrev pub trim_space : Text → Text
trim_space t = reverse (trim_left (reverse (trim_left t)))

abbrev lower : ℕ → ℕ
lower c = if leb b'A' c && leb c b'Z' then c + 32 else c

-- strings.ToLower
abbrev pub to_lower : Text → Text
to_lower = map lower

abbrev pub is_empty : Text → Bool
is_empty [] = true
is_empty (c ∷ cs) = false

abbrev pub text_eq : Text → Text → Bool
text_eq [] [] = true
text_eq [] (d ∷ ds) = false
text_eq (c ∷ cs) [] = false
text_eq (c ∷ cs) (d ∷ ds) = c == d && text_eq cs ds

-- strings.EqualFold
abbrev pub equal_fold : Text → Text → Bool
equal_fold s t = text_eq (to_lower s) (to_lower t)
