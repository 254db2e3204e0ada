-- ===== src/OrderService/Symbols.antt =====
-- `splitSymbol` of internal/order/service.go.
use Prim.Native.Char.{Char, code}
use cyptocurrency_exchange_b.Prelude.{
  ℕ, ◌+◌, String, Option, none, some, List, [], ◌∷◌, ◌==◌, if◌then◌else◌, ◌≡◌, refl,
}

-- one more character in front of the first part
abbrev onto_first : Char → List String → List String
onto_first c [] = []
onto_first c (part ∷ parts) = String.◌∷◌ c part ∷ parts

-- `strings.Split(symbol, "-")` of the standard library
unfoldable pub split_dash : String → List String
split_dash String.[] = "" ∷ []
split_dash (String.◌∷◌ c s) =
    let rest = split_dash s in if code c == b'-' then "" ∷ rest else onto_first c rest

abbrev pub two_parts : List String → Option (String × String)
two_parts (base ∷ quote ∷ []) = some (base, quote)
two_parts _ = none

-- The base and the quote currency; `none` is the error.
unfoldable pub split_symbol : String → Option (String × String)
unfolding split_dash
split_symbol symbol = two_parts (split_dash symbol)

-- the letter at the place that the character's code has in the alphabet, if it has one
abbrev letter : Char → ℕ → String → Char
letter c n String.[] = c
letter c n (String.◌∷◌ d ds) = let rest = letter c (n + 1) ds in if code c == n then d else rest

-- `strings.ToUpper` of the standard library, on ASCII letters; other characters stay as they are
unfoldable pub to_upper : String → String
to_upper String.[] = ""
to_upper (String.◌∷◌ c s) = String.◌∷◌ (letter c b'a' "ABCDEFGHIJKLMNOPQRSTUVWXYZ") (to_upper s)

split_symbol-btc : split_symbol "BTC-USD" ≡ some ("BTC", "USD")
unfolding split_symbol
split_symbol-btc = refl

to_upper-btc : to_upper "btc-Usd" ≡ "BTC-USD"
unfolding to_upper
to_upper-btc = refl
