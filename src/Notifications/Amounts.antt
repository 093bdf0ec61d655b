-- ===== src/Notifications/Amounts.antt =====
-- The amounts in a message, `formatAtomic` and `chainUnits` of internal/notifications/wecom.go.
pub mod RoundTrip
use wallet_scan.Prelude.{
  ℕ, zero, suc, ◌+◌, ◌-◌, ◌*◌, ◌/◌, ◌%◌, ◌^◌, Bool, true, false, ◌&&◌, ◌||◌, Option, none, some,
  List, [], ◌∷◌, ◌++◌, ◌==◌, nat_eq, ltb, leb, if◌then◌else◌, take, drop, replicate, length,
}
use wallet_scan.Prelude.Int.{ℤ, pos, negsuc}
use wallet_scan.Prelude.Texts.{Text, codes, text_eq, all_bytes, trim_right}
use wallet_scan.Domain.{
  chain_btc, chain_ethereum, chain_arbitrum, chain_bsc, chain_solana, chain_tron,
}

unfoldable pub is_digit : ℕ → Bool
is_digit c = leb b'0' c && leb c b'9'

-- The number that decimal digits spell.
unfoldable pub value : Text → ℕ
value [] = 0
value (c ∷ s) = (c - b'0') * 10 ^ length s + value s

abbrev pub number_of : Text → Option ℕ
number_of [] = none
number_of (c ∷ s) = if all_bytes is_digit (c ∷ s) then some (value (c ∷ s)) else none

abbrev negated : Option ℕ → Option ℤ
negated none = none
negated (some zero) = some (pos zero)
negated (some (suc n)) = some (negsuc n)

abbrev counted : Option ℕ → Option ℤ
counted none = none
counted (some n) = some (pos n)

-- `(*big.Int).SetString(s, 10)`: one sign, then digits.
unfoldable pub set_string10 : Text → Option ℤ
set_string10 [] = none
set_string10 (c ∷ s) =
    if c == b'-'
    then negated (number_of s)
    else if c == b'+'
    then counted (number_of s)
    else counted (number_of (c ∷ s))

-- The digits of a number, with fuel for each of them.
unfoldable pub digits : ℕ → ℕ → Text
digits zero n = []
digits (suc fuel) n =
    let rest = digits fuel (n / 10) in
    if ltb n 10 then (b'0' + n) ∷ [] else rest ++ (b'0' + n % 10) ∷ []

abbrev pub decimal : ℕ → Text
decimal n = digits (suc n) n

-- `(*big.Int).String`.
abbrev pub show_int : ℤ → Text
show_int (pos n) = decimal n
show_int (negsuc n) = b'-' ∷ decimal (suc n)

-- `strings.Repeat("0", decimals+1-len(digits)) + digits`, where the digits are too few.
unfoldable pub padded : Text → ℕ → Text
padded s decimals =
    if leb (length s) decimals then replicate (decimals + 1 - length s) b'0' ++ s else s

abbrev pub is_nought : ℕ → Bool
is_nought c = c == b'0'

abbrev pub joined : Text → Text → Text
joined whole [] = whole
joined whole (c ∷ fraction) = whole ++ b'.' ∷ c ∷ fraction

unfoldable pub with_point : Text → ℕ → Text
with_point s decimals =
    let point = length s - decimals in joined (take point s) (trim_right is_nought (drop point s))

unfoldable pub format_atomic : Text → ℕ → Text
format_atomic raw decimals = elim (set_string10 raw) [
  | none ↦ raw
  | some z ↦ if decimals == 0 then raw else with_point (padded (show_int z) decimals) decimals
]

unfoldable pub chain_units : Text → ℕ × Text
chain_units chain =
    if chain == chain_btc
    then (8, codes "satoshi")
    else if chain == chain_ethereum || chain == chain_arbitrum || chain == chain_bsc
    then (18, codes "wei")
    else if chain == chain_solana
    then (9, codes "lamport")
    else if chain == chain_tron
    then (6, codes "sun")
    else (0, codes "atomic")
