-- ===== src/Config/Readers.antt =====
-- Readers of one environment variable, internal/config/config.go, with strconv's integers and Booleans.
use wallet_scan.Prelude.{
  ℕ, ◌+◌, ◌-◌, ◌*◌, ◌^◌, Bool, true, false, ◌&&◌, ◌||◌, Option, none, some, List, [], ◌∷◌, ltb, leb,
  eqb, ◌==◌, if◌then◌else◌,
}
use wallet_scan.Prelude.Int.{ℤ, pos, sub_ℕ}
use wallet_scan.Prelude.Texts.{Text, codes, text_eq}

-- A decimal number; `none` at a byte that is no digit.
unfoldable pub digits_from : ℕ → Text → Option ℕ
digits_from n [] = some n
digits_from n (c ∷ s) =
    let rest = digits_from (n * 10 + (c - b'0')) s in
    if leb b'0' c && leb c b'9' then rest else none

unfoldable pub digits_of : Text → Option ℕ
digits_of [] = none
digits_of (c ∷ s) = digits_from 0 (c ∷ s)

abbrev pub as_positive : Option ℕ → Option ℤ
as_positive none = none
as_positive (some n) = if ltb n (2 ^ 63) then some (pos n) else none

abbrev pub as_negative : Option ℕ → Option ℤ
as_negative none = none
as_negative (some n) = if leb n (2 ^ 63) then some (sub_ℕ 0 n) else none

-- `strconv.Atoi`: one sign at the most, then digits, in the int64 range.
unfoldable pub atoi : Text → Option ℤ
atoi [] = none
atoi (c ∷ s) =
    if eqb c b'-'
    then as_negative (digits_of s)
    else if eqb c b'+'
    then as_positive (digits_of s)
    else as_positive (digits_of (c ∷ s))

unfoldable pub is_one_of : Text → List Text → Bool
is_one_of s [] = false
is_one_of s (t ∷ ts) = s == t || is_one_of s ts

-- `strconv.ParseBool`.
unfoldable pub parse_bool : Text → Option Bool
parse_bool s =
    if is_one_of s
      (codes "1" ∷ codes "t" ∷ codes "T" ∷ codes "TRUE" ∷ codes "true" ∷ codes "True" ∷ [])
    then some true
    else if is_one_of s
        (codes "0" ∷ codes "f" ∷ codes "F" ∷ codes "FALSE" ∷ codes "false" ∷ codes "False" ∷ [])
    then some false
    else none

abbrev pub Env : Type 0
Env = Text → Text

unfoldable pub env_string : Env → Text → Text → Text
env_string env name fallback = if env name == [] then fallback else env name

abbrev pub or_int : Option ℤ → ℤ → ℤ
or_int none fallback = fallback
or_int (some z) fallback = z

-- A number that does not parse counts as not set.
unfoldable pub env_int : Env → Text → ℕ → ℤ
env_int env name fallback =
    if env name == [] then pos fallback else or_int (atoi (env name)) (pos fallback)

unfoldable pub env_bool : Env → Text → Bool → Option Bool
env_bool env name fallback = if env name == [] then some fallback else parse_bool (env name)
