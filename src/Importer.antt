-- ===== src/Importer.antt =====
-- The CSV importer, internal/importer/importer.go. encoding/csv is not modelled: the importer is given
-- the records that its reader delivers, or the reader's error. Texts are ASCII, where
-- `strings.ToLower` and `strings.TrimSpace` are those of the prelude.
mod Tests
pub mod Addresses
pub mod Rows
pub mod Results
use wallet_scan.Prelude.{
  ℕ, zero, suc, ◌+◌, Bool, true, false, not, ◌&&◌, ◌||◌, List, [], ◌∷◌, ◌++◌, length, ltb, leb, eqb,
  ◌==◌, if◌then◌else◌,
}
use wallet_scan.Prelude.Texts.{
  Text, codes, text_eq, to_lower, lower_byte, has_prefix, all_bytes, any_byte, trim_space,
}
use wallet_scan.Domain.{AddressInput, type_evm, type_btc, type_sol, type_trx}

pub data AddressError : Type 0 where
  empty_or_space : AddressError
  invalid_evm : AddressError
  invalid_btc : AddressError
  invalid_sol : AddressError
  invalid_trx : AddressError
  unsupported : Text → AddressError

pub data Validated : Type 0 where
  valid : Text → Validated
  invalid : AddressError → Validated

-- `\r\n\t ` of `strings.ContainsAny`.
unfoldable pub is_blank : ℕ → Bool
is_blank c = eqb c 13 || eqb c 10 || eqb c 9 || eqb c 32

-- `[0-9a-fA-F]`.
unfoldable pub is_hex : ℕ → Bool
is_hex c = (leb b'0' c && leb c b'9') || (leb b'a' c && leb c b'f') || (leb b'A' c && leb c b'F')

-- `[1-9A-HJ-NP-Za-km-z]`.
unfoldable pub is_base58 : ℕ → Bool
is_base58 c =
    (leb b'1' c && leb c b'9')
    || (leb b'A' c && leb c b'H')
    || (leb b'J' c && leb c b'N')
    || (leb b'P' c && leb c b'Z')
    || (leb b'a' c && leb c b'k')
    || (leb b'm' c && leb c b'z')

-- `^0x[0-9a-fA-F]{40}$`.
unfoldable pub matches_evm : Text → Bool
matches_evm (z ∷ x ∷ digits) =
    eqb z b'0' && eqb x b'x' && all_bytes is_hex digits && eqb (length digits) 40
matches_evm _ = false

-- `^[1-9A-HJ-NP-Za-km-z]+$`.
unfoldable pub matches_base58 : Text → Bool
matches_base58 [] = false
matches_base58 (c ∷ s) = all_bytes is_base58 (c ∷ s)

unfoldable pub is_btc_length : Text → Bool
is_btc_length address = not (ltb (length address) 14 || ltb 90 (length address))

unfoldable pub has_btc_prefix : Text → Bool
has_btc_prefix address =
    has_prefix address (codes "1")
    || has_prefix address (codes "3")
    || has_prefix (to_lower address) (codes "bc1")

unfoldable pub is_sol : Text → Bool
is_sol address = not (ltb (length address) 32 || ltb 44 (length address)) && matches_base58 address

unfoldable pub is_trx : Text → Bool
is_trx address = eqb (length address) 34 && has_prefix address (codes "T") && matches_base58 address

-- `NormalizeAndValidate`.
unfoldable pub normalize_and_validate : Text → Text → Validated
normalize_and_validate address_type address =
    if address == [] || any_byte is_blank address
    then invalid empty_or_space
    else if address_type == type_evm
    then (if matches_evm address then valid (to_lower address) else invalid invalid_evm)
    else if address_type == type_btc
    then (if is_btc_length address && has_btc_prefix address
        then valid address
        else invalid invalid_btc)
    else if address_type == type_sol
    then (if is_sol address then valid address else invalid invalid_sol)
    else if address_type == type_trx
    then (if is_trx address then valid address else invalid invalid_trx)
    else invalid (unsupported address_type)

-- What one call of `reader.Read` delivers before the end of the file.
pub data Record : Type 0 where
  fields : List Text → Record
  broken : Text → Record

pub data ImportError : Type 0 where
  read_header : Text → ImportError
  bad_header : ImportError
  read_line : ℕ → Text → ImportError
  field_count : ℕ → ImportError
  bad_address : ℕ → AddressError → ImportError

pub data Parsed : Type 0 where
  addresses : List AddressInput → Parsed
  failed : ImportError → Parsed

-- The test on the header, the other way round: true if it is accepted.
unfoldable pub is_header : List Text → Bool
is_header (t ∷ a ∷ []) = trim_space t == codes "address_type" && trim_space a == codes "address"
is_header (t ∷ a ∷ l ∷ []) =
    trim_space t == codes "address_type"
    && trim_space a == codes "address"
    && trim_space l == codes "label"
is_header _ = false

-- `addressType + "\x00" + normalized`.
abbrev pub key_of : Text → Text → Text
key_of address_type normalized = address_type ++ 0 ∷ normalized

unfoldable pub contains : Text → List Text → Bool
contains k [] = false
contains k (j ∷ ks) = j == k || contains k ks

abbrev pub input_of : Text → Text → Text → Text → AddressInput
input_of address_type address normalized label = record {
  address_type = address_type;
  address = address;
  normalized = normalized;
  label = label;
}

-- The three fields that a record gives: type, address and label, trimmed, the type in lower case.
pub data Row : Type 0 where
  row : Text → Text → Text → Row
  miscounted : Row

unfoldable pub row_of : List Text → Row
row_of (t ∷ a ∷ []) = row (to_lower (trim_space t)) (trim_space a) []
row_of (t ∷ a ∷ l ∷ []) = row (to_lower (trim_space t)) (trim_space a) (trim_space l)
row_of _ = miscounted

-- The loop of `ParseCSV`: the line number, the keys seen, the addresses so far, the records left.
-- `next` is the loop on the records behind this one.
unfoldable pub on_valid :
    (List Text → List AddressInput → Parsed)
    → List Text
    → List AddressInput
    → Text
    → Text
    → Text
    → Text
    → Parsed
on_valid next seen out t a l n =
    let again = next seen out in
    let added = next (key_of t n ∷ seen) (out ++ input_of t a n l ∷ []) in
    if contains (key_of t n) seen then again else added

unfoldable pub on_row :
    (List Text → List AddressInput → Parsed) → ℕ → List Text → List AddressInput → Row → Parsed
on_row next line seen out miscounted = failed (field_count line)
on_row next line seen out (row t a l) = elim (normalize_and_validate t a) [
  | invalid e ↦ failed (bad_address line e)
  | valid n ↦ on_valid next seen out t a l n
]

unfoldable pub parse_rows : ℕ → List Text → List AddressInput → List Record → Parsed
parse_rows line seen out [] = addresses out
parse_rows line seen out (broken m ∷ rest) = failed (read_line line m)
parse_rows line seen out (fields f ∷ rest) =
    on_row (λ seen' out'. parse_rows (suc line) seen' out' rest) line seen out (row_of f)

-- `ParseCSV` on what the reader delivers.
unfoldable pub parse_csv : List Record → Parsed
parse_csv [] = failed (read_header (codes "EOF"))
parse_csv (broken m ∷ rest) = failed (read_header m)
parse_csv (fields h ∷ rest) = if is_header h then parse_rows 2 [] [] rest else failed bad_header
