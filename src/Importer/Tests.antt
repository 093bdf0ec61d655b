-- ===== src/Importer/Tests.antt =====
-- The importer at concrete files.
use wallet_scan.Prelude.{◌≡◌, refl, true, List, [], ◌∷◌, ◌++◌, length, All}
use wallet_scan.Prelude.Texts.{
  Text, codes, text_beq, lower_byte, trim_space, has_prefix, all_bytes, any_byte,
}
use wallet_scan.Domain.{AddressInput, type_evm, type_btc}
use wallet_scan.Importer.{
  valid, normalize_and_validate, is_blank, is_hex, is_btc_length, has_btc_prefix, matches_evm,
  Record, fields, addresses, failed, is_header, contains, row_of, on_row, on_valid, parse_rows,
  parse_csv, input_of, bad_header,
}
use wallet_scan.Importer.Addresses.{normalize_idem, normalize_evm_shape, IsLowerHex}
use wallet_scan.Importer.Rows.{IsValidInput, AreDistinct, IsListed, IsFine}
use wallet_scan.Importer.Results.{parse_csv_sound, parse_csv_complete}

abbrev evm_address : Text
evm_address = codes "0x00000000000000000000000000000000000000Ab"

abbrev evm_normal : Text
evm_normal = codes "0x00000000000000000000000000000000000000ab"

abbrev btc_address : Text
btc_address = codes "1BoatSLRHtKNngkdXEeobR76b53LETtpyT"

abbrev header : List Text
header = codes "address_type" ∷ codes " address" ∷ codes "label" ∷ []

-- The same EVM address twice, in other letters, and a Bitcoin address.
abbrev rows : List Record
rows =
    fields (codes "evm" ∷ evm_address ∷ codes "one" ∷ [])
    ∷ fields (codes " EVM" ∷ evm_normal ∷ codes "two" ∷ [])
    ∷ fields (codes "btc" ∷ btc_address ∷ [])
    ∷ []

abbrev result : List AddressInput
result =
    input_of type_evm evm_address evm_normal (codes "one")
    ∷ input_of type_btc btc_address btc_address []
    ∷ []

evm_accepted : normalize_and_validate type_evm evm_address ≡ valid evm_normal
unfolding normalize_and_validate matches_evm is_hex is_blank any_byte all_bytes text_beq lower_byte
evm_accepted = refl

evm_accepted_again : normalize_and_validate type_evm evm_normal ≡ valid evm_normal
unfolding normalize_and_validate matches_evm is_hex is_blank any_byte all_bytes text_beq lower_byte
evm_accepted_again = refl

btc_accepted : normalize_and_validate type_btc btc_address ≡ valid btc_address
unfolding normalize_and_validate is_btc_length has_btc_prefix has_prefix is_blank any_byte text_beq
btc_accepted = refl

parsed : parse_csv (fields header ∷ rows) ≡ addresses result
unfolding parse_csv is_header parse_rows on_row on_valid contains row_of trim_space
    normalize_and_validate matches_evm is_hex is_blank is_btc_length has_btc_prefix has_prefix
    any_byte all_bytes text_beq lower_byte
parsed = refl

secret_column :
    parse_csv (fields (codes "address_type" ∷ codes "address" ∷ codes "private_key" ∷ []) ∷ rows)
    ≡ failed bad_header
unfolding parse_csv is_header trim_space text_beq
secret_column = refl

normalize_idem_example : normalize_and_validate type_evm evm_normal ≡ valid evm_normal
normalize_idem_example = normalize_idem type_evm evm_address evm_normal evm_accepted

normalize_evm_shape_example :
    (digits : Text) × (evm_normal ≡ codes "0x" ++ digits)
    × (length digits ≡ 40)
    × All IsLowerHex digits
normalize_evm_shape_example = normalize_evm_shape evm_address evm_normal evm_accepted

parse_csv_sound_example :
    (is_header header ≡ true)
    × All IsValidInput result
    × AreDistinct result
    × All (IsListed result) rows
parse_csv_sound_example = parse_csv_sound header rows result parsed

header_accepted : is_header header ≡ true
unfolding is_header trim_space text_beq
header_accepted = refl

rows-IsFine : All IsFine rows
unfolding row_of trim_space lower_byte
rows-IsFine = (
  (evm_normal, evm_accepted),
  ((evm_normal, evm_accepted_again), ((btc_address, btc_accepted), tt)),
)

parse_csv_complete_example :
    (res : List AddressInput) × (parse_csv (fields header ∷ rows) ≡ addresses res)
parse_csv_complete_example = parse_csv_complete header rows header_accepted rows-IsFine
