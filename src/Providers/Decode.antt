-- ===== src/Providers/Decode.antt =====
-- The hexadecimal quantities of `eth_getBalance`.
use wallet_scan.Prelude.{ℕ, ◌+◌, ◌-◌, ◌*◌, ◌<◌, List, [], ◌∷◌, ltb, if◌then◌else◌}
use wallet_scan.Prelude.Texts.{text_eq}

-- The character of a digit, as a node writes it.
unfoldable pub hex_char : ℕ → ℕ
hex_char d = if ltb d 10 then b'0' + d else b'a' + d - 10

abbrev pub IsHex : ℕ → Type 0
IsHex d = d < 16

-- The number that digits spell behind `n`.
abbrev pub hex_number : ℕ → List ℕ → ℕ
hex_number n [] = n
hex_number n (d ∷ ds) = hex_number (n * 16 + d) ds
