-- ===== src/Importer/Addresses.antt =====
-- The normal form of an address.
use wallet_scan.Prelude.{
  ℕ, ◌≤◌, ◌≡◌, refl, true, false, [], ◌∷◌, arith, length, length-map, ◌++◌, ◌∙◌, ◌⊎◌, All, ◌==◌,
}
use wallet_scan.Prelude.Texts.{
  Text, codes, text_eq, text_beq, to_lower, lower_byte, all_bytes, any_byte,
}
use wallet_scan.Domain.{type_evm}
use wallet_scan.Importer.{valid, is_blank, is_hex, matches_evm, normalize_and_validate}

lower_byte_idem : (c : ℕ) → lower_byte (lower_byte c) ≡ lower_byte c
unfolding lower_byte
lower_byte_idem c = ground arith

to_lower_idem : (s : Text) → to_lower (to_lower s) ≡ to_lower s
to_lower_idem [] = refl
to_lower_idem (c ∷ s) = cc (lower_byte_idem c, to_lower_idem s)

lower_byte-is_hex : (c : ℕ) → is_hex c ≡ true → is_hex (lower_byte c) ≡ true
unfolding lower_byte is_hex
lower_byte-is_hex c h = ground arith

to_lower-is_hex : (s : Text) → all_bytes is_hex s ≡ true → all_bytes is_hex (to_lower s) ≡ true
unfolding all_bytes
to_lower-is_hex [] h = refl
to_lower-is_hex (c ∷ s) h = ground (arith, lower_byte-is_hex c, to_lower-is_hex s)

to_lower-matches_evm : (s : Text) → matches_evm s ≡ true → matches_evm (to_lower s) ≡ true
unfolding matches_evm
to_lower-matches_evm [] h = h
to_lower-matches_evm (z ∷ []) h = h
to_lower-matches_evm (z ∷ x ∷ digits) h =
    unfold lower_byte in ground (arith, to_lower-is_hex digits, length-map lower_byte digits)

lower_byte-is_blank : (c : ℕ) → is_blank c ≡ false → is_blank (lower_byte c) ≡ false
unfolding lower_byte is_blank
lower_byte-is_blank c h = ground arith

to_lower-is_blank :
    (s : Text) → any_byte is_blank s ≡ false → any_byte is_blank (to_lower s) ≡ false
unfolding any_byte
to_lower-is_blank [] h = refl
to_lower-is_blank (c ∷ s) h = ground (arith, lower_byte-is_blank c, to_lower-is_blank s)

to_lower-eq-nil : (s : Text) → (s == []) ≡ false → (to_lower s == []) ≡ false
unfolding text_beq
to_lower-eq-nil [] h = h
to_lower-eq-nil (c ∷ s) h = refl

-- The identity under which an address is stored is stable: normalizing it again, with the same type,
-- accepts it and changes nothing.
pub normalize_idem :
    (t a n : Text) → normalize_and_validate t a ≡ valid n → normalize_and_validate t n ≡ valid n
unfolding normalize_and_validate
normalize_idem t a n h =
    ground (arith, to_lower-matches_evm a, to_lower-is_blank a, to_lower-eq-nil a, to_lower_idem a)

-- `[0-9a-f]`.
abbrev pub IsLowerHex : ℕ → Type 0
IsLowerHex c = ((b'0' ≤ c) × (c ≤ b'9')) ⊎ ((b'a' ≤ c) × (c ≤ b'f'))

lower_byte-IsLowerHex : (c : ℕ) → is_hex c ≡ true → IsLowerHex (lower_byte c)
unfolding lower_byte is_hex
lower_byte-IsLowerHex c h = ground arith

to_lower-IsLowerHex : (s : Text) → all_bytes is_hex s ≡ true → All IsLowerHex (to_lower s)
unfolding all_bytes
to_lower-IsLowerHex [] h = tt
to_lower-IsLowerHex (c ∷ s) h =
    (lower_byte-IsLowerHex c (ground arith), to_lower-IsLowerHex s (ground arith))

lowered_shape :
    (a : Text)
    → matches_evm a ≡ true
    → (digits : Text) × (to_lower a ≡ codes "0x" ++ digits)
      × (length digits ≡ 40)
      × All IsLowerHex digits
unfolding matches_evm
lowered_shape [] h = absurd (cc)
lowered_shape (z ∷ []) h = absurd (cc)
lowered_shape (z ∷ x ∷ digits) h = (
  to_lower digits,
  unfold lower_byte in ground arith,
  ground (arith, length-map lower_byte digits),
  to_lower-IsLowerHex digits (ground arith),
)

accepted_evm :
    (a n : Text)
    → normalize_and_validate type_evm a ≡ valid n
    → (matches_evm a ≡ true) × (n ≡ to_lower a)
unfolding normalize_and_validate text_beq
accepted_evm a n h = ground arith

-- An accepted EVM address is stored as `0x` and forty lower-case hexadecimal digits.
pub normalize_evm_shape :
    (a n : Text)
    → normalize_and_validate type_evm a ≡ valid n
    → (digits : Text) × (n ≡ codes "0x" ++ digits) × (length digits ≡ 40) × All IsLowerHex digits
normalize_evm_shape a n h =
    let (matches, e) = accepted_evm a n h in
    let (digits, shape, count, lower) = lowered_shape a matches in (digits, e ∙ shape, count, lower)
