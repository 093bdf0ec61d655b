-- ===== src/Providers/Quantities.antt =====
-- The results of `eth_getBalance` that internal/providers/evm.go takes for a balance, as a grammar.
use wallet_scan.Prelude.{
  ℕ, ◌+◌, ◌*◌, ◌≤◌, ◌<◌, ◌≡◌, ◌≢◌, refl, sym, ◌∙◌, ap, subst, ◌⊎◌, inl, inr, true, false, some,
  Option-cases, List, [], ◌∷◌, ◌++◌, arith, Bool-cases, ◌↔◌,
}
use wallet_scan.Prelude.Int.{ℤ, pos, sub_ℕ}
use wallet_scan.Prelude.Texts.{Text, text_eq, codes, has_prefix, text_beq}
use wallet_scan.Providers.{
  Balance, ok, evm_balance, hex_digit, hex_from, hex_digits, set_string16, trim_0x, or_nought,
  negated, positive,
}
use wallet_scan.Providers.Decode.{hex_char, hex_number}

-- A digit from 0 to 15 in its character, of either case.
abbrev pub IsDigit : ℕ → ℕ → Type 0
IsDigit c d = (d < 16) × ((c ≡ hex_char d) ⊎ ((10 ≤ d) × (c + 10 ≡ b'A' + d)))

abbrev pub Spells : Text → List ℕ → Type 0
Spells [] [] = Unit
Spells [] (d ∷ ds) = ⊥
Spells (c ∷ s) [] = ⊥
Spells (c ∷ s) (d ∷ ds) = IsDigit c d × Spells s ds

-- One digit or more, and the number that they are in base 16.
abbrev pub IsNumeral : Text → ℕ → Type 0
IsNumeral s n = (s ≢ []) × (ds : List ℕ) × Spells s ds × (n ≡ hex_number 0 ds)

-- Nothing at all, which counts as 0, or a numeral behind a sign or none.
pub data IsQuantity : Text → ℤ → Type 0 where
  empty : IsQuantity [] (pos 0)
  unsigned : {s : Text} {n : ℕ} → IsNumeral s n → IsQuantity s (pos n)
  plus : {s : Text} {n : ℕ} → IsNumeral s n → IsQuantity (b'+' ∷ s) (pos n)
  minus : {s : Text} {n : ℕ} → IsNumeral s n → IsQuantity (b'-' ∷ s) (sub_ℕ 0 n)

-- A quantity behind `0x`, or one that stands alone and does not start with `0x`.
pub data IsResult : Text → ℤ → Type 0 where
  prefixed : {s : Text} {z : ℤ} → IsQuantity s z → IsResult (codes "0x" ++ s) z
  bare : {s : Text} {z : ℤ} → ((t : Text) → s ≢ codes "0x" ++ t) → IsQuantity s z → IsResult s z

hex_digit-IsDigit : (c d : ℕ) → hex_digit c ≡ some d → IsDigit c d
unfolding hex_digit hex_char
hex_digit-IsDigit c d h = ground arith

IsDigit-hex_digit : (c d : ℕ) → IsDigit c d → hex_digit c ≡ some d
unfolding hex_digit hex_char
IsDigit-hex_digit c d h = ground arith

hex_from-cons :
    (n m c : ℕ) (s : Text)
    → hex_from n (c ∷ s) ≡ some m
    → (d : ℕ) × (hex_digit c ≡ some d) × (hex_from (n * 16 + d) s ≡ some m)
unfolding hex_from
hex_from-cons n m c s h = elim (Option-cases (hex_digit c)) [
  | inl e ↦ absurd (ground arith)
  | inr (d, e) ↦ (d, e, ground arith)
]

hex_from-Spells :
    (n m : ℕ) (s : Text)
    → hex_from n s ≡ some m
    → (ds : List ℕ) × Spells s ds × (m ≡ hex_number n ds)
unfolding hex_from
hex_from-Spells n m [] h = ([], tt, ground arith)
hex_from-Spells n m (c ∷ s) h =
    let (d, e, rest) = hex_from-cons n m c s h in
    let (ds, w, k) = hex_from-Spells (n * 16 + d) m s rest in
    (d ∷ ds, (hex_digit-IsDigit c d e, w), k)

Spells-hex_from :
    (n : ℕ) (s : Text) (ds : List ℕ) → Spells s ds → hex_from n s ≡ some (hex_number n ds)
unfolding hex_from
Spells-hex_from n [] [] w = refl
Spells-hex_from n [] (d ∷ ds) w = absurd w
Spells-hex_from n (c ∷ s) [] w = absurd w
Spells-hex_from n (c ∷ s) (d ∷ ds) w =
    rw (IsDigit-hex_digit c d w.0, hex_from) (Spells-hex_from (n * 16 + d) s ds w.1)

cons_ne : {c : ℕ} {s : Text} → (c ∷ s) ≢ []
cons_ne h = cc

hex_digits-IsNumeral : (s : Text) (n : ℕ) → hex_digits s ≡ some n → IsNumeral s n
unfolding hex_digits
hex_digits-IsNumeral [] n h = absurd (cc)
hex_digits-IsNumeral (c ∷ s) n h =
    let (ds, w, k) = hex_from-Spells 0 n (c ∷ s) h in (cons_ne, ds, w, k)

IsNumeral-hex_digits : (s : Text) (n : ℕ) → IsNumeral s n → hex_digits s ≡ some n
unfolding hex_digits
IsNumeral-hex_digits [] n w = absurd (w.0 refl)
IsNumeral-hex_digits (c ∷ s) n (w, ds, k, e) = Spells-hex_from 0 (c ∷ s) ds k ∙ ap some (sym e)

digit_no_sign : (c d : ℕ) → IsDigit c d → (c ≢ b'-') × (c ≢ b'+')
unfolding hex_char
digit_no_sign c d h = ground arith

set_string16_unsigned :
    (c : ℕ) (s : Text) (n : ℕ) → IsNumeral (c ∷ s) n → set_string16 (c ∷ s) ≡ some (pos n)
unfolding set_string16
set_string16_unsigned c s n (w, [], k, e) = absurd k
set_string16_unsigned c s n (w, d ∷ ds, k, e) =
    let number = IsNumeral-hex_digits (c ∷ s) n (w, d ∷ ds, k, e) in
    ground (arith, digit_no_sign c d k.0, number)

IsNumeral-set_string16 :
    (s : Text) (n : ℕ) → IsNumeral s n → set_string16 (or_nought s) ≡ some (pos n)
unfolding or_nought text_beq
IsNumeral-set_string16 [] n w = absurd (w.0 refl)
IsNumeral-set_string16 (c ∷ s) n w = set_string16_unsigned c s n w

IsQuantity-set_string16 : (s : Text) (z : ℤ) → IsQuantity s z → set_string16 (or_nought s) ≡ some z
unfolding or_nought set_string16 text_beq hex_digits hex_from hex_digit
IsQuantity-set_string16 _ _ empty = refl
IsQuantity-set_string16 _ _ (unsigned {s = s} {n = n} w) = IsNumeral-set_string16 s n w
IsQuantity-set_string16 _ _ (plus {s = s} {n = n} w) = ap positive (IsNumeral-hex_digits s n w)
IsQuantity-set_string16 _ _ (minus {s = s} {n = n} w) = ap negated (IsNumeral-hex_digits s n w)

negated-minus : (s : Text) (z : ℤ) → negated (hex_digits s) ≡ some z → IsQuantity (b'-' ∷ s) z
negated-minus s z h = elim (Option-cases (hex_digits s)) [
  | inl e ↦ absurd (ground arith)
  | inr (n, e) ↦
      let number : sub_ℕ 0 n ≡ z = ground arith in
      subst (IsQuantity (b'-' ∷ s)) number (minus (hex_digits-IsNumeral s n e))
]

positive-pos :
    (s : Text) (z : ℤ) → positive (hex_digits s) ≡ some z → (n : ℕ) × IsNumeral s n × (pos n ≡ z)
positive-pos s z h = elim (Option-cases (hex_digits s)) [
  | inl e ↦ absurd (ground arith)
  | inr (n, e) ↦ (n, hex_digits-IsNumeral s n e, ground arith)
]

set_string16-cons :
    (c : ℕ) (s : Text) (z : ℤ)
    → set_string16 (c ∷ s) ≡ some z
    → ((c ≡ b'-') × (negated (hex_digits s) ≡ some z))
      ⊎ ((c ≡ b'+') × (positive (hex_digits s) ≡ some z))
      ⊎ (positive (hex_digits (c ∷ s)) ≡ some z)
unfolding set_string16
set_string16-cons c s z h = ground arith

cons-IsQuantity : (c : ℕ) (s : Text) (z : ℤ) → set_string16 (c ∷ s) ≡ some z → IsQuantity (c ∷ s) z
cons-IsQuantity c s z h = elim (set_string16-cons c s z h) [
  | inl (e, k) ↦ subst (λ x. IsQuantity (x ∷ s) z) (sym e) (negated-minus s z k)
  | inr (inl (e, k)) ↦
      let (n, w, number) = positive-pos s z k in
      subst (λ x. IsQuantity (x ∷ s) z) (sym e) (subst (IsQuantity (b'+' ∷ s)) number (plus w))
  | inr (inr k) ↦
      let (n, w, number) = positive-pos (c ∷ s) z k in
      subst (IsQuantity (c ∷ s)) number (unsigned w)
]

set_string16-IsQuantity : (s : Text) (z : ℤ) → set_string16 (or_nought s) ≡ some z → IsQuantity s z
unfolding or_nought
set_string16-IsQuantity [] z h =
    let number : pos 0 ≡ z =
      unfold text_beq set_string16 hex_digits hex_from hex_digit in ground (arith, h) in
    subst (IsQuantity []) number empty
set_string16-IsQuantity (c ∷ s) z h = cons-IsQuantity c s z (unfold text_beq in h)

abbrev balance : Text → Text → ℤ → Balance
balance name symbol z = record { atomic = some z; symbol = symbol; chain = name; provider = name }

evm_balance-set_string16 :
    (name symbol result : Text) (z : ℤ)
    → evm_balance name symbol result ≡ ok (balance name symbol z)
    → set_string16 (or_nought (trim_0x result)) ≡ some z
unfolding evm_balance
evm_balance-set_string16 name symbol result z h = ground (arith, h)

set_string16-evm_balance :
    (name symbol result : Text) (z : ℤ)
    → set_string16 (or_nought (trim_0x result)) ≡ some z
    → evm_balance name symbol result ≡ ok (balance name symbol z)
unfolding evm_balance
set_string16-evm_balance name symbol result z h = rw (h, evm_balance) refl

trim_0x-prefixed : (s : Text) → trim_0x (codes "0x" ++ s) ≡ s
unfolding trim_0x has_prefix text_beq
trim_0x-prefixed s = refl

has_prefix-0x : (s : Text) → has_prefix s (codes "0x") ≡ true → (t : Text) × (s ≡ codes "0x" ++ t)
unfolding has_prefix text_beq
has_prefix-0x [] h = absurd (cc)
has_prefix-0x (c ∷ []) h = absurd (ground arith)
has_prefix-0x (c ∷ d ∷ t) h = (t, ground arith)

not_prefixed : (t : Text) → has_prefix (codes "0x" ++ t) (codes "0x") ≡ false → ⊥
unfolding has_prefix text_beq
not_prefixed t h = cc

trim_0x-bare : (s : Text) → ((t : Text) → s ≢ codes "0x" ++ t) → trim_0x s ≡ s
unfolding trim_0x
trim_0x-bare s free = elim (Bool-cases (has_prefix s (codes "0x"))) [
  | inl p ↦ let (t, e) = has_prefix-0x s p in absurd (free t e)
  | inr p ↦ rw p refl
]

trimmed-IsResult : (s : Text) (z : ℤ) → set_string16 (or_nought (trim_0x s)) ≡ some z → IsResult s z
trimmed-IsResult s z h = elim (Bool-cases (has_prefix s (codes "0x"))) [
  | inl p ↦
      let (t, e) = has_prefix-0x s p in
      let trimmed : trim_0x s ≡ t = ap trim_0x e ∙ trim_0x-prefixed t in
      subst (λ x. IsResult x z) (sym e) (prefixed (set_string16-IsQuantity t z (rw trimmed at h)))
  | inr p ↦
      let free : (t : Text) → s ≢ codes "0x" ++ t = λ t e. not_prefixed t (rw e at p) in
      bare free (set_string16-IsQuantity s z (rw (trim_0x-bare s free) at h))
]

-- A balance is the number of its result, marked with the provider's chain.
pub evm_balance-ok :
    (name symbol result : Text) (b : Balance)
    → evm_balance name symbol result ≡ ok b
    → (z : ℤ) × (b.atomic ≡ some z) × IsResult result z × (b.chain ≡ name)
unfolding evm_balance
evm_balance-ok name symbol result b h =
    elim (Option-cases (set_string16 (or_nought (trim_0x result)))) [
      | inl e ↦ absurd (ground arith)
      | inr (z, e) ↦ (z, ground arith, trimmed-IsResult result z e, ground arith)
    ]

IsResult-trimmed : (s : Text) (z : ℤ) → IsResult s z → set_string16 (or_nought (trim_0x s)) ≡ some z
IsResult-trimmed _ z (prefixed {s = s} q) = rw (trim_0x-prefixed s) (IsQuantity-set_string16 s z q)
IsResult-trimmed s z (bare free q) = rw (trim_0x-bare s free) (IsQuantity-set_string16 s z q)

-- Which results are read as which balance: `0x` or nothing, then a sign or none, then hexadecimal
-- digits of either case, for the number that they spell in base 16; and no digits and no sign for 0.
-- Every other result is refused.
pub evm_balance-IsResult :
    (name symbol result : Text) (z : ℤ)
    → (evm_balance name symbol result
        ≡ ok (record { atomic = some z; symbol = symbol; chain = name; provider = name }))
      ↔ IsResult result z
evm_balance-IsResult name symbol result z = (
  (λ h. trimmed-IsResult result z (evm_balance-set_string16 name symbol result z h)),
  (λ r. set_string16-evm_balance name symbol result z (IsResult-trimmed result z r)),
)
