-- ===== src/Notifications/Amounts/RoundTrip.antt =====
-- A printed amount can be read back: the number of whole units before the point and the fraction behind
-- it give the amount in the smallest unit.
use native.Mathlib.Nat.{add-mul, mul_assoc, pow-succ'}
use wallet_scan.Prelude.{
  ℕ, zero, suc, ◌+◌, ◌-◌, ◌*◌, ◌/◌, ◌%◌, ◌^◌, ◌<◌, ◌≡◌, refl, sym, ◌∙◌, ap, true, some, [], ◌∷◌,
  ◌++◌, ◌==◌, nat_eq, ltb, leb, if◌then◌else◌, take, drop, replicate, length, length-append,
  length-drop, length-replicate, take-append-drop, arith, Bool-cases, inl, inr,
}
use wallet_scan.Prelude.Int.{pos}
use wallet_scan.Prelude.Texts.{Text, text_eq, all_bytes, trim_right, keep_end}
use wallet_scan.Notifications.Amounts.{
  is_digit, value, set_string10, digits, decimal, padded, is_nought, joined, with_point,
  format_atomic,
}

abbrev IsNumeral : Text → Type 0
IsNumeral s = all_bytes is_digit s ≡ true

-- The text before the first point, and the text behind it.
unfoldable pub before : Text → Text
before [] = []
before (c ∷ s) = let rest = before s in if c == b'.' then [] else c ∷ rest

unfoldable pub behind : Text → Text
behind [] = []
behind (c ∷ s) = let rest = behind s in if c == b'.' then s else rest

-- The amount that a text with `decimals` places spells, in the smallest unit.
unfoldable pub atomic_of : ℕ → Text → ℕ
atomic_of decimals t =
    value (before t) * 10 ^ decimals + value (behind t) * 10 ^ (decimals - length (behind t))

ten-add : (a b : ℕ) → 10 ^ (a + b) ≡ 10 ^ a * 10 ^ b
ten-add zero b = let e : 0 + b ≡ b = omega arith in ap (λ n. 10 ^ n) e ∙ omega arith
ten-add (suc a) b =
    let e : suc a + b ≡ suc (a + b) = omega arith in
    ap (λ n. 10 ^ n) e
    ∙ pow-succ' 10 (a + b)
    ∙ ap (λ n. 10 * n) (ten-add a b)
    ∙ sym (mul_assoc 10 (10 ^ a) (10 ^ b))
    ∙ ap (λ n. n * 10 ^ b) (sym (pow-succ' 10 a))

value-append : (s t : Text) → value (s ++ t) ≡ value s * 10 ^ length t + value t
unfolding value
value-append [] t = omega arith
value-append (c ∷ s) t =
    let d = c - b'0' in
    let size : 10 ^ length (s ++ t) ≡ 10 ^ length s * 10 ^ length t =
      ap (λ n. 10 ^ n) (length-append s t) ∙ ten-add (length s) (length t) in
    omega (
      arith,
      value-append s t,
      ap (λ n. d * n) size,
      mul_assoc d (10 ^ length s) (10 ^ length t),
      add-mul (d * 10 ^ length s) (value s) (10 ^ length t),
    )

value_noughts : (k : ℕ) → value (replicate k b'0') ≡ 0
unfolding value
value_noughts zero = refl
value_noughts (suc k) = omega (arith, value_noughts k)

all_bytes-append : (s t : Text) → IsNumeral s → IsNumeral t → IsNumeral (s ++ t)
unfolding all_bytes
all_bytes-append [] t h k = k
all_bytes-append (c ∷ s) t h k = ground (arith, all_bytes-append s t)

all_bytes-take : (n : ℕ) (s : Text) → IsNumeral s → IsNumeral (take n s)
unfolding all_bytes
all_bytes-take zero s h = refl
all_bytes-take (suc n) [] h = refl
all_bytes-take (suc n) (c ∷ s) h = ground (arith, all_bytes-take n s)

before-joined : (s t : Text) → IsNumeral s → before (joined s t) ≡ s
unfolding before all_bytes is_digit
before-joined [] [] h = refl
before-joined [] (d ∷ t) h = refl
before-joined (c ∷ s) [] h = ground (arith, before-joined s [])
before-joined (c ∷ s) (d ∷ t) h = ground (arith, before-joined s (d ∷ t))

behind-joined : (s t : Text) → IsNumeral s → behind (joined s t) ≡ t
unfolding behind all_bytes is_digit
behind-joined [] [] h = refl
behind-joined [] (d ∷ t) h = refl
behind-joined (c ∷ s) [] h = ground (arith, behind-joined s [])
behind-joined (c ∷ s) (d ∷ t) h = ground (arith, behind-joined s (d ∷ t))

kept_end :
    (c : ℕ) (t : Text) (k : ℕ)
    → (k' : ℕ) × (c ∷ t ++ replicate k b'0' ≡ keep_end is_nought c t ++ replicate k' b'0')
unfolding keep_end
kept_end c [] k = elim (Bool-cases (c == b'0')) [
  | inl nought ↦
      let e : c ≡ b'0' = ground arith in rw nought (suc k, ap (λ x. x ∷ replicate k b'0') e)
  | inr other ↦ rw other (k, refl)
]
kept_end c (d ∷ t) k = (k, refl)

-- What `TrimRight` takes away is noughts.
trimmed : (s : Text) → (k : ℕ) × (s ≡ trim_right is_nought s ++ replicate k b'0')
unfolding trim_right
trimmed [] = (0, refl)
trimmed (c ∷ s) =
    let (k, e) = trimmed s in
    let (k', e') = kept_end c (trim_right is_nought s) k in (k', ap (λ t. c ∷ t) e ∙ e')

value_trimmed :
    (s : Text)
    → value s ≡ value (trim_right is_nought s) * 10 ^ (length s - length (trim_right is_nought s))
value_trimmed s =
    let (k, e) = trimmed s in
    let t = trim_right is_nought s in
    let size : length s ≡ length t + k =
      ap length e
      ∙ length-append t (replicate k b'0')
      ∙ ap (λ n. length t + n) (length-replicate {A = ℕ} k b'0') in
    let rest : length s - length t ≡ k = omega (arith, size) in
    ap value e
    ∙ value-append t (replicate k b'0')
    ∙ rw (length-replicate {A = ℕ} k b'0', value_noughts k, rest) (omega arith)

padded_value : (s : Text) (d : ℕ) → value (padded s d) ≡ value s
unfolding padded
padded_value s d = elim (Bool-cases (leb (length s) d)) [
  | inl short ↦ rw short (
      value-append (replicate (d + 1 - length s) b'0') s
      ∙ rw (value_noughts (d + 1 - length s)) (omega arith))
  | inr long ↦ rw long refl
]

noughts-IsNumeral : (k : ℕ) → IsNumeral (replicate k b'0')
unfolding all_bytes is_digit
noughts-IsNumeral zero = refl
noughts-IsNumeral (suc k) = ground (arith, noughts-IsNumeral k)

padded-IsNumeral : (s : Text) (d : ℕ) → IsNumeral s → IsNumeral (padded s d)
unfolding padded
padded-IsNumeral s d h = elim (Bool-cases (leb (length s) d)) [
  | inl short ↦
      rw short (all_bytes-append (replicate (d + 1 - length s) b'0') s (noughts-IsNumeral _) h)
  | inr long ↦ rw long h
]

padded_long : (s : Text) (d : ℕ) → d < length (padded s d)
unfolding padded
padded_long s d = elim (Bool-cases (leb (length s) d)) [
  | inl short ↦ rw short (
      rw
        (
          length-append (replicate (d + 1 - length s) b'0') s,
          length-replicate {A = ℕ} (d + 1 - length s) b'0',
        )
        (ground arith))
  | inr long ↦ rw long (ground arith)
]

-- The point is put where it belongs.
with_point_lem :
    (s : Text) (d : ℕ) → IsNumeral s → d < length s → atomic_of d (with_point s d) ≡ value s
unfolding with_point atomic_of
with_point_lem s d h long =
    let point = length s - d in
    let whole = take point s in
    let fraction = drop point s in
    let whole_digits = all_bytes-take point s h in
    let places : length fraction ≡ d = length-drop point s ∙ omega (arith, long) in
    let parts : value s ≡ value whole * 10 ^ length fraction + value fraction =
      ap value (sym (take-append-drop point s)) ∙ value-append whole fraction in
    rw
      (
        before-joined whole (trim_right is_nought fraction) whole_digits,
        behind-joined whole (trim_right is_nought fraction) whole_digits,
        parts,
        places,
      )
      (ap (λ n. value whole * 10 ^ d + n) (sym (value_trimmed fraction ∙ rw places refl)))

one_digit : (n : ℕ) → n < 10 → (value ((b'0' + n) ∷ []) ≡ n) × IsNumeral ((b'0' + n) ∷ [])
unfolding value all_bytes is_digit
one_digit n h = (omega arith, ground arith)

digits_lem : (fuel n : ℕ) → n < fuel → (value (digits fuel n) ≡ n) × IsNumeral (digits fuel n)
unfolding digits
digits_lem zero n h = absurd (omega (arith, h))
digits_lem (suc fuel) n h = elim (Bool-cases (ltb n 10)) [
  | inl last ↦ rw last (one_digit n (ground arith))
  | inr more ↦
      let (e, k) = digits_lem fuel (n / 10) (ground arith) in
      let (e', k') = one_digit (n % 10) (omega arith) in
      rw more (
        value-append (digits fuel (n / 10)) ((b'0' + n % 10) ∷ []) ∙ rw (e, e') (omega arith),
        all_bytes-append (digits fuel (n / 10)) ((b'0' + n % 10) ∷ []) k k',
      )
]

digits_some : (fuel n : ℕ) → 0 < length (digits (suc fuel) n)
unfolding digits
digits_some fuel n = elim (Bool-cases (ltb n 10)) [
  | inl last ↦ rw last (omega arith)
  | inr more ↦
      rw more (rw (length-append (digits fuel (n / 10)) ((b'0' + n % 10) ∷ [])) (omega arith))
]

set_string10_digits :
    (s : Text) → IsNumeral s → 0 < length s → set_string10 s ≡ some (pos (value s))
unfolding set_string10 all_bytes is_digit
set_string10_digits [] h k = absurd (omega (arith, k))
set_string10_digits (c ∷ s) h k = ground arith

-- An amount that is printed with any number of decimals, and read back with as many, is the amount.
pub format_atomic_roundtrip :
    (n decimals : ℕ) → atomic_of decimals (format_atomic (decimal n) decimals) ≡ n
unfolding format_atomic
format_atomic_roundtrip n decimals =
    let (e, h) = digits_lem (suc n) n (omega arith) in
    let read = set_string10_digits (decimal n) h (digits_some n n) ∙ ap (λ k. some (pos k)) e in
    rw (format_atomic, read)
      (elim (Bool-cases (decimals == 0)) [
        | inl whole ↦
            let none_behind : decimals ≡ 0 = ground arith in
            rw whole (plain decimals none_behind e h)
        | inr some_behind ↦ rw some_behind (
            with_point_lem (padded (decimal n) decimals) decimals
              (padded-IsNumeral (decimal n) decimals h) (padded_long (decimal n) decimals)
            ∙ padded_value (decimal n) decimals
            ∙ e)
      ])
  where
    plain :
        (d : ℕ)
        → d ≡ 0
        → value (decimal n) ≡ n
        → IsNumeral (decimal n)
        → atomic_of d (decimal n) ≡ n
    plain d z e h =
        unfold atomic_of in
        rw (before-joined (decimal n) [] h, behind-joined (decimal n) [] h, e, z)
          (unfold value in omega arith)
