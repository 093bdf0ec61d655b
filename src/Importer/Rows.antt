-- ===== src/Importer/Rows.antt =====
-- What `ParseCSV` returns.
use wallet_scan.Prelude.{
  ℕ, ◌≡◌, refl, ◌∙◌, sym, true, false, ◌||◌, List, [], ◌∷◌, ◌++◌, map, arith, ◌==◌, All, All-append,
}
use wallet_scan.Prelude.Texts.{Text, text_eq, text_beq_iff}
use wallet_scan.Domain.{AddressInput}
use wallet_scan.Importer.{
  Validated, valid, invalid, normalize_and_validate, Record, fields, broken, Parsed, addresses,
  key_of, contains, input_of, Row, row, miscounted, row_of, on_valid, on_row,
}

abbrev pub key : AddressInput → Text
key i = key_of i.address_type i.normalized

abbrev pub keys : List AddressInput → List Text
keys = map key

-- An address that passed validation, with its normal form.
abbrev pub IsValidInput : AddressInput → Type 0
IsValidInput i = normalize_and_validate i.address_type i.address ≡ valid i.normalized

-- No two have the same type and normal form.
abbrev pub AreDistinct : List AddressInput → Type 0
AreDistinct [] = Unit
AreDistinct (i ∷ is) = (contains (key i) (keys is) ≡ false) × AreDistinct is

-- A record that is an address, and one whose address is in a result.
abbrev pub IsFineRow : Row → Type 0
IsFineRow miscounted = ⊥
IsFineRow (row t a l) = (n : Text) × (normalize_and_validate t a ≡ valid n)

abbrev pub IsFine : Record → Type 0
IsFine (broken m) = ⊥
IsFine (fields f) = IsFineRow (row_of f)

abbrev pub IsListedRow : List AddressInput → Row → Type 0
IsListedRow out miscounted = ⊥
IsListedRow out (row t a l) =
    (n : Text) × (normalize_and_validate t a ≡ valid n) × (contains (key_of t n) (keys out) ≡ true)

abbrev pub IsListed : List AddressInput → Record → Type 0
IsListed out (broken m) = ⊥
IsListed out (fields f) = IsListedRow out (row_of f)

pub contains-snoc :
    (k : Text) (out : List AddressInput) (i : AddressInput)
    → contains k (keys (out ++ i ∷ [])) ≡ contains k (keys out) || key i == k
unfolding contains
contains-snoc k [] i = ground arith
contains-snoc k (j ∷ out) i = ground (arith, contains-snoc k out i)

distinct-snoc :
    (out : List AddressInput) (i : AddressInput)
    → AreDistinct out
    → contains (key i) (keys out) ≡ false
    → AreDistinct (out ++ i ∷ [])
unfolding contains
distinct-snoc [] i d h = (refl, tt)
distinct-snoc (j ∷ out) i d h = (
  ground (
    arith,
    contains-snoc (key j) out i,
    text_beq_iff (key i) (key j),
    text_beq_iff (key j) (key i),
  ),
  distinct-snoc out i d.1 (ground arith),
)

-- The loop's variables agree: the keys seen are those of the addresses so far, which are valid and
-- distinct.
pub record Agrees (seen : List Text) (out : List AddressInput) : Type 0 where
  pub same : (k : Text) → contains k seen ≡ contains k (keys out)
  pub all_valid : All IsValidInput out
  pub distinct : AreDistinct out

pub added-Agrees :
    (seen : List Text) (out : List AddressInput) (t a l n : Text)
    → Agrees seen out
    → normalize_and_validate t a ≡ valid n
    → contains (key_of t n) seen ≡ false
    → Agrees (key_of t n ∷ seen) (out ++ input_of t a n l ∷ [])
unfolding contains
added-Agrees seen out t a l n g v fresh = record {
  same = λ k. ground (arith, contains-snoc k out (input_of t a n l), g.same k);
  all_valid = All-append IsValidInput out (input_of t a n l ∷ []) g.all_valid (v, tt);
  distinct = distinct-snoc out (input_of t a n l) g.distinct (sym (g.same (key_of t n)) ∙ fresh);
}

-- What the rest of a file leaves: a valid and distinct result that keeps what was there.
abbrev pub Extends : List AddressInput → List AddressInput → Type 0
Extends out res = (k : Text) → contains k (keys out) ≡ true → contains k (keys res) ≡ true

pub row_inv :
    (next : List Text → List AddressInput → Parsed) (line : ℕ) (seen : List Text)
    (out res : List AddressInput) (r : Row)
    → on_row next line seen out r ≡ addresses res
    → (t : Text) × (a : Text) × (l : Text) × (n : Text) × (r ≡ row t a l)
      × (normalize_and_validate t a ≡ valid n)
      × (on_valid next seen out t a l n ≡ addresses res)
unfolding on_row
row_inv next line seen out res miscounted h = absurd (cc)
row_inv next line seen out res (row t a l) h = by_validity (normalize_and_validate t a) refl
  where
    by_validity :
        (v : Validated)
        → normalize_and_validate t a ≡ v
        → (t' : Text) × (a' : Text) × (l' : Text) × (n : Text) × (row t a l ≡ row t' a' l')
          × (normalize_and_validate t' a' ≡ valid n)
          × (on_valid next seen out t' a' l' n ≡ addresses res)
    by_validity (invalid x) e = absurd (ground arith)
    by_validity (valid n) e = (t, a, l, n, refl, e, ground arith)
