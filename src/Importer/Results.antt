-- ===== src/Importer/Results.antt =====
-- `ParseCSV` succeeds exactly on a file of valid records, and returns each address once.
use wallet_scan.Prelude.{
  ℕ, suc, ◌≡◌, refl, ◌∙◌, sym, true, false, List, [], ◌∷◌, ◌++◌, arith, Bool-cases, inl, inr, All,
}
use wallet_scan.Prelude.Texts.{Text, text_eq, text_beq_iff}
use wallet_scan.Domain.{AddressInput}
use wallet_scan.Importer.{
  valid, normalize_and_validate, Record, fields, broken, Parsed, addresses, key_of, contains,
  input_of, Row, row, miscounted, row_of, on_valid, on_row, parse_rows, parse_csv, is_header,
}
use wallet_scan.Importer.Rows.{
  key, keys, IsValidInput, AreDistinct, IsFineRow, IsFine, IsListedRow, IsListed, Agrees, Extends,
  added-Agrees, row_inv, contains-snoc,
}

-- What a loop that ends with `res` has done, from `out` on.
abbrev Good : List AddressInput → List Record → List AddressInput → Type 0
Good out rest res =
    All IsValidInput res × AreDistinct res × Extends out res × All (IsListed res) rest

listed_row :
    (out res : List AddressInput) (t a l n : Text) (r : Row)
    → r ≡ row t a l
    → normalize_and_validate t a ≡ valid n
    → contains (key_of t n) (keys res) ≡ true
    → IsListedRow res r
listed_row out res t a l n r e v h = rw e (n, v, h)

module _ (next : List Text → List AddressInput → Parsed) (seen : List Text)
    (out : List AddressInput) (t a l n : Text) where
  on_valid_known :
      contains (key_of t n) seen ≡ true → on_valid next seen out t a l n ≡ next seen out
  unfolding on_valid
  on_valid_known h = rw h

  on_valid_fresh :
      contains (key_of t n) seen ≡ false
      → on_valid next seen out t a l n ≡ next (key_of t n ∷ seen) (out ++ input_of t a n l ∷ [])
  unfolding on_valid
  on_valid_fresh h = rw h

on_row_valid :
    (next : List Text → List AddressInput → Parsed) (line : ℕ) (seen : List Text)
    (out : List AddressInput) (t a l n : Text)
    → normalize_and_validate t a ≡ valid n
    → on_row next line seen out (row t a l) ≡ on_valid next seen out t a l n
unfolding on_row
on_row_valid next line seen out t a l n v = ground arith

snoc_self :
    (out : List AddressInput) (i : AddressInput) → contains (key i) (keys (out ++ i ∷ [])) ≡ true
snoc_self out i = ground (arith, contains-snoc (key i) out i, text_beq_iff (key i) (key i))

snoc_keeps :
    (k : Text) (out : List AddressInput) (i : AddressInput)
    → contains k (keys out) ≡ true
    → contains k (keys (out ++ i ∷ [])) ≡ true
snoc_keeps k out i h = ground (arith, contains-snoc k out i)

parse_rows-Good :
    (rest : List Record) (line : ℕ) (seen : List Text) (out res : List AddressInput)
    → Agrees seen out
    → parse_rows line seen out rest ≡ addresses res
    → Good out rest res
unfolding parse_rows
parse_rows-Good [] line seen out res g h =
    let e : out ≡ res = cc in rw (sym e) (g.all_valid, g.distinct, (λ k c. c), tt)
parse_rows-Good (broken m ∷ rest) line seen out res g h = absurd (cc)
parse_rows-Good (fields f ∷ rest) line seen out res g h =
    let (t, a, l, n, is_row, v, h') =
      row_inv (λ seen' out'. parse_rows (suc line) seen' out' rest) line seen out res (row_of f)
        h in
    by_seen t a l n is_row v h' (parse_rows-Good rest (suc line) seen out res)
      (parse_rows-Good rest (suc line) (key_of t n ∷ seen) (out ++ input_of t a n l ∷ []) res)
  where
    by_seen :
        (t a l n : Text)
        → row_of f ≡ row t a l
        → normalize_and_validate t a ≡ valid n
        → on_valid (λ seen' out'. parse_rows (suc line) seen' out' rest) seen out t a l n
          ≡ addresses res
        → (Agrees seen out
            → parse_rows (suc line) seen out rest ≡ addresses res
            → Good out rest res)
        → (Agrees (key_of t n ∷ seen) (out ++ input_of t a n l ∷ [])
            → parse_rows (suc line) (key_of t n ∷ seen) (out ++ input_of t a n l ∷ []) rest
              ≡ addresses res
            → Good (out ++ input_of t a n l ∷ []) rest res)
        → Good out (fields f ∷ rest) res
    by_seen t a l n is_row v h' old new = elim (Bool-cases (contains (key_of t n) seen)) [
      | inl known ↦
          let (all_valid, distinct, kept, listed) =
            old g (sym (on_valid_known _ seen out t a l n known) ∙ h') in
          let here = kept (key_of t n) (sym (g.same (key_of t n)) ∙ known) in
          (all_valid, distinct, kept, (listed_row out res t a l n (row_of f) is_row v here, listed))
      | inr fresh ↦
          let (all_valid, distinct, kept, listed) =
            new (added-Agrees seen out t a l n g v fresh)
              (sym (on_valid_fresh _ seen out t a l n fresh) ∙ h') in
          let here = kept (key_of t n) (snoc_self out (input_of t a n l)) in
          (
            all_valid,
            distinct,
            (λ k c. kept k (snoc_keeps k out (input_of t a n l) c)),
            (listed_row out res t a l n (row_of f) is_row v here, listed),
          )
    ]

-- A successful import: every address in the result was accepted as valid and stands there with its
-- normal form, no two have the same type and normal form, and the address of every record of the file
-- is in the result.
pub parse_csv_sound :
    (header : List Text) (rest : List Record) (res : List AddressInput)
    → parse_csv (fields header ∷ rest) ≡ addresses res
    → (is_header header ≡ true) × All IsValidInput res × AreDistinct res × All (IsListed res) rest
unfolding parse_csv
parse_csv_sound header rest res h =
    let start : Agrees [] [] = record { same = λ k. refl; all_valid = tt; distinct = tt } in
    elim (Bool-cases (is_header header)) [
      | inl good ↦
          let (all_valid, distinct, kept, listed) =
            parse_rows-Good rest 2 [] [] res start (ground arith) in
          (good, all_valid, distinct, listed)
      | inr bad ↦ absurd (ground arith)
    ]

parse_rows_total :
    (rest : List Record) (line : ℕ) (seen : List Text) (out : List AddressInput)
    → All IsFine rest
    → (res : List AddressInput) × (parse_rows line seen out rest ≡ addresses res)
unfolding parse_rows
parse_rows_total [] line seen out h = (out, refl)
parse_rows_total (broken m ∷ rest) line seen out h = absurd h.0
parse_rows_total (fields f ∷ rest) line seen out h =
    by_row (row_of f) h.0 (λ seen' out'. parse_rows_total rest (suc line) seen' out' h.1)
  where
    by_row :
        (r : Row)
        → IsFineRow r
        → ((seen' : List Text) (out' : List AddressInput)
            → (res : List AddressInput) × (parse_rows (suc line) seen' out' rest ≡ addresses res))
        → (res : List AddressInput) × (on_row
              (λ seen' out'. parse_rows (suc line) seen' out' rest)
              line
              seen
              out
              r
            ≡ addresses res)
    by_row miscounted fine total = absurd fine
    by_row (row t a l) (n, v) total = elim (Bool-cases (contains (key_of t n) seen)) [
      | inl known ↦
          let (res, e) = total seen out in
          (
            res,
            on_row_valid _ line seen out t a l n v ∙ on_valid_known _ seen out t a l n known ∙ e,
          )
      | inr fresh ↦
          let (res, e) = total (key_of t n ∷ seen) (out ++ input_of t a n l ∷ []) in
          (
            res,
            on_row_valid _ line seen out t a l n v ∙ on_valid_fresh _ seen out t a l n fresh ∙ e,
          )
    ]

-- The importer refuses nothing that is well formed: with an accepted header and records that each
-- hold two or three fields and a valid address, the import succeeds, repeated addresses included.
pub parse_csv_complete :
    (header : List Text) (rest : List Record)
    → is_header header ≡ true
    → All IsFine rest
    → (res : List AddressInput) × (parse_csv (fields header ∷ rest) ≡ addresses res)
unfolding parse_csv
parse_csv_complete header rest good fine = rw good (parse_rows_total rest 2 [] [] fine)
