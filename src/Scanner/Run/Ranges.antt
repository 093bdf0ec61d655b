-- ===== src/Scanner/Run/Ranges.antt =====
-- The range of a new run: the addresses below it are those of the completed runs, and it takes the rest.
use wallet_scan.Prelude.{
  ℕ, ◌-◌, ◌≤◌, ◌<◌, ◌≡◌, refl, sym, subst, Bool, true, false, List, [], ◌∷◌, arith, ltb, leb,
  if◌then◌else◌, Bool-cases, inl, inr, All, Option, none, some,
}
use wallet_scan.Store.Tables.{AddressRow}
use wallet_scan.Store.Scans.{id_range, above}
use wallet_scan.Scanner.Run.Order.{up_to}
use wallet_scan.Scanner.Run.Safety.{All-map}

abbrev pub Ids : (ℕ → Type 0) → List AddressRow → Type 0
Ids P rows = All (λ (a : AddressRow). P a.id) rows

-- The ends of a range are ids, and the range holds every id.
abbrev pub IsRange : (ℕ → Type 0) → List AddressRow → Option (ℕ × ℕ) → Type 0
IsRange P rows none = rows ≡ []
IsRange P rows (some (low, high)) =
    (P low × P high) × ((low ≤ high) × Ids (λ i. (low ≤ i) × (i ≤ high)) rows)

widen :
    (P : ℕ → Type 0) (low high l h : ℕ) (rows : List AddressRow)
    → l ≤ low
    → high ≤ h
    → Ids (λ i. (low ≤ i) × (i ≤ high)) rows
    → Ids (λ i. (l ≤ i) × (i ≤ h)) rows
widen P low high l h rows a b r =
    All-map (λ (x : AddressRow). (low ≤ x.id) × (x.id ≤ high))
      (λ (x : AddressRow). (l ≤ x.id) × (x.id ≤ h)) rows
      (λ x (c, d). (omega (arith, a, c), omega (arith, b, d))) r

pub id_range-IsRange :
    (P : ℕ → Type 0) (rows : List AddressRow) → Ids P rows → IsRange P rows (id_range rows)
unfolding id_range
id_range-IsRange P [] h = refl
id_range-IsRange P (a ∷ rows) h = by_rest (id_range rows) (id_range-IsRange P rows h.1)
  where
    by_rest :
        (o : Option (ℕ × ℕ))
        → IsRange P rows o
        → IsRange P (a ∷ rows) (elim o [
          | none ↦ some (a.id, a.id)
          | some (low, high) ↦
              some (if ltb a.id low then a.id else low, if ltb high a.id then a.id else high)
        ])
    by_rest none r = ((h.0, h.0), (omega arith, ((omega arith, omega arith), rw r tt)))
    by_rest (some (low, high)) ((p, q), (o, r)) =
        let b = ltb a.id low in
        let c = ltb high a.id in
        (
          (either b h.0 p, either c h.0 q),
          (
            ground (arith, o),
            (
              (ground arith, ground arith),
              widen P low high (if b then a.id else low) (if c then a.id else high) rows
                  (ground arith) (ground arith) r,
            ),
          ),
        )
      where
        either : {m n : ℕ} (b : Bool) → P m → P n → P (if b then m else n)
        either true k l = k
        either false k l = l

-- What holds of the ids up to `n` and of those above holds of all.
pub Ids-above :
    (P : ℕ → Type 0) (n : ℕ) (rows : List AddressRow)
    → ((i : ℕ) → i ≤ n → P i)
    → Ids P (above n rows)
    → Ids P rows
unfolding above
Ids-above P n [] low h = tt
Ids-above P n (a ∷ rows) low h = elim (Bool-cases (ltb n a.id)) [
  | inl over ↦
      let h' : Ids P (a ∷ above n rows) =
        subst (λ b. Ids P (if b then a ∷ above n rows else above n rows)) over h in
      (h'.0, Ids-above P n rows low h'.1)
  | inr under ↦
      let h' : Ids P (above n rows) =
        subst (λ b. Ids P (if b then a ∷ above n rows else above n rows)) under h in
      (low a.id (ground arith), Ids-above P n rows low h')
]

pub above-Ids :
    (P : ℕ → Type 0) (n : ℕ) (rows : List AddressRow)
    → Ids P rows
    → Ids (λ i. (n < i) × P i) (above n rows)
unfolding above
above-Ids P n [] h = tt
above-Ids P n (a ∷ rows) h = elim (Bool-cases (ltb n a.id)) [
  | inl over ↦ rw over ((ground arith, h.0), above-Ids P n rows h.1)
  | inr under ↦ rw under (above-Ids P n rows h.1)
]

up_to_all : (n : ℕ) (rows : List AddressRow) → Ids (λ i. i ≤ n) rows → up_to n rows ≡ rows
unfolding up_to
up_to_all n [] h = refl
up_to_all n (a ∷ rows) h = ground (arith, h.0, up_to_all n rows h.1)

up_to_same :
    (n m : ℕ) (rows : List AddressRow)
    → Ids (λ i. leb i n ≡ leb i m) rows
    → up_to n rows ≡ up_to m rows
unfolding up_to
up_to_same n m [] h = refl
up_to_same n m (a ∷ rows) h = ground (arith, h.0, up_to_same n m rows h.1)

-- With no address above `n`, those up to `n` are all.
pub above_none : (n : ℕ) (rows : List AddressRow) → above n rows ≡ [] → up_to n rows ≡ rows
above_none n rows e =
    up_to_all n rows
      (Ids-above (λ i. i ≤ n) n rows (λ i h. h) (subst (Ids (λ i. i ≤ n)) (sym e) tt))

-- A range of the addresses above `n`.
pub range_all :
    (n low high : ℕ) (rows : List AddressRow)
    → n < low
    → low ≤ high
    → Ids (λ i. (low ≤ i) × (i ≤ high)) (above n rows)
    → (up_to (low - 1) rows ≡ up_to n rows) × (up_to high rows ≡ rows)
range_all n low high rows h k r = (
  up_to_same (low - 1) n rows (
      Ids-above (λ i. leb i (low - 1) ≡ leb i n) n rows (λ i l. ground arith)
        (All-map _ (λ (a : AddressRow). leb a.id (low - 1) ≡ leb a.id n) (above n rows)
          (λ a (b, c). ground arith) r)),
  up_to_all high rows (
      Ids-above (λ i. i ≤ high) n rows (λ i l. omega arith)
        (All-map _ (λ (a : AddressRow). a.id ≤ high) (above n rows) (λ a (b, c). c) r)),
)
