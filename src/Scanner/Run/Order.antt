-- ===== src/Scanner/Run/Order.antt =====
-- Batches and the order of ids: the addresses up to the last id of a batch are those up to the cursor
-- and the batch.
use wallet_scan.Prelude.{
  ℕ, zero, suc, ◌≤◌, ◌<◌, ◌≡◌, refl, sym, ◌∙◌, ap, true, false, ◌&&◌, List, [], ◌∷◌, ◌++◌, map,
  arith, take, ltb, leb, if◌then◌else◌, Bool-cases, inl, inr,
}
use wallet_scan.Domain.{Address}
use wallet_scan.Store.Tables.{AddressRow}
use wallet_scan.Store.Scans.{between, address_of}
use wallet_scan.Scanner.Run.{last_id}

-- The ids rise, from above `n`.
abbrev pub IsRising : ℕ → List AddressRow → Type 0
IsRising n [] = Unit
IsRising n (a ∷ rows) = (n < a.id) × IsRising a.id rows

unfoldable pub up_to : ℕ → List AddressRow → List AddressRow
up_to n [] = []
up_to n (a ∷ rows) = let rest = up_to n rows in if leb a.id n then a ∷ rest else rest

abbrev pub batch_of : ℕ → ℕ → ℕ → List AddressRow → List Address
batch_of size low high rows = map address_of (take size (between low high rows))

leb→le : (a b : ℕ) → leb a b ≡ true → a ≤ b
leb→le a b h = ground arith

pub up_to-rising : (n m : ℕ) (rows : List AddressRow) → IsRising n rows → m ≤ n → up_to m rows ≡ []
unfolding up_to
up_to-rising n m [] r h = refl
up_to-rising n m (a ∷ rows) r h = ground (arith, up_to-rising a.id m rows r.1)

between-rising :
    (n low high : ℕ) (rows : List AddressRow)
    → IsRising n rows
    → high ≤ n
    → between low high rows ≡ []
unfolding between
between-rising n low high [] r h = refl
between-rising n low high (a ∷ rows) r h = ground (arith, between-rising a.id low high rows r.1)

pub IsRising-mono : (n m : ℕ) (rows : List AddressRow) → m ≤ n → IsRising n rows → IsRising m rows
IsRising-mono n m [] h r = tt
IsRising-mono n m (a ∷ rows) h r = (omega arith, r.1)

last_id_rising :
    (n size low high : ℕ) (rows : List AddressRow)
    → IsRising n rows
    → n ≤ last_id n (batch_of size low high rows)
unfolding between last_id
last_id_rising n zero low high rows r = omega arith
last_id_rising n (suc size) low high [] r = omega arith
last_id_rising n (suc size) low high (a ∷ rows) r =
    elim (Bool-cases (ltb low a.id && leb a.id high)) [
      | inl taken ↦ rw taken (omega (arith, last_id_rising a.id size low high rows r.1, r.0))
      | inr passed ↦
          rw passed (
            last_id_rising n (suc size) low high rows (IsRising-mono a.id n rows (omega arith) r.1))
    ]

last_id_above :
    (n size low high : ℕ) (rows : List AddressRow)
    → low ≤ n
    → low ≤ last_id n (batch_of size low high rows)
unfolding between last_id
last_id_above n zero low high rows h = h
last_id_above n (suc size) low high [] h = h
last_id_above n (suc size) low high (a ∷ rows) h =
    elim (Bool-cases (ltb low a.id && leb a.id high)) [
      | inl taken ↦ rw taken (last_id_above a.id size low high rows (ground arith))
      | inr passed ↦ rw passed (last_id_above n (suc size) low high rows h)
    ]

pub last_id-le :
    (n size low high : ℕ) (rows : List AddressRow)
    → n ≤ high
    → last_id n (batch_of size low high rows) ≤ high
unfolding between last_id
last_id-le n zero low high rows h = h
last_id-le n (suc size) low high [] h = h
last_id-le n (suc size) low high (a ∷ rows) h = elim (Bool-cases (ltb low a.id && leb a.id high)) [
  | inl taken ↦ rw taken (last_id-le a.id size low high rows (ground arith))
  | inr passed ↦ rw passed (last_id-le n (suc size) low high rows h)
]

between_in :
    (low high : ℕ) (a : AddressRow) (rows : List AddressRow)
    → (ltb low a.id && leb a.id high) ≡ true
    → between low high (a ∷ rows) ≡ a ∷ between low high rows
unfolding between
between_in low high a rows h = rw h

between_out :
    (low high : ℕ) (a : AddressRow) (rows : List AddressRow)
    → (ltb low a.id && leb a.id high) ≡ false
    → between low high (a ∷ rows) ≡ between low high rows
unfolding between
between_out low high a rows h = rw h

up_to_in :
    (n : ℕ) (a : AddressRow) (rows : List AddressRow)
    → a.id ≤ n
    → up_to n (a ∷ rows) ≡ a ∷ up_to n rows
unfolding up_to
up_to_in n a rows h = ground arith

up_to_behind :
    (n size low high : ℕ) (rows : List AddressRow)
    → IsRising n rows
    → low ≤ n
    → up_to (last_id n (batch_of size low high rows)) rows ≡ take size (between low high rows)
unfolding last_id
up_to_behind n zero low high rows r h = up_to-rising n n rows r (omega arith)
up_to_behind n (suc size) low high [] r h = unfold between up_to in refl
up_to_behind n (suc size) low high (a ∷ rows) r h =
    elim (Bool-cases (ltb low a.id && leb a.id high)) [
      | inl taken ↦ rw (between_in low high a rows taken) (
          rw (up_to_in _ a rows (last_id_rising a.id size low high rows r.1))
            (ap (λ l. a ∷ l) (up_to_behind a.id size low high rows r.1 (omega (arith, r.0)))))
      | inr passed ↦
          let none_left : between low high rows ≡ [] =
            between-rising a.id low high rows r.1 (ground arith) in
          rw (between_out low high a rows passed, none_left)
            (up_to-rising n n (a ∷ rows) r (omega arith))
    ]

-- The addresses up to the end of a batch.
pub up_to-batch :
    (n size c high : ℕ) (rows : List AddressRow)
    → IsRising n rows
    → up_to (last_id c (batch_of size c high rows)) rows
      ≡ up_to c rows ++ take size (between c high rows)
up_to-batch n zero c high [] r = unfold between up_to in refl
up_to-batch n (suc size) c high [] r = unfold between up_to in refl
up_to-batch n size c high (a ∷ rows) r = elim (Bool-cases (leb a.id c)) [
  | inl before ↦
      rw (between_out c high a rows (ground arith), up_to_in c a rows (ground arith))
        (rw
          (up_to_in (last_id c (batch_of size c high rows)) a rows
            (omega (arith, last_id_above c size c high rows (omega arith), leb→le a.id c before)))
          (ap (λ l. a ∷ l) (up_to-batch a.id size c high rows r.1)))
  | inr behind ↦
      let front : IsRising c (a ∷ rows) = (ground arith, r.1) in
      rw (up_to-rising c c (a ∷ rows) front (omega arith))
        (up_to_behind c size c high (a ∷ rows) front (omega arith))
]

-- With nothing left between the cursor and the end, the end is reached.
pub up_to_end :
    (c high : ℕ) (rows : List AddressRow)
    → c ≤ high
    → between c high rows ≡ []
    → up_to high rows ≡ up_to c rows
unfolding up_to
up_to_end c high [] h e = refl
up_to_end c high (a ∷ rows) h e = elim (Bool-cases (ltb c a.id && leb a.id high)) [
  | inl inside ↦ absurd (cc (between_in c high a rows inside, e))
  | inr outside ↦
      ground (arith, up_to_end c high rows h (sym (between_out c high a rows outside) ∙ e))
]
