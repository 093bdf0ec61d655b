-- ===== src/Scanner/Run/Counts.antt =====
-- How many addresses are left between the cursor and the end, round by round.
use wallet_scan.Prelude.{
  ℕ, ◌+◌, ◌≤◌, ◌≡◌, refl, List, [], ◌∷◌, arith, take, length, length-append, ap, ◌∙◌,
}
use wallet_scan.Store.Tables.{AddressRow}
use wallet_scan.Store.Scans.{between}
use wallet_scan.Scanner.Run.{last_id}
use wallet_scan.Scanner.Run.Order.{IsRising, up_to, batch_of, up_to-batch, last_id-le}

length-up_to :
    (c high : ℕ) (rows : List AddressRow)
    → c ≤ high
    → length (up_to c rows) + length (between c high rows) ≡ length (up_to high rows)
unfolding up_to between
length-up_to c high [] h = refl
length-up_to c high (a ∷ rows) h = ground (arith, length-up_to c high rows h)

pub length-between :
    (c high : ℕ) (rows : List AddressRow) → length (between c high rows) ≤ length rows
unfolding between
length-between c high [] = omega arith
length-between c high (a ∷ rows) = ground (arith, length-between c high rows)

-- A batch that takes an address leaves fewer of them.
pub between-batch :
    (size c high : ℕ) (rows : List AddressRow)
    → IsRising 0 rows
    → c ≤ high
    → length (between (last_id c (batch_of size c high rows)) high rows)
        + length (take size (between c high rows))
      ≡ length (between c high rows)
between-batch size c high rows r h =
    let next = last_id c (batch_of size c high rows) in
    let before = length-up_to c high rows h in
    let behind = length-up_to next high rows (last_id-le c size c high rows h) in
    let batch : length (up_to next rows)
        ≡ length (up_to c rows) + length (take size (between c high rows)) =
      ap length (up_to-batch 0 size c high rows r)
      ∙ length-append (up_to c rows) (take size (between c high rows)) in
    omega (arith, before, behind, batch)
