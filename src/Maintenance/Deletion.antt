-- ===== src/Maintenance/Deletion.antt =====
-- The deletion by internal/maintenance/cleanup.go, against the scan runs.
use wallet_scan.Prelude.{
  ℕ, zero, suc, ◌≡◌, refl, false, List, [], ◌∷◌, nat_eq, take, arith, All, Bool-cases, inl, inr,
}
use wallet_scan.Store.Tables.{AddressRow, Database, has_address}
use wallet_scan.Store.Session.{
  Fault, fine, lost, late, Moment, Result, System, delivered, asked_once, statement,
}
use wallet_scan.Store.Scans.{address_of}
use wallet_scan.Scanner.Run.{Scanner}
use wallet_scan.Scanner.Run.Order.{IsRising, IsRising-mono, up_to}
use wallet_scan.Scanner.Run.Safety.{reached, IsSafeRun, IsSafe, All-map}
use wallet_scan.Maintenance.{candidates, without, cleanup}
use wallet_scan.Maintenance.Empty.{IsConfirmed}
use wallet_scan.Maintenance.Scanned.{DropsEmpty, deletion-DropsEmpty}

without-All :
    (P : AddressRow → Type 0) (doomed rows : List AddressRow)
    → All P rows
    → All P (without doomed rows)
unfolding without
without-All P doomed [] h = tt
without-All P doomed (a ∷ rows) h = elim (Bool-cases (has_address a.id doomed)) [
  | inl out ↦ rw out (without-All P doomed rows h.1)
  | inr kept ↦ rw kept (h.0, without-All P doomed rows h.1)
]

without-IsRising :
    (n : ℕ) (doomed rows : List AddressRow) → IsRising n rows → IsRising n (without doomed rows)
unfolding without
without-IsRising n doomed [] h = tt
without-IsRising n doomed (a ∷ rows) h = elim (Bool-cases (has_address a.id doomed)) [
  | inl out ↦
      rw out (without-IsRising n doomed rows (IsRising-mono a.id n rows (omega (arith, h.0)) h.1))
  | inr kept ↦ rw kept (h.0, without-IsRising a.id doomed rows h.1)
]

up_to-without :
    (n : ℕ) (doomed rows : List AddressRow)
    → up_to n (without doomed rows) ≡ without doomed (up_to n rows)
unfolding without up_to
up_to-without n doomed [] = refl
up_to-without n doomed (a ∷ rows) = ground (arith, up_to-without n doomed rows)

without-IsSafe :
    (sc : Scanner) (d : Database) (doomed : List AddressRow)
    → IsSafe sc d
    → IsSafe sc (record d { addresses = without doomed d.addresses })
without-IsSafe sc d doomed h = record {
  rising = without-IsRising 0 doomed d.addresses h.rising;
  started = h.started;
  numbered = without-All _ doomed d.addresses h.numbered;
  keyed = h.keyed;
  runs =
      All-map (IsSafeRun sc d) (IsSafeRun sc (record d { addresses = without doomed d.addresses }))
        d.runs
        (λ r s. record {
          bounded = s.bounded;
          numbered = s.numbered;
          done =
              rw (up_to-without (reached r.status r.run) doomed d.addresses)
                (without-All _ doomed _ s.done);
        })
        h.runs;
}

kept-DropsEmpty :
    (sc : Scanner) (rows : List AddressRow)
    → All (λ (a : AddressRow). has_address a.id rows ≡ false → IsConfirmed sc (address_of a)) rows
unfolding has_address
kept-DropsEmpty sc [] = tt
kept-DropsEmpty sc (a ∷ rows) = (
  (λ e. absurd (ground arith)),
  All-map _
      (λ (b : AddressRow). has_address b.id (a ∷ rows) ≡ false → IsConfirmed sc (address_of b)) rows
      (λ b h e. h (ground arith)) (kept-DropsEmpty sc rows),
)

-- What holds before a statement and after it takes effect holds after it, whatever the connection does.
statement-db :
    {A : Type 0} (P : Database → Type 0) (f : Moment → Database → Result A × Database) (s : System)
    → P s.db
    → ((m : Moment) → P (f m s.db).1)
    → P (statement f s).1.db
unfolding statement
statement-db P f s h k = by_fault (s.moments s.asked).fault
  where
    by_fault : (x : Fault) → P (delivered x (f (s.moments s.asked) s.db) (asked_once s)).1.db
    by_fault fine = k (s.moments s.asked)
    by_fault lost = h
    by_fault late = k (s.moments s.asked)

-- The clean-up of a safe database deletes no address but one whose chains were all answered in some batch
-- of the scanner, with no balance above zero: every row of the table is there afterwards or is of that
-- kind, whatever the cut-off and the batch size are and whether the answer is lost.
pub cleanup-DropsEmpty :
    (sc : Scanner) (cutoff size : ℕ) (s : System)
    → IsSafe sc s.db
    → DropsEmpty sc s.db (cleanup cutoff size s).1.db
unfolding cleanup
cleanup-DropsEmpty sc cutoff zero s h = kept-DropsEmpty sc s.db.addresses
cleanup-DropsEmpty sc cutoff (suc n) s h =
    statement-db (DropsEmpty sc s.db) _ s (kept-DropsEmpty sc s.db.addresses)
      (λ m. deletion-DropsEmpty sc s.db cutoff (suc n) h)

-- The clean-up leaves a safe database safe, also while a run is under way.
pub cleanup-IsSafe :
    (sc : Scanner) (cutoff size : ℕ) (s : System)
    → IsSafe sc s.db
    → IsSafe sc (cleanup cutoff size s).1.db
unfolding cleanup
cleanup-IsSafe sc cutoff zero s h = h
cleanup-IsSafe sc cutoff (suc n) s h =
    statement-db (IsSafe sc) _ s h
      (λ m. without-IsSafe sc s.db (take (suc n) (candidates cutoff s.db s.db.addresses)) h)
