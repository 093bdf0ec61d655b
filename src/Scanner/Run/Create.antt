-- ===== src/Scanner/Run/Create.antt =====
-- The new run that `RunOnce` creates: `UnscannedRange` and `CreateScan` of internal/db/store.go.
use wallet_scan.Prelude.{
  ℕ, ◌-◌, ◌≤◌, ◌<◌, ◌≡◌, refl, subst, true, false, ◌&&◌, ◌||◌, List, [], ◌∷◌, ◌++◌, arith, nat_eq,
  ltb, Bool-cases, inl, inr, All, Option, none, some,
}
use wallet_scan.Domain.{RunStatus, running, paused, completed, failed, ScanRun}
use wallet_scan.Store.Tables.{RunRow, Database}
use wallet_scan.Store.Session.{Moment}
use wallet_scan.Store.Scans.{has_run, is_completed, id_range, above, last_end, new_run, insert_run}
use wallet_scan.Store.Rules.{Ends}
use wallet_scan.Scanner.Run.{Scanner}
use wallet_scan.Scanner.Run.Order.{up_to, up_to-rising}
use wallet_scan.Scanner.Run.Coverage.{AreDone}
use wallet_scan.Scanner.Run.Safety.{reached, IsSafeRun, IsSafe, AreKeyed, All-map}
use wallet_scan.Scanner.Run.Loop.{Moves, Moves-IsPreorder, Ready}
use wallet_scan.Scanner.Run.Rounds.{All-append}
use wallet_scan.Scanner.Run.Ranges.{IsRange, id_range-IsRange, above-Ids, above_none, range_all}
use wallet_scan.Scanner.Run.Start.{no_run-Tracks}

-- A range that a new run may take: what is below it is done, and it holds the rest.
pub record IsOpen (sc : Scanner) (d : Database) (low high : ℕ) : Type 0 where
  pub bounded : low ≤ high
  pub numbered : high < d.sequences.address_id
  pub done : AreDone sc d (up_to (low - 1) d.addresses)
  pub rest : up_to high d.addresses ≡ d.addresses

abbrev pub Opens : Scanner → Option (ℕ × ℕ) → Database → Type 0
Opens sc none d = AreDone sc d d.addresses
Opens sc (some (low, high)) d = IsOpen sc d low high

-- The last completed run: what is up to its end is done.
last_end-done :
    (sc : Scanner) (d : Database) (rows : List RunRow)
    → AreDone sc d (up_to 0 d.addresses)
    → All (IsSafeRun sc d) rows
    → AreDone sc d (up_to (last_end rows) d.addresses)
unfolding last_end
last_end-done sc d [] z h = z
last_end-done sc d (r ∷ rows) z h =
    elim (Bool-cases (is_completed r.status && ltb (last_end rows) r.end_id)) [
      | inl further ↦ rw further (
          subst (λ n. AreDone sc d (up_to n d.addresses))
            (completed_end r.status r.run (ground arith)) h.0.done)
      | inr other ↦ rw other (last_end-done sc d rows z h.1)
    ]
  where
    completed_end :
        (status : RunStatus) (r : ScanRun)
        → is_completed status ≡ true
        → reached status r ≡ r.end_id
    completed_end completed r h = refl
    completed_end running r h = absurd (cc)
    completed_end paused r h = absurd (cc)
    completed_end failed r h = absurd (cc)

pub range-Opens :
    (sc : Scanner) (d : Database)
    → IsSafe sc d
    → Opens sc (id_range (above (last_end d.runs) d.addresses)) d
range-Opens sc d h = by_range (id_range (above n d.addresses)) (
    id_range-IsRange (λ i. (n < i) × (i < d.sequences.address_id)) (above n d.addresses)
      (above-Ids (λ i. i < d.sequences.address_id) n d.addresses h.numbered))
  where
    n : ℕ
    n = last_end d.runs

    behind : AreDone sc d (up_to n d.addresses)
    behind =
        last_end-done sc d d.runs (rw (up_to-rising 0 0 d.addresses h.rising (omega arith)) tt)
          h.runs

    by_range :
        (o : Option (ℕ × ℕ))
        → IsRange (λ i. (n < i) × (i < d.sequences.address_id)) (above n d.addresses) o
        → Opens sc o d
    by_range none e = subst (AreDone sc d) (above_none n d.addresses e) behind
    by_range (some (low, high)) (((a, b), (p, q)), (ordered, r)) =
        let (below, all) = range_all n low high d.addresses a ordered r in
        record { bounded = ordered; numbered = q; done = rw below behind; rest = all }

AreKeyed-append :
    (rows : List RunRow) (r : RunRow)
    → has_run r.id rows ≡ false
    → AreKeyed rows
    → AreKeyed (rows ++ r ∷ [])
unfolding has_run
AreKeyed-append [] r h k = (refl, tt)
AreKeyed-append (x ∷ rows) r h k = (apart rows k.0, AreKeyed-append rows r (ground arith) k.1)
  where
    apart : (ys : List RunRow) → has_run x.id ys ≡ false → has_run x.id (ys ++ r ∷ []) ≡ false
    apart [] e = ground arith
    apart (y ∷ ys) e = ground (arith, apart ys)

module _ (sc : Scanner) where
  pub insert_run-Ends :
      (low high : ℕ) (m : Moment) (d : Database)
      → IsSafe sc d
      → IsOpen sc d low high
      → Ends
          (Moves sc)
          (λ r e. Ready sc r e × (r.end_id ≡ high) × (up_to high e.addresses ≡ e.addresses))
          d
          (insert_run low high m d).0
          (insert_run low high m d).1
  unfolding insert_run
  insert_run-Ends low high m d h o =
      elim (Bool-cases (has_run m.uuid d.runs || ltb low 1 || ltb high low || ltb high (low - 1))) [
        | inl refused ↦ rw refused ((Moves-IsPreorder sc).same d, tt)
        | inr fine ↦ rw fine (
          record { addresses = refl; number = refl; safe = λ _. created (ground arith) },
          (
            record {
              safe = created (ground arith);
              tracks =
                  All-append _ d.runs (row ∷ [])
                    (no_run-Tracks (new_run m.uuid low high) d.runs (ground arith)) (λ e. refl, tt);
              done = o.done;
              bounded = omega (arith, o.bounded);
            },
            refl,
            o.rest,
          ),
        )
      ]
    where
      row : RunRow
      row = record { run = new_run m.uuid low high; started_at = m.now; completed_at = none }

      created : has_run m.uuid d.runs ≡ false → IsSafe sc (record d { runs = d.runs ++ row ∷ [] })
      created fresh = record {
        rising = h.rising;
        started = h.started;
        numbered = h.numbered;
        keyed = AreKeyed-append d.runs row fresh h.keyed;
        runs =
            All-append _ d.runs (row ∷ [])
              (All-map (IsSafeRun sc d) (IsSafeRun sc (record d { runs = d.runs ++ row ∷ [] }))
                d.runs (λ r s. record { bounded = s.bounded; numbered = s.numbered; done = s.done })
                h.runs)
              (
                record { bounded = omega (arith, o.bounded); numbered = o.numbered; done = o.done },
                tt,
              );
      }
