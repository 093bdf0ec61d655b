-- ===== src/Scanner/Run/Rounds.antt =====
-- The loop of a run, round by round.
use wallet_scan.Prelude.{
  ℕ, zero, suc, ◌≤◌, ◌<◌, ◌≡◌, refl, sym, ◌∙◌, ap, subst, List, [], ◌∷◌, ◌++◌, map, arith, nat_eq,
  Bool-cases, inl, inr, All, take, length, length-map,
}
use wallet_scan.Domain.{Address, ScanRun}
use wallet_scan.Scanner.Check.{AddressResult}
use wallet_scan.Store.Tables.{AddressRow, Database}
use wallet_scan.Store.Session.{System, M, fail, scan_paused, ◌>>◌, for_each}
use wallet_scan.Store.Scans.{between, address_of, advance_scan, pause_scan, next_addresses}
use wallet_scan.Store.Kept.{Kept, Kept-IsPreorder, select-Runs}
use wallet_scan.Store.Rules.{Runs, bind-Runs}
use wallet_scan.Scanner.Run.{
  Scanner, Tally, tally, last_id, process_batch, save_result, close_batch, take_batch, run,
}
use wallet_scan.Scanner.Run.Order.{up_to, batch_of, up_to-batch, last_id-le}
use wallet_scan.Scanner.Run.Counts.{between-batch}
use wallet_scan.Scanner.Run.Coverage.{IsDone, AreDone, AreDone-map, Recorded}
use wallet_scan.Scanner.Run.Batch.{IsFair, process_batch-Runs, save_results-Runs, Settles}
use wallet_scan.Scanner.Run.Loop.{
  Moves, Moves-IsPreorder, Kept-Moves-Runs, Ready, Ready-Kept, pause_scan-Runs, complete_scan-Runs,
  advance_scan-Runs,
}

pub All-append :
    {A : Type 0} (P : A → Type 0) (xs ys : List A) → All P xs → All P ys → All P (xs ++ ys)
All-append P [] ys h k = k
All-append P (x ∷ xs) ys h k = (h.0, All-append P xs ys h.1 k)

-- The addresses that a run has left.
abbrev left_of : ScanRun → Database → ℕ
left_of r d = length (between r.cursor_id r.end_id d.addresses)

-- What a run has done at its end.
abbrev Ended : Scanner → ScanRun → Unit {0} → Database → Type 0
Ended sc r u d = AreDone sc d (up_to r.end_id d.addresses)

module _ (sc : Scanner) (f : IsFair sc) where
  -- The rest of the loop, for a run that ends where `r` does and has fewer than `rounds` addresses left.
  abbrev EndsWell : ScanRun → ℕ → (ScanRun → M (Unit {0})) → Type 0
  EndsWell r rounds again =
      (c : ℕ) (t : System)
      → Ready sc (record r { cursor_id = c }) t.db
      → length (between c r.end_id t.db.addresses) < rounds
      → Runs (Moves sc) (Ended sc r) (again (record r { cursor_id = c })) t

  close_batch-Runs :
      (again : ScanRun → M (Unit {0})) (r : ScanRun) (rounds : ℕ) (batch : List Address) (t : Tally)
      (s : System)
      → EndsWell r rounds again
      → Ready sc r s.db
      → batch ≡ batch_of sc.batch_size r.cursor_id r.end_id s.db.addresses
      → 0 < length batch
      → left_of r s.db ≤ rounds
      → All (IsDone sc s.db) batch
      → Runs (Moves sc) (Ended sc r) (close_batch again r batch t) s
  unfolding close_batch
  close_batch-Runs again r rounds batch t s ends ready e some_taken enough done =
      elim (Bool-cases t.pause) [
        | inl paused ↦ rw paused (
            bind-Runs (Moves-IsPreorder sc) {A = Unit {0}} {B = Unit {0}} (λ _ d. Unit) (Ended sc r)
              (pause_scan r.id) (λ _. fail (scan_paused r.cursor_id)) s
              (pause_scan-Runs sc r s ready.tracks)
              (λ u v k q. ((Moves-IsPreorder sc).same v.db, tt)))
        | inr healthy ↦ rw healthy (
            bind-Runs (Moves-IsPreorder sc) {A = Unit {0}} {B = Unit {0}}
              (λ _ d. Ready sc (record r { cursor_id = cursor }) d) (Ended sc r)
              (advance_scan r.id cursor t.processed t.empty t.positive t.failures)
              (λ _. again (record r { cursor_id = cursor })) s
              (advance_scan-Runs sc r cursor t.processed t.empty t.positive t.failures s ready
                bounded covered)
              (λ u v k q. ends cursor v q (fewer v k.addresses)))
      ]
    where
      cursor : ℕ
      cursor = last_id r.cursor_id batch

      bounded : cursor ≤ r.end_id
      bounded =
          rw e
            (last_id-le r.cursor_id sc.batch_size r.cursor_id r.end_id s.db.addresses ready.bounded)

      taken : List AddressRow
      taken = take sc.batch_size (between r.cursor_id r.end_id s.db.addresses)

      covered : AreDone sc s.db (up_to cursor s.db.addresses)
      covered =
          rw (e, up_to-batch 0 sc.batch_size r.cursor_id r.end_id s.db.addresses ready.safe.rising)
            (All-append (λ a. IsDone sc s.db (address_of a)) _ taken ready.done
              (AreDone-map sc s.db taken (subst (All (IsDone sc s.db)) e done)))

      fewer :
          (v : System)
          → v.db.addresses ≡ s.db.addresses
          → length (between cursor r.end_id v.db.addresses) < rounds
      fewer v k =
          let counts =
            between-batch sc.batch_size r.cursor_id r.end_id s.db.addresses ready.safe.rising
              ready.bounded in
          let same : length batch ≡ length taken = ap length e ∙ length-map address_of taken in
          let here : length (between cursor r.end_id v.db.addresses)
              ≡ length (
                  between
                    (last_id r.cursor_id
                      (batch_of sc.batch_size r.cursor_id r.end_id s.db.addresses))
                    r.end_id s.db.addresses) =
            rw (k, e) refl in
          omega (arith, counts, same, here, some_taken, enough)

  take_batch-Runs :
      (again : ScanRun → M (Unit {0})) (r : ScanRun) (rounds : ℕ) (batch : List Address)
      (s : System)
      → EndsWell r rounds again
      → Ready sc r s.db
      → batch ≡ batch_of sc.batch_size r.cursor_id r.end_id s.db.addresses
      → left_of r s.db ≤ rounds
      → Runs (Moves sc) (Ended sc r) (take_batch sc again r batch) s
  unfolding take_batch
  take_batch-Runs again r rounds [] s ends ready e enough =
      complete_scan-Runs sc r s ready (nothing_left _ sc.batch_size f.room (sym e))
    where
      nothing_left :
          (rows : List AddressRow) (size : ℕ)
          → 0 < size
          → map address_of (take size rows) ≡ []
          → rows ≡ []
      nothing_left [] size h k = refl
      nothing_left (a ∷ rows) zero h k = absurd (omega (arith, h))
      nothing_left (a ∷ rows) (suc size) h k = absurd (cc)
  take_batch-Runs again r rounds (a ∷ batch) s ends ready e enough =
      bind-Runs (Moves-IsPreorder sc) {A = List AddressResult} {B = Unit {0}}
        (λ rs d. Kept s.db d × Settles sc f (a ∷ batch) rs) (Ended sc r)
        (process_batch sc (a ∷ batch))
        (λ results.
          for_each results (save_result sc) >> close_batch again r (a ∷ batch) (tally results))
        s
        (Kept-Moves-Runs sc (λ rs _. Settles sc f (a ∷ batch) rs) (process_batch sc (a ∷ batch)) s
          (process_batch-Runs sc f (a ∷ batch) s))
        (λ rs t k (kept, settles).
          bind-Runs (Moves-IsPreorder sc) {A = Unit {0}} {B = Unit {0}}
            (λ _ d. Kept t.db d × All (Recorded d) rs) (Ended sc r) (for_each rs (save_result sc))
            (λ _. close_batch again r (a ∷ batch) (tally rs)) t
            (Kept-Moves-Runs sc (λ _ d. All (Recorded d) rs) (for_each rs (save_result sc)) t
              (save_results-Runs sc f rs t))
            (λ _ u l (kept', stored).
              let both = Kept-IsPreorder.chain _ _ _ kept kept' in
              close_batch-Runs again r rounds (a ∷ batch) (tally rs) u ends
                (Ready-Kept sc r _ _ both ready)
                (e ∙ ap (λ l. batch_of sc.batch_size r.cursor_id r.end_id l) (sym both.addresses))
                (omega arith) (rw both.addresses enough) (settles u.db stored)))

  -- With a round for each address that is left, and one more, the loop ends.
  pub run-Runs :
      (rounds : ℕ) (r : ScanRun) (s : System)
      → Ready sc r s.db
      → left_of r s.db < rounds
      → Runs (Moves sc) (Ended sc r) (run sc rounds r) s
  unfolding run
  run-Runs zero r s ready h = absurd (omega (arith, h))
  run-Runs (suc rounds) r s ready h =
      bind-Runs (Moves-IsPreorder sc) {A = List Address} {B = Unit {0}}
        (λ batch d. Kept s.db d × (batch ≡ batch_of sc.batch_size r.cursor_id r.end_id d.addresses))
        (Ended sc r) (next_addresses r sc.batch_size)
        (λ batch. take_batch sc (run sc rounds) r batch) s
        (Kept-Moves-Runs sc
          (λ batch d. batch ≡ batch_of sc.batch_size r.cursor_id r.end_id d.addresses)
          (next_addresses r sc.batch_size) s (next_addresses-Runs s))
        (λ batch t k (kept, e).
          take_batch-Runs (run sc rounds) r rounds batch t
            (λ c u ready' few. run-Runs rounds (record r { cursor_id = c }) u ready' few)
            (Ready-Kept sc r _ _ kept ready) e (rw kept.addresses (omega (arith, h))))
    where
      next_addresses-Runs :
          (t : System)
          → Runs Kept
              (λ batch d. batch ≡ batch_of sc.batch_size r.cursor_id r.end_id d.addresses)
              (next_addresses r sc.batch_size)
              t
      next_addresses-Runs t =
          unfold next_addresses in
          select-Runs (λ batch d. batch ≡ batch_of sc.batch_size r.cursor_id r.end_id d.addresses)
            (λ db. batch_of sc.batch_size r.cursor_id r.end_id db.addresses) t refl
