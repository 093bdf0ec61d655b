-- ===== src/Scanner/Run/Once.antt =====
-- `RunOnce` as a whole, for any faults of the connection and any answers of the providers.
use wallet_scan.Prelude.{
  ℕ, suc, ◌<◌, ◌≡◌, refl, sym, ◌∙◌, ap, subst, arith, nat_eq, Bool-cases, inl, inr, Option, none,
  some, length,
}
use wallet_scan.Domain.{running, ScanRun}
use wallet_scan.Store.Tables.{RunRow, Database}
use wallet_scan.Store.Session.{Error, ok, err, System, ◌>>=◌}
use wallet_scan.Store.Scans.{
  oldest_active, is_paused, run_of, id_range, above, last_end, insert_run, create_scan, active_scan,
  unscanned_range, resume_scan, select,
}
use wallet_scan.Store.Kept.{Kept, Kept-IsPreorder, select-Runs}
use wallet_scan.Store.Rules.{IsReal, Runs, Post, Post-map, statement-Runs, bind-Runs}
use wallet_scan.Scanner.Run.{Scanner, run, go_on, start_scan, resume_or_start, run_once}
use wallet_scan.Scanner.Run.Order.{up_to}
use wallet_scan.Scanner.Run.Counts.{length-between}
use wallet_scan.Scanner.Run.Coverage.{AreDone}
use wallet_scan.Scanner.Run.Batch.{IsFair}
use wallet_scan.Scanner.Run.Safety.{IsSafe, IsSafe-Kept}
use wallet_scan.Scanner.Run.Loop.{Moves, Moves-IsPreorder, Kept-Moves-Runs, Ready, resume_scan-Runs}
use wallet_scan.Scanner.Run.Rounds.{run-Runs}
use wallet_scan.Scanner.Run.Create.{Opens, range-Opens, insert_run-Ends}
use wallet_scan.Scanner.Run.Start.{active-Ready}

module _ (sc : Scanner) (f : IsFair sc) (rounds : ℕ) where
  go_on-Runs :
      (r : ScanRun) (s : System)
      → Ready sc r s.db
      → length s.db.addresses < rounds
      → Runs (Moves sc) (λ _ d. AreDone sc d (up_to r.end_id d.addresses)) (go_on sc rounds r) s
  unfolding go_on
  go_on-Runs r s h enough = elim (Bool-cases (is_paused r.status)) [
    | inr going ↦ rw going (
        run-Runs sc f rounds r s h
          (omega (arith, enough, length-between r.cursor_id r.end_id s.db.addresses)))
    | inl waits ↦ rw waits (
        bind-Runs (Moves-IsPreorder sc) {A = Unit {0}} {B = Unit {0}} (λ _ d. Ready sc r d)
          (λ _ d. AreDone sc d (up_to r.end_id d.addresses)) (resume_scan r.id)
          (λ _. run sc rounds (record r { status = running })) s (resume_scan-Runs sc r s h)
          (λ _ t k q.
            run-Runs sc f rounds (record r { status = running }) t
              (record { safe = q.safe; tracks = q.tracks; done = q.done; bounded = q.bounded })
              (rw k.addresses
                (omega (arith, enough, length-between r.cursor_id r.end_id s.db.addresses)))))
  ]

  start_scan-Runs :
      (o : Option (ℕ × ℕ)) (s : System)
      → IsSafe sc s.db
      → Opens sc o s.db
      → length s.db.addresses < rounds
      → Runs (Moves sc) (λ _ d. AreDone sc d d.addresses) (start_scan sc rounds o) s
  unfolding start_scan
  start_scan-Runs none s h o enough = ((Moves-IsPreorder sc).same s.db, o)
  start_scan-Runs (some (low, high)) s h o enough =
      bind-Runs (Moves-IsPreorder sc) {A = ScanRun} {B = Unit {0}}
        (λ r e. Ready sc r e × (r.end_id ≡ high) × (up_to high e.addresses ≡ e.addresses))
        (λ _ d. AreDone sc d d.addresses) (create_scan low high) (λ r. run sc rounds r) s
        (unfold create_scan in
          statement-Runs (Moves-IsPreorder sc) _ (insert_run low high) s
            (λ m. insert_run-Ends sc low high m s.db h o))
        (λ r t k (ready, e, all).
          let (l, q) = run-Runs sc f rounds r t ready (
            rw k.addresses
              (omega (arith, enough, length-between r.cursor_id r.end_id s.db.addresses))) in
          (
            l,
            Post-map (λ _ d. AreDone sc d (up_to r.end_id d.addresses))
                (λ _ d. AreDone sc d d.addresses) _ _
                (λ _ done.
                  subst (AreDone sc (run sc rounds r t).1.db)
                    (ap (λ n. up_to n (run sc rounds r t).1.db.addresses) e
                      ∙ ap (up_to high) l.addresses
                      ∙ all
                      ∙ sym l.addresses)
                    done)
                q,
          ))

-- What a success of `RunOnce` has done: the rest of the run that was active, or all addresses.
abbrev pub Finished : Scanner → Option ScanRun → Unit {0} → Database → Type 0
Finished sc (some r) u d = AreDone sc d (up_to r.end_id d.addresses)
Finished sc none u d = AreDone sc d d.addresses

module _ (sc : Scanner) (f : IsFair sc) where
  start-Runs :
      (rounds : ℕ) (s : System)
      → IsSafe sc s.db
      → length s.db.addresses < rounds
      → Runs
          (Moves sc)
          (Finished sc none)
          (unscanned_range >>= λ range. start_scan sc rounds range)
          s
  start-Runs rounds s h enough =
      bind-Runs (Moves-IsPreorder sc) {A = Option (ℕ × ℕ)} {B = Unit {0}}
        (λ o d. Kept s.db d × Opens sc o d) (Finished sc none) unscanned_range
        (λ range. start_scan sc rounds range) s
        (Kept-Moves-Runs sc (Opens sc) unscanned_range s unscanned_range-Runs)
        (λ o t k (kept, opens).
          start_scan-Runs sc f rounds o t (IsSafe-Kept sc _ _ kept h) opens
            (rw kept.addresses enough))
    where
      unscanned_range-Runs : Runs Kept (Opens sc) unscanned_range s
      unscanned_range-Runs =
          unfold unscanned_range in
          bind-Runs Kept-IsPreorder {A = ℕ} {B = Option (ℕ × ℕ)}
            (λ n d. Kept s.db d × (n ≡ last_end d.runs)) (Opens sc)
            (select (λ db. last_end db.runs)) (λ n. select (λ db. id_range (above n db.addresses)))
            s
            (select-Runs (λ n d. Kept s.db d × (n ≡ last_end d.runs)) (λ db. last_end db.runs) s
              (Kept-IsPreorder.same s.db, refl))
            (λ n t k (kept, e).
              select-Runs (Opens sc) (λ db. id_range (above n db.addresses)) t
                (rw e (range-Opens sc t.db (IsSafe-Kept sc _ _ kept h))))

  resume_or_start-Runs :
      (rounds : ℕ) (o : Option RunRow) (s : System)
      → oldest_active s.db.runs ≡ o
      → IsSafe sc s.db
      → length s.db.addresses < rounds
      → Runs (Moves sc) (Finished sc (run_of o)) (resume_or_start sc rounds (run_of o)) s
  unfolding resume_or_start
  resume_or_start-Runs rounds none s e h enough = start-Runs rounds s h enough
  resume_or_start-Runs rounds (some r) s e h enough =
      go_on-Runs sc f rounds r.run s (active-Ready sc s.db r h e) enough

  run_once-Runs :
      (s : System)
      → IsSafe sc s.db
      → Runs (Moves sc) (Finished sc (run_of (oldest_active s.db.runs))) (run_once sc) s
  unfolding run_once
  run_once-Runs s h =
      let rounds = suc (length s.db.addresses) in
      bind-Runs (Moves-IsPreorder sc) {A = Option ScanRun} {B = Unit {0}}
        (λ o d. Kept s.db d × (o ≡ run_of (oldest_active d.runs)))
        (Finished sc (run_of (oldest_active s.db.runs))) active_scan (resume_or_start sc rounds) s
        (Kept-Moves-Runs sc (λ o d. o ≡ run_of (oldest_active d.runs)) active_scan s
          (unfold active_scan in
            select-Runs (λ o d. o ≡ run_of (oldest_active d.runs))
              (λ db. run_of (oldest_active db.runs)) s refl))
        (λ o t k (kept, e). rw e (
          subst
            (λ rows.
              Runs (Moves sc) (Finished sc (run_of (oldest_active rows)))
                (resume_or_start sc rounds (run_of (oldest_active t.db.runs))) t)
            kept.runs
            (resume_or_start-Runs rounds (oldest_active t.db.runs) t refl
              (IsSafe-Kept sc _ _ kept h) (rw kept.addresses (omega arith)))))

-- Whatever the providers answer, in whatever order the workers finish, and wherever the connection fails:
-- a run of the scanner, `RunOnce`, leaves a safe database safe. In a safe database the ids of the addresses
-- rise and are below the next number, no two runs have the same id, and for each run the cursor is at or
-- before the end, the end is below the next number, and every address up to the cursor (up to the end, if
-- the run is completed) is done: in some batch each of its chains was asked, every balance found has a
-- row of findings, and every chain that failed has a row of retries. The scanner has at least one worker
-- and room in a batch, and its notifier keeps what the tables hold.
pub run_once-IsSafe :
    (sc : Scanner) (s : System) → IsFair sc → IsSafe sc s.db → IsSafe sc (run_once sc s).1.db
run_once-IsSafe sc s f h = (run_once-Runs sc f s h).0.safe h

-- From a safe database, a `RunOnce` that returns no error has done every address up to the end of the run
-- that was active, or, if none was, every address in the table. The scanner has at least one worker and
-- room in a batch, its workers finish in any order, and its notifier keeps what the tables hold.
pub run_once-Finished :
    (sc : Scanner) (s : System)
    → IsFair sc
    → IsSafe sc s.db
    → (run_once sc s).0 ≡ ok tt
    → Finished sc (run_of (oldest_active s.db.runs)) tt (run_once sc s).1.db
run_once-Finished sc s f h e =
    let (k, q) = run_once-Runs sc f s h in
    subst (λ r. Post (Finished sc (run_of (oldest_active s.db.runs))) r (run_once sc s).1.db) e q

-- From a safe database, a `RunOnce` that returns an error returns one of the program's: no batch waits for
-- a worker for ever, and the loop ends within a round for each address and one more. The scanner has at
-- least one worker and room in a batch, and its notifier keeps what the tables hold.
pub run_once-IsReal :
    (sc : Scanner) (s : System) (e : Error)
    → IsFair sc
    → IsSafe sc s.db
    → (run_once sc s).0 ≡ err e
    → IsReal e
run_once-IsReal sc s e f h k =
    let (m, q) = run_once-Runs sc f s h in
    subst (λ r. Post (Finished sc (run_of (oldest_active s.db.runs))) r (run_once sc s).1.db) k q
