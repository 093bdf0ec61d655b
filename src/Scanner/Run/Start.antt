-- ===== src/Scanner/Run/Start.antt =====
-- Where a run starts: the active run, or a new run over the addresses above the last completed one.
use wallet_scan.Prelude.{
  ℕ, ◌≡◌, refl, subst, true, false, ◌||◌, List, [], ◌∷◌, arith, ◌==◌, nat_eq, ltb, if◌then◌else◌,
  Bool-cases, inl, inr, All, Option, none, some,
}
use wallet_scan.Domain.{RunStatus, running, paused, completed, failed, ScanRun}
use wallet_scan.Store.Tables.{RunRow, Database}
use wallet_scan.Store.Scans.{has_run, oldest_active, is_running, is_paused}
use wallet_scan.Scanner.Run.{Scanner}
use wallet_scan.Scanner.Run.Order.{up_to}
use wallet_scan.Scanner.Run.Coverage.{AreDone}
use wallet_scan.Scanner.Run.Safety.{reached, IsSafeRun, IsSafe, AreKeyed, Tracks}
use wallet_scan.Scanner.Run.Loop.{Ready}

-- What is known of the run that is picked from the rows.
record IsPicked (sc : Scanner) (d : Database) (rows : List RunRow) (r : RunRow) : Type 0 where
  pub here : has_run r.id rows ≡ true
  pub tracks : Tracks r.run rows
  pub safe : IsSafeRun sc d r
  pub active : (is_running r.status || is_paused r.status) ≡ true

abbrev Picks : Scanner → Database → List RunRow → Option RunRow → Type 0
Picks sc d rows none = Unit
Picks sc d rows (some r) = IsPicked sc d rows r

pub no_run-Tracks : (r : ScanRun) (rows : List RunRow) → has_run r.id rows ≡ false → Tracks r rows
unfolding has_run
no_run-Tracks r [] h = tt
no_run-Tracks r (x ∷ rows) h = (λ e. absurd (ground arith), no_run-Tracks r rows (ground arith))

other_id :
    (i j : ℕ) (rows : List RunRow)
    → has_run i rows ≡ false
    → has_run j rows ≡ true
    → (i == j) ≡ true
    → ⊥
other_id i j rows h k e = let same : i ≡ j = ground arith in absurd (cc)

module _ (sc : Scanner) (d : Database) where
  IsPicked-later :
      (x r : RunRow) (rows : List RunRow)
      → has_run x.id rows ≡ false
      → IsPicked sc d rows r
      → IsPicked sc d (x ∷ rows) r
  unfolding has_run
  IsPicked-later x r rows h p = record {
    here = ground (arith, p.here);
    tracks = (λ e. absurd (other_id x.id r.id rows h p.here e), p.tracks);
    safe = p.safe;
    active = p.active;
  }

  IsPicked-first :
      (r : RunRow) (rows : List RunRow)
      → has_run r.id rows ≡ false
      → IsSafeRun sc d r
      → (is_running r.status || is_paused r.status) ≡ true
      → IsPicked sc d (r ∷ rows) r
  unfolding has_run
  IsPicked-first r rows h s a = record {
    here = ground arith;
    tracks = (λ e. refl, no_run-Tracks r.run rows h);
    safe = s;
    active = a;
  }

  oldest_active-Picks :
      (rows : List RunRow)
      → AreKeyed rows
      → All (IsSafeRun sc d) rows
      → Picks sc d rows (oldest_active rows)
  unfolding oldest_active
  oldest_active-Picks [] k h = tt
  oldest_active-Picks (x ∷ rows) k h =
      let rest = oldest_active-Picks rows k.1 h.1 in
      elim (Bool-cases (is_running x.status || is_paused x.status)) [
        | inl active ↦ rw active (picked (oldest_active rows) rest active)
        | inr other ↦ rw other (skipped (oldest_active rows) rest)
      ]
    where
      skipped : (o : Option RunRow) → Picks sc d rows o → Picks sc d (x ∷ rows) o
      skipped none p = tt
      skipped (some r) p = IsPicked-later x r rows k.0 p

      picked :
          (o : Option RunRow)
          → Picks sc d rows o
          → (is_running x.status || is_paused x.status) ≡ true
          → Picks sc d (x ∷ rows) (elim o [
            | none ↦ some x
            | some r' ↦ if ltb r'.started_at x.started_at then some r' else some x
          ])
      picked none p a = IsPicked-first x rows k.0 h.0 a
      picked (some r) p a = elim (Bool-cases (ltb r.started_at x.started_at)) [
        | inl older ↦ rw older (IsPicked-later x r rows k.0 p)
        | inr newer ↦ rw newer (IsPicked-first x rows k.0 h.0 a)
      ]

  reached_active :
      (status : RunStatus) (r : ScanRun)
      → (is_running status || is_paused status) ≡ true
      → reached status r ≡ r.cursor_id
  reached_active running r h = refl
  reached_active paused r h = refl
  reached_active failed r h = refl
  reached_active completed r h = absurd (cc)

  -- The database fits the active run.
  pub active-Ready : (r : RunRow) → IsSafe sc d → oldest_active d.runs ≡ some r → Ready sc r.run d
  active-Ready r h e =
      let p : IsPicked sc d d.runs r =
        subst (Picks sc d d.runs) e (oldest_active-Picks d.runs h.keyed h.runs) in
      record {
        safe = h;
        tracks = p.tracks;
        done =
            subst (λ n. AreDone sc d (up_to n d.addresses)) (reached_active r.status r.run p.active)
              p.safe.done;
        bounded = p.safe.bounded;
      }
