-- ===== src/Scanner/Run/Loop.antt =====
-- The rounds of a run, from a database that is ready for it.
use wallet_scan.Prelude.{ℕ, ◌≤◌, ◌≡◌, refl, sym, ◌∙◌, subst, true, [], nat_eq, Bool-cases, inl, inr}
use wallet_scan.Domain.{RunStatus, running, paused, completed, failed, ScanRun}
use wallet_scan.Store.Tables.{Database}
use wallet_scan.Store.Session.{System, M}
use wallet_scan.Store.Scans.{
  between, update_runs, any_ends_before, advanced, completed_at, with_status, advance_scan,
  complete_scan, pause_scan, resume_scan, is_running, is_paused,
}
use wallet_scan.Store.Kept.{Kept}
use wallet_scan.Store.Rules.{Runs, Post-map, IsPreorder, statement-Runs}
use wallet_scan.Scanner.Run.{Scanner}
use wallet_scan.Scanner.Run.Order.{up_to, up_to_end}
use wallet_scan.Scanner.Run.Coverage.{AreDone, AreDone-Kept}
use wallet_scan.Scanner.Run.Safety.{
  reached, IsSafe, IsSafe-Kept, IsSafe-update, Tracks, Tracks-update,
}

-- What the operations of a run do to the database.
pub record Moves (sc : Scanner) (d e : Database) : Type 0 where
  pub addresses : e.addresses ≡ d.addresses
  pub number : e.sequences.address_id ≡ d.sequences.address_id
  pub safe : IsSafe sc d → IsSafe sc e

pub Moves-IsPreorder : (sc : Scanner) → IsPreorder (Moves sc)
Moves-IsPreorder sc = record {
  same = λ d. record { addresses = refl; number = refl; safe = λ h. h };
  chain = λ d e f k l. record {
    addresses = l.addresses ∙ k.addresses;
    number = l.number ∙ k.number;
    safe = λ h. l.safe (k.safe h);
  };
}

Kept-Moves : (sc : Scanner) (d e : Database) → Kept d e → Moves sc d e
Kept-Moves sc d e k = record {
  addresses = k.addresses;
  number = k.number;
  safe = IsSafe-Kept sc d e k;
}

pub Kept-Moves-Runs :
    (sc : Scanner) {A : Type 0} (Q : A → Database → Type 0) (m : M A) (s : System)
    → Runs Kept Q m s
    → Runs (Moves sc) (λ a e. Kept s.db e × Q a e) m s
Kept-Moves-Runs sc Q m s (k, q) =
    (Kept-Moves sc _ _ k, Post-map Q (λ a e. Kept s.db e × Q a e) _ _ (λ _ r. (k, r)) q)

-- The database fits the run in memory: what the run's cursor has passed is done.
pub record Ready (sc : Scanner) (r : ScanRun) (d : Database) : Type 0 where
  pub safe : IsSafe sc d
  pub tracks : Tracks r d.runs
  pub done : AreDone sc d (up_to r.cursor_id d.addresses)
  pub bounded : r.cursor_id ≤ r.end_id

pub Ready-Kept :
    (sc : Scanner) (r : ScanRun) (d e : Database) → Kept d e → Ready sc r d → Ready sc r e
Ready-Kept sc r d e k h = record {
  safe = IsSafe-Kept sc d e k h.safe;
  tracks = rw k.runs h.tracks;
  done =
      subst (λ l. AreDone sc e (up_to r.cursor_id l)) (sym k.addresses)
        (AreDone-Kept sc d e _ k h.done);
  bounded = h.bounded;
}

reached_running :
    (status : RunStatus) (r : ScanRun) → is_running status ≡ true → reached status r ≡ r.cursor_id
reached_running running r h = refl
reached_running paused r h = refl
reached_running failed r h = refl
reached_running completed r h = absurd (cc)

reached_paused :
    (status : RunStatus) (r : ScanRun) → is_paused status ≡ true → reached status r ≡ r.cursor_id
reached_paused running r h = refl
reached_paused paused r h = refl
reached_paused failed r h = refl
reached_paused completed r h = absurd (cc)

module _ (sc : Scanner) where
  pub pause_scan-Runs :
      (r : ScanRun) (s : System)
      → Tracks r s.db.runs
      → Runs (Moves sc) (λ _ d. Unit) (pause_scan r.id) s
  unfolding pause_scan
  pause_scan-Runs r s t =
      statement-Runs (Moves-IsPreorder sc) (λ _ d. Unit) _ s
        (λ m. (
          record {
            addresses = refl;
            number = refl;
            safe =
                IsSafe-update sc s.db r is_running (with_status paused) (λ row. refl)
                  (λ row h e here. record {
                    bounded = h.bounded;
                    numbered = h.numbered;
                    done =
                        subst (λ n. AreDone sc s.db (up_to n s.db.addresses))
                          (reached_running row.status row.run here) h.done;
                  })
                  t;
          },
          tt,
        ))

  pub resume_scan-Runs :
      (r : ScanRun) (s : System)
      → Ready sc r s.db
      → Runs (Moves sc) (λ _ d. Ready sc r d) (resume_scan r.id) s
  unfolding resume_scan
  resume_scan-Runs r s ready =
      statement-Runs (Moves-IsPreorder sc) (λ _ d. Ready sc r d) _ s
        (λ m. (
          record { addresses = refl; number = refl; safe = resumed },
          record {
            safe = resumed ready.safe;
            tracks =
                Tracks-update r is_paused (with_status running) s.db.runs (λ row. (refl, refl))
                  ready.tracks;
            done = ready.done;
            bounded = ready.bounded;
          },
        ))
    where
      resumed :
          IsSafe sc s.db
          → IsSafe sc
              (record s.db { runs = update_runs r.id is_paused (with_status running) s.db.runs })
      resumed =
          IsSafe-update sc s.db r is_paused (with_status running) (λ row. refl)
            (λ row h e here. record {
              bounded = h.bounded;
              numbered = h.numbered;
              done =
                  subst (λ n. AreDone sc s.db (up_to n s.db.addresses))
                    (reached_paused row.status row.run here) h.done;
            })
            ready.tracks

  pub complete_scan-Runs :
      (r : ScanRun) (s : System)
      → Ready sc r s.db
      → between r.cursor_id r.end_id s.db.addresses ≡ []
      → Runs (Moves sc) (λ _ d. AreDone sc d (up_to r.end_id d.addresses)) (complete_scan r.id) s
  unfolding complete_scan
  complete_scan-Runs r s ready none_left =
      statement-Runs (Moves-IsPreorder sc) (λ _ d. AreDone sc d (up_to r.end_id d.addresses)) _ s
        (λ m. (
          record {
            addresses = refl;
            number = refl;
            safe =
                IsSafe-update sc s.db r is_running (completed_at m.now) (λ row. refl)
                  (λ row h e here. record {
                    bounded = h.bounded;
                    numbered = h.numbered;
                    done = rw e finished;
                  })
                  ready.tracks;
          },
          finished,
        ))
    where
      finished : AreDone sc s.db (up_to r.end_id s.db.addresses)
      finished =
          rw (up_to_end r.cursor_id r.end_id s.db.addresses ready.bounded none_left) ready.done

  pub advance_scan-Runs :
      (r : ScanRun) (cursor processed empty positive failures : ℕ) (s : System)
      → Ready sc r s.db
      → cursor ≤ r.end_id
      → AreDone sc s.db (up_to cursor s.db.addresses)
      → Runs
          (Moves sc)
          (λ _ d. Ready sc (record r { cursor_id = cursor }) d)
          (advance_scan r.id cursor processed empty positive failures)
          s
  unfolding advance_scan
  advance_scan-Runs r cursor processed empty positive failures s ready h done =
      statement-Runs (Moves-IsPreorder sc) (λ _ d. Ready sc (record r { cursor_id = cursor }) d) _ s
        (λ m. elim (Bool-cases (any_ends_before r.id cursor s.db.runs)) [
          | inl refused ↦ rw refused ((Moves-IsPreorder sc).same s.db, tt)
          | inr fine ↦ rw fine (
            record { addresses = refl; number = refl; safe = moved },
            record {
              safe = moved ready.safe;
              tracks =
                  Tracks-update r is_running (advanced cursor processed empty positive failures)
                    s.db.runs (λ row. (refl, refl)) ready.tracks;
              done = done;
              bounded = h;
            },
          )
        ])
    where
      moved :
          IsSafe sc s.db
          → IsSafe sc (record s.db {
            runs =
                update_runs r.id is_running
                  (advanced cursor processed empty positive failures)
                  s.db.runs;
          })
      moved =
          IsSafe-update sc s.db r is_running (advanced cursor processed empty positive failures)
            (λ row. refl)
            (λ row k e here. record {
              bounded = rw e h;
              numbered = k.numbered;
              done =
                  subst (λ n. AreDone sc s.db (up_to n s.db.addresses))
                    (sym (
                      reached_running row.status
                        (advanced cursor processed empty positive failures row).run here))
                    done;
            })
            ready.tracks
