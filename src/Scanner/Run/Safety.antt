-- ===== src/Scanner/Run/Safety.antt =====
-- When a database is safe: what the cursor of a run has passed is done.
use wallet_scan.Prelude.{
  ℕ, ◌≤◌, ◌<◌, ◌≡◌, refl, sym, ◌∙◌, subst, Bool, true, false, ◌&&◌, List, [], ◌∷◌, arith, ◌==◌,
  nat_eq, Bool-cases, inl, inr, All,
}
use wallet_scan.Domain.{RunStatus, running, paused, completed, failed, ScanRun}
use wallet_scan.Store.Tables.{AddressRow, RunRow, Database}
use wallet_scan.Store.Scans.{has_run, update_runs}
use wallet_scan.Store.Kept.{Kept}
use wallet_scan.Scanner.Run.{Scanner}
use wallet_scan.Scanner.Run.Order.{IsRising, up_to}
use wallet_scan.Scanner.Run.Coverage.{AreDone, AreDone-Kept}

-- How far a run has come: to its end if it is completed, to its cursor otherwise.
abbrev pub reached : RunStatus → ScanRun → ℕ
reached completed r = r.end_id
reached running r = r.cursor_id
reached paused r = r.cursor_id
reached failed r = r.cursor_id

pub record IsSafeRun (sc : Scanner) (d : Database) (r : RunRow) : Type 0 where
  pub bounded : r.cursor_id ≤ r.end_id
  pub numbered : r.end_id < d.sequences.address_id
  pub done : AreDone sc d (up_to (reached r.status r.run) d.addresses)

-- PRIMARY KEY of `scan_runs`.
abbrev pub AreKeyed : List RunRow → Type 0
AreKeyed [] = Unit
AreKeyed (r ∷ rows) = (has_run r.id rows ≡ false) × AreKeyed rows

pub record IsSafe (sc : Scanner) (d : Database) : Type 0 where
  pub rising : IsRising 0 d.addresses
  pub started : 0 < d.sequences.address_id
  pub numbered : All (λ (a : AddressRow). a.id < d.sequences.address_id) d.addresses
  pub keyed : AreKeyed d.runs
  pub runs : All (IsSafeRun sc d) d.runs

-- The rows with the id of a run end where it ends.
abbrev pub Tracks : ScanRun → List RunRow → Type 0
Tracks r rows = All (λ (row : RunRow). (row.id == r.id) ≡ true → row.end_id ≡ r.end_id) rows

All-and :
    {A : Type 0} (P Q : A → Type 0) (xs : List A) → All P xs → All Q xs → All (λ a. P a × Q a) xs
All-and P Q [] h k = tt
All-and P Q (x ∷ xs) h k = ((h.0, k.0), All-and P Q xs h.1 k.1)

pub All-map :
    {A : Type 0} (P Q : A → Type 0) (xs : List A) → ((a : A) → P a → Q a) → All P xs → All Q xs
All-map P Q [] f h = tt
All-map P Q (x ∷ xs) f h = (f x h.0, All-map P Q xs f h.1)

IsSafeRun-Kept :
    (sc : Scanner) (d e : Database) (r : RunRow) → Kept d e → IsSafeRun sc d r → IsSafeRun sc e r
IsSafeRun-Kept sc d e r k h = record {
  bounded = h.bounded;
  numbered = rw k.number h.numbered;
  done =
      subst (λ l. AreDone sc e (up_to (reached r.status r.run) l)) (sym k.addresses)
        (AreDone-Kept sc d e _ k h.done);
}

pub IsSafe-Kept : (sc : Scanner) (d e : Database) → Kept d e → IsSafe sc d → IsSafe sc e
IsSafe-Kept sc d e k h = record {
  rising = rw k.addresses h.rising;
  started = rw k.number h.started;
  numbered = rw (k.addresses, k.number) h.numbered;
  keyed = rw k.runs h.keyed;
  runs =
      subst (λ l. All (IsSafeRun sc e) l) (sym k.runs)
        (All-map (IsSafeRun sc d) (IsSafeRun sc e) d.runs (λ r. IsSafeRun-Kept sc d e r k) h.runs);
}

-- A change of the rows of one run, in rows that an invariant holds of.
update-All :
    (P Q : RunRow → Type 0) (id : ℕ) (test : RunStatus → Bool) (f : RunRow → RunRow)
    (rows : List RunRow)
    → ((r : RunRow) → P r → Q r)
    → ((r : RunRow) → P r → (r.id == id && test r.status) ≡ true → Q (f r))
    → All P rows
    → All Q (update_runs id test f rows)
unfolding update_runs
update-All P Q id test f [] keep change h = tt
update-All P Q id test f (r ∷ rows) keep change h = (
  elim (Bool-cases (r.id == id && test r.status)) [
    | inl here ↦ rw here (change r h.0 here)
    | inr other ↦ rw other (keep r h.0)
  ],
  update-All P Q id test f rows keep change h.1,
)

has_run-update :
    (i id : ℕ) (test : RunStatus → Bool) (f : RunRow → RunRow) (rows : List RunRow)
    → ((r : RunRow) → (f r).id ≡ r.id)
    → has_run i (update_runs id test f rows) ≡ has_run i rows
unfolding has_run update_runs
has_run-update i id test f [] h = refl
has_run-update i id test f (r ∷ rows) h = ground (arith, h r, has_run-update i id test f rows h)

AreKeyed-update :
    (id : ℕ) (test : RunStatus → Bool) (f : RunRow → RunRow) (rows : List RunRow)
    → ((r : RunRow) → (f r).id ≡ r.id)
    → AreKeyed rows
    → AreKeyed (update_runs id test f rows)
unfolding update_runs
AreKeyed-update id test f [] h k = tt
AreKeyed-update id test f (r ∷ rows) h k = (
  elim (Bool-cases (r.id == id && test r.status)) [
    | inl here ↦ rw (here, h r, has_run-update r.id id test f rows h) k.0
    | inr other ↦ rw (other, has_run-update r.id id test f rows h) k.0
  ],
  AreKeyed-update id test f rows h k.1,
)

-- A change of a run's rows that leaves its id and its end is safe if the changed rows are.
pub IsSafe-update :
    (sc : Scanner) (d : Database) (r : ScanRun) (test : RunStatus → Bool) (f : RunRow → RunRow)
    → ((row : RunRow) → (f row).id ≡ row.id)
    → ((row : RunRow)
        → IsSafeRun sc d row
        → row.end_id ≡ r.end_id
        → test row.status ≡ true
        → IsSafeRun sc d (f row))
    → Tracks r d.runs
    → IsSafe sc d
    → IsSafe sc (record d { runs = update_runs r.id test f d.runs })
IsSafe-update sc d r test f same change t h = record {
  rising = h.rising;
  started = h.started;
  numbered = h.numbered;
  keyed = AreKeyed-update r.id test f d.runs same h.keyed;
  runs =
      All-map (IsSafeRun sc d) (IsSafeRun sc (record d { runs = update_runs r.id test f d.runs })) _
        (λ row s. record { bounded = s.bounded; numbered = s.numbered; done = s.done })
        (update-All (λ row. IsSafeRun sc d row × ((row.id == r.id) ≡ true → row.end_id ≡ r.end_id))
          (IsSafeRun sc d) r.id test f d.runs (λ row (s, e). s)
          (λ row (s, e) here. change row s (e (ground arith)) (ground arith))
          (All-and _ _ d.runs h.runs t));
}

pub Tracks-update :
    (r : ScanRun) (test : RunStatus → Bool) (f : RunRow → RunRow) (rows : List RunRow)
    → ((row : RunRow) → ((f row).id ≡ row.id) × ((f row).end_id ≡ row.end_id))
    → Tracks r rows
    → Tracks r (update_runs r.id test f rows)
Tracks-update r test f rows same t =
    let P = λ (row : RunRow). (row.id == r.id) ≡ true → row.end_id ≡ r.end_id in
    update-All P P r.id test f rows (λ row p. p) (λ row p here h. (same row).1 ∙ p (ground arith)) t
