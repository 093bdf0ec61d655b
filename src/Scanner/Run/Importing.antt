-- ===== src/Scanner/Run/Importing.antt =====
-- An import beside a scan: new addresses are behind the end of every run.
use wallet_scan.Prelude.{
  ℕ, suc, ◌≤◌, ◌<◌, ◌≡◌, refl, sym, ◌∙◌, ap, subst, List, [], ◌∷◌, ◌++◌, arith, All,
}
use wallet_scan.Domain.{AddressInput, RunStatus, running, paused, completed, failed, ScanRun}
use wallet_scan.Store.Tables.{AddressRow, RunRow, Database}
use wallet_scan.Store.Session.{System}
use wallet_scan.Store.Kept.{SameTables-Kept}
use wallet_scan.Store.Imports.{insert_addresses_with_ids}
use wallet_scan.Store.Imports.Growth.{AreNew, Grows}
use wallet_scan.Store.Imports.Ids.{insert_addresses_with_ids-Runs}
use wallet_scan.Scanner.Run.{Scanner}
use wallet_scan.Scanner.Run.Order.{IsRising, up_to}
use wallet_scan.Scanner.Run.Coverage.{AreDone, AreDone-Kept}
use wallet_scan.Scanner.Run.Safety.{reached, IsSafeRun, IsSafe, All-map}
use wallet_scan.Scanner.Run.Rounds.{All-append}

up_to_new : (k n : ℕ) (new : List AddressRow) (m : ℕ) → k < n → AreNew n new m → up_to k new ≡ []
unfolding up_to
up_to_new k n [] m h w = refl
up_to_new k n (a ∷ new) m h w =
    ground (arith, w.0, up_to_new k (suc a.id) new m (omega (arith, h, w.0)) w.1)

up_to-append :
    (k : ℕ) (rows new : List AddressRow) → up_to k new ≡ [] → up_to k (rows ++ new) ≡ up_to k rows
unfolding up_to
up_to-append k [] new e = e
up_to-append k (a ∷ rows) new e = ground (arith, up_to-append k rows new e)

new-IsRising : (k n : ℕ) (new : List AddressRow) (m : ℕ) → k < n → AreNew n new m → IsRising k new
new-IsRising k n [] m h w = tt
new-IsRising k n (a ∷ new) m h w =
    (omega (arith, h, w.0), new-IsRising a.id (suc a.id) new m (omega arith) w.1)

IsRising-append :
    (k n : ℕ) (rows new : List AddressRow) (m : ℕ)
    → k < n
    → All (λ (a : AddressRow). a.id < n) rows
    → AreNew n new m
    → IsRising k rows
    → IsRising k (rows ++ new)
IsRising-append k n [] new m h b w r = new-IsRising k n new m h w
IsRising-append k n (a ∷ rows) new m h b w r =
    (r.0, IsRising-append a.id n rows new m b.0 b.1 w r.1)

AreNew-below :
    (n : ℕ) (new : List AddressRow) (m : ℕ)
    → AreNew n new m
    → (n ≤ m) × All (λ (a : AddressRow). a.id < m) new
AreNew-below n [] m w = (w, tt)
AreNew-below n (a ∷ new) m w =
    let (k, rest) = AreNew-below (suc a.id) new m w.1 in
    (omega (arith, k, w.0), (omega (arith, k), rest))

reached-le :
    (status : RunStatus) (r : ScanRun) → r.cursor_id ≤ r.end_id → reached status r ≤ r.end_id
reached-le running r h = h
reached-le paused r h = h
reached-le failed r h = h
reached-le completed r h = omega arith

-- The rows of findings and retries are the same.
AreDone-Grows :
    (sc : Scanner) (d e : Database) (rows : List AddressRow)
    → Grows d e
    → AreDone sc d rows
    → AreDone sc e rows
AreDone-Grows sc d e rows g h =
    AreDone-Kept sc d (record e { addresses = d.addresses; sequences = d.sequences }) rows
      (SameTables-Kept d _ (refl, g.runs, refl, g.findings, g.retries)) h

IsSafeRun-Grows :
    (sc : Scanner) (d e : Database) (r : RunRow) → Grows d e → IsSafeRun sc d r → IsSafeRun sc e r
IsSafeRun-Grows sc d e r g h =
    let n = reached r.status r.run in
    let (le, below) = AreNew-below _ g.new _ g.fresh in
    let low = reached-le r.status r.run h.bounded in
    let same : up_to n e.addresses ≡ up_to n d.addresses =
      ap (up_to n) g.addresses
      ∙ up_to-append n d.addresses g.new (
          up_to_new n d.sequences.address_id g.new e.sequences.address_id
            (omega (arith, low, h.numbered)) g.fresh) in
    record {
      bounded = h.bounded;
      numbered = omega (arith, le, h.numbered);
      done = AreDone-Grows sc d e _ g (subst (AreDone sc d) (sym same) h.done);
    }

IsSafe-Grows : (sc : Scanner) (d e : Database) → Grows d e → IsSafe sc d → IsSafe sc e
IsSafe-Grows sc d e g h =
    let (le, below) = AreNew-below _ g.new _ g.fresh in
    record {
      rising =
          rw g.addresses
            (IsRising-append 0 _ d.addresses g.new _ h.started h.numbered g.fresh h.rising);
      started = omega (arith, le, h.started);
      numbered = subst (All (λ (a : AddressRow). a.id < e.sequences.address_id)) (sym g.addresses) (
          All-append _ d.addresses g.new
            (All-map _ (λ (a : AddressRow). a.id < e.sequences.address_id) d.addresses
              (λ a b. omega (arith, b, le)) h.numbered)
            below);
      keyed = rw g.runs h.keyed;
      runs = subst (All (IsSafeRun sc e)) (sym g.runs) (
          All-map (IsSafeRun sc d) (IsSafeRun sc e) d.runs (λ r. IsSafeRun-Grows sc d e r g)
            h.runs);
    }

-- Wherever the connection fails, an import into a safe database leaves it safe: the ids of the new rows
-- rise and are above the end of every run.
pub insert_addresses_with_ids-IsSafe :
    (sc : Scanner) (batch : ℕ) (inputs : List AddressInput) (s : System)
    → IsSafe sc s.db
    → IsSafe sc (insert_addresses_with_ids batch inputs s).1.db
insert_addresses_with_ids-IsSafe sc batch inputs s h =
    IsSafe-Grows sc s.db _ (insert_addresses_with_ids-Runs batch inputs s).0 h
