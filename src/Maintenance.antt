-- ===== src/Maintenance.antt =====
-- The clean-up of internal/maintenance/cleanup.go: one statement that deletes a batch of addresses that
-- were scanned and left nothing behind.
mod Tests
pub mod Empty
pub mod Scanned
pub mod Deletion
use wallet_scan.Prelude.{
  ℕ, zero, suc, Bool, true, false, not, ◌&&◌, ◌||◌, Option, none, some, List, [], ◌∷◌, ◌==◌, nat_eq,
  ltb, leb, if◌then◌else◌, take, length,
}
use wallet_scan.Domain.{RunStatus, ScanRun}
use wallet_scan.Store.Tables.{AddressRow, RunRow, FindingRow, RetryRow, Database, has_address}
use wallet_scan.Store.Session.{ok, bad_size, M, fail, statement}
use wallet_scan.Store.Scans.{is_completed}

abbrev is_before : ℕ → Option ℕ → Bool
is_before cutoff none = false
is_before cutoff (some t) = ltb t cutoff

-- EXISTS over `scan_runs`.
unfoldable pub is_scanned : ℕ → ℕ → List RunRow → Bool
is_scanned cutoff id [] = false
is_scanned cutoff id (r ∷ rows) =
    (is_completed r.status
      && is_before cutoff r.completed_at
      && leb r.start_id id
      && leb id r.end_id)
    || is_scanned cutoff id rows

-- EXISTS over `positive_findings`, and over `retry_queue`.
unfoldable pub has_findings : ℕ → List FindingRow → Bool
has_findings id [] = false
has_findings id (f ∷ fs) = f.address_id == id || has_findings id fs

unfoldable pub has_retries : ℕ → List RetryRow → Bool
has_retries id [] = false
has_retries id (q ∷ qs) = q.address_id == id || has_retries id qs

unfoldable pub is_candidate : ℕ → Database → ℕ → Bool
is_candidate cutoff db id =
    is_scanned cutoff id db.runs
    && not (has_findings id db.findings)
    && not (has_retries id db.retries)

-- The rows stand in the order of their ids.
unfoldable pub candidates : ℕ → Database → List AddressRow → List AddressRow
candidates cutoff db [] = []
candidates cutoff db (a ∷ rows) =
    let rest = candidates cutoff db rows in if is_candidate cutoff db a.id then a ∷ rest else rest

-- What the DELETE returns, and what it leaves.
unfoldable pub among : List AddressRow → List AddressRow → List AddressRow
among doomed [] = []
among doomed (a ∷ rows) =
    let rest = among doomed rows in if has_address a.id doomed then a ∷ rest else rest

unfoldable pub without : List AddressRow → List AddressRow → List AddressRow
without doomed [] = []
without doomed (a ∷ rows) =
    let rest = without doomed rows in if has_address a.id doomed then rest else a ∷ rest

-- `Run`: the number of the deleted rows.
unfoldable pub cleanup : ℕ → ℕ → M ℕ
cleanup cutoff zero = fail bad_size
cleanup cutoff (suc n) = statement (λ m db.
    let doomed = take (suc n) (candidates cutoff db db.addresses) in
    (
      ok (length (among doomed db.addresses)),
      record db { addresses = without doomed db.addresses },
    ))
