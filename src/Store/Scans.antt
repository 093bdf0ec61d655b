-- ===== src/Store/Scans.antt =====
-- The ranges of ids that a scan takes, and the rows of `scan_runs`.
use wallet_scan.Prelude.{
  ℕ, ◌+◌, ◌-◌, Bool, true, false, ◌&&◌, ◌||◌, Option, none, some, List, [], ◌∷◌, ◌++◌, map, ◌==◌,
  ltb, leb, if◌then◌else◌, nat_eq, take,
}
use wallet_scan.Domain.{Address, RunStatus, running, paused, completed, ScanRun}
use wallet_scan.Store.Tables.{AddressRow, RunRow, Database}
use wallet_scan.Store.Session.{Moment, Result, ok, err, violation, M, ◌>>=◌, statement}

-- A statement that only reads.
abbrev pub select : {A : Type 0} → (Database → A) → M A
select f = statement (λ m db. (ok (f db), db))

-- `min(id), max(id)`; no row has no minimum.
unfoldable pub id_range : List AddressRow → Option (ℕ × ℕ)
id_range [] = none
id_range (a ∷ rows) = elim (id_range rows) [
  | none ↦ some (a.id, a.id)
  | some (low, high) ↦
      some (if ltb a.id low then a.id else low, if ltb high a.id then a.id else high)
]

-- `WHERE id > n`.
unfoldable pub above : ℕ → List AddressRow → List AddressRow
above n [] = []
above n (a ∷ rows) = let rest = above n rows in if ltb n a.id then a ∷ rest else rest

unfoldable pub address_range : M (Option (ℕ × ℕ))
address_range = select (λ db. id_range db.addresses)

abbrev pub is_completed : RunStatus → Bool
is_completed completed = true
is_completed _ = false

abbrev pub is_running : RunStatus → Bool
is_running running = true
is_running _ = false

abbrev pub is_paused : RunStatus → Bool
is_paused paused = true
is_paused _ = false

-- `COALESCE(max(end_id), 0)` over the completed runs.
unfoldable pub last_end : List RunRow → ℕ
last_end [] = 0
last_end (r ∷ rows) =
    let rest = last_end rows in
    if is_completed r.status && ltb rest r.end_id then r.end_id else rest

unfoldable pub unscanned_range : M (Option (ℕ × ℕ))
unscanned_range =
    select (λ db. last_end db.runs) >>= λ n. select (λ db. id_range (above n db.addresses))

-- `WHERE status IN ('running', 'paused') ORDER BY started_at LIMIT 1`.
unfoldable pub oldest_active : List RunRow → Option RunRow
oldest_active [] = none
oldest_active (r ∷ rows) =
    let rest = oldest_active rows in
    if is_running r.status || is_paused r.status
    then elim rest [
      | none ↦ some r
      | some r' ↦ if ltb r'.started_at r.started_at then some r' else some r
    ]
    else rest

abbrev pub run_of : Option RunRow → Option ScanRun
run_of none = none
run_of (some r) = some r.run

unfoldable pub active_scan : M (Option ScanRun)
active_scan = select (λ db. run_of (oldest_active db.runs))

unfoldable pub has_run : ℕ → List RunRow → Bool
has_run id [] = false
has_run id (r ∷ rows) = r.id == id || has_run id rows

abbrev pub new_run : ℕ → ℕ → ℕ → ScanRun
new_run id start_id end_id = record {
  id = id;
  start_id = start_id;
  end_id = end_id;
  cursor_id = start_id - 1;
  status = running;
  processed_count = 0;
  empty_count = 0;
  positive_count = 0;
  error_count = 0;
}

-- PRIMARY KEY and the three CHECKs of `scan_runs`.
unfoldable pub insert_run : ℕ → ℕ → Moment → Database → Result ScanRun × Database
insert_run start_id end_id m db =
    let r = new_run m.uuid start_id end_id in
    if has_run m.uuid db.runs || ltb start_id 1 || ltb end_id start_id || ltb end_id (start_id - 1)
    then (err violation, db)
    else (
      ok r,
      record db {
        runs = db.runs ++ (record { run = r; started_at = m.now; completed_at = none }) ∷ [];
      },
    )

unfoldable pub create_scan : ℕ → ℕ → M ScanRun
create_scan start_id end_id = statement (insert_run start_id end_id)

-- `WHERE id > $1 AND id <= $2`.
unfoldable pub between : ℕ → ℕ → List AddressRow → List AddressRow
between low high [] = []
between low high (a ∷ rows) =
    let rest = between low high rows in if ltb low a.id && leb a.id high then a ∷ rest else rest

abbrev pub address_of : AddressRow → Address
address_of a = record {
  id = a.id;
  address_type = a.address_type;
  address = a.address;
  label = a.label;
}

-- The rows stand in the order of their ids.
unfoldable pub next_addresses : ScanRun → ℕ → M (List Address)
next_addresses r batch_size =
    select (λ db. map address_of (take batch_size (between r.cursor_id r.end_id db.addresses)))

-- `UPDATE scan_runs SET ... WHERE id = $1 AND status = ...`.
unfoldable pub update_runs : ℕ → (RunStatus → Bool) → (RunRow → RunRow) → List RunRow → List RunRow
update_runs id test f [] = []
update_runs id test f (r ∷ rows) =
    (if r.id == id && test r.status then f r else r) ∷ update_runs id test f rows

abbrev pub with_status : RunStatus → RunRow → RunRow
with_status status r = record r { run = record r.run { status = status } }

abbrev pub set_status : ℕ → (RunStatus → Bool) → RunStatus → M (Unit {0})
set_status id test status =
    statement
      (λ m db. (ok tt, record db { runs = update_runs id test (with_status status) db.runs }))

abbrev pub advanced : ℕ → ℕ → ℕ → ℕ → ℕ → RunRow → RunRow
advanced cursor processed empty positive failures r = record r {
  run = record r.run {
    cursor_id = cursor;
    processed_count = r.processed_count + processed;
    empty_count = r.empty_count + empty;
    positive_count = r.positive_count + positive;
    error_count = r.error_count + failures;
  };
}

-- CHECK (cursor_id <= end_id), for the rows that the update touches.
unfoldable pub any_ends_before : ℕ → ℕ → List RunRow → Bool
any_ends_before id cursor [] = false
any_ends_before id cursor (r ∷ rows) =
    (r.id == id && is_running r.status && ltb r.end_id cursor) || any_ends_before id cursor rows

unfoldable pub advance_scan : ℕ → ℕ → ℕ → ℕ → ℕ → ℕ → M (Unit {0})
advance_scan id cursor processed empty positive failures = statement (λ m db.
    if any_ends_before id cursor db.runs then (err violation, db) else (
      ok tt,
      record db {
        runs =
            update_runs id is_running (advanced cursor processed empty positive failures) db.runs;
      },
    ))

abbrev pub completed_at : ℕ → RunRow → RunRow
completed_at now r = record r { run = record r.run { status = completed }; completed_at = some now }

unfoldable pub complete_scan : ℕ → M (Unit {0})
complete_scan id =
    statement
      (λ m db. (ok tt, record db { runs = update_runs id is_running (completed_at m.now) db.runs }))

unfoldable pub resume_scan : ℕ → M (Unit {0})
resume_scan id = set_status id is_paused running

unfoldable pub pause_scan : ℕ → M (Unit {0})
pause_scan id = set_status id is_running paused
