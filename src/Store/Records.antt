-- ===== src/Store/Records.antt =====
-- What a scan leaves behind: the retry queue, node incidents, findings, and the events of the
-- notification outbox.
use wallet_scan.Prelude.{
  ℕ, ◌+◌, Bool, true, false, not, ◌&&◌, ◌||◌, Option, none, some, List, [], ◌∷◌, ◌++◌, ◌==◌,
  if◌then◌else◌, nat_eq,
}
use wallet_scan.Prelude.Int.{eqb_ℤ}
use wallet_scan.Prelude.Texts.{Text, text_eq}
use wallet_scan.Scanner.Check.{PositiveFinding}
use wallet_scan.Store.Tables.{
  FindingRow, RetryRow, EventRow, pending, Database, first_positive, balance_changed, node_error,
  is_chain, is_positive_numeric, has_address, find_finding, has_retry,
}
use wallet_scan.Store.Session.{
  Moment, Result, ok, err, violation, M, pure, ◌>>=◌, ◌>>◌, statement, transaction,
}
use wallet_scan.Store.Scans.{select}

abbrev pub second : ℕ
second = 1000000000

-- The UPDATE of one row of the retry queue, by its unique key.
unfoldable pub update_retry : ℕ → Text → (RetryRow → RetryRow) → List RetryRow → List RetryRow
update_retry id chain f [] = []
update_retry id chain f (q ∷ qs) =
    (if q.address_id == id && q.chain == chain then f q else q) ∷ update_retry id chain f qs

abbrev pub failed_again : Text → Text → Text → ℕ → RetryRow → RetryRow
failed_again code provider message next q = record q {
  error_code = code;
  provider = provider;
  attempts = q.attempts + 1;
  next_retry_at = next;
  last_error = message;
  resolved_at = none;
}

abbrev pub first_failure : ℕ → ℕ → Text → Text → Text → Text → ℕ → RetryRow
first_failure id address_id chain code provider message next = record {
  id = id;
  address_id = address_id;
  chain = chain;
  error_code = code;
  provider = provider;
  attempts = 1;
  next_retry_at = next;
  last_error = message;
  resolved_at = none;
}

-- `INSERT ... ON CONFLICT (address_id, chain) DO UPDATE`.
unfoldable pub upsert_retry :
    ℕ → Text → Text → Text → Text → ℕ → Moment → Database → Result (Unit {0}) × Database
upsert_retry address_id chain code provider message next m db =
    let id = db.sequences.retry_id in
    let db' = record db { sequences = record db.sequences { retry_id = id + 1 } } in
    if not (has_address address_id db.addresses) then (err violation, db') else (
      ok tt,
      record db' {
        retries =
            if has_retry address_id chain db.retries
            then update_retry address_id chain (failed_again code provider message next) db.retries
            else db.retries ++ first_failure id address_id chain code provider message next ∷ [];
      },
    )

unfoldable pub record_retry : ℕ → Text → Text → Text → Text → ℕ → M (Unit {0})
record_retry address_id chain code provider message next =
    statement (upsert_retry address_id chain code provider message next)

abbrev pub resolved : ℕ → RetryRow → RetryRow
resolved now q = record q { resolved_at = some now }

unfoldable pub close_retry : ℕ → Text → M (Unit {0})
close_retry address_id chain = statement (λ m db.
    (ok tt, record db { retries = update_retry address_id chain (resolved m.now) db.retries }))

unfoldable pub create_node_incident : Text → Text → Text → ℕ → M ℕ
create_node_incident chain provider code failures = statement (λ m db.
    let id = db.sequences.incident_id in
    (
      ok id,
      record db {
        incidents =
            db.incidents
            ++ (record {
              id = id;
              chain = chain;
              provider = provider;
              error_code = code;
              consecutive_failures = failures;
            })
              ∷ [];
        sequences = record db.sequences { incident_id = id + 1 };
      },
    ))

abbrev pub new_event : ℕ → Option ℕ → Option ℕ → Text → ℕ → EventRow
new_event id finding incident event_type now = record {
  id = id;
  finding_id = finding;
  node_incident_id = incident;
  event_type = event_type;
  status = pending;
  attempts = 0;
  last_error = [];
  sent_at = none;
  next_attempt_at = now;
  created_at = now;
}

-- `INSERT INTO notification_events ... RETURNING id`. Its callers name a finding or an incident that they
-- have the id of from the database.
unfoldable pub insert_event : Option ℕ → Option ℕ → Text → Moment → Database → Result ℕ × Database
insert_event finding incident event_type m db =
    let id = db.sequences.event_id in
    (
      ok id,
      record db {
        events = db.events ++ new_event id finding incident event_type m.now ∷ [];
        sequences = record db.sequences { event_id = id + 1 };
      },
    )

unfoldable pub create_node_notification_event : ℕ → M ℕ
create_node_notification_event incident = statement (insert_event none (some incident) node_error)

abbrev pub new_finding : ℕ → PositiveFinding → ℕ → FindingRow
new_finding id f now = record {
  id = id;
  address_id = f.address_id;
  chain = f.chain;
  balance_atomic = f.balance;
  asset_symbol = f.asset_symbol;
  first_seen_at = now;
  last_seen_at = now;
}

unfoldable pub insert_finding : PositiveFinding → Moment → Database → Result ℕ × Database
insert_finding f m db =
    let id = db.sequences.finding_id in
    let db' = record db { sequences = record db.sequences { finding_id = id + 1 } } in
    if has_address f.address_id db.addresses && is_chain f.chain && is_positive_numeric f.balance
    then (ok id, record db' { findings = db.findings ++ new_finding id f m.now ∷ [] })
    else (err violation, db')

unfoldable pub update_findings : PositiveFinding → ℕ → List FindingRow → List FindingRow
update_findings f now [] = []
update_findings f now (r ∷ rows) =
    (if r.address_id == f.address_id && r.chain == f.chain
      then record r {
        balance_atomic = f.balance;
        asset_symbol = f.asset_symbol;
        last_seen_at = now;
      }
      else r)
    ∷ update_findings f now rows

unfoldable pub update_finding : PositiveFinding → Moment → Database → Result (Unit {0}) × Database
update_finding f m db =
    if is_positive_numeric f.balance
    then (ok tt, record db { findings = update_findings f m.now db.findings })
    else (err violation, db)

-- One finding: its row's id, whether the balance changed, and whether the row is new.
pub record Upserted : Type 0 where
  pub id : ℕ
  pub changed : Bool
  pub created : Bool

-- `SELECT ... FOR UPDATE` found a row, or the finding is new.
unfoldable pub write_finding : PositiveFinding → Option FindingRow → M Upserted
write_finding f none =
    statement (insert_finding f) >>= λ id. pure (record { id = id; changed = true; created = true })
write_finding f (some row) =
    statement (update_finding f)
    >> pure (record {
      id = row.id;
      changed = not (eqb_ℤ row.balance_atomic f.balance);
      created = false;
    })

unfoldable pub upsert_finding : PositiveFinding → M Upserted
upsert_finding f =
    select (λ db. find_finding f.address_id f.chain db.findings) >>= λ old. write_finding f old

-- The loop: the first finding that changed, and whether any is new.
unfoldable pub upsert_findings : List PositiveFinding → Option ℕ → Bool → M (Option ℕ × Bool)
upsert_findings [] event_finding created_any = pure (event_finding, created_any)
upsert_findings (f ∷ fs) event_finding created_any = upsert_finding f >>= λ u.
    upsert_findings fs
      (elim event_finding [ some id ↦ some id | none ↦ if u.changed then some u.id else none ])
      (created_any || u.created)

-- The event of an address: none if no balance changed.
unfoldable pub announce : Option ℕ × Bool → M (Option ℕ)
announce (none, created_any) = pure none
announce (some id, created_any) =
    statement
      (insert_event (some id) none (if created_any then first_positive else balance_changed))
    >>= λ event. pure (some event)

unfoldable pub save_all_findings : List PositiveFinding → M (Option ℕ)
save_all_findings fs = upsert_findings fs none false >>= λ r. announce r

-- The id of the event, if there is one.
unfoldable pub save_positive_findings : List PositiveFinding → M (Option ℕ)
save_positive_findings [] = pure none
save_positive_findings (f ∷ fs) = transaction (save_all_findings (f ∷ fs))
