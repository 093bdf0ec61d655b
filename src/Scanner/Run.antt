-- ===== src/Scanner/Run.antt =====
-- The scan run, internal/scanner/scanner.go: `processBatch`, `run`, `RunOnce`. The workers of a batch
-- check their addresses side by side: the world of each check holds what the other workers do to the
-- shared health tracker, and the results come in the order in which the workers finish.
mod Tests
pub mod Example
pub mod Order
pub mod Coverage
pub mod Batch
pub mod Counts
pub mod Safety
pub mod Loop
pub mod Rounds
pub mod Ranges
pub mod Start
pub mod Create
pub mod Once
pub mod Importing
use wallet_scan.Prelude.{
  ℕ, zero, suc, ◌+◌, ◌-◌, Bool, true, false, not, ◌&&◌, ◌||◌, Option, none, some, List, [], ◌∷◌,
  ◌++◌, ◌==◌, nat_eq, if◌then◌else◌, length, eqb,
}
use wallet_scan.Prelude.Int.{pos_part, neg_part}
use wallet_scan.Prelude.Texts.{Text, codes, text_eq}
use wallet_scan.Domain.{Address, RunStatus, running, paused, completed, failed, ScanRun}
use wallet_scan.Providers.{Error}
use wallet_scan.Scanner.Health.{HealthTracker}
use wallet_scan.Scanner.Check.{
  Config, Worlds, PositiveFinding, ScanFailure, NodeAlert, AddressResult, check_address,
}
use wallet_scan.Store.Session.{
  Result, ok, err, no_workers, unfinished, scan_paused, System, M, pure, fail, ◌>>=◌, ◌>>◌,
  ignore_error, for_each,
}
use wallet_scan.Store.Scans.{
  unscanned_range, active_scan, create_scan, next_addresses, advance_scan, complete_scan,
  resume_scan, pause_scan, is_paused,
}
use wallet_scan.Store.Records.{
  record_retry, close_retry, create_node_incident, create_node_notification_event,
  save_positive_findings,
}

-- The scanner with its world: how the providers answer for an address in a batch, in what order the
-- workers of a batch finish, and the notifier, which may be nil.
pub record Scanner : Type 0 where
  pub config : Config
  pub batch_size : ℕ
  pub address_workers : ℕ
  pub notifier : Option (ℕ → M (Unit {0}))
  pub show : Error → Text
  pub answers : ℕ → ℕ → Worlds
  pub finish : ℕ → List AddressResult → List AddressResult

unfoldable pub check_batch :
    Scanner → ℕ → List Address → HealthTracker → List AddressResult × HealthTracker
check_batch sc n [] h = ([], h)
check_batch sc n (a ∷ batch) h =
    let r = check_address sc.show sc.config (sc.answers n a.id) a h in
    let rest = check_batch sc n batch r.1 in (r.0 ∷ rest.0, rest.1)

-- With no worker nobody takes the first address, and the batch never ends.
unfoldable pub process_batch : Scanner → List Address → M (List AddressResult)
process_batch sc batch s =
    let r = check_batch sc s.batches batch s.health in
    if sc.address_workers == 0
    then (err no_workers, s)
    else (ok (sc.finish s.batches r.0), record s { health = r.1; batches = s.batches + 1 })

abbrev pub is_empty {ℓ} : {A : Type ℓ} → List A → Bool
is_empty [] = true
is_empty (x ∷ xs) = false

-- The counters of a batch.
pub record Tally : Type 0 where
  pub processed : ℕ
  pub empty : ℕ
  pub positive : ℕ
  pub failures : ℕ
  pub pause : Bool

unfoldable pub tally : List AddressResult → Tally
tally [] = record { processed = 0; empty = 0; positive = 0; failures = 0; pause = false }
tally (r ∷ rs) =
    let t = tally rs in
    record {
      processed = t.processed + 1;
      empty = if is_empty r.findings && is_empty r.errors then t.empty + 1 else t.empty;
      positive = t.positive + length r.findings;
      failures = t.failures + length r.errors;
      pause = r.pause || t.pause;
    }

-- `time.Now().Add(s.Config.RetryBaseDelay)`.
unfoldable pub retry_time : Scanner → System → ℕ
retry_time sc s =
    (s.moments s.asked).now
    + pos_part sc.config.retry_base_delay
    - neg_part sc.config.retry_base_delay

-- One failed query of a result.
unfoldable pub save_failure : Scanner → ℕ → ScanFailure → M (Unit {0})
save_failure sc address_id f s =
    (do
      record_retry address_id f.chain f.code f.provider f.message (retry_time sc s)
      if f.code == codes "invalid_address" then close_retry address_id f.chain else pure tt)
      s

-- `_ = s.Notifier.Deliver(ctx, eventID)`, unless the notifier is nil.
unfoldable pub notify : Scanner → ℕ → M (Unit {0})
notify sc event = elim sc.notifier [ none ↦ pure tt | some deliver ↦ ignore_error (deliver event) ]

unfoldable pub save_alert : Scanner → NodeAlert → M (Unit {0})
save_alert sc a = create_node_incident a.chain a.provider a.code a.failures >>= λ incident.
    create_node_notification_event incident >>= λ event. notify sc event

unfoldable pub notify_new : Scanner → Option ℕ → M (Unit {0})
notify_new sc none = pure tt
notify_new sc (some event) = notify sc event

-- One round of the loop over the results.
unfoldable pub save_result : Scanner → AddressResult → M (Unit {0})
save_result sc r =
    for_each r.errors (save_failure sc r.address.id)
    >> (for_each r.node_alerts (save_alert sc)
        >> (save_positive_findings r.findings >>= λ event. notify_new sc event))

unfoldable pub last_id : ℕ → List Address → ℕ
last_id n [] = n
last_id n (a ∷ batch) = last_id a.id batch

-- The end of a round: a batch with an unhealthy provider is not counted, and the cursor stays.
unfoldable pub close_batch :
    (ScanRun → M (Unit {0})) → ScanRun → List Address → Tally → M (Unit {0})
close_batch again run batch t =
    let cursor = last_id run.cursor_id batch in
    if t.pause then (do pause_scan run.id; fail (scan_paused run.cursor_id)) else (do
      advance_scan run.id cursor t.processed t.empty t.positive t.failures
      again (record run { cursor_id = cursor }))

unfoldable pub take_batch :
    Scanner → (ScanRun → M (Unit {0})) → ScanRun → List Address → M (Unit {0})
take_batch sc again run [] = complete_scan run.id
take_batch sc again run (a ∷ batch) = process_batch sc (a ∷ batch) >>= λ results.
    for_each results (save_result sc) >> close_batch again run (a ∷ batch) (tally results)

-- The loop of `run`, on as many rounds as it is given.
unfoldable pub run : Scanner → ℕ → ScanRun → M (Unit {0})
run sc zero r = fail unfinished
run sc (suc rounds) r =
    next_addresses r sc.batch_size >>= λ batch. take_batch sc (run sc rounds) r batch

-- An active run goes on; a paused one is resumed first.
unfoldable pub go_on : Scanner → ℕ → ScanRun → M (Unit {0})
go_on sc rounds r =
    if is_paused r.status
    then (resume_scan r.id >> run sc rounds (record r { status = running }))
    else run sc rounds r

unfoldable pub start_scan : Scanner → ℕ → Option (ℕ × ℕ) → M (Unit {0})
start_scan sc rounds none = pure tt
start_scan sc rounds (some (start_id, end_id)) =
    create_scan start_id end_id >>= λ r. run sc rounds r

unfoldable pub resume_or_start : Scanner → ℕ → Option ScanRun → M (Unit {0})
resume_or_start sc rounds (some r) = go_on sc rounds r
resume_or_start sc rounds none = unscanned_range >>= λ range. start_scan sc rounds range

-- `RunOnce`: each round but the last takes an address, so there is one more than there are addresses.
unfoldable pub run_once : Scanner → M (Unit {0})
run_once sc s =
    (active_scan >>= λ active. resume_or_start sc (suc (length s.db.addresses)) active) s
