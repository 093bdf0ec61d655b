-- ===== src/Life.antt =====
-- The life of a deployment: the calls that cmd/wallet-scan/main.go makes on one database, in any order and
-- number, with restarts of the process between them.
mod Tests
use wallet_scan.Prelude.{ℕ, ◌≡◌, refl, sym, subst, Option, none, some, List, [], ◌∷◌, arith}
use wallet_scan.Domain.{AddressInput}
use wallet_scan.Scanner.Health.{HealthTracker}
use wallet_scan.Store.Tables.{Database}
use wallet_scan.Store.Session.{Error, Result, and_then, ok, err, System, M, statement}
use wallet_scan.Store.Kept.{Kept, Kept-IsPreorder}
use wallet_scan.Store.Rules.{IsPreorder, Runs, Ends, statement-Runs, bind-Runs}
use wallet_scan.Store.Imports.{insert_addresses_with_ids}
use wallet_scan.Store.Outbox.{pending_notification_ids}
use wallet_scan.Scanner.Run.{Scanner, run_once}
use wallet_scan.Scanner.Run.Batch.{IsFair}
use wallet_scan.Scanner.Run.Safety.{IsSafe, IsSafe-Kept}
use wallet_scan.Scanner.Run.Once.{run_once-IsSafe}
use wallet_scan.Scanner.Run.Importing.{insert_addresses_with_ids-IsSafe}
use wallet_scan.Scanner.Retry.{retry_failed, retry_failed-Runs}
use wallet_scan.Maintenance.{cleanup}
use wallet_scan.Maintenance.Deletion.{cleanup-IsSafe}
use wallet_scan.Notifications.{Client, deliver, deliver_all, drain}
use wallet_scan.Notifications.Delivery.{deliver-KeepsTables}

-- The tables as the migration leaves them.
abbrev pub empty_tables : Database
empty_tables = record {
  addresses = [];
  runs = [];
  findings = [];
  retries = [];
  incidents = [];
  events = [];
  sequences = record {
    address_id = 1;
    finding_id = 1;
    retry_id = 1;
    incident_id = 1;
    event_id = 1;
  };
}

-- The systems that come about: each call may end well or in an error.
pub data Life (sc : Scanner) : System → Type 0 where
  migrated : (s : System) → s.db ≡ empty_tables → Life sc s
  restarted : (s : System) (h : HealthTracker) → Life sc s → Life sc (record s { health = h })
  imported :
      (s : System) (batch : ℕ) (inputs : List AddressInput)
      → Life sc s
      → Life sc (insert_addresses_with_ids batch inputs s).1
  scanned : (s : System) → Life sc s → Life sc (run_once sc s).1
  retried : (s : System) (limit : ℕ) → Life sc s → Life sc (retry_failed sc limit s).1
  drained : (s : System) (c : Client) (limit : ℕ) → Life sc s → Life sc (drain c limit s).1
  cleaned : (s : System) (cutoff size : ℕ) → Life sc s → Life sc (cleanup cutoff size s).1

deliver_all-Kept :
    (c : Client) (events : List ℕ) (first : Option Error) (s : System)
    → Kept s.db (deliver_all c events first s).1.db
unfolding deliver_all
deliver_all-Kept c [] first s = Kept-IsPreorder.same s.db
deliver_all-Kept c (event ∷ events) first s =
    Kept-IsPreorder.chain _ _ _ (deliver-KeepsTables c event s)
      (deliver_all-Kept c events _ (deliver c event s).1)

and_then-Kept :
    (r : Result (List ℕ) × System) (f : List ℕ → M (Unit {0})) (d : Database)
    → Kept d r.1.db
    → ((events : List ℕ) (t : System) → Kept t.db (f events t).1.db)
    → Kept d (and_then r f).1.db
and_then-Kept (ok events, t) f d k h = Kept-IsPreorder.chain _ _ _ k (h events t)
and_then-Kept (err e, t) f d k h = k

drain-Kept : (c : Client) (limit : ℕ) (s : System) → Kept s.db (drain c limit s).1.db
unfolding drain pending_notification_ids
drain-Kept c limit s =
    and_then-Kept (pending_notification_ids limit s) (λ events. deliver_all c events none) s.db
      (statement-Runs Kept-IsPreorder {A = List ℕ} (λ _ d. Unit) _ s
        (λ m. (Kept-IsPreorder.same s.db, tt))).0
      (λ events t. deliver_all-Kept c events none t)

empty_tables-IsSafe : (sc : Scanner) → IsSafe sc empty_tables
empty_tables-IsSafe sc = record {
  rising = tt;
  started = omega arith;
  numbered = tt;
  keyed = tt;
  runs = tt;
}

-- In the whole life of a deployment, whatever calls are made in whatever order, however the providers and
-- the web hook answer, wherever the connection fails and however often the process restarts, every address
-- that the cursor of a run has passed is done, and the ids of the addresses and the runs are in order. The
-- scanner has at least one worker and room in a batch, and its notifier keeps what the tables hold.
pub Life-IsSafe : (sc : Scanner) (s : System) → IsFair sc → Life sc s → IsSafe sc s.db
Life-IsSafe sc _ f (migrated s e) = subst (IsSafe sc) (sym e) (empty_tables-IsSafe sc)
Life-IsSafe sc _ f (restarted s h l) = Life-IsSafe sc s f l
Life-IsSafe sc _ f (imported s batch inputs l) =
    insert_addresses_with_ids-IsSafe sc batch inputs s (Life-IsSafe sc s f l)
Life-IsSafe sc _ f (scanned s l) = run_once-IsSafe sc s f (Life-IsSafe sc s f l)
Life-IsSafe sc _ f (retried s limit l) =
    IsSafe-Kept sc s.db _ (retry_failed-Runs sc f limit s).0 (Life-IsSafe sc s f l)
Life-IsSafe sc _ f (drained s c limit l) =
    IsSafe-Kept sc s.db _ (drain-Kept c limit s) (Life-IsSafe sc s f l)
Life-IsSafe sc _ f (cleaned s cutoff size l) =
    cleanup-IsSafe sc cutoff size s (Life-IsSafe sc s f l)
