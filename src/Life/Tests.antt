-- ===== src/Life/Tests.antt =====
-- A life: an import, a scan, deliveries, a retry and a clean-up.
use wallet_scan.Prelude.{refl, none, List, [], ◌∷◌}
use wallet_scan.Prelude.Int.{pos}
use wallet_scan.Prelude.Texts.{codes}
use wallet_scan.Domain.{AddressInput}
use wallet_scan.Store.Session.{System}
use wallet_scan.Store.Imports.{insert_addresses_with_ids}
use wallet_scan.Scanner.Health.{new_health_tracker}
use wallet_scan.Scanner.Run.{Scanner, run_once}
use wallet_scan.Scanner.Run.Safety.{IsSafe}
use wallet_scan.Scanner.Run.Example.{scanner, fair, broken}
use wallet_scan.Scanner.Retry.{retry_failed}
use wallet_scan.Maintenance.{cleanup}
use wallet_scan.Notifications.{Client, drain}
use wallet_scan.Life.{
  empty_tables, migrated, imported, scanned, retried, drained, cleaned, Life-IsSafe,
}

abbrev rich : Scanner
rich = scanner (pos 7)

abbrev client : Client
client = record {
  url = codes "https://example.org";
  post = λ n message. none;
  show = λ e. codes "error";
}

abbrev inputs : List AddressInput
inputs =
    (record {
      address_type = codes "btc";
      address = codes "bc1qxyz";
      normalized = codes "bc1qxyz";
      label = [];
    })
    ∷ []

abbrev start : System
start = record {
  db = empty_tables;
  asked = 0;
  moments = λ n. record { fault = broken n; now = n; uuid = n };
  health = new_health_tracker (pos 5);
  batches = 0;
}

abbrev filled : System
filled = (insert_addresses_with_ids 0 inputs start).1

abbrev run : System
run = (run_once rich filled).1

abbrev told : System
told = (drain client 10 run).1

abbrev tried : System
tried = (retry_failed rich 10 told).1

abbrev cleared : System
cleared = (cleanup 1000 10 tried).1

Life-IsSafe_example : IsSafe rich cleared.db
Life-IsSafe_example = Life-IsSafe rich cleared (fair (pos 7)) (
    cleaned tried 1000 10 (
      retried told 10
        (drained run client 10 (scanned filled (imported start 0 inputs (migrated start refl))))))
