-- ===== src/Scanner/Tests.antt =====
-- The scanner's checks at concrete inputs.
use wallet_scan.Prelude.{
  ℕ, zero, suc, ◌*◌, ◌^◌, ◌≤◌, ◌≡◌, refl, ◌↔◌, true, none, List, [], ◌∷◌, arith, if◌then◌else◌,
}
use wallet_scan.Prelude.Int.{pos, leb_ℤ}
use wallet_scan.Prelude.Texts.{Text, codes}
use wallet_scan.Domain.{Address}
use wallet_scan.Providers.{Error, provider_error, ProviderError, plain}
use wallet_scan.Scanner.Health.{HealthTracker, new_health_tracker}
use wallet_scan.Scanner.Check.{
  Config, Reply, answered, refused, World, Worlds, check_with_retry, backoff, chains_for,
  check_address,
}
use wallet_scan.Scanner.Check.Retry.{
  Uncancelled, ended, delays, retries, check_with_retry_lem, backoff_exact,
}
use wallet_scan.Scanner.Check.Addresses.{
  findings_of, failures_of, AreEmpty, check_address_reports, check_address_empty,
}
use wallet_scan.Scanner.Health.History.{
  Call, failed, succeeded, alerted, after, state_of, described, alerts, is_reported,
  after-described, one_alert,
}

abbrev show : Error → Text
show e = codes "error"

abbrev config : Config
config = record { max_retries = 2; retry_base_delay = pos 2000000000 }

abbrev busy : ProviderError
busy = record {
  code = codes "timeout";
  provider = codes "btc";
  status_code = 0;
  retry_after = pos 0;
  temporary = true;
  err = none;
}

-- The first attempt times out, the later ones are answered.
abbrev replies : ℕ → Reply
replies zero = refused (provider_error busy)
replies (suc n) = answered (record { value = pos 7; symbol = codes "BTC"; chain = codes "btc" })

abbrev world : World
world = record {
  attempt = λ n. record { slot = true; reply = replies n; woke = true };
  context_error = plain (codes "context canceled");
  before_record = λ h. h;
  before_test = λ h. h;
  before_alert = λ h. h;
}

abbrev tracker : HealthTracker
tracker = new_health_tracker (pos 5)

live : Uncancelled world
live n = (refl, refl)

check_with_retry_lem_example :
    let k = retries show config (codes "btc") world config.max_retries 0 in
    (check_with_retry show config true (codes "btc") world tracker
      ≡ ended show config
          (codes "btc")
          world
          (world.attempt k).reply
          tracker
          (delays show config (codes "btc") world 0 k))
    × (k ≤ config.max_retries)
check_with_retry_lem_example =
    check_with_retry_lem show config (codes "btc") world true live tracker

backoff_exact_example :
    backoff config busy 2
    ≡ (if leb_ℤ busy.retry_after (pos 0) then pos (2000000000 * 2 ^ 2) else busy.retry_after)
backoff_exact_example =
    backoff_exact config busy 2000000000 2 refl (omega arith) (omega arith) (omega arith)

abbrev worlds : Worlds
worlds = (codes "btc", (world, true)) ∷ []

abbrev address : Address
address = record { id = 4; address_type = codes "btc"; address = codes "bc1qxyz"; label = [] }

check_address_reports_example :
    ((check_address show config worlds address tracker).0.findings
      ≡ findings_of show config worlds address (chains_for (codes "btc")))
    × ((check_address show config worlds address tracker).0.errors
        ≡ failures_of show config worlds address (chains_for (codes "btc")))
check_address_reports_example = check_address_reports show config worlds address tracker

check_address_empty_example :
    (((check_address show config worlds address tracker).0.findings ≡ [])
      × ((check_address show config worlds address tracker).0.errors ≡ []))
    ↔ AreEmpty show config worlds address (chains_for (codes "btc"))
check_address_empty_example = check_address_empty show config worlds address tracker

-- The newest call first: two failures, an alert, a failure for another chain.
abbrev history : List Call
history =
    failed (codes "tron")
    ∷ alerted (codes "btc")
    ∷ failed (codes "btc")
    ∷ failed (codes "btc")
    ∷ succeeded (codes "btc")
    ∷ []

after-described_example :
    state_of (codes "btc") (after (pos 2) history) ≡ described (pos 2) (codes "btc") history
after-described_example = after-described (pos 2) (codes "btc") history

one_alert_example :
    (alerts (pos 2) (codes "btc") history ≤ 1)
    × ((alerts (pos 2) (codes "btc") history ≡ 1)
        ↔ (is_reported (pos 2) (codes "btc") history ≡ true))
one_alert_example = one_alert (pos 2) (codes "btc") history
