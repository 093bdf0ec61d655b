-- ===== src/Scanner/Run/Example.antt =====
-- A table of one address, and a scanner with one provider that always finds the same balance.
use mathlib.Core.List.Permᴰ
use wallet_scan.Prelude.{ℕ, true, none, [], ◌∷◌, arith, if◌then◌else◌, ◌==◌, nat_eq}
use wallet_scan.Prelude.Int.{ℤ, pos}
use wallet_scan.Prelude.Texts.{codes}
use wallet_scan.Providers.{plain}
use wallet_scan.Scanner.Health.{new_health_tracker}
use wallet_scan.Scanner.Check.{World, answered}
use wallet_scan.Store.Tables.{Database}
use wallet_scan.Store.Session.{Fault, fine, late, System}
use wallet_scan.Scanner.Run.{Scanner}
use wallet_scan.Scanner.Run.Batch.{IsFair}
use wallet_scan.Scanner.Run.Safety.{IsSafe}

abbrev pub world : ℤ → World
world balance = record {
  attempt = λ n. record {
    slot = true;
    reply = answered (record { value = balance; symbol = codes "BTC"; chain = codes "btc" });
    woke = true;
  };
  context_error = plain (codes "context canceled");
  before_record = λ h. h;
  before_test = λ h. h;
  before_alert = λ h. h;
}

abbrev pub scanner : ℤ → Scanner
scanner balance = record {
  config = record { max_retries = 2; retry_base_delay = pos 2000000000 };
  batch_size = 10;
  address_workers = 4;
  notifier = none;
  show = λ e. codes "error";
  answers = λ n id. (codes "btc", (world balance, true)) ∷ [];
  finish = λ n rs. rs;
}

pub fair : (balance : ℤ) → IsFair (scanner balance)
fair balance = record {
  works = omega arith;
  room = omega arith;
  order = λ n rs. Permᴰ.refl rs;
  quiet = tt;
}

abbrev pub table : Database
table = record {
  addresses =
      (record {
        id = 1;
        address_type = codes "btc";
        address = codes "bc1qxyz";
        normalized = codes "bc1qxyz";
        label = [];
        import_batch_id = 0;
      })
      ∷ [];
  runs = [];
  findings = [];
  retries = [];
  incidents = [];
  events = [];
  sequences = record {
    address_id = 2;
    finding_id = 1;
    retry_id = 1;
    incident_id = 1;
    event_id = 1;
  };
}

-- The connection fails at the statements that `faults` names.
abbrev pub system : (ℕ → Fault) → System
system faults = record {
  db = table;
  asked = 0;
  moments = λ n. record { fault = faults n; now = n; uuid = n };
  health = new_health_tracker (pos 5);
  batches = 0;
}

abbrev pub steady : ℕ → Fault
steady n = fine

-- The sixth statement's answer is lost.
abbrev pub broken : ℕ → Fault
broken n = if n == 5 then late else fine

pub table-IsSafe : (balance : ℤ) → IsSafe (scanner balance) table
table-IsSafe balance = record {
  rising = (omega arith, tt);
  started = omega arith;
  numbered = (omega arith, tt);
  keyed = tt;
  runs = tt;
}
