-- ===== src/StartupCheck/Tests.antt =====
-- A run of the startup check with one provider and a store that fails once.
use wallet_scan.Prelude.{
  ℕ, ◌≡◌, refl, ◌↔◌, true, false, none, some, Option, List, [], ◌∷◌, arith, ◌≢◌, ◌==◌,
  if◌then◌else◌, All,
}
use wallet_scan.Prelude.Int.{pos}
use wallet_scan.Prelude.Texts.{Text, codes, text_beq, text_eq}
use wallet_scan.Prelude.Maps.{lookup, insert}
use wallet_scan.Domain.{AddressInput, chain_btc, type_btc}
use wallet_scan.Providers.{Balance, Result, ok}
use wallet_scan.Adaptive.{
  Config, attempt, chain, has_room, new, clamped_max, clamped_initial, or_default, fresh,
}
use wallet_scan.Adaptive.HardCap.{start}
use wallet_scan.Adaptive.Leases.{System, here}
use wallet_scan.Adaptive.Acquire.{Round, acquire, loop, pause}
use wallet_scan.HttpServer.{World, finish}
use wallet_scan.HttpServer.Slots.{IsFair}
use wallet_scan.StartupCheck.{
  Addresses, Target, BalanceCheck, Service, check, after_acquire, of_reply, of_balance, inputs_of,
  target_for, targets_of, check_all, save_all, save_failed, done, Run, run_targets, run_addresses,
  run_once,
}
use wallet_scan.StartupCheck.Results.{FitsTarget, check_fits}
use wallet_scan.StartupCheck.Ends.{HasRounds, run_once_ends}
use wallet_scan.StartupCheck.Runs.{Each, six_targets, run_once_six}

abbrev found : Balance
found = record {
  atomic = some (pos 0);
  symbol = codes "BTC";
  chain = chain_btc;
  provider = chain_btc;
}

abbrev ask : Text → Result Balance
ask a = ok found

abbrev service : Service
service = record { providers = (chain_btc, ask) ∷ []; has_limiter = true }

abbrev world : World
world = record {
  arrived = 10;
  rounds = (record { now = 11; others = λ s. s; cancelled = false }) ∷ [];
  during = λ s. s;
  finished = 30;
  latency = pos 15;
  time_stamp = [];
  show = λ e. codes "error";
}

abbrev config : Config
config = record {
  initial_concurrency = pos 2;
  max_concurrency = pos 3;
  queue_wait = pos 0;
  adjust_interval = pos 0;
  target_latency = pos 0;
}

abbrev before : System
before = start config 0

abbrev btc_target : Target
btc_target = target_for 1 type_btc chain_btc (codes "bc1q")

abbrev taken : System
taken = (acquire 10 chain_btc world.rounds before).1

abbrev result : BalanceCheck
result = record {
  address_id = 1;
  chain = chain_btc;
  state = codes "checked";
  balance_atomic = some (pos 0);
  asset_symbol = codes "BTC";
  error_code = [];
  error_message = [];
  provider = chain_btc;
  retry_after_ms = none;
}

abbrev after : System
after = finish world chain_btc (ok found) taken

checked : check service world btc_target before ≡ some (result, after)
unfolding check after_acquire of_reply of_balance acquire loop attempt chain has_room new
    clamped_max clamped_initial or_default fresh lookup insert text_beq
checked = refl

check_fits_example : FitsTarget service btc_target result
check_fits_example = check_fits service world btc_target before result after checked

abbrev wallet : Addresses
wallet = record { btc = codes "bc1q"; eth = codes "0x1"; sol = codes "So1"; trx = codes "T1" }

abbrev no_limiter : Service
no_limiter = record { providers = []; has_limiter = false }

abbrev save : BalanceCheck → Option Text
save c = if c.chain == codes "bsc" then some (codes "disk full") else none

abbrev insert_all : List AddressInput → Result (List ℕ)
insert_all inputs = ok (1 ∷ 2 ∷ 3 ∷ 4 ∷ [])

abbrev or_nothing : Option (List BalanceCheck × System) → List BalanceCheck
or_nothing none = []
or_nothing (some (cs, s)) = cs

abbrev run : Run
run = record {
  result = save_failed (codes "disk full");
  handed = or_nothing (check_all no_limiter (λ c. world) (six_targets wallet 1 2 3 4) before);
  system = before;
}

ran : run_once no_limiter (λ c. world) save insert_all (ok wallet) before ≡ some run
unfolding run_once run_addresses inputs_of targets_of run_targets check_all check save_all text_beq
ran = refl

run_once_six_example :
    Each no_limiter (six_targets wallet 1 2 3 4) run.handed
    × ((run.result ≡ done) ↔ All (λ c. save c ≡ none) run.handed)
run_once_six_example =
    run_once_six no_limiter (λ c. world) save insert_all wallet before run 1 2 3 4 refl ran

abbrev idle_round : ℕ → Round
idle_round now = record { now = now; others = λ s. s; cancelled = false }

abbrev patient : World
patient = record world { rounds = idle_round 11 ∷ idle_round 31 ∷ [] }

abbrev brief : System
brief = record { limiter = record before.limiter { queue_wait = pos 20 }; leases = [] }

fair : (c : Text) → IsFair patient c
fair c = record { passes = ((λ s. here), ((λ s. here), tt)); query = λ s. here; keeps = λ s h. h }

has_rounds : Text → HasRounds (pos 20) patient
unfolding pause
has_rounds c = record {
  stretches = 1;
  paced = omega arith;
  covered = omega arith;
  enough = omega arith;
}

run_once_ends_example : run_once service (λ c. patient) save insert_all (ok wallet) brief ≢ none
run_once_ends_example =
    run_once_ends service (λ c. patient) save insert_all (ok wallet) brief fair has_rounds
