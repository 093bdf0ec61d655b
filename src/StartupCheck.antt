-- ===== src/StartupCheck.antt =====
-- The startup wallet check, internal/startupcheck/check.go, and the table that its results go to,
-- internal/db/migrations/001_initial.sql. What the wallet package generates, what the store answers and
-- what the providers answer are parameters. The six queries run at once: each has its own world, whose
-- rounds hold the steps of the others, and their results stand in the order of the targets.
mod Tests
mod Rows
pub mod Results
pub mod Runs
pub mod Ends
unfoldable pub use Rows.*
use wallet_scan.Prelude.{
  ℕ, ◌+◌, Bool, true, false, not, ◌&&◌, ◌||◌, Option, none, some, List, [], ◌∷◌, ◌++◌, ◌==◌, nat_eq,
  if◌then◌else◌, length, map,
}
use wallet_scan.Prelude.Int.{ℤ, pos, ltb_ℤ, leb_ℤ, quot_ℤ}
use wallet_scan.Prelude.Texts.{Text, codes, text_eq}
use wallet_scan.Prelude.Maps.{Map, lookup}
use wallet_scan.Domain.{
  AddressInput, type_evm, type_btc, type_sol, type_trx, chain_btc, chain_ethereum, chain_arbitrum,
  chain_bsc, chain_solana, chain_tron,
}
use wallet_scan.Providers.{Balance, ProviderError, Error, Result, ok, err, error_text}
use wallet_scan.Adaptive.{millisecond}
use wallet_scan.Adaptive.Leases.{System}
use wallet_scan.Adaptive.Acquire.{Answer, granted, rejected, waiting, acquire}
use wallet_scan.HttpServer.{World, as_provider_error, finish}

unfoldable pub of_reply : (Error → Text) → Target → Result Balance → BalanceCheck
of_reply show item (ok b) = of_balance item b
of_reply show item (err e) = of_error item (as_provider_error show e item.chain)

-- From `Acquire` on. `none`: the rounds of the world are over, and the check still waits.
unfoldable pub after_acquire :
    World → Target → Result Balance → Answer × System → Option (BalanceCheck × System)
after_acquire w item reply (waiting, s) = none
after_acquire w item reply (rejected delay, s) = some (
  unanswered item (codes "capacity_exhausted") (codes "provider capacity is temporarily full")
      item.chain (duration_millis delay),
  s,
)
after_acquire w item reply (granted, s) =
    some (of_reply w.show item reply, finish w item.chain reply s)

-- `(*Service).check`.
unfoldable pub check : Service → World → Target → System → Option (BalanceCheck × System)
check svc w item s =
    if not svc.has_limiter
    then some (
      unanswered item (codes "capacity_unavailable") (codes "capacity controller unavailable")
          item.chain none,
      s,
    )
    else elim (lookup item.chain svc.providers) [
      | none ↦ some (
        unanswered item (codes "provider_unconfigured") (codes "provider is not configured")
            item.chain none,
        s,
      )
      | some ask ↦ after_acquire w item (ask item.address) (acquire w.arrived item.chain w.rounds s)
    ]

abbrev pub startup_label : Text
startup_label = codes "startup-generated"

abbrev pub input_for : Text → Text → AddressInput
input_for address_type address = record {
  address_type = address_type;
  address = address;
  normalized = address;
  label = startup_label;
}

unfoldable pub inputs_of : Addresses → List AddressInput
inputs_of a =
    input_for type_btc a.btc
    ∷ input_for type_evm a.eth
    ∷ input_for type_sol a.sol
    ∷ input_for type_trx a.trx
    ∷ []

abbrev pub target_for : ℕ → Text → Text → Text → Target
target_for id address_type chain address = record {
  address_id = id;
  address_type = address_type;
  chain = chain;
  address = address;
}

-- The six targets, once there are as many ids as inputs.
unfoldable pub targets_of : Addresses → List ℕ → Option (List Target)
targets_of a (i0 ∷ i1 ∷ i2 ∷ i3 ∷ []) = some (
    target_for i0 type_btc chain_btc a.btc
    ∷ target_for i1 type_evm chain_ethereum a.eth
    ∷ target_for i1 type_evm chain_arbitrum a.eth
    ∷ target_for i1 type_evm chain_bsc a.eth
    ∷ target_for i2 type_sol chain_solana a.sol
    ∷ target_for i3 type_trx chain_tron a.trx
    ∷ [])
targets_of a _ = none

-- The goroutines: one check for each target, with its own world.
unfoldable pub check_all :
    Service → (Text → World) → List Target → System → Option (List BalanceCheck × System)
check_all svc worlds [] s = some ([], s)
check_all svc worlds (item ∷ items) s = elim (check svc (worlds item.chain) item s) [
  | none ↦ none
  | some (c, s') ↦ elim (check_all svc worlds items s') [
    | none ↦ none
    | some (cs, s'') ↦ some (c ∷ cs, s'')
  ]
]

-- The loop that saves: each check is handed to the store, and the first error is kept.
unfoldable pub save_all : (BalanceCheck → Option Text) → List BalanceCheck → Option Text
save_all save [] = none
save_all save (c ∷ cs) =
    let rest = save_all save cs in elim (save c) [ some e ↦ some e | none ↦ rest ]

pub data RunResult : Type 0 where
  generate_failed : Text → RunResult
  insert_failed : Text → RunResult
  wrong_ids : RunResult
  save_failed : Text → RunResult
  done : RunResult

abbrev pub saved : Option Text → RunResult
saved none = done
saved (some e) = save_failed e

-- What a run leaves: its result, the checks that it handed to the store in order, and the limiter.
pub record Run : Type 0 where
  pub result : RunResult
  pub handed : List BalanceCheck
  pub system : System

unfoldable pub run_targets :
    Service → (Text → World) → (BalanceCheck → Option Text) → List Target → System → Option Run
run_targets svc worlds save items s = elim (check_all svc worlds items s) [
  | none ↦ none
  | some (cs, s') ↦ some (record { result = saved (save_all save cs); handed = cs; system = s' })
]

-- An early return.
abbrev pub stopped : RunResult → System → Option Run
stopped r s = some (record { result = r; handed = []; system = s })

unfoldable pub run_addresses :
    Service
    → (Text → World)
    → (BalanceCheck → Option Text)
    → (List AddressInput → Result (List ℕ))
    → Addresses
    → System
    → Option Run
run_addresses svc worlds save insert a s = elim (insert (inputs_of a)) [
  | err e ↦ stopped (insert_failed ((worlds []).show e)) s
  | ok ids ↦ elim (targets_of a ids) [
    | none ↦ stopped wrong_ids s
    | some items ↦ run_targets svc worlds save items s
  ]
]

-- `(*Service).RunOnce`.
unfoldable pub run_once :
    Service
    → (Text → World)
    → (BalanceCheck → Option Text)
    → (List AddressInput → Result (List ℕ))
    → Result Addresses
    → System
    → Option Run
run_once svc worlds save insert (err e) s = stopped (generate_failed ((worlds []).show e)) s
run_once svc worlds save insert (ok a) s = run_addresses svc worlds save insert a s
