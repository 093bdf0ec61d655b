-- ===== src/Scanner/Check.antt =====
-- `checkWithRetry` and `checkAddress`, internal/scanner/scanner.go. Their world is a parameter: what
-- the provider answers to each attempt, whether a semaphore is got and a sleep ends before the
-- context does, and what the other workers do to the shared health tracker in between.
mod Attempts
pub mod Retry
pub mod Addresses
unfoldable pub use Attempts.*
use wallet_scan.Prelude.{
  ℕ, zero, suc, ◌+◌, ◌^◌, Bool, true, false, not, ◌&&◌, ◌||◌, Option, none, some, List, [], ◌∷◌,
  ◌++◌, ◌==◌, nat_eq, if◌then◌else◌,
}
use wallet_scan.Prelude.Int.{ℤ, pos, leb_ℤ, ltb_ℤ, mul64}
use wallet_scan.Prelude.Texts.{Text, codes, text_eq}
use wallet_scan.Prelude.Maps.{Map, lookup}
use wallet_scan.Domain.{
  Address, type_evm, type_btc, type_sol, type_trx, chain_btc, chain_ethereum, chain_arbitrum,
  chain_bsc, chain_solana, chain_tron,
}
use wallet_scan.Providers.{
  Error, plain, wrapped, provider_error, ProviderError, error_text, find_provider_error,
}
use wallet_scan.Scanner.Health.{HealthTracker, failure, success, is_unhealthy, take_alert}

unfoldable pub chains_for : Text → List Text
chains_for address_type =
    if address_type == type_evm
    then chain_ethereum ∷ chain_arbitrum ∷ chain_bsc ∷ []
    else if address_type == type_btc
    then chain_btc ∷ []
    else if address_type == type_sol
    then chain_solana ∷ []
    else if address_type == type_trx
    then chain_tron ∷ []
    else []

pub record PositiveFinding : Type 0 where
  pub address_id : ℕ
  pub chain : Text
  pub balance : ℤ
  pub asset_symbol : Text

pub record ScanFailure : Type 0 where
  pub chain : Text
  pub code : Text
  pub provider : Text
  pub message : Text

pub record NodeAlert : Type 0 where
  pub chain : Text
  pub provider : Text
  pub code : Text
  pub failures : ℕ

pub record AddressResult : Type 0 where
  pub address : Address
  pub findings : List PositiveFinding
  pub errors : List ScanFailure
  pub node_alerts : List NodeAlert
  pub pause : Bool

-- The providers that are configured: the world of a query of the chain, and whether the chain has a
-- semaphore.
abbrev pub Worlds : Type 0
Worlds = Map (World × Bool)

abbrev pub with_failure : AddressResult → ScanFailure → AddressResult
with_failure r f = record r { errors = r.errors ++ f ∷ [] }

-- What follows a failed query: the failure is kept, and an unhealthy chain pauses the scan and raises
-- its alert.
unfoldable pub on_failure :
    (Error → Text)
    → Text
    → World
    → Error
    → HealthTracker
    → AddressResult
    → AddressResult × HealthTracker
on_failure show chain w e h r =
    let found = as_provider_error show e chain in
    let r' = with_failure r (record {
      chain = chain;
      code = found.code;
      provider = found.provider;
      message = error_text found;
    }) in
    let (down, h1) = is_unhealthy (w.before_test h) chain in
    let (alert, failures, h2) = take_alert (w.before_alert h1) chain in
    if down
    then (
      record r' {
        pause = true;
        node_alerts =
            if alert
            then r'.node_alerts
              ++ (record {
                chain = chain;
                provider = found.provider;
                code = found.code;
                failures = failures;
              })
                ∷ []
            else r'.node_alerts;
      },
      h2,
    )
    else (r', h1)

unfoldable pub on_query :
    (Error → Text) → Address → Text → World → Query → AddressResult → AddressResult × HealthTracker
on_query show a chain w q r = elim q.reply [
  | refused e ↦ on_failure show chain w e q.health r
  | answered c ↦ (
    if ltb_ℤ (pos 0) c.value
        then record r {
          findings =
              r.findings
              ++ (record {
                address_id = a.id;
                chain = c.chain;
                balance = c.value;
                asset_symbol = c.symbol;
              })
                ∷ [];
        }
        else r,
    q.health,
  )
]

-- One round of the loop of `checkAddress`.
unfoldable pub check_chain :
    (Error → Text)
    → Config
    → Worlds
    → Address
    → Text
    → AddressResult × HealthTracker
    → AddressResult × HealthTracker
check_chain show cfg ws a chain (r, h) = elim (lookup chain ws) [
  | none ↦ (
    with_failure r (record {
      chain = chain;
      code = codes "provider_unconfigured";
      provider = [];
      message = codes "provider is not configured";
    }),
    h,
  )
  | some (w, limited) ↦ on_query show a chain w (check_with_retry show cfg limited chain w h) r
]

unfoldable pub check_chains :
    (Error → Text)
    → Config
    → Worlds
    → Address
    → List Text
    → AddressResult × HealthTracker
    → AddressResult × HealthTracker
check_chains show cfg ws a [] rh = rh
check_chains show cfg ws a (c ∷ cs) rh =
    check_chains show cfg ws a cs (check_chain show cfg ws a c rh)

unfoldable pub check_address :
    (Error → Text) → Config → Worlds → Address → HealthTracker → AddressResult × HealthTracker
check_address show cfg ws a h =
    check_chains show cfg ws a (chains_for a.address_type)
      (record { address = a; findings = []; errors = []; node_alerts = []; pause = false }, h)
