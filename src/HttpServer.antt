-- ===== src/HttpServer.antt =====
-- The balance API, internal/httpserver/balance.go. net/http and encoding/json are not modelled: a
-- handler is given the method, the key header and what the decoder made of the body, and returns the
-- status, the `Retry-After` header and the response value.
mod Tests
mod Wire
pub mod Outcomes
pub mod Responses
pub mod Backed
pub mod Slots
pub mod Leaks
pub mod Capacity
unfoldable pub use Wire.*
use wallet_scan.Prelude.{
  ℕ, ◌+◌, ◌*◌, Bool, true, false, not, ◌&&◌, ◌||◌, Option, none, some, List, [], ◌∷◌, ◌++◌, ◌==◌,
  if◌then◌else◌, length, eqb,
}
use wallet_scan.Prelude.Int.{ℤ, pos, negsuc, ltb_ℤ, leb_ℤ, quot_ℤ, add64}
use wallet_scan.Prelude.Texts.{Text, codes, text_eq, to_lower, trim_space}
use wallet_scan.Prelude.Maps.{Map, lookup}
use wallet_scan.Domain.{
  type_evm, type_btc, type_sol, type_trx, chain_btc, chain_ethereum, chain_arbitrum, chain_bsc,
  chain_solana, chain_tron,
}
use wallet_scan.Providers.{Balance, ProviderError, Error, Result, ok, err, find_provider_error}
use wallet_scan.Adaptive.{Outcome, Snapshot, release, snapshot, millisecond, second}
use wallet_scan.Adaptive.Leases.{System, drop_one}
use wallet_scan.Adaptive.Acquire.{Round, Answer, granted, rejected, waiting, acquire}
use wallet_scan.Importer.{Validated, valid, invalid, AddressError, normalize_and_validate}

unfoldable pub authorized : BalanceService → Request → Bool
authorized s r =
    if s.api_key == [] then true else eqb (length r.key) (length s.api_key) && r.key == s.api_key

unfoldable pub chain_allowed : Text → Text → Bool
chain_allowed address_type chain =
    if address_type == type_evm
    then chain == chain_ethereum || chain == chain_arbitrum || chain == chain_bsc
    else if address_type == type_btc
    then chain == chain_btc
    else if address_type == type_sol
    then chain == chain_solana
    else if address_type == type_trx
    then chain == chain_tron
    else false

-- `asProviderError`: here an error of another kind is worth a retry. `none` is the nil pointer.
unfoldable pub as_provider_error : (Error → Text) → Error → Text → ProviderError
as_provider_error show e fallback = elim (find_provider_error e) [
  | some found ↦ found
  | none ↦ record {
    code = codes "rpc_error";
    provider = fallback;
    status_code = 0;
    retry_after = pos 0;
    temporary = true;
    err = some (show e);
  }
]

-- The three fields of a request, trimmed, the first two in lower case.
unfoldable pub cleaned : BalanceRequest → BalanceRequest
cleaned r = record {
  address_type = to_lower (trim_space r.address_type);
  chain = to_lower (trim_space r.chain);
  address = trim_space r.address;
}

-- The response to a failed query.
unfoldable pub provider_response : ProviderError → Response
provider_response e =
    if not e.temporary
    then write_error 502 retry_state e.code e.provider
    else write_retry (if e.code == codes "rate_limited" then 429 else 503) e.code e.provider
        (if leb_ℤ e.retry_after (pos 0) then pos second else e.retry_after)

-- The response to a query that returned no error.
unfoldable pub balance_response : BalanceRequest → Text → Text → Balance → Response
balance_response input normalized stamp b = elim b.atomic [
  | none ↦ write_error 502 retry_state (codes "response_decode_error") input.chain
  | some z ↦ record {
    status = 200;
    retry_after = none;
    content = balance (record {
      state = checked_state;
      address_type = input.address_type;
      address = normalized;
      chain = input.chain;
      balance_atomic = z;
      asset_symbol = b.symbol;
      has_balance = ltb_ℤ (pos 0) z;
      checked_at = stamp;
    });
  }
]

unfoldable pub query_response :
    (Error → Text) → BalanceRequest → Text → Text → Result Balance → Response
query_response show input normalized stamp (ok b) = balance_response input normalized stamp b
query_response show input normalized stamp (err e) =
    provider_response (as_provider_error show e input.chain)

-- What `release` is told: `providerErr != nil && providerErr.Temporary`.
unfoldable pub is_retryable : (Error → Text) → Text → Result Balance → Bool
is_retryable show chain (ok b) = false
is_retryable show chain (err e) = (as_provider_error show e chain).temporary

-- The slot of a granted request, given back with the outcome of its query.
unfoldable pub finish : World → Text → Result Balance → System → System
finish w chain reply s =
    let s' = w.during s in
    record {
      limiter =
          release s'.limiter
            (record {
              chain = chain;
              retryable = is_retryable w.show chain reply;
              latency = w.latency;
            })
            w.finished;
      leases = drop_one chain s'.leases;
    }

-- From `Acquire` on. `none`: the rounds of the world are over, and the request still waits.
unfoldable pub answer :
    World → BalanceRequest → Text → Result Balance → Answer × System → Option (Response × System)
answer w input normalized reply (waiting, s) = none
answer w input normalized reply (rejected delay, s) =
    some (write_retry 429 (codes "capacity_exhausted") [] delay, s)
answer w input normalized reply (granted, s) =
    some (query_response w.show input normalized w.time_stamp reply, finish w input.chain reply s)

-- From the lookup of the provider on.
unfoldable pub serve :
    BalanceService → World → BalanceRequest → Text → System → Option (Response × System)
serve svc w input normalized s = elim (lookup input.chain svc.providers) [
  | none ↦ some (write_error 503 retry_state (codes "provider_unconfigured") input.chain, s)
  | some check ↦
      if not svc.has_limiter
      then some (write_error 503 retry_state (codes "capacity_unavailable") [], s)
      else answer w input normalized (check normalized) (acquire w.arrived input.chain w.rounds s)
]

-- From the validation on, for a cleaned request.
unfoldable pub validate :
    BalanceService → World → BalanceRequest → System → Option (Response × System)
validate svc w input s = elim (normalize_and_validate input.address_type input.address) [
  | invalid e ↦ some (write_error 400 rejected_state (codes "invalid_address") [], s)
  | valid normalized ↦
      if not (chain_allowed input.address_type input.chain)
      then some (write_error 400 rejected_state (codes "invalid_chain") [], s)
      else serve svc w input normalized s
]

unfoldable pub handle_body : BalanceService → World → Body → System → Option (Response × System)
handle_body svc w malformed s = some (write_error 400 rejected_state (codes "invalid_json") [], s)
handle_body svc w several s = some (write_error 400 rejected_state (codes "invalid_json") [], s)
handle_body svc w (single input) s = validate svc w (cleaned input) s

-- `HandleBalance`.
unfoldable pub handle_balance :
    BalanceService → World → Request → System → Option (Response × System)
handle_balance svc w r s =
    if not (r.method == codes "POST")
    then some (write_error 405 rejected_state (codes "method_not_allowed") [], s)
    else if not (authorized svc r)
    then some (write_error 401 rejected_state (codes "unauthorized") [], s)
    else handle_body svc w r.body s

-- `HandleCapacity`.
unfoldable pub handle_capacity : BalanceService → Request → System → Response
handle_capacity svc r s =
    if not (r.method == codes "GET")
    then write_error 405 rejected_state (codes "method_not_allowed") []
    else if not (authorized svc r)
    then write_error 401 rejected_state (codes "unauthorized") []
    else if not svc.has_limiter
    then write_error 503 retry_state (codes "capacity_unavailable") []
    else record { status = 200; retry_after = none; content = capacity (snapshot s.limiter) }
