-- ===== src/StartupCheck/Rows.antt =====
-- The wallet's addresses, the targets of internal/startupcheck/check.go, the rows of the table
-- `wallet_balance_checks`, and the row that each end of a query becomes.
use wallet_scan.Prelude.{ℕ, Bool, ◌||◌, Option, none, some, [], ◌==◌, nat_eq, if◌then◌else◌}
use wallet_scan.Prelude.Int.{ℤ, pos, ltb_ℤ, leb_ℤ, quot_ℤ}
use wallet_scan.Prelude.Texts.{Text, codes, text_eq}
use wallet_scan.Prelude.Maps.{Map}
use wallet_scan.Providers.{Balance, ProviderError, Result, error_text}
use wallet_scan.Adaptive.{millisecond}

-- The addresses of a generated wallet; its mnemonic is cleared at once and goes nowhere.
pub record Addresses : Type 0 where
  pub btc : Text
  pub eth : Text
  pub sol : Text
  pub trx : Text

pub record Target : Type 0 where
  pub address_id : ℕ
  pub address_type : Text
  pub chain : Text
  pub address : Text

-- `db.WalletBalanceCheck` without `CheckedAt`, the time that is read before the query; `BalanceAtomic`
-- is a number, or `none` for the empty text.
pub record BalanceCheck : Type 0 where
  pub address_id : ℕ
  pub chain : Text
  pub state : Text
  pub balance_atomic : Option ℤ
  pub asset_symbol : Text
  pub error_code : Text
  pub error_message : Text
  pub provider : Text
  pub retry_after_ms : Option ℤ

pub record Service : Type 0 where
  pub providers : Map (Text → Result Balance)
  pub has_limiter : Bool

unfoldable pub duration_millis : ℤ → Option ℤ
duration_millis value =
    if leb_ℤ value (pos 0)
    then none
    else some (if ltb_ℤ (quot_ℤ value millisecond) (pos 1) then pos 1 else quot_ℤ value millisecond)

abbrev pub checked_state : Text
checked_state = codes "checked"

abbrev pub retry_state : Text
retry_state = codes "retry"

-- A check that is left in the state `retry`.
abbrev pub unanswered : Target → Text → Text → Text → Option ℤ → BalanceCheck
unanswered item code message provider delay = record {
  address_id = item.address_id;
  chain = item.chain;
  state = retry_state;
  balance_atomic = none;
  asset_symbol = [];
  error_code = code;
  error_message = message;
  provider = provider;
  retry_after_ms = delay;
}

abbrev pub invalid_balance : Target → BalanceCheck
invalid_balance item =
    unanswered item (codes "response_decode_error") (codes "provider returned an invalid balance")
      item.chain none

-- What a balance without an error becomes: a nil or negative number and an empty symbol are refused.
unfoldable pub of_balance : Target → Balance → BalanceCheck
of_balance item b = elim b.atomic [
  | none ↦ invalid_balance item
  | some z ↦ if ltb_ℤ z (pos 0) || b.symbol == [] then invalid_balance item else record {
    address_id = item.address_id;
    chain = item.chain;
    state = checked_state;
    balance_atomic = some z;
    asset_symbol = b.symbol;
    error_code = [];
    error_message = [];
    provider = b.provider;
    retry_after_ms = none;
  }
]

unfoldable pub of_error : Target → ProviderError → BalanceCheck
of_error item e = unanswered item e.code (error_text e) e.provider (duration_millis e.retry_after)
