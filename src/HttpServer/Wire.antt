-- ===== src/HttpServer/Wire.antt =====
-- What the balance API, internal/httpserver/balance.go, is asked and answers, and the world of one
-- request.
use wallet_scan.Prelude.{ℕ, Bool, Option, none, some, List, if◌then◌else◌}
use wallet_scan.Prelude.Int.{ℤ, pos, negsuc, ltb_ℤ, quot_ℤ, add64}
use wallet_scan.Prelude.Texts.{Text, codes, text_eq}
use wallet_scan.Prelude.Maps.{Map}
use wallet_scan.Providers.{Balance, Error, Result}
use wallet_scan.Adaptive.{Snapshot, millisecond, second}
use wallet_scan.Adaptive.Leases.{System}
use wallet_scan.Adaptive.Acquire.{Round}

pub record BalanceRequest : Type 0 where
  pub address_type : Text
  pub chain : Text
  pub address : Text

-- `has_limiter`: the limiter pointer is not nil.
pub record BalanceService : Type 0 where
  pub providers : Map (Text → Result Balance)
  pub has_limiter : Bool
  pub api_key : Text

-- The body as the decoder reads it: an error, a value with more behind it, or one value.
pub data Body : Type 0 where
  malformed : Body
  several : Body
  single : BalanceRequest → Body

pub record Request : Type 0 where
  pub method : Text
  pub key : Text
  pub body : Body

pub record BalanceResponse : Type 0 where
  pub state : Text
  pub address_type : Text
  pub address : Text
  pub chain : Text
  pub balance_atomic : ℤ
  pub asset_symbol : Text
  pub has_balance : Bool
  pub checked_at : Text

pub record ErrorResponse : Type 0 where
  pub state : Text
  pub error_code : Text
  pub provider : Text
  pub retry_after_ms : ℤ

pub data Content : Type 0 where
  balance : BalanceResponse → Content
  failure : ErrorResponse → Content
  capacity : Snapshot → Content

pub record Response : Type 0 where
  pub status : ℕ
  pub retry_after : Option ℤ
  pub content : Content

-- The world of one request: the clock when it comes, the passes of its `Acquire`, what other requests
-- do while its provider is asked, the clock and the measured latency when the answer is there, and the
-- time stamp. `show` prints an error.
pub record World : Type 0 where
  pub arrived : ℕ
  pub rounds : List Round
  pub during : System → System
  pub finished : ℕ
  pub latency : ℤ
  pub time_stamp : Text
  pub show : Error → Text

abbrev pub rejected_state : Text
rejected_state = codes "rejected"

abbrev pub retry_state : Text
retry_state = codes "retry"

abbrev pub checked_state : Text
checked_state = codes "checked"

-- `writeError`.
abbrev pub write_error : ℕ → Text → Text → Text → Response
write_error status state code provider = record {
  status = status;
  retry_after = none;
  content =
      failure
        (record { state = state; error_code = code; provider = provider; retry_after_ms = pos 0 });
}

-- `writeRetry`: the header is the delay in seconds, rounded up.
unfoldable pub write_retry : ℕ → Text → Text → ℤ → Response
write_retry status code provider delay = record {
  status = status;
  retry_after =
      if ltb_ℤ (pos 0) delay
      then some (quot_ℤ (add64 (add64 delay (pos second)) (negsuc 0)) second)
      else none;
  content = failure (record {
    state = retry_state;
    error_code = code;
    provider = provider;
    retry_after_ms = quot_ℤ delay millisecond;
  });
}
