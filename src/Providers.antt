-- ===== src/Providers.antt =====
-- Balance providers, internal/providers: what a query returns, how a failure is classified, and how
-- each chain's response becomes a balance. The HTTP transport and the JSON decoder are not modelled:
-- a provider is given what they deliver.
mod Tests
pub mod Decode
pub mod Quantities
pub mod Replies
use wallet_scan.Prelude.{
  ℕ, zero, suc, ◌+◌, ◌-◌, ◌*◌, ◌⊎◌, inl, inr, Bool, true, false, not, ◌&&◌, ◌||◌, Option, none,
  some, List, [], ◌∷◌, ◌++◌, drop, ltb, leb, eqb, ◌==◌, nat_eq, if◌then◌else◌,
}
use wallet_scan.Prelude.Int.{ℤ, pos, negsuc, sub_ℕ, ltb_ℤ, eqb_ℤ, leb_ℤ}
use wallet_scan.Prelude.Texts.{Text, codes, has_prefix, text_eq}
use wallet_scan.Domain.{chain_btc, chain_solana, chain_tron}

-- `Atomic` is a pointer, and may be nil.
pub record Balance : Type 0 where
  pub atomic : Option ℤ
  pub symbol : Text
  pub chain : Text
  pub provider : Text

-- Of the wrapped error only the message is kept.
pub record ProviderError : Type 0 where
  pub code : Text
  pub provider : Text
  pub status_code : ℕ
  pub retry_after : ℤ
  pub temporary : Bool
  pub err : Option Text

-- A Go `error`: a provider error, one that wraps another, or any other with its message.
pub data Error : Type 0 where
  provider_error : ProviderError → Error
  wrapped : Text → Error → Error
  plain : Text → Error

pub data Result (A : Type 0) : Type 0 where
  ok : A → Result A
  err : Error → Result A

infixl 5 ◌>>=◌
abbrev pub ◌>>=◌ : {A B : Type 0} → Result A → (A → Result B) → Result B
ok a >>= f = f a
err e >>= f = err e

-- `(*ProviderError).Error`.
unfoldable pub error_text : ProviderError → Text
error_text e = elim e.err [
  | none ↦ e.provider ++ codes ": " ++ e.code
  | some message ↦ e.provider ++ codes ": " ++ e.code ++ codes ": " ++ message
]

-- `errors.As(err, &providerErr)`.
unfoldable pub find_provider_error : Error → Option ProviderError
find_provider_error (provider_error e) = some e
find_provider_error (wrapped _ e) = find_provider_error e
find_provider_error (plain _) = none

abbrev pub fail : Text → Text → Bool → Text → Error
fail code name temporary message = provider_error (record {
  code = code;
  provider = name;
  status_code = 0;
  retry_after = pos 0;
  temporary = temporary;
  err = some message;
})

abbrev pub fail_status : Text → Text → ℕ → ℤ → Bool → Error
fail_status code name status delay temporary = provider_error (record {
  code = code;
  provider = name;
  status_code = status;
  retry_after = delay;
  temporary = temporary;
  err = none;
})

-- What `http.Client.Do` delivers: an error (with whether a deadline ran out), or a status, the parsed
-- `Retry-After` header if it parses, and the decoded body or the decoder's error.
pub data Delivery (A : Type 0) : Type 0 where
  encode_error : Text → Delivery A
  request_error : Text → Delivery A
  no_response : Bool → Text → Delivery A
  response : ℕ → Option ℤ → (Text ⊎ A) → Delivery A

abbrev pub or_zero : Option ℤ → ℤ
or_zero none = pos 0
or_zero (some d) = d

abbrev pub decoded : {A : Type 0} → Text → Text ⊎ A → Result A
decoded name (inl message) = err (fail (codes "response_decode_error") name false message)
decoded name (inr body) = ok body

-- `(*HTTPClient).request`.
unfoldable pub request : {A : Type 0} → Text → Delivery A → Result A
request name (encode_error m) = err (fail (codes "request_encode_error") name false m)
request name (request_error m) = err (fail (codes "request_error") name false m)
request name (no_response deadline m) =
    err (fail (if deadline then codes "timeout" else codes "connection_error") name true m)
request name (response status delay body) =
    if status == 429
    then err (fail_status (codes "rate_limited") name status (or_zero delay) true)
    else if leb 500 status
    then err (fail_status (codes "provider_unhealthy") name status (pos 0) true)
    else if ltb status 200 || leb 300 status
    then err (fail_status (codes "rpc_error") name status (pos 0) false)
    else decoded name body

pub record BtcResponse : Type 0 where
  pub funded : ℕ
  pub spent : ℕ

-- The value of a hexadecimal digit, of either case.
unfoldable pub hex_digit : ℕ → Option ℕ
hex_digit c =
    if leb b'0' c && leb c b'9'
    then some (c - b'0')
    else if leb b'a' c && leb c b'f'
    then some (c - b'a' + 10)
    else if leb b'A' c && leb c b'F'
    then some (c - b'A' + 10)
    else none

unfoldable pub hex_from : ℕ → Text → Option ℕ
hex_from n [] = some n
hex_from n (c ∷ s) = elim (hex_digit c) [ none ↦ none | some d ↦ hex_from (n * 16 + d) s ]

-- At least one digit, and nothing else.
unfoldable pub hex_digits : Text → Option ℕ
hex_digits [] = none
hex_digits (c ∷ s) = hex_from 0 (c ∷ s)

abbrev pub negated : Option ℕ → Option ℤ
negated none = none
negated (some n) = some (sub_ℕ 0 n)

abbrev pub positive : Option ℕ → Option ℤ
positive none = none
positive (some n) = some (pos n)

-- `(*big.Int).SetString(s, 16)`: one sign, then digits.
unfoldable pub set_string16 : Text → Option ℤ
set_string16 [] = none
set_string16 (c ∷ s) =
    if c == b'-'
    then negated (hex_digits s)
    else if c == b'+'
    then positive (hex_digits s)
    else positive (hex_digits (c ∷ s))

-- `strings.TrimPrefix(s, "0x")`.
unfoldable pub trim_0x : Text → Text
trim_0x s = if has_prefix s (codes "0x") then drop 2 s else s

pub record EvmResponse : Type 0 where
  pub result : Text
  pub error_code : Option ℤ

unfoldable pub or_nought : Text → Text
or_nought value = if value == [] then codes "0" else value

-- The result part of `(*EVMProvider).Check`.
unfoldable pub evm_balance : Text → Text → Text → Result Balance
evm_balance name symbol result = elim (set_string16 (or_nought (trim_0x result))) [
  | none ↦ err (fail (codes "response_decode_error") name false (codes "invalid hex quantity"))
  | some z ↦ ok (record { atomic = some z; symbol = symbol; chain = name; provider = name })
]

-- -32005 (limit exceeded) and -32016.
unfoldable pub is_temporary_code : ℤ → Bool
is_temporary_code code = eqb_ℤ code (negsuc 32004) || eqb_ℤ code (negsuc 32015)

-- An error object in a response. The message holds the code, which is left to the caller.
abbrev pub rpc_failure : Text → Bool → Text → Error
rpc_failure name temporary message = fail (codes "rpc_error") name temporary message

-- `(*EVMProvider).Check`. `show` prints the code, as `fmt.Errorf("code %d")` does.
unfoldable pub check_evm : (ℤ → Text) → Text → Text → Delivery EvmResponse → Result Balance
check_evm show name symbol d = do
  r ← request name d
  elim r.error_code [
    | some code ↦ err (rpc_failure name (is_temporary_code code) (show code))
    | none ↦ evm_balance name symbol r.result
  ]

pub record SolanaResponse : Type 0 where
  pub value : ℕ
  pub error_code : Option ℤ

-- `(*SolanaProvider).Check`.
unfoldable pub check_solana : (ℤ → Text) → Delivery SolanaResponse → Result Balance
check_solana show d = do
  r ← request chain_solana d
  elim r.error_code [
    | some code ↦ err (rpc_failure chain_solana true (show code))
    | none ↦ ok (record {
      atomic = some (pos r.value);
      symbol = codes "SOL";
      chain = chain_solana;
      provider = chain_solana;
    })
  ]

-- `(*TRONProvider).Check`; the response holds the one number `balance`.
unfoldable pub check_tron : Delivery ℕ → Result Balance
check_tron d = do
  balance ← request chain_tron d
  ok (record {
    atomic = some (pos balance);
    symbol = codes "TRX";
    chain = chain_tron;
    provider = chain_tron;
  })

-- `(*BTCProvider).Check`.
unfoldable pub check_btc : Delivery BtcResponse → Result Balance
check_btc d = do
  r ← request chain_btc d
  let atomic = sub_ℕ r.funded r.spent
  ok (record {
    atomic = some (if ltb_ℤ atomic (pos 0) then pos 0 else atomic);
    symbol = codes "BTC";
    chain = chain_btc;
    provider = chain_btc;
  })
