-- ===== src/Providers/Tests.antt =====
-- Provider replies at concrete responses.
use wallet_scan.Prelude.{ℕ, ◌≡◌, refl, ◌↔◌, true, none, some, inr}
use wallet_scan.Prelude.Int.{ℤ, pos, sub_ℕ}
use wallet_scan.Prelude.Texts.{Text, codes, has_prefix, text_beq}
use wallet_scan.Domain.{chain_btc, chain_bsc, chain_tron}
use wallet_scan.Providers.{
  Balance, ok, Delivery, response, request, BtcResponse, EvmResponse, check_btc, check_evm,
  evm_balance, set_string16, or_nought, trim_0x, hex_digits, hex_from, hex_digit,
}
use wallet_scan.Providers.Replies.{
  temporary_of, IsTransient, Answered, request_temporary, check_evm-ok,
}
use wallet_scan.Providers.Quantities.{IsResult, evm_balance-IsResult}

abbrev btc_stats : Delivery BtcResponse
btc_stats = response 200 none (inr (record { funded = 150; spent = 40 }))

abbrev btc_found : Balance
btc_found = record {
  atomic = some (pos 110);
  symbol = codes "BTC";
  chain = chain_btc;
  provider = chain_btc;
}

btc_checked : check_btc btc_stats ≡ ok btc_found
unfolding check_btc request
btc_checked = refl

request_temporary_example :
    (temporary_of (request {A = ℕ} chain_tron (response 503 none (inr 7))) ≡ true)
    ↔ IsTransient {A = ℕ} (response 503 none (inr 7))
request_temporary_example = request_temporary chain_tron (response 503 none (inr 7))

abbrev show : ℤ → Text
show code = codes "code"

abbrev evm_reply : Delivery EvmResponse
evm_reply = response 200 none (inr (record { result = codes "0xff"; error_code = none }))

abbrev evm_found : Balance
evm_found = record {
  atomic = some (pos 255);
  symbol = codes "BNB";
  chain = chain_bsc;
  provider = chain_bsc;
}

evm_checked : check_evm show chain_bsc (codes "BNB") evm_reply ≡ ok evm_found
unfolding check_evm request evm_balance set_string16 or_nought trim_0x has_prefix text_beq
    hex_digits hex_from hex_digit
evm_checked = refl

check_evm-ok_example :
    (r : EvmResponse) × Answered evm_reply r
    × (r.error_code ≡ none)
    × ((z : ℤ) × (evm_found.atomic ≡ some z) × IsResult r.result z)
    × (evm_found.chain ≡ chain_bsc)
check_evm-ok_example = check_evm-ok show chain_bsc (codes "BNB") evm_reply evm_found evm_checked

evm_balance-IsResult_example :
    (evm_balance chain_bsc (codes "BNB") (codes "0x-5")
      ≡ ok (record {
        atomic = some (sub_ℕ 0 5);
        symbol = codes "BNB";
        chain = chain_bsc;
        provider = chain_bsc;
      }))
    ↔ IsResult (codes "0x-5") (sub_ℕ 0 5)
evm_balance-IsResult_example =
    evm_balance-IsResult chain_bsc (codes "BNB") (codes "0x-5") (sub_ℕ 0 5)
