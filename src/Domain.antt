-- ===== src/Domain.antt =====
-- The shared vocabulary, internal/domain/domain.go: address types, chains, and the records that the
-- importer, the scanner and the store pass to one another.
use wallet_scan.Prelude.{ℕ}
use wallet_scan.Prelude.Texts.{Text, codes}

abbrev pub type_evm : Text
type_evm = codes "evm"

abbrev pub type_btc : Text
type_btc = codes "btc"

abbrev pub type_sol : Text
type_sol = codes "sol"

abbrev pub type_trx : Text
type_trx = codes "trx"

abbrev pub chain_btc : Text
chain_btc = codes "btc"

abbrev pub chain_ethereum : Text
chain_ethereum = codes "ethereum"

abbrev pub chain_arbitrum : Text
chain_arbitrum = codes "arbitrum"

abbrev pub chain_bsc : Text
chain_bsc = codes "bsc"

abbrev pub chain_solana : Text
chain_solana = codes "solana"

abbrev pub chain_tron : Text
chain_tron = codes "tron"

pub record AddressInput : Type 0 where
  pub address_type : Text
  pub address : Text
  pub normalized : Text
  pub label : Text

pub record Address : Type 0 where
  pub id : ℕ
  pub address_type : Text
  pub address : Text
  pub label : Text

-- The CHECK of the table `scan_runs` allows four states.
pub data RunStatus : Type 0 where
  running paused completed failed : RunStatus

-- Ids and counts are positive in the database; a cursor starts one below the first id.
pub record ScanRun : Type 0 where
  pub id : ℕ
  pub start_id : ℕ
  pub end_id : ℕ
  pub cursor_id : ℕ
  pub status : RunStatus
  pub processed_count : ℕ
  pub empty_count : ℕ
  pub positive_count : ℕ
  pub error_count : ℕ
