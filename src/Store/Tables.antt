-- ===== src/Store/Tables.antt =====
-- The tables of internal/db/migrations/001_initial.sql. A table is the list of its rows, in the order
-- of their ids where the id comes from the table's sequence. Time is a number of nanoseconds. A row holds
-- what the program reads; the time of a row's creation is kept where a query orders by it.
use wallet_scan.Prelude.{
  ℕ, ◌^◌, Bool, false, ◌&&◌, ◌||◌, Option, none, some, List, [], ◌∷◌, ◌==◌, if◌then◌else◌, nat_eq,
}
use wallet_scan.Prelude.Int.{ℤ, pos, ltb_ℤ}
use wallet_scan.Prelude.Texts.{Text, codes, text_eq}
use wallet_scan.Domain.{
  ScanRun, type_evm, type_btc, type_sol, type_trx, chain_btc, chain_ethereum, chain_arbitrum,
  chain_bsc, chain_solana, chain_tron,
}

pub record AddressRow : Type 0 where
  pub id : ℕ
  pub address_type : Text
  pub address : Text
  pub normalized : Text
  pub label : Text
  pub import_batch_id : ℕ

pub record RunRow : Type 0 where
  pub run : ScanRun
  pub open run use *
  pub started_at : ℕ
  pub completed_at : Option ℕ

pub record FindingRow : Type 0 where
  pub id : ℕ
  pub address_id : ℕ
  pub chain : Text
  pub balance_atomic : ℤ
  pub asset_symbol : Text
  pub first_seen_at : ℕ
  pub last_seen_at : ℕ

pub record RetryRow : Type 0 where
  pub id : ℕ
  pub address_id : ℕ
  pub chain : Text
  pub error_code : Text
  pub provider : Text
  pub attempts : ℕ
  pub next_retry_at : ℕ
  pub last_error : Text
  pub resolved_at : Option ℕ

pub record IncidentRow : Type 0 where
  pub id : ℕ
  pub chain : Text
  pub provider : Text
  pub error_code : Text
  pub consecutive_failures : ℕ

pub data EventStatus : Type 0 where
  pending sent undelivered : EventStatus

pub record EventRow : Type 0 where
  pub id : ℕ
  pub finding_id : Option ℕ
  pub node_incident_id : Option ℕ
  pub event_type : Text
  pub status : EventStatus
  pub attempts : ℕ
  pub last_error : Text
  pub sent_at : Option ℕ
  pub next_attempt_at : ℕ
  pub created_at : ℕ

-- The next number of each BIGSERIAL column. A transaction that rolls back does not give numbers back.
pub record Sequences : Type 0 where
  pub address_id : ℕ
  pub finding_id : ℕ
  pub retry_id : ℕ
  pub incident_id : ℕ
  pub event_id : ℕ

pub record Database : Type 0 where
  pub addresses : List AddressRow
  pub runs : List RunRow
  pub findings : List FindingRow
  pub retries : List RetryRow
  pub incidents : List IncidentRow
  pub events : List EventRow
  pub sequences : Sequences

abbrev pub first_positive : Text
first_positive = codes "first_positive"

abbrev pub balance_changed : Text
balance_changed = codes "balance_changed"

abbrev pub node_error : Text
node_error = codes "node_error"

-- CHECK (address_type IN (...)), CHECK (chain IN (...)).
unfoldable pub is_address_type : Text → Bool
is_address_type t = t == type_evm || t == type_btc || t == type_sol || t == type_trx

unfoldable pub is_chain : Text → Bool
is_chain c =
    c == chain_btc
    || c == chain_ethereum
    || c == chain_arbitrum
    || c == chain_bsc
    || c == chain_solana
    || c == chain_tron

-- NUMERIC(78, 0) with CHECK (balance_atomic > 0).
unfoldable pub is_positive_numeric : ℤ → Bool
is_positive_numeric z = ltb_ℤ (pos 0) z && ltb_ℤ z (pos (10 ^ 78))

unfoldable pub has_address : ℕ → List AddressRow → Bool
has_address id [] = false
has_address id (a ∷ rows) = a.id == id || has_address id rows

-- UNIQUE (address_id, chain), in two tables.
unfoldable pub find_finding : ℕ → Text → List FindingRow → Option FindingRow
find_finding id chain [] = none
find_finding id chain (f ∷ fs) =
    if f.address_id == id && f.chain == chain then some f else find_finding id chain fs

unfoldable pub has_retry : ℕ → Text → List RetryRow → Bool
has_retry id chain [] = false
has_retry id chain (q ∷ qs) = (q.address_id == id && q.chain == chain) || has_retry id chain qs

unfoldable pub has_finding : ℕ → Text → List FindingRow → Bool
has_finding id chain [] = false
has_finding id chain (f ∷ fs) = (f.address_id == id && f.chain == chain) || has_finding id chain fs
