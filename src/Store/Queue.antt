-- ===== src/Store/Queue.antt =====
-- The retry queue and the status, `NextRetries` and `ReadStatus` of internal/db/store.go.
use wallet_scan.Prelude.{
  ℕ, suc, Bool, true, false, ◌&&◌, Option, none, some, List, [], ◌∷◌, take, length, leb,
  if◌then◌else◌,
}
use wallet_scan.Prelude.Texts.{Text}
use wallet_scan.Domain.{ScanRun}
use wallet_scan.Store.Tables.{AddressRow, RetryRow}
use wallet_scan.Store.Session.{ok, M, pure, ◌>>=◌, statement}
use wallet_scan.Store.Scans.{select, active_scan}
use wallet_scan.Store.Outbox.{address_by_id}

pub record RetryItem : Type 0 where
  pub id : ℕ
  pub address_id : ℕ
  pub address_type : Text
  pub address : Text
  pub label : Text
  pub chain : Text

abbrev is_open : RetryRow → Bool
is_open q = elim q.resolved_at [ none ↦ true | some t ↦ false ]

abbrev pub item_of : RetryRow → Option AddressRow → List RetryItem → List RetryItem
item_of q none items = items
item_of q (some a) items =
    (record {
      id = q.id;
      address_id = q.address_id;
      address_type = a.address_type;
      address = a.address;
      label = a.label;
      chain = q.chain;
    })
    ∷ items

-- The join with the addresses, of the rows that are open and due; the rows stand in the order of their ids.
unfoldable pub due_items : ℕ → List AddressRow → List RetryRow → List RetryItem
due_items now rows [] = []
due_items now rows (q ∷ qs) =
    let rest = due_items now rows qs in
    if is_open q && leb q.next_retry_at now
    then item_of q (address_by_id q.address_id rows) rest
    else rest

unfoldable pub next_retries : ℕ → M (List RetryItem)
next_retries limit =
    statement (λ m db. (ok (take limit (due_items m.now db.addresses db.retries)), db))

pub record Status : Type 0 where
  pub address_count : ℕ
  pub positive_count : ℕ
  pub retry_count : ℕ
  pub active_run : Option ScanRun

unfoldable pub open_count : List RetryRow → ℕ
open_count [] = 0
open_count (q ∷ qs) = let rest = open_count qs in if is_open q then suc rest else rest

unfoldable pub read_status : M Status
read_status = select (λ db. length db.addresses) >>= λ addresses.
    select (λ db. length db.findings) >>= λ findings.
    select (λ db. open_count db.retries) >>= λ retries. active_scan >>= λ active. pure (record {
      address_count = addresses;
      positive_count = findings;
      retry_count = retries;
      active_run = active;
    })
