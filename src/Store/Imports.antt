-- ===== src/Store/Imports.antt =====
-- The import of addresses, `insertAddressesWithIDs` and `InsertAddresses` of internal/db/store.go.
pub mod Growth
pub mod Ids
use wallet_scan.Prelude.{
  ℕ, ◌+◌, Bool, true, false, not, ◌&&◌, ◌||◌, Option, none, some, List, [], ◌∷◌, ◌++◌, ◌==◌,
  if◌then◌else◌, length, nat_eq,
}
use wallet_scan.Prelude.Texts.{Text, text_eq}
use wallet_scan.Domain.{AddressInput}
use wallet_scan.Store.Tables.{AddressRow, Sequences, Database, is_address_type}
use wallet_scan.Store.Session.{
  Moment, Result, ok, err, violation, no_rows, M, pure, ◌>>=◌, statement, transaction,
}

-- UNIQUE (address_type, normalized_address).
unfoldable pub find_address : Text → Text → List AddressRow → Option ℕ
find_address t n [] = none
find_address t n (a ∷ rows) =
    if a.address_type == t && a.normalized == n then some a.id else find_address t n rows

abbrev pub row_for : ℕ → ℕ → AddressInput → AddressRow
row_for id batch a = record {
  id = id;
  address_type = a.address_type;
  address = a.address;
  normalized = a.normalized;
  label = a.label;
  import_batch_id = batch;
}

-- `INSERT ... ON CONFLICT DO NOTHING RETURNING id`: no row comes back for an address that is there. The
-- sequence gives a number out in any case.
unfoldable pub insert_row : ℕ → AddressInput → Moment → Database → Result (Option ℕ) × Database
insert_row batch a m db =
    let id = db.sequences.address_id in
    let db' = record db { sequences = record db.sequences { address_id = id + 1 } } in
    if not (is_address_type a.address_type)
    then (err violation, db')
    else elim (find_address a.address_type a.normalized db.addresses) [
      | some old ↦ (ok none, db')
      | none ↦ (ok (some id), record db' { addresses = db.addresses ++ row_for id batch a ∷ [] })
    ]

unfoldable pub select_id : AddressInput → Moment → Database → Result ℕ × Database
select_id a m db = (
  elim (find_address a.address_type a.normalized db.addresses) [
    | none ↦ err no_rows
    | some id ↦ ok id
  ],
  db,
)

-- One round of the loop: the id of the address, and whether its row is new.
unfoldable pub insert_address : ℕ → AddressInput → M (ℕ × Bool)
insert_address batch a = statement (insert_row batch a) >>= λ r. elim r [
  | some id ↦ pure (id, true)
  | none ↦ statement (select_id a) >>= λ id. pure (id, false)
]

unfoldable pub insert_each : ℕ → List AddressInput → M (List ℕ × ℕ)
insert_each batch [] = pure ([], 0)
insert_each batch (a ∷ inputs) = insert_address batch a >>= λ r.
    insert_each batch inputs >>= λ rs. pure (r.0 ∷ rs.0, (if r.1 then rs.1 + 1 else rs.1))

-- `insertAddressesWithIDs`: the ids in the order of the inputs, and how many rows are new.
unfoldable pub insert_addresses_with_ids : ℕ → List AddressInput → M (List ℕ × ℕ)
insert_addresses_with_ids batch [] = pure ([], 0)
insert_addresses_with_ids batch (a ∷ inputs) = transaction (insert_each batch (a ∷ inputs))

unfoldable pub insert_addresses : ℕ → List AddressInput → M ℕ
insert_addresses batch inputs = insert_addresses_with_ids batch inputs >>= λ r. pure r.1
