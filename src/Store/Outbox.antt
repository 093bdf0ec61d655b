-- ===== src/Store/Outbox.antt =====
-- The notification outbox of internal/db/store.go: what a delivery reads, and how its result is stored.
use wallet_scan.Prelude.{
  ℕ, ◌+◌, ◌*◌, ◌^◌, Bool, true, false, ◌&&◌, ◌||◌, Option, none, some, List, [], ◌∷◌, map, ◌==◌,
  nat_eq, ltb, leb, if◌then◌else◌, take,
}
use wallet_scan.Prelude.Int.{ℤ}
use wallet_scan.Prelude.Texts.{Text, text_eq}
use wallet_scan.Store.Tables.{
  AddressRow, FindingRow, IncidentRow, EventRow, EventStatus, pending, sent, undelivered, Database,
}
use wallet_scan.Store.Session.{Result, ok, err, no_rows, M, pure, ◌>>=◌, statement}
use wallet_scan.Store.Records.{second}
use wallet_scan.Store.Scans.{select}

-- `QueryRow` with `Scan`: no row is an error.
unfoldable pub one_row : {A : Type 0} → Option A → Result A
one_row none = err no_rows
one_row (some a) = ok a

abbrev pub select_one : {A : Type 0} → (Database → Option A) → M A
select_one f = statement (λ m db. (one_row (f db), db))

unfoldable pub find_event : ℕ → List EventRow → Option EventRow
find_event id [] = none
find_event id (e ∷ es) = if e.id == id then some e else find_event id es

unfoldable pub find_incident : ℕ → List IncidentRow → Option IncidentRow
find_incident id [] = none
find_incident id (n ∷ ns) = if n.id == id then some n else find_incident id ns

unfoldable pub finding_by_id : ℕ → List FindingRow → Option FindingRow
finding_by_id id [] = none
finding_by_id id (f ∷ fs) = if f.id == id then some f else finding_by_id id fs

unfoldable pub address_by_id : ℕ → List AddressRow → Option AddressRow
address_by_id id [] = none
address_by_id id (a ∷ rows) = if a.id == id then some a else address_by_id id rows

abbrev pub type_of : Option EventRow → Option Text
type_of none = none
type_of (some e) = some e.event_type

unfoldable pub notification_type : ℕ → M Text
notification_type event = select_one (λ db. type_of (find_event event db.events))

pub record NodeView : Type 0 where
  pub event_id : ℕ
  pub chain : Text
  pub provider : Text
  pub error_code : Text
  pub consecutive_failures : ℕ

abbrev pub node_view : ℕ → Option IncidentRow → Option NodeView
node_view event none = none
node_view event (some n) = some (record {
  event_id = event;
  chain = n.chain;
  provider = n.provider;
  error_code = n.error_code;
  consecutive_failures = n.consecutive_failures;
})

-- The join of an event with its incident; a NULL joins nothing.
unfoldable pub incident_of : Database → Option EventRow → Option NodeView
incident_of db none = none
incident_of db (some e) = elim e.node_incident_id [
  | none ↦ none
  | some id ↦ node_view e.id (find_incident id db.incidents)
]

unfoldable pub load_node_notification : ℕ → M NodeView
load_node_notification event = select_one (λ db. incident_of db (find_event event db.events))

pub record PositiveView : Type 0 where
  pub chain : Text
  pub balance : ℤ
  pub asset_symbol : Text

pub record AddressView : Type 0 where
  pub event_id : ℕ
  pub event_type : Text
  pub address : AddressRow

pub record NotificationView : Type 0 where
  pub event_id : ℕ
  pub event_type : Text
  pub address : Text
  pub label : Text
  pub findings : List PositiveView

abbrev pub address_view : EventRow → Option AddressRow → Option AddressView
address_view e none = none
address_view e (some a) = some (record { event_id = e.id; event_type = e.event_type; address = a })

abbrev pub finding_view : Database → EventRow → Option FindingRow → Option AddressView
finding_view db e none = none
finding_view db e (some f) = address_view e (address_by_id f.address_id db.addresses)

-- The join of an event with its finding and the finding's address.
unfoldable pub address_of_event : Database → Option EventRow → Option AddressView
address_of_event db none = none
address_of_event db (some e) = elim e.finding_id [
  | none ↦ none
  | some id ↦ finding_view db e (finding_by_id id db.findings)
]

-- ORDER BY chain, for the names of the chains.
unfoldable pub text_leb : Text → Text → Bool
text_leb [] t = true
text_leb (c ∷ s) [] = false
text_leb (c ∷ s) (d ∷ t) = ltb c d || (c == d && text_leb s t)

unfoldable pub by_chain : PositiveView → List PositiveView → List PositiveView
by_chain v [] = v ∷ []
by_chain v (w ∷ ws) =
    let rest = by_chain v ws in if text_leb v.chain w.chain then v ∷ w ∷ ws else w ∷ rest

unfoldable pub views_of : ℕ → List FindingRow → List PositiveView
views_of id [] = []
views_of id (f ∷ fs) =
    let rest = views_of id fs in
    if f.address_id == id
    then by_chain
        (record { chain = f.chain; balance = f.balance_atomic; asset_symbol = f.asset_symbol }) rest
    else rest

unfoldable pub load_notification : ℕ → M NotificationView
load_notification event =
    select_one (λ db. address_of_event db (find_event event db.events)) >>= λ v.
    select (λ db. views_of v.address.id db.findings) >>= λ findings. pure (record {
      event_id = v.event_id;
      event_type = v.event_type;
      address = v.address.address;
      label = v.address.label;
      findings = findings;
    })

-- `LEAST(3600, power(2, LEAST(attempts, 11)))` seconds.
unfoldable pub retry_seconds : ℕ → ℕ
retry_seconds attempts =
    let n = 2 ^ (if ltb attempts 11 then attempts else 11) in if ltb n 3600 then n else 3600

-- The UPDATE of one event.
unfoldable pub marked : Bool → Text → ℕ → EventRow → EventRow
marked was_sent message now e = record e {
  status = if was_sent then sent else undelivered;
  last_error = message;
  sent_at = if was_sent then some now else e.sent_at;
  attempts = e.attempts + 1;
  next_attempt_at = if was_sent then now else now + retry_seconds e.attempts * second;
}

unfoldable pub update_events : ℕ → (EventRow → EventRow) → List EventRow → List EventRow
update_events id f [] = []
update_events id f (e ∷ es) = (if e.id == id then f e else e) ∷ update_events id f es

-- `MarkNotification` with the status "sent" or "failed".
unfoldable pub mark_notification : ℕ → Bool → Text → M (Unit {0})
mark_notification event was_sent message = statement (λ m db.
    (ok tt, record db { events = update_events event (marked was_sent message m.now) db.events }))

abbrev pub is_waiting : EventStatus → Bool
is_waiting pending = true
is_waiting sent = false
is_waiting undelivered = false

abbrev pub is_undelivered : EventStatus → Bool
is_undelivered pending = false
is_undelivered sent = false
is_undelivered undelivered = true

abbrev pub is_due : ℕ → EventRow → Bool
is_due now e = is_waiting e.status || (is_undelivered e.status && leb e.next_attempt_at now)

-- ORDER BY created_at.
unfoldable pub by_creation : EventRow → List EventRow → List EventRow
by_creation e [] = e ∷ []
by_creation e (d ∷ ds) =
    let rest = by_creation e ds in if leb e.created_at d.created_at then e ∷ d ∷ ds else d ∷ rest

unfoldable pub due_events : ℕ → List EventRow → List EventRow
due_events now [] = []
due_events now (e ∷ es) =
    let rest = due_events now es in if is_due now e then by_creation e rest else rest

abbrev pub event_id : EventRow → ℕ
event_id e = e.id

unfoldable pub pending_notification_ids : ℕ → M (List ℕ)
pending_notification_ids limit =
    statement (λ m db. (ok (map event_id (take limit (due_events m.now db.events))), db))
