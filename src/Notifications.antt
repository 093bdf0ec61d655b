-- ===== src/Notifications.antt =====
-- The notification outbox, internal/notifications/outbox.go, and the client of internal/notifications/wecom.go
-- that it sends with. The web hook is a parameter: what comes back when a message is posted.
mod Tests
pub mod Amounts
pub mod Delivery
use wallet_scan.Prelude.{
  ℕ, zero, suc, ◌+◌, ◌*◌, ◌^◌, Bool, true, false, Option, none, some, List, [], ◌∷◌, map, ◌==◌,
  nat_eq, if◌then◌else◌, ltb,
}
use wallet_scan.Prelude.Int.{ℤ, pos, negsuc}
use wallet_scan.Prelude.Texts.{Text, text_eq}
use wallet_scan.Store.Tables.{node_error}
use wallet_scan.Store.Session.{Error, delivery, Result, ok, err, System, M, pure, ◌>>=◌, ◌>>◌}
use wallet_scan.Store.Records.{second}
use wallet_scan.Store.Outbox.{
  NodeView, NotificationView, PositiveView, notification_type, load_node_notification,
  load_notification, mark_notification, pending_notification_ids,
}
use wallet_scan.Notifications.Amounts.{show_int, format_atomic, chain_units}

-- A line on a balance: the chain, the amount in whole units, its symbol, and the amount and the name of the
-- smallest unit.
pub record Line : Type 0 where
  pub chain : Text
  pub display : Text
  pub asset_symbol : Text
  pub balance : Text
  pub atomic_unit : Text

unfoldable pub format_finding : PositiveView → Line
format_finding f =
    let units = chain_units f.chain in
    let balance = show_int f.balance in
    record {
      chain = f.chain;
      display = format_atomic balance units.0;
      asset_symbol = f.asset_symbol;
      balance = balance;
      atomic_unit = units.1;
    }

-- What a message says, without the fixed words between; an empty label is left out.
pub data Message : Type 0 where
  balances : Text → Text → List Line → ℕ → Message
  incident : NodeView → ℕ → Message

-- The client, with the answers of the web hook: an error text, or none.
pub record Client : Type 0 where
  pub url : Text
  pub post : ℕ → Message → Option Text
  pub show : Error → Text

abbrev answer_of : Option Text → Result (Unit {0})
answer_of none = ok tt
answer_of (some problem) = err (delivery problem)

-- With no URL nothing is sent, and that is no error.
unfoldable pub send : Client → (ℕ → Message) → M (Unit {0})
send c message s =
    (if c.url == [] then ok tt else answer_of (c.post s.asked (message (s.moments s.asked).now)), s)

abbrev pub send_positive : Client → NotificationView → M (Unit {0})
send_positive c v = send c (balances v.address v.label (map format_finding v.findings))

abbrev pub send_node : Client → NodeView → M (Unit {0})
send_node c v = send c (incident v)

-- An error of a step is stored with the event and returned; an error of storing it is dropped.
unfoldable pub stored_error : {A : Type 0} → Client → ℕ → Result A × System → Result A × System
stored_error c event (ok a, s) = (ok a, s)
stored_error c event (err e, s) = (err e, (mark_notification event false (c.show e) s).1)

abbrev pub storing : {A : Type 0} → Client → ℕ → M A → M A
storing c event m s = stored_error c event (m s)

unfoldable pub deliver_node : Client → ℕ → M (Unit {0})
deliver_node c event = storing c event (load_node_notification event) >>= λ view.
    storing c event (send_node c view) >> mark_notification event true []

unfoldable pub deliver_positive : Client → ℕ → M (Unit {0})
deliver_positive c event = storing c event (load_notification event) >>= λ view.
    storing c event (send_positive c view) >> mark_notification event true []

-- `Deliver`.
unfoldable pub deliver : Client → ℕ → M (Unit {0})
deliver c event = storing c event (notification_type event) >>= λ event_type.
    if event_type == node_error then deliver_node c event else deliver_positive c event

-- The first error of the deliveries.
abbrev first_error : Option Error → Result (Unit {0}) → Option Error
first_error (some e) r = some e
first_error none (ok a) = none
first_error none (err e) = some e

abbrev error_of : Option Error → Result (Unit {0})
error_of none = ok tt
error_of (some e) = err e

unfoldable pub deliver_all : Client → List ℕ → Option Error → M (Unit {0})
deliver_all c [] first s = (error_of first, s)
deliver_all c (event ∷ events) first s =
    let r = deliver c event s in deliver_all c events (first_error first r.0) r.1

-- `Drain`.
unfoldable pub drain : Client → ℕ → M (Unit {0})
drain c limit = pending_notification_ids limit >>= λ events. deliver_all c events none

-- `RetryDelay`.
unfoldable pub retry_delay : ℤ → ℕ
retry_delay (negsuc n) = 1 * second
retry_delay (pos n) = 2 ^ (if ltb 8 n then 8 else n) * second
