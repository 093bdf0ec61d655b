-- ===== src/Notifications/Tests.antt =====
-- The outbox after a scan that found a balance.
use wallet_scan.Prelude.{◌≡◌, refl, none, some}
use wallet_scan.Prelude.Int.{pos}
use wallet_scan.Prelude.Texts.{codes}
use wallet_scan.Store.Session.{System, ok}
use wallet_scan.Store.Kept.{Kept}
use wallet_scan.Scanner.Run.{Scanner, run_once}
use wallet_scan.Scanner.Run.Batch.{IsFair}
use wallet_scan.Scanner.Run.Example.{scanner, fair, system, steady}
use wallet_scan.Notifications.{Client, deliver}
use wallet_scan.Notifications.Amounts.{
  decimal, format_atomic, set_string10, digits, padded, with_point, is_digit, value,
}
use wallet_scan.Notifications.Amounts.RoundTrip.{atomic_of, format_atomic_roundtrip}
use wallet_scan.Notifications.Delivery.{IsSent, deliver_lem, deliver-KeepsTables}
use wallet_scan.Prelude.Texts.{all_bytes, trim_right, keep_end}

abbrev client : Client
client = record {
  url = codes "https://example.org";
  post = λ n message. none;
  show = λ e. codes "error";
}

-- A scanner that delivers through the outbox is one whose runs are safe.
abbrev notifying : Scanner
notifying = record (scanner (pos 7)) { notifier = some (deliver client) }

notifying-IsFair : IsFair notifying
notifying-IsFair = record {
  works = (fair (pos 7)).works;
  room = (fair (pos 7)).room;
  order = (fair (pos 7)).order;
  quiet = deliver-KeepsTables client;
}

abbrev scanned : System
scanned = (run_once (scanner (pos 7)) (system steady)).1

deliver_lem_example :
    Kept scanned.db (deliver client 1 scanned).1.db
    × ((deliver client 1 scanned).0 ≡ ok tt → IsSent 1 (deliver client 1 scanned).1.db.events)
deliver_lem_example = deliver_lem client 1 scanned

format_atomic_roundtrip_example : atomic_of 8 (format_atomic (decimal 150000000) 8) ≡ 150000000
format_atomic_roundtrip_example = format_atomic_roundtrip 150000000 8

one_and_a_half : format_atomic (codes "150000000") 8 ≡ codes "1.5"
unfolding format_atomic set_string10 digits padded with_point is_digit value all_bytes trim_right
    keep_end
one_and_a_half = refl

a_few : format_atomic (codes "70") 8 ≡ codes "0.0000007"
unfolding format_atomic set_string10 digits padded with_point is_digit value all_bytes trim_right
    keep_end
a_few = refl
