-- ===== src/Notifications/Delivery.antt =====
-- What a delivery does to the store.
use wallet_scan.Prelude.{
  ℕ, ◌≡◌, refl, subst, Bool, true, false, Option, none, some, List, [], ◌∷◌, ◌==◌, nat_eq, All,
  Bool-cases, inl, inr,
}
use wallet_scan.Prelude.Texts.{Text, text_eq}
use wallet_scan.Store.Tables.{EventRow, sent, Database, node_error}
use wallet_scan.Store.Session.{delivery, Result, ok, err, System, ◌>>◌}
use wallet_scan.Store.Kept.{Kept, Kept-IsPreorder, SameTables-Kept, select-Runs}
use wallet_scan.Store.Rules.{Runs, Ends, Post, statement-Runs, bind-Runs}
use wallet_scan.Store.Scans.{select}
use wallet_scan.Store.Outbox.{
  one_row, select_one, marked, update_events, mark_notification, notification_type, AddressView,
  NodeView, NotificationView, address_of_event, views_of, find_event, load_node_notification,
  load_notification, PositiveView,
}
use wallet_scan.Scanner.Run.Batch.{KeepsTables}
use wallet_scan.Notifications.{
  Client, Message, incident, send, stored_error, storing, deliver_node, deliver_positive, deliver,
}

abbrev Nothing : {A : Type 0} → A → Database → Type 0
Nothing a d = Unit

-- The rows of an event say that it was sent.
abbrev pub IsSent : ℕ → List EventRow → Type 0
IsSent event es = All (λ (e : EventRow). (e.id == event) ≡ true → e.status ≡ sent) es

update_events-IsSent :
    (event : ℕ) (message : Text) (now : ℕ) (es : List EventRow)
    → IsSent event (update_events event (marked true message now) es)
unfolding update_events marked
update_events-IsSent event message now [] = tt
update_events-IsSent event message now (e ∷ es) = (
  elim (Bool-cases (e.id == event)) [
    | inl this ↦ rw this (λ _. refl)
    | inr other ↦ rw other (λ h. absurd (cc))
  ],
  update_events-IsSent event message now es,
)

select_one-Runs :
    {A : Type 0} (f : Database → Option A) (s : System) → Runs Kept {A = A} Nothing (select_one f) s
select_one-Runs {A = A} f s = statement-Runs Kept-IsPreorder Nothing _ s (λ m. here (f s.db))
  where
    here : (o : Option A) → Ends Kept {A = A} Nothing s.db (one_row o) s.db
    here none = unfold one_row in (Kept-IsPreorder.same s.db, tt)
    here (some a) = unfold one_row in (Kept-IsPreorder.same s.db, tt)

mark_notification-Kept :
    (event : ℕ) (was_sent : Bool) (message : Text) (s : System)
    → Runs Kept {A = Unit {0}} Nothing (mark_notification event was_sent message) s
unfolding mark_notification
mark_notification-Kept event was_sent message s =
    statement-Runs Kept-IsPreorder Nothing _ s
      (λ m. (SameTables-Kept s.db _ (refl, refl, refl, refl, refl), tt))

mark_notification-IsSent :
    (event : ℕ) (s : System)
    → Runs Kept {A = Unit {0}} (λ _ d. IsSent event d.events) (mark_notification event true []) s
unfolding mark_notification
mark_notification-IsSent event s =
    statement-Runs Kept-IsPreorder (λ _ d. IsSent event d.events) _ s
      (λ m. (
        SameTables-Kept s.db _ (refl, refl, refl, refl, refl),
        update_events-IsSent event [] m.now s.db.events,
      ))

module _ (c : Client) (event : ℕ) where
  stored_error-Ends :
      {A : Type 0} (Q : A → Database → Type 0) (d : Database) (r : Result A × System)
      → Ends Kept Q d r.0 r.1.db
      → Ends Kept Q d (stored_error c event r).0 (stored_error c event r).1.db
  unfolding stored_error
  stored_error-Ends Q d (ok a, s) h = h
  stored_error-Ends Q d (err e, s) (k, real) =
      (Kept-IsPreorder.chain _ _ _ k (mark_notification-Kept event false (c.show e) s).0, real)

  send-Runs :
      (message : ℕ → Message) (s : System) → Runs Kept {A = Unit {0}} Nothing (send c message) s
  unfolding send
  send-Runs message s = elim (Bool-cases (c.url == [])) [
    | inl off ↦ rw off (Kept-IsPreorder.same s.db, tt)
    | inr on ↦ rw on (answered (c.post s.asked (message (s.moments s.asked).now)))
  ]
    where
      answered :
          (o : Option Text)
          → let r : Result (Unit {0}) = elim o [ none ↦ ok tt | some t ↦ err (delivery t) ] in
            Ends Kept {A = Unit {0}} Nothing s.db r s.db
      answered none = (Kept-IsPreorder.same s.db, tt)
      answered (some t) = (Kept-IsPreorder.same s.db, tt)

  -- The message is sent, and then the event is marked.
  send_and_mark-Runs :
      (message : ℕ → Message) (s : System)
      → Runs Kept {A = Unit {0}}
          (λ _ d. IsSent event d.events)
          (storing c event (send c message) >> mark_notification event true [])
          s
  send_and_mark-Runs message s =
      bind-Runs Kept-IsPreorder {A = Unit {0}} {B = Unit {0}} Nothing (λ _ d. IsSent event d.events)
        (storing c event (send c message)) (λ _. mark_notification event true []) s
        (stored_error-Ends Nothing s.db (send c message s) (send-Runs message s))
        (λ _ t k q. mark_notification-IsSent event t)

  load_notification-Runs :
      (s : System) → Runs Kept {A = NotificationView} Nothing (load_notification event) s
  unfolding load_notification
  load_notification-Runs s =
      bind-Runs Kept-IsPreorder {A = AddressView} {B = NotificationView} Nothing Nothing
        (select_one (λ db. address_of_event db (find_event event db.events))) _ s
        (select_one-Runs _ s)
        (λ v t k q.
          bind-Runs Kept-IsPreorder {A = List PositiveView} {B = NotificationView} Nothing Nothing
            (select (λ db. views_of v.address.id db.findings)) _ t (select-Runs Nothing _ t tt)
            (λ vs u l r. (Kept-IsPreorder.same u.db, tt)))

  deliver_node-Runs :
      (s : System)
      → Runs Kept {A = Unit {0}} (λ _ d. IsSent event d.events) (deliver_node c event) s
  unfolding deliver_node load_node_notification
  deliver_node-Runs s =
      bind-Runs Kept-IsPreorder {A = NodeView} {B = Unit {0}} Nothing (λ _ d. IsSent event d.events)
        (storing c event (load_node_notification event)) _ s
        (stored_error-Ends Nothing s.db (load_node_notification event s) (select_one-Runs _ s))
        (λ v t k q. send_and_mark-Runs (incident v) t)

  deliver_positive-Runs :
      (s : System)
      → Runs Kept {A = Unit {0}} (λ _ d. IsSent event d.events) (deliver_positive c event) s
  unfolding deliver_positive
  deliver_positive-Runs s =
      bind-Runs Kept-IsPreorder {A = NotificationView} {B = Unit {0}} Nothing
        (λ _ d. IsSent event d.events) (storing c event (load_notification event)) _ s
        (stored_error-Ends Nothing s.db (load_notification event s) (load_notification-Runs s))
        (λ v t k q. send_and_mark-Runs _ t)

  deliver-Runs :
      (s : System) → Runs Kept {A = Unit {0}} (λ _ d. IsSent event d.events) (deliver c event) s
  unfolding deliver notification_type
  deliver-Runs s =
      bind-Runs Kept-IsPreorder {A = Text} {B = Unit {0}} Nothing (λ _ d. IsSent event d.events)
        (storing c event (notification_type event)) _ s
        (stored_error-Ends Nothing s.db (notification_type event s) (select_one-Runs _ s))
        (λ event_type t k q. elim (Bool-cases (event_type == node_error)) [
          | inl node ↦ rw node (deliver_node-Runs t)
          | inr other ↦ rw other (deliver_positive-Runs t)
        ])

-- The outbox is a notifier of the kind that a scan relies on.
pub deliver-KeepsTables : (c : Client) → KeepsTables (some (deliver c))
deliver-KeepsTables c event s = (deliver-Runs c event s).0

-- A delivery that returns no error leaves the event marked as sent, and whether or not it returns one, and
-- wherever the connection fails, it leaves the addresses and the scan runs as they are and removes no row of
-- findings or retries.
pub deliver_lem :
    (c : Client) (event : ℕ) (s : System)
    → Kept s.db (deliver c event s).1.db
      × ((deliver c event s).0 ≡ ok tt → IsSent event (deliver c event s).1.db.events)
deliver_lem c event s =
    let (k, q) = deliver-Runs c event s in
    (
      k,
      λ e.
          subst (λ r. Post {A = Unit {0}} (λ _ d. IsSent event d.events) r (deliver c event s).1.db)
            e q,
    )
