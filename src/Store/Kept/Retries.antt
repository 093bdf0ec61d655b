-- ===== src/Store/Kept/Retries.antt =====
-- The retry queue, node incidents and events: what their operations keep and leave.
use wallet_scan.Prelude.{
  ℕ, ◌≡◌, refl, true, ◌||◌, Option, none, some, List, [], ◌∷◌, ◌++◌, nat_eq, if◌then◌else◌, arith,
  Bool-cases, inl, inr,
}
use wallet_scan.Prelude.Texts.{Text, text_eq, text_beq_iff}
use wallet_scan.Store.Tables.{RetryRow, Database, has_retry, has_address}
use wallet_scan.Store.Session.{Moment, System, statement}
use wallet_scan.Store.Rules.{Runs, Ends, statement-Runs}
use wallet_scan.Store.Records.{
  update_retry, failed_again, first_failure, upsert_retry, record_retry, resolved, close_retry,
  create_node_incident, insert_event, create_node_notification_event,
}
use wallet_scan.Store.Kept.{Stays, Kept, Kept-IsPreorder, SameTables-Kept}

has_retry-append :
    (id : ℕ) (c : Text) (qs ws : List RetryRow)
    → has_retry id c (qs ++ ws) ≡ (has_retry id c qs || has_retry id c ws)
unfolding has_retry
has_retry-append id c [] ws = refl
has_retry-append id c (q ∷ qs) ws = ground (arith, has_retry-append id c qs ws)

has_retry-update :
    (id i : ℕ) (c k : Text) (f : RetryRow → RetryRow) (qs : List RetryRow)
    → ((q : RetryRow) → ((f q).address_id ≡ q.address_id) × ((f q).chain ≡ q.chain))
    → has_retry id c (update_retry i k f qs) ≡ has_retry id c qs
unfolding has_retry update_retry
has_retry-update id i c k f [] h = refl
has_retry-update id i c k f (q ∷ qs) h = ground (arith, h q, has_retry-update id i c k f qs h)

-- A row of the retry queue that is written, anew or again.
upserted_stays :
    (i : ℕ) (k : Text) (new : RetryRow) (f : RetryRow → RetryRow) (qs : List RetryRow)
    → ((q : RetryRow) → ((f q).address_id ≡ q.address_id) × ((f q).chain ≡ q.chain))
    → Stays (has_retry i k qs) (
        has_retry i k (
          if has_retry new.address_id new.chain qs
          then update_retry new.address_id new.chain f qs
          else qs ++ new ∷ []))
upserted_stays i k new f qs h = ground (
  arith,
  has_retry-update i new.address_id k new.chain f qs h,
  has_retry-append i k qs (new ∷ []),
)

upserted_there :
    (new : RetryRow) (f : RetryRow → RetryRow) (qs : List RetryRow)
    → ((q : RetryRow) → ((f q).address_id ≡ q.address_id) × ((f q).chain ≡ q.chain))
    → has_retry new.address_id new.chain (
        if has_retry new.address_id new.chain qs
        then update_retry new.address_id new.chain f qs
        else qs ++ new ∷ [])
      ≡ true
unfolding has_retry
upserted_there new f qs h = ground (
  arith,
  has_retry-update new.address_id new.address_id new.chain new.chain f qs h,
  has_retry-append new.address_id new.chain qs (new ∷ []),
  text_beq_iff new.chain new.chain,
)

upsert_retry-Ends :
    (id : ℕ) (c code provider message : Text) (next : ℕ) (m : Moment) (d : Database)
    → Ends Kept
        (λ _ e. has_retry id c e.retries ≡ true)
        d
        (upsert_retry id c code provider message next m d).0
        (upsert_retry id c code provider message next m d).1
unfolding upsert_retry
upsert_retry-Ends id c code provider message next m d =
    let new = first_failure d.sequences.retry_id id c code provider message next in
    let again = failed_again code provider message next in
    elim (Bool-cases (has_address id d.addresses)) [
      | inr no_row ↦ rw no_row (SameTables-Kept d _ (refl, refl, refl, refl, refl), tt)
      | inl known ↦ rw known (
        record {
          addresses = refl;
          runs = refl;
          number = refl;
          findings = λ i k. ground arith;
          retries = λ i k. upserted_stays i k new again d.retries (λ q. (refl, refl));
        },
        upserted_there new again d.retries (λ q. (refl, refl)),
      )
    ]

pub record_retry-Runs :
    (id : ℕ) (c code provider message : Text) (next : ℕ) (s : System)
    → Runs Kept
        (λ _ d. has_retry id c d.retries ≡ true)
        (record_retry id c code provider message next)
        s
unfolding record_retry
record_retry-Runs id c code provider message next s =
    statement-Runs Kept-IsPreorder _ (upsert_retry id c code provider message next) s
      (λ m. upsert_retry-Ends id c code provider message next m s.db)

pub close_retry-Runs :
    (id : ℕ) (c : Text) (s : System) → Runs Kept (λ _ d. Unit) (close_retry id c) s
unfolding close_retry
close_retry-Runs id c s =
    statement-Runs Kept-IsPreorder (λ _ d. Unit) _ s
      (λ m. (
        record {
          addresses = refl;
          runs = refl;
          number = refl;
          findings = λ i k. ground arith;
          retries = λ i k.
              ground (
                arith,
                has_retry-update i id k c (resolved m.now) s.db.retries (λ q. (refl, refl)),
              );
        },
        tt,
      ))

pub create_node_incident-Runs :
    (chain provider code : Text) (n : ℕ) (s : System)
    → Runs Kept (λ _ d. Unit) (create_node_incident chain provider code n) s
unfolding create_node_incident
create_node_incident-Runs chain provider code n s =
    statement-Runs Kept-IsPreorder (λ _ d. Unit) _ s
      (λ m. (SameTables-Kept s.db _ (refl, refl, refl, refl, refl), tt))

pub insert_event-Runs :
    (finding incident : Option ℕ) (event_type : Text) (s : System)
    → Runs Kept (λ _ d. Unit) (statement (insert_event finding incident event_type)) s
unfolding insert_event
insert_event-Runs finding incident event_type s =
    statement-Runs Kept-IsPreorder (λ _ d. Unit) _ s
      (λ m. (SameTables-Kept s.db _ (refl, refl, refl, refl, refl), tt))

pub create_node_notification_event-Runs :
    (incident : ℕ) (s : System)
    → Runs Kept (λ _ d. Unit) (create_node_notification_event incident) s
unfolding create_node_notification_event
create_node_notification_event-Runs incident s = insert_event-Runs none (some incident) _ s
