-- ===== src/Scanner/Run/Batch.antt =====
-- Storing the results of a batch.
use mathlib.Core.List.{Permᴰ}
use wallet_scan.Prelude.{
  ℕ, ◌<◌, ◌≡◌, refl, true, false, nat_eq, Option, none, some, List, All, arith, Bool-cases, inl,
  inr, ◌==◌, if◌then◌else◌,
}
use wallet_scan.Prelude.Texts.{codes, text_eq}
use wallet_scan.Domain.{Address}
use wallet_scan.Scanner.Check.{ScanFailure, NodeAlert, AddressResult}
use wallet_scan.Store.Tables.{Database, has_retry}
use wallet_scan.Store.Session.{System, M, pure, ◌>>=◌, ◌>>◌, for_each}
use wallet_scan.Store.Rules.{Runs, bind-Runs, for_each-Runs, Post-map}
use wallet_scan.Store.Records.{
  record_retry, close_retry, create_node_incident, create_node_notification_event,
  save_positive_findings,
}
use wallet_scan.Store.Kept.{Kept, Kept-IsPreorder, stays}
use wallet_scan.Store.Kept.Retries.{
  record_retry-Runs, close_retry-Runs, create_node_incident-Runs,
  create_node_notification_event-Runs,
}
use wallet_scan.Store.Kept.Findings.{HaveRows, save_positive_findings-Runs}
use wallet_scan.Scanner.Run.{
  Scanner, check_batch, process_batch, retry_time, save_failure, notify, save_alert, notify_new,
  save_result,
}
use wallet_scan.Scanner.Run.Coverage.{
  HaveRetries, Recorded, Recorded-Kept, HaveRetries-Kept, IsDone, check_batch-IsDone, All-perm,
}

-- A notifier keeps what a scan needs: it writes nothing but events.
abbrev pub KeepsTables : Option (ℕ → M (Unit {0})) → Type 0
KeepsTables none = Unit
KeepsTables (some deliver) = (event : ℕ) (s : System) → Kept s.db (deliver event s).1.db

-- The world of a scanner: workers that finish in any order, and a notifier of that kind. There is a
-- worker, and room for an address in a batch.
pub record IsFair (sc : Scanner) : Type 0 where
  pub works : 0 < sc.address_workers
  pub room : 0 < sc.batch_size
  pub order : (n : ℕ) (rs : List AddressResult) → Permᴰ (sc.finish n rs) rs
  pub quiet : KeepsTables sc.notifier

abbrev Nothing : {A : Type 0} → A → Database → Type 0
Nothing a d = Unit

module _ (sc : Scanner) (f : IsFair sc) where
  save_failure-Runs :
      (id : ℕ) (x : ScanFailure) (s : System)
      → Runs Kept (λ _ d. has_retry id x.chain d.retries ≡ true) (save_failure sc id x) s
  unfolding save_failure
  save_failure-Runs id x s =
      bind-Runs Kept-IsPreorder {A = Unit {0}} {B = Unit {0}}
        (λ _ d. has_retry id x.chain d.retries ≡ true)
        (λ _ d. has_retry id x.chain d.retries ≡ true)
        (record_retry id x.chain x.code x.provider x.message (retry_time sc s))
        (λ _. if x.code == codes "invalid_address" then close_retry id x.chain else pure tt) s
        (record_retry-Runs id x.chain x.code x.provider x.message (retry_time sc s) s)
        (λ _ t k q. closed t q)
    where
      closed :
          (t : System)
          → has_retry id x.chain t.db.retries ≡ true
          → Runs Kept
              (λ _ d. has_retry id x.chain d.retries ≡ true)
              (if x.code == codes "invalid_address" then close_retry id x.chain else pure tt)
              t
      closed t q = elim (Bool-cases (x.code == codes "invalid_address")) [
        | inl bad ↦
            let (k, r) = close_retry-Runs id x.chain t in
            rw bad (
              k,
              Post-map (λ _ d. Unit) (λ _ d. has_retry id x.chain d.retries ≡ true) _ _
                  (λ _ _. stays _ _ (k.retries id x.chain) q) r,
            )
        | inr other ↦ rw other (Kept-IsPreorder.same t.db, q)
      ]

  notify-Runs : (event : ℕ) (s : System) → Runs Kept (λ _ d. Unit) (notify sc event) s
  unfolding notify
  notify-Runs event s = by_notifier sc.notifier refl f.quiet
    where
      by_notifier :
          (o : Option (ℕ → M (Unit {0})))
          → sc.notifier ≡ o
          → KeepsTables o
          → Runs Kept (λ _ d. Unit) (notify sc event) s
      by_notifier none e q = rw (e, notify) (Kept-IsPreorder.same s.db, tt)
      by_notifier (some deliver) e q = rw (e, notify) (q event s, tt)

  save_alert-Runs : (x : NodeAlert) (s : System) → Runs Kept (λ _ d. Unit) (save_alert sc x) s
  unfolding save_alert
  save_alert-Runs x s =
      bind-Runs Kept-IsPreorder {A = ℕ} {B = Unit {0}} (λ _ d. Unit) (λ _ d. Unit)
        (create_node_incident x.chain x.provider x.code x.failures)
        (λ incident. create_node_notification_event incident >>= λ event. notify sc event) s
        (create_node_incident-Runs x.chain x.provider x.code x.failures s)
        (λ incident t k q.
          bind-Runs Kept-IsPreorder {A = ℕ} {B = Unit {0}} (λ _ d. Unit) (λ _ d. Unit)
            (create_node_notification_event incident) (λ event. notify sc event) t
            (create_node_notification_event-Runs incident t) (λ event u l r. notify-Runs event u))

  pub notify_new-Runs :
      (event : Option ℕ) (s : System) → Runs Kept (λ _ d. Unit) (notify_new sc event) s
  unfolding notify_new
  notify_new-Runs none s = (Kept-IsPreorder.same s.db, tt)
  notify_new-Runs (some event) s = notify-Runs event s

  -- A result whose round ends well is stored.
  save_result-Runs :
      (r : AddressResult) (s : System) → Runs Kept (λ _ d. Recorded d r) (save_result sc r) s
  unfolding save_result
  save_result-Runs r s =
      bind-Runs Kept-IsPreorder {A = Unit {0}} {B = Unit {0}}
        (λ _ d. HaveRetries r.address.id r.errors d) (λ _ d. Recorded d r)
        (for_each r.errors (save_failure sc r.address.id))
        (λ _.
          for_each r.node_alerts (save_alert sc)
          >> (save_positive_findings r.findings >>= λ event. notify_new sc event))
        s
        (for_each-Runs Kept-IsPreorder
          (λ (x : ScanFailure) d. has_retry r.address.id x.chain d.retries ≡ true) r.errors
          (save_failure sc r.address.id) s
          (λ x d e k q. stays _ _ (k.retries r.address.id x.chain) q)
          (λ x t k. save_failure-Runs r.address.id x t))
        (λ _ t k q. alerts t q)
    where
      found :
          (t : System)
          → HaveRetries r.address.id r.errors t.db
          → Runs Kept
              (λ _ d. Recorded d r)
              (save_positive_findings r.findings >>= λ event. notify_new sc event)
              t
      found t q =
          bind-Runs Kept-IsPreorder {A = Option ℕ} {B = Unit {0}} (λ _ d. HaveRows r.findings d)
            (λ _ d. Recorded d r) (save_positive_findings r.findings) (λ event. notify_new sc event)
            t (save_positive_findings-Runs r.findings t)
            (λ event u k rows.
              let (l, done) = notify_new-Runs event u in
              (
                l,
                Post-map (λ _ d. Unit) (λ _ d. Recorded d r) _ _
                    (λ _ _.
                      Recorded-Kept u.db _ r l
                        (rows, HaveRetries-Kept r.address.id r.errors t.db u.db k q))
                    done,
              ))

      alerts :
          (t : System)
          → HaveRetries r.address.id r.errors t.db
          → Runs Kept
              (λ _ d. Recorded d r)
              (for_each r.node_alerts (save_alert sc)
                >> (save_positive_findings r.findings >>= λ event. notify_new sc event))
              t
      alerts t q =
          bind-Runs Kept-IsPreorder {A = Unit {0}} {B = Unit {0}}
            (λ _ d. HaveRetries r.address.id r.errors d) (λ _ d. Recorded d r)
            (for_each r.node_alerts (save_alert sc))
            (λ _. save_positive_findings r.findings >>= λ event. notify_new sc event) t
            (alerted t q) (λ _ u k p. found u p)
        where
          alerted :
              (u : System)
              → HaveRetries r.address.id r.errors u.db
              → Runs Kept
                  (λ _ d. HaveRetries r.address.id r.errors d)
                  (for_each r.node_alerts (save_alert sc))
                  u
          alerted u p =
              let (k, done) =
                for_each-Runs Kept-IsPreorder (λ (x : NodeAlert) d. Unit) r.node_alerts
                  (save_alert sc) u (λ x d e l w. tt) (λ x v l. save_alert-Runs x v) in
              (
                k,
                Post-map (λ _ d. All (λ (x : NodeAlert). Unit) r.node_alerts)
                    (λ _ d. HaveRetries r.address.id r.errors d) _ _
                    (λ _ _. HaveRetries-Kept r.address.id r.errors u.db _ k p) done,
              )

  -- After a batch, its results are stored.
  pub save_results-Runs :
      (rs : List AddressResult) (s : System)
      → Runs Kept (λ _ d. All (Recorded d) rs) (for_each rs (save_result sc)) s
  save_results-Runs rs s =
      for_each-Runs Kept-IsPreorder (λ r d. Recorded d r) rs (save_result sc) s
        (λ r d e k q. Recorded-Kept d e r k q) (λ r t k. save_result-Runs r t)

  -- Results whose storage makes their batch done.
  abbrev pub Settles : List Address → List AddressResult → Type 0
  Settles batch rs = (d : Database) → All (Recorded d) rs → All (IsDone sc d) batch

  pub process_batch-Runs :
      (batch : List Address) (s : System)
      → Runs Kept (λ rs _. Settles batch rs) (process_batch sc batch) s
  unfolding process_batch
  process_batch-Runs batch s = rw (busy (sc.address_workers) f.works) (
    Kept-IsPreorder.same s.db,
    λ d q.
        check_batch-IsDone sc s.batches batch s.health d
          (All-perm (Recorded d) (f.order s.batches (check_batch sc s.batches batch s.health).0) q),
  )
    where
      busy : (n : ℕ) → 0 < n → (n == 0) ≡ false
      busy n h = ground arith
