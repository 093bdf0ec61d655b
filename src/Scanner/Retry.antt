-- ===== src/Scanner/Retry.antt =====
-- The retry of failed queries, `RetryFailed` of internal/scanner/scanner.go.
use wallet_scan.Prelude.{
  ℕ, ◌+◌, ◌≡◌, refl, Bool, true, Option, none, some, List, [], ◌∷◌, if◌then◌else◌, Bool-cases, inl,
  inr,
}
use wallet_scan.Prelude.Int.{pos, ltb_ℤ}
use wallet_scan.Prelude.Maps.{lookup}
use wallet_scan.Providers.{error_text}
use wallet_scan.Scanner.Check.{
  Reply, answered, refused, World, as_provider_error, check_with_retry, PositiveFinding,
}
use wallet_scan.Store.Tables.{Database, has_retry}
use wallet_scan.Store.Session.{ok, System, M, pure, ◌>>=◌, ◌>>◌, for_each}
use wallet_scan.Store.Rules.{Runs, Post-map, statement-Runs, bind-Runs, for_each-Runs}
use wallet_scan.Store.Records.{record_retry, close_retry, save_positive_findings}
use wallet_scan.Store.Queue.{RetryItem, next_retries}
use wallet_scan.Store.Kept.{Kept, Kept-IsPreorder}
use wallet_scan.Store.Kept.Retries.{record_retry-Runs, close_retry-Runs}
use wallet_scan.Store.Kept.Findings.{HaveRows, save_positive_findings-Runs}
use wallet_scan.Scanner.Run.{Scanner, retry_time, notify_new}
use wallet_scan.Scanner.Run.Batch.{IsFair, notify_new-Runs}

-- The finding of a balance above zero.
unfoldable pub save_balance : Scanner → PositiveFinding → M (Unit {0})
save_balance sc f =
    if ltb_ℤ (pos 0) f.balance
    then (save_positive_findings (f ∷ []) >>= λ event. notify_new sc event)
    else pure tt

-- What a query's end does to the queue.
unfoldable pub settle : Scanner → RetryItem → Reply → M (Unit {0})
settle sc item (refused e) s =
    let found = as_provider_error sc.show e item.chain in
    record_retry item.address_id item.chain found.code found.provider (error_text found)
      (retry_time sc s) s
settle sc item (answered c) s =
    (do
      close_retry item.address_id item.chain
      save_balance sc (record {
        address_id = item.address_id;
        chain = c.chain;
        balance = c.value;
        asset_symbol = c.symbol;
      }))
      s

-- One round of the loop; a chain without a provider is passed over.
unfoldable pub retry_item : Scanner → RetryItem → M (Unit {0})
retry_item sc item s = elim (lookup item.chain (sc.answers s.batches item.address_id)) [
  | none ↦ (ok tt, s)
  | some (w, limited) ↦
      let q = check_with_retry sc.show sc.config limited item.chain w s.health in
      settle sc item q.reply (record s { health = q.health; batches = s.batches + 1 })
]

unfoldable pub retry_failed : Scanner → ℕ → M (Unit {0})
retry_failed sc limit = next_retries limit >>= λ items. for_each items (retry_item sc)

abbrev Nothing : {A : Type 0} → A → Database → Type 0
Nothing a d = Unit

module _ (sc : Scanner) (f : IsFair sc) where
  save_balance-Runs :
      (x : PositiveFinding) (s : System) → Runs Kept {A = Unit {0}} Nothing (save_balance sc x) s
  unfolding save_balance
  save_balance-Runs x s = elim (Bool-cases (ltb_ℤ (pos 0) x.balance)) [
    | inl above ↦ rw above (
        bind-Runs Kept-IsPreorder {A = Option ℕ} {B = Unit {0}} (λ _ d. HaveRows (x ∷ []) d) Nothing
          (save_positive_findings (x ∷ [])) (λ event. notify_new sc event) s
          (save_positive_findings-Runs (x ∷ []) s) (λ event t k q. notify_new-Runs sc f event t))
    | inr nothing ↦ rw nothing (Kept-IsPreorder.same s.db, tt)
  ]

  settle-Runs :
      (item : RetryItem) (reply : Reply) (s : System)
      → Runs Kept {A = Unit {0}} Nothing (settle sc item reply) s
  unfolding settle
  settle-Runs item (refused e) s =
      let found = as_provider_error sc.show e item.chain in
      let (k, q) =
        record_retry-Runs item.address_id item.chain found.code found.provider (error_text found)
          (retry_time sc s) s in
      (
        k,
        Post-map (λ _ d. has_retry item.address_id item.chain d.retries ≡ true) Nothing _ _
            (λ _ _. tt) q,
      )
  settle-Runs item (answered c) s =
      bind-Runs Kept-IsPreorder {A = Unit {0}} {B = Unit {0}} Nothing Nothing
        (close_retry item.address_id item.chain) _ s (close_retry-Runs item.address_id item.chain s)
        (λ _ t k q. save_balance-Runs _ t)

  retry_item-Runs :
      (item : RetryItem) (s : System) → Runs Kept {A = Unit {0}} Nothing (retry_item sc item) s
  unfolding retry_item
  retry_item-Runs item s = by_world (lookup item.chain (sc.answers s.batches item.address_id)) refl
    where
      by_world :
          (o : Option (World × Bool))
          → lookup item.chain (sc.answers s.batches item.address_id) ≡ o
          → Runs Kept {A = Unit {0}} Nothing (retry_item sc item) s
      by_world none e = rw (e, retry_item) (Kept-IsPreorder.same s.db, tt)
      by_world (some (w, limited)) e =
          let q = check_with_retry sc.show sc.config limited item.chain w s.health in
          rw (e, retry_item)
            (settle-Runs item q.reply (record s { health = q.health; batches = s.batches + 1 }))

  pub retry_failed-Runs :
      (limit : ℕ) (s : System) → Runs Kept (λ _ d. Unit) (retry_failed sc limit) s
  unfolding retry_failed next_retries
  retry_failed-Runs limit s =
      bind-Runs Kept-IsPreorder {A = List RetryItem} {B = Unit {0}} Nothing Nothing
        (next_retries limit) (λ items. for_each items (retry_item sc)) s
        (statement-Runs Kept-IsPreorder Nothing _ s (λ m. (Kept-IsPreorder.same s.db, tt)))
        (λ items t k q.
          let (l, r) =
            for_each-Runs Kept-IsPreorder (λ (x : RetryItem) d. Unit) items (retry_item sc) t
              (λ x d e g w. tt) (λ x u g. retry_item-Runs x u) in
          (l, Post-map _ Nothing _ _ (λ _ _. tt) r))
