-- ===== src/StartupCheck/Ends.antt =====
-- The startup check comes to an end: its only loop that can wait is that of `Acquire`, and no caller
-- changes the queue wait.
use wallet_scan.Prelude.{
  ℕ, ◌*◌, ◌≤◌, ◌<◌, ◌+◌, ◌≡◌, ◌≢◌, refl, sym, subst, inl, inr, Bool-cases, Option, none, some, List,
  [], ◌∷◌, length, Option-cases,
}
use wallet_scan.Prelude.Int.{pos_part, ℤ}
use wallet_scan.Prelude.Texts.{Text}
use wallet_scan.Prelude.Maps.{lookup}
use wallet_scan.Domain.{AddressInput}
use wallet_scan.Providers.{Balance, Result, ok, err}
use wallet_scan.Adaptive.{millisecond}
use wallet_scan.Adaptive.Leases.{System, Reach, here, held}
use wallet_scan.Adaptive.Acquire.{
  Answer, granted, rejected, waiting, acquire, acquire-Reach, acquire_granted, Paced, acquire_ends,
  Reach-trans,
}
use wallet_scan.Adaptive.QueueWait.{Reach-queue_wait}
use wallet_scan.HttpServer.{World}
use wallet_scan.HttpServer.Slots.{IsFair, finish-Reach}
use wallet_scan.StartupCheck.{
  Addresses, Target, BalanceCheck, Service, after_acquire, check, check_all, run_targets,
  run_addresses, run_once, targets_of, inputs_of,
}

-- The caller sleeps between its passes as the code says, and there are as many passes as a queue
-- wait has room for.
pub record HasRounds (queue_wait : ℤ) (w : World) : Type 0 where
  pub stretches : ℕ
  pub paced : Paced (w.arrived + pos_part queue_wait) w.arrived w.rounds
  pub covered : pos_part queue_wait ≤ stretches * (10 * millisecond)
  pub enough : stretches < length w.rounds

-- A check ends, and only takes steps of the limiter.
abbrev EndsWell : System → Option (BalanceCheck × System) → Type 0
EndsWell s none = ⊥
EndsWell s (some (c, s')) = Reach s s'

after_acquire_ends :
    (w : World) (item : Target) (reply : Result Balance) (s : System) (a : Answer × System)
    → IsFair w item.chain
    → Reach s a.1
    → (a.0 ≡ granted → 0 < held item.chain a.1.leases)
    → a.0 ≢ waiting
    → EndsWell s (after_acquire w item reply a)
unfolding after_acquire
after_acquire_ends w item reply s (waiting, s') f r h e = absurd (e refl)
after_acquire_ends w item reply s (rejected d, s') f r h e = r
after_acquire_ends w item reply s (granted, s') f r h e =
    Reach-trans r (finish-Reach w item.chain reply s' f (h refl))

check-EndsWell :
    (svc : Service) (w : World) (item : Target) (s : System)
    → IsFair w item.chain
    → HasRounds s.limiter.queue_wait w
    → EndsWell s (check svc w item s)
unfolding check
check-EndsWell svc w item s f t = by_provider (lookup item.chain svc.providers) refl
  where
    by_provider :
        (o : Option (Text → Result Balance))
        → lookup item.chain svc.providers ≡ o
        → EndsWell s (check svc w item s)
    by_provider none e = elim (Bool-cases svc.has_limiter) [
      | inl on ↦ rw (e, check, on) here
      | inr off ↦ rw (e, check, off) here
    ]
    by_provider (some ask) e = elim (Bool-cases svc.has_limiter) [
      | inl on ↦
          rw (e, check, on)
            (after_acquire_ends w item (ask item.address) s
              (acquire w.arrived item.chain w.rounds s) f
              (acquire-Reach w.arrived item.chain w.rounds s f.passes)
              (acquire_granted w.arrived item.chain w.rounds s)
              (acquire_ends w.arrived t.stretches item.chain w.rounds s t.paced t.covered t.enough))
      | inr off ↦ rw (e, check, off) here
    ]

-- The rest of the targets, once the first check has ended.
check_all_cons :
    (svc : Service) (worlds : Text → World) (item : Target) (items : List Target) (s : System)
    (o : Option (BalanceCheck × System))
    → check svc (worlds item.chain) item s ≡ o
    → EndsWell s o
    → ((s' : System) → Reach s s' → check_all svc worlds items s' ≢ none)
    → check_all svc worlds (item ∷ items) s ≢ none
unfolding check_all
check_all_cons svc worlds item items s none e w rest = absurd w
check_all_cons svc worlds item items s (some (c, s')) e w rest =
    elim (Option-cases (check_all svc worlds items s')) [
      | inl stuck ↦ absurd (rest s' w stuck)
      | inr (r, over) ↦ λ h. cc
    ]

check_all_ends :
    (svc : Service) (worlds : Text → World) (items : List Target) (s : System)
    → ((c : Text) → IsFair (worlds c) c)
    → ((c : Text) → HasRounds s.limiter.queue_wait (worlds c))
    → check_all svc worlds items s ≢ none
unfolding check_all
check_all_ends svc worlds [] s f t = λ e. cc
check_all_ends svc worlds (item ∷ items) s f t =
    check_all_cons svc worlds item items s (check svc (worlds item.chain) item s) refl
      (check-EndsWell svc (worlds item.chain) item s (f item.chain) (t item.chain))
      (λ s' w.
        check_all_ends svc worlds items s' f
          (λ n. subst (λ q. HasRounds q (worlds n)) (sym (Reach-queue_wait w)) (t n)))

run_targets_ends :
    (svc : Service) (worlds : Text → World) (save : BalanceCheck → Option Text)
    (items : List Target) (s : System)
    → check_all svc worlds items s ≢ none
    → run_targets svc worlds save items s ≢ none
unfolding run_targets
run_targets_ends svc worlds save items s h = elim (Option-cases (check_all svc worlds items s)) [
  | inl stuck ↦ absurd (h stuck)
  | inr (r, over) ↦ rw (run_targets, over) (λ e. cc)
]

-- Every run of the startup check comes to an end, whatever the wallet package, the store, the providers
-- and the other callers of the limiter do: each query needs one pass more than the queue wait holds
-- stretches of 10 ms.
pub run_once_ends :
    (svc : Service) (worlds : Text → World) (save : BalanceCheck → Option Text)
    (insert : List AddressInput → Result (List ℕ)) (a : Result Addresses) (s : System)
    → ((c : Text) → IsFair (worlds c) c)
    → ((c : Text) → HasRounds s.limiter.queue_wait (worlds c))
    → run_once svc worlds save insert a s ≢ none
unfolding run_once run_addresses
run_once_ends svc worlds save insert (err e) s f t = λ h. cc
run_once_ends svc worlds save insert (ok a) s f t = by_insert (insert (inputs_of a)) refl
  where
    by_insert :
        (r : Result (List ℕ))
        → insert (inputs_of a) ≡ r
        → run_once svc worlds save insert (ok a) s ≢ none
    by_insert (err e) q = rw (q, run_once, run_addresses) (λ h. cc)
    by_insert (ok ids) q = elim (Option-cases (targets_of a ids)) [
      | inl few ↦ rw (q, run_once, run_addresses, few) (λ h. cc)
      | inr (items, all) ↦
          rw (q, run_once, run_addresses, all)
            (run_targets_ends svc worlds save items s (check_all_ends svc worlds items s f t))
    ]
