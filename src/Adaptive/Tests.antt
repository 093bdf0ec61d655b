-- ===== src/Adaptive/Tests.antt =====
-- The limiter at concrete inputs.
use wallet_scan.Prelude.{
  ℕ, ◌≤◌, ◌<◌, ◌≡◌, ◌≢◌, ◌+◌, refl, Bool, true, false, some, List, [], ◌∷◌, arith, length,
}
use wallet_scan.Prelude.Int.{pos, pos_part, sub_ℕ, ◌≤ℤ◌}
use wallet_scan.Prelude.Texts.{Text, codes, text_beq}
use wallet_scan.Prelude.Maps.{lookup, insert}
use wallet_scan.Adaptive.{
  Config, Limiter, ChainState, Outcome, new, chain, attempt, release, has_room, fresh, clamped_max,
  clamped_initial, or_default,
}
use wallet_scan.Adaptive.Events.{tried, advised, ended}
use wallet_scan.Adaptive.Windows.Batches.{
  Batch, IsFull, AreFull, after_all, ended_count, all_by, are_all, all_ended,
}
use wallet_scan.Adaptive.Windows.{
  limit_of, quick_within, is_failure, adapt_recovers, adapt_backs_off,
}
use wallet_scan.Adaptive.Outcomes.{Acquires, acquire-Acquires}
use wallet_scan.Adaptive.Leases.{
  System, Reach, acquired, released, here, next, held, drop_one, active_of, IsSound,
}
use wallet_scan.Adaptive.Methods.{new-IsSound}
use wallet_scan.Adaptive.HardCap.{start, hard_cap}
use wallet_scan.Adaptive.Acquire.{Round, waiting, acquire, pause, acquire_ends}

abbrev btc : Text
btc = codes "btc"

abbrev evm : Text
evm = codes "ethereum"

-- Two slots at first and three at the most; the other values are the defaults.
abbrev config : Config
config = record {
  initial_concurrency = pos 2;
  max_concurrency = pos 3;
  queue_wait = pos 0;
  adjust_interval = pos 0;
  target_latency = pos 0;
}

abbrev at_start : System
at_start = start config 0

abbrev one_out : System
one_out = record { limiter = (attempt at_start.limiter btc 5).1; leases = btc ∷ at_start.leases }

abbrev two_out : System
two_out = record { limiter = (attempt one_out.limiter evm 6).1; leases = evm ∷ one_out.leases }

abbrev quick : Outcome
quick = record { chain = btc; retryable = false; latency = pos 40 }

abbrev one_back : System
one_back = record {
  limiter = release two_out.limiter quick 9;
  leases = drop_one btc two_out.leases;
}

first_taken : (attempt at_start.limiter btc 5).0 ≡ true
unfolding attempt chain has_room new clamped_max clamped_initial or_default fresh lookup insert
first_taken = refl

second_taken : (attempt one_out.limiter evm 6).0 ≡ true
unfolding attempt chain has_room new clamped_max clamped_initial or_default fresh lookup insert
    text_beq
second_taken = refl

third_refused : (attempt two_out.limiter evm 7).0 ≡ false
unfolding attempt chain has_room new clamped_max clamped_initial or_default fresh lookup insert
    text_beq
third_refused = refl

btc_out : 0 < held btc two_out.leases
unfolding held text_beq
btc_out = omega arith

run : Reach at_start one_back
run =
    next
      (next (next here (acquired at_start btc 5 first_taken)) (acquired one_out evm 6 second_taken))
      (released two_out quick 9 btc_out)

hard_cap_example :
    (length one_back.leases ≤ clamped_max config)
    × (held evm one_back.leases ≤ clamped_max config)
    × (one_back.limiter.global_active ≡ length one_back.leases)
    × (active_of evm one_back.limiter.chains ≡ held evm one_back.leases)
    × (1 ≤ one_back.limiter.global_limit)
    × (one_back.limiter.global_limit ≤ clamped_max config)
hard_cap_example = hard_cap config 0 run evm

-- A pass that finds the limiter full, and one after the deadline.
abbrev full_round : ℕ → Round
full_round now = record { now = now; others = λ s. s; cancelled = false }

abbrev rounds : List Round
rounds = full_round 10 ∷ full_round 300000000 ∷ []

abbrev slow : ChainState
slow = record {
  limit = 3;
  active = 0;
  samples = 4;
  failures = 0;
  latency_ewma = pos 100;
  last_adjustment = 0;
}

abbrev limiter : Limiter
limiter = record {
  max = 5;
  global_limit = 3;
  global_active = 0;
  queue_wait = pos 20;
  interval = pos 10;
  target = pos 1000;
  chains = [];
  global = slow;
}

abbrev idle : System
idle = record { limiter = limiter; leases = [] }

acquire_ends_example : (acquire 0 btc (full_round 1 ∷ full_round 21 ∷ []) idle).0 ≢ waiting
unfolding pause
acquire_ends_example =
    acquire_ends 0 1 btc (full_round 1 ∷ full_round 21 ∷ []) idle (omega arith) (omega arith)
      (omega arith)

acquire-Acquires_example :
    Acquires
      (7 + pos_part two_out.limiter.queue_wait)
      evm
      rounds
      two_out
      (acquire 7 evm rounds two_out).0
      (acquire 7 evm rounds two_out).1
acquire-Acquires_example = acquire-Acquires 7 evm rounds two_out

IsSound-start : IsSound at_start
IsSound-start = new-IsSound config 0

-- The limiter with one chain, whose last requests have partly failed.
abbrev recent : ChainState
recent = record slow { failures = 2 }

abbrev known : Limiter
known = record limiter { chains = insert btc recent [] }

-- A request of the chain that fails or not.
abbrev result : Bool → Outcome
result retryable = record { chain = btc; retryable = retryable; latency = pos 500 }

-- Ten requests of the chain, and calls of others between them.
abbrev busy : Bool → ℕ → Batch
busy retryable now =
    let e = ended (result retryable) now in
    record {
      earlier = tried btc now ∷ e ∷ e ∷ e ∷ e ∷ advised evm now ∷ e ∷ e ∷ e ∷ e ∷ e ∷ [];
      last = result retryable;
      finish = now;
    }

busy-IsFull : (b : Bool) (opening : ℕ) → IsFull btc (pos 10) opening (busy b (opening + 10))
unfolding ended_count all_by text_beq
busy-IsFull b opening =
    let long : pos 10 ≤ℤ sub_ℕ (opening + 10) opening = grind arith in
    record { many = omega arith; own = refl; long = long; ordered = ground arith }

abbrev batches : Bool → List Batch
batches b = busy b 10 ∷ busy b 20 ∷ busy b 30 ∷ busy b 40 ∷ busy b 50 ∷ []

full_batches : (b : Bool) → AreFull btc (pos 10) 0 (batches b)
full_batches b = (
  busy-IsFull b 0,
  (busy-IsFull b 10, (busy-IsFull b 20, (busy-IsFull b 30, (busy-IsFull b 40, tt)))),
)

batches_failed : are_all is_failure btc (batches true) ≡ true
unfolding are_all all_ended text_beq
batches_failed = refl

batches_quick : are_all (quick_within 1000) btc (batches false) ≡ true
unfolding are_all all_ended text_beq
batches_quick = refl

btc_known : lookup btc known.chains ≡ some recent
unfolding lookup insert text_beq
btc_known = refl

adapt_recovers_example : limit_of btc (after_all known (batches false)) ≡ 5
adapt_recovers_example =
    adapt_recovers known btc recent 1000 (batches false) btc_known (omega arith) (omega arith)
      (omega arith) refl (omega arith) (omega arith) (omega arith) (full_batches false)
      batches_quick

adapt_backs_off_example : limit_of btc (after_all known (batches true)) ≡ 1
adapt_backs_off_example =
    adapt_backs_off known btc recent (batches true) btc_known (omega arith) (omega arith)
      (full_batches true) batches_failed

abbrev late : Outcome
late = record { chain = btc; retryable = true; latency = pos 900 }
