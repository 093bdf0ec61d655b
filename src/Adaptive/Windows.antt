-- ===== src/Adaptive/Windows.antt =====
-- The limit of a chain over many adjustment intervals in which its requests are quick, or fail. The calls
-- are `release` as it is, between those of other callers.
pub mod Batches
pub mod Phases
use wallet_scan.Prelude.{
  ℕ, suc, ◌+◌, ◌*◌, ◌^◌, ◌≤◌, ◌<◌, ◌≡◌, refl, Bool, true, not, ◌&&◌, Option, none, some, List, [],
  ◌∷◌, arith, length, ltb, Bool-cases, inl, inr,
}
use wallet_scan.Prelude.Int.{ℤ, pos, leb_ℤ, ◌≤ℤ◌, mul64, wrap64}
use wallet_scan.Prelude.Texts.{Text}
use wallet_scan.Prelude.Maps.{lookup}
use native.Mathlib.Nat.{pow-suc}
use wallet_scan.Adaptive.{Limiter, ChainState, Outcome, update_stats, next_limit, halved, increased}
use wallet_scan.Adaptive.Adjust.{
  increased_bounds, halved_bounds, increased_grows, next_limit_bounds, ewma_bounds,
}
use wallet_scan.Adaptive.Methods.{update_stats_frame}
use wallet_scan.Adaptive.Events.{IsTuned}
use wallet_scan.Adaptive.Windows.Batches.{Batch, after, after_all, AreFull, are_all}
use wallet_scan.Adaptive.Windows.Phases.{Stats, IsDriven, counted, batch_lem, batches_lem}

abbrev limit_in : Option ChainState → ℕ
limit_in none = 0
limit_in (some s) = s.limit

-- The limit of a chain, and 0 where the limiter does not know the chain.
abbrev pub limit_of : Text → Limiter → ℕ
limit_of name l = limit_in (lookup name l.chains)

abbrev pub is_failure : Outcome → Bool
is_failure o = o.retryable

-- No failure, and not slower than the bound.
abbrev pub quick_within : ℕ → Outcome → Bool
quick_within b o = not o.retryable && leb_ℤ (pos 0) o.latency && leb_ℤ o.latency (pos b)

-- The limit can be halved to 1 in so many adjustments.
abbrev Falling : ℕ → Stats
Falling k limit failures latency = (1 ≤ limit) × (limit ≤ 2 ^ k)

counted-limit : (s : ChainState) (o : Outcome) → (counted s o).limit ≡ s.limit
counted-limit s o = (update_stats_frame _ o).0

is_failure-halved :
    (l : Limiter) (s : ChainState) (o : Outcome)
    → o.retryable ≡ true
    → next_limit l (counted s o) ≡ halved s.limit
unfolding next_limit update_stats
is_failure-halved l s o h = ground arith

half_power : (k n : ℕ) → 1 ≤ n → n ≤ 2 ^ suc k → (1 ≤ halved n) × (halved n ≤ 2 ^ k)
unfolding halved
half_power k n h le = ground (arith, pow-suc 2 k)

failing-IsDriven : (l : Limiter) (k : ℕ) → IsDriven l is_failure (Falling (suc k)) (Falling k)
failing-IsDriven l k = record {
  counts_before = λ s o g b. rw (counted-limit s o) b;
  counts_after = λ s o g a. rw (counted-limit s o) a;
  moves_before = λ s o g b. rw (is_failure-halved l s o g) (half_power k s.limit b.0 b.1);
  moves_after = λ s o g a.
      rw (is_failure-halved l s o g) (omega (arith, halved_bounds s.limit a.0, a.0, a.1));
}

-- Where each request of a known chain that ends fails, the chain is down to one request at a time
-- after k batches of ten such requests or more, each at least an adjustment interval long and with no
-- call after its end, if its limit was from 1 to 2 ^ k. Between the requests other calls of any kind
-- are made for any chain.
pub adapt_backs_off :
    (l : Limiter) (name : Text) (s : ChainState) (bs : List Batch)
    → lookup name l.chains ≡ some s
    → 1 ≤ s.limit
    → s.limit ≤ 2 ^ length bs
    → AreFull name l.interval s.last_adjustment bs
    → are_all is_failure name bs ≡ true
    → limit_of name (after_all l bs) ≡ 1
adapt_backs_off l name s bs k low high full bad =
    let same : IsTuned l l = record { max = refl; interval = refl; target = refl } in
    let (t, k', p) =
      batches_lem l is_failure Falling (failing-IsDriven l) name s.last_adjustment bs l full bad
        (same, s, k, (low, high), omega arith) in
    rw k' (omega (arith, p))

-- No failure is counted, the average is on target, and the limit can grow to the cap in so many
-- adjustments.
abbrev Growing : ℕ → ℕ → ℕ → Stats
Growing max b k limit failures latency =
    (1 ≤ limit)
    × (limit ≤ max)
    × (max ≤ limit + k)
    × (failures ≡ 0)
    × (pos 0 ≤ℤ latency)
    × (latency ≤ℤ pos b)

-- Failures may have been counted.
abbrev Recovering : ℕ → ℕ → Stats
Recovering max b limit failures latency =
    (1 ≤ limit) × (limit ≤ max) × (pos 0 ≤ℤ latency) × (latency ≤ℤ pos b)

module _ (l : Limiter) (b : ℕ) (on : l.target ≡ pos b) (small : b * 5 < 2 ^ 63) where
  quick_ewma :
      (s : ChainState) (o : Outcome)
      → quick_within b o ≡ true
      → pos 0 ≤ℤ s.latency_ewma
      → s.latency_ewma ≤ℤ pos b
      → (pos 0 ≤ℤ (counted s o).latency_ewma) × ((counted s o).latency_ewma ≤ℤ pos b)
  quick_ewma s o g lo hi =
      let q : (pos 0 ≤ℤ o.latency) × (o.latency ≤ℤ pos b) = ground arith in
      ewma_bounds _ o b small lo hi q.0 q.1

  quick-failures :
      (s : ChainState) (o : Outcome) → quick_within b o ≡ true → (counted s o).failures ≡ s.failures
  unfolding update_stats
  quick-failures s o g = ground arith

  growing_counts :
      (k : ℕ) (s : ChainState) (o : Outcome)
      → quick_within b o ≡ true
      → Growing l.max b k s.limit s.failures s.latency_ewma
      → Growing l.max b k (counted s o).limit (counted s o).failures (counted s o).latency_ewma
  growing_counts k s o g (h, le, gap, clear, lo, hi) =
      let e = quick_ewma s o g lo hi in
      rw (counted-limit s o, quick-failures s o g) (h, le, gap, clear, e.0, e.1)

  next_limit-increased :
      (s : ChainState)
      → s.failures ≡ 0
      → pos 0 ≤ℤ s.latency_ewma
      → s.latency_ewma ≤ℤ pos b
      → next_limit l s ≡ increased l.max s.limit
  unfolding next_limit mul64 wrap64
  next_limit-increased s clear lo hi = ground arith

  growing_moves :
      (k : ℕ) (s : ChainState)
      → Growing l.max b (suc k) s.limit s.failures s.latency_ewma
      → Growing l.max b k (next_limit l s) 0 s.latency_ewma
  growing_moves k s (h, le, gap, clear, lo, hi) =
      let bounds = increased_bounds l.max s.limit h le in
      let grown : l.max ≤ increased l.max s.limit + k = elim (Bool-cases (ltb s.limit l.max)) [
        | inl below ↦ ground (arith, increased_grows l.max s.limit h)
        | inr full ↦ ground (arith, bounds)
      ] in
      rw (next_limit-increased s clear lo hi)
        (omega (arith, bounds), omega (arith, bounds), grown, refl, lo, hi)

  growing_more :
      (k : ℕ) (s : ChainState)
      → Growing l.max b k s.limit s.failures s.latency_ewma
      → Growing l.max b (suc k) s.limit s.failures s.latency_ewma
  growing_more k s (h, le, gap, clear, lo, hi) = (h, le, omega arith, clear, lo, hi)

  growing-IsDriven :
      (k : ℕ) → IsDriven l (quick_within b) (Growing l.max b (suc k)) (Growing l.max b k)
  growing-IsDriven k = record {
    counts_before = λ s o g p. growing_counts (suc k) s o g p;
    counts_after = λ s o g p. growing_counts k s o g p;
    moves_before = λ s o g p. growing_moves k (counted s o) (growing_counts (suc k) s o g p);
    moves_after = λ s o g p.
        growing_moves k (counted s o) (growing_more k (counted s o) (growing_counts k s o g p));
  }

  recovering_counts :
      (s : ChainState) (o : Outcome)
      → quick_within b o ≡ true
      → Recovering l.max b s.limit s.failures s.latency_ewma
      → Recovering l.max b (counted s o).limit (counted s o).failures (counted s o).latency_ewma
  recovering_counts s o g (h, le, lo, hi) =
      let e = quick_ewma s o g lo hi in rw (counted-limit s o) (h, le, e.0, e.1)

  recovering_moves :
      (k : ℕ) (s : ChainState)
      → l.max ≤ suc k
      → Recovering l.max b s.limit s.failures s.latency_ewma
      → Growing l.max b k (next_limit l s) 0 s.latency_ewma
  recovering_moves k s enough (h, le, lo, hi) =
      let bounds = next_limit_bounds l s h le in
      (bounds.0, bounds.1, omega (arith, bounds), refl, lo, hi)

  recovering-IsDriven :
      (k : ℕ) → l.max ≤ suc k → IsDriven l (quick_within b) (Recovering l.max b) (Growing l.max b k)
  recovering-IsDriven k enough = record {
    counts_before = recovering_counts;
    counts_after = λ s o g p. growing_counts k s o g p;
    moves_before = λ s o g p. recovering_moves k (counted s o) enough (recovering_counts s o g p);
    moves_after = λ s o g p.
        growing_moves k (counted s o) (growing_more k (counted s o) (growing_counts k s o g p));
  }

-- Where each request of a known chain that ends is no failure and takes from 0 to the target latency,
-- the chain is at the hard cap after as many batches of ten such requests or more, each at least an
-- adjustment interval long and with no call after its end, as the cap counts. Its limit lies between 1
-- and the cap and its moving average between 0 and the target at the start; failures may have been
-- counted, which halve the limit once and are then forgotten. Between the requests other calls of any
-- kind are made for any chain. The fivefold of the target lies in the int64 range.
pub adapt_recovers :
    (l : Limiter) (name : Text) (s : ChainState) (b : ℕ) (bs : List Batch)
    → lookup name l.chains ≡ some s
    → 1 ≤ s.limit
    → s.limit ≤ l.max
    → l.max ≤ length bs
    → l.target ≡ pos b
    → b * 5 < 2 ^ 63
    → pos 0 ≤ℤ s.latency_ewma
    → s.latency_ewma ≤ℤ pos b
    → AreFull name l.interval s.last_adjustment bs
    → are_all (quick_within b) name bs ≡ true
    → limit_of name (after_all l bs) ≡ l.max
unfolding after_all are_all
adapt_recovers l name s b [] k low high enough on small lo hi full good = absurd (omega arith)
adapt_recovers l name s b (c ∷ cs) k low high enough on small lo hi full good =
    let n = length cs in
    let same : IsTuned l l = record { max = refl; interval = refl; target = refl } in
    let first =
      batch_lem l (quick_within b) (Recovering l.max b) (Growing l.max b n)
        (recovering-IsDriven l b on small n enough) name s.last_adjustment c l full.0 (ground arith)
        (same, s, k, (low, high, lo, hi), omega arith) in
    let (t, k', p) =
      batches_lem l (quick_within b) (Growing l.max b) (growing-IsDriven l b on small) name c.finish
        cs (after l c) full.1 (ground arith) first in
    rw k' (omega (arith, p.0, p.1, p.2))
