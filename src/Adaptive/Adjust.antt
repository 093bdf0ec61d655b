-- ===== src/Adaptive/Adjust.antt =====
-- What `adjust` does to a limit, and that the arithmetic of the moving average fits an int64.
use wallet_scan.Prelude.{ℕ, ◌+◌, ◌*◌, ◌^◌, ◌≤◌, ◌<◌, Bool, arith}
use wallet_scan.Prelude.Int.{pos, ◌≤ℤ◌, add64, mul64, wrap64}
use wallet_scan.Adaptive.{
  Limiter, ChainState, Outcome, adjust, next_limit, halved, increased, update_stats,
}

pub halved_bounds : (n : ℕ) → 1 ≤ n → (1 ≤ halved n) × (halved n ≤ n)
unfolding halved
halved_bounds n h = ground arith

pub increased_bounds : (m n : ℕ) → 1 ≤ n → n ≤ m → (n ≤ increased m n) × (increased m n ≤ m)
unfolding increased
increased_bounds m n h k = ground arith

-- A limit between 1 and the hard cap stays between them, whatever the statistics say.
pub next_limit_bounds :
    (l : Limiter) (s : ChainState)
    → 1 ≤ s.limit
    → s.limit ≤ l.max
    → (1 ≤ next_limit l s) × (next_limit l s ≤ l.max)
unfolding next_limit
next_limit_bounds l s h k =
    ground (arith, halved_bounds s.limit h, increased_bounds l.max s.limit h k)

pub adjust_limit_bounds :
    (l : Limiter) (s : ChainState) (g : Bool) (now : ℕ)
    → 1 ≤ s.limit
    → s.limit ≤ l.max
    → (1 ≤ (adjust l s g now).1.limit) × ((adjust l s g now).1.limit ≤ l.max)
unfolding adjust
adjust_limit_bounds l s g now h k = ground (arith, next_limit_bounds l s h k)

-- A limit below the cap grows by at least one, and by at most a fifth or one.
pub increased_grows :
    (m n : ℕ) → 1 ≤ n → n < m → (n < increased m n) × (increased m n * 5 ≤ n * 6 + 5)
unfolding increased
increased_grows m n h k = ground arith

-- The moving average stays between 0 and any bound on the latencies whose fivefold fits an int64.
pub ewma_bounds :
    (s : ChainState) (o : Outcome) (b : ℕ)
    → b * 5 < 2 ^ 63
    → pos 0 ≤ℤ s.latency_ewma
    → s.latency_ewma ≤ℤ pos b
    → pos 0 ≤ℤ o.latency
    → o.latency ≤ℤ pos b
    → (pos 0 ≤ℤ (update_stats s o).latency_ewma) × ((update_stats s o).latency_ewma ≤ℤ pos b)
unfolding update_stats add64 mul64 wrap64
ewma_bounds s o b small low high low' high' = ground arith
