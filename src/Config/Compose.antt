-- ===== src/Config/Compose.antt =====
-- The limiter that `runService` of cmd/wallet-scan/main.go makes from a loaded configuration.
use wallet_scan.Prelude.{ℕ, ◌≤◌, ◌≡◌, Bool, arith}
use wallet_scan.Prelude.Int.{pos}
use wallet_scan.Prelude.Texts.{Text}
use wallet_scan.Config.{Config, Env, loaded, load}
use wallet_scan.Config.Bounds.{IsApiValid, load_valid}
use wallet_scan.Adaptive
use wallet_scan.Adaptive.{Limiter, new, clamped_max, clamped_initial, or_default, increased}

-- `adaptive.Config{…}` in `runService`.
unfoldable pub limiter_config : Config → Adaptive.Config
limiter_config c = record {
  initial_concurrency = c.api_initial_concurrency;
  max_concurrency = c.api_max_in_flight;
  queue_wait = c.api_queue_wait;
  adjust_interval = c.api_adjust_interval;
  target_latency = c.api_target_latency;
}

valid_limiter :
    (c : Config) (now : ℕ)
    → IsApiValid c
    → let l = new (limiter_config c) now in
      (pos l.max ≡ c.api_max_in_flight)
      × (pos l.global_limit ≡ c.api_initial_concurrency)
      × (l.queue_wait ≡ c.api_queue_wait)
      × (l.interval ≡ c.api_adjust_interval)
      × (l.target ≡ c.api_target_latency)
      × (l.max ≤ 10000)
unfolding limiter_config new clamped_max clamped_initial or_default
valid_limiter c now v = ground arith

-- The guards of `adaptive.New` change nothing in a configuration that loads: the limiter has the hard
-- cap, the first limit and the three durations that were configured, and a cap of 10000 at the most.
pub loaded_limiter :
    (p : Text → Bool) (env : Env) (c : Config) (now : ℕ)
    → load p env ≡ loaded c
    → let l = new (limiter_config c) now in
      (pos l.max ≡ c.api_max_in_flight)
      × (pos l.global_limit ≡ c.api_initial_concurrency)
      × (l.queue_wait ≡ c.api_queue_wait)
      × (l.interval ≡ c.api_adjust_interval)
      × (l.target ≡ c.api_target_latency)
      × (l.max ≤ 10000)
loaded_limiter p env c now h = valid_limiter c now (load_valid p env c h).3
