-- ===== src/Adaptive/State.antt =====
-- The state of the limiter, internal/adaptive/limiter.go, how `New` makes it, and its table of chains.
use wallet_scan.Prelude.{ℕ, ◌*◌, Bool, none, some, [], ltb, if◌then◌else◌}
use wallet_scan.Prelude.Int.{ℤ, pos, pos_part, ltb_ℤ, leb_ℤ}
use wallet_scan.Prelude.Texts.{Text}
use wallet_scan.Prelude.Maps.{Map, lookup, insert}

abbrev pub millisecond : ℕ
millisecond = 1000000

abbrev pub second : ℕ
second = 1000 * millisecond

pub record Config : Type 0 where
  pub initial_concurrency : ℤ
  pub max_concurrency : ℤ
  pub queue_wait : ℤ
  pub adjust_interval : ℤ
  pub target_latency : ℤ

pub record Outcome : Type 0 where
  pub chain : Text
  pub retryable : Bool
  pub latency : ℤ

pub record ChainSnapshot : Type 0 where
  pub recommended_concurrency : ℕ
  pub active_in_flight : ℕ

pub record Snapshot : Type 0 where
  pub max_in_flight : ℕ
  pub recommended_concurrency : ℕ
  pub active_in_flight : ℕ
  pub queue_wait_milliseconds : ℤ
  pub chains : Map ChainSnapshot

pub record ChainState : Type 0 where
  pub limit : ℕ
  pub active : ℕ
  pub samples : ℕ
  pub failures : ℕ
  pub latency_ewma : ℤ
  pub last_adjustment : ℕ

pub record Limiter : Type 0 where
  pub max : ℕ
  pub global_limit : ℕ
  pub global_active : ℕ
  pub queue_wait : ℤ
  pub interval : ℤ
  pub target : ℤ
  pub chains : Map ChainState
  pub global : ChainState

-- `chainState{limit: limit, lastAdjustment: now}`.
unfoldable pub fresh : ℕ → ℕ → ChainState
fresh limit now = record {
  limit = limit;
  active = 0;
  samples = 0;
  failures = 0;
  latency_ewma = pos 0;
  last_adjustment = now;
}

-- `config.MaxConcurrency` after its guard, and the initial value after its two. Both are at least
-- 1, so nothing is lost when they become numbers.
unfoldable pub clamped_max : Config → ℕ
clamped_max config =
    if ltb_ℤ config.max_concurrency (pos 1) then 1 else pos_part config.max_concurrency

unfoldable pub clamped_initial : Config → ℕ
unfolding clamped_max
clamped_initial config =
    let initial =
      if ltb_ℤ config.initial_concurrency (pos 1) then 1 else pos_part config.initial_concurrency in
    if ltb (clamped_max config) initial then clamped_max config else initial

unfoldable pub or_default : ℤ → ℕ → ℤ
or_default value fallback = if leb_ℤ value (pos 0) then pos fallback else value

unfoldable pub new : Config → ℕ → Limiter
unfolding clamped_max clamped_initial or_default fresh
new config now = record {
  max = clamped_max config;
  global_limit = clamped_initial config;
  global_active = 0;
  queue_wait = or_default config.queue_wait (250 * millisecond);
  interval = or_default config.adjust_interval (5 * second);
  target = or_default config.target_latency (800 * millisecond);
  chains = [];
  global = fresh (clamped_initial config) now;
}

-- The state of a chain, made with the current global limit at its first mention.
unfoldable pub chain : Limiter → Text → ℕ → ChainState × Limiter
unfolding fresh
chain l name now = elim (lookup name l.chains) [
  | some state ↦ (state, l)
  | none ↦
      let state = fresh l.global_limit now in
      (state, record l { chains = insert name state l.chains })
]

-- A write through the pointer that `chain` returned.
abbrev pub store : Limiter → Text → ChainState → Limiter
store l name state = record l { chains = insert name state l.chains }

unfoldable pub register : Limiter → Text → ℕ → Limiter
register l name now = (chain l name now).1
