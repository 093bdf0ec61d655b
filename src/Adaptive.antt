-- ===== src/Adaptive.antt =====
-- The adaptive in-flight limiter, internal/adaptive/limiter.go. The mutex makes each method one
-- step on the limiter's state; `now` is the monotonic clock, in nanoseconds, as that step reads it.
-- A duration is an int64 of nanoseconds. Limits and counts are Go ints that never fall below 0.
mod Tests
mod State
pub mod Acquire
pub mod Outcomes
pub mod Adjust
pub mod Events
pub mod Windows
pub mod Leases
pub mod Methods
pub mod HardCap
pub mod QueueWait
unfoldable pub use State.*
use wallet_scan.Prelude.{
  ℕ, ◌+◌, ◌-◌, ◌*◌, ◌/◌, Bool, true, false, ◌&&◌, ◌||◌, Option, none, some, [], ◌∷◌, ltb, eqb,
  if◌then◌else◌, List, map,
}
use wallet_scan.Prelude.Int.{ℤ, pos, pos_part, sub_ℕ, ltb_ℤ, leb_ℤ, eqb_ℤ, quot_ℤ, add64, mul64}
use wallet_scan.Prelude.Texts.{Text}
use wallet_scan.Prelude.Maps.{Map, lookup, insert}

unfoldable pub update_stats : ChainState → Outcome → ChainState
update_stats state outcome =
    let counted = record state {
      samples = state.samples + 1;
      failures = if outcome.retryable then state.failures + 1 else state.failures;
    } in
    if eqb_ℤ state.latency_ewma (pos 0)
    then record counted { latency_ewma = outcome.latency }
    else record counted {
      latency_ewma = quot_ℤ (add64 (mul64 state.latency_ewma (pos 4)) outcome.latency) 5;
    }

-- `state.samples < 10 || time.Since(state.lastAdjustment) < l.interval`.
unfoldable pub is_early : Limiter → ChainState → ℕ → Bool
is_early l state now = ltb state.samples 10 || ltb_ℤ (sub_ℕ now state.last_adjustment) l.interval

-- `state.limit / 2`, and at least 1.
unfoldable pub halved : ℕ → ℕ
halved limit = if ltb (limit / 2) 1 then 1 else limit / 2

-- `state.limit / 5` more, at least 1, and at most the hard cap.
unfoldable pub increased : ℕ → ℕ → ℕ
increased max limit =
    let increase = if ltb (limit / 5) 1 then 1 else limit / 5 in
    if ltb max (limit + increase) then max else limit + increase

unfoldable pub next_limit : Limiter → ChainState → ℕ
next_limit l state =
    if ltb 0 state.failures || ltb_ℤ (mul64 l.target (pos 2)) state.latency_ewma
    then halved state.limit
    else if leb_ℤ state.latency_ewma l.target
    then increased l.max state.limit
    else state.limit

-- The limiter changes only for the global state, and only past the early return.
unfoldable pub adjust : Limiter → ChainState → Bool → ℕ → Limiter × ChainState
adjust l state global now = if is_early l state now then (l, state) else (
  if global then record l { global_limit = next_limit l state } else l,
  record state { limit = next_limit l state; samples = 0; failures = 0; last_adjustment = now },
)

-- What `release` does before the two calls of `adjust`.
unfoldable pub give_back : Limiter → Outcome → ℕ → ChainState × Limiter
give_back l outcome now =
    let (state, l') = chain l outcome.chain now in
    let state' = record state {
      active = if ltb 0 state.active then state.active - 1 else state.active;
    } in
    (
      update_stats state' outcome,
      record l' {
        global_active = if ltb 0 l'.global_active then l'.global_active - 1 else l'.global_active;
        global = update_stats l'.global outcome;
      },
    )

unfoldable pub release : Limiter → Outcome → ℕ → Limiter
release l outcome now =
    let (state, l') = give_back l outcome now in
    let (adjusted, global) = adjust l' l'.global true now in
    let (l'', state') = adjust (record adjusted { global = global }) state false now in
    store l'' outcome.chain state'

-- `l.globalActive < l.globalLimit && state.active < state.limit`.
unfoldable pub has_room : Limiter → ChainState → Bool
has_room l state = ltb l.global_active l.global_limit && ltb state.active state.limit

-- One pass through the locked part of the loop in `Acquire`.
unfoldable pub attempt : Limiter → Text → ℕ → Bool × Limiter
attempt l name now =
    let (state, l') = chain l name now in
    if has_room l' state
    then (
      true,
      store (record l' { global_active = l'.global_active + 1 }) name
          (record state { active = state.active + 1 }),
    )
    else (false, l')

unfoldable pub retry_after : Limiter → Text → ℕ → ℤ × Limiter
retry_after l name now =
    let (state, l') = chain l name now in
    (if ltb state.limit 1 || ltb l'.global_limit 1 then pos second else pos (250 * millisecond), l')

unfoldable pub chain_snapshot : Text × ChainState → Text × ChainSnapshot
chain_snapshot (name, state) =
    (name, record { recommended_concurrency = state.limit; active_in_flight = state.active })

unfoldable pub snapshot : Limiter → Snapshot
unfolding chain_snapshot
snapshot l = record {
  max_in_flight = l.max;
  recommended_concurrency = l.global_limit;
  active_in_flight = l.global_active;
  queue_wait_milliseconds = quot_ℤ l.queue_wait millisecond;
  chains = map chain_snapshot l.chains;
}
