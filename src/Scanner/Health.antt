-- ===== src/Scanner/Health.antt =====
-- The health tracker, internal/scanner/health.go. The mutex makes each method one step on the state.
pub mod History
use wallet_scan.Prelude.{
  ℕ, ◌+◌, Bool, true, false, not, ◌||◌, Option, none, some, [], if◌then◌else◌,
}
use wallet_scan.Prelude.Int.{ℤ, pos, leb_ℤ}
use wallet_scan.Prelude.Texts.{Text}
use wallet_scan.Prelude.Maps.{Map, lookup, insert}

pub record HealthState : Type 0 where
  pub failures : ℕ
  pub unhealthy : Bool
  pub alert_sent : Bool

pub record HealthTracker : Type 0 where
  pub threshold : ℤ
  pub states : Map HealthState

unfoldable pub new_health_tracker : ℤ → HealthTracker
new_health_tracker threshold = record { threshold = threshold; states = [] }

abbrev pub healthy : HealthState
healthy = record { failures = 0; unhealthy = false; alert_sent = false }

-- The state of a chain, made at its first mention.
unfoldable pub state : HealthTracker → Text → HealthState × HealthTracker
state h chain = elim (lookup chain h.states) [
  | some s ↦ (s, h)
  | none ↦ (healthy, record h { states = insert chain healthy h.states })
]

-- A write through the pointer that `state` returned.
abbrev pub put : HealthTracker → Text → HealthState → HealthTracker
put h chain s = record h { states = insert chain s h.states }

unfoldable pub failed_once : ℤ → HealthState → HealthState
failed_once threshold s = record s {
  failures = s.failures + 1;
  unhealthy = if leb_ℤ threshold (pos (s.failures + 1)) then true else s.unhealthy;
}

unfoldable pub failure : HealthTracker → Text → Bool × HealthTracker
failure h chain =
    let (s, h') = state h chain in
    let s' = failed_once h.threshold s in (s'.unhealthy, put h' chain s')

unfoldable pub success : HealthTracker → Text → Bool × HealthTracker
success h chain =
    let (s, h') = state h chain in
    (s.unhealthy, put h' chain (record s { failures = 0; unhealthy = false; alert_sent = false }))

unfoldable pub is_unhealthy : HealthTracker → Text → Bool × HealthTracker
is_unhealthy h chain = let (s, h') = state h chain in (s.unhealthy, h')

unfoldable pub take_alert : HealthTracker → Text → Bool × ℕ × HealthTracker
take_alert h chain =
    let (s, h') = state h chain in
    if not s.unhealthy || s.alert_sent
    then (false, s.failures, h')
    else (true, s.failures, put h' chain (record s { alert_sent = true }))
