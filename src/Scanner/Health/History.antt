-- ===== src/Scanner/Health/History.antt =====
-- The tracker against the history of its calls: the calls of a chain since its last success decide
-- its state, and each outage raises one alert.
use wallet_scan.Prelude.{
  ℕ, suc, ◌≤◌, ◌≡◌, refl, ◌∙◌, Bool, true, false, not, ◌&&◌, Option, none, some, List, [], ◌∷◌,
  arith, ◌↔◌, ◌==◌, if◌then◌else◌, ltb,
}
use wallet_scan.Prelude.Int.{ℤ, pos, leb_ℤ}
use wallet_scan.Prelude.Texts.{Text, text_eq, text_beq_iff}
use wallet_scan.Prelude.Maps.{lookup, lookup-insert}
use wallet_scan.Scanner.Health.{
  HealthState, HealthTracker, new_health_tracker, healthy, state, put, failed_once, failure,
  success, is_unhealthy, take_alert,
}

-- A call of the tracker.
pub data Call : Type 0 where
  failed : Text → Call
  succeeded : Text → Call
  asked : Text → Call
  alerted : Text → Call

unfoldable pub step : HealthTracker → Call → HealthTracker
step h (failed c) = (failure h c).1
step h (succeeded c) = (success h c).1
step h (asked c) = (is_unhealthy h c).1
step h (alerted c) = (take_alert h c).2

-- The tracker after a history, the newest call first.
unfoldable pub after : ℤ → List Call → HealthTracker
after threshold [] = new_health_tracker threshold
after threshold (c ∷ cs) = step (after threshold cs) c

-- The failures of a chain since its last success.
unfoldable pub streak : Text → List Call → ℕ
streak name [] = 0
streak name (failed c ∷ cs) = let n = streak name cs in if c == name then suc n else n
streak name (succeeded c ∷ cs) = let n = streak name cs in if c == name then 0 else n
streak name (asked c ∷ cs) = streak name cs
streak name (alerted c ∷ cs) = streak name cs

-- At least one failure since the last success, and as many as the threshold.
unfoldable pub is_down : ℤ → Text → List Call → Bool
is_down threshold name cs = ltb 0 (streak name cs) && leb_ℤ threshold (pos (streak name cs))

-- The alerts of a chain since its last success: the calls of `TakeAlert` that returned true.
unfoldable pub alerts : ℤ → Text → List Call → ℕ
alerts threshold name [] = 0
alerts threshold name (failed c ∷ cs) = alerts threshold name cs
alerts threshold name (succeeded c ∷ cs) =
    let n = alerts threshold name cs in if c == name then 0 else n
alerts threshold name (asked c ∷ cs) = alerts threshold name cs
alerts threshold name (alerted c ∷ cs) =
    let n = alerts threshold name cs in
    if c == name && (take_alert (after threshold cs) c).0 then suc n else n

-- Whether `TakeAlert` was called for a chain that was down, since its last success.
unfoldable pub is_reported : ℤ → Text → List Call → Bool
is_reported threshold name [] = false
is_reported threshold name (failed c ∷ cs) = is_reported threshold name cs
is_reported threshold name (succeeded c ∷ cs) =
    let b = is_reported threshold name cs in if c == name then false else b
is_reported threshold name (asked c ∷ cs) = is_reported threshold name cs
is_reported threshold name (alerted c ∷ cs) =
    let b = is_reported threshold name cs in
    if c == name && is_down threshold name cs then true else b

abbrev pub or_healthy : Option HealthState → HealthState
or_healthy none = healthy
or_healthy (some s) = s

-- The state that `state` reads.
abbrev pub state_of : Text → HealthTracker → HealthState
state_of name h = or_healthy (lookup name h.states)

state_value : (h : HealthTracker) (c : Text) → (state h c).0 ≡ state_of c h
unfolding state
state_value h c = ground arith

state_keeps : (h : HealthTracker) (c name : Text) → state_of name (state h c).1 ≡ state_of name h
unfolding state
state_keeps h c name = ground (arith, text_beq_iff c name, lookup-insert c name healthy h.states)

state_threshold : (h : HealthTracker) (c : Text) → (state h c).1.threshold ≡ h.threshold
unfolding state
state_threshold h c = ground arith

put_value :
    (h : HealthTracker) (c name : Text) (s : HealthState)
    → state_of name (put h c s) ≡ (if c == name then s else state_of name h)
put_value h c name s = ground (arith, lookup-insert c name s h.states)

pub step_threshold : (h : HealthTracker) (c : Call) → (step h c).threshold ≡ h.threshold
unfolding step failure success is_unhealthy take_alert
step_threshold h (failed c) = state_threshold h c
step_threshold h (succeeded c) = state_threshold h c
step_threshold h (asked c) = state_threshold h c
step_threshold h (alerted c) = ground (arith, state_threshold h c)

after_threshold : (t : ℤ) (cs : List Call) → (after t cs).threshold ≡ t
unfolding after new_health_tracker
after_threshold t [] = refl
after_threshold t (c ∷ cs) = step_threshold (after t cs) c ∙ after_threshold t cs

-- The state that the history describes.
abbrev pub described : ℤ → Text → List Call → HealthState
described t name cs = record {
  failures = streak name cs;
  unhealthy = is_down t name cs;
  alert_sent = is_reported t name cs;
}

-- What each call does to the state of a chain: nothing to the other chains.
step_failed :
    (h : HealthTracker) (c name : Text)
    → state_of name (step h (failed c))
      ≡ (if c == name then failed_once h.threshold (state_of c h) else state_of name h)
unfolding step failure
step_failed h c name =
    let (s, h') = state h c in
    ground (
      arith,
      put_value h' c name (failed_once h.threshold s),
      state_value h c,
      state_keeps h c name,
    )

step_succeeded :
    (h : HealthTracker) (c name : Text)
    → state_of name (step h (succeeded c)) ≡ (if c == name then healthy else state_of name h)
unfolding step success
step_succeeded h c name =
    let (s, h') = state h c in ground (arith, put_value h' c name healthy, state_keeps h c name)

step_asked :
    (h : HealthTracker) (c name : Text) → state_of name (step h (asked c)) ≡ state_of name h
unfolding step is_unhealthy
step_asked h c name = state_keeps h c name

step_alerted :
    (h : HealthTracker) (c name : Text)
    → state_of name (step h (alerted c)) ≡ (
        if c == name && (state_of c h).unhealthy
        then record (state_of name h) { alert_sent = true }
        else state_of name h)
unfolding step take_alert
step_alerted h c name =
    let (s, h') = state h c in
    ground (
      arith,
      put_value h' c name (record s { alert_sent = true }),
      state_value h c,
      state_keeps h c name,
      text_beq_iff c name,
    )

-- One call more, where the state of each chain is as the history says.
module _ (t : ℤ) (name : Text) (cs : List Call) (h : HealthTracker) (limit : h.threshold ≡ t)
    (known : state_of name h ≡ described t name cs) where
  described_failed :
      (c : Text) → state_of name (step h (failed c)) ≡ described t name (failed c ∷ cs)
  unfolding streak is_down is_reported failed_once
  described_failed c = ground (arith, step_failed h c name, text_beq_iff c name)

  described_succeeded :
      (c : Text) → state_of name (step h (succeeded c)) ≡ described t name (succeeded c ∷ cs)
  unfolding streak is_down is_reported
  described_succeeded c = ground (arith, step_succeeded h c name)

  described_asked : (c : Text) → state_of name (step h (asked c)) ≡ described t name (asked c ∷ cs)
  unfolding streak is_down is_reported
  described_asked c = step_asked h c name ∙ known

  described_alerted :
      (c : Text) → state_of name (step h (alerted c)) ≡ described t name (alerted c ∷ cs)
  unfolding streak is_down is_reported
  described_alerted c = ground (arith, step_alerted h c name, text_beq_iff c name)

-- At any point of any history the tracker holds, for each chain, exactly what the calls since that
-- chain's last success say: how many failures there were, whether they reached the threshold, and
-- whether an alert was taken. Calls for other chains do not matter.
pub after-described :
    (t : ℤ) (name : Text) (cs : List Call) → state_of name (after t cs) ≡ described t name cs
unfolding after
after-described t name [] = unfold streak is_down is_reported new_health_tracker lookup in refl
after-described t name (failed c ∷ cs) =
    described_failed t name cs (after t cs) (after_threshold t cs) (after-described t name cs) c
after-described t name (succeeded c ∷ cs) =
    described_succeeded t name cs (after t cs) (after_threshold t cs) (after-described t name cs) c
after-described t name (asked c ∷ cs) =
    described_asked t name cs (after t cs) (after_threshold t cs) (after-described t name cs) c
after-described t name (alerted c ∷ cs) =
    described_alerted t name cs (after t cs) (after_threshold t cs) (after-described t name cs) c

-- `TakeAlert` returns true exactly when the chain is down and no alert was taken since its last
-- success.
take_alert_lem :
    (t : ℤ) (name : Text) (cs : List Call)
    → (take_alert (after t cs) name).0 ≡ is_down t name cs && not (is_reported t name cs)
unfolding take_alert
take_alert_lem t name cs = ground (arith, state_value (after t cs) name, after-described t name cs)

alerts_exact :
    (t : ℤ) (name : Text) (cs : List Call)
    → alerts t name cs ≡ (if is_reported t name cs then 1 else 0)
unfolding alerts is_reported
alerts_exact t name [] = refl
alerts_exact t name (failed c ∷ cs) = alerts_exact t name cs
alerts_exact t name (succeeded c ∷ cs) = ground (arith, alerts_exact t name cs)
alerts_exact t name (asked c ∷ cs) = alerts_exact t name cs
alerts_exact t name (alerted c ∷ cs) =
    ground (arith, take_alert_lem t c cs, alerts_exact t name cs, text_beq_iff c name)

-- An outage raises one alert: since a chain's last success `TakeAlert` has returned true at most
-- once, and exactly once if it was called while the chain was down.
pub one_alert :
    (t : ℤ) (name : Text) (cs : List Call)
    → (alerts t name cs ≤ 1) × ((alerts t name cs ≡ 1) ↔ (is_reported t name cs ≡ true))
one_alert t name cs = ground (arith, alerts_exact t name cs)
