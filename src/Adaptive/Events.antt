-- ===== src/Adaptive/Events.antt =====
-- What the callers of the limiter do, one call of a method after another, and what each call does to the
-- state of one chain.
pub mod Idle
use wallet_scan.Prelude.{
  ℕ, ◌-◌, ◌≡◌, refl, ◌∙◌, ap, Bool, true, false, some, List, [], ◌∷◌, arith, ltb, if◌then◌else◌,
  Bool-cases, inl, inr,
}
use wallet_scan.Prelude.Texts.{Text, text_eq, text_beq_iff}
use wallet_scan.Prelude.Maps.{lookup, lookup-insert}
use wallet_scan.Adaptive.{
  Limiter, ChainState, Outcome, chain, register, update_stats, adjust, is_early, next_limit,
  give_back, release, attempt, retry_after,
}

-- A call of a method, with the clock that it reads.
pub data Event : Type 0 where
  mentioned : Text → ℕ → Event
  tried : Text → ℕ → Event
  advised : Text → ℕ → Event
  ended : Outcome → ℕ → Event

unfoldable pub apply : Limiter → Event → Limiter
apply l (mentioned name now) = register l name now
apply l (tried name now) = (attempt l name now).1
apply l (advised name now) = (retry_after l name now).1
apply l (ended outcome now) = release l outcome now

unfoldable pub apply_all : Limiter → List Event → Limiter
apply_all l [] = l
apply_all l (e ∷ es) = apply_all (apply l e) es

-- What `New` sets for good.
pub record IsTuned (l m : Limiter) : Type 0 where
  pub max : m.max ≡ l.max
  pub interval : m.interval ≡ l.interval
  pub target : m.target ≡ l.target

pub IsTuned-trans : {l m n : Limiter} → IsTuned l m → IsTuned m n → IsTuned l n
IsTuned-trans h k = record {
  max = k.max ∙ h.max;
  interval = k.interval ∙ h.interval;
  target = k.target ∙ h.target;
}

chain-IsTuned : (l : Limiter) (t : Text) (now : ℕ) → IsTuned l (chain l t now).1
unfolding chain
chain-IsTuned l t now = record {
  max = ground arith;
  interval = ground arith;
  target = ground arith;
}

attempt-IsTuned : (l : Limiter) (t : Text) (now : ℕ) → IsTuned l (attempt l t now).1
unfolding attempt
attempt-IsTuned l t now =
    let h = chain-IsTuned l t now in
    record {
      max = ground (arith, h.max);
      interval = ground (arith, h.interval);
      target = ground (arith, h.target);
    }

-- The limiter in which `release` adjusts the chain.
give_back-IsTuned : (l : Limiter) (o : Outcome) (now : ℕ) → IsTuned l (give_back l o now).1
unfolding give_back
give_back-IsTuned l o now =
    let h = chain-IsTuned l o.chain now in
    record { max = h.max; interval = h.interval; target = h.target }

adjust-IsTuned :
    (l : Limiter) (s : ChainState) (g : Bool) (now : ℕ) → IsTuned l (adjust l s g now).0
unfolding adjust
adjust-IsTuned l s g now = record {
  max = ground arith;
  interval = ground arith;
  target = ground arith;
}

release-IsTuned : (l : Limiter) (o : Outcome) (now : ℕ) → IsTuned l (release l o now)
unfolding release
release-IsTuned l o now =
    let (s, l') = give_back l o now in
    let h = IsTuned-trans (give_back-IsTuned l o now) (adjust-IsTuned l' l'.global true now) in
    let (adjusted, global) = adjust l' l'.global true now in
    let k = adjust-IsTuned (record adjusted { global = global }) s false now in
    record { max = k.max ∙ h.max; interval = k.interval ∙ h.interval; target = k.target ∙ h.target }

pub apply-IsTuned : (l : Limiter) (e : Event) → IsTuned l (apply l e)
unfolding apply register retry_after
apply-IsTuned l (mentioned t now) = chain-IsTuned l t now
apply-IsTuned l (tried t now) = attempt-IsTuned l t now
apply-IsTuned l (advised t now) = chain-IsTuned l t now
apply-IsTuned l (ended o now) = release-IsTuned l o now

-- A request of the chain ends: its slot is given back, it is counted, and the limit may be adjusted.
abbrev pub tick : Limiter → ChainState → Outcome → ℕ → ChainState
tick l s o now =
    (adjust l
      (update_stats (record s { active = if ltb 0 s.active then s.active - 1 else s.active }) o)
      false now).1

is_early-same :
    (l m : Limiter) (s : ChainState) (now : ℕ) → IsTuned l m → is_early m s now ≡ is_early l s now
unfolding is_early
is_early-same l m s now h = rw (h.interval) refl

next_limit-same : (l m : Limiter) (s : ChainState) → IsTuned l m → next_limit m s ≡ next_limit l s
unfolding next_limit
next_limit-same l m s h = rw (h.max, h.target) refl

adjust-same :
    (l m : Limiter) (s : ChainState) (now : ℕ)
    → IsTuned l m
    → (adjust m s false now).1 ≡ (adjust l s false now).1
unfolding adjust
adjust-same l m s now h = elim (Bool-cases (is_early l s now)) [
  | inl early ↦ rw (is_early-same l m s now h, early) refl
  | inr late ↦ rw (is_early-same l m s now h, late, next_limit-same l m s h) refl
]

pub tick-same :
    (l m : Limiter) (s : ChainState) (o : Outcome) (now : ℕ)
    → IsTuned l m
    → tick m s o now ≡ tick l s o now
tick-same l m s o now h = adjust-same l m _ now h

pub chain-known :
    (l : Limiter) (t : Text) (now : ℕ) (s : ChainState)
    → lookup t l.chains ≡ some s
    → chain l t now ≡ (s, l)
unfolding chain
chain-known l t now s e = rw (e, chain) refl

pub release_state :
    (l : Limiter) (o : Outcome) (now : ℕ) (s : ChainState)
    → lookup o.chain l.chains ≡ some s
    → lookup o.chain (release l o now).chains ≡ some (tick l s o now)
unfolding release
release_state l o now s e =
    let (s', l') = give_back l o now in
    let (adjusted, global) = adjust l' l'.global true now in
    let l'' = record adjusted { global = global } in
    let tuned = IsTuned-trans (give_back-IsTuned l o now) (adjust-IsTuned l' l'.global true now) in
    let same =
      adjust-same l l'' s' now
        (record { max = tuned.max; interval = tuned.interval; target = tuned.target }) in
    let state : s'
        ≡ update_stats (record s { active = if ltb 0 s.active then s.active - 1 else s.active }) o =
      unfold give_back in rw (chain-known l o.chain now s e) refl in
    ground (
      arith,
      lookup-insert o.chain o.chain (adjust l'' s' false now).1 (adjust l'' s' false now).0.chains,
      text_beq_iff o.chain o.chain,
      ap (λ x. some (adjust l x false now).1) state,
      ap some same,
    )
