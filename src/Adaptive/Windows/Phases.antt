-- ===== src/Adaptive/Windows/Phases.antt =====
-- What a batch does to the statistics of its chain: it is in one of two phases, before its first
-- adjustment in the batch and after it.
use wallet_scan.Prelude.{
  ℕ, suc, ◌+◌, ◌-◌, ◌≤◌, ◌≡◌, refl, sym, ◌∙◌, ap, subst, Bool, true, false, ◌⊎◌, some, List, [],
  ◌∷◌, arith, length, ltb, if◌then◌else◌, Bool-cases, inl, inr,
}
use wallet_scan.Prelude.Int.{ℤ, ◌≤ℤ◌, sub_ℕ}
use wallet_scan.Prelude.Texts.{Text, text_eq, text_beq_iff}
use wallet_scan.Prelude.Maps.{lookup}
use wallet_scan.Adaptive.{
  Limiter, ChainState, Outcome, update_stats, adjust, is_early, next_limit, release,
}
use wallet_scan.Adaptive.Events.{
  Event, mentioned, tried, advised, ended, apply, apply_all, IsTuned, IsTuned-trans, apply-IsTuned,
  tick, tick-same, release_state,
}
use wallet_scan.Adaptive.Events.Idle.{ends_one, apply-HasIdle, IsIdle}
use wallet_scan.Adaptive.Windows.Batches.{
  Batch, IsFull, AreFull, after, after_all, time_of, ended_count, all_by, passes, all_ended, is_all,
  are_all,
}

-- The state of a chain after a request that ends, before its adjustment.
abbrev pub counted : ChainState → Outcome → ChainState
counted s o =
    update_stats (record s { active = if ltb 0 s.active then s.active - 1 else s.active }) o

abbrev pub Stats : Type 1
Stats = ℕ → ℕ → ℤ → Type 0

abbrev pub Says : Stats → ChainState → Type 0
Says P s = P s.limit s.failures s.latency_ewma

adjust_early :
    (l : Limiter) (s : ChainState) (now : ℕ)
    → is_early l s now ≡ true
    → (adjust l s false now).1 ≡ s
unfolding adjust
adjust_early l s now h = rw h refl

adjust_late :
    (l : Limiter) (s : ChainState) (now : ℕ)
    → is_early l s now ≡ false
    → (adjust l s false now).1
      ≡ record s { limit = next_limit l s; samples = 0; failures = 0; last_adjustment = now }
unfolding adjust
adjust_late l s now h = rw h refl

is_late :
    (l : Limiter) (s : ChainState) (finish start : ℕ)
    → 10 ≤ s.samples
    → l.interval ≤ℤ sub_ℕ finish start
    → s.last_adjustment ≤ start
    → is_early l s finish ≡ false
unfolding is_early
is_late l s finish start many long t = ground arith

counted_frame :
    (s : ChainState) (o : Outcome)
    → ((counted s o).samples ≡ s.samples + 1) × ((counted s o).last_adjustment ≡ s.last_adjustment)
unfolding update_stats
counted_frame s o = ground arith

-- Counting a request keeps each phase, and an adjustment leads from the first phase to the second, and
-- from the second to itself.
pub record IsDriven (l : Limiter) (test : Outcome → Bool) (Before After : Stats) : Type 0 where
  pub counts_before :
      (s : ChainState) (o : Outcome) → test o ≡ true → Says Before s → Says Before (counted s o)
  pub counts_after :
      (s : ChainState) (o : Outcome) → test o ≡ true → Says After s → Says After (counted s o)
  pub moves_before :
      (s : ChainState) (o : Outcome)
      → test o ≡ true
      → Says Before s
      → After (next_limit l (counted s o)) 0 (counted s o).latency_ewma
  pub moves_after :
      (s : ChainState) (o : Outcome)
      → test o ≡ true
      → Says After s
      → After (next_limit l (counted s o)) 0 (counted s o).latency_ewma

module _ (l : Limiter) (test : Outcome → Bool) (Before After : Stats)
    (d : IsDriven l test Before After) (name : Text) (start finish : ℕ) where
  -- Adjusted in this batch, or not yet, with `n` requests counted.
  abbrev Phase : ℕ → ChainState → Type 0
  Phase n s =
      (Says After s × (s.last_adjustment ≤ finish))
      ⊎ (Says Before s × (s.last_adjustment ≤ start) × (n ≤ s.samples))

  tick_after :
      (s : ChainState) (o : Outcome) (now : ℕ)
      → test o ≡ true
      → now ≤ finish
      → Says After s × (s.last_adjustment ≤ finish)
      → Says After (tick l s o now) × ((tick l s o now).last_adjustment ≤ finish)
  tick_after s o now good by (a, t) =
      let P : ChainState → Type 0 = λ x. Says After x × (x.last_adjustment ≤ finish) in
      elim (Bool-cases (is_early l (counted s o) now)) [
        | inl early ↦
            subst P (sym (adjust_early l (counted s o) now early))
              (d.counts_after s o good a, omega (arith, counted_frame s o, t))
        | inr late ↦
            subst P (sym (adjust_late l (counted s o) now late)) (d.moves_after s o good a, by)
      ]

  tick_before :
      (n : ℕ) (s : ChainState) (o : Outcome) (now : ℕ)
      → test o ≡ true
      → now ≤ finish
      → Says Before s × (s.last_adjustment ≤ start) × (n ≤ s.samples)
      → Phase (suc n) (tick l s o now)
  tick_before n s o now good by (b, t, k) =
      let frame = counted_frame s o in
      elim (Bool-cases (is_early l (counted s o) now)) [
        | inl early ↦
            subst (Phase (suc n)) (sym (adjust_early l (counted s o) now early))
              (inr (d.counts_before s o good b, omega (arith, frame, t), omega (arith, frame, k)))
        | inr late ↦
            subst (Phase (suc n)) (sym (adjust_late l (counted s o) now late))
              (inl (d.moves_before s o good b, by))
      ]

  tick-Phase :
      (n : ℕ) (s : ChainState) (o : Outcome) (now : ℕ)
      → test o ≡ true
      → now ≤ finish
      → Phase n s
      → Phase (suc n) (tick l s o now)
  tick-Phase n s o now good by (inl a) = inl (tick_after s o now good by a)
  tick-Phase n s o now good by (inr b) = tick_before n s o now good by b

  tick_last :
      (s : ChainState) (o : Outcome)
      → test o ≡ true
      → l.interval ≤ℤ sub_ℕ finish start
      → Phase 9 s
      → Says After (tick l s o finish) × ((tick l s o finish).last_adjustment ≤ finish)
  tick_last s o good long (inl a) = tick_after s o finish good (omega arith) a
  tick_last s o good long (inr (b, t, k)) =
      let frame = counted_frame s o in
      let late =
        is_late l (counted s o) finish start (omega (arith, frame, k)) long
          (omega (arith, frame, t)) in
      subst (λ x. Says After x × (x.last_adjustment ≤ finish))
        (sym (adjust_late l (counted s o) finish late)) (d.moves_before s o good b, omega arith)

  idle-Phase : (n : ℕ) (s t : ChainState) → IsIdle s t → Phase n s → Phase n t
  idle-Phase n s t h p = rw (h.limit, h.failures, h.latency, h.last, h.samples) p

  enough : (n : ℕ) (s : ChainState) → 9 ≤ n → Phase n s → Phase 9 s
  enough n s many (inl a) = inl a
  enough n s many (inr (b, t, k)) = inr (b, t, omega arith)

  -- The chain is known, and its state is in a phase.
  abbrev Holds : ℕ → Limiter → Type 0
  Holds n m = IsTuned l m × (s : ChainState) × (lookup name m.chains ≡ some s) × Phase n s

  Holds-other :
      (n : ℕ) (m : Limiter) (e : Event) → ends_one name e ≡ false → Holds n m → Holds n (apply m e)
  Holds-other n m e other (h, s, k, p) =
      let (t, k', idle) = apply-HasIdle m name e s other k in
      (IsTuned-trans h (apply-IsTuned m e), t, k', idle-Phase n s t idle p)

  release-tick :
      (m : Limiter) (o : Outcome) (now : ℕ) (s : ChainState)
      → IsTuned l m
      → o.chain ≡ name
      → lookup name m.chains ≡ some s
      → lookup name (release m o now).chains ≡ some (tick l s o now)
  release-tick m o now s h named k =
      let known : lookup o.chain m.chains ≡ some s =
        subst (λ x. lookup x m.chains ≡ some s) (sym named) k in
      subst (λ x. lookup x (release m o now).chains ≡ some (tick l s o now)) named
        (release_state m o now s known ∙ ap some (tick-same l m s o now h))

  Holds-ended :
      (n : ℕ) (m : Limiter) (e : Event)
      → ends_one name e ≡ true
      → passes test name e ≡ true
      → time_of e ≤ finish
      → Holds n m
      → Holds (suc n) (apply m e)
  unfolding apply
  Holds-ended n m (mentioned t now) own good by a = absurd (cc)
  Holds-ended n m (tried t now) own good by a = absurd (cc)
  Holds-ended n m (advised t now) own good by a = absurd (cc)
  Holds-ended n m (ended o now) own good by (h, s, k, p) = (
    IsTuned-trans h (apply-IsTuned m (ended o now)),
    tick l s o now,
    release-tick m o now s h ((text_beq_iff o.chain name).0 own) k,
    tick-Phase n s o now (ground arith) by p,
  )

  apply_all-Holds :
      (n : ℕ) (m : Limiter) (es : List Event)
      → all_by finish es ≡ true
      → all_ended test name es ≡ true
      → Holds n m
      → Holds (n + ended_count name es) (apply_all m es)
  unfolding apply_all ended_count all_by all_ended
  apply_all-Holds n m [] by good a = subst (λ k. Holds k m) (omega arith) a
  apply_all-Holds n m (e ∷ es) by good a =
      let by' : (time_of e ≤ finish) × (all_by finish es ≡ true) = ground arith in
      let good' : (passes test name e ≡ true) × (all_ended test name es ≡ true) = ground arith in
      elim (Bool-cases (ends_one name e)) [
        | inl own ↦ rw own (
            subst (λ k. Holds k (apply_all (apply m e) es)) (omega arith)
              (apply_all-Holds (suc n) (apply m e) es by'.1 good'.1
                (Holds-ended n m e own good'.0 by'.0 a)))
        | inr other ↦
            rw other (apply_all-Holds n (apply m e) es by'.1 good'.1 (Holds-other n m e other a))
      ]

-- The chain is known, last adjusted by an instant, and its statistics are as described.
abbrev pub Settled : Limiter → Text → Stats → ℕ → Limiter → Type 0
Settled l name P time m =
    IsTuned l m
    × (s : ChainState) × (lookup name m.chains ≡ some s)
    × Says P s
    × (s.last_adjustment ≤ time)

pub batch_lem :
    (l : Limiter) (test : Outcome → Bool) (Before After : Stats)
    → IsDriven l test Before After
    → (name : Text) (start : ℕ) (b : Batch) (m : Limiter) → IsFull name l.interval start b
    → is_all test name b ≡ true
    → Settled l name Before start m
    → Settled l name After b.finish (after m b)
unfolding after
batch_lem l test Before After d name start b m full good (h, s, k, p, t) =
    let ok : (all_ended test name b.earlier ≡ true) × (test b.last ≡ true) = ground arith in
    let (h', s', k', p') =
      apply_all-Holds l test Before After d name start b.finish 0 m b.earlier full.ordered ok.0
        (h, s, k, inr (p, t, omega arith)) in
    let phase =
      enough l test Before After d name start b.finish (0 + ended_count name b.earlier) s'
        (omega (arith, full.many)) p' in
    let done = tick_last l test Before After d name start b.finish s' b.last ok.1 full.long phase in
    (
      IsTuned-trans h' (apply-IsTuned (apply_all m b.earlier) (ended b.last b.finish)),
      tick l s' b.last b.finish,
      unfold apply in
          release-tick l test Before After d name start b.finish (apply_all m b.earlier) b.last
            b.finish s' h' full.own k',
      done.0,
      done.1,
    )

-- Each batch takes the statistics one stage down.
pub batches_lem :
    (l : Limiter) (test : Outcome → Bool) (Stage : ℕ → Stats)
    → ((k : ℕ) → IsDriven l test (Stage (suc k)) (Stage k))
    → (name : Text) (start : ℕ) (bs : List Batch) (m : Limiter) → AreFull name l.interval start bs
    → are_all test name bs ≡ true
    → Settled l name (Stage (length bs)) start m
    → (s : ChainState) × (lookup name (after_all m bs).chains ≡ some s) × Says (Stage 0) s
unfolding after_all are_all
batches_lem l test Stage d name start [] m full good (h, s, k, p, t) = (s, k, p)
batches_lem l test Stage d name start (b ∷ bs) m full good a =
    let ok : (is_all test name b ≡ true) × (are_all test name bs ≡ true) = ground arith in
    batches_lem l test Stage d name b.finish bs (after m b) full.1 ok.1 (
      batch_lem l test (Stage (suc (length bs))) (Stage (length bs)) (d (length bs)) name start b m
        full.0 ok.0 a)
