-- ===== src/Adaptive/Acquire.antt =====
-- The loop of `Acquire`: it passes the locked part again and again until it gets a slot, its queue
-- wait is over, or its request is cancelled. Between two passes other callers take steps.
use wallet_scan.Prelude.{
  ℕ, zero, suc, ◌+◌, ◌-◌, ◌*◌, ◌≤◌, ◌<◌, ◌≡◌, ◌≢◌, Bool, List, [], ◌∷◌, arith, length, ltb,
  if◌then◌else◌, Bool-cases, inl, inr, All, ◌||◌,
}
use wallet_scan.Prelude.Int.{ℤ, pos, pos_part, sub_ℕ, leb_ℤ}
use wallet_scan.Prelude.Texts.{Text, text_beq_iff}
use wallet_scan.Adaptive.{Limiter, attempt, retry_after, millisecond}
use wallet_scan.Adaptive.Leases.{
  IsBounded, chain_limit, chain_frame, held, held-cons, System, Reach, acquired, refused, asked,
  here, next,
}

-- One pass: the clock as it reads it, what the other callers do until this caller locks again, and
-- whether the request is cancelled while it waits.
pub record Round : Type 0 where
  pub now : ℕ
  pub others : System → System
  pub cancelled : Bool

-- `waiting` is an answer that has not come yet: the rounds are over.
pub data Answer : Type 0 where
  granted : Answer
  rejected : ℤ → Answer
  waiting : Answer

-- How long a caller sleeps between two passes: until the deadline, but 10 ms at most.
unfoldable pub pause : ℕ → ℕ → ℕ
pause deadline now =
    let wait = deadline - now in if ltb (10 * millisecond) wait then 10 * millisecond else wait

unfoldable pub reject : Text → ℕ → System → Answer × System
reject name now s =
    let (delay, l) = retry_after s.limiter name now in (rejected delay, record s { limiter = l })

-- The closure that a granted call returns is the slot, `name ∷ s.leases`.
unfoldable pub loop : ℕ → Text → List Round → System → Answer × System
loop deadline name [] s = (waiting, s)
loop deadline name (r ∷ rs) s =
    let (taken, l) = attempt s.limiter name r.now in
    let after = r.others (record s { limiter = l }) in
    let again = loop deadline name rs after in
    if taken
    then (granted, record { limiter = l; leases = name ∷ s.leases })
    else if leb_ℤ (sub_ℕ deadline r.now) (pos 0) || r.cancelled
    then reject name r.now after
    else again

unfoldable pub acquire : ℕ → Text → List Round → System → Answer × System
acquire now name rs s = loop (now + pos_part s.limiter.queue_wait) name rs s

-- The clock of a caller that sleeps between its passes, from `now` on.
abbrev pub Paced : ℕ → ℕ → List Round → Type 0
Paced deadline now [] = Unit
Paced deadline now (r ∷ rs) = (now ≤ r.now) × Paced deadline (r.now + pause deadline r.now) rs

loop_ends :
    (deadline now k : ℕ) (name : Text) (rs : List Round) (s : System)
    → Paced deadline now rs
    → deadline ≤ now + k * (10 * millisecond)
    → k < length rs
    → (loop deadline name rs s).0 ≢ waiting
unfolding loop reject pause
loop_ends deadline now k name [] s p d h = absurd (omega arith)
loop_ends deadline now zero name (r ∷ rs) s p d h = ground arith
loop_ends deadline now (suc k) name (r ∷ rs) s p d h = ground (
  arith,
  loop_ends deadline (r.now + pause deadline r.now) k name rs
      (r.others (record s { limiter = (attempt s.limiter name r.now).1 })) p.1,
)

-- `Acquire` answers: where the caller sleeps as the code says between passes, one pass more than the
-- queue wait holds stretches of 10 ms is enough, whatever the other callers do.
pub acquire_ends :
    (now k : ℕ) (name : Text) (rs : List Round) (s : System)
    → Paced (now + pos_part s.limiter.queue_wait) now rs
    → pos_part s.limiter.queue_wait ≤ k * (10 * millisecond)
    → k < length rs
    → (acquire now name rs s).0 ≢ waiting
unfolding acquire
acquire_ends now k name rs s p w h = loop_ends _ now k name rs s p (omega arith) h

-- The other callers take steps of the limiter.
abbrev pub Interleaves : Round → Type 0
Interleaves r = (s : System) → Reach s (r.others s)

pub Reach-trans : {s t u : System} → Reach s t → Reach t u → Reach s u
Reach-trans r here = r
Reach-trans r (next q st) = next (Reach-trans r q) st

reject-Reach : (name : Text) (now : ℕ) (s : System) → Reach s (reject name now s).1
unfolding reject
reject-Reach name now s = next here (asked s name now)

loop-Reach :
    (deadline : ℕ) (name : Text) (rs : List Round) (s : System)
    → All Interleaves rs
    → Reach s (loop deadline name rs s).1
unfolding loop
loop-Reach deadline name [] s i = here
loop-Reach deadline name (r ∷ rs) s i =
    let l = (attempt s.limiter name r.now).1 in
    let after = r.others (record s { limiter = l }) in
    let ih = loop-Reach deadline name rs after i.1 in
    elim (Bool-cases (attempt s.limiter name r.now).0) [
      | inl taken ↦ rw taken (next here (acquired s name r.now taken))
      | inr full ↦
          let passed =
            Reach-trans (next here (refused s name r.now full)) (i.0 (record s { limiter = l })) in
          elim (Bool-cases (leb_ℤ (sub_ℕ deadline r.now) (pos 0) || r.cancelled)) [
            | inl over ↦ rw (full, over) (Reach-trans passed (reject-Reach name r.now after))
            | inr more ↦ rw (full, more) (Reach-trans passed ih)
          ]
    ]

-- The whole of `Acquire` is a run of the limiter's steps, its own and those of the other callers.
pub acquire-Reach :
    (now : ℕ) (name : Text) (rs : List Round) (s : System)
    → All Interleaves rs
    → Reach s (acquire now name rs s).1
unfolding acquire
acquire-Reach now name rs s i = loop-Reach _ name rs s i

-- With limits that are at least 1 the advice of a refusal is 250 ms, for every chain.
pub retry_after_lem :
    (l : Limiter) (name : Text) (now : ℕ)
    → IsBounded l
    → (retry_after l name now).0 ≡ pos (250 * millisecond)
unfolding retry_after
retry_after_lem l name now v =
    ground (arith, chain_limit l name now v, chain_frame l name now, v.global_pos)

held_first : (name : Text) (ts : List Text) → 0 < held name (name ∷ ts)
held_first name ts = ground (arith, held-cons name name ts, text_beq_iff name name)

rejected_ne : {d : ℤ} → rejected d ≡ granted → ⊥
rejected_ne h = cc

loop_granted :
    (deadline : ℕ) (name : Text) (rs : List Round) (s : System)
    → (loop deadline name rs s).0 ≡ granted
    → 0 < held name (loop deadline name rs s).1.leases
unfolding loop reject
loop_granted deadline name [] s h = absurd (cc)
loop_granted deadline name (r ∷ rs) s h =
    let l = (attempt s.limiter name r.now).1 in
    let after = r.others (record s { limiter = l }) in
    let ih = loop_granted deadline name rs after in
    elim (Bool-cases (attempt s.limiter name r.now).0) [
      | inl taken ↦ rw taken (held_first name s.leases)
      | inr full ↦ elim (Bool-cases (leb_ℤ (sub_ℕ deadline r.now) (pos 0) || r.cancelled)) [
        | inl over ↦ absurd (rejected_ne (rw (full, over) at h))
        | inr more ↦ rw (full, more) (ih (rw (full, more) at h))
      ]
    ]

-- A granted caller holds a slot of its chain.
pub acquire_granted :
    (now : ℕ) (name : Text) (rs : List Round) (s : System)
    → (acquire now name rs s).0 ≡ granted
    → 0 < held name (acquire now name rs s).1.leases
unfolding acquire
acquire_granted now name rs s h = loop_granted _ name rs s h
