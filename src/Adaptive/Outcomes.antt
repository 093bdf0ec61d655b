-- ===== src/Adaptive/Outcomes.antt =====
-- What `Acquire` answers, told apart from the code: by the counts and the limits of the limiter, the
-- clock and the deadline.
use wallet_scan.Prelude.{
  ℕ, ◌+◌, ◌*◌, ◌≤◌, ◌<◌, ◌≡◌, refl, true, false, Option, none, some, List, [], ◌∷◌, arith,
  Bool-cases, ◌⊎◌, inl, inr, ◌||◌, ◌==◌,
}
use wallet_scan.Prelude.Int.{ℤ, pos, pos_part, sub_ℕ, leb_ℤ}
use wallet_scan.Prelude.Texts.{Text, text_eq, text_beq_iff}
use wallet_scan.Prelude.Maps.{lookup}
use wallet_scan.Adaptive.{
  Limiter, ChainState, chain, fresh, register, attempt, has_room, retry_after, millisecond, second,
}
use wallet_scan.Adaptive.Leases.{
  active_of, active_of-insert, chain_active, chain_keeps, chain_frame, System,
}
use wallet_scan.Adaptive.Methods.{attempt_taken, attempt_room, attempt_refused}
use wallet_scan.Adaptive.Acquire.{Round, Answer, granted, rejected, waiting, loop, reject, acquire}

abbrev limit_in : ℕ → Option ChainState → ℕ
limit_in fallback none = fallback
limit_in fallback (some s) = s.limit

-- A chain that the limiter does not know starts with the global limit.
abbrev pub limit_for : Text → Limiter → ℕ
limit_for name l = limit_in l.global_limit (lookup name l.chains)

abbrev pub HasRoom : Text → Limiter → Type 0
HasRoom name l = (l.global_active < l.global_limit) × (active_of name l.chains < limit_for name l)

abbrev pub HasNoRoom : Text → Limiter → Type 0
HasNoRoom name l = (l.global_limit ≤ l.global_active) ⊎ (limit_for name l ≤ active_of name l.chains)

-- One slot more for the caller, in all and for the chain, and for no other chain.
pub record Takes (name : Text) (s t : System) : Type 0 where
  pub lease : t.leases ≡ name ∷ s.leases
  pub total : t.limiter.global_active ≡ s.limiter.global_active + 1
  pub own : active_of name t.limiter.chains ≡ active_of name s.limiter.chains + 1
  pub other :
      (u : Text) → (name == u) ≡ false → active_of u t.limiter.chains ≡ active_of u s.limiter.chains

-- A refused pass changes nothing, but that the chain is known from then on.
abbrev pub mention : Text → ℕ → System → System
mention name now s = record s { limiter = register s.limiter name now }

-- A quarter of a second, or a second where a limit does not allow a single request.
abbrev pub IsAdvice : Text → Limiter → ℤ → Type 0
IsAdvice name l delay =
    ((1 ≤ limit_for name l) × (1 ≤ l.global_limit) × (delay ≡ pos (250 * millisecond)))
    ⊎ (((limit_for name l ≡ 0) ⊎ (l.global_limit ≡ 0)) × (delay ≡ pos second))

-- How a caller gets its answer, pass by pass.
pub data Acquires (deadline : ℕ) (name : Text)
    : List Round → System → Answer → System → Type 0 where
  takes :
      {r : Round} {rs : List Round} {s t : System}
      → HasRoom name s.limiter
      → Takes name s t
      → Acquires deadline name (r ∷ rs) s granted t
  gives_up :
      {r : Round} {rs : List Round} {s : System} {delay : ℤ}
      → HasNoRoom name s.limiter
      → (deadline ≤ r.now) ⊎ (r.cancelled ≡ true)
      → IsAdvice name (r.others (mention name r.now s)).limiter delay
      → Acquires deadline name
          (r ∷ rs)
          s
          (rejected delay)
          (mention name r.now (r.others (mention name r.now s)))
  waits :
      {r : Round} {rs : List Round} {s t : System} {a : Answer}
      → HasNoRoom name s.limiter
      → r.now < deadline
      → r.cancelled ≡ false
      → Acquires deadline name rs (r.others (mention name r.now s)) a t
      → Acquires deadline name (r ∷ rs) s a t
  still : {s : System} → Acquires deadline name [] s waiting s

chain-limit_for : (l : Limiter) (t : Text) (now : ℕ) → (chain l t now).0.limit ≡ limit_for t l
unfolding chain fresh
chain-limit_for l t now = ground arith

attempt-HasRoom : (l : Limiter) (t : Text) (now : ℕ) → (attempt l t now).0 ≡ true → HasRoom t l
attempt-HasRoom l t now h =
    let room = attempt_room l t now h in (room.0, omega (arith, room, chain-limit_for l t now))

attempt-HasNoRoom : (l : Limiter) (t : Text) (now : ℕ) → (attempt l t now).0 ≡ false → HasNoRoom t l
unfolding attempt has_room
attempt-HasNoRoom l t now h =
    ground (arith, chain_frame l t now, chain_active l t now, chain-limit_for l t now)

attempt-Takes :
    (s : System) (t : Text) (now : ℕ)
    → (attempt s.limiter t now).0 ≡ true
    → Takes t s (record { limiter = (attempt s.limiter t now).1; leases = t ∷ s.leases })
attempt-Takes s t now h =
    let l = s.limiter in
    let (c, l') = chain l t now in
    let taken = record c { active = c.active + 1 } in
    rw (attempt_taken l t now h) record {
      lease = refl;
      total = omega (arith, chain_frame l t now);
      own =
          ground
            (arith, active_of-insert t t taken l'.chains, chain_active l t now, text_beq_iff t t);
      other = λ u e. ground (arith, active_of-insert u t taken l'.chains, chain_keeps l t now u);
    }

retry_after-IsAdvice : (l : Limiter) (t : Text) (now : ℕ) → IsAdvice t l (retry_after l t now).0
unfolding retry_after
retry_after-IsAdvice l t now = ground (arith, chain-limit_for l t now, chain_frame l t now)

loop-Acquires :
    (deadline : ℕ) (name : Text) (rs : List Round) (s : System)
    → Acquires deadline name rs s (loop deadline name rs s).0 (loop deadline name rs s).1
unfolding loop reject retry_after register
loop-Acquires deadline name [] s = still
loop-Acquires deadline name (r ∷ rs) s =
    let l = (attempt s.limiter name r.now).1 in
    elim (Bool-cases (attempt s.limiter name r.now).0) [
      | inl taken ↦
          rw taken
            (takes (attempt-HasRoom s.limiter name r.now taken) (attempt-Takes s name r.now taken))
      | inr full ↦
          let none_left = attempt-HasNoRoom s.limiter name r.now full in
          let same = attempt_refused s.limiter name r.now full in
          let after = r.others (mention name r.now s) in
          elim (Bool-cases (leb_ℤ (sub_ℕ deadline r.now) (pos 0) || r.cancelled)) [
            | inl over ↦
                rw (full, over, same)
                  (gives_up none_left (ground arith)
                    (retry_after-IsAdvice after.limiter name r.now))
            | inr more ↦
                rw (full, more, same)
                  (waits none_left (ground arith) (ground arith)
                    (loop-Acquires deadline name rs after))
          ]
    ]

-- How `Acquire` gets its answer, whatever the other callers do: it is granted on the first pass that
-- finds the global count and the chain's count below their limits, and then takes exactly one slot,
-- of its chain; it is rejected on a pass that finds no room at the deadline or later, or on one that
-- is cancelled, and then takes none and is told 250 ms, or one second where a limit is 0; and it
-- waits for the next pass only before the deadline. The deadline is the queue wait after its start.
pub acquire-Acquires :
    (now : ℕ) (name : Text) (rs : List Round) (s : System)
    → Acquires
        (now + pos_part s.limiter.queue_wait)
        name
        rs
        s
        (acquire now name rs s).0
        (acquire now name rs s).1
unfolding acquire
acquire-Acquires now name rs s = loop-Acquires _ name rs s
