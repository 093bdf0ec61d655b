-- ===== src/Scanner/Check/Retry.antt =====
-- Which attempt ends `checkWithRetry`, and what is left behind.
use wallet_scan.Prelude.{
  ℕ, zero, suc, ◌+◌, ◌*◌, ◌^◌, ◌≤◌, ◌<◌, ◌≡◌, refl, ◌∙◌, Bool, true, false, not, ◌||◌, List, [],
  ◌∷◌, ◌++◌, append_assoc, append-nil, arith, ◌==◌, nat_eq, if◌then◌else◌, Bool-cases, inl, inr,
}
use native.Mathlib.Nat.{add-zero, zero-add, pow-suc}
use wallet_scan.Prelude.Int.{ℤ, pos, mul64, wrap64-id, leb_ℤ}
use wallet_scan.Prelude.Texts.{Text}
use wallet_scan.Providers.{Error, provider_error, ProviderError}
use wallet_scan.Scanner.Health.{HealthTracker, failure, success}
use wallet_scan.Scanner.Check.{
  Config, Reply, answered, refused, World, Query, as_provider_error, backoff, delay_of, on_reply,
  retry_loop, check_with_retry,
}

-- The context does not end while the query runs.
abbrev pub Uncancelled : World → Type 0
Uncancelled w = (n : ℕ) → ((w.attempt n).slot ≡ true) × ((w.attempt n).woke ≡ true)

module _ (show : Error → Text) (cfg : Config) (chain : Text) (w : World) where
  -- An answer after which there is no further attempt: a balance, or an error that is not temporary.
  unfoldable pub is_final : Reply → Bool
  is_final (answered c) = true
  is_final (refused e) = not (as_provider_error show e chain).temporary

  -- How many attempts from `n` on, of `rounds` at most, are followed by another.
  unfoldable pub retries : ℕ → ℕ → ℕ
  retries zero n = 0
  retries (suc rounds) n =
      let later = retries rounds (suc n) in if is_final (w.attempt n).reply then 0 else suc later

  -- What the query returns for the deciding answer, and what it records.
  unfoldable pub verdict : Reply → Reply
  verdict (answered c) = answered c
  verdict (refused e) = refused (provider_error (as_provider_error show e chain))

  unfoldable pub recorded : Reply → HealthTracker → HealthTracker
  recorded (answered c) h = (success h chain).1
  recorded (refused e) h = (failure h chain).1

  -- The sleeps behind `k` attempts from `n` on.
  unfoldable pub delays : ℕ → ℕ → List ℤ
  delays n zero = []
  delays n (suc k) = delay_of show cfg chain n (w.attempt n).reply ∷ delays (suc n) k

  -- The state of a query that the answer `r` ends.
  abbrev pub ended : Reply → HealthTracker → List ℤ → Query
  ended r h slept = record {
    reply = verdict r;
    health = recorded r (w.before_record h);
    sleeps = slept;
  }

  retries-le : (rounds n : ℕ) → retries rounds n ≤ rounds
  unfolding retries
  retries-le zero n = omega arith
  retries-le (suc rounds) n = ground (arith, retries-le rounds (suc n))

  on_reply_ends :
      (n : ℕ) (h : HealthTracker) (slept : List ℤ) (again : Query) (r : Reply)
      → (is_final r || n == cfg.max_retries) ≡ true
      → on_reply show cfg chain w n h slept again r ≡ ended r h slept
  unfolding on_reply is_final verdict recorded
  on_reply_ends n h slept again (answered c) e = refl
  on_reply_ends n h slept again (refused x) e = ground arith

  on_reply_goes_on :
      (n : ℕ) (h : HealthTracker) (slept : List ℤ) (again : Query) (r : Reply)
      → is_final r ≡ false
      → n < cfg.max_retries
      → (w.attempt n).woke ≡ true
      → on_reply show cfg chain w n h slept again r ≡ again
  unfolding on_reply is_final
  on_reply_goes_on n h slept again (answered c) e lt awake = absurd (cc)
  on_reply_goes_on n h slept again (refused x) e lt awake = ground arith

  module _ (limited : Bool) (live : Uncancelled w) where
    loop_step :
        (rounds n : ℕ) (h : HealthTracker) (slept : List ℤ)
        → retry_loop show cfg limited chain w (suc rounds) n h slept
          ≡ on_reply show cfg chain w n h slept
              (retry_loop show cfg limited chain w rounds
                (suc n)
                h
                (slept ++ delay_of show cfg chain n (w.attempt n).reply ∷ []))
              (w.attempt n).reply
    unfolding retry_loop
    loop_step rounds n h slept = ground (arith, (live n).0)

    loop_lem :
        (rounds n : ℕ) (h : HealthTracker) (slept : List ℤ)
        → n + rounds ≡ cfg.max_retries
        → retry_loop show cfg limited chain w (suc rounds) n h slept
          ≡ ended (w.attempt (n + retries rounds n)).reply h (slept ++ delays n (retries rounds n))
    unfolding retries delays
    loop_lem zero n h slept last =
        rw (add-zero, append-nil)
          (loop_step zero n h slept ∙ on_reply_ends n h slept _ _ (ground arith))
    loop_lem (suc rounds) n h slept last =
        let d = delay_of show cfg chain n (w.attempt n).reply in
        let k = retries rounds (suc n) in
        let ih = loop_lem rounds (suc n) h (slept ++ d ∷ []) (omega arith) in
        elim (Bool-cases (is_final (w.attempt n).reply)) [
          | inl final ↦
              rw (final, add-zero, append-nil)
                (loop_step (suc rounds) n h slept ∙ on_reply_ends n h slept _ _ (rw final))
          | inr more ↦
              let e : n + suc k ≡ suc n + k = omega arith in
              rw (more, e)
                (loop_step (suc rounds) n h slept
                  ∙ on_reply_goes_on n h slept _ _ more (omega arith) (live n).1
                  ∙ rw append_assoc at ih)
        ]

    -- While its context lives, a query ends with its first decisive attempt: a balance, an error that
    -- is not temporary, or the last attempt that the configuration allows. It returns what that
    -- attempt says, records it with the tracker once, and has slept the right delay behind each attempt
    -- before; there are at most `MaxRetries` of those.
    pub check_with_retry_lem :
        (h : HealthTracker)
        → let k = retries cfg.max_retries 0 in
          (check_with_retry show cfg limited chain w h ≡ ended (w.attempt k).reply h (delays 0 k))
          × (k ≤ cfg.max_retries)
    unfolding check_with_retry
    check_with_retry_lem h = (
      rw (zero-add) at (loop_lem cfg.max_retries 0 h [] (omega arith)),
      retries-le cfg.max_retries 0,
    )

-- The answer of a query does not depend on the health tracker.
module _ (show : Error → Text) (cfg : Config) (limited : Bool) (chain : Text) (w : World) where
  on_reply_reply :
      (n : ℕ) (h h' : HealthTracker) (slept slept' : List ℤ) (q q' : Query) (r : Reply)
      → q.reply ≡ q'.reply
      → (on_reply show cfg chain w n h slept q r).reply
        ≡ (on_reply show cfg chain w n h' slept' q' r).reply
  unfolding on_reply
  on_reply_reply n h h' slept slept' q q' (answered c) e = refl
  on_reply_reply n h h' slept slept' q q' (refused x) e = ground arith

  loop_reply :
      (rounds n : ℕ) (h h' : HealthTracker) (slept slept' : List ℤ)
      → (retry_loop show cfg limited chain w rounds n h slept).reply
        ≡ (retry_loop show cfg limited chain w rounds n h' slept').reply
  unfolding retry_loop
  loop_reply zero n h h' slept slept' = refl
  loop_reply (suc rounds) n h h' slept slept' =
      let d = delay_of show cfg chain n (w.attempt n).reply in
      let q = retry_loop show cfg limited chain w rounds (suc n) h (slept ++ d ∷ []) in
      let q' = retry_loop show cfg limited chain w rounds (suc n) h' (slept' ++ d ∷ []) in
      let ih = loop_reply rounds (suc n) h h' (slept ++ d ∷ []) (slept' ++ d ∷ []) in
      let same = on_reply_reply n h h' slept slept' q q' (w.attempt n).reply ih in ground arith

  pub check_with_retry-reply :
      (h h' : HealthTracker)
      → (check_with_retry show cfg limited chain w h).reply
        ≡ (check_with_retry show cfg limited chain w h').reply
  unfolding check_with_retry
  check_with_retry-reply h h' = loop_reply (suc cfg.max_retries) 0 h h' [] []

pow-le : (k n : ℕ) → k ≤ n → 2 ^ k ≤ 2 ^ n
pow-le zero zero h = omega arith
pow-le zero (suc n) h = omega (arith, pow-le zero n, pow-suc 2 n)
pow-le (suc k) zero h = absurd (omega arith)
pow-le (suc k) (suc n) h = omega (arith, pow-le k n, pow-suc 2 n, pow-suc 2 k)

-- With the 20 retries that the configuration allows at most, and a base delay below 2 ^ 42 ns (over
-- an hour), the doubled delay is exact and positive: the int64 product does not wrap. A delay that
-- the provider asks for is taken as it is.
pub backoff_exact :
    (cfg : Config) (e : ProviderError) (base n : ℕ)
    → cfg.retry_base_delay ≡ pos base
    → 0 < base
    → base < 2 ^ 42
    → n ≤ 20
    → backoff cfg e n ≡ (if leb_ℤ e.retry_after (pos 0) then pos (base * 2 ^ n) else e.retry_after)
unfolding backoff mul64
backoff_exact cfg e base n is_base positive small few =
    let top : base * 2 ^ n < 2 ^ 62 = grind (arith, pow-le n 20 few) in
    rw is_base (ground (arith, wrap64-id (pos (base * 2 ^ n))))
