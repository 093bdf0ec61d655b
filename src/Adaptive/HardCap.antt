-- ===== src/Adaptive/HardCap.antt =====
-- No interleaving of the limiter's callers holds more slots than the hard cap.
use wallet_scan.Prelude.{
  ℕ, ◌-◌, ◌≤◌, ◌<◌, ◌≡◌, refl, Bool, true, false, List, [], arith, length, ◌∙◌,
}
use wallet_scan.Prelude.Texts.{Text, text_eq, text_beq_iff}
use wallet_scan.Adaptive.{
  Config, Limiter, ChainState, Outcome, new, chain, store, register, adjust, release, give_back,
  retry_after, clamped_max,
}
use wallet_scan.Adaptive.Adjust.{adjust_limit_bounds}
use wallet_scan.Adaptive.Leases.{
  held, drop_one, active_of, IsBounded, Counts, held-drop_one, held-le-length, length-drop_one,
  active_of-insert, chain_keeps, chain_limit, chain_frame, System, Step, Reach, IsSound, registered,
  acquired, refused, asked, released, here, next,
}
use wallet_scan.Adaptive.Methods.{
  new-IsSound, store-IsBounded, chain-IsBounded, chain-Counts, attempt_taken, attempt_refused,
  attempt-Counts, attempt-IsBounded, give_back_frame, give_back_state, give_back-IsBounded,
  adjust_frame, adjust_chain, adjust_global,
}

-- The limiter after the two adjustments, with the global state written back.
middle : Limiter → Outcome → ℕ → Limiter
middle l o now =
    let l' = (give_back l o now).1 in
    let r = adjust l' l'.global true now in record r.0 { global = r.1 }

release_lem :
    (l : Limiter) (o : Outcome) (now : ℕ)
    → release l o now
      ≡ store (middle l o now) o.chain (adjust (middle l o now) (give_back l o now).0 false now).1
unfolding release middle
release_lem l o now =
    let (s, l') = give_back l o now in
    let r = adjust l' l'.global true now in rw (adjust_chain (record r.0 { global = r.1 }) s now)

middle_frame :
    (l : Limiter) (o : Outcome) (now : ℕ)
    → ((middle l o now).max ≡ l.max)
      × ((middle l o now).global_active ≡ l.global_active - 1)
      × ((middle l o now).chains ≡ (chain l o.chain now).1.chains)
unfolding middle
middle_frame l o now =
    let l' = (give_back l o now).1 in
    ground (arith, give_back_frame l o now, adjust_frame l' l'.global true now)

middle-IsBounded : (l : Limiter) (o : Outcome) (now : ℕ) → IsBounded l → IsBounded (middle l o now)
unfolding middle
middle-IsBounded l o now v =
    let l' = (give_back l o now).1 in
    let w = give_back-IsBounded l o now v in
    let bounds =
      adjust_limit_bounds l' l'.global true now (omega (arith, w.same, w.global_pos))
        (omega (arith, w.same, w.global_le)) in
    let frame = adjust_frame l' l'.global true now in
    let same = adjust_global l' l'.global now w.same in
    record {
      global_pos = omega (arith, bounds, same);
      global_le = omega (arith, bounds, same, frame);
      same = same;
      each = λ name s e. ground (arith, frame, w.each name s);
    }

release-IsBounded :
    (l : Limiter) (o : Outcome) (now : ℕ) → IsBounded l → IsBounded (release l o now)
release-IsBounded l o now v =
    let m = middle l o now in
    let s = (give_back l o now).0 in
    let known = chain_limit l o.chain now v in
    let bounds =
      adjust_limit_bounds m s false now (omega (arith, known, give_back_state l o now))
        (omega (arith, known, give_back_state l o now, middle_frame l o now)) in
    rw (release_lem l o now) (
      store-IsBounded m o.chain (adjust m s false now).1 (middle-IsBounded l o now v) bounds.0
        bounds.1)

release-Counts :
    (l : Limiter) (o : Outcome) (now : ℕ) (ts : List Text)
    → Counts l ts
    → 0 < held o.chain ts
    → Counts (release l o now) (drop_one o.chain ts)
release-Counts l o now ts c h =
    let m = middle l o now in
    let s = (give_back l o now).0 in
    let frame = middle_frame l o now in
    rw (release_lem l o now) record {
      total = omega (arith, frame, c.total, length-drop_one o.chain ts h);
      each = λ name. ground (
        arith,
        frame,
        active_of-insert name o.chain (adjust m s false now).1 m.chains,
        adjust_frame m s false now,
        give_back_state l o now,
        chain_keeps l o.chain now name,
        held-drop_one name o.chain ts h,
        c.each name,
        c.each o.chain,
        text_beq_iff o.chain name,
      );
      capped = omega (arith, frame, c.capped);
    }

Step-IsSound : {s t : System} → Step s t → IsSound s → IsSound t
unfolding register retry_after
Step-IsSound (registered s name now) v = record {
  bounded = chain-IsBounded s.limiter name now v.bounded;
  counted = chain-Counts s.limiter name now s.leases v.counted;
}
Step-IsSound (acquired s name now h) v = record {
  bounded = attempt-IsBounded s.limiter name now v.bounded;
  counted = attempt-Counts s.limiter name now s.leases v.bounded v.counted h;
}
Step-IsSound (refused s name now h) v = rw (attempt_refused s.limiter name now h) record {
  bounded = chain-IsBounded s.limiter name now v.bounded;
  counted = chain-Counts s.limiter name now s.leases v.counted;
}
Step-IsSound (asked s name now) v = record {
  bounded = chain-IsBounded s.limiter name now v.bounded;
  counted = chain-Counts s.limiter name now s.leases v.counted;
}
Step-IsSound (released s outcome now h) v = record {
  bounded = release-IsBounded s.limiter outcome now v.bounded;
  counted = release-Counts s.limiter outcome now s.leases v.counted h;
}

pub Reach-IsSound : {s t : System} → Reach s t → IsSound s → IsSound t
Reach-IsSound here v = v
Reach-IsSound (next r st) v = Step-IsSound st (Reach-IsSound r v)

adjust_max : (l : Limiter) (s : ChainState) (g : Bool) (now : ℕ) → (adjust l s g now).0.max ≡ l.max
adjust_max l s g now = (adjust_frame l s g now).0

Step-max : {s t : System} → Step s t → t.limiter.max ≡ s.limiter.max
unfolding register retry_after
Step-max (registered s name now) = (chain_frame s.limiter name now).0
Step-max (acquired s name now h) =
    rw (attempt_taken s.limiter name now h) ((chain_frame s.limiter name now).0)
Step-max (refused s name now h) =
    rw (attempt_refused s.limiter name now h) ((chain_frame s.limiter name now).0)
Step-max (asked s name now) = (chain_frame s.limiter name now).0
Step-max (released s outcome now h) =
    rw (release_lem s.limiter outcome now) ((middle_frame s.limiter outcome now).0)

pub Reach-max : {s t : System} → Reach s t → t.limiter.max ≡ s.limiter.max
Reach-max here = refl
Reach-max (next r st) = Step-max st ∙ Reach-max r

-- A limiter as `New` makes it, with no slot out.
abbrev pub start : Config → ℕ → System
start c now = record { limiter = new c now; leases = [] }

-- Whatever the callers do, in any order, and however the limits have been adjusted: the slots that
-- are out are at most the hard cap of the configuration, in all and for each chain; the count that
-- the limiter keeps of them is exact, in all and for each chain; and the current limit lies between
-- 1 and the hard cap.
pub hard_cap :
    (c : Config) (t0 : ℕ) {s : System} (r : Reach (start c t0) s) (name : Text)
    → (length s.leases ≤ clamped_max c)
      × (held name s.leases ≤ clamped_max c)
      × (s.limiter.global_active ≡ length s.leases)
      × (active_of name s.limiter.chains ≡ held name s.leases)
      × (1 ≤ s.limiter.global_limit)
      × (s.limiter.global_limit ≤ clamped_max c)
unfolding new
hard_cap c t0 {s} r name =
    let v = Reach-IsSound r (new-IsSound c t0) in
    let total = v.counted.total in
    let capped = v.counted.capped in
    let m : s.limiter.max ≡ clamped_max c = Reach-max r in
    let low = v.bounded.global_pos in
    let high = v.bounded.global_le in
    (
      omega arith,
      omega (arith, held-le-length name s.leases),
      total,
      v.counted.each name,
      low,
      omega arith,
    )
