-- ===== src/Adaptive/Methods.antt =====
-- Each method of the limiter keeps the limits between 1 and the hard cap, and counts the slots that
-- are out: lemmas about its parts.
use wallet_scan.Prelude.{
  ℕ, ◌+◌, ◌-◌, ◌≤◌, ◌<◌, ◌≡◌, refl, Bool, true, false, List, [], ◌∷◌, arith, ltb, if◌then◌else◌,
  Bool-cases, Option-cases, inl, inr,
}
use wallet_scan.Prelude.Texts.{Text, text_eq, text_beq_iff}
use wallet_scan.Prelude.Maps.{lookup, lookup-insert}
use wallet_scan.Adaptive.{
  Config, Limiter, ChainState, Outcome, new, chain, store, adjust, attempt, give_back, has_room,
  fresh, clamped_max, clamped_initial, update_stats,
}
use wallet_scan.Adaptive.Leases.{
  held, active_of, IsBounded, Counts, held-cons, active_of-insert, chain_active, chain_keeps,
  chain_frame, chain_limit, IsSound,
}

clamped_bounds : (c : Config) → (1 ≤ clamped_initial c) × (clamped_initial c ≤ clamped_max c)
unfolding clamped_initial
clamped_bounds c = ground arith

pub new-IsSound : (c : Config) (now : ℕ) → IsSound (record { limiter = new c now; leases = [] })
unfolding new lookup held
new-IsSound c now = record {
  bounded = record {
    global_pos = (clamped_bounds c).0;
    global_le = (clamped_bounds c).1;
    same = refl;
    each = λ name s e. cc;
  };
  counted = record { total = refl; each = λ name. refl; capped = omega arith };
}

-- A limiter with the same caps and a bounded state written to one chain is bounded.
pub store-IsBounded :
    (l : Limiter) (t : Text) (s : ChainState)
    → IsBounded l
    → 1 ≤ s.limit
    → s.limit ≤ l.max
    → IsBounded (store l t s)
store-IsBounded l t s v h k = record {
  global_pos = v.global_pos;
  global_le = v.global_le;
  same = v.same;
  each = λ name r e. ground (arith, lookup-insert t name s l.chains, v.each name r);
}

pub chain-IsBounded : (l : Limiter) (t : Text) (now : ℕ) → IsBounded l → IsBounded (chain l t now).1
unfolding chain fresh
chain-IsBounded l t now v = elim (Option-cases (lookup t l.chains)) [
  | inl e ↦
      rw (e, chain) (store-IsBounded l t (fresh l.global_limit now) v v.global_pos v.global_le)
  | inr (s, e) ↦ rw (e, chain) v
]

-- An attempt takes a slot for the chain, or changes no count.
pub attempt_taken :
    (l : Limiter) (t : Text) (now : ℕ)
    → (attempt l t now).0 ≡ true
    → (attempt l t now).1
      ≡ store
          (record (chain l t now).1 { global_active = (chain l t now).1.global_active + 1 })
          t
          (record (chain l t now).0 { active = (chain l t now).0.active + 1 })
unfolding attempt
attempt_taken l t now h = ground arith

pub attempt_room :
    (l : Limiter) (t : Text) (now : ℕ)
    → (attempt l t now).0 ≡ true
    → (l.global_active < l.global_limit) × (active_of t l.chains < (chain l t now).0.limit)
unfolding attempt has_room
attempt_room l t now h = ground (arith, chain_frame l t now, chain_active l t now)

pub attempt_refused :
    (l : Limiter) (t : Text) (now : ℕ)
    → (attempt l t now).0 ≡ false
    → (attempt l t now).1 ≡ (chain l t now).1
unfolding attempt
attempt_refused l t now h = ground arith

pub chain-Counts :
    (l : Limiter) (t : Text) (now : ℕ) (ts : List Text) → Counts l ts → Counts (chain l t now).1 ts
chain-Counts l t now ts c = record {
  total = rw (chain_frame l t now).2 c.total;
  each = λ name. rw (chain_keeps l t now name) (c.each name);
  capped = omega (arith, chain_frame l t now, c.capped);
}

pub attempt-Counts :
    (l : Limiter) (t : Text) (now : ℕ) (ts : List Text)
    → IsBounded l
    → Counts l ts
    → (attempt l t now).0 ≡ true
    → Counts (attempt l t now).1 (t ∷ ts)
attempt-Counts l t now ts v c h =
    let (s, l') = chain l t now in
    let active' = record s { active = s.active + 1 } in
    rw (attempt_taken l t now h) (record {
      total = omega (arith, c.total, chain_frame l t now);
      each = λ name. ground (
        arith,
        active_of-insert name t active' l'.chains,
        held-cons name t ts,
        c.each name,
        c.each t,
        chain_active l t now,
        chain_keeps l t now name,
        text_beq_iff t name,
      );
      capped = omega (arith, chain_frame l t now, attempt_room l t now h, v.global_le);
    })

pub recount-IsBounded :
    (l : Limiter) (n : ℕ) → IsBounded l → IsBounded (record l { global_active = n })
recount-IsBounded l n v = record {
  global_pos = v.global_pos;
  global_le = v.global_le;
  same = v.same;
  each = v.each;
}

pub attempt-IsBounded :
    (l : Limiter) (t : Text) (now : ℕ) → IsBounded l → IsBounded (attempt l t now).1
attempt-IsBounded l t now v =
    let w = chain-IsBounded l t now v in
    elim (Bool-cases (attempt l t now).0) [
      | inl taken ↦ rw (attempt_taken l t now taken) (
          store-IsBounded _ t _ (recount-IsBounded _ _ w) (omega (arith, chain_limit l t now v))
            (omega (arith, chain_limit l t now v, chain_frame l t now)))
      | inr kept ↦ rw (attempt_refused l t now kept) w
    ]

pub update_stats_frame :
    (s : ChainState) (o : Outcome)
    → ((update_stats s o).limit ≡ s.limit) × ((update_stats s o).active ≡ s.active)
unfolding update_stats
update_stats_frame s o = ground arith

-- What a slot given back does to the counts and the limits, before the adjustments.
pub give_back_frame :
    (l : Limiter) (o : Outcome) (now : ℕ)
    → ((give_back l o now).1.max ≡ l.max)
      × ((give_back l o now).1.global_limit ≡ l.global_limit)
      × ((give_back l o now).1.global_active ≡ l.global_active - 1)
      × ((give_back l o now).1.global.limit ≡ l.global.limit)
      × ((give_back l o now).1.chains ≡ (chain l o.chain now).1.chains)
unfolding give_back
give_back_frame l o now =
    ground (arith, chain_frame l o.chain now, update_stats_frame (chain l o.chain now).1.global o)

pub give_back_state :
    (l : Limiter) (o : Outcome) (now : ℕ)
    → ((give_back l o now).0.limit ≡ (chain l o.chain now).0.limit)
      × ((give_back l o now).0.active ≡ active_of o.chain l.chains - 1)
unfolding give_back
give_back_state l o now =
    let (s, l') = chain l o.chain now in
    let s' = record s { active = if ltb 0 s.active then s.active - 1 else s.active } in
    ground (arith, chain_active l o.chain now, update_stats_frame s' o)

pub give_back-IsBounded :
    (l : Limiter) (o : Outcome) (now : ℕ) → IsBounded l → IsBounded (give_back l o now).1
give_back-IsBounded l o now v =
    let w = chain-IsBounded l o.chain now v in
    record {
      global_pos = omega (arith, give_back_frame l o now, v.global_pos);
      global_le = omega (arith, give_back_frame l o now, v.global_le);
      same = omega (arith, give_back_frame l o now, v.same);
      each = λ name s e.
          grind (arith, give_back_frame l o now, chain_frame l o.chain now, w.each name s);
    }

pub adjust_frame :
    (l : Limiter) (s : ChainState) (g : Bool) (now : ℕ)
    → ((adjust l s g now).0.max ≡ l.max)
      × ((adjust l s g now).0.global_active ≡ l.global_active)
      × ((adjust l s g now).0.chains ≡ l.chains)
      × ((adjust l s g now).0.global ≡ l.global)
      × ((adjust l s g now).1.active ≡ s.active)
unfolding adjust
adjust_frame l s g now = ground arith

pub adjust_chain : (l : Limiter) (s : ChainState) (now : ℕ) → (adjust l s false now).0 ≡ l
unfolding adjust
adjust_chain l s now = ground arith

pub adjust_global :
    (l : Limiter) (s : ChainState) (now : ℕ)
    → s.limit ≡ l.global_limit
    → (adjust l s true now).1.limit ≡ (adjust l s true now).0.global_limit
unfolding adjust
adjust_global l s now h = ground arith
