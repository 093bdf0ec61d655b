-- ===== src/HttpServer/Capacity.antt =====
-- What the capacity endpoint tells its client about the limiter.
use wallet_scan.Prelude.{
  ℕ, ◌≤◌, ◌≡◌, refl, ◌∙◌, sym, subst, some, List, [], ◌∷◌, map, length, arith, inl, inr, Bool-cases,
  ◌==◌,
}
use wallet_scan.Prelude.Texts.{Text, text_eq}
use wallet_scan.Prelude.Maps.{Map, lookup}
use wallet_scan.Adaptive.{
  Config, ChainState, ChainSnapshot, Snapshot, chain_snapshot, snapshot, new, clamped_max,
}
use wallet_scan.Adaptive.Leases.{System, Reach, IsSound, held}
use wallet_scan.Adaptive.Methods.{new-IsSound}
use wallet_scan.Adaptive.HardCap.{start, Reach-IsSound, Reach-max}
use wallet_scan.HttpServer.{BalanceService, Request, capacity, handle_capacity}

-- The entries of a snapshot are those of the limiter.
lookup-chain_snapshot :
    (name : Text) (m : Map ChainState) (e : ChainSnapshot)
    → lookup name (map chain_snapshot m) ≡ some e
    → (st : ChainState) × (lookup name m ≡ some st)
      × (e.recommended_concurrency ≡ st.limit)
      × (e.active_in_flight ≡ st.active)
unfolding lookup chain_snapshot
lookup-chain_snapshot name [] e h = absurd (cc)
lookup-chain_snapshot name ((other, st) ∷ m) e h = elim (Bool-cases (other == name)) [
  | inl same ↦ rw same (st, refl, ground arith, ground arith)
  | inr differs ↦ rw differs (lookup-chain_snapshot name m e (rw differs at h))
]

-- What a snapshot says of the system that it was taken of.
pub record Describes (snap : Snapshot) (cap : ℕ) (leases : List Text) : Type 0 where
  pub most : snap.max_in_flight ≡ cap
  pub active : snap.active_in_flight ≡ length leases
  pub low : 1 ≤ snap.recommended_concurrency
  pub high : snap.recommended_concurrency ≤ cap
  pub each :
      (name : Text) (e : ChainSnapshot)
      → lookup name snap.chains ≡ some e
      → (e.active_in_flight ≡ held name leases)
        × (1 ≤ e.recommended_concurrency)
        × (e.recommended_concurrency ≤ cap)

snapshot-Describes :
    (s : System) → IsSound s → Describes (snapshot s.limiter) s.limiter.max s.leases
unfolding snapshot
snapshot-Describes s v = record {
  most = refl;
  active = v.counted.total;
  low = v.bounded.global_pos;
  high = v.bounded.global_le;
  each = λ name e h.
      let (st, found, limit, active) = lookup-chain_snapshot name s.limiter.chains e h in
      let counted = v.counted.each name in
      let (low, high) = v.bounded.each name st found in
      (active ∙ (rw found at counted), omega (arith, limit, low), omega (arith, limit, high));
}

capacity_content :
    (svc : BalanceService) (r : Request) (s : System) (snap : Snapshot)
    → (handle_capacity svc r s).content ≡ capacity snap
    → snap ≡ snapshot s.limiter
unfolding handle_capacity
capacity_content svc r s snap h = ground arith

-- In every interleaving of the limiter's callers, a snapshot that the capacity endpoint gives tells the
-- truth: the hard cap, the slots that are out, in all and for each chain that it lists, and
-- recommendations between 1 and the hard cap.
pub handle_capacity-Describes :
    (c : Config) (t0 : ℕ) {s : System} (q : Reach (start c t0) s) (svc : BalanceService)
    (r : Request) (snap : Snapshot)
    → (handle_capacity svc r s).content ≡ capacity snap
    → Describes snap (clamped_max c) s.leases
unfolding new
handle_capacity-Describes c t0 {s} q svc r snap h =
    let d = snapshot-Describes s (Reach-IsSound q (new-IsSound c t0)) in
    let same : s.limiter.max ≡ clamped_max c = Reach-max q in
    subst (λ n. Describes n (clamped_max c) s.leases) (sym (capacity_content svc r s snap h))
      (subst (λ n. Describes (snapshot s.limiter) n s.leases) same d)
