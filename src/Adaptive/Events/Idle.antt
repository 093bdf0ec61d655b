-- ===== src/Adaptive/Events/Idle.antt =====
-- The calls that end no request of a chain, which leave its limit and its statistics as they are.
use wallet_scan.Prelude.{
  ℕ, ◌+◌, ◌≡◌, refl, ap, Bool, true, false, some, arith, Bool-cases, inl, inr, ◌==◌,
}
use wallet_scan.Prelude.Texts.{Text, text_eq, text_beq_iff}
use wallet_scan.Prelude.Maps.{lookup, lookup-insert}
use wallet_scan.Adaptive.Methods.{adjust_frame, give_back_frame}
use wallet_scan.Adaptive.{
  Limiter, ChainState, Outcome, fresh, chain, register, adjust, give_back, release, has_room,
  attempt, retry_after,
}
use wallet_scan.Adaptive.Events.{Event, mentioned, tried, advised, ended, apply, chain-known}

-- The state of a chain after a call that ends none of its requests: at most its slots have changed.
pub record IsIdle (s t : ChainState) : Type 0 where
  pub limit : t.limit ≡ s.limit
  pub samples : t.samples ≡ s.samples
  pub failures : t.failures ≡ s.failures
  pub latency : t.latency_ewma ≡ s.latency_ewma
  pub last : t.last_adjustment ≡ s.last_adjustment

IsIdle-same : (s : ChainState) → IsIdle s s
IsIdle-same s = record {
  limit = refl;
  samples = refl;
  failures = refl;
  latency = refl;
  last = refl;
}

abbrev pub HasIdle : Text → Limiter → ChainState → Type 0
HasIdle name l s = (t : ChainState) × (lookup name l.chains ≡ some t) × IsIdle s t

chain-lookup :
    (l : Limiter) (t name : Text) (now : ℕ) (s : ChainState)
    → lookup name l.chains ≡ some s
    → lookup name (chain l t now).1.chains ≡ some s
unfolding chain
chain-lookup l t name now s e =
    ground (arith, text_beq_iff t name, lookup-insert t name (fresh l.global_limit now) l.chains)

attempt-HasIdle :
    (l : Limiter) (t name : Text) (now : ℕ) (s : ChainState)
    → lookup name l.chains ≡ some s
    → HasIdle name (attempt l t now).1 s
unfolding attempt
attempt-HasIdle l t name now s e =
    elim (Bool-cases (has_room (chain l t now).1 (chain l t now).0)) [
      | inr full ↦ rw full (s, chain-lookup l t name now s e, IsIdle-same s)
      | inl room ↦
          let (c, l') = chain l t now in
          let taken = record c { active = c.active + 1 } in
          elim (Bool-cases (t == name)) [
            | inr other ↦ rw room (
              s,
              ground (arith, lookup-insert t name taken l'.chains, chain-lookup l t name now s e),
              IsIdle-same s,
            )
            | inl same ↦
                let named : t ≡ name = (text_beq_iff t name).0 same in
                let known : c ≡ s = ap (λ x. x.0) (chain-known l t now s (rw named e)) in
                rw room (
                  taken,
                  ground (arith, lookup-insert t name taken l'.chains),
                  rw known (record {
                    limit = refl;
                    samples = refl;
                    failures = refl;
                    latency = refl;
                    last = refl;
                  }),
                )
          ]
    ]

release-HasIdle :
    (l : Limiter) (o : Outcome) (name : Text) (now : ℕ) (s : ChainState)
    → (o.chain == name) ≡ false
    → lookup name l.chains ≡ some s
    → HasIdle name (release l o now) s
unfolding release
release-HasIdle l o name now s other e =
    let (s', l') = give_back l o now in
    let (adjusted, global) = adjust l' l'.global true now in
    let r = adjust (record adjusted { global = global }) s' false now in
    let kept = chain-lookup l o.chain name now s e in
    (
      s,
      ground (
        arith,
        lookup-insert o.chain name r.1 r.0.chains,
        adjust_frame (record adjusted { global = global }) s' false now,
        adjust_frame l' l'.global true now,
        give_back_frame l o now,
      ),
      IsIdle-same s,
    )

-- Whether a call ends a request of the chain.
abbrev pub ends_one : Text → Event → Bool
ends_one name (mentioned t now) = false
ends_one name (tried t now) = false
ends_one name (advised t now) = false
ends_one name (ended o now) = o.chain == name

pub apply-HasIdle :
    (l : Limiter) (name : Text) (e : Event) (s : ChainState)
    → ends_one name e ≡ false
    → lookup name l.chains ≡ some s
    → HasIdle name (apply l e) s
unfolding apply register retry_after
apply-HasIdle l name (mentioned t now) s h k = (s, chain-lookup l t name now s k, IsIdle-same s)
apply-HasIdle l name (tried t now) s h k = attempt-HasIdle l t name now s k
apply-HasIdle l name (advised t now) s h k = (s, chain-lookup l t name now s k, IsIdle-same s)
apply-HasIdle l name (ended o now) s h k = release-HasIdle l o name now s h k
