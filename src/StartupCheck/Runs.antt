-- ===== src/StartupCheck/Runs.antt =====
-- A run of the startup check hands six results to the store, one for each target.
use wallet_scan.Prelude.{
  ℕ, ◌≡◌, refl, sym, subst, inl, inr, ◌↔◌, Option, none, some, List, [], ◌∷◌, arith, Option-cases,
  All,
}
use wallet_scan.Prelude.Texts.{Text, codes}
use wallet_scan.Domain.{AddressInput}
use wallet_scan.Providers.{Result, ok}
use wallet_scan.Adaptive.Leases.{System}
use wallet_scan.HttpServer.{World}
use wallet_scan.StartupCheck.{
  Addresses, Target, BalanceCheck, Service, check, inputs_of, target_for, targets_of, check_all,
  save_all, saved, done, Run, run_targets, run_addresses, run_once,
}
use wallet_scan.StartupCheck.Results.{FitsTarget, check_fits}

-- Two lists, item by item.
abbrev pub Each : Service → List Target → List BalanceCheck → Type 0
Each svc [] [] = Unit
Each svc [] (c ∷ cs) = ⊥
Each svc (t ∷ ts) [] = ⊥
Each svc (t ∷ ts) (c ∷ cs) = FitsTarget svc t c × Each svc ts cs

check_all_inv :
    (svc : Service) (worlds : Text → World) (t : Target) (ts : List Target) (s : System)
    (cs : List BalanceCheck) (s' : System)
    → check_all svc worlds (t ∷ ts) s ≡ some (cs, s')
    → (c : BalanceCheck) × (s1 : System) × (rest : List BalanceCheck) × (check svc
          (worlds t.chain)
          t
          s
        ≡ some (c, s1))
      × (check_all svc worlds ts s1 ≡ some (rest, s'))
      × (cs ≡ c ∷ rest)
unfolding check_all
check_all_inv svc worlds t ts s cs s' h = elim (Option-cases (check svc (worlds t.chain) t s)) [
  | inl e ↦ absurd (ground arith)
  | inr ((c, s1), e) ↦ elim (Option-cases (check_all svc worlds ts s1)) [
    | inl e' ↦ absurd (ground arith)
    | inr ((rest, s2), e') ↦ (c, s1, rest, e, ground arith, ground arith)
  ]
]

check_all_fits :
    (svc : Service) (worlds : Text → World) (items : List Target) (s : System)
    (cs : List BalanceCheck) (s' : System)
    → check_all svc worlds items s ≡ some (cs, s')
    → Each svc items cs
unfolding check_all
check_all_fits svc worlds [] s [] s' h = tt
check_all_fits svc worlds [] s (c ∷ cs) s' h = ground arith
check_all_fits svc worlds (t ∷ ts) s cs s' h =
    let (c, s1, rest, checked, others, is_cons) = check_all_inv svc worlds t ts s cs s' h in
    subst (Each svc (t ∷ ts)) (sym is_cons) (
      check_fits svc (worlds t.chain) t s c s1 checked,
      check_all_fits svc worlds ts s1 rest s' others,
    )

save_all-none :
    (save : BalanceCheck → Option Text) (cs : List BalanceCheck)
    → (save_all save cs ≡ none) ↔ All (λ c. save c ≡ none) cs
unfolding save_all
save_all-none save [] = ((λ h. tt), (λ h. refl))
save_all-none save (c ∷ cs) = (
  (λ h. (ground arith, (save_all-none save cs).0 (ground arith))),
  (λ h. ground (arith, (save_all-none save cs).1 h.1)),
)

-- The six targets of a wallet: each address under its own id, the EVM address on three chains.
abbrev pub six_targets : Addresses → ℕ → ℕ → ℕ → ℕ → List Target
six_targets a i0 i1 i2 i3 =
    target_for i0 (codes "btc") (codes "btc") a.btc
    ∷ target_for i1 (codes "evm") (codes "ethereum") a.eth
    ∷ target_for i1 (codes "evm") (codes "arbitrum") a.eth
    ∷ target_for i1 (codes "evm") (codes "bsc") a.eth
    ∷ target_for i2 (codes "sol") (codes "solana") a.sol
    ∷ target_for i3 (codes "trx") (codes "tron") a.trx
    ∷ []

saved_done : (o : Option Text) → saved o ≡ done → o ≡ none
saved_done none h = refl
saved_done (some e) h = absurd (cc)

run_targets_lem :
    (svc : Service) (worlds : Text → World) (save : BalanceCheck → Option Text)
    (items : List Target) (s : System) (run : Run)
    → run_targets svc worlds save items s ≡ some run
    → Each svc items run.handed × ((run.result ≡ done) ↔ All (λ c. save c ≡ none) run.handed)
unfolding run_targets
run_targets_lem svc worlds save items s run h = elim (Option-cases (check_all svc worlds items s)) [
  | inl e ↦ absurd (ground arith)
  | inr ((cs, s'), e) ↦
      let fits = check_all_fits svc worlds items s cs s' e in
      let same : run.handed ≡ cs = ground arith in
      let outcome : run.result ≡ saved (save_all save cs) = ground arith in
      rw (same, outcome)
        (
          fits,
          (
            (λ d. (save_all-none save cs).0 (saved_done (save_all save cs) d)),
            (λ a. rw ((save_all-none save cs).1 a)),
          ),
        )
]

-- Once four ids are there, a run hands exactly six results to the store, whatever the store does with
-- each of them: one for each target in order, under the id of its address, each as `check_fits` says.
-- The run succeeds exactly when the store takes all six.
pub run_once_six :
    (svc : Service) (worlds : Text → World) (save : BalanceCheck → Option Text)
    (insert : List AddressInput → Result (List ℕ)) (a : Addresses) (s : System) (run : Run)
    (i0 i1 i2 i3 : ℕ)
    → insert (inputs_of a) ≡ ok (i0 ∷ i1 ∷ i2 ∷ i3 ∷ [])
    → run_once svc worlds save insert (ok a) s ≡ some run
    → Each svc (six_targets a i0 i1 i2 i3) run.handed
      × ((run.result ≡ done) ↔ All (λ c. save c ≡ none) run.handed)
unfolding run_once run_addresses targets_of
run_once_six svc worlds save insert a s run i0 i1 i2 i3 ids h =
    run_targets_lem svc worlds save (six_targets a i0 i1 i2 i3) s run (ground arith)
