-- ===== src/HttpServer/Outcomes.antt =====
-- The two ways in which the balance endpoint ends: a refusal that asks no one and touches nothing, or a
-- query of the provider through the limiter.
use wallet_scan.Prelude.{ℕ, ◌≡◌, refl, ◌⊎◌, inl, inr, true, Option, none, some, ◌==◌, Bool-cases}
use wallet_scan.Prelude.Texts.{Text, codes, text_eq}
use wallet_scan.Prelude.Maps.{lookup}
use wallet_scan.Providers.{Balance, Result}
use wallet_scan.Adaptive.Leases.{System}
use wallet_scan.Adaptive.Acquire.{acquire}
use wallet_scan.Importer.{Validated, valid, invalid, normalize_and_validate}
use wallet_scan.HttpServer.{
  BalanceRequest, BalanceService, Body, malformed, several, single, Request, Response, World,
  write_error, rejected_state, retry_state, authorized, chain_allowed, cleaned, answer, serve,
  validate, handle_body, handle_balance,
}

-- A status and a state that go together.
abbrev pub Matches : ℕ → Text → Type 0
Matches status state =
    ((state ≡ rejected_state) × ((status ≡ 400) ⊎ (status ≡ 401) ⊎ (status ≡ 405)))
    ⊎ ((state ≡ retry_state) × ((status ≡ 429) ⊎ (status ≡ 502) ⊎ (status ≡ 503)))

module _ (svc : BalanceService) (w : World) (s : System) where
  pub data Outcome : Option (Response × System) → Type 0 where
    declined :
        (status : ℕ) (state code provider : Text)
        → Matches status state
        → Outcome (some (write_error status state code provider, s))
    queried :
        (input : BalanceRequest) (n : Text) (check : Text → Result Balance)
        → normalize_and_validate input.address_type input.address ≡ valid n
        → chain_allowed input.address_type input.chain ≡ true
        → lookup input.chain svc.providers ≡ some check
        → Outcome (answer w input n (check n) (acquire w.arrived input.chain w.rounds s))

  serve-Outcome :
      (input : BalanceRequest) (n : Text)
      → normalize_and_validate input.address_type input.address ≡ valid n
      → chain_allowed input.address_type input.chain ≡ true
      → Outcome (serve svc w input n s)
  unfolding serve
  serve-Outcome input n known fits = by_provider (lookup input.chain svc.providers) refl
    where
      by_provider :
          (o : Option (Text → Result Balance))
          → lookup input.chain svc.providers ≡ o
          → Outcome (serve svc w input n s)
      by_provider none e = rw (e, serve) (declined _ _ _ _ (inr (refl, inr (inr refl))))
      by_provider (some check) e = elim (Bool-cases svc.has_limiter) [
        | inl on ↦ rw (e, serve, on) (queried input n check known fits e)
        | inr off ↦ rw (e, serve, off) (declined _ _ _ _ (inr (refl, inr (inr refl))))
      ]

  validate-Outcome : (input : BalanceRequest) → Outcome (validate svc w input s)
  unfolding validate
  validate-Outcome input =
      by_validity (normalize_and_validate input.address_type input.address) refl
    where
      by_validity :
          (v : Validated)
          → normalize_and_validate input.address_type input.address ≡ v
          → Outcome (validate svc w input s)
      by_validity (invalid x) e = rw (e, validate) (declined _ _ _ _ (inl (refl, inl refl)))
      by_validity (valid n) e = elim (Bool-cases (chain_allowed input.address_type input.chain)) [
        | inl fits ↦ rw (e, validate, fits) (serve-Outcome input n e fits)
        | inr other ↦ rw (e, validate, other) (declined _ _ _ _ (inl (refl, inl refl)))
      ]

  handle_body-Outcome : (b : Body) → Outcome (handle_body svc w b s)
  unfolding handle_body
  handle_body-Outcome malformed = declined _ _ _ _ (inl (refl, inl refl))
  handle_body-Outcome several = declined _ _ _ _ (inl (refl, inl refl))
  handle_body-Outcome (single input) = validate-Outcome (cleaned input)

  pub handle_balance-Outcome : (r : Request) → Outcome (handle_balance svc w r s)
  unfolding handle_balance
  handle_balance-Outcome r = elim (Bool-cases (r.method == codes "POST")) [
    | inl post ↦ elim (Bool-cases (authorized svc r)) [
      | inl known ↦ rw (post, known) (handle_body-Outcome r.body)
      | inr unknown ↦ rw (post, unknown) (declined _ _ _ _ (inl (refl, inr (inl refl))))
    ]
    | inr other ↦ rw other (declined _ _ _ _ (inl (refl, inr (inr refl))))
  ]
