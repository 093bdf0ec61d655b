-- ===== src/Scanner/Check/Addresses.antt =====
-- What `checkAddress` reports, chain by chain.
use wallet_scan.Prelude.{
  ◌≡◌, refl, ◌∙◌, false, Option, none, some, List, [], ◌∷◌, ◌++◌, append_assoc, append-nil, arith,
  ◌↔◌, if◌then◌else◌, Option-cases, inl, inr,
}
use wallet_scan.Prelude.Int.{pos, ltb_ℤ}
use wallet_scan.Prelude.Texts.{Text, codes}
use wallet_scan.Prelude.Maps.{lookup}
use wallet_scan.Domain.{Address}
use wallet_scan.Providers.{Error, error_text}
use wallet_scan.Scanner.Health.{HealthTracker, new_health_tracker}
use wallet_scan.Scanner.Check.{
  Config, Reply, answered, refused, World, Worlds, Query, as_provider_error, check_with_retry,
  chains_for, PositiveFinding, ScanFailure, AddressResult, on_failure, on_query, check_chain,
  check_chains, check_address,
}
use wallet_scan.Scanner.Check.Retry.{check_with_retry-reply}

append-nil_left {ℓ} : {A : Type ℓ} (xs ys : List A) → xs ++ ys ≡ [] → xs ≡ []
append-nil_left [] ys h = refl
append-nil_left (x ∷ xs) ys h = absurd (cc)

append-nil_right {ℓ} : {A : Type ℓ} (xs ys : List A) → xs ++ ys ≡ [] → ys ≡ []
append-nil_right [] ys h = h
append-nil_right (x ∷ xs) ys h = absurd (cc)

append-nil_both {ℓ} : {A : Type ℓ} (xs ys : List A) → xs ≡ [] → ys ≡ [] → xs ++ ys ≡ []
append-nil_both xs ys h k = rw (h, k)

module _ (show : Error → Text) (cfg : Config) (ws : Worlds) (a : Address) where
  -- What the provider of a chain answers in the end; `none` if the chain has no provider.
  unfoldable pub answer : Text → Option Reply
  answer chain = elim (lookup chain ws) [
    | none ↦ none
    | some (w, limited) ↦
        some (check_with_retry show cfg limited chain w (new_health_tracker (pos 0))).reply
  ]

  -- A balance above zero is a finding, and nothing else is.
  unfoldable pub finding_of : Option Reply → List PositiveFinding
  finding_of none = []
  finding_of (some (refused e)) = []
  finding_of (some (answered c)) =
      if ltb_ℤ (pos 0) c.value
      then (record {
        address_id = a.id;
        chain = c.chain;
        balance = c.value;
        asset_symbol = c.symbol;
      })
        ∷ []
      else []

  -- A chain with no provider is a failure, and so is a query that ended in an error.
  unfoldable pub failure_of : Text → Option Reply → List ScanFailure
  failure_of chain none =
      (record {
        chain = chain;
        code = codes "provider_unconfigured";
        provider = [];
        message = codes "provider is not configured";
      })
      ∷ []
  failure_of chain (some (answered c)) = []
  failure_of chain (some (refused e)) =
      let found = as_provider_error show e chain in
      (record {
        chain = chain;
        code = found.code;
        provider = found.provider;
        message = error_text found;
      })
      ∷ []

  unfoldable pub findings_of : List Text → List PositiveFinding
  findings_of [] = []
  findings_of (c ∷ cs) = finding_of (answer c) ++ findings_of cs

  unfoldable pub failures_of : List Text → List ScanFailure
  failures_of [] = []
  failures_of (c ∷ cs) = failure_of c (answer c) ++ failures_of cs

  on_failure_reports :
      (chain : Text) (w : World) (e : Error) (h : HealthTracker) (r : AddressResult)
      → ((on_failure show chain w e h r).0.findings ≡ r.findings)
        × ((on_failure show chain w e h r).0.errors
            ≡ r.errors ++ failure_of chain (some (refused e)))
        × ((on_failure show chain w e h r).0.address ≡ r.address)
  unfolding on_failure failure_of
  on_failure_reports chain w e h r = ground arith

  on_query_reports :
      (chain : Text) (w : World) (q : Query) (r : AddressResult)
      → ((on_query show a chain w q r).0.findings ≡ r.findings ++ finding_of (some q.reply))
        × ((on_query show a chain w q r).0.errors ≡ r.errors ++ failure_of chain (some q.reply))
  unfolding on_query finding_of failure_of
  on_query_reports chain w q r = by_reply q.reply refl
    where
      by_reply :
          (reply : Reply)
          → q.reply ≡ reply
          → ((on_query show a chain w q r).0.findings ≡ r.findings ++ finding_of (some q.reply))
            × ((on_query show a chain w q r).0.errors ≡ r.errors ++ failure_of chain (some q.reply))
      by_reply (answered c) e = ground (arith, append-nil r.findings, append-nil r.errors)
      by_reply (refused x) e = ground (
        arith,
        on_failure_reports chain w x q.health r,
        append-nil r.findings,
        append-nil r.errors,
      )

  check_chain_reports :
      (chain : Text) (r : AddressResult) (h : HealthTracker)
      → ((check_chain show cfg ws a chain (r, h)).0.findings
          ≡ r.findings ++ finding_of (answer chain))
        × ((check_chain show cfg ws a chain (r, h)).0.errors
            ≡ r.errors ++ failure_of chain (answer chain))
  unfolding check_chain answer
  check_chain_reports chain r h = elim (Option-cases (lookup chain ws)) [
    | inl absent ↦ unfold finding_of failure_of in ground (arith, append-nil r.findings)
    | inr ((w, limited), e) ↦
        let q = check_with_retry show cfg limited chain w h in
        let q' = check_with_retry show cfg limited chain w (new_health_tracker (pos 0)) in
        let same = check_with_retry-reply show cfg limited chain w h (new_health_tracker (pos 0)) in
        ground (arith, on_query_reports chain w q r)
  ]

  check_chains_reports :
      (cs : List Text) (rh : AddressResult × HealthTracker)
      → ((check_chains show cfg ws a cs rh).0.findings ≡ rh.0.findings ++ findings_of cs)
        × ((check_chains show cfg ws a cs rh).0.errors ≡ rh.0.errors ++ failures_of cs)
  unfolding check_chains findings_of failures_of
  check_chains_reports [] rh = (rw append-nil, rw append-nil)
  check_chains_reports (c ∷ cs) (r, h) =
      let (here, bad) = check_chain_reports c r h in
      let (rest, worse) = check_chains_reports cs (check_chain show cfg ws a c (r, h)) in
      (rest ∙ rw (here, append_assoc), worse ∙ rw (bad, append_assoc))

  -- The findings of an address are its balances above zero and its errors are its failed queries and
  -- its chains without a provider, in the order of its chains, whatever the state of the health
  -- tracker and whatever the other workers do to it.
  pub check_address_reports :
      (h : HealthTracker)
      → ((check_address show cfg ws a h).0.findings ≡ findings_of (chains_for a.address_type))
        × ((check_address show cfg ws a h).0.errors ≡ failures_of (chains_for a.address_type))
  unfolding check_address
  check_address_reports h = check_chains_reports (chains_for a.address_type) _

  -- A chain that was asked, answered, and has no balance above zero.
  abbrev pub IsEmptyAnswer : Option Reply → Type 0
  IsEmptyAnswer none = ⊥
  IsEmptyAnswer (some (refused e)) = ⊥
  IsEmptyAnswer (some (answered c)) = ltb_ℤ (pos 0) c.value ≡ false

  abbrev pub AreEmpty : List Text → Type 0
  AreEmpty [] = Unit
  AreEmpty (c ∷ cs) = IsEmptyAnswer (answer c) × AreEmpty cs

  IsEmptyAnswer-iff :
      (chain : Text) (o : Option Reply)
      → (((finding_of o ≡ []) × (failure_of chain o ≡ [])) ↔ IsEmptyAnswer o)
  unfolding finding_of failure_of
  IsEmptyAnswer-iff chain none = ((λ h. cc), (λ h. absurd h))
  IsEmptyAnswer-iff chain (some (refused e)) = ((λ h. cc), (λ h. absurd h))
  IsEmptyAnswer-iff chain (some (answered c)) = ((λ h. ground arith), (λ h. ground arith))

  pub empty_iff : (cs : List Text) → (((findings_of cs ≡ []) × (failures_of cs ≡ [])) ↔ AreEmpty cs)
  unfolding findings_of failures_of
  empty_iff [] = ((λ h. tt), (λ h. (refl, refl)))
  empty_iff (c ∷ cs) =
      let (first, first') = IsEmptyAnswer-iff c (answer c) in
      let (rest, rest') = empty_iff cs in
      (
        (λ h. (
          first (append-nil_left _ _ h.0, append-nil_left _ _ h.1),
          rest (append-nil_right _ _ h.0, append-nil_right _ _ h.1),
        )),
        (λ h. (
          append-nil_both _ _ (first' h.0).0 (rest' h.1).0,
          append-nil_both _ _ (first' h.0).1 (rest' h.1).1,
        )),
      )

  -- An address counts as empty, with no finding and no error, exactly when the provider of each of its
  -- chains answered, and with no balance above zero: a failed query or a missing provider never makes
  -- an address empty.
  pub check_address_empty :
      (h : HealthTracker)
      → (((check_address show cfg ws a h).0.findings ≡ [])
          × ((check_address show cfg ws a h).0.errors ≡ []))
        ↔ AreEmpty (chains_for a.address_type)
  check_address_empty h =
      rw (check_address_reports h).0
        (rw (check_address_reports h).1 (empty_iff (chains_for a.address_type)))
