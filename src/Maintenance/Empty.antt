-- ===== src/Maintenance/Empty.antt =====
-- What the clean-up deletes: addresses whose chains all answered, with no balance above zero.
use wallet_scan.Prelude.{
  ℕ, ◌≡◌, refl, subst, true, false, Option, none, some, List, [], ◌∷◌, ◌++◌, nat_eq, arith, All,
  Bool-cases, inl, inr,
}
use wallet_scan.Prelude.Texts.{Text, text_eq}
use wallet_scan.Prelude.Int.{pos, ltb_ℤ}
use wallet_scan.Domain.{Address}
use wallet_scan.Providers.{Error}
use wallet_scan.Scanner.Check.{
  Config, Worlds, Reply, answered, refused, PositiveFinding, ScanFailure, chains_for,
}
use wallet_scan.Scanner.Check.Addresses.{answer, finding_of, findings_of, AreEmpty, empty_iff}
use wallet_scan.Store.Tables.{FindingRow, RetryRow, Database, has_finding, has_retry}
use wallet_scan.Store.Kept.Findings.{HaveRows}
use wallet_scan.Scanner.Run.{Scanner}
use wallet_scan.Scanner.Run.Coverage.{HaveRetries, IsDone}
use wallet_scan.Maintenance.{has_findings, has_retries}

has_finding-has_findings :
    (id : ℕ) (c : Text) (fs : List FindingRow)
    → has_finding id c fs ≡ true
    → has_findings id fs ≡ true
unfolding has_finding has_findings
has_finding-has_findings id c [] h = h
has_finding-has_findings id c (f ∷ fs) h = ground (arith, has_finding-has_findings id c fs)

has_retry-has_retries :
    (id : ℕ) (c : Text) (qs : List RetryRow) → has_retry id c qs ≡ true → has_retries id qs ≡ true
unfolding has_retry has_retries
has_retry-has_retries id c [] h = h
has_retry-has_retries id c (q ∷ qs) h = ground (arith, has_retry-has_retries id c qs)

-- A list of failures that have rows is empty if the address has none; so is one of findings.
no_failures :
    (id : ℕ) (d : Database) (fs : List ScanFailure)
    → has_retries id d.retries ≡ false
    → HaveRetries id fs d
    → fs ≡ []
no_failures id d [] none_there h = refl
no_failures id d (f ∷ fs) none_there h =
    let there : has_retries id d.retries ≡ true = has_retry-has_retries id f.chain d.retries h.0 in
    absurd (cc)

no_findings :
    (id : ℕ) (d : Database) (fs : List PositiveFinding)
    → has_findings id d.findings ≡ false
    → All (λ (f : PositiveFinding). f.address_id ≡ id) fs
    → HaveRows fs d
    → fs ≡ []
no_findings id d [] none_there named h = refl
no_findings id d (f ∷ fs) none_there named h =
    let there : has_findings id d.findings ≡ true =
      subst (λ i. has_findings i d.findings ≡ true) named.0
        (has_finding-has_findings f.address_id f.chain d.findings h.0) in
    absurd (cc)

module _ (show : Error → Text) (cfg : Config) (ws : Worlds) (a : Address) where
  findings_of_named :
      (cs : List Text)
      → All (λ (f : PositiveFinding). f.address_id ≡ a.id) (findings_of show cfg ws a cs)
  unfolding findings_of
  findings_of_named [] = tt
  findings_of_named (c ∷ cs) = one (answer show cfg ws a c) (findings_of_named cs)
    where
      one :
          (o : Option Reply)
          → All (λ (f : PositiveFinding). f.address_id ≡ a.id) (findings_of show cfg ws a cs)
          → All
              (λ (f : PositiveFinding). f.address_id ≡ a.id)
              (finding_of show cfg ws a o ++ findings_of show cfg ws a cs)
      one none rest = unfold finding_of in rest
      one (some (refused e)) rest = unfold finding_of in rest
      one (some (answered x)) rest = elim (Bool-cases (ltb_ℤ (pos 0) x.value)) [
        | inl above ↦ unfold finding_of in rw above (refl, rest)
        | inr nothing ↦ unfold finding_of in rw nothing rest
      ]

-- In some batch, the provider of each chain of the address answered, with no balance above zero.
abbrev pub IsConfirmed : Scanner → Address → Type 0
IsConfirmed sc a =
    (n : ℕ) × AreEmpty sc.show sc.config (sc.answers n a.id) a (chains_for a.address_type)

pub IsDone-IsConfirmed :
    (sc : Scanner) (d : Database) (a : Address)
    → IsDone sc d a
    → has_findings a.id d.findings ≡ false
    → has_retries a.id d.retries ≡ false
    → IsConfirmed sc a
IsDone-IsConfirmed sc d a (n, f, q) no_row no_retry =
    let ws = sc.answers n a.id in
    let cs = chains_for a.address_type in
    (
      n,
      (empty_iff sc.show sc.config ws a cs).0 (
        no_findings a.id d _ no_row (findings_of_named sc.show sc.config ws a cs) f,
        no_failures a.id d _ no_retry q,
      ),
    )
