-- ===== src/Scanner/Run/Coverage.antt =====
-- What a finished check leaves in the database, and how much of the addresses a run has done.
use mathlib.Core.List.{Permᴰ}
use wallet_scan.Prelude.{
  ℕ, ◌≡◌, refl, ◌∙◌, subst, Bool, true, Option, none, some, List, [], ◌∷◌, map, arith, All, nat_eq,
}
use wallet_scan.Prelude.Texts.{Text}
use wallet_scan.Prelude.Maps.{lookup}
use wallet_scan.Domain.{Address}
use wallet_scan.Providers.{Error}
use wallet_scan.Scanner.Health.{HealthTracker}
use wallet_scan.Scanner.Check.{
  Config, Worlds, ScanFailure, AddressResult, chains_for, check_address, check_chains, check_chain,
  on_query, on_failure, World, Query, Reply, answered, refused,
}
use wallet_scan.Scanner.Check.Addresses.{findings_of, failures_of, check_address_reports}
use wallet_scan.Store.Tables.{AddressRow, Database, has_retry}
use wallet_scan.Store.Kept.{Kept, stays}
use wallet_scan.Store.Kept.Findings.{HaveRows, HaveRows-Kept}
use wallet_scan.Store.Scans.{address_of}
use wallet_scan.Scanner.Run.{Scanner, check_batch}

abbrev pub HaveRetries : ℕ → List ScanFailure → Database → Type 0
HaveRetries id fs d = All (λ f. has_retry id f.chain d.retries ≡ true) fs

pub HaveRetries-Kept :
    (id : ℕ) (fs : List ScanFailure) (d e : Database)
    → Kept d e
    → HaveRetries id fs d
    → HaveRetries id fs e
HaveRetries-Kept id [] d e k h = tt
HaveRetries-Kept id (f ∷ fs) d e k h =
    (stays _ _ (k.retries id f.chain) h.0, HaveRetries-Kept id fs d e k h.1)

-- A result is stored: a finding row for each of its balances, and a retry row for each of its errors.
abbrev pub Recorded : Database → AddressResult → Type 0
Recorded d r = HaveRows r.findings d × HaveRetries r.address.id r.errors d

pub Recorded-Kept : (d e : Database) (r : AddressResult) → Kept d e → Recorded d r → Recorded e r
Recorded-Kept d e r k (f, q) =
    (HaveRows-Kept r.findings d e k f, HaveRetries-Kept r.address.id r.errors d e k q)

-- An address is done: in some batch its chains were asked, each balance above zero has a finding row
-- and each chain that failed or has no provider has a retry row.
abbrev pub IsDone : Scanner → Database → Address → Type 0
IsDone sc d a =
    (n : ℕ) × HaveRows
      (findings_of sc.show sc.config (sc.answers n a.id) a (chains_for a.address_type)) d
    × HaveRetries a.id
        (failures_of sc.show sc.config (sc.answers n a.id) a (chains_for a.address_type)) d

pub IsDone-Kept :
    (sc : Scanner) (d e : Database) (a : Address) → Kept d e → IsDone sc d a → IsDone sc e a
IsDone-Kept sc d e a k (n, f, q) = (n, HaveRows-Kept _ d e k f, HaveRetries-Kept a.id _ d e k q)

abbrev pub AreDone : Scanner → Database → List AddressRow → Type 0
AreDone sc d rows = All (λ a. IsDone sc d (address_of a)) rows

pub AreDone-Kept :
    (sc : Scanner) (d e : Database) (rows : List AddressRow)
    → Kept d e
    → AreDone sc d rows
    → AreDone sc e rows
AreDone-Kept sc d e [] k h = tt
AreDone-Kept sc d e (a ∷ rows) k h =
    (IsDone-Kept sc d e (address_of a) k h.0, AreDone-Kept sc d e rows k h.1)

pub AreDone-map :
    (sc : Scanner) (d : Database) (rows : List AddressRow)
    → All (IsDone sc d) (map address_of rows)
    → AreDone sc d rows
AreDone-map sc d [] h = tt
AreDone-map sc d (a ∷ rows) h = (h.0, AreDone-map sc d rows h.1)

pub All-perm {ℓ} :
    {A : Type ℓ} (P : A → Type 0) {xs ys : List A} → Permᴰ xs ys → All P xs → All P ys
All-perm P Permᴰ.nil h = h
All-perm P (Permᴰ.cons e d) h = (subst P e h.0, All-perm P d h.1)
All-perm P (Permᴰ.swap e f) h = (subst P f h.1.0, (subst P e h.0, h.1.1))
All-perm P (Permᴰ.trans d e) h = All-perm P e (All-perm P d h)

on_failure_address :
    (show : Error → Text) (chain : Text) (w : World) (e : Error) (h : HealthTracker)
    (r : AddressResult)
    → (on_failure show chain w e h r).0.address ≡ r.address
unfolding on_failure
on_failure_address show chain w e h r = ground arith

on_query_address :
    (show : Error → Text) (a : Address) (chain : Text) (w : World) (q : Query) (r : AddressResult)
    → (on_query show a chain w q r).0.address ≡ r.address
unfolding on_query
on_query_address show a chain w q r = by_reply q.reply refl
  where
    by_reply : (x : Reply) → q.reply ≡ x → (on_query show a chain w q r).0.address ≡ r.address
    by_reply (refused e) k = rw (k, on_query) (on_failure_address show chain w e q.health r)
    by_reply (answered c) k = rw (k, on_query) (ground arith)

check_chain_address :
    (show : Error → Text) (cfg : Config) (ws : Worlds) (a : Address) (c : Text)
    (rh : AddressResult × HealthTracker)
    → (check_chain show cfg ws a c rh).0.address ≡ rh.0.address
unfolding check_chain
check_chain_address show cfg ws a c rh = by_world (lookup c ws) refl
  where
    by_world :
        (o : Option (World × Bool))
        → lookup c ws ≡ o
        → (check_chain show cfg ws a c rh).0.address ≡ rh.0.address
    by_world none e = rw (e, check_chain) refl
    by_world (some (w, limited)) e = rw (e, check_chain) (on_query_address show a c w _ rh.0)

check_chains_address :
    (show : Error → Text) (cfg : Config) (ws : Worlds) (a : Address) (cs : List Text)
    (rh : AddressResult × HealthTracker)
    → (check_chains show cfg ws a cs rh).0.address ≡ rh.0.address
unfolding check_chains
check_chains_address show cfg ws a [] rh = refl
check_chains_address show cfg ws a (c ∷ cs) rh =
    check_chains_address show cfg ws a cs (check_chain show cfg ws a c rh)
    ∙ check_chain_address show cfg ws a c rh

check_address-address :
    (show : Error → Text) (cfg : Config) (ws : Worlds) (a : Address) (h : HealthTracker)
    → (check_address show cfg ws a h).0.address ≡ a
unfolding check_address
check_address-address show cfg ws a h =
    check_chains_address show cfg ws a (chains_for a.address_type) _

-- A stored check of an address makes it done.
Recorded-IsDone :
    (sc : Scanner) (n : ℕ) (a : Address) (h : HealthTracker) (d : Database)
    → Recorded d (check_address sc.show sc.config (sc.answers n a.id) a h).0
    → IsDone sc d a
Recorded-IsDone sc n a h d (f, q) =
    let r = (check_address sc.show sc.config (sc.answers n a.id) a h).0 in
    let same = check_address_reports sc.show sc.config (sc.answers n a.id) a h in
    let named : r.address ≡ a = check_address-address sc.show sc.config (sc.answers n a.id) a h in
    (
      n,
      subst (λ l. HaveRows l d) same.0 f,
      subst (λ l. HaveRetries a.id l d) same.1
          (subst (λ (b : Address). HaveRetries b.id r.errors d) named q),
    )

pub check_batch-IsDone :
    (sc : Scanner) (n : ℕ) (batch : List Address) (h : HealthTracker) (d : Database)
    → All (Recorded d) (check_batch sc n batch h).0
    → All (IsDone sc d) batch
unfolding check_batch
check_batch-IsDone sc n [] h d rs = tt
check_batch-IsDone sc n (a ∷ batch) h d rs =
    (Recorded-IsDone sc n a h d rs.0, check_batch-IsDone sc n batch _ d rs.1)
