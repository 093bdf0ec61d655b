-- ===== src/Store/Kept.antt =====
-- What the operations that a scan performs leave alone: the addresses and the scan runs, and the rows of
-- findings and retries once they are there.
pub mod Retries
pub mod Findings
use wallet_scan.Prelude.{
  ℕ, ◌+◌, ◌≡◌, refl, sym, ◌∙◌, Bool, true, false, not, ◌&&◌, ◌||◌, Option, none, some, List, [],
  ◌∷◌, ◌++◌, ◌==◌, nat_eq, if◌then◌else◌, arith, All, Bool-cases, inl, inr,
}
use wallet_scan.Prelude.Int.{ℤ, eqb_ℤ}
use wallet_scan.Prelude.Texts.{Text, text_eq, text_beq_iff}
use wallet_scan.Scanner.Check.{PositiveFinding}
use wallet_scan.Store.Tables.{
  AddressRow, RetryRow, FindingRow, RunRow, Sequences, Database, has_retry, has_finding,
  find_finding, first_positive, balance_changed, is_positive_numeric, is_chain, has_address,
}
use wallet_scan.Store.Session.{
  Moment, Result, ok, err, System, M, pure, ◌>>=◌, ◌>>◌, statement, transaction, asked_once,
}
use wallet_scan.Store.Rules.{
  IsPreorder, Runs, Ends, Post, Post-map, pure-Runs, statement-Runs, bind-Runs, for_each-Runs,
  transaction-Runs,
}
use wallet_scan.Store.Scans.{select}
use wallet_scan.Store.Records.{
  update_retry, failed_again, first_failure, upsert_retry, record_retry, resolved, close_retry,
  create_node_incident, insert_event, create_node_notification_event, insert_finding,
  update_findings, update_finding, Upserted, upsert_finding, upsert_findings, save_all_findings,
  write_finding, new_finding, announce, save_positive_findings,
}

-- A row that is there stays there.
abbrev pub Stays : Bool → Bool → Type 0
Stays a b = (not a || b) ≡ true

pub record Kept (d e : Database) : Type 0 where
  pub addresses : e.addresses ≡ d.addresses
  pub runs : e.runs ≡ d.runs
  pub number : e.sequences.address_id ≡ d.sequences.address_id
  pub findings :
      (id : ℕ) (c : Text) → Stays (has_finding id c d.findings) (has_finding id c e.findings)
  pub retries : (id : ℕ) (c : Text) → Stays (has_retry id c d.retries) (has_retry id c e.retries)

pub stays : (a b : Bool) → Stays a b → a ≡ true → b ≡ true
stays a b h k = ground arith

pub Kept-IsPreorder : IsPreorder Kept
Kept-IsPreorder = record {
  same = λ d. record {
    addresses = refl;
    runs = refl;
    number = refl;
    findings = λ id c. ground arith;
    retries = λ id c. ground arith;
  };
  chain = λ d e f k l. record {
    addresses = l.addresses ∙ k.addresses;
    runs = l.runs ∙ k.runs;
    number = l.number ∙ k.number;
    findings = λ id c. ground (arith, k.findings id c, l.findings id c);
    retries = λ id c. ground (arith, k.retries id c, l.retries id c);
  };
}

-- A change of anything but the addresses, the runs and the rows of the two tables.
abbrev pub SameTables : Database → Database → Type 0
SameTables d e =
    (e.addresses ≡ d.addresses)
    × (e.runs ≡ d.runs)
    × (e.sequences.address_id ≡ d.sequences.address_id)
    × (e.findings ≡ d.findings)
    × (e.retries ≡ d.retries)

pub SameTables-Kept : (d e : Database) → SameTables d e → Kept d e
SameTables-Kept d e (a, r, n, f, q) = record {
  addresses = a;
  runs = r;
  number = n;
  findings = λ id c. rw f (ground arith);
  retries = λ id c. rw q (ground arith);
}

pub select-Runs :
    {A : Type 0} (Q : A → Database → Type 0) (f : Database → A) (s : System)
    → Q (f s.db) s.db
    → Runs Kept Q (select f) s
select-Runs Q f s q =
    statement-Runs Kept-IsPreorder Q (λ m db. (ok (f db), db)) s
      (λ m. (Kept-IsPreorder.same s.db, q))
