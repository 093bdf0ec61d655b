-- ===== src/Store/Kept/Findings.antt =====
-- Findings: what `SavePositiveFindings` of internal/db/store.go keeps and leaves.
use wallet_scan.Prelude.{
  ℕ, ◌≡◌, refl, ◌∙◌, Bool, true, false, ◌&&◌, ◌||◌, Option, none, some, List, [], ◌∷◌, ◌++◌, nat_eq,
  if◌then◌else◌, arith, All, Bool-cases, inl, inr,
}
use wallet_scan.Prelude.Texts.{Text, text_eq, text_beq_iff}
use wallet_scan.Scanner.Check.{PositiveFinding}
use wallet_scan.Store.Tables.{
  FindingRow, Database, has_finding, find_finding, first_positive, balance_changed,
  is_positive_numeric, is_chain, has_address,
}
use wallet_scan.Store.Session.{Moment, System, pure, statement, asked_once}
use wallet_scan.Store.Rules.{
  Runs, Ends, Post-map, pure-Runs, statement-Runs, bind-Runs, transaction-Runs,
}
use wallet_scan.Store.Scans.{select}
use wallet_scan.Store.Records.{
  insert_event, insert_finding, update_findings, update_finding, upsert_finding, upsert_findings,
  save_all_findings, write_finding, new_finding, announce, save_positive_findings,
}
use wallet_scan.Store.Kept.{Kept, stays, Kept-IsPreorder, SameTables-Kept, select-Runs}
use wallet_scan.Store.Kept.Retries.{insert_event-Runs}

has_finding-append :
    (id : ℕ) (c : Text) (qs ws : List FindingRow)
    → has_finding id c (qs ++ ws) ≡ (has_finding id c qs || has_finding id c ws)
unfolding has_finding
has_finding-append id c [] ws = refl
has_finding-append id c (q ∷ qs) ws = ground (arith, has_finding-append id c qs ws)

has_finding-update :
    (id : ℕ) (c : Text) (f : PositiveFinding) (now : ℕ) (fs : List FindingRow)
    → has_finding id c (update_findings f now fs) ≡ has_finding id c fs
unfolding has_finding update_findings
has_finding-update id c f now [] = refl
has_finding-update id c f now (r ∷ fs) = ground (arith, has_finding-update id c f now fs)

find_finding-has_finding :
    (id : ℕ) (c : Text) (fs : List FindingRow) (r : FindingRow)
    → find_finding id c fs ≡ some r
    → has_finding id c fs ≡ true
unfolding has_finding find_finding
find_finding-has_finding id c [] r h = absurd (cc)
find_finding-has_finding id c (f ∷ fs) r h = ground (arith, find_finding-has_finding id c fs r)

abbrev pub HasRow : PositiveFinding → Database → Type 0
HasRow f d = has_finding f.address_id f.chain d.findings ≡ true

insert_finding-Ends :
    (f : PositiveFinding) (m : Moment) (d : Database)
    → Ends Kept (λ _ e. HasRow f e) d (insert_finding f m d).0 (insert_finding f m d).1
unfolding insert_finding has_finding
insert_finding-Ends f m d =
    elim (Bool-cases
      (has_address f.address_id d.addresses && is_chain f.chain && is_positive_numeric f.balance)) [
        | inr refused ↦ rw refused (SameTables-Kept d _ (refl, refl, refl, refl, refl), tt)
        | inl fine ↦ rw fine (
          record {
            addresses = refl;
            runs = refl;
            number = refl;
            findings = λ i k. ground (
              arith,
              has_finding-append i k d.findings (new_finding d.sequences.finding_id f m.now ∷ []),
            );
            retries = λ i k. ground arith;
          },
          ground (
            arith,
            has_finding-append f.address_id f.chain d.findings
                (new_finding d.sequences.finding_id f m.now ∷ []),
            text_beq_iff f.chain f.chain,
          ),
        )
      ]

update_finding-Ends :
    (f : PositiveFinding) (m : Moment) (d : Database)
    → HasRow f d
    → Ends Kept (λ _ e. HasRow f e) d (update_finding f m d).0 (update_finding f m d).1
unfolding update_finding
update_finding-Ends f m d h = elim (Bool-cases (is_positive_numeric f.balance)) [
  | inr refused ↦ rw refused (Kept-IsPreorder.same d, tt)
  | inl fine ↦ rw fine (
    record {
      addresses = refl;
      runs = refl;
      number = refl;
      findings = λ i k. ground (arith, has_finding-update i k f m.now d.findings);
      retries = λ i k. ground arith;
    },
    has_finding-update f.address_id f.chain f m.now d.findings ∙ h,
  )
]

HasRow-Kept : (f : PositiveFinding) (d e : Database) → Kept d e → HasRow f d → HasRow f e
HasRow-Kept f d e k h = stays _ _ (k.findings f.address_id f.chain) h

-- What the row that is selected first says of the database.
abbrev Found : PositiveFinding → Option FindingRow → Database → Type 0
Found f none d = Unit
Found f (some r) d = HasRow f d

Found-select :
    (f : PositiveFinding) (d : Database) → Found f (find_finding f.address_id f.chain d.findings) d
Found-select f d = by_row (find_finding f.address_id f.chain d.findings) refl
  where
    by_row :
        (o : Option FindingRow) → find_finding f.address_id f.chain d.findings ≡ o → Found f o d
    by_row none e = tt
    by_row (some r) e = find_finding-has_finding f.address_id f.chain d.findings r e

write_finding-Runs :
    (f : PositiveFinding) (o : Option FindingRow) (s : System)
    → Found f o s.db
    → Runs Kept (λ _ d. HasRow f d) (write_finding f o) s
unfolding write_finding
write_finding-Runs f none s q =
    bind-Runs Kept-IsPreorder (λ _ d. HasRow f d) (λ _ d. HasRow f d) (statement (insert_finding f))
      _ s
      (statement-Runs Kept-IsPreorder (λ _ d. HasRow f d) (insert_finding f) s
        (λ m. insert_finding-Ends f m s.db))
      (λ id u l r. (Kept-IsPreorder.same u.db, r))
write_finding-Runs f (some row) s q =
    bind-Runs Kept-IsPreorder (λ _ d. HasRow f d) (λ _ d. HasRow f d) (statement (update_finding f))
      _ s
      (statement-Runs Kept-IsPreorder (λ _ d. HasRow f d) (update_finding f) s
        (λ m. update_finding-Ends f m s.db q))
      (λ id u l r. (Kept-IsPreorder.same u.db, r))

upsert_finding-Runs :
    (f : PositiveFinding) (s : System) → Runs Kept (λ _ d. HasRow f d) (upsert_finding f) s
unfolding upsert_finding
upsert_finding-Runs f s =
    bind-Runs Kept-IsPreorder (Found f) (λ _ d. HasRow f d)
      (select (λ db. find_finding f.address_id f.chain db.findings)) (write_finding f) s
      (select-Runs (Found f) (λ db. find_finding f.address_id f.chain db.findings) s
        (Found-select f s.db))
      (λ o t k q. write_finding-Runs f o t q)

abbrev pub HaveRows : List PositiveFinding → Database → Type 0
HaveRows fs d = All (λ f. HasRow f d) fs

pub HaveRows-Kept :
    (fs : List PositiveFinding) (d e : Database) → Kept d e → HaveRows fs d → HaveRows fs e
HaveRows-Kept [] d e k h = tt
HaveRows-Kept (f ∷ fs) d e k h = (HasRow-Kept f d e k h.0, HaveRows-Kept fs d e k h.1)

upsert_findings-Runs :
    (fs : List PositiveFinding) (event : Option ℕ) (created : Bool) (s : System)
    → Runs Kept (λ _ d. HaveRows fs d) (upsert_findings fs event created) s
unfolding upsert_findings
upsert_findings-Runs [] event created s =
    pure-Runs Kept-IsPreorder {A = Option ℕ × Bool} (λ _ d. Unit) (event, created) s tt
upsert_findings-Runs (f ∷ fs) event created s =
    bind-Runs Kept-IsPreorder (λ _ d. HasRow f d) (λ _ d. HaveRows (f ∷ fs) d) (upsert_finding f) _
      s (upsert_finding-Runs f s)
      (λ u t k q.
        let (l, rest) = upsert_findings-Runs fs _ _ t in
        (
          l,
          Post-map (λ _ d. HaveRows fs d) (λ _ d. HaveRows (f ∷ fs) d) _ _
              (λ _ r. (HasRow-Kept f _ _ l q, r)) rest,
        ))

announce-Runs :
    (fs : List PositiveFinding) (r : Option ℕ × Bool) (s : System)
    → HaveRows fs s.db
    → Runs Kept (λ _ d. HaveRows fs d) (announce r) s
unfolding announce
announce-Runs fs (none, created) s h = (Kept-IsPreorder.same s.db, h)
announce-Runs fs (some id, created) s h =
    let kind = if created then first_positive else balance_changed in
    bind-Runs Kept-IsPreorder {A = ℕ} {B = Option ℕ} (λ _ d. Unit) (λ _ d. HaveRows fs d)
      (statement (insert_event (some id) none kind)) (λ event. pure (some event)) s
      (insert_event-Runs (some id) none kind s)
      (λ e t k q. (Kept-IsPreorder.same t.db, HaveRows-Kept fs _ _ k h))

-- A success of `SavePositiveFindings` leaves a row for each finding.
pub save_positive_findings-Runs :
    (fs : List PositiveFinding) (s : System)
    → Runs Kept (λ _ d. HaveRows fs d) (save_positive_findings fs) s
unfolding save_positive_findings save_all_findings
save_positive_findings-Runs [] s = (Kept-IsPreorder.same s.db, tt)
save_positive_findings-Runs (f ∷ fs) s =
    transaction-Runs Kept-IsPreorder (λ _ d. HaveRows (f ∷ fs) d) _ s
      (λ d k. SameTables-Kept s.db _ (refl, refl, k.number, refl, refl))
      (bind-Runs Kept-IsPreorder (λ _ d. HaveRows (f ∷ fs) d) (λ _ d. HaveRows (f ∷ fs) d)
        (upsert_findings (f ∷ fs) none false) announce (asked_once s)
        (upsert_findings-Runs (f ∷ fs) none false (asked_once s))
        (λ r t k q. announce-Runs (f ∷ fs) r t q))
