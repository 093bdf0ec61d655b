-- ===== src/Store/Imports/Ids.antt =====
-- What an import answers: the ids of the addresses, and how many rows are new.
use wallet_scan.Prelude.{
  ℕ, suc, ◌+◌, ◌≡◌, refl, sym, ◌∙◌, subst, Bool, true, false, Option, none, some, List, [], ◌∷◌,
  ◌++◌, arith, nat_eq, if◌then◌else◌, Bool-cases, inl, inr, length, length-append, append-nil,
}
use wallet_scan.Prelude.Texts.{text_eq}
use wallet_scan.Domain.{AddressInput}
use wallet_scan.Store.Tables.{Database, is_address_type}
use wallet_scan.Store.Session.{Moment, Result, ok, System, pure, ◌>>=◌, statement, asked_once}
use wallet_scan.Store.Rules.{
  Runs, Ends, Post, Post-map, statement-Runs, bind-Runs, transaction-Runs,
}
use wallet_scan.Store.Imports.{
  find_address, row_for, insert_row, select_id, insert_address, insert_each,
  insert_addresses_with_ids,
}
use wallet_scan.Store.Imports.Growth.{
  Grows, Grows-IsPreorder, Grows-numbers, find_address-new, HasId, HasId-Grows, HaveIds,
}

HaveIds-Grows :
    (inputs : List AddressInput) (ids : List ℕ) (d e : Database)
    → Grows d e
    → HaveIds inputs ids d
    → HaveIds inputs ids e
HaveIds-Grows [] [] d e k h = tt
HaveIds-Grows (a ∷ inputs) (id ∷ ids) d e k h =
    (HasId-Grows a id d e k h.0, HaveIds-Grows inputs ids d e k h.1)
HaveIds-Grows [] (id ∷ ids) d e k h = h
HaveIds-Grows (a ∷ inputs) [] d e k h = h

-- What the INSERT says, for a table that had `n` rows.
abbrev Inserted : AddressInput → ℕ → Option ℕ → Database → Type 0
Inserted a n none d = length d.addresses ≡ n
Inserted a n (some id) d = HasId a id d × (length d.addresses ≡ suc n)

-- What one round, and the loop, say.
abbrev Answered : AddressInput → ℕ → ℕ × Bool → Database → Type 0
Answered a n r d = HasId a r.0 d × (length d.addresses ≡ (if r.1 then suc n else n))

abbrev pub AnsweredAll : List AddressInput → ℕ → List ℕ × ℕ → Database → Type 0
AnsweredAll inputs n r d = HaveIds inputs r.0 d × (length d.addresses ≡ r.1 + n)

module _ (batch : ℕ) (a : AddressInput) where
  insert_row-Ends :
      (m : Moment) (d : Database)
      → Ends Grows
          (Inserted a (length d.addresses))
          d
          (insert_row batch a m d).0
          (insert_row batch a m d).1
  unfolding insert_row
  insert_row-Ends m d = elim (Bool-cases (is_address_type a.address_type)) [
    | inr refused ↦ rw refused (numbered, tt)
    | inl fine ↦ rw fine (by_row (find_address a.address_type a.normalized d.addresses) refl)
  ]
    where
      n : ℕ
      n = d.sequences.address_id

      next : Database
      next = record d { sequences = record d.sequences { address_id = n + 1 } }

      numbered : Grows d (record d { sequences = record d.sequences { address_id = n + 1 } })
      numbered = record {
        new = [];
        addresses = sym (append-nil d.addresses);
        fresh = omega arith;
        runs = refl;
        findings = refl;
        retries = refl;
      }

      by_row :
          (o : Option ℕ)
          → find_address a.address_type a.normalized d.addresses ≡ o
          → let r : Result (Option ℕ) × Database = elim o [
            | some old ↦
                (ok none, record d { sequences = record d.sequences { address_id = n + 1 } })
            | none ↦ (
              ok (some n),
              record d {
                sequences = record d.sequences { address_id = n + 1 };
                addresses = d.addresses ++ row_for n batch a ∷ [];
              },
            )
          ] in
            Ends Grows (Inserted a (length d.addresses)) d r.0 r.1
      by_row (some old) e = (numbered, refl)
      by_row none e = (
        record {
          new = row_for n batch a ∷ [];
          addresses = refl;
          fresh = (omega arith, omega arith);
          runs = refl;
          findings = refl;
          retries = refl;
        },
        (
          find_address-new n batch a d.addresses e,
          length-append d.addresses (row_for n batch a ∷ []) ∙ omega arith,
        ),
      )

  select_id-Ends :
      (n : ℕ) (m : Moment) (d : Database)
      → length d.addresses ≡ n
      → Ends Grows (λ id e. Answered a n (id, false) e) d (select_id a m d).0 (select_id a m d).1
  unfolding select_id
  select_id-Ends n m d h = by_row (find_address a.address_type a.normalized d.addresses) refl
    where
      by_row :
          (o : Option ℕ)
          → find_address a.address_type a.normalized d.addresses ≡ o
          → Ends Grows
              (λ id e. Answered a n (id, false) e)
              d
              (select_id a m d).0
              (select_id a m d).1
      by_row none e = rw (e, select_id) (Grows-IsPreorder.same d, tt)
      by_row (some id) e = rw (e, select_id) (Grows-IsPreorder.same d, (e, h))

  insert_address-Runs :
      (s : System) → Runs Grows (Answered a (length s.db.addresses)) (insert_address batch a) s
  unfolding insert_address
  insert_address-Runs s =
      let n = length s.db.addresses in
      bind-Runs Grows-IsPreorder {A = Option ℕ} {B = ℕ × Bool} (Inserted a n) (Answered a n)
        (statement (insert_row batch a)) _ s
        (statement-Runs Grows-IsPreorder (Inserted a n) (insert_row batch a) s
          (λ m. insert_row-Ends m s.db))
        (λ o t k q. answer n o t q)
    where
      answer :
          (n : ℕ) (o : Option ℕ) (t : System)
          → Inserted a n o t.db
          → Runs Grows
              (Answered a n)
              (elim o [
                | some id ↦ pure (id, true)
                | none ↦ statement (select_id a) >>= λ id. pure (id, false)
              ])
              t
      answer n (some id) t q = (Grows-IsPreorder.same t.db, q)
      answer n none t q =
          bind-Runs Grows-IsPreorder {A = ℕ} {B = ℕ × Bool} (λ id e. Answered a n (id, false) e)
            (Answered a n) (statement (select_id a)) (λ id. pure (id, false)) t
            (statement-Runs Grows-IsPreorder (λ id e. Answered a n (id, false) e) (select_id a) t
              (λ m. select_id-Ends n m t.db q))
            (λ id u k r. (Grows-IsPreorder.same u.db, r))

insert_each-Runs :
    (batch : ℕ) (inputs : List AddressInput) (s : System)
    → Runs Grows (AnsweredAll inputs (length s.db.addresses)) (insert_each batch inputs) s
unfolding insert_each
insert_each-Runs batch [] s = (Grows-IsPreorder.same s.db, (tt, omega arith))
insert_each-Runs batch (a ∷ inputs) s =
    let n = length s.db.addresses in
    bind-Runs Grows-IsPreorder {A = ℕ × Bool} {B = List ℕ × ℕ} (Answered a n)
      (AnsweredAll (a ∷ inputs) n) (insert_address batch a) _ s (insert_address-Runs batch a s)
      (λ r t k q.
        bind-Runs Grows-IsPreorder {A = List ℕ × ℕ} {B = List ℕ × ℕ}
          (λ rs e. Grows t.db e × AnsweredAll inputs (length t.db.addresses) rs e)
          (AnsweredAll (a ∷ inputs) n) (insert_each batch inputs) _ t
          (let (l, w) = insert_each-Runs batch inputs t in
            (l, Post-map (AnsweredAll inputs (length t.db.addresses)) _ _ _ (λ rs v. (l, v)) w))
          (λ rs u g (l, v). (
            Grows-IsPreorder.same u.db,
            ((HasId-Grows a r.0 _ _ l q.0, v.0), counted _ n _ rs.1 r.1 q.1 v.1),
          )))
  where
    counted :
        (k n m rest : ℕ) (b : Bool)
        → m ≡ (if b then suc n else n)
        → k ≡ rest + m
        → k ≡ (if b then rest + 1 else rest) + n
    counted k n m rest true h e = omega (arith, h, e)
    counted k n m rest false h e = omega (arith, h, e)

pub insert_addresses_with_ids-Runs :
    (batch : ℕ) (inputs : List AddressInput) (s : System)
    → Runs Grows
        (AnsweredAll inputs (length s.db.addresses))
        (insert_addresses_with_ids batch inputs)
        s
unfolding insert_addresses_with_ids
insert_addresses_with_ids-Runs batch [] s = (Grows-IsPreorder.same s.db, (tt, omega arith))
insert_addresses_with_ids-Runs batch (a ∷ inputs) s =
    transaction-Runs Grows-IsPreorder (AnsweredAll (a ∷ inputs) (length s.db.addresses)) _ s
      (λ d k. Grows-numbers s.db d k) (insert_each-Runs batch (a ∷ inputs) (asked_once s))

-- An import that succeeds answers, in the order of the inputs, the id of the row that the table now has
-- for the type and the normal form of each, and as many new rows as the table has grown by.
pub insert_addresses_with_ids-AnsweredAll :
    (batch : ℕ) (inputs : List AddressInput) (s : System) (r : List ℕ × ℕ)
    → (insert_addresses_with_ids batch inputs s).0 ≡ ok r
    → AnsweredAll inputs (length s.db.addresses) r (insert_addresses_with_ids batch inputs s).1.db
insert_addresses_with_ids-AnsweredAll batch inputs s r e =
    subst
      (λ x.
        Post (AnsweredAll inputs (length s.db.addresses)) x
          (insert_addresses_with_ids batch inputs s).1.db)
      e (insert_addresses_with_ids-Runs batch inputs s).1
