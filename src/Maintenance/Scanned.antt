-- ===== src/Maintenance/Scanned.antt =====
-- The rows that the clean-up takes: scanned by a completed run, with nothing found and nothing failed.
use wallet_scan.Prelude.{
  ℕ, zero, suc, ◌≡◌, refl, sym, subst, true, false, ◌&&◌, List, [], ◌∷◌, ◌==◌, nat_eq, leb,
  if◌then◌else◌, take, arith, All, Bool-cases, inl, inr,
}
use wallet_scan.Domain.{RunStatus, running, paused, completed, failed, ScanRun}
use wallet_scan.Store.Tables.{AddressRow, RunRow, Database, has_address}
use wallet_scan.Store.Scans.{address_of, is_completed}
use wallet_scan.Scanner.Run.{Scanner}
use wallet_scan.Scanner.Run.Order.{up_to}
use wallet_scan.Scanner.Run.Coverage.{IsDone}
use wallet_scan.Scanner.Run.Safety.{reached, IsSafeRun, IsSafe, All-map}
use wallet_scan.Maintenance.{is_before, is_scanned, is_candidate, candidates, without}
use wallet_scan.Maintenance.Empty.{IsConfirmed, IsDone-IsConfirmed}

All-of : {A : Type 0} (P : A → Type 0) (xs : List A) → ((a : A) → P a) → All P xs
All-of P [] h = tt
All-of P (x ∷ xs) h = (h x, All-of P xs h)

All-both :
    {A : Type 0} (P Q : A → Type 0) (xs : List A) → All P xs → All Q xs → All (λ a. P a × Q a) xs
All-both P Q [] h k = tt
All-both P Q (x ∷ xs) h k = ((h.0, k.0), All-both P Q xs h.1 k.1)

up_to-All :
    (P : AddressRow → Type 0) (n : ℕ) (rows : List AddressRow)
    → All P (up_to n rows)
    → All (λ (a : AddressRow). leb a.id n ≡ true → P a) rows
unfolding up_to
up_to-All P n [] h = tt
up_to-All P n (a ∷ rows) h = elim (Bool-cases (leb a.id n)) [
  | inl here ↦
      let h' = subst (λ b. All P (if b then a ∷ up_to n rows else up_to n rows)) here h in
      ((λ _. h'.0), up_to-All P n rows h'.1)
  | inr behind ↦
      let h' = subst (λ b. All P (if b then a ∷ up_to n rows else up_to n rows)) behind h in
      ((λ e. absurd (cc)), up_to-All P n rows h')
]

reached_completed :
    (status : RunStatus) (r : ScanRun) → is_completed status ≡ true → reached status r ≡ r.end_id
reached_completed completed r h = refl
reached_completed running r h = absurd (cc)
reached_completed paused r h = absurd (cc)
reached_completed failed r h = absurd (cc)

-- A scanned address is done.
scanned-AreDone :
    (sc : Scanner) (d : Database) (cutoff : ℕ) (runs : List RunRow)
    → All (IsSafeRun sc d) runs
    → All
        (λ (a : AddressRow). is_scanned cutoff a.id runs ≡ true → IsDone sc d (address_of a))
        d.addresses
unfolding is_scanned
scanned-AreDone sc d cutoff [] h = All-of _ d.addresses (λ a e. absurd (cc))
scanned-AreDone sc d cutoff (r ∷ runs) h =
    let n = reached r.status r.run in
    All-map
      (λ (a : AddressRow).
        (leb a.id n ≡ true → IsDone sc d (address_of a))
        × (is_scanned cutoff a.id runs ≡ true → IsDone sc d (address_of a)))
      (λ (a : AddressRow). is_scanned cutoff a.id (r ∷ runs) ≡ true → IsDone sc d (address_of a))
      d.addresses
      (λ a (here, later) e.
        elim (Bool-cases (
          is_completed r.status
          && is_before cutoff r.completed_at
          && leb r.start_id a.id
          && leb a.id r.end_id)) [
            | inl this ↦ here (
                subst (λ k. leb a.id k ≡ true)
                  (sym (reached_completed r.status r.run (ground arith))) (ground arith))
            | inr other ↦ later (ground arith)
          ])
      (All-both _ _ d.addresses (up_to-All (λ a. IsDone sc d (address_of a)) n d.addresses h.0.done)
        (scanned-AreDone sc d cutoff runs h.1))

-- What may be deleted.
candidates-is_candidate :
    (cutoff i : ℕ) (d : Database) (rows : List AddressRow)
    → has_address i (candidates cutoff d rows) ≡ true
    → is_candidate cutoff d i ≡ true
unfolding candidates has_address
candidates-is_candidate cutoff i d [] h = absurd (cc)
candidates-is_candidate cutoff i d (a ∷ rows) h = elim (Bool-cases (is_candidate cutoff d a.id)) [
  | inl taken ↦
      let h' : has_address i (a ∷ candidates cutoff d rows) ≡ true =
        subst
          (λ b.
            has_address i (if b then a ∷ candidates cutoff d rows else candidates cutoff d rows)
            ≡ true)
          taken h in
      elim (Bool-cases (a.id == i)) [
        | inl same ↦
            let e : a.id ≡ i = ground arith in subst (λ k. is_candidate cutoff d k ≡ true) e taken
        | inr other ↦ candidates-is_candidate cutoff i d rows (ground arith)
      ]
  | inr passed ↦ candidates-is_candidate cutoff i d rows (
      subst
        (λ b.
          has_address i (if b then a ∷ candidates cutoff d rows else candidates cutoff d rows)
          ≡ true)
        passed h)
]

has_address-take :
    (i n : ℕ) (rows : List AddressRow)
    → has_address i (take n rows) ≡ true
    → has_address i rows ≡ true
unfolding has_address
has_address-take i zero rows h = absurd (cc)
has_address-take i (suc n) [] h = h
has_address-take i (suc n) (a ∷ rows) h = ground (arith, has_address-take i n rows)

without_head :
    (doomed : List AddressRow) (a : AddressRow) (rows : List AddressRow)
    → has_address a.id (without doomed (a ∷ rows)) ≡ false
    → has_address a.id doomed ≡ true
unfolding without has_address
without_head doomed a rows h = ground arith

without_tail :
    (doomed : List AddressRow) (i : ℕ) (a : AddressRow) (rows : List AddressRow)
    → has_address i (without doomed (a ∷ rows)) ≡ false
    → has_address i (without doomed rows) ≡ false
unfolding without has_address
without_tail doomed i a rows h = ground arith

-- Each row is left, or its id is among the doomed.
left_or_doomed :
    (doomed rows : List AddressRow)
    → All
        (λ (a : AddressRow).
          has_address a.id (without doomed rows) ≡ false → has_address a.id doomed ≡ true)
        rows
left_or_doomed doomed [] = tt
left_or_doomed doomed (a ∷ rows) = (
  without_head doomed a rows,
  All-map _
      (λ (b : AddressRow).
        has_address b.id (without doomed (a ∷ rows)) ≡ false → has_address b.id doomed ≡ true)
      rows (λ b h e. h (without_tail doomed b.id a rows e)) (left_or_doomed doomed rows),
)

-- What the statement does to the table: the rows that it drops are confirmed empty.
abbrev pub DropsEmpty : Scanner → Database → Database → Type 0
DropsEmpty sc d e =
    All (λ (a : AddressRow). has_address a.id e.addresses ≡ false → IsConfirmed sc (address_of a))
      d.addresses

pub deletion-DropsEmpty :
    (sc : Scanner) (d : Database) (cutoff n : ℕ)
    → IsSafe sc d
    → DropsEmpty sc d
        (record d { addresses = without (take n (candidates cutoff d d.addresses)) d.addresses })
deletion-DropsEmpty sc d cutoff n h =
    let doomed = take n (candidates cutoff d d.addresses) in
    All-map
      (λ (a : AddressRow).
        (has_address a.id (without doomed d.addresses) ≡ false → has_address a.id doomed ≡ true)
        × (is_scanned cutoff a.id d.runs ≡ true → IsDone sc d (address_of a)))
      (λ (a : AddressRow).
        has_address a.id (without doomed d.addresses) ≡ false → IsConfirmed sc (address_of a))
      d.addresses
      (λ a (gone, done) e.
        confirmed a done
          (candidates-is_candidate cutoff a.id d d.addresses (has_address-take a.id n _ (gone e))))
      (All-both _ _ d.addresses (left_or_doomed doomed d.addresses)
        (scanned-AreDone sc d cutoff d.runs h.runs))
  where
    confirmed :
        (a : AddressRow)
        → (is_scanned cutoff a.id d.runs ≡ true → IsDone sc d (address_of a))
        → is_candidate cutoff d a.id ≡ true
        → IsConfirmed sc (address_of a)
    confirmed a done e =
        unfold is_candidate in
        IsDone-IsConfirmed sc d (address_of a) (done (ground arith)) (ground arith) (ground arith)
