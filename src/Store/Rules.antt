-- ===== src/Store/Rules.antt =====
-- Rules for the operations of a session: what holds between the database before and after, whether the
-- operation succeeds or fails, and what a success says besides. `R` is any preorder on databases.
use wallet_scan.Prelude.{List, [], ◌∷◌, All}
use wallet_scan.Store.Tables.{Database}
use wallet_scan.Store.Session.{
  Fault, fine, lost, late, Moment, Error, disconnected, violation, no_rows, no_workers, unfinished,
  bad_size, scan_paused, delivery, Result, ok, err, System, M, pure, ◌>>=◌, and_then, ignore_error,
  for_each, delivered, asked_once, statement, committed, commit, begun, transaction,
}

-- The errors that a caller can see: no loop is short of rounds, and no batch waits for ever.
abbrev pub IsReal : Error → Type 0
IsReal unfinished = ⊥
IsReal no_workers = ⊥
IsReal disconnected = Unit
IsReal violation = Unit
IsReal no_rows = Unit
IsReal bad_size = Unit
IsReal (scan_paused n) = Unit
IsReal (delivery t) = Unit

-- What a success says of its value and the database; an error is one of the program's.
abbrev pub Post : {A : Type 0} → (A → Database → Type 0) → Result A → Database → Type 0
Post Q (ok a) d = Q a d
Post Q (err e) d = IsReal e

abbrev pub Relation : Type 1
Relation = Database → Database → Type 0

abbrev pub Ends :
    Relation → {A : Type 0} → (A → Database → Type 0) → Database → Result A → Database → Type 0
Ends R Q d r e = R d e × Post Q r e

-- The operation relates the databases, and its success says `Q`.
abbrev pub Runs : Relation → {A : Type 0} → (A → Database → Type 0) → M A → System → Type 0
Runs R Q m s = Ends R Q s.db (m s).0 (m s).1.db

pub record IsPreorder (R : Relation) : Type 0 where
  pub same : (d : Database) → R d d
  pub chain : (d e f : Database) → R d e → R e f → R d f

pub Post-map :
    {A : Type 0} (Q P : A → Database → Type 0) (r : Result A) (d : Database)
    → ((a : A) → Q a d → P a d)
    → Post Q r d
    → Post P r d
Post-map Q P (ok a) d h q = h a q
Post-map Q P (err e) d h q = q

module _ {R : Relation} (p : IsPreorder R) where
  pub pure-Runs :
      {A : Type 0} (Q : A → Database → Type 0) (a : A) (s : System) → Q a s.db → Runs R Q (pure a) s
  pure-Runs Q a s q = (p.same s.db, q)

  pub statement-Runs :
      {A : Type 0} (Q : A → Database → Type 0) (f : Moment → Database → Result A × Database)
      (s : System)
      → ((m : Moment) → Ends R Q s.db (f m s.db).0 (f m s.db).1)
      → Runs R Q (statement f) s
  unfolding statement
  statement-Runs Q f s h = by_fault (s.moments s.asked).fault
    where
      by_fault :
          (x : Fault)
          → let r = delivered x (f (s.moments s.asked) s.db) (asked_once s) in
            Ends R Q s.db r.0 r.1.db
      by_fault fine = h (s.moments s.asked)
      by_fault lost = (p.same s.db, tt)
      by_fault late = ((h (s.moments s.asked)).0, tt)

  and_then-Ends :
      {A B : Type 0} (Q : A → Database → Type 0) (P : B → Database → Type 0) (r : Result A × System)
      (f : A → M B) (d : Database)
      → Ends R Q d r.0 r.1.db
      → ((a : A) (t : System) → R d t.db → Q a t.db → Runs R P (f a) t)
      → Ends R P d (and_then r f).0 (and_then r f).1.db
  and_then-Ends Q P (ok a, t) f d (g, q) k = let (g', q') = k a t g q in (p.chain _ _ _ g g', q')
  and_then-Ends Q P (err x, t) f d (g, q) k = (g, q)

  pub bind-Runs :
      {A B : Type 0} (Q : A → Database → Type 0) (P : B → Database → Type 0) (m : M A) (f : A → M B)
      (s : System)
      → Runs R Q m s
      → ((a : A) (t : System) → R s.db t.db → Q a t.db → Runs R P (f a) t)
      → Runs R P (m >>= f) s
  bind-Runs Q P m f s h k = and_then-Ends Q P (m s) f s.db h k

  pub ignore_error-Runs :
      {A : Type 0} (m : M A) (s : System)
      → R s.db (m s).1.db
      → Runs R (λ _ _. Unit) (ignore_error m) s
  ignore_error-Runs m s h = (h, tt)

  -- A loop whose rounds keep what earlier rounds have reached.
  pub for_each-Runs :
      {A : Type 0} (Q : A → Database → Type 0) (xs : List A) (f : A → M (Unit {0})) (s : System)
      → ((a : A) (d e : Database) → R d e → Q a d → Q a e)
      → ((a : A) (t : System) → R s.db t.db → Runs R (λ _. Q a) (f a) t)
      → Runs R (λ _ d. All (λ a. Q a d) xs) (for_each xs f) s
  unfolding for_each
  for_each-Runs Q [] f s keep step = (p.same s.db, tt)
  for_each-Runs Q (x ∷ xs) f s keep step =
      bind-Runs (λ _. Q x) (λ _ d. All (λ a. Q a d) (x ∷ xs)) (f x) (λ _. for_each xs f) s
        (step x s (p.same s.db))
        (λ _ t g q.
          let (g', rest) = for_each-Runs Q xs f t keep (λ a u r. step a u (p.chain _ _ _ g r)) in
          (g', keep_all t g' q rest))
    where
      keep_all :
          (t : System)
          → R t.db (for_each xs f t).1.db
          → Q x t.db
          → Post (λ _ d. All (λ a. Q a d) xs) (for_each xs f t).0 (for_each xs f t).1.db
          → Post (λ _ d. All (λ a. Q a d) (x ∷ xs)) (for_each xs f t).0 (for_each xs f t).1.db
      keep_all t g q rest =
          Post-map (λ _ d. All (λ a. Q a d) xs) (λ _ d. All (λ a. Q a d) (x ∷ xs))
            (for_each xs f t).0 (for_each xs f t).1.db (λ _ r. (keep x _ _ g q, r)) rest

  -- A rolled-back transaction leaves the tables as they were.
  committed-Ends :
      {A : Type 0} (Q : A → Database → Type 0) (x : Fault) (s t : System) (a : A)
      → ((d : Database) → R s.db d → R s.db (record s.db { sequences = d.sequences }))
      → R s.db t.db
      → Q a t.db
      → Ends R Q s.db (committed x s a t).0 (committed x s a t).1.db
  unfolding committed
  committed-Ends Q fine s t a numbers g q = (g, q)
  committed-Ends Q lost s t a numbers g q = (numbers t.db g, tt)
  committed-Ends Q late s t a numbers g q = (g, tt)

  commit-Ends :
      {A : Type 0} (Q : A → Database → Type 0) (s : System) (r : Result A × System)
      → ((d : Database) → R s.db d → R s.db (record s.db { sequences = d.sequences }))
      → Ends R Q s.db r.0 r.1.db
      → Ends R Q s.db (commit s r).0 (commit s r).1.db
  unfolding commit
  commit-Ends Q s (err e, t) numbers (g, q) = (numbers t.db g, q)
  commit-Ends Q s (ok a, t) numbers (g, q) =
      committed-Ends Q (t.moments t.asked).fault s t a numbers g q

  begun-Ends :
      {A : Type 0} (Q : A → Database → Type 0) (x : Fault) (body : M A) (s : System)
      → ((d : Database) → R s.db d → R s.db (record s.db { sequences = d.sequences }))
      → Runs R Q body s
      → Runs R Q (begun x body) s
  unfolding begun
  begun-Ends Q fine body s numbers h = commit-Ends Q s (body s) numbers h
  begun-Ends Q lost body s numbers h = (p.same s.db, tt)
  begun-Ends Q late body s numbers h = (p.same s.db, tt)

  pub transaction-Runs :
      {A : Type 0} (Q : A → Database → Type 0) (body : M A) (s : System)
      → ((d : Database) → R s.db d → R s.db (record s.db { sequences = d.sequences }))
      → Runs R Q body (asked_once s)
      → Runs R Q (transaction body) s
  unfolding transaction
  transaction-Runs Q body s numbers h =
      begun-Ends Q (s.moments s.asked).fault body (asked_once s) numbers h
