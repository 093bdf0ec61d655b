-- ===== src/Store/Session.antt =====
-- A session with PostgreSQL. Each statement meets its moment: the clock that it reads, a fresh UUID, and
-- whether the connection holds. A statement that fails may have been lost before it took effect, or have
-- taken effect before its answer was lost.
use wallet_scan.Prelude.{ℕ, ◌+◌, List, [], ◌∷◌}
use wallet_scan.Prelude.Texts.{Text}
use wallet_scan.Scanner.Health.{HealthTracker}
use wallet_scan.Store.Tables.{Database}

pub data Fault : Type 0 where
  fine lost late : Fault

pub record Moment : Type 0 where
  pub fault : Fault
  pub now : ℕ
  pub uuid : ℕ

-- What an operation can fail with: the connection, a constraint of the schema, a row that is not there,
-- a scan that the scanner paused at a cursor, a message that was not delivered, a clean-up of no rows. Two more are no errors of
-- the program: it hangs on a batch that no worker takes, and a loop was given too few rounds.
pub data Error : Type 0 where
  disconnected violation no_rows no_workers unfinished bad_size : Error
  scan_paused : ℕ → Error
  delivery : Text → Error

pub data Result (A : Type 0) : Type 0 where
  ok : A → Result A
  err : Error → Result A

-- The database, the number of the next statement, and what the scanner keeps in memory: the health of
-- its providers and the number of the next batch.
pub record System : Type 0 where
  pub db : Database
  pub asked : ℕ
  pub moments : ℕ → Moment
  pub health : HealthTracker
  pub batches : ℕ

abbrev pub M : Type 0 → Type 0
M A = System → Result A × System

abbrev pub pure : {A : Type 0} → A → M A
pure a s = (ok a, s)

abbrev pub fail : {A : Type 0} → Error → M A
fail e s = (err e, s)

-- The rest of an operation runs if the first part succeeds.
abbrev pub and_then : {A B : Type 0} → Result A × System → (A → M B) → Result B × System
and_then (ok a, s) f = f a s
and_then (err e, s) f = (err e, s)

infixl 5 ◌>>=◌ ◌>>◌
abbrev pub ◌>>=◌ : {A B : Type 0} → M A → (A → M B) → M B
◌>>=◌ m f s = and_then (m s) f

abbrev pub ◌>>◌ : {A : Type 0} → M (Unit {0}) → M A → M A
m >> k = m >>= λ _. k

-- A call whose error is dropped.
abbrev pub ignore_error : {A : Type 0} → M A → M (Unit {0})
ignore_error m s = (ok tt, (m s).1)

-- `for _, x := range xs { if err := f(x); err != nil { return err } }`.
unfoldable pub for_each : {A : Type 0} → List A → (A → M (Unit {0})) → M (Unit {0})
for_each [] f = pure tt
for_each (x ∷ xs) f = do f x; for_each xs f

-- What comes back from the database, for a connection that fails or not.
unfoldable pub delivered : {A : Type 0} → Fault → Result A × Database → System → Result A × System
delivered fine r s = (r.0, record s { db = r.1 })
delivered lost r s = (err disconnected, s)
delivered late r s = (err disconnected, record s { db = r.1 })

abbrev pub asked_once : System → System
asked_once s = record s { asked = s.asked + 1 }

unfoldable pub statement : {A : Type 0} → (Moment → Database → Result A × Database) → M A
unfolding delivered
statement f s = let m = s.moments s.asked in delivered m.fault (f m s.db) (asked_once s)

-- The deferred rollback: the tables as they were, the sequences as they are.
abbrev pub rolled_back : System → System → System
rolled_back s s' = record s' { db = record s.db { sequences = s'.db.sequences } }

-- The end of a transaction that began in `s`: the commit takes effect, or nothing does.
unfoldable pub committed : {A : Type 0} → Fault → System → A → System → Result A × System
committed fine s a s' = (ok a, asked_once s')
committed lost s a s' = (err disconnected, rolled_back s (asked_once s'))
committed late s a s' = (err disconnected, asked_once s')

unfoldable pub commit : {A : Type 0} → System → Result A × System → Result A × System
commit s (err e, s') = (err e, rolled_back s s')
commit s (ok a, s') = committed (s'.moments s'.asked).fault s a s'

unfoldable pub begun : {A : Type 0} → Fault → M A → M A
begun fine body s = commit s (body s)
begun lost body s = (err disconnected, s)
begun late body s = (err disconnected, s)

-- `Begin`, a body that returns early on an error, `Commit`, and a deferred `Rollback`.
unfoldable pub transaction : {A : Type 0} → M A → M A
transaction body s = begun (s.moments s.asked).fault body (asked_once s)
