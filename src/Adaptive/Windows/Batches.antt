-- ===== src/Adaptive/Windows/Batches.antt =====
-- Batches of calls that are long enough for the limit of a chain to be adjusted.
use wallet_scan.Prelude.{
  ℕ, suc, ◌≤◌, ◌≡◌, Bool, true, not, ◌&&◌, ◌||◌, List, [], ◌∷◌, leb, if◌then◌else◌, ◌==◌,
}
use wallet_scan.Prelude.Int.{ℤ, ◌≤ℤ◌, sub_ℕ}
use wallet_scan.Prelude.Texts.{Text, text_eq}
use wallet_scan.Adaptive.{Limiter, Outcome}
use wallet_scan.Adaptive.Events.{Event, mentioned, tried, advised, ended, apply, apply_all}
use wallet_scan.Adaptive.Events.Idle.{ends_one}

-- Calls of any kind for any chain, and then a request that ends at `finish`.
pub record Batch : Type 0 where
  pub earlier : List Event
  pub last : Outcome
  pub finish : ℕ

unfoldable pub after : Limiter → Batch → Limiter
after l b = apply (apply_all l b.earlier) (ended b.last b.finish)

unfoldable pub after_all : Limiter → List Batch → Limiter
after_all l [] = l
after_all l (b ∷ bs) = after_all (after l b) bs

abbrev pub time_of : Event → ℕ
time_of (mentioned t now) = now
time_of (tried t now) = now
time_of (advised t now) = now
time_of (ended o now) = now

-- How many requests of the chain end, and whether all calls are made by an instant.
unfoldable pub ended_count : Text → List Event → ℕ
ended_count name [] = 0
ended_count name (e ∷ es) =
    let rest = ended_count name es in if ends_one name e then suc rest else rest

unfoldable pub all_by : ℕ → List Event → Bool
all_by finish [] = true
all_by finish (e ∷ es) = leb (time_of e) finish && all_by finish es

-- Whether all requests of the chain that end have an outcome of a kind.
abbrev pub passes : (Outcome → Bool) → Text → Event → Bool
passes test name (mentioned t now) = true
passes test name (tried t now) = true
passes test name (advised t now) = true
passes test name (ended o now) = not (o.chain == name) || test o

unfoldable pub all_ended : (Outcome → Bool) → Text → List Event → Bool
all_ended test name [] = true
all_ended test name (e ∷ es) = passes test name e && all_ended test name es

-- Ten requests of the chain or more end, the last of them an adjustment interval or more after `start`,
-- and no call reads a later clock than that one.
pub record IsFull (name : Text) (interval : ℤ) (start : ℕ) (b : Batch) : Type 0 where
  pub many : 9 ≤ ended_count name b.earlier
  pub own : b.last.chain ≡ name
  pub long : interval ≤ℤ sub_ℕ b.finish start
  pub ordered : all_by b.finish b.earlier ≡ true

-- Each batch starts where the one before it ends.
abbrev pub AreFull : Text → ℤ → ℕ → List Batch → Type 0
AreFull name interval start [] = Unit
AreFull name interval start (b ∷ bs) =
    IsFull name interval start b × AreFull name interval b.finish bs

abbrev pub is_all : (Outcome → Bool) → Text → Batch → Bool
is_all test name b = all_ended test name b.earlier && test b.last

unfoldable pub are_all : (Outcome → Bool) → Text → List Batch → Bool
are_all test name [] = true
are_all test name (b ∷ bs) = is_all test name b && are_all test name bs
