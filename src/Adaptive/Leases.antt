-- ===== src/Adaptive/Leases.antt =====
-- The limiter with the slots that its callers hold: every interleaving of the methods, and the
-- invariant that makes the hard cap hold. A caller gives a slot back for the chain that it took it
-- for, as both callers in the program do.
use wallet_scan.Prelude.{
  ℕ, suc, ◌+◌, ◌-◌, ◌≤◌, ◌<◌, ◌≡◌, true, false, Option, none, some, List, [], ◌∷◌, arith, length,
  ◌==◌, if◌then◌else◌, Option-cases, inl, inr,
}
use wallet_scan.Prelude.Texts.{Text, text_eq, text_beq_iff}
use wallet_scan.Prelude.Maps.{Map, lookup, insert, lookup-insert}
use wallet_scan.Adaptive.{
  Limiter, ChainState, Outcome, chain, register, attempt, release, retry_after, fresh,
}

-- How many slots of a chain are out.
unfoldable pub held : Text → List Text → ℕ
held name [] = 0
held name (t ∷ ts) = let rest = held name ts in if t == name then suc rest else rest

-- The slots that are left when one of a chain is given back.
unfoldable pub drop_one : Text → List Text → List Text
drop_one name [] = []
drop_one name (t ∷ ts) = if t == name then ts else t ∷ drop_one name ts

abbrev pub state_active : Option ChainState → ℕ
state_active none = 0
state_active (some s) = s.active

abbrev pub active_of : Text → Map ChainState → ℕ
active_of name m = state_active (lookup name m)

-- Every limit lies between 1 and the hard cap.
pub record IsBounded (l : Limiter) : Type 0 where
  pub global_pos : 1 ≤ l.global_limit
  pub global_le : l.global_limit ≤ l.max
  pub same : l.global.limit ≡ l.global_limit
  pub each :
      (name : Text) (s : ChainState)
      → lookup name l.chains ≡ some s
      → (1 ≤ s.limit) × (s.limit ≤ l.max)

-- The limiter's counts are the slots that are out.
pub record Counts (l : Limiter) (leases : List Text) : Type 0 where
  pub total : l.global_active ≡ length leases
  pub each : (name : Text) → active_of name l.chains ≡ held name leases
  pub capped : l.global_active ≤ l.max

pub held-le-length : (name : Text) (ts : List Text) → held name ts ≤ length ts
unfolding held
held-le-length name [] = omega arith
held-le-length name (t ∷ ts) = ground (arith, held-le-length name ts)

pub held-cons :
    (name t : Text) (ts : List Text)
    → held name (t ∷ ts) ≡ (if t == name then suc (held name ts) else held name ts)
unfolding held
held-cons name t ts = ground arith

pub held-drop_one :
    (name t : Text) (ts : List Text)
    → 0 < held t ts
    → held name (drop_one t ts) ≡ (if t == name then held name ts - 1 else held name ts)
unfolding held drop_one
held-drop_one name t [] h = absurd (omega arith)
held-drop_one name t (u ∷ ts) h =
    ground
      (arith, text_beq_iff u t, text_beq_iff u name, text_beq_iff t name, held-drop_one name t ts)

pub length-drop_one :
    (t : Text) (ts : List Text) → 0 < held t ts → length (drop_one t ts) + 1 ≡ length ts
unfolding held drop_one
length-drop_one t [] h = absurd (omega arith)
length-drop_one t (u ∷ ts) h = ground (arith, length-drop_one t ts)

pub active_of-insert :
    (name t : Text) (s : ChainState) (m : Map ChainState)
    → active_of name (insert t s m) ≡ (if t == name then s.active else active_of name m)
active_of-insert name t s m = ground (arith, lookup-insert t name s m)

-- `chain` makes a state of no slots, and changes no count.
pub chain_active :
    (l : Limiter) (t : Text) (now : ℕ) → (chain l t now).0.active ≡ active_of t l.chains
unfolding chain
chain_active l t now = ground arith

pub chain_keeps :
    (l : Limiter) (t : Text) (now : ℕ) (name : Text)
    → active_of name (chain l t now).1.chains ≡ active_of name l.chains
unfolding chain
chain_keeps l t now name =
    ground (arith, text_beq_iff t name, lookup-insert t name (fresh l.global_limit now) l.chains)

pub chain_frame :
    (l : Limiter) (t : Text) (now : ℕ)
    → ((chain l t now).1.max ≡ l.max)
      × ((chain l t now).1.global_limit ≡ l.global_limit)
      × ((chain l t now).1.global_active ≡ l.global_active)
      × ((chain l t now).1.global ≡ l.global)
unfolding chain
chain_frame l t now = ground arith

pub chain_limit :
    (l : Limiter) (t : Text) (now : ℕ)
    → IsBounded l
    → (1 ≤ (chain l t now).0.limit) × ((chain l t now).0.limit ≤ l.max)
unfolding chain
chain_limit l t now v = elim (Option-cases (lookup t l.chains)) [
  | inl new_chain ↦ ground arith
  | inr (s, e) ↦ ground (arith, v.each t s e)
]

-- Operations on the limiter with the slots that are out.
pub record System : Type 0 where
  pub limiter : Limiter
  pub leases : List Text

-- One step: a method of the limiter, by any caller. A refused `attempt` is a pass that waits or
-- gives up. A slot is given back by a caller that holds one for the chain.
pub data Step : System → System → Type 0 where
  registered :
      (s : System) (name : Text) (now : ℕ)
      → Step s (record s { limiter = register s.limiter name now })
  acquired :
      (s : System) (name : Text) (now : ℕ)
      → (attempt s.limiter name now).0 ≡ true
      → Step s (record { limiter = (attempt s.limiter name now).1; leases = name ∷ s.leases })
  refused :
      (s : System) (name : Text) (now : ℕ)
      → (attempt s.limiter name now).0 ≡ false
      → Step s (record s { limiter = (attempt s.limiter name now).1 })
  asked :
      (s : System) (name : Text) (now : ℕ)
      → Step s (record s { limiter = (retry_after s.limiter name now).1 })
  released :
      (s : System) (outcome : Outcome) (now : ℕ)
      → 0 < held outcome.chain s.leases
      → Step s (record {
        limiter = release s.limiter outcome now;
        leases = drop_one outcome.chain s.leases;
      })

pub data Reach (s : System) : System → Type 0 where
  here : Reach s s
  next : {t u : System} → Reach s t → Step t u → Reach s u

-- What every reachable system satisfies.
pub record IsSound (s : System) : Type 0 where
  pub bounded : IsBounded s.limiter
  pub counted : Counts s.limiter s.leases
