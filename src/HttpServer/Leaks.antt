-- ===== src/HttpServer/Leaks.antt =====
-- A request keeps no slot.
use wallet_scan.Prelude.{
  ℕ, ◌≡◌, refl, subst, inl, inr, ◌||◌, Bool-cases, Option, none, some, List, [], ◌∷◌, All, arith,
}
use mathlib.Core.Path.{ap, ◌∙◌}
use wallet_scan.Prelude.Int.{pos, sub_ℕ, leb_ℤ}
use wallet_scan.Prelude.Texts.{Text, text_eq, text_beq_iff}
use wallet_scan.Providers.{Balance, Result}
use wallet_scan.Adaptive.{attempt}
use wallet_scan.Adaptive.Leases.{System, drop_one}
use wallet_scan.Adaptive.Acquire.{Answer, granted, rejected, waiting, Round, loop, reject, acquire}
use wallet_scan.HttpServer.Outcomes.{Outcome, declined, queried, handle_balance-Outcome}
use wallet_scan.HttpServer.{
  BalanceRequest, BalanceService, Request, Response, World, finish, answer, handle_balance,
}

-- The other callers end as many requests as they begin.
abbrev pub KeepsLeases : (System → System) → Type 0
KeepsLeases f = (s : System) → (f s).leases ≡ s.leases

abbrev leases_after : Text → Answer → List Text → List Text
leases_after name granted ts = name ∷ ts
leases_after name _ ts = ts

loop-leases :
    (deadline : ℕ) (name : Text) (rs : List Round) (s : System)
    → All (λ r. KeepsLeases r.others) rs
    → (loop deadline name rs s).1.leases ≡ leases_after name (loop deadline name rs s).0 s.leases
unfolding loop reject
loop-leases deadline name [] s k = refl
loop-leases deadline name (r ∷ rs) s k =
    let l = (attempt s.limiter name r.now).1 in
    let after = r.others (record s { limiter = l }) in
    let ih = loop-leases deadline name rs after k.1 in
    elim (Bool-cases (attempt s.limiter name r.now).0) [
      | inl taken ↦ rw taken refl
      | inr full ↦ elim (Bool-cases (leb_ℤ (sub_ℕ deadline r.now) (pos 0) || r.cancelled)) [
        | inl over ↦ rw (full, over) (k.0 (record s { limiter = l }))
        | inr more ↦
            rw (full, more)
              (ih
                ∙ ap (leases_after name (loop deadline name rs after).0)
                    (k.0 (record s { limiter = l })))
      ]
    ]

abbrev KeptSome : System → Option (Response × System) → Type 0
KeptSome s none = Unit
KeptSome s (some (r, s')) = s'.leases ≡ s.leases

answer_kept :
    (w : World) (input : BalanceRequest) (n : Text) (reply : Result Balance) (s : System)
    (a : Answer × System)
    → KeepsLeases w.during
    → a.1.leases ≡ leases_after input.chain a.0 s.leases
    → KeptSome s (answer w input n reply a)
unfolding answer finish drop_one
answer_kept w input n reply s (waiting, s') k h = tt
answer_kept w input n reply s (rejected d, s') k h = h
answer_kept w input n reply s (granted, s') k h =
    rw (k s', h) (ground (arith, text_beq_iff input.chain input.chain))

Outcome_kept :
    {svc : BalanceService} {w : World} {s : System} {o : Option (Response × System)}
    → All (λ r. KeepsLeases r.others) w.rounds
    → KeepsLeases w.during
    → Outcome svc w s o
    → KeptSome s o
unfolding acquire
Outcome_kept passes query (declined status state code provider m) = refl
Outcome_kept {w = w} {s = s} passes query (queried input n check known fits e) =
    answer_kept w input n (check n) s (acquire w.arrived input.chain w.rounds s) query
      (loop-leases _ input.chain w.rounds s passes)

-- No request leaks a slot: where the callers beside it hold as many slots as before, the slots that
-- are out after a request are those that were out before it, whichever way it ended.
pub handle_balance-leases :
    (svc : BalanceService) (w : World) (r : Request) (s : System) (resp : Response) (s' : System)
    → All (λ q. KeepsLeases q.others) w.rounds
    → KeepsLeases w.during
    → handle_balance svc w r s ≡ some (resp, s')
    → s'.leases ≡ s.leases
handle_balance-leases svc w r s resp s' passes query h =
    subst (KeptSome s) h (Outcome_kept passes query (handle_balance-Outcome svc w s r))
