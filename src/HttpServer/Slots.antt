-- ===== src/HttpServer/Slots.antt =====
-- The limiter through a request: the handler's own steps are steps of the limiter, and it gives back
-- the slot that it takes.
use wallet_scan.Prelude.{◌<◌, ◌≡◌, refl, subst, Option, none, some, All}
use wallet_scan.Prelude.Texts.{Text, text_eq}
use wallet_scan.Providers.{Balance, Result}
use wallet_scan.Adaptive.Leases.{System, Reach, here, next, released, held}
use wallet_scan.Adaptive.Acquire.{
  Answer, granted, rejected, waiting, acquire, Interleaves, acquire-Reach, acquire_granted,
  Reach-trans,
}
use wallet_scan.HttpServer.Outcomes.{Outcome, declined, queried, handle_balance-Outcome}
use wallet_scan.HttpServer.{
  BalanceRequest, BalanceService, Request, Response, World, finish, answer, handle_balance,
}

-- The other callers take steps of the limiter, and give back only slots of their own: while this
-- request asks its provider, its slot stays out.
pub record IsFair (w : World) (chain : Text) : Type 0 where
  pub passes : All Interleaves w.rounds
  pub query : (s : System) → Reach s (w.during s)
  pub keeps : (s : System) → 0 < held chain s.leases → 0 < held chain (w.during s).leases

abbrev ReachesSome : System → Option (Response × System) → Type 0
ReachesSome s none = Unit
ReachesSome s (some (r, s')) = Reach s s'

pub finish-Reach :
    (w : World) (chain : Text) (reply : Result Balance) (s : System)
    → IsFair w chain
    → 0 < held chain s.leases
    → Reach s (finish w chain reply s)
unfolding finish
finish-Reach w chain reply s f h =
    next (f.query s) (released (w.during s) _ w.finished (f.keeps s h))

answer-Reach :
    (w : World) (input : BalanceRequest) (n : Text) (reply : Result Balance) (s : System)
    (a : Answer × System)
    → IsFair w input.chain
    → Reach s a.1
    → (a.0 ≡ granted → 0 < held input.chain a.1.leases)
    → ReachesSome s (answer w input n reply a)
unfolding answer
answer-Reach w input n reply s (waiting, s') f r h = tt
answer-Reach w input n reply s (rejected d, s') f r h = r
answer-Reach w input n reply s (granted, s') f r h =
    Reach-trans r (finish-Reach w input.chain reply s' f (h refl))

Outcome-Reach :
    {svc : BalanceService} {w : World} {s : System} {o : Option (Response × System)}
    → ((chain : Text) → IsFair w chain)
    → Outcome svc w s o
    → ReachesSome s o
Outcome-Reach f (declined status state code provider m) = here
Outcome-Reach {w = w} {s = s} f (queried input n check known fits e) =
    answer-Reach w input n (check n) s (acquire w.arrived input.chain w.rounds s) (f input.chain)
      (acquire-Reach w.arrived input.chain w.rounds s (f input.chain).passes)
      (acquire_granted w.arrived input.chain w.rounds s)

-- A request is a run of the limiter's steps, its own and those of the callers beside it: it gives a slot
-- back only where it took one. The other callers take steps of the limiter and give back slots of their
-- own.
pub handle_balance-Reach :
    (svc : BalanceService) (w : World) (r : Request) (s : System) (resp : Response) (s' : System)
    → ((chain : Text) → IsFair w chain)
    → handle_balance svc w r s ≡ some (resp, s')
    → Reach s s'
handle_balance-Reach svc w r s resp s' f h =
    subst (ReachesSome s) h (Outcome-Reach f (handle_balance-Outcome svc w s r))
