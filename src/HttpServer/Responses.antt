-- ===== src/HttpServer/Responses.antt =====
-- What the responses of the balance API say.
use wallet_scan.Prelude.{ℕ, ◌≡◌, refl, subst, inl, inr, Option, none, some, arith}
use wallet_scan.Prelude.Int.{ℤ, pos, ltb_ℤ}
use wallet_scan.Prelude.Texts.{Text, text_eq}
use wallet_scan.Providers.{Balance, ProviderError, Error, Result, ok, err}
use wallet_scan.Adaptive.Leases.{System}
use wallet_scan.Adaptive.Acquire.{Answer, granted, rejected, waiting, acquire}
use wallet_scan.HttpServer.Outcomes.{Matches, Outcome, declined, queried, handle_balance-Outcome}
use wallet_scan.HttpServer.{
  BalanceRequest, BalanceService, Request, Content, balance, failure, capacity, Response, World,
  checked_state, write_retry, as_provider_error, provider_response, balance_response,
  query_response, answer, handle_balance,
}

abbrev pub AgreesContent : ℕ → Content → Type 0
AgreesContent status (balance b) =
    (status ≡ 200) × (b.state ≡ checked_state) × (b.has_balance ≡ ltb_ℤ (pos 0) b.balance_atomic)
AgreesContent status (failure f) = Matches status f.state
AgreesContent status (capacity c) = ⊥

abbrev pub Agrees : Response → Type 0
Agrees r = AgreesContent r.status r.content

abbrev AgreesSome : Option (Response × System) → Type 0
AgreesSome none = Unit
AgreesSome (some (r, s)) = Agrees r

provider_response-Agrees : (e : ProviderError) → Agrees (provider_response e)
unfolding provider_response write_retry
provider_response-Agrees e = ground arith

balance_response-Agrees :
    (input : BalanceRequest) (n stamp : Text) (b : Balance)
    → Agrees (balance_response input n stamp b)
unfolding balance_response
balance_response-Agrees input n stamp b = by_number b.atomic
  where
    by_number : (o : Option ℤ) → Agrees (balance_response input n stamp (record b { atomic = o }))
    by_number none = inr (refl, inr (inl refl))
    by_number (some z) = (refl, refl, refl)

query_response-Agrees :
    (show : Error → Text) (input : BalanceRequest) (n stamp : Text) (r : Result Balance)
    → Agrees (query_response show input n stamp r)
unfolding query_response
query_response-Agrees show input n stamp (ok b) = balance_response-Agrees input n stamp b
query_response-Agrees show input n stamp (err e) =
    provider_response-Agrees (as_provider_error show e input.chain)

answer-Agrees :
    (w : World) (input : BalanceRequest) (n : Text) (r : Result Balance) (a : Answer × System)
    → AgreesSome (answer w input n r a)
unfolding answer
answer-Agrees w input n r (waiting, s) = tt
answer-Agrees w input n r (rejected d, s) = unfold write_retry in inr (refl, inl refl)
answer-Agrees w input n r (granted, s) = query_response-Agrees w.show input n w.time_stamp r

Outcome-Agrees :
    {svc : BalanceService} {w : World} {s : System} {o : Option (Response × System)}
    → Outcome svc w s o
    → AgreesSome o
Outcome-Agrees (declined status state code provider m) = m
Outcome-Agrees {w = w} {s = s} (queried input n check known fits e) =
    answer-Agrees w input n (check n) (acquire w.arrived input.chain w.rounds s)

-- Every response of the balance endpoint has the status of its state: 200 with `checked`, 400, 401 or
-- 405 with `rejected`, 429, 502 or 503 with `retry`; and `has_balance` says whether the number is
-- above zero.
pub handle_balance-Agrees :
    (svc : BalanceService) (w : World) (r : Request) (s : System) (resp : Response) (s' : System)
    → handle_balance svc w r s ≡ some (resp, s')
    → Agrees resp
handle_balance-Agrees svc w r s resp s' h =
    subst AgreesSome h (Outcome-Agrees (handle_balance-Outcome svc w s r))
