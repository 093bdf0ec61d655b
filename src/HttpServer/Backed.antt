-- ===== src/HttpServer/Backed.antt =====
-- Where the balance of a `checked` response comes from.
use wallet_scan.Prelude.{◌≡◌, refl, subst, true, Option, none, some, arith}
use wallet_scan.Prelude.Int.{ℤ}
use wallet_scan.Prelude.Texts.{Text, text_eq}
use wallet_scan.Prelude.Maps.{lookup}
use wallet_scan.Providers.{Balance, ProviderError, Result, ok, err}
use wallet_scan.Adaptive.Leases.{System}
use wallet_scan.Adaptive.Acquire.{Answer, granted, rejected, waiting, acquire}
use wallet_scan.Importer.{valid, normalize_and_validate}
use wallet_scan.HttpServer.Outcomes.{Outcome, declined, queried, handle_balance-Outcome}
use wallet_scan.HttpServer.{
  BalanceRequest, BalanceService, Request, BalanceResponse, Content, balance, failure, capacity,
  Response, World, chain_allowed, as_provider_error, provider_response, balance_response,
  query_response, answer, handle_balance, write_retry,
}

module _ (svc : BalanceService) where
  -- The number is the one that the provider of the response's chain returned, without an error, for
  -- the response's address, which is the normal form of a valid address of the response's type.
  abbrev pub IsBacked : BalanceResponse → Type 0
  IsBacked b =
      (check : Text → Result Balance) × (found : Balance) × (given : Text) × (lookup b.chain
          svc.providers
        ≡ some check)
      × (check b.address ≡ ok found)
      × (found.atomic ≡ some b.balance_atomic)
      × (found.symbol ≡ b.asset_symbol)
      × (chain_allowed b.address_type b.chain ≡ true)
      × (normalize_and_validate b.address_type given ≡ valid b.address)

  abbrev BackedContent : Content → Type 0
  BackedContent (balance b) = IsBacked b
  BackedContent (failure f) = Unit
  BackedContent (capacity c) = Unit

  abbrev BackedSome : Option (Response × System) → Type 0
  BackedSome none = Unit
  BackedSome (some (r, s)) = BackedContent r.content

  module _ (w : World) (input : BalanceRequest) (n : Text)
      (allowed : chain_allowed input.address_type input.chain ≡ true)
      (known : normalize_and_validate input.address_type input.address ≡ valid n) where
    response_backed :
        (check : Text → Result Balance)
        → lookup input.chain svc.providers ≡ some check
        → (r : Result Balance) → check n ≡ r
        → BackedContent (query_response w.show input n w.time_stamp r).content
    unfolding query_response balance_response
    response_backed check e (ok b) asked = by_number b.atomic refl
      where
        by_number :
            (o : Option ℤ)
            → b.atomic ≡ o
            → BackedContent (query_response w.show input n w.time_stamp (ok b)).content
        by_number none x = rw (x, query_response, balance_response) tt
        by_number (some z) x =
            rw (x, query_response, balance_response)
              (check, b, input.address, e, asked, x, refl, allowed, known)
    response_backed check e (err x) asked = failed_backed (as_provider_error w.show x input.chain)
      where
        failed_backed : (pe : ProviderError) → BackedContent (provider_response pe).content
        failed_backed pe = unfold provider_response write_retry in ground arith

    answer_backed :
        (check : Text → Result Balance)
        → lookup input.chain svc.providers ≡ some check
        → (a : Answer × System) → BackedSome (answer w input n (check n) a)
    unfolding answer
    answer_backed check e (waiting, s) = tt
    answer_backed check e (rejected d, s) = unfold write_retry in tt
    answer_backed check e (granted, s) = response_backed check e (check n) refl

  Outcome_backed :
      {w : World} {s : System} {o : Option (Response × System)} → Outcome svc w s o → BackedSome o
  Outcome_backed (declined status state code provider m) = tt
  Outcome_backed {w} {s} (queried input n check known fits e) =
      answer_backed w input n fits known check e (acquire w.arrived input.chain w.rounds s)

-- A balance in a response is never made up: it is the number that the provider of the response's chain
-- returned, without an error, for the address in the response; the chain belongs to the address type,
-- and the address is the normal form of a valid address of that type.
pub checked-IsBacked :
    (svc : BalanceService) (w : World) (r : Request) (s : System) (resp : Response) (s' : System)
    (b : BalanceResponse)
    → handle_balance svc w r s ≡ some (resp, s')
    → resp.content ≡ balance b
    → IsBacked svc b
checked-IsBacked svc w r s resp s' b h e =
    subst (BackedContent svc) e
      (subst (BackedSome svc) h (Outcome_backed svc (handle_balance-Outcome svc w s r)))
