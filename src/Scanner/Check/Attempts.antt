-- ===== src/Scanner/Check/Attempts.antt =====
-- `checkWithRetry`, internal/scanner/scanner.go. Its world is a parameter: what the provider answers to
-- each attempt, whether a semaphore is got and a sleep ends before the context does, and what the other
-- workers do to the shared health tracker in between.
use wallet_scan.Prelude.{
  ℕ, zero, suc, ◌^◌, Bool, false, not, ◌&&◌, ◌||◌, none, some, List, [], ◌∷◌, ◌++◌, ◌==◌, nat_eq,
  if◌then◌else◌,
}
use wallet_scan.Prelude.Int.{ℤ, pos, leb_ℤ, mul64}
use wallet_scan.Prelude.Texts.{Text, codes, text_eq}
use wallet_scan.Providers.{Error, plain, provider_error, ProviderError, find_provider_error}
use wallet_scan.Scanner.Health.{HealthTracker, failure, success}

pub record Config : Type 0 where
  pub max_retries : ℕ
  pub retry_base_delay : ℤ

-- A balance whose `Atomic` is a number. The scanner reads the pointer with no test for nil, so its
-- providers are taken to answer so, as those of internal/providers do.
pub record Coin : Type 0 where
  pub value : ℤ
  pub symbol : Text
  pub chain : Text

pub data Reply : Type 0 where
  answered : Coin → Reply
  refused : Error → Reply

-- The world of one attempt. `slot`: the chain's semaphore was got before the context ended; `woke`:
-- the sleep behind it ended before the context did.
pub record Attempt : Type 0 where
  pub slot : Bool
  pub reply : Reply
  pub woke : Bool

-- The world of one query: its attempts, the error of an ended context, and what other workers do to
-- the tracker before this one locks it to record a result, to test it, and to take an alert.
pub record World : Type 0 where
  pub attempt : ℕ → Attempt
  pub context_error : Error
  pub before_record : HealthTracker → HealthTracker
  pub before_test : HealthTracker → HealthTracker
  pub before_alert : HealthTracker → HealthTracker

-- `asProviderError`: an error of another kind is not worth a retry.
unfoldable pub as_provider_error : (Error → Text) → Error → Text → ProviderError
as_provider_error show e fallback = elim (find_provider_error e) [
  | some found ↦ found
  | none ↦ record {
    code = codes "rpc_error";
    provider = fallback;
    status_code = 0;
    retry_after = pos 0;
    temporary = false;
    err = some (show e);
  }
]

-- What a query leaves: its reply, the tracker, and the sleeps that it made.
pub record Query : Type 0 where
  pub reply : Reply
  pub health : HealthTracker
  pub sleeps : List ℤ

-- The delay before the next attempt: the provider's, or the base delay doubled with each attempt.
unfoldable pub backoff : Config → ProviderError → ℕ → ℤ
backoff cfg e attempt =
    if leb_ℤ e.retry_after (pos 0)
    then mul64 cfg.retry_base_delay (pos (2 ^ attempt))
    else e.retry_after

abbrev pub unreachable : Error
unreachable = plain (codes "unreachable retry state")

-- What `checkWithRetry` does with the answer to an attempt; `again` is the rest of the loop, given
-- the sleeps so far.
unfoldable pub on_reply :
    (Error → Text) → Config → Text → World → ℕ → HealthTracker → List ℤ → Query → Reply → Query
on_reply show cfg chain w n h slept again (answered c) = record {
  reply = answered c;
  health = (success (w.before_record h) chain).1;
  sleeps = slept;
}
on_reply show cfg chain w n h slept again (refused e) =
    let found = as_provider_error show e chain in
    if not found.temporary || n == cfg.max_retries
    then record {
      reply = refused (provider_error found);
      health = (failure (w.before_record h) chain).1;
      sleeps = slept;
    }
    else if (w.attempt n).woke
    then again
    else record {
      reply = refused w.context_error;
      health = h;
      sleeps = slept ++ backoff cfg found n ∷ [];
    }

-- The delay that an answer asks for.
unfoldable pub delay_of : (Error → Text) → Config → Text → ℕ → Reply → ℤ
delay_of show cfg chain n (answered c) = pos 0
delay_of show cfg chain n (refused e) = backoff cfg (as_provider_error show e chain) n

-- The loop of `checkWithRetry` from attempt `n`, with `rounds` attempts left. A chain with no
-- semaphore is never held up.
unfoldable pub retry_loop :
    (Error → Text) → Config → Bool → Text → World → ℕ → ℕ → HealthTracker → List ℤ → Query
retry_loop show cfg limited chain w zero n h slept = record {
  reply = refused unreachable;
  health = h;
  sleeps = slept;
}
retry_loop show cfg limited chain w (suc rounds) n h slept =
    let again =
      retry_loop show cfg limited chain w rounds (suc n) h
        (slept ++ delay_of show cfg chain n (w.attempt n).reply ∷ []) in
    if limited && not (w.attempt n).slot
    then record { reply = refused w.context_error; health = h; sleeps = slept }
    else on_reply show cfg chain w n h slept again (w.attempt n).reply

-- `for attempt := 0; attempt <= s.Config.MaxRetries; attempt++`.
unfoldable pub check_with_retry :
    (Error → Text) → Config → Bool → Text → World → HealthTracker → Query
check_with_retry show cfg limited chain w h =
    retry_loop show cfg limited chain w (suc cfg.max_retries) 0 h []
