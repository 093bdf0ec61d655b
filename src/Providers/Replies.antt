-- ===== src/Providers/Replies.antt =====
-- What a query can return: which failures are worth a retry, and that a balance is always a number.
use wallet_scan.Prelude.{
  ℕ, ◌-◌, ◌≤◌, ◌<◌, ◌≡◌, refl, ◌⊎◌, inl, inr, Bool, true, false, none, some, arith, ◌↔◌,
}
use wallet_scan.Prelude.Int.{ℤ, pos}
use wallet_scan.Prelude.Texts.{Text}
use wallet_scan.Domain.{chain_btc, chain_solana, chain_tron}
use wallet_scan.Providers.{
  Balance, Error, provider_error, Result, ok, err, Delivery, response, no_response, encode_error,
  request_error, request, BtcResponse, EvmResponse, SolanaResponse, check_btc, check_evm,
  check_solana, check_tron,
}
use wallet_scan.Providers.Quantities.{IsResult, evm_balance-ok}

pub Result-cases :
    {A : Type 0} (r : Result A) → ((a : A) × (r ≡ ok a)) ⊎ ((e : Error) × (r ≡ err e))
Result-cases (ok a) = inl (a, refl)
Result-cases (err e) = inr (e, refl)

-- The failures that a caller should retry.
abbrev pub IsTransient : {A : Type 0} → Delivery A → Type 0
IsTransient (encode_error _) = ⊥
IsTransient (request_error _) = ⊥
IsTransient (no_response _ _) = Unit
IsTransient (response status _ _) = (status ≡ 429) ⊎ (500 ≤ status)

abbrev pub temporary_of : {A : Type 0} → Result A → Bool
temporary_of (ok _) = false
temporary_of (err (provider_error e)) = e.temporary
temporary_of (err _) = false

-- `request` marks a failure as temporary exactly when no response came, the status is 429, or it is
-- 500 or more.
pub request_temporary :
    {A : Type 0} (name : Text) (d : Delivery A)
    → (temporary_of (request name d) ≡ true) ↔ IsTransient d
unfolding request
request_temporary name (encode_error m) = ((λ h. cc), (λ h. absurd h))
request_temporary name (request_error m) = ((λ h. cc), (λ h. absurd h))
request_temporary name (no_response b m) = ((λ h. tt), (λ h. refl))
request_temporary name (response status delay (inl m)) = ((λ h. ground arith), (λ h. ground arith))
request_temporary name (response status delay (inr a)) = ((λ h. ground arith), (λ h. ground arith))

-- The balance that a provider returned, as a fact about its query: there was a response with a status
-- from 200 to 299, and its body is the one given.
abbrev pub Answered : {A : Type 0} → Delivery A → A → Type 0
Answered (response status _ (inr body)) a = (200 ≤ status) × (status < 300) × (body ≡ a)
Answered (response _ _ (inl _)) a = ⊥
Answered (encode_error _) a = ⊥
Answered (request_error _) a = ⊥
Answered (no_response _ _) a = ⊥

pub request-ok :
    {A : Type 0} (name : Text) (d : Delivery A) (a : A) → request name d ≡ ok a → Answered d a
unfolding request
request-ok name (encode_error m) a h = absurd (cc)
request-ok name (request_error m) a h = absurd (cc)
request-ok name (no_response b m) a h = absurd (cc)
request-ok name (response status delay (inl m)) a h = ground arith
request-ok name (response status delay (inr b)) a h = ground arith

-- A Bitcoin balance comes from a successful response, and is what was funded less what was spent,
-- or 0 where more was spent than funded: a failed query is never a balance of zero.
pub check_btc-ok :
    (d : Delivery BtcResponse) (b : Balance)
    → check_btc d ≡ ok b
    → (r : BtcResponse) × Answered d r
      × (b.atomic ≡ some (pos (r.funded - r.spent)))
      × (b.chain ≡ chain_btc)
unfolding check_btc
check_btc-ok d b h = elim (Result-cases (request chain_btc d)) [
  | inl (r, e) ↦ (r, request-ok chain_btc d r e, ground arith, ground arith)
  | inr (x, e) ↦ absurd (ground arith)
]

-- A Solana balance comes from a successful response with no error object, and is its value.
pub check_solana-ok :
    (show : ℤ → Text) (d : Delivery SolanaResponse) (b : Balance)
    → check_solana show d ≡ ok b
    → (r : SolanaResponse) × Answered d r
      × (r.error_code ≡ none)
      × (b.atomic ≡ some (pos r.value))
      × (b.chain ≡ chain_solana)
unfolding check_solana
check_solana-ok show d b h = elim (Result-cases (request chain_solana d)) [
  | inl (r, e) ↦ (r, request-ok chain_solana d r e, ground arith, ground arith, ground arith)
  | inr (x, e) ↦ absurd (ground arith)
]

-- A TRON balance comes from a successful response, and is its number.
pub check_tron-ok :
    (d : Delivery ℕ) (b : Balance)
    → check_tron d ≡ ok b
    → (r : ℕ) × Answered d r × (b.atomic ≡ some (pos r)) × (b.chain ≡ chain_tron)
unfolding check_tron
check_tron-ok d b h = elim (Result-cases (request chain_tron d)) [
  | inl (r, e) ↦ (r, request-ok chain_tron d r e, ground arith, ground arith)
  | inr (x, e) ↦ absurd (ground arith)
]

-- An EVM balance comes from a successful response with no error object, and is the number that the
-- grammar of results gives its result, which is 0 for an empty one, marked with the provider's chain.
pub check_evm-ok :
    (show : ℤ → Text) (name symbol : Text) (d : Delivery EvmResponse) (b : Balance)
    → check_evm show name symbol d ≡ ok b
    → (r : EvmResponse) × Answered d r
      × (r.error_code ≡ none)
      × ((z : ℤ) × (b.atomic ≡ some z) × IsResult r.result z)
      × (b.chain ≡ name)
unfolding check_evm
check_evm-ok show name symbol d b h = elim (Result-cases (request name d)) [
  | inl (r, e) ↦
      let (z, atomic, result, chain) = evm_balance-ok name symbol r.result b (ground arith) in
      (r, request-ok name d r e, ground arith, (z, atomic, result), chain)
  | inr (x, e) ↦ absurd (ground arith)
]
