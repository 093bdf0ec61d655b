-- ===== src/StartupCheck/Results.antt =====
-- A check is a result with a balance of at least zero or one that is left for a retry, and a failure is
-- never a zero balance.
use wallet_scan.Prelude.{
  ◌≡◌, ◌≢◌, refl, subst, ◌⊎◌, inl, inr, ◌||◌, Option, none, some, [], arith, ◌==◌, Bool-cases,
}
use wallet_scan.Prelude.Int.{ℤ, pos, ◌≤ℤ◌, ltb_ℤ}
use wallet_scan.Prelude.Texts.{Text, text_eq, text_beq_iff}
use wallet_scan.Prelude.Maps.{lookup}
use wallet_scan.Providers.{Balance, Error, Result, ok, err}
use wallet_scan.Adaptive.Leases.{System}
use wallet_scan.Adaptive.Acquire.{Answer, granted, rejected, waiting, acquire}
use wallet_scan.HttpServer.{World}
use wallet_scan.StartupCheck.{
  Target, BalanceCheck, Service, checked_state, retry_state, of_balance, of_error, of_reply,
  after_acquire, check,
}

-- A row that is checked: it holds a balance of at least zero and a symbol, and its provider returned
-- both, without an error, for the address of the target.
abbrev pub IsChecked : Service → Target → BalanceCheck → Type 0
IsChecked svc item c =
    (z : ℤ) × (ask : Text → Result Balance) × (b : Balance) × (c.state ≡ checked_state)
    × (c.balance_atomic ≡ some z)
    × (pos 0 ≤ℤ z)
    × (c.asset_symbol ≢ [])
    × (lookup item.chain svc.providers ≡ some ask)
    × (ask item.address ≡ ok b)
    × (b.atomic ≡ some z)
    × (b.symbol ≡ c.asset_symbol)

-- A row that is left for a retry: it holds no balance.
abbrev pub IsLeft : BalanceCheck → Type 0
IsLeft c = (c.state ≡ retry_state) × (c.balance_atomic ≡ none)

-- The CHECK constraint of the table, where an empty symbol is stored as NULL, with the origin of each
-- balance, and the target's key.
abbrev pub FitsTarget : Service → Target → BalanceCheck → Type 0
FitsTarget svc item c =
    (IsChecked svc item c ⊎ IsLeft c) × (c.address_id ≡ item.address_id) × (c.chain ≡ item.chain)

abbrev FitsSome : Service → Target → Option (BalanceCheck × System) → Type 0
FitsSome svc item none = Unit
FitsSome svc item (some (c, s)) = FitsTarget svc item c

module _ (svc : Service) (item : Target) where
  module _ (ask : Text → Result Balance) (known : lookup item.chain svc.providers ≡ some ask) where
    of_balance_fits :
        (b : Balance) → ask item.address ≡ ok b → FitsTarget svc item (of_balance item b)
    unfolding of_balance
    of_balance_fits b asked = by_number b.atomic refl
      where
        by_number : (o : Option ℤ) → b.atomic ≡ o → FitsTarget svc item (of_balance item b)
        by_number none e = rw (e, of_balance) (inr (refl, refl), refl, refl)
        by_number (some z) e = elim (Bool-cases (ltb_ℤ z (pos 0) || b.symbol == [])) [
          | inl bad ↦ rw (e, of_balance, bad) (inr (refl, refl), refl, refl)
          | inr good ↦
              rw (e, of_balance, good)
                (
                  inl (
                    z,
                    ask,
                    b,
                    refl,
                    refl,
                    ground arith,
                    ground (arith, text_beq_iff b.symbol []),
                    known,
                    asked,
                    e,
                    refl,
                  ),
                  refl,
                  refl,
                )
        ]

    of_reply_fits :
        (show : Error → Text) (r : Result Balance)
        → ask item.address ≡ r
        → FitsTarget svc item (of_reply show item r)
    unfolding of_reply of_error
    of_reply_fits show (ok b) asked = of_balance_fits b asked
    of_reply_fits show (err e) asked = (inr (refl, refl), refl, refl)

    after_acquire_fits :
        (w : World) (a : Answer × System)
        → FitsSome svc item (after_acquire w item (ask item.address) a)
    unfolding after_acquire
    after_acquire_fits w (waiting, s) = tt
    after_acquire_fits w (rejected d, s) = (inr (refl, refl), refl, refl)
    after_acquire_fits w (granted, s) = of_reply_fits w.show (ask item.address) refl

  check-FitsSome : (w : World) (s : System) → FitsSome svc item (check svc w item s)
  unfolding check
  check-FitsSome w s = by_provider (lookup item.chain svc.providers) refl
    where
      by_provider :
          (o : Option (Text → Result Balance))
          → lookup item.chain svc.providers ≡ o
          → FitsSome svc item (check svc w item s)
      by_provider none e = elim (Bool-cases svc.has_limiter) [
        | inl on ↦ rw (e, check, on) (inr (refl, refl), refl, refl)
        | inr off ↦ rw (e, check, off) (inr (refl, refl), refl, refl)
      ]
      by_provider (some ask) e = elim (Bool-cases svc.has_limiter) [
        | inl on ↦
            rw (e, check, on) (after_acquire_fits ask e w (acquire w.arrived item.chain w.rounds s))
        | inr off ↦ rw (e, check, off) (inr (refl, refl), refl, refl)
      ]

-- A check of a target fits its table row: it is checked, with the balance of at least zero and the
-- symbol that the provider returned for the target's address, or it is left for a retry with no balance
-- at all.
pub check_fits :
    (svc : Service) (w : World) (item : Target) (s : System) (c : BalanceCheck) (s' : System)
    → check svc w item s ≡ some (c, s')
    → FitsTarget svc item c
check_fits svc w item s c s' h = subst (FitsSome svc item) h (check-FitsSome svc item w s)
