-- ===== src/Auth/Redeem/Once.antt =====
-- internal/app/usecases/auth.go: the calls that give out a token for a code.
use quiver_core.Prelude.{
  ℕ, ◌≤◌, Bool, true, false, Option, none, some, List, [], ◌∷◌, Str, str_eq, str_eq_iff,
  if◌then◌else◌, Bool-cases, ◌≡◌, inl, inr, refl, sym, ap, ◌∙◌, subst, arith,
}
use quiver_core.Auth.Code.{generate, claim, max_generate_attempts}
use quiver_core.Auth.Redeem.{
  Auth, redeem, pair_device, generate_pairing_code, Call, to_generate, to_redeem, to_authenticate,
  to_touch, to_revoke, is_some_token, step, count_redeemed, touch_in_background, revoke_device,
}
use quiver_core.Auth.Redeem.Spent.{
  IsSpent, generate_loop-lookup, claim-spent, claim-IsSpent, claim-kept,
}

module _ (hash_token : Str → Str) where
  pair_device-codes :
      (token : Option Str) (pair_fails : Bool) (id label : Str) (now : ℕ) (s : Auth)
      → (pair_device hash_token token pair_fails id label now s).1.codes ≡ s.codes
  unfolding pair_device
  pair_device-codes none pair_fails id label now s = refl
  pair_device-codes (some t) true id label now s = refl
  pair_device-codes (some t) false id label now s = refl

  redeem-codes :
      (token : Option Str) (pair_fails : Bool) (given id label : Str) (now : ℕ) (s : Auth)
      → (redeem hash_token token pair_fails given id label now s).1.codes
        ≡ (claim now given s.codes).1
  unfolding redeem
  redeem-codes token pair_fails given id label now s = go (claim now given s.codes).0
    where
      go :
          (b : Bool)
          → (if b
              then pair_device hash_token token pair_fails id label now
                  (record s { codes = (claim now given s.codes).1 })
              else (none, record s { codes = (claim now given s.codes).1 })).1.codes
            ≡ (claim now given s.codes).1
      go true =
          pair_device-codes token pair_fails id label now
            (record s { codes = (claim now given s.codes).1 })
      go false = refl

  redeem-claimed :
      (token : Option Str) (pair_fails : Bool) (given id label : Str) (now : ℕ) (s : Auth)
      → is_some_token (redeem hash_token token pair_fails given id label now s).0 ≡ true
      → (claim now given s.codes).0 ≡ true
  unfolding redeem is_some_token
  redeem-claimed token pair_fails given id label now s h = go (claim now given s.codes).0 h
    where
      go :
          (b : Bool)
          → is_some_token
              (if b
                then pair_device hash_token token pair_fails id label now
                    (record s { codes = (claim now given s.codes).1 })
                else (none, record s { codes = (claim now given s.codes).1 })).0
            ≡ true
          → b ≡ true
      go true k = refl
      go false k = k

  -- After a call that gives out a token for a code, the code is spent.
  step-IsSpent :
      (code : Str) (c : Call) (s : Auth)
      → (step hash_token code c s).0 ≡ true
      → IsSpent code (step hash_token code c s).1.codes
  unfolding step
  step-IsSpent code (to_generate random now ttl) s h = cc
  step-IsSpent code (to_authenticate token) s h = cc
  step-IsSpent code (to_touch id now) s h = cc
  step-IsSpent code (to_revoke id) s h = cc
  step-IsSpent code (to_redeem token pair_fails given id label now) s h =
      elim (Bool-cases (str_eq given code)) [
        | inr apart ↦ cc (
          ap
              (λ b.
                if b
                then is_some_token (redeem hash_token token pair_fails given id label now s).0
                else false)
              apart,
          h,
        )
        | inl same ↦
            let out : is_some_token (redeem hash_token token pair_fails given id label now s).0
                ≡ true =
              sym (
                ap
                  (λ b.
                    if b
                    then is_some_token (redeem hash_token token pair_fails given id label now s).0
                    else false)
                  same)
              ∙ h in
            let spent =
              claim-IsSpent now given s.codes
                (redeem-claimed token pair_fails given id label now s out) in
            subst (IsSpent code) (sym (redeem-codes token pair_fails given id label now s)) (
              subst (λ c. IsSpent c (claim now given s.codes).1) ((str_eq_iff given code).0 same)
                spent)
      ]

  -- Every call keeps a spent code spent.
  step-kept :
      (code : Str) (c : Call) (s : Auth)
      → IsSpent code s.codes
      → IsSpent code (step hash_token code c s).1.codes
  unfolding step generate_pairing_code generate touch_in_background revoke_device
  step-kept code (to_generate random now ttl) s (p, here, used) =
      (p, generate_loop-lookup max_generate_attempts 0 random now ttl code p s.codes here, used)
  step-kept code (to_authenticate token) s spent = spent
  step-kept code (to_touch id now) s spent = spent
  step-kept code (to_revoke id) s spent = spent
  step-kept code (to_redeem token pair_fails given id label now) s spent =
      subst (IsSpent code) (sym (redeem-codes token pair_fails given id label now s))
        (claim-kept now given code s.codes spent)

  -- No call gives out a token for a spent code.
  step_spent :
      (code : Str) (c : Call) (s : Auth)
      → IsSpent code s.codes
      → (step hash_token code c s).0 ≡ false
  unfolding step
  step_spent code (to_generate random now ttl) s spent = refl
  step_spent code (to_authenticate token) s spent = refl
  step_spent code (to_touch id now) s spent = refl
  step_spent code (to_revoke id) s spent = refl
  step_spent code (to_redeem token pair_fails given id label now) s spent =
      go (str_eq given code)
        (is_some_token (redeem hash_token token pair_fails given id label now s).0) refl refl
    where
      refused : str_eq given code ≡ true → (claim now given s.codes).0 ≡ false
      refused same =
          subst (λ c. (claim now c s.codes).0 ≡ false) (sym ((str_eq_iff given code).0 same))
            (ap (λ x. x.0) (claim-spent now code s.codes spent))

      go :
          (b t : Bool)
          → str_eq given code ≡ b
          → is_some_token (redeem hash_token token pair_fails given id label now s).0 ≡ t
          → (if b then t else false) ≡ false
      go true true e k = cc (refused e, redeem-claimed token pair_fails given id label now s k)
      go true false e k = refl
      go false t e k = refl

  count_redeemed_spent :
      (code : Str) (calls : List Call) (s : Auth)
      → IsSpent code s.codes
      → count_redeemed hash_token code calls s ≡ 0
  unfolding count_redeemed
  count_redeemed_spent code [] s spent = refl
  count_redeemed_spent code (c ∷ calls) s spent =
      rw (step_spent code c s spent)
        (count_redeemed_spent code calls (step hash_token code c s).1 (step-kept code c s spent))

  -- Whatever is called, in any order and at any time, at most one call gives out a token for a code.
  pub count_redeemed_once :
      (code : Str) (calls : List Call) (s : Auth) → count_redeemed hash_token code calls s ≤ 1
  unfolding count_redeemed
  count_redeemed_once code [] s = omega arith
  count_redeemed_once code (c ∷ calls) s =
      let next = (step hash_token code c s).1 in
      elim (Bool-cases (step hash_token code c s).0) [
        | inl given ↦
            let none_later = count_redeemed_spent code calls next (step-IsSpent code c s given) in
            rw (given, none_later) (omega arith)
        | inr not_given ↦ rw not_given (count_redeemed_once code calls next)
      ]
