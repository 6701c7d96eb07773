-- ===== src/Auth/Examples.antt =====
-- A code that is redeemed twice, and a limiter.
use quiver_core.Prelude.{
  false, str_eq, ◌+◌, ◌*◌, ◌≤◌, some, List, [], ◌∷◌, Str, codes, ◌≡◌, refl, arith,
}
use quiver_core.Auth.Redeem.{Auth, Call, to_generate, to_redeem, count_redeemed}
use quiver_core.Auth.Redeem.Once.{count_redeemed_once}
use quiver_core.Auth.Limiter.{new_rate_limiter, after_requests, count_allowed, AreWithin}
use quiver_core.Auth.Limiter.Bound.{count_allowed-bound}

abbrev hash : Str → Str
hash token = 35 ∷ token

abbrev nothing : Auth
nothing = record { codes = []; devices = [] }

abbrev code : Str
code = codes "482913"

-- The same code is drawn again after it was redeemed, and redeemed again.
abbrev calls : List Call
calls =
    to_generate (λ i. some code) 10 300
    ∷ to_redeem (some (codes "aa")) false code (codes "laptop") (codes "Laptop") 20
    ∷ to_redeem (some (codes "bb")) false code (codes "phone") (codes "Phone") 21
    ∷ to_generate (λ i. some code) 22 300
    ∷ to_redeem (some (codes "cc")) false code (codes "phone") (codes "Phone") 23
    ∷ []

redeemed_one : count_redeemed hash code calls nothing ≡ 1
unfolding count_redeemed str_eq
redeemed_one = refl

-- A code is not redeemed when it has expired.
expired :
    count_redeemed hash code
      (to_generate (λ i. some code) 10 300
        ∷ to_redeem (some (codes "aa")) false code (codes "laptop") (codes "Laptop") 310
        ∷ [])
      nothing
    ≡ 0
unfolding count_redeemed str_eq
expired = refl

count_redeemed_once_example : count_redeemed hash code calls nothing ≤ 1
count_redeemed_once_example = count_redeemed_once hash code calls nothing

-- Two of each window are let through.
let_through :
    count_allowed (after_requests (new_rate_limiter 2 10) (1 ∷ 2 ∷ [])) (10 ∷ 11 ∷ 12 ∷ 15 ∷ []) ≡ 2
unfolding count_allowed after_requests new_rate_limiter
let_through = refl

times_within : AreWithin 10 (10 + 10) (10 ∷ 11 ∷ 12 ∷ 15 ∷ [])
times_within = (
  omega arith,
  omega arith,
  (omega arith, omega arith, (omega arith, omega arith, (omega arith, omega arith, tt))),
)

count_allowed-bound_example :
    count_allowed (after_requests (new_rate_limiter 2 10) (1 ∷ 2 ∷ [])) (10 ∷ 11 ∷ 12 ∷ 15 ∷ [])
    ≤ 2 * 2
count_allowed-bound_example =
    count_allowed-bound 2 10 10 (1 ∷ 2 ∷ []) (10 ∷ 11 ∷ 12 ∷ 15 ∷ []) times_within
