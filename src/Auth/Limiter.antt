-- ===== src/Auth/Limiter.antt =====
-- internal/api/middleware/ratelimit.go: a bound on the attempts to redeem a code.
pub mod Bound
use quiver_core.Prelude.{
  ℕ, zero, suc, ◌+◌, ◌-◌, ◌*◌, ◌≤◌, ◌<◌, ltb, leb, Bool, true, false, not, List, [], ◌∷◌,
  if◌then◌else◌, Occurs, inl, inr, ◌≡◌, refl, sym, ap, ◌∙◌, subst, ◌⊎◌, Bool-cases, lt→ltb, ltb→lt,
  arith,
}

pub record RateLimiter : Type 0 where
  pub limit : ℕ
  pub window : ℕ
  pub count : ℕ
  pub resets_at : ℕ

-- The zero time of `resetsAt` is before every request.
unfoldable pub new_rate_limiter : ℕ → ℕ → RateLimiter
new_rate_limiter limit window = record { limit = limit; window = window; count = 0; resets_at = 0 }

unfoldable pub restart : RateLimiter → ℕ → RateLimiter
restart r now =
    if not (ltb now r.resets_at) then record r { count = 0; resets_at = now + r.window } else r

unfoldable pub take_one : RateLimiter → Bool × RateLimiter
take_one r = if leb r.limit r.count then (false, r) else (true, record r { count = suc r.count })

-- `allow`, at a time.
unfoldable pub allow : RateLimiter → ℕ → Bool × RateLimiter
unfolding restart take_one
allow r now = take_one (restart r now)

-- How many of the requests at some times are let through.
unfoldable pub count_allowed : RateLimiter → List ℕ → ℕ
unfolding allow
count_allowed r [] = 0
count_allowed r (now ∷ times) =
    let (ok, next) = allow r now in
    let rest = count_allowed next times in if ok then suc rest else rest

-- Times that lie in an interval.
abbrev pub AreWithin : ℕ → ℕ → List ℕ → Type 0
AreWithin start end [] = Unit
AreWithin start end (t ∷ times) = (start ≤ t) × (t < end) × AreWithin start end times

-- The limiter after some requests.
unfoldable pub after_requests : RateLimiter → List ℕ → RateLimiter
unfolding allow
after_requests r [] = r
after_requests r (now ∷ times) = after_requests (allow r now).1 times
