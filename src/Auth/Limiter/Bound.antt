-- ===== src/Auth/Limiter/Bound.antt =====
-- internal/api/middleware/ratelimit.go: how many attempts an interval lets through.
use quiver_core.Prelude.{
  ℕ, suc, ◌+◌, ◌*◌, ◌≤◌, ◌<◌, ltb, leb, Bool, true, false, List, [], ◌∷◌, if◌then◌else◌, inl, inr,
  ◌≡◌, refl, sym, ap, ◌∙◌, subst, ◌⊎◌, Bool-cases, lt→ltb, ltb→lt, arith,
}
use quiver_core.Auth.Limiter.{
  RateLimiter, new_rate_limiter, restart, take_one, allow, count_allowed, after_requests, AreWithin,
}

restart-within : (r : RateLimiter) (now : ℕ) → now < r.resets_at → restart r now ≡ r
unfolding restart
restart-within r now h = rw (lt→ltb now r.resets_at h) refl

restart-past :
    (r : RateLimiter) (now : ℕ)
    → ltb now r.resets_at ≡ false
    → restart r now ≡ record r { count = 0; resets_at = now + r.window }
unfolding restart
restart-past r now h = rw h refl

-- A request is refused, or it is counted and there was room for it.
abbrev IsTaken : RateLimiter → Bool × RateLimiter → Type 0
IsTaken r taken =
    (taken ≡ (false, r))
    ⊎ ((taken ≡ (true, record r { count = suc r.count })) × (r.count < r.limit))

take_one-IsTaken : (r : RateLimiter) → IsTaken r (take_one r)
unfolding take_one
take_one-IsTaken r = elim (Bool-cases (leb r.limit r.count)) [
  | inl full ↦ inl (rw full refl)
  | inr free ↦ inr (rw free refl, ground arith)
]

count_step :
    (r : RateLimiter) (now : ℕ) (times : List ℕ) (b : Bool) (next : RateLimiter)
    → allow r now ≡ (b, next)
    → count_allowed r (now ∷ times)
      ≡ (if b then suc (count_allowed next times) else count_allowed next times)
unfolding count_allowed
count_step r now times b next e = rw e refl

-- Before the counter starts again, what is let through fits in what is left of the limit.
count_allowed_before :
    (r : RateLimiter) (start : ℕ) (times : List ℕ)
    → AreWithin start r.resets_at times
    → r.count ≤ r.limit
    → count_allowed r times + r.count ≤ r.limit
count_allowed_before r start [] h c = unfold count_allowed in (omega (arith, c))
count_allowed_before r start (t ∷ times) (s, e, h) c =
    let same = ap take_one (restart-within r t e) in
    elim (take_one-IsTaken r) [
      | inl full ↦
          let skipped = count_step r t times false r (unfold allow in same ∙ full) in
          let ih = count_allowed_before r start times h c in omega (arith, skipped, ih)
      | inr (free, room) ↦
          let next : RateLimiter = record r { count = suc r.count } in
          let counted = count_step r t times true next (unfold allow in same ∙ free) in
          let ih : count_allowed next times + suc r.count ≤ r.limit =
            count_allowed_before next start times h (omega (arith, room)) in
          omega (arith, counted, ih)
    ]

AreWithin-extend :
    (start end later : ℕ) (times : List ℕ)
    → end ≤ later
    → AreWithin start end times
    → AreWithin start later times
AreWithin-extend start end later [] le h = tt
AreWithin-extend start end later (t ∷ times) le (s, e, h) =
    (s, omega (arith, e, le), AreWithin-extend start end later times le h)

-- After the counter has started again at a time of the interval, it does not start again in it.
count_allowed_restarted :
    (r : RateLimiter) (start t : ℕ) (times : List ℕ)
    → start ≤ t
    → AreWithin start (start + r.window) times
    → ltb t r.resets_at ≡ false
    → count_allowed r (t ∷ times) ≤ r.limit
count_allowed_restarted r start t times s h past =
    let fresh : RateLimiter = record r { count = 0; resets_at = t + r.window } in
    let same = ap take_one (restart-past r t past) in
    let within =
      AreWithin-extend start (start + r.window) (t + r.window) times (omega (arith, s)) h in
    elim (take_one-IsTaken fresh) [
      | inl full ↦
          let skipped = count_step r t times false fresh (unfold allow in same ∙ full) in
          let rest = count_allowed_before fresh start times within (omega arith) in
          omega (arith, skipped, rest)
      | inr (free, room) ↦
          let next : RateLimiter = record fresh { count = 1 } in
          let counted = count_step r t times true next (unfold allow in same ∙ free) in
          let rest : count_allowed next times + 1 ≤ r.limit =
            count_allowed_before next start times within (omega (arith, room)) in
          omega (arith, counted, rest)
    ]

count_allowed_within :
    (r : RateLimiter) (start : ℕ) (times : List ℕ)
    → AreWithin start (start + r.window) times
    → r.count ≤ r.limit
    → count_allowed r times + r.count ≤ 2 * r.limit
count_allowed_within r start [] h c = unfold count_allowed in (omega (arith, c))
count_allowed_within r start (t ∷ times) (s, e, h) c = elim (Bool-cases (ltb t r.resets_at)) [
  | inr past ↦ omega (arith, count_allowed_restarted r start t times s h past, c)
  | inl before ↦
      let same = ap take_one (restart-within r t (ltb→lt t r.resets_at before)) in
      elim (take_one-IsTaken r) [
        | inl full ↦
            let skipped = count_step r t times false r (unfold allow in same ∙ full) in
            omega (arith, skipped, count_allowed_within r start times h c)
        | inr (free, room) ↦
            let next : RateLimiter = record r { count = suc r.count } in
            let counted = count_step r t times true next (unfold allow in same ∙ free) in
            let ih : count_allowed next times + suc r.count ≤ 2 * r.limit =
              count_allowed_within next start times h (omega (arith, room)) in
            omega (arith, counted, ih)
      ]
]

-- What a limiter was made with, and that its counter is at most the limit.
abbrev IsLimiting : ℕ → ℕ → RateLimiter → Type 0
IsLimiting limit window r = (r.limit ≡ limit) × (r.window ≡ window) × (r.count ≤ limit)

take_one-IsLimiting :
    (limit window : ℕ) (r : RateLimiter)
    → IsLimiting limit window r
    → IsLimiting limit window (take_one r).1
take_one-IsLimiting limit window r (l, w, c) = elim (take_one-IsTaken r) [
  | inl full ↦ subst (λ x. IsLimiting limit window x.1) (sym full) (l, w, c)
  | inr (free, room) ↦
      subst (λ x. IsLimiting limit window x.1) (sym free) (l, w, omega (arith, l, room))
]

restart-IsLimiting :
    (limit window : ℕ) (r : RateLimiter) (now : ℕ)
    → IsLimiting limit window r
    → IsLimiting limit window (restart r now)
restart-IsLimiting limit window r now (l, w, c) = elim (Bool-cases (ltb now r.resets_at)) [
  | inl before ↦
      subst (IsLimiting limit window) (sym (restart-within r now (ltb→lt now r.resets_at before)))
        (l, w, c)
  | inr past ↦ subst (IsLimiting limit window) (sym (restart-past r now past)) (l, w, omega arith)
]

after_requests-IsLimiting :
    (limit window : ℕ) (r : RateLimiter) (times : List ℕ)
    → IsLimiting limit window r
    → IsLimiting limit window (after_requests r times)
unfolding after_requests allow
after_requests-IsLimiting limit window r [] h = h
after_requests-IsLimiting limit window r (t ∷ times) h =
    after_requests-IsLimiting limit window (allow r t).1 times
      (take_one-IsLimiting limit window (restart r t) (restart-IsLimiting limit window r t h))

-- Whatever requests came before, at most twice the limit is let through of the requests in an interval
-- as long as the window, at whatever times of the interval and in whatever order they come.
pub count_allowed-bound :
    (limit window start : ℕ) (earlier times : List ℕ)
    → AreWithin start (start + window) times
    → count_allowed (after_requests (new_rate_limiter limit window) earlier) times ≤ 2 * limit
count_allowed-bound limit window start earlier times h =
    let r = after_requests (new_rate_limiter limit window) earlier in
    let (l, w, c) : IsLimiting limit window r =
      after_requests-IsLimiting limit window (new_rate_limiter limit window) earlier
        (unfold new_rate_limiter in (refl, refl, omega arith)) in
    let bound =
      count_allowed_within r start times (subst (λ x. AreWithin start (start + x) times) (sym w) h)
        (omega (arith, l, c)) in
    omega (arith, bound, l)
