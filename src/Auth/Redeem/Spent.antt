-- ===== src/Auth/Redeem/Spent.antt =====
-- internal/app/repositories/pairingcode: codes that were claimed.
use quiver_core.Prelude.{
  ℕ, zero, suc, ◌+◌, Bool, true, false, not, Option, none, some, is_some, Str, str_eq, str_eq_iff,
  Dict, lookup, lookup-insert, Bool-cases, Option-cases, ◌≡◌, inl, inr, refl, sym, ap, ◌∙◌, subst,
}
use quiver_core.Auth.Code.{
  PairingCode, is_pending, can_claim, generate_validate, generate_emit, claim_validate, claim_emit,
  Generated, stored_or, attempt, generate_loop, claim_stored, claim,
}

-- A code that was claimed.
abbrev pub IsSpent : Str → Dict PairingCode → Type 0
IsSpent code codes = (p : PairingCode) × (lookup code codes ≡ some p) × (is_pending p.state ≡ false)

-- A new code takes nothing from the codes that are there.
attempt-lookup :
    (o : Option Str) (now ttl : ℕ) (code : Str) (p : PairingCode) (codes : Dict PairingCode)
    (next : Generated × Dict PairingCode)
    → lookup code codes ≡ some p
    → lookup code next.1 ≡ some p
    → lookup code (attempt o now ttl codes next).1 ≡ some p
unfolding attempt
attempt-lookup none now ttl code p codes next here later = here
attempt-lookup (some new) now ttl code p codes next here later =
    go (generate_validate (lookup new codes)) refl
  where
    taken : new ≡ code → generate_validate (lookup new codes) ≡ false
    taken same =
        unfold generate_validate in
        ap (λ c. not (is_some (lookup c codes))) same ∙ ap (λ o. not (is_some o)) here

    go :
        (b : Bool)
        → generate_validate (lookup new codes) ≡ b
        → lookup code (stored_or b (generate_emit new now (now + ttl)) codes next).1 ≡ some p
    go true e = elim (Bool-cases (str_eq new code)) [
      | inl same ↦ cc (e, taken ((str_eq_iff new code).0 same))
      | inr apart ↦ lookup-insert new code (generate_emit new now (now + ttl)) codes ∙ rw apart here
    ]
    go false e = later

pub generate_loop-lookup :
    (left i : ℕ) (random : ℕ → Option Str) (now ttl : ℕ) (code : Str) (p : PairingCode)
    (codes : Dict PairingCode)
    → lookup code codes ≡ some p
    → lookup code (generate_loop left i random now ttl codes).1 ≡ some p
unfolding generate_loop
generate_loop-lookup zero i random now ttl code p codes here = here
generate_loop-lookup (suc left) i random now ttl code p codes here =
    attempt-lookup (random i) now ttl code p codes (generate_loop left (suc i) random now ttl codes)
      here (generate_loop-lookup left (suc i) random now ttl code p codes here)

-- A claim leaves the other codes.
claim_stored-other :
    (b : Bool) (given code : Str) (o : Option PairingCode) (codes : Dict PairingCode)
    → str_eq given code ≡ false
    → lookup code (claim_stored b given o codes) ≡ lookup code codes
unfolding claim_stored
claim_stored-other true given code (some p) codes apart =
    lookup-insert given code (claim_emit p) codes ∙ rw apart refl
claim_stored-other true given code none codes apart = refl
claim_stored-other false given code o codes apart = refl

-- A claim of a spent code fails, and changes nothing.
pub claim-spent :
    (now : ℕ) (code : Str) (codes : Dict PairingCode)
    → IsSpent code codes
    → claim now code codes ≡ (false, codes)
unfolding claim claim_validate can_claim claim_stored
claim-spent now code codes (p, here, spent) = rw (here, spent) refl

-- A claim that succeeds spends the code.
pub claim-IsSpent :
    (now : ℕ) (code : Str) (codes : Dict PairingCode)
    → (claim now code codes).0 ≡ true
    → IsSpent code (claim now code codes).1
unfolding claim claim_validate
claim-IsSpent now code codes h = elim (Option-cases (lookup code codes)) [
  | inl n ↦ cc (h, ap (claim_validate now) n)
  | inr (p, e) ↦ (
    claim_emit p,
    ap (λ b. lookup code (claim_stored b code (lookup code codes) codes)) h
        ∙ ap (λ o. lookup code (claim_stored true code o codes)) e
        ∙ stored p,
    unfold claim_emit is_pending in refl,
  )
]
  where
    stored :
        (p : PairingCode)
        → lookup code (claim_stored true code (some p) codes) ≡ some (claim_emit p)
    stored p =
        unfold claim_stored in
        lookup-insert code code (claim_emit p) codes ∙ rw ((str_eq_iff code code).1 refl) refl

-- A claim of any code keeps a spent code spent.
pub claim-kept :
    (now : ℕ) (given code : Str) (codes : Dict PairingCode)
    → IsSpent code codes
    → IsSpent code (claim now given codes).1
claim-kept now given code codes spent = elim (Bool-cases (str_eq given code)) [
  | inl same ↦
      subst (λ c. IsSpent code (claim now c codes).1) (sym ((str_eq_iff given code).0 same))
        (subst (λ x. IsSpent code x.1) (sym (claim-spent now code codes spent)) spent)
  | inr apart ↦
      let (p, here, used) = spent in
      (
        p,
        unfold claim in
            claim_stored-other (claim_validate now (lookup given codes)) given code
              (lookup given codes) codes apart
            ∙ here,
        used,
      )
]
