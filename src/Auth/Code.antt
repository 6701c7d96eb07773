-- ===== src/Auth/Code.antt =====
-- internal/domain/auth/pairing_code.go and internal/app/repositories/pairingcode: one-time codes.
use quiver_core.Prelude.{
  ℕ, zero, suc, ◌+◌, ltb, Bool, true, false, ◌&&◌, not, Option, none, some, is_some, Str, Dict,
  lookup, insert,
}

pub data PairingCodeState : Type 0 where
  pending claimed : PairingCodeState

-- Times are counted from a fixed start.
pub record PairingCode : Type 0 where
  pub code : Str
  pub state : PairingCodeState
  pub created_at : ℕ
  pub expires_at : ℕ

unfoldable pub is_pending : PairingCodeState → Bool
is_pending pending = true
is_pending claimed = false

unfoldable pub can_claim : PairingCode → ℕ → Bool
unfolding is_pending
can_claim p now = is_pending p.state && ltb now p.expires_at

-- `Validate` and `EmitEvent` of the two commands; true is no error.
unfoldable pub generate_validate : Option PairingCode → Bool
generate_validate current = not (is_some current)

unfoldable pub generate_emit : Str → ℕ → ℕ → PairingCode
generate_emit code created_at expires_at = record {
  code = code;
  state = pending;
  created_at = created_at;
  expires_at = expires_at;
}

unfoldable pub claim_validate : ℕ → Option PairingCode → Bool
unfolding can_claim
claim_validate now none = false
claim_validate now (some p) = can_claim p now

unfoldable pub claim_emit : PairingCode → PairingCode
claim_emit p = record p { state = claimed }

abbrev pub max_generate_attempts : ℕ
max_generate_attempts = 5

-- What `Generate` returns: an error of the source of codes, that all attempts were taken, or a code.
pub data Generated : Type 0 where
  no_random exhausted : Generated
  generated : PairingCode → Generated

-- An attempt that is stored, or the next one. The event store (asynx) stores what validates.
unfoldable pub stored_or :
    Bool
    → PairingCode
    → Dict PairingCode
    → Generated × Dict PairingCode
    → Generated × Dict PairingCode
unfolding insert
stored_or true p codes next = (generated p, insert p.code p codes)
stored_or false p codes next = next

unfoldable pub attempt :
    Option Str
    → ℕ
    → ℕ
    → Dict PairingCode
    → Generated × Dict PairingCode
    → Generated × Dict PairingCode
unfolding stored_or generate_validate generate_emit lookup
attempt none now ttl codes next = (no_random, codes)
attempt (some code) now ttl codes next =
    stored_or (generate_validate (lookup code codes)) (generate_emit code now (now + ttl)) codes
      next

-- The loop, with the attempts that are left; `random` is the source of codes, by its attempt.
unfoldable pub generate_loop :
    ℕ → ℕ → (ℕ → Option Str) → ℕ → ℕ → Dict PairingCode → Generated × Dict PairingCode
unfolding attempt
generate_loop zero i random now ttl codes = (exhausted, codes)
generate_loop (suc left) i random now ttl codes =
    attempt (random i) now ttl codes (generate_loop left (suc i) random now ttl codes)

unfoldable pub generate : (ℕ → Option Str) → ℕ → ℕ → Dict PairingCode → Generated × Dict PairingCode
unfolding generate_loop
generate random now ttl codes = generate_loop max_generate_attempts 0 random now ttl codes

unfoldable pub claim_stored : Bool → Str → Option PairingCode → Dict PairingCode → Dict PairingCode
unfolding insert claim_emit
claim_stored true code (some p) codes = insert code (claim_emit p) codes
claim_stored _ code current codes = codes

-- `Claim`: whether it succeeds, and what is stored.
unfoldable pub claim : ℕ → Str → Dict PairingCode → Bool × Dict PairingCode
unfolding claim_validate lookup claim_stored
claim now code codes =
    let current = lookup code codes in
    let valid = claim_validate now current in (valid, claim_stored valid code current codes)
