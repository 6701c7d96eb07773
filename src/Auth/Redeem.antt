-- ===== src/Auth/Redeem.antt =====
-- internal/app/usecases/auth.go: a code is redeemed for a token, and a token stands for a device.
pub mod Spent
pub mod Once
use quiver_core.Prelude.{
  ℕ, suc, Bool, true, false, Option, none, some, List, [], ◌∷◌, Str, str_eq, Dict, if◌then◌else◌,
}
use quiver_core.Auth.Code.{PairingCode, Generated, no_random, exhausted, generated, generate, claim}
use quiver_core.Auth.Device.{Device, pair, touch, revoke, authenticate}

pub record Auth : Type 0 where
  pub codes : Dict PairingCode
  pub devices : Dict Device

unfoldable pub code_of : Generated → Option (Str × ℕ)
code_of no_random = none
code_of exhausted = none
code_of (generated p) = some (p.code, p.expires_at)

-- `GeneratePairingCode`; `random` is the source of codes, by its attempt.
unfoldable pub generate_pairing_code : (ℕ → Option Str) → ℕ → ℕ → Auth → Option (Str × ℕ) × Auth
unfolding generate code_of
generate_pairing_code random now ttl s =
    let (result, codes) = generate random now ttl s.codes in
    (code_of result, record s { codes = codes })

-- `hash_token` is the SHA-256 digest of Go's standard library.
module _ (hash_token : Str → Str) where
  -- What follows a claim: a token that is drawn pairs the device, unless `device.Pair` fails.
  unfoldable pub pair_device : Option Str → Bool → Str → Str → ℕ → Auth → Option Str × Auth
  unfolding pair
  pair_device none pair_fails id label now s = (none, s)
  pair_device (some token) true id label now s = (none, s)
  pair_device (some token) false id label now s =
      (some token, record s { devices = pair id label (hash_token token) now s.devices })

  -- `Redeem`; `token` is the drawn token, or none for an error of its source.
  unfoldable pub redeem : Option Str → Bool → Str → Str → Str → ℕ → Auth → Option Str × Auth
  unfolding claim pair_device
  redeem token pair_fails code id label now s =
      let (claimed_now, codes) = claim now code s.codes in
      let claimed_state = record s { codes = codes } in
      if claimed_now
      then pair_device token pair_fails id label now claimed_state
      else (none, claimed_state)

  -- `Authenticate`; the touch that follows is a call of its own, in the background.
  unfoldable pub authenticate_token : Str → Auth → Option Device
  unfolding authenticate
  authenticate_token token s = authenticate (hash_token token) s.devices

unfoldable pub touch_in_background : Str → ℕ → Auth → Auth
unfolding touch
touch_in_background id now s = record s { devices = (touch now id s.devices).1 }

unfoldable pub revoke_device : Str → Auth → Bool × Auth
unfolding revoke
revoke_device id s = let (ok, devices) = revoke id s.devices in (ok, record s { devices = devices })

-- A call of the use case.
pub data Call : Type 0 where
  to_generate : (random : ℕ → Option Str) (now ttl : ℕ) → Call
  to_redeem : (token : Option Str) (pair_fails : Bool) (code id label : Str) (now : ℕ) → Call
  to_authenticate : (token : Str) → Call
  to_touch : (id : Str) (now : ℕ) → Call
  to_revoke : (id : Str) → Call

unfoldable pub is_some_token : Option Str → Bool
is_some_token none = false
is_some_token (some t) = true

module _ (hash_token : Str → Str) where
  -- The state after a call, and whether it gave out a token for a code.
  unfoldable pub step : Str → Call → Auth → Bool × Auth
  unfolding generate_pairing_code redeem touch_in_background revoke_device is_some_token
  step code (to_generate random now ttl) s = (false, (generate_pairing_code random now ttl s).1)
  step code (to_redeem token pair_fails given id label now) s =
      let (result, next) = redeem hash_token token pair_fails given id label now s in
      (if str_eq given code then is_some_token result else false, next)
  step code (to_authenticate token) s = (false, s)
  step code (to_touch id now) s = (false, touch_in_background id now s)
  step code (to_revoke id) s = (false, (revoke_device id s).1)

  -- How many of some calls give out a token for a code.
  unfoldable pub count_redeemed : Str → List Call → Auth → ℕ
  unfolding step
  count_redeemed code [] s = 0
  count_redeemed code (c ∷ calls) s =
      let (given, next) = step code c s in
      let rest = count_redeemed code calls next in if given then suc rest else rest
