-- ===== src/Auth/Device.antt =====
-- internal/domain/auth/device.go and internal/app/repositories/device: the devices that have paired.
use quiver_core.Prelude.{
  ℕ, Bool, true, false, Option, none, some, Str, str_eq, Dict, lookup, insert, ◌∷◌, [],
  if◌then◌else◌,
}

pub data DeviceState : Type 0 where
  active revoked : DeviceState

pub record Device : Type 0 where
  pub id : Str
  pub label : Str
  pub token_hash : Str
  pub state : DeviceState
  pub paired_at : ℕ
  pub last_seen_at : ℕ

unfoldable pub is_active : Device → Bool
is_active d = elim d.state [ active ↦ true | revoked ↦ false ]

-- `Validate` of `Touch` and of `Revoke`; true is no error.
unfoldable pub active_validate : Option Device → Bool
unfolding is_active
active_validate none = false
active_validate (some d) = is_active d

unfoldable pub pair_emit : Str → Str → Str → ℕ → Device
pair_emit id label token_hash now = record {
  id = id;
  label = label;
  token_hash = token_hash;
  state = active;
  paired_at = now;
  last_seen_at = now;
}

unfoldable pub touch_emit : ℕ → Device → Device
touch_emit now d = record d { last_seen_at = now }

unfoldable pub revoke_emit : Device → Device
revoke_emit d = record d { state = revoked }

-- The device repository: what each command stores, and whether it succeeds.
unfoldable pub pair : Str → Str → Str → ℕ → Dict Device → Dict Device
unfolding insert pair_emit
pair id label token_hash now devices = insert id (pair_emit id label token_hash now) devices

unfoldable pub put_valid :
    Bool → Str → (Device → Device) → Option Device → Dict Device → Dict Device
unfolding insert
put_valid true id emit (some d) devices = insert id (emit d) devices
put_valid _ id emit current devices = devices

unfoldable pub touch : ℕ → Str → Dict Device → Bool × Dict Device
unfolding active_validate put_valid lookup touch_emit
touch now id devices =
    let current = lookup id devices in
    (
      active_validate current,
      put_valid (active_validate current) id (touch_emit now) current devices,
    )

unfoldable pub revoke : Str → Dict Device → Bool × Dict Device
unfolding active_validate put_valid lookup revoke_emit
revoke id devices =
    let current = lookup id devices in
    (active_validate current, put_valid (active_validate current) id revoke_emit current devices)

-- `GetByTokenHash`: the read model has the devices, and a hash stands in one row.
unfoldable pub get_by_token_hash : Str → Dict Device → Option Device
get_by_token_hash hash [] = none
get_by_token_hash hash ((id, d) ∷ devices) =
    let rest = get_by_token_hash hash devices in if str_eq d.token_hash hash then some d else rest

unfoldable pub if_active : Option Device → Option Device
unfolding is_active
if_active none = none
if_active (some d) = if is_active d then some d else none

-- `Authenticate` of the repository.
unfoldable pub authenticate : Str → Dict Device → Option Device
unfolding if_active get_by_token_hash
authenticate hash devices = if_active (get_by_token_hash hash devices)
