-- ===== src/Netbridge/Port.antt =====
-- internal/domain/netbridge and internal/engine/netbridge/internal: a port, its commands and the
-- read model of the allocations.
use quiver_core.Prelude.{
  ℕ, ◌==◌, ltb, not, Bool, true, false, Option, none, some, List, [], ◌∷◌, Str, is_empty, str_eq, ℤ,
  pos, negsuc, if◌then◌else◌,
}

-- A string type; `other` is any string that is none of its constants.
pub data Protocol : Type 0 where
  tcp udp tcp_udp : Protocol
  other : Str → Protocol

unfoldable pub protocol_is_valid : Protocol → Bool
protocol_is_valid (other s) = false
protocol_is_valid _ = true

abbrev pub max_port : ℕ
max_port = 65535

pub record PortDef : Type 0 where
  pub name : Str
  pub protocol : Protocol
  pub default : ℤ
  pub required : Bool

-- A port that is set and outside 1 to 65535.
unfoldable pub out_of_range : ℤ → Bool
out_of_range (pos n) = ltb max_port n
out_of_range (negsuc n) = true

pub data PortDefErr : Type 0 where
  empty_name : PortDefErr
  default_out_of_range : ℤ → PortDefErr
  invalid_protocol : Protocol → PortDefErr

unfoldable pub validate_def : PortDef → Option PortDefErr
unfolding out_of_range protocol_is_valid
validate_def p =
    if is_empty p.name
    then some empty_name
    else if out_of_range p.default
    then some (default_out_of_range p.default)
    else if not (protocol_is_valid p.protocol)
    then some (invalid_protocol p.protocol)
    else none

pub record PortAllocation : Type 0 where
  pub port : ℕ
  pub protocol : Protocol
  pub owner_key : Str
  pub forwarded : Bool

abbrev pub no_allocation : PortAllocation
no_allocation = record { port = 0; protocol = other []; owner_key = []; forwarded = false }

unfoldable pub is_live : Option PortAllocation → Bool
is_live none = false
is_live (some a) = not (a.port == 0)

-- `Validate` of `AllocatePort`: whether it returns nil.
unfoldable pub allocate_validate : Option PortAllocation → Bool
unfolding is_live
allocate_validate current = not (is_live current)

unfoldable pub allocate_emit : ℕ → Protocol → Str → Bool → PortAllocation
allocate_emit port protocol owner forwarded = record {
  port = port;
  protocol = protocol;
  owner_key = owner;
  forwarded = forwarded;
}

-- `Validate` of `DeallocatePort`: whether it returns nil.
unfoldable pub deallocate_validate : Option PortAllocation → Bool
deallocate_validate none = false
deallocate_validate (some a) = true

unfoldable pub deallocate_emit : PortAllocation
deallocate_emit = no_allocation

-- The read model, a map from the ports to the allocations.
unfoldable pub save : PortAllocation → List PortAllocation → List PortAllocation
save a [] = a ∷ []
save a (b ∷ rest) = if b.port == a.port then a ∷ rest else b ∷ save a rest

unfoldable pub delete : ℕ → List PortAllocation → List PortAllocation
delete port [] = []
delete port (b ∷ rest) = if b.port == port then rest else b ∷ delete port rest

unfoldable pub find_by_port : ℕ → List PortAllocation → Option PortAllocation
find_by_port port [] = none
find_by_port port (b ∷ rest) = if b.port == port then some b else find_by_port port rest

unfoldable pub find_by_owner : Str → List PortAllocation → List PortAllocation
find_by_owner owner [] = []
find_by_owner owner (b ∷ rest) =
    if str_eq b.owner_key owner then b ∷ find_by_owner owner rest else find_by_owner owner rest
