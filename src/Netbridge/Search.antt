-- ===== src/Netbridge/Search.antt =====
-- internal/engine/netbridge/allocation.go: the search for a port that is free.
pub mod First
use quiver_core.Prelude.{
  ℕ, zero, suc, ◌+◌, ◌-◌, ltb, ◌==◌, Bool, true, false, ◌&&◌, Option, none, some, List, Str, ℤ, pos,
  negsuc, if◌then◌else◌,
}
use quiver_core.Netbridge.Port.{
  Protocol, tcp, udp, tcp_udp, other, PortAllocation, find_by_port, out_of_range,
}

pub data Err : Type 0 where
  no_port_available : Err
  port_out_of_range : ℤ → Err
  -- An error of the read model, the event store or a command.
  outside : Str → Err

pub data Result (A : Type 0) : Type 0 where
  ok : A → Result A
  failed : Err → Result A

-- What the machine and the read model answer during one search: whether a listener opens, and the
-- error of a lookup.
pub record Answers : Type 0 where
  pub listen_tcp : ℕ → Bool
  pub listen_udp : ℕ → Bool
  pub lookup_error : ℕ → Option Str

unfoldable pub os_bind_test : Answers → ℕ → Protocol → Bool
os_bind_test answers port tcp = answers.listen_tcp port
os_bind_test answers port udp = answers.listen_udp port
os_bind_test answers port tcp_udp = answers.listen_tcp port && answers.listen_udp port
os_bind_test answers port (other s) = true

-- The end of `isPortAvailable`, after the lookup.
unfoldable pub bind_unless_found : Option PortAllocation → Bool → Bool
bind_unless_found none free = free
bind_unless_found (some a) free = false

-- What a test decides, and what follows it.
unfoldable pub or_next : ℕ → Result Bool → Result ℕ → Result ℕ
or_next port (failed e) rest = failed e
or_next port (ok true) rest = ok port
or_next port (ok false) rest = rest

module _ (answers : Answers) (protocol : Protocol) (read_model : List PortAllocation) where
  unfoldable pub is_port_available : ℕ → Result Bool
  unfolding os_bind_test bind_unless_found
  is_port_available port = elim (answers.lookup_error port) [
    | some e ↦ failed (outside e)
    | none ↦
        ok (bind_unless_found (find_by_port port read_model) (os_bind_test answers port protocol))
  ]

  -- The loop over the candidates, with the rounds that are left.
  unfoldable pub scan : ℕ → ℕ → Result ℕ
  unfolding or_next
  scan zero candidate = failed no_port_available
  scan (suc rounds) candidate =
      or_next candidate (is_port_available candidate) (scan rounds (suc candidate))

  unfoldable pub try_preferred : ℤ → Result ℕ → Result ℕ
  unfolding or_next
  try_preferred (pos n) rest = if n == 0 then rest else or_next n (is_port_available n) rest
  try_preferred (negsuc n) rest = rest

  -- The loop runs while `candidate <= portEnd`.
  unfoldable pub find_available_port : ℤ → ℕ → ℕ → Result ℕ
  unfolding scan try_preferred out_of_range
  find_available_port preferred port_start port_end =
      if out_of_range preferred
      then failed (port_out_of_range preferred)
      else try_preferred preferred (scan (port_end + 1 - port_start) port_start)
