-- ===== src/Netbridge/Examples.antt =====
-- A service at work, and the theorems at it.
use quiver_core.Prelude.{
  ℕ, ◌+◌, ◌≤◌, ◌==◌, ltb, true, false, none, some, [], ◌∷◌, Str, str_eq, pos, if◌then◌else◌, ◌≡◌,
  ◌⊎◌, refl, Occurs,
}
use quiver_core.Netbridge.Port.{
  tcp, PortAllocation, out_of_range, find_by_port, find_by_owner, is_live, allocate_validate,
  allocate_emit, save, delete, deallocate_validate, deallocate_emit,
}
use quiver_core.Netbridge.Search.{
  no_port_available, ok, failed, Answers, is_port_available, os_bind_test, bind_unless_found,
  or_next, scan, try_preferred, find_available_port,
}
use quiver_core.Netbridge.Search.First.{
  IsFree, PreferredTaken, AllTaken, find_available_port-AllTaken, find_available_port_none,
}
use quiver_core.Netbridge.Service.{
  Service, World, allocate, allocate_loop, attempt, after_adoption, adopt, adopt_if_claimed,
  send_allocate, store_allocated, store_event, forward, project_saved, project_deleted,
  deallocate_by_owner, release_all, and_then, send_deallocate, store_released,
}
use quiver_core.Netbridge.Service.Fresh.{IsFresh, IsFreePort, allocate-IsFresh}
use quiver_core.Netbridge.Service.Released.{IsNotOwned, deallocate_by_owner-IsFreePort}

-- Only the ports from 52 on can be bound.
abbrev quiet : Answers
quiet = record { listen_tcp = λ p. ltb 51 p; listen_udp = λ p. true; lookup_error = λ p. none }

abbrev game : Str
game = 7 ∷ []

-- An allocation of port 52 that the read model does not know of.
abbrev stale : PortAllocation
stale = record { port = 52; protocol = tcp; owner_key = game; forwarded = false }

found_52 : find_available_port quiet tcp [] (pos 51) 50 60 ≡ ok 52
unfolding find_available_port try_preferred out_of_range scan or_next is_port_available os_bind_test
    bind_unless_found find_by_port
found_52 = refl

find_available_port-AllTaken_example :
    IsFree quiet tcp [] 52
    × ((pos 51 ≡ pos 52)
        ⊎ (PreferredTaken quiet tcp [] (pos 51)
            × (50 ≤ 52)
            × (52 ≤ 60)
            × AllTaken quiet tcp [] 50 52))
find_available_port-AllTaken_example =
    find_available_port-AllTaken quiet tcp [] (pos 51) 50 60 found_52

none_below : find_available_port quiet tcp [] (pos 51) 48 50 ≡ failed no_port_available
unfolding find_available_port try_preferred out_of_range scan or_next is_port_available os_bind_test
    bind_unless_found find_by_port
none_below = refl

find_available_port_none_example :
    PreferredTaken quiet tcp [] (pos 51) × AllTaken quiet tcp [] 48 (50 + 1)
find_available_port_none_example = find_available_port_none quiet tcp [] (pos 51) 48 50 none_below

abbrev calm : World
calm = record {
  answers = quiet;
  get_fails = λ p. false;
  save_fails = false;
  forwards = (λ p protocol. true) ∷ [];
  send_error = λ p. none;
}

abbrev behind : Service
behind = record {
  events = λ p. if p == 52 then some stale else none;
  read_model = [];
  port_start = 50;
  port_end = 60;
}

-- The stale allocation is adopted, and the next port is given.
adopted_first : (allocate game tcp (pos 0) (λ rounds. calm) behind).1 ≡ ok 53
unfolding allocate allocate_loop attempt after_adoption adopt_if_claimed adopt send_allocate
    store_allocated store_event forward project_saved allocate_validate allocate_emit is_live save
    find_available_port try_preferred out_of_range scan or_next is_port_available os_bind_test
    bind_unless_found find_by_port
adopted_first = refl

allocate-IsFresh_example :
    IsFresh game tcp behind (allocate game tcp (pos 0) (λ rounds. calm) behind).0 53
allocate-IsFresh_example =
    allocate-IsFresh game tcp (pos 0) (λ rounds. calm) behind 53 adopted_first

abbrev held : Service
held = record {
  events = λ p. if p == 52 then some stale else none;
  read_model = stale ∷ [];
  port_start = 50;
  port_end = 60;
}

released : (deallocate_by_owner none calm game held).1 ≡ none
unfolding deallocate_by_owner release_all and_then send_deallocate store_released store_event
    project_deleted deallocate_validate deallocate_emit find_by_owner str_eq delete
released = refl

deallocate_by_owner-IsFreePort_example :
    ((a : PortAllocation)
      → Occurs a held.read_model
      → a.owner_key ≡ game
      → IsFreePort ((deallocate_by_owner none calm game held).0.events a.port))
    × ((q : ℕ)
        → IsNotOwned game held.read_model q
        → (deallocate_by_owner none calm game held).0.events q ≡ held.events q)
deallocate_by_owner-IsFreePort_example = deallocate_by_owner-IsFreePort none calm game held released
