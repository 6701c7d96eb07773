-- ===== src/Netbridge/Service.antt =====
-- internal/engine/netbridge/netbridge.go: the service that allocates ports and releases them.
pub mod Fresh
pub mod Released
use quiver_core.Prelude.{
  ℕ, zero, suc, ◌==◌, not, Bool, true, false, ◌||◌, Option, none, some, List, [], ◌∷◌, Str, codes,
  ℤ, if◌then◌else◌,
}
use quiver_core.Netbridge.Port.{
  Protocol, PortAllocation, is_live, allocate_validate, allocate_emit, deallocate_validate,
  deallocate_emit, save, delete, find_by_owner,
}
use quiver_core.Netbridge.Search.{
  Err, no_port_available, outside, Result, ok, failed, Answers, find_available_port,
}

-- `events` is what the event store gives for the aggregate of each port. The mutex of the service
-- makes each of its methods one step.
pub record Service : Type 0 where
  pub events : ℕ → Option PortAllocation
  pub read_model : List PortAllocation
  pub port_start : ℕ
  pub port_end : ℕ

-- What the outside answers during one attempt: the search's answers, whether the event store can be
-- read, whether the read model takes a record, the strategies' `Forward`, and the event store's own
-- error when a command is sent.
pub record World : Type 0 where
  pub answers : Answers
  pub get_fails : ℕ → Bool
  pub save_fails : Bool
  pub forwards : List (ℕ → Protocol → Bool)
  pub send_error : ℕ → Option Str

unfoldable pub store_event :
    (ℕ → Option PortAllocation) → ℕ → PortAllocation → ℕ → Option PortAllocation
store_event events port a q = if q == port then some a else events q

-- The loop over the strategies: whether one of them forwarded the port.
unfoldable pub forward : List (ℕ → Protocol → Bool) → ℕ → Protocol → Bool
forward [] port protocol = false
forward (f ∷ rest) port protocol = if f port protocol then true else forward rest port protocol

-- `HandlePortEvent`, which ignores an error of the read model.
unfoldable pub project_saved : World → PortAllocation → List PortAllocation → List PortAllocation
project_saved w a read_model = if w.save_fails then read_model else save a read_model

unfoldable pub project_deleted :
    World → Option PortAllocation → List PortAllocation → List PortAllocation
project_deleted w none read_model = read_model
project_deleted w (some a) read_model =
    if w.save_fails then read_model else delete a.port read_model

-- What the event store does with a command that validates: it stores the event that the command
-- emits, unless it fails itself.
unfoldable pub store_allocated :
    World → Service → ℕ → PortAllocation → Option Str → Service × Result ℕ
unfolding store_event project_saved
store_allocated w n port a (some e) = (n, failed (outside e))
store_allocated w n port a none = (
  record n { events = store_event n.events port a; read_model = project_saved w a n.read_model },
  ok port,
)

-- `n.ax.Send` of an `AllocatePort`, and what follows it in `Allocate`.
unfoldable pub send_allocate : World → Service → ℕ → PortAllocation → Service × Result ℕ
unfolding allocate_validate store_allocated
send_allocate w n port a =
    if allocate_validate (n.events port)
    then store_allocated w n port a (w.send_error port)
    else (n, failed (outside (codes "validation")))

-- `n.readModel.Save(ctx, current)` in `adoptIfClaimed`.
unfoldable pub adopt : Bool → Service → Option PortAllocation → Option Service
adopt save_fails n none = none
adopt save_fails n (some current) =
    if save_fails then none else some (record n { read_model = save current n.read_model })

-- `adoptIfClaimed`: the service with the allocation adopted, if there is one to adopt.
unfoldable pub adopt_if_claimed : World → Service → ℕ → Option Service
unfolding is_live adopt
adopt_if_claimed w n port =
    if w.get_fails port || not (is_live (n.events port))
    then none
    else adopt w.save_fails n (n.events port)

abbrev pub max_allocate_attempts : ℕ
max_allocate_attempts = 64

module _ (owner : Str) (protocol : Protocol) where
  -- The rest of a round, after `adoptIfClaimed`; `again` is the rounds that are left.
  unfoldable pub after_adoption :
      World → Service → ℕ → (Service → Service × Result ℕ) → Option Service → Service × Result ℕ
  unfolding send_allocate forward allocate_emit
  after_adoption w n port again (some n') = again n'
  after_adoption w n port again none =
      send_allocate w n port (allocate_emit port protocol owner (forward w.forwards port protocol))

  -- One round of the loop of `Allocate`, after the search.
  unfoldable pub attempt :
      World → Service → Result ℕ → (Service → Service × Result ℕ) → Service × Result ℕ
  unfolding adopt_if_claimed after_adoption
  attempt w n (failed e) again = (n, failed e)
  attempt w n (ok port) again = after_adoption w n port again (adopt_if_claimed w n port)

module _ (owner : Str) (protocol : Protocol) (preferred : ℤ) where
  -- `worlds` gives the outside for each number of rounds that are left.
  unfoldable pub allocate_loop : (ℕ → World) → ℕ → Service → Service × Result ℕ
  unfolding attempt
  allocate_loop worlds zero n = (n, failed no_port_available)
  allocate_loop worlds (suc rounds) n =
      attempt owner protocol (worlds rounds) n
        (find_available_port (worlds rounds).answers protocol n.read_model preferred n.port_start
          n.port_end)
        (allocate_loop worlds rounds)

  unfoldable pub allocate : (ℕ → World) → Service → Service × Result ℕ
  unfolding allocate_loop
  allocate worlds n = allocate_loop worlds max_allocate_attempts n

unfoldable pub store_released : World → Service → ℕ → Option Str → Service × Option Err
unfolding deallocate_emit store_event project_deleted
store_released w n port (some e) = (n, some (outside e))
store_released w n port none = (
  record n {
    events = store_event n.events port deallocate_emit;
    read_model = project_deleted w (n.events port) n.read_model;
  },
  none,
)

-- `n.ax.Send` of a `DeallocatePort`, with its projection.
unfoldable pub send_deallocate : World → Service → ℕ → Service × Option Err
unfolding deallocate_validate store_released
send_deallocate w n port =
    if deallocate_validate (n.events port)
    then store_released w n port (w.send_error port)
    else (n, some (outside (codes "validation")))

-- What one release comes to, and the releases after it.
unfoldable pub and_then :
    Service × Option Err → (Service → Service × Option Err) → Service × Option Err
and_then (n, some e) rest = (n, some e)
and_then (n, none) rest = rest n

-- The loop of `DeallocateByOwner`. The strategies' `Reverse` changes only the router.
unfoldable pub release_all : World → List PortAllocation → Service → Service × Option Err
unfolding send_deallocate and_then
release_all w [] n = (n, none)
release_all w (a ∷ rest) n = and_then (send_deallocate w n a.port) (release_all w rest)

-- `list_error` is the error of the read model when it is listed.
unfoldable pub deallocate_by_owner : Option Err → World → Str → Service → Service × Option Err
unfolding release_all find_by_owner
deallocate_by_owner (some e) w owner n = (n, some e)
deallocate_by_owner none w owner n = release_all w (find_by_owner owner n.read_model) n
