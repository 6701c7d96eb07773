-- ===== src/Runtime/History.antt =====
-- The histories of one runtime aggregate. The event store (asynx, which is not part of the
-- repository) hands a command the current aggregate, or nil where none exists, and stores what
-- `EmitEvent` returns when `Validate` returned nil; that contract is the relation `Accepts`.
pub mod Invariant
pub mod Lifecycle
pub mod Takeover
pub mod Returns
pub mod Sync
pub mod Progress
use quiver_core.Prelude.{Option, none, some, ◌≡◌}
use quiver_core.Domain.Execution.{Namespace, ArrowRuntime}
use quiver_core.Runtime.Command.{Command, validate, emit}

pub data Accepts (ns : Namespace) : Option ArrowRuntime → Command → ArrowRuntime → Type 0 where
  accept :
      {current : Option ArrowRuntime} {c : Command} {next : ArrowRuntime}
      → validate c current ≡ none
      → emit ns c current ≡ some next
      → Accepts ns current c next

-- What commands accepted one after the other can make of the aggregate of `ns`.
pub data Reachable (ns : Namespace) : ArrowRuntime → Type 0 where
  first : {c : Command} {r : ArrowRuntime} → Accepts ns none c r → Reachable ns r
  then :
      {c : Command} {r next : ArrowRuntime}
      → Reachable ns r
      → Accepts ns (some r) c next
      → Reachable ns next
