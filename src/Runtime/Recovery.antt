-- ===== src/Runtime/Recovery.antt =====
-- internal/app/repositories/runtime/internal/recovery.go: what a start of the daemon does with the runs that
-- the last one left.
pub mod Collected
pub mod Rounds
pub mod Settled
pub mod Kept
mod Examples
use quiver_core.Prelude.{
  contains, Bool, true, false, ◌&&◌, not, Option, none, some, is_some, List, [], ◌∷◌, ◌++◌, Str,
  str_eq, is_empty, Dict, lookup, insert, ℤ, pos, lt_int, if◌then◌else◌,
}
use quiver_core.Domain.ArrowState.{
  ArrowState, absent, installing, updating, ready, running, stopping, draining, detached,
  uninstalling, removed, outdated, unknown,
}
use quiver_core.Domain.Execution.{Namespace, Execution, ArrowRuntime}
use quiver_core.Runtime.Command.{Command, validate, emit, recover_interrupted, record_detached}
use quiver_core.Runtime.Commands.Shared.{Err}

-- What the recovery asks of others: whether the event store (asynx) fails to load, get or send for an
-- aggregate, whether a process is alive, and whether there is a callback that closes surfaces.
pub record World : Type 0 where
  pub preload_fails : Namespace → Bool
  pub get_fails : Namespace → Bool
  pub send_fails : Namespace → Bool
  pub process_alive : ℤ → Bool
  pub closes_surfaces : Bool

-- The aggregates, and the namespaces whose surfaces were closed.
pub record Recovered : Type 0 where
  pub runtimes : Dict ArrowRuntime
  pub closed : List Namespace

-- `add`
unfoldable pub add : List Namespace → Namespace → List Namespace
unfolding contains
add out ns = if contains out ns then out else out ++ (ns ∷ [])

unfoldable pub add_all : List Namespace → List Namespace → List Namespace
unfolding add
add_all out [] = out
add_all out (ns ∷ more) = add_all (add out ns) more

unfoldable pub add_versions : List Namespace → List (List Namespace) → List Namespace
unfolding add_all
add_versions out [] = out
add_versions out (versions ∷ views) = add_versions (add_all out versions) views

unfoldable pub listed_or : Option (List Namespace) → List Namespace
listed_or none = []
listed_or (some aggregates) = aggregates

unfoldable pub views_or : Option (List (List Namespace)) → List (List Namespace)
views_or none = []
views_or (some views) = views

-- `collectRecoveryNamespaces`, of the versions of each arrow and of the aggregates; none is the error of
-- a source.
unfoldable pub collect_recovery_namespaces :
    Option (List (List Namespace)) → Option (List Namespace) → List Namespace
unfolding add_versions add_all views_or listed_or
collect_recovery_namespaces arrows aggregates =
    add_all (add_versions [] (views_or arrows)) (listed_or aggregates)

-- What a command that validates emits.
unfoldable pub emitted : Option Err → Option ArrowRuntime → Option ArrowRuntime
emitted none next = next
emitted (some e) next = none

-- `SendWait`: what is stored, if anything.
unfoldable pub send : World → Namespace → Command → ArrowRuntime → Option ArrowRuntime
unfolding emitted
send w ns c rt =
    if w.send_fails ns then none else emitted (validate c (some rt)) (emit ns c (some rt))

unfoldable pub current_pid : Option Execution → ℤ
current_pid none = pos 0
current_pid (some x) = x.pid

unfoldable pub has_live_process : World → ArrowRuntime → Bool
unfolding current_pid
has_live_process w rt =
    let pid = current_pid rt.execution in lt_int (pos 0) pid && w.process_alive pid

unfoldable pub recover_running : World → Namespace → ArrowRuntime → Option ArrowRuntime
unfolding has_live_process send
recover_running w ns rt =
    if has_live_process w rt then send w ns record_detached rt else send w ns recover_interrupted rt

unfoldable pub recover_state : World → Namespace → ArrowRuntime → ArrowState → Option ArrowRuntime
unfolding recover_running send
recover_state w ns rt running = recover_running w ns rt
recover_state w ns rt installing = send w ns recover_interrupted rt
recover_state w ns rt uninstalling = send w ns recover_interrupted rt
recover_state w ns rt updating = send w ns recover_interrupted rt
recover_state w ns rt stopping = send w ns recover_interrupted rt
recover_state w ns rt draining = send w ns recover_interrupted rt
recover_state w ns rt _ = none

-- One round of the loop: what it stores for an aggregate.
unfoldable pub recover : World → Namespace → Option ArrowRuntime → Option ArrowRuntime
unfolding recover_state
recover w ns none = none
recover w ns (some rt) =
    if w.preload_fails ns
    then none
    else if w.get_fails ns
    then none
    else if is_empty rt.ref
    then none
    else recover_state w ns rt rt.state

unfoldable pub has_surface : Option Execution → Bool
has_surface none = false
has_surface (some x) = is_some x.surface

unfoldable pub is_running : ArrowState → Bool
is_running running = true
is_running _ = false

unfoldable pub closes : World → Namespace → Option ArrowRuntime → Bool
unfolding has_live_process has_surface is_running
closes w ns none = false
closes w ns (some rt) =
    if w.preload_fails ns
    then false
    else if w.get_fails ns
    then false
    else if is_empty rt.ref
    then false
    else (is_running rt.state && not (has_live_process w rt))
      && (w.closes_surfaces && has_surface rt.execution)

unfoldable pub put_runtime : Namespace → Option ArrowRuntime → Dict ArrowRuntime → Dict ArrowRuntime
unfolding insert
put_runtime ns none runtimes = runtimes
put_runtime ns (some rt) runtimes = insert ns rt runtimes

unfoldable pub recover_one : World → Recovered → Namespace → Recovered
unfolding recover closes put_runtime lookup
recover_one w s ns =
    let current = lookup ns s.runtimes in
    record {
      runtimes = put_runtime ns (recover w ns current) s.runtimes;
      closed = if closes w ns current then s.closed ++ (ns ∷ []) else s.closed;
    }

unfoldable pub recover_all : World → Recovered → List Namespace → Recovered
unfolding recover_one
recover_all w s [] = s
recover_all w s (ns ∷ rest) = recover_all w (recover_one w s ns) rest

unfoldable pub recover_transients :
    World → Option (List (List Namespace)) → Option (List Namespace) → Dict ArrowRuntime → Recovered
unfolding collect_recovery_namespaces recover_all
recover_transients w arrows aggregates runtimes =
    recover_all w (record { runtimes = runtimes; closed = [] })
      (collect_recovery_namespaces arrows aggregates)
