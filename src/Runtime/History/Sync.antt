-- ===== src/Runtime/History/Sync.antt =====
-- A pending dependency sync is kept until something consumes it.
use quiver_core.Prelude.{Bool, true, false, none, some, ◌≡◌, arith, ◌⊎◌, is_empty, subst}
use quiver_core.Domain.ArrowState.{outdated, state_eq, can_transition_to}
use quiver_core.Domain.Execution.{Namespace, DepSyncInfo, ArrowRuntime}
use quiver_core.Runtime.Commands
use quiver_core.Runtime.Commands.Shared.{require_current_execution}
use quiver_core.Runtime.Command.{Command, validate, emit}
use quiver_core.Runtime.History.{Accepts, accept, Reachable}
use quiver_core.Runtime.History.Invariant.{IsValid, SyncIsOutdated}
use quiver_core.Runtime.History.Invariant.Kept.{Reachable-IsValid}
use quiver_core.Runtime.History.Lifecycle.{IsAdmitted, startable-state}

-- The commands that consume a pending sync, or put another in its place.
abbrev pub consumes_sync : Command → Bool
consumes_sync (Command.mark_outdated sync) = true
consumes_sync (Command.begin_update c) = true
consumes_sync (Command.begin_uninstall c) = true
consumes_sync _ = false

module _ {ns : Namespace} {r : ArrowRuntime} {sync : DepSyncInfo} (v : IsValid ns r)
    (named : is_empty ns ≡ false) (pending : r.pending_dep_sync ≡ some sync) where
  is_outdated : r.state ≡ outdated
  is_outdated = subst (SyncIsOutdated r.state) pending v.syncing

  emit-sync :
      (c : Command) {next : ArrowRuntime}
      → IsAdmitted c
      → validate c (some r) ≡ none
      → emit ns c (some r) ≡ some next
      → (consumes_sync c ≡ true) ⊎ (next.pending_dep_sync ≡ some sync)
  unfolding validate emit
  emit-sync (Command.begin_execution method states c) a h e =
      unfold Commands.BeginExecution.validate in
      ground (arith, is_outdated, startable-state states r a)
  emit-sync c a h e =
      unfold Commands.AdvanceStep.validate Commands.RecordPid.validate Commands.SetSurface.validate
        Commands.ClearSurface.validate Commands.RestartExecution.validate
        Commands.EndExecution.validate require_current_execution Commands.BeginInstall.validate
        Commands.BeginStop.validate Commands.MarkVersionOutdated.validate
        Commands.MarkVersionOutdated.emit Commands.ClearVersionOutdated.validate
        Commands.RecordDetached.validate can_transition_to Commands.RecordPreinstalled.validate
        Commands.RecoverInterrupted.validate state_eq in
      ground (arith, is_outdated)

-- Until an update or an uninstall consumes it, or a newer one replaces it, a pending dependency
-- sync outlives every accepted command whose method the rules on manifests admit: no run starts
-- over it and no version check clears it.
pub Accepts-sync :
    {ns : Namespace} {r next : ArrowRuntime} {c : Command} {sync : DepSyncInfo}
    → is_empty ns ≡ false
    → Reachable ns r
    → IsAdmitted c
    → r.pending_dep_sync ≡ some sync
    → Accepts ns (some r) c next
    → (consumes_sync c ≡ true) ⊎ (next.pending_dep_sync ≡ some sync)
Accepts-sync {ns} {c = c} named reach a pending (accept h e) =
    emit-sync (Reachable-IsValid ns named reach) named pending c a h e
