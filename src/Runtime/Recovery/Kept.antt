-- ===== src/Runtime/Recovery/Kept.antt =====
-- internal/app/repositories/runtime/internal/recovery.go: aggregates that no run is recorded for.
use quiver_core.Prelude.{
  contains, Bool, true, false, Option, none, some, List, is_empty, Dict, lookup, if◌then◌else◌, ◌≡◌,
  refl, ap, ◌∙◌,
}
use quiver_core.Domain.ArrowState.{
  ArrowState, absent, installing, updating, ready, running, stopping, draining, detached,
  uninstalling, removed, outdated, unknown,
}
use quiver_core.Domain.Execution.{Namespace, ArrowRuntime}
use quiver_core.Runtime.Commands.RecoverInterrupted.{is_transient}
use quiver_core.Runtime.Recovery.{
  World, collect_recovery_namespaces, recover_state, recover, recover_transients,
}
use quiver_core.Runtime.Recovery.Rounds.{put_or, settled_by, lookup-recover_transients}

recover_state_at_rest :
    (w : World) (ns : Namespace) (rt : ArrowRuntime) (s : ArrowState)
    → is_transient s ≡ false
    → recover_state w ns rt s ≡ none
unfolding recover_state is_transient
recover_state_at_rest w ns rt running h = cc
recover_state_at_rest w ns rt installing h = cc
recover_state_at_rest w ns rt uninstalling h = cc
recover_state_at_rest w ns rt updating h = cc
recover_state_at_rest w ns rt stopping h = cc
recover_state_at_rest w ns rt draining h = cc
recover_state_at_rest w ns rt absent h = refl
recover_state_at_rest w ns rt ready h = refl
recover_state_at_rest w ns rt detached h = refl
recover_state_at_rest w ns rt removed h = refl
recover_state_at_rest w ns rt outdated h = refl
recover_state_at_rest w ns rt (unknown s) h = refl

recover_at_rest :
    (w : World) (ns : Namespace) (rt : ArrowRuntime)
    → is_transient rt.state ≡ false
    → recover w ns (some rt) ≡ none
unfolding recover
recover_at_rest w ns rt h =
    go (w.preload_fails ns) (w.get_fails ns) (is_empty rt.ref)
      (recover_state_at_rest w ns rt rt.state h)
  where
    go :
        (p g e : Bool) {o : Option ArrowRuntime}
        → o ≡ none
        → (if p then none else if g then none else if e then none else o) ≡ none
    go true g e k = refl
    go false true e k = refl
    go false false true k = refl
    go false false false k = k

-- A recovery leaves an aggregate that is in none of the states of a run as it was, whatever fails.
pub recover_transients-kept :
    (w : World) (arrows : Option (List (List Namespace))) (aggregates : Option (List Namespace))
    (runtimes : Dict ArrowRuntime) (ns : Namespace) (rt : ArrowRuntime)
    → lookup ns runtimes ≡ some rt
    → is_transient rt.state ≡ false
    → lookup ns (recover_transients w arrows aggregates runtimes).runtimes ≡ some rt
recover_transients-kept w arrows aggregates runtimes ns rt here h =
    lookup-recover_transients w arrows aggregates runtimes ns
    ∙ go (contains (collect_recovery_namespaces arrows aggregates) ns)
  where
    unchanged : settled_by w ns (some rt) ≡ some rt
    unchanged = ap (λ o. put_or o (some rt)) (recover_at_rest w ns rt h)

    go :
        (b : Bool)
        → (if b then settled_by w ns (lookup ns runtimes) else lookup ns runtimes) ≡ some rt
    go true = ap (settled_by w ns) here ∙ unchanged
    go false = here
