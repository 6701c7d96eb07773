-- ===== src/Runtime/Recovery/Settled.antt =====
-- internal/app/repositories/runtime/internal/recovery.go: the states that a recovery leaves.
use quiver_core.Prelude.{
  contains, Occurs-contains, Occurs, Bool, true, false, Option, none, some, List, is_empty, Dict,
  lookup, if◌then◌else◌, Bool-cases, ◌≡◌, inl, inr, refl, sym, ap, ◌∙◌, zero, suc, ◌&&◌, ℤ, pos,
  negsuc, lt_int, arith,
}
use quiver_core.Domain.ArrowState.{
  ArrowState, absent, installing, updating, ready, running, stopping, draining, detached,
  uninstalling, removed, outdated, unknown, can_transition_to,
}
use quiver_core.Domain.Execution.{Namespace, Execution, ArrowRuntime}
use quiver_core.Runtime.Commands
use quiver_core.Runtime.Command.{validate, emit, recover_interrupted, record_detached}
use quiver_core.Runtime.Commands.RecoverInterrupted.{is_transient, stable_state_for}
use quiver_core.Runtime.History.Invariant.{is_busy}
use quiver_core.Runtime.Recovery.Collected.{Occurs-collect}
use quiver_core.Runtime.Recovery.{
  World, collect_recovery_namespaces, is_running, send, emitted, has_live_process, recover_running,
  current_pid, recover_state, recover, recover_transients,
}
use quiver_core.Runtime.Recovery.Rounds.{put_or, settled_by, lookup-recover_transients}

-- The state to leave an arrow in, by whether its process lives: an interrupted run of `_install`,
-- `_uninstall` or `_update` leaves it absent, any other one ready.
abbrev pub left_in : ArrowState → Bool → ArrowState
left_in running true = detached
left_in running false = ready
left_in installing lives = absent
left_in uninstalling lives = absent
left_in updating lives = absent
left_in stopping lives = ready
left_in draining lives = ready
left_in s lives = s

-- A run is alive when it has a positive process number, of a process that the system has.
abbrev pub pid_lives : World → ℤ → Bool
pid_lives w (pos zero) = false
pid_lives w (pos (suc n)) = w.process_alive (pos (suc n))
pid_lives w (negsuc n) = false

abbrev pub run_lives : World → Option Execution → Bool
run_lives w none = false
run_lives w (some x) = pid_lives w x.pid

pid_lives-lt_int :
    (w : World) (pid : ℤ) → (lt_int (pos 0) pid && w.process_alive pid) ≡ pid_lives w pid
pid_lives-lt_int w (pos zero) = ground arith
pid_lives-lt_int w (pos (suc n)) = ground arith
pid_lives-lt_int w (negsuc n) = ground arith

has_live_process-run_lives :
    (w : World) (rt : ArrowRuntime) → has_live_process w rt ≡ run_lives w rt.execution
unfolding has_live_process
has_live_process-run_lives w rt = lives rt.execution
  where
    lives :
        (x : Option Execution)
        → (lt_int (pos 0) (current_pid x) && w.process_alive (current_pid x)) ≡ run_lives w x
    lives none = pid_lives-lt_int w (pos 0)
    lives (some x) = pid_lives-lt_int w x.pid

abbrev interrupted_as : Namespace → ArrowRuntime → ArrowRuntime
interrupted_as ns rt = record {
  ref = ns;
  state = stable_state_for rt.state;
  execution = none;
  last_return = rt.last_return;
  pending_dep_sync = none;
}

abbrev detached_as : ArrowRuntime → ArrowRuntime
detached_as rt = record {
  ref = rt.ref;
  state = detached;
  execution = none;
  last_return = rt.last_return;
  pending_dep_sync = none;
}

send-recover_interrupted :
    (w : World) (ns : Namespace) (rt : ArrowRuntime)
    → w.send_fails ns ≡ false
    → is_empty rt.ref ≡ false
    → is_transient rt.state ≡ true
    → send w ns recover_interrupted rt ≡ some (interrupted_as ns rt)
unfolding send validate emit Commands.RecoverInterrupted.validate Commands.RecoverInterrupted.emit
    emitted
send-recover_interrupted w ns rt f e t = rw (f, e, t) refl

send-record_detached :
    (w : World) (ns : Namespace) (rt : ArrowRuntime)
    → w.send_fails ns ≡ false
    → is_empty rt.ref ≡ false
    → rt.state ≡ running
    → send w ns record_detached rt ≡ some (detached_as rt)
unfolding send validate emit Commands.RecordDetached.validate Commands.RecordDetached.emit emitted
    can_transition_to
send-record_detached w ns rt f e s = rw (f, e, ap (λ x. can_transition_to x detached) s) refl

-- What a round makes of an aggregate that is found in a state.
abbrev IsSettled : World → Namespace → ArrowRuntime → ArrowState → Option ArrowRuntime → Type 0
IsSettled w ns rt s stored =
    (next : ArrowRuntime) × (put_or stored (some rt) ≡ some next)
    × (next.state ≡ left_in s (has_live_process w rt))

module _ (w : World) (ns : Namespace) (rt : ArrowRuntime) (f : w.send_fails ns ≡ false)
    (e : is_empty rt.ref ≡ false) where
  interrupted-IsSettled :
      (s : ArrowState)
      → is_transient s ≡ true
      → stable_state_for s ≡ left_in s (has_live_process w rt)
      → rt.state ≡ s
      → IsSettled w ns rt s (send w ns recover_interrupted rt)
  interrupted-IsSettled s transient after same = (
    interrupted_as ns rt,
    ap (λ o. put_or o (some rt))
        (send-recover_interrupted w ns rt f e (ap is_transient same ∙ transient)),
    ap stable_state_for same ∙ after,
  )

  recover_running-IsSettled :
      rt.state ≡ running → IsSettled w ns rt running (recover_running w ns rt)
  unfolding recover_running is_running is_transient stable_state_for
  recover_running-IsSettled same = elim (Bool-cases (has_live_process w rt)) [
    | inl live ↦ (
      detached_as rt,
      ap
            (λ b.
              put_or (if b then send w ns record_detached rt else send w ns recover_interrupted rt)
                (some rt))
            live
          ∙ ap (λ o. put_or o (some rt)) (send-record_detached w ns rt f e same),
      ap (λ b. left_in running b) (sym live),
    )
    | inr dead ↦ (
      interrupted_as ns rt,
      ap
            (λ b.
              put_or (if b then send w ns record_detached rt else send w ns recover_interrupted rt)
                (some rt))
            dead
          ∙ ap (λ o. put_or o (some rt))
              (send-recover_interrupted w ns rt f e (ap is_transient same)),
      ap stable_state_for same ∙ ap (λ b. left_in running b) (sym dead),
    )
  ]

  recover_state-IsSettled :
      (s : ArrowState) → rt.state ≡ s → IsSettled w ns rt s (recover_state w ns rt s)
  unfolding recover_state is_running is_transient stable_state_for
  recover_state-IsSettled running same = recover_running-IsSettled same
  recover_state-IsSettled installing same = interrupted-IsSettled installing refl refl same
  recover_state-IsSettled uninstalling same = interrupted-IsSettled uninstalling refl refl same
  recover_state-IsSettled updating same = interrupted-IsSettled updating refl refl same
  recover_state-IsSettled stopping same = interrupted-IsSettled stopping refl refl same
  recover_state-IsSettled draining same = interrupted-IsSettled draining refl refl same
  recover_state-IsSettled absent same = (rt, refl, same)
  recover_state-IsSettled ready same = (rt, refl, same)
  recover_state-IsSettled detached same = (rt, refl, same)
  recover_state-IsSettled removed same = (rt, refl, same)
  recover_state-IsSettled outdated same = (rt, refl, same)
  recover_state-IsSettled (unknown s) same = (rt, refl, same)

left_in-at_rest : (lives : Bool) (s : ArrowState) → is_busy (left_in s lives) ≡ false
left_in-at_rest lives absent = refl
left_in-at_rest lives installing = refl
left_in-at_rest lives updating = refl
left_in-at_rest lives ready = refl
left_in-at_rest true running = refl
left_in-at_rest false running = refl
left_in-at_rest lives stopping = refl
left_in-at_rest lives draining = refl
left_in-at_rest lives detached = refl
left_in-at_rest lives uninstalling = refl
left_in-at_rest lives removed = refl
left_in-at_rest lives outdated = refl
left_in-at_rest lives (unknown s) = refl

-- After a recovery in which the event store answers, each aggregate that it lists and that has a ref
-- is out of the busy states: a running arrow whose process lives is detached, and one whose process does not is ready; an
-- interrupted install, uninstall or update leaves absent, an interrupted stop or drain leaves ready,
-- and any other state is as it was.
pub recover_transients-at_rest :
    (w : World) (arrows : Option (List (List Namespace))) (aggregates : List Namespace)
    (runtimes : Dict ArrowRuntime) (ns : Namespace) (rt : ArrowRuntime)
    → w.preload_fails ns ≡ false
    → w.get_fails ns ≡ false
    → w.send_fails ns ≡ false
    → Occurs ns aggregates
    → lookup ns runtimes ≡ some rt
    → is_empty rt.ref ≡ false
    → (next : ArrowRuntime) × (lookup ns
          (recover_transients w arrows (some aggregates) runtimes).runtimes
        ≡ some next)
      × (next.state ≡ left_in rt.state (run_lives w rt.execution))
      × (is_busy next.state ≡ false)
unfolding recover
recover_transients-at_rest w arrows aggregates runtimes ns rt p g f o here e =
    let (next, stored, found) = recover_state-IsSettled w ns rt f e rt.state refl in
    let after = found ∙ ap (λ b. left_in rt.state b) (has_live_process-run_lives w rt) in
    let taken : contains (collect_recovery_namespaces arrows (some aggregates)) ns ≡ true =
      Occurs-contains (collect_recovery_namespaces arrows (some aggregates)) ns
        (Occurs-collect ns arrows aggregates o) in
    let round : settled_by w ns (some rt) ≡ some next = rw (p, g, e) stored in
    (
      next,
      lookup-recover_transients w arrows (some aggregates) runtimes ns ∙ rw (taken, here) round,
      after,
      ap is_busy after ∙ left_in-at_rest (run_lives w rt.execution) rt.state,
    )
