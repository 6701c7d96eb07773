-- ===== src/Runtime/Recovery/Examples.antt =====
-- A recovery of three aggregates.
use quiver_core.Prelude.{
  true, false, Option, none, some, List, [], ◌∷◌, codes, ◌==◌, str_eq, Dict, lookup, ℤ, pos, negsuc,
  inl, ◌≡◌, refl,
}
use quiver_core.Domain.ArrowState.{ArrowState, running, outdated}
use quiver_core.Domain.Execution.{Namespace, Execution, ArrowRuntime}
use quiver_core.Runtime.Commands.RecoverInterrupted.{is_transient}
use quiver_core.Runtime.History.Invariant.{is_busy}
use quiver_core.Runtime.Recovery.{World, recover_transients}
use quiver_core.Runtime.Recovery.Settled.{left_in, run_lives, recover_transients-at_rest}
use quiver_core.Runtime.Recovery.Kept.{recover_transients-kept}

abbrev game : Namespace
game = codes "git.io/u/game@v1"

abbrev tool : Namespace
tool = codes "git.io/u/tool@v1"

abbrev old : Namespace
old = codes "git.io/u/old@v1"

-- The process 7 is alive, and the store answers.
abbrev world : World
world = record {
  preload_fails = λ ns. false;
  get_fails = λ ns. false;
  send_fails = λ ns. false;
  process_alive = λ pid. elim pid [ pos n ↦ n == 7 | negsuc n ↦ false ];
  closes_surfaces = true;
}

abbrev run_of : ℤ → Execution
run_of pid = record {
  id = codes "x1";
  method = codes "play";
  steps = [];
  variables = [];
  pid = pid;
  work_dir = codes "/w";
  surface = none;
}

abbrev runtime_of : Namespace → ArrowState → Option Execution → ArrowRuntime
runtime_of ns state execution = record {
  ref = ns;
  state = state;
  execution = execution;
  last_return = none;
  pending_dep_sync = none;
}

abbrev runtimes : Dict ArrowRuntime
runtimes =
    (game, runtime_of game running (some (run_of (pos 7))))
    ∷ (tool, runtime_of tool running (some (run_of (pos 8))))
    ∷ (old, runtime_of old outdated none)
    ∷ []

abbrev listed : List Namespace
listed = game ∷ tool ∷ old ∷ []

game_is_stored : lookup game runtimes ≡ some (runtime_of game running (some (run_of (pos 7))))
unfolding lookup str_eq
game_is_stored = refl

old_is_stored : lookup old runtimes ≡ some (runtime_of old outdated none)
unfolding lookup str_eq
old_is_stored = refl

recover_transients-at_rest_example :
    (next : ArrowRuntime) × (lookup game
        (recover_transients world none (some listed) runtimes).runtimes
      ≡ some next)
    × (next.state ≡ left_in running (run_lives world (some (run_of (pos 7)))))
    × (is_busy next.state ≡ false)
recover_transients-at_rest_example =
    recover_transients-at_rest world none listed runtimes game
      (runtime_of game running (some (run_of (pos 7)))) refl refl refl (inl refl) game_is_stored
      refl

at_rest : is_transient outdated ≡ false
unfolding is_transient
at_rest = refl

recover_transients-kept_example :
    lookup old (recover_transients world (some ((old ∷ []) ∷ [])) none runtimes).runtimes
    ≡ some (runtime_of old outdated none)
recover_transients-kept_example =
    recover_transients-kept world (some ((old ∷ []) ∷ [])) none runtimes old
      (runtime_of old outdated none) old_is_stored at_rest
