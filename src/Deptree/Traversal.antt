-- ===== src/Deptree/Traversal.antt =====
-- internal/engine/deptree/traversal.go and deptree.go: the depth-first search.
use quiver_core.Prelude.{
  ℕ, zero, suc, Str, str_eq, Option, none, some, List, [], ◌∷◌, ◌++◌, drop, if◌then◌else◌,
}
use quiver_core.Domain.Execution.{Namespace}

pub data NodeState : Type 0 where
  unvisited in_progress done : NodeState

-- `state` is a map that reads `unvisited` where it has no entry.
pub record Traversal : Type 0 where
  pub state : Namespace → NodeState
  pub stack : List Namespace
  pub order : List Namespace

-- What the caller's `ResolverFunc` answers for a namespace.
pub data Answer : Type 0 where
  deps : List Namespace → Answer
  refused : Str → Answer

-- How `dfs` ends: with the traversal, or with an error; a cycle carries its path. `starved` is the
-- end of the fuel.
pub data Outcome : Type 0 where
  finished : Traversal → Outcome
  cycle : List Namespace → Outcome
  failed : Str → Outcome
  starved : Outcome

-- `t.state[ns] = v`
unfoldable pub mark : (Namespace → NodeState) → Namespace → NodeState → Namespace → NodeState
mark state ns v n = if str_eq ns n then v else state n

-- The loop of `buildCycleError`: the first position of `ns`, and 0 if there is none.
unfoldable pub find_start : Namespace → List Namespace → Option ℕ
find_start ns [] = none
find_start ns (n ∷ stack) =
    if str_eq n ns
    then some 0
    else elim (find_start ns stack) [ none ↦ none | some i ↦ some (suc i) ]

unfoldable pub cycle_start : Namespace → List Namespace → ℕ
unfolding find_start
cycle_start ns stack = elim (find_start ns stack) [ none ↦ 0 | some i ↦ i ]

unfoldable pub build_cycle_error : Namespace → List Namespace → List Namespace
unfolding cycle_start
build_cycle_error ns stack = drop (cycle_start ns stack) stack ++ (ns ∷ [])

-- `stack[:len(stack)-1]`; the stack is never empty there.
unfoldable pub pop : List Namespace → List Namespace
pop [] = []
pop (n ∷ []) = []
pop (n ∷ m ∷ stack) = n ∷ pop (m ∷ stack)

unfoldable pub enter : Traversal → Namespace → Traversal
unfolding mark
enter t ns = record {
  state = mark t.state ns in_progress;
  stack = t.stack ++ (ns ∷ []);
  order = t.order;
}

unfoldable pub leave : Traversal → Namespace → Traversal
unfolding mark pop
leave t ns = record {
  state = mark t.state ns done;
  stack = pop t.stack;
  order = t.order ++ (ns ∷ []);
}

-- The loop over the dependencies, with the search that it calls.
unfoldable pub visit_all : (Traversal → Namespace → Outcome) → Traversal → List Namespace → Outcome
visit_all visit t [] = finished t
visit_all visit t (dep ∷ rest) = elim (visit t dep) [
  | finished t' ↦ visit_all visit t' rest
  | cycle path ↦ cycle path
  | failed e ↦ failed e
  | starved ↦ starved
]

-- The end of `dfs` after the loop.
unfoldable pub close_node : Namespace → Outcome → Outcome
unfolding leave
close_node ns (finished t) = finished (leave t ns)
close_node ns (cycle path) = cycle path
close_node ns (failed e) = failed e
close_node ns starved = starved

-- `NewTraversal`
unfoldable pub new_traversal : Traversal
new_traversal = record { state = λ n. unvisited; stack = []; order = [] }

-- The first three tests of `dfs`; `rest` is what follows them.
unfoldable pub at_state : NodeState → Traversal → Namespace → Outcome → Outcome
at_state done t ns rest = finished t
at_state in_progress t ns rest = cycle (build_cycle_error ns t.stack)
at_state unvisited t ns rest = rest

-- The errors of the context and of the resolver; `loop` is what follows them.
unfoldable pub expand : Option Str → Answer → (List Namespace → Outcome) → Outcome
expand (some e) answer loop = failed e
expand none (refused e) loop = failed e
expand none (deps ds) loop = loop ds

-- `ctx_err` is what `ctx.Err()` returns at the point of the search that a traversal marks.
module _ (ctx_err : Traversal → Option Str) (resolver : Namespace → Answer) where
  unfoldable pub dfs : ℕ → Traversal → Namespace → Outcome
  dfs zero t ns = starved
  dfs (suc fuel) t ns =
      let rest =
        expand (ctx_err t) (resolver ns)
          (λ ds. close_node ns (visit_all (dfs fuel) (enter t ns) ds)) in
      at_state (t.state ns) t ns rest

  -- `Resolve`, up to the projection of the order.
  unfoldable pub resolve : ℕ → Namespace → Outcome
  unfolding dfs new_traversal
  resolve fuel root = dfs fuel new_traversal root
