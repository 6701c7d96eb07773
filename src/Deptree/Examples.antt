-- ===== src/Deptree/Examples.antt =====
-- Searches of small graphs, and the theorems at them.
use quiver_core.Prelude.{
  suc, Str, Option, none, List, [], ◌∷◌, ◌++◌, str_eq, length, Occurs, ◌≡◌, ◌≢◌, inl, inr, refl,
  if◌then◌else◌, subst, ap,
}
use quiver_core.Domain.Execution.{Namespace}
use quiver_core.Deptree.Traversal.{
  Answer, deps, Traversal, finished, cycle, starved, resolve, dfs, at_state, expand, visit_all,
  close_node, enter, leave, mark, pop, new_traversal, build_cycle_error, cycle_start, find_start,
}
use quiver_core.Deptree.Graph.{DependsOn, Reaches, here, onward, IsTopological, IsCycle}
use quiver_core.Deptree.Sound.Resolve.{AllReached, resolve-order, resolve_complete, resolve-cycle}
use quiver_core.Deptree.Ends.{resolve_terminates}

abbrev game : Namespace
game = 1 ∷ []

abbrev engine : Namespace
engine = 2 ∷ []

abbrev base : Namespace
base = 3 ∷ []

-- The game needs the engine and the base, and the engine needs the base.
diamond : Namespace → Answer
diamond ns =
    if str_eq ns game
    then deps (engine ∷ base ∷ [])
    else if str_eq ns engine
    then deps (base ∷ [])
    else deps []

-- Two arrows that need each other.
looped : Namespace → Answer
looped ns = if str_eq ns game then deps (engine ∷ []) else deps (game ∷ [])

abbrev no_error : Traversal → Option Str
no_error t = none

abbrev known : List Namespace
known = game ∷ engine ∷ base ∷ []

diamond_end : Traversal
unfolding enter leave mark pop new_traversal
diamond_end =
    leave (leave (leave (enter (enter (enter new_traversal game) engine) base) base) engine) game

diamond_order : diamond_end.order ≡ base ∷ engine ∷ game ∷ []
unfolding diamond_end enter leave mark pop new_traversal
diamond_order = refl

diamond_finishes : resolve no_error diamond 4 game ≡ finished diamond_end
unfolding resolve dfs at_state expand visit_all close_node str_eq diamond mark pop diamond_end enter
    leave new_traversal
diamond_finishes = refl

looped_cycle : resolve no_error looped 4 game ≡ cycle (game ∷ engine ∷ game ∷ [])
unfolding resolve dfs at_state expand visit_all close_node str_eq looped mark pop enter leave
    new_traversal build_cycle_error cycle_start find_start
looped_cycle = refl

resolve-order_example :
    IsTopological diamond diamond_end.order
    × ((xs : List Namespace) × (diamond_end.order ≡ xs ++ (game ∷ [])))
    × AllReached diamond game diamond_end.order
resolve-order_example = resolve-order diamond no_error 4 game diamond_finishes

base_reached : Reaches diamond game base
unfolding diamond str_eq
base_reached = onward (onward here (engine ∷ base ∷ [], refl, inl refl)) (base ∷ [], refl, inl refl)

resolve_complete_example : Occurs base diamond_end.order
resolve_complete_example = resolve_complete diamond no_error 4 game diamond_finishes base_reached

resolve-cycle_example : IsCycle looped (game ∷ engine ∷ game ∷ [])
resolve-cycle_example = resolve-cycle looped no_error 4 game looped_cycle

closed_at :
    (x x0 y : Namespace) (ds0 : List Namespace)
    → x ≡ x0
    → diamond x0 ≡ deps ds0
    → (Occurs y ds0 → Occurs y known)
    → DependsOn diamond x y
    → Occurs y known
closed_at x x0 y ds0 e r0 all (ds, r, k) =
    let same : ds ≡ ds0 = cc (r, r0, ap diamond e) in all (subst (Occurs y) same k)

diamond-closed : (x y : Namespace) → Occurs x known → DependsOn diamond x y → Occurs y known
unfolding diamond str_eq
diamond-closed x y (inl e) d = closed_at x game y (engine ∷ base ∷ []) e refl (λ k. inr k) d
diamond-closed x y (inr (inl e)) d = closed_at x engine y (base ∷ []) e refl (λ k. inr (inr k)) d
diamond-closed x y (inr (inr (inl e))) d = closed_at x base y [] e refl (λ k. absurd k) d
diamond-closed x y (inr (inr (inr h))) d = absurd h

resolve_terminates_example : resolve no_error diamond (suc (length known)) game ≢ starved
resolve_terminates_example =
    resolve_terminates diamond no_error known diamond-closed game (inl refl)
