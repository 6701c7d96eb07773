-- ===== src/Deptree/Sound/Search.antt =====
-- The depth-first search keeps what `IsSearching` says, and ends as `IsSound` says.
use quiver_core.Prelude.{
  ℕ, zero, suc, Str, Option, none, some, List, [], ◌∷◌, ◌++◌, Occurs, ◌≡◌, inl, inr, refl, sym,
  subst, ap, drop,
}
use quiver_core.Domain.Execution.{Namespace}
use quiver_core.Deptree.Traversal.{
  Answer, deps, refused, NodeState, unvisited, in_progress, done, Traversal, Outcome, finished,
  cycle, failed, starved, enter, leave, visit_all, close_node, at_state, expand, build_cycle_error,
  cycle_start, dfs,
}
use quiver_core.Deptree.Graph.{DependsOn, Links, IsCycle, Links-snoc, find_start-IsCycle}
use quiver_core.Deptree.Sound.{
  IsSearching, IsGrown, IsSound, LoopIsSound, enter-IsSearching, leave-IsSearching, leave-IsGrown,
  IsGrown-trans, leave-done,
}

module _ (resolver : Namespace → Answer) where
  build_cycle_error-IsCycle :
      (t : Traversal) (ns : Namespace)
      → IsSearching resolver t
      → t.state ns ≡ in_progress
      → Links resolver t.stack ns
      → IsCycle resolver (build_cycle_error ns t.stack)
  unfolding build_cycle_error cycle_start
  build_cycle_error-IsCycle t ns s busy l =
      let (i, found, cyc) =
        find_start-IsCycle resolver ns t.stack (s.stacked ns busy) s.chained l in
      subst (IsCycle resolver) (sym (ap path_from found)) cyc
    where
      path_from : Option ℕ → List Namespace
      path_from o = drop (elim o [ none ↦ 0 | some i ↦ i ]) t.stack ++ (ns ∷ [])

  IsGrown-refl : (ns : Namespace) (t : Traversal) → IsGrown resolver ns t t
  IsGrown-refl ns t = record {
    same_stack = refl;
    done_kept = λ n e. e;
    busy_kept = λ n e. e;
    seen_kept = λ n e. e;
    reached = λ n h. inl h;
  }

  -- The loop goes on from `t'`, where the first dependency is done.
  lift_loop :
      (ds : List Namespace) {ns d : Namespace} {t t' : Traversal} (o : Outcome)
      → DependsOn resolver ns d
      → IsGrown resolver d t t'
      → t'.state d ≡ done
      → LoopIsSound resolver ns ds t' o
      → LoopIsSound resolver ns (d ∷ ds) t o
  lift_loop ds {d = d} (finished t'') dep g fin (s, h, all) =
      (s, IsGrown-trans resolver dep g h, (s.ordered d (h.done_kept d fin), all))
  lift_loop ds (cycle path) dep g fin c = c
  lift_loop ds (failed e) dep g fin c = tt
  lift_loop ds starved dep g fin c = tt

  module _ (visit : Traversal → Namespace → Outcome)
      (visit-IsSound : (t : Traversal) (d : Namespace)
        → IsSearching resolver t
        → Links resolver t.stack d
        → IsSound resolver d t (visit t d)) where
    first_step :
        (ds : List Namespace) {ns d : Namespace} {t : Traversal} (o : Outcome)
        → DependsOn resolver ns d
        → IsSound resolver d t o
        → ((t' : Traversal)
            → IsSearching resolver t'
            → IsGrown resolver d t t'
            → LoopIsSound resolver ns ds t' (visit_all visit t' ds))
        → LoopIsSound resolver ns (d ∷ ds) t (elim o [
          | finished t' ↦ visit_all visit t' ds
          | cycle path ↦ cycle path
          | failed e ↦ failed e
          | starved ↦ starved
        ])
    first_step ds (finished t') dep (s, g, fin, pos) rest =
        lift_loop ds (visit_all visit t' ds) dep g fin (rest t' s g)
    first_step ds (cycle path) dep c rest = c
    first_step ds (failed e) dep c rest = tt
    first_step ds starved dep c rest = tt

    pub loop-IsSound :
        (ns : Namespace) (ds : List Namespace) (t : Traversal)
        → IsSearching resolver t
        → ((d : Namespace) → Occurs d ds → DependsOn resolver ns d)
        → ((d : Namespace) → Occurs d ds → Links resolver t.stack d)
        → LoopIsSound resolver ns ds t (visit_all visit t ds)
    unfolding visit_all
    loop-IsSound ns [] t s dep l = (s, IsGrown-refl ns t, tt)
    loop-IsSound ns (d ∷ ds) t s dep l =
        first_step ds (visit t d) (dep d (inl refl)) (visit-IsSound t d s (l d (inl refl)))
          (λ t' s' g.
            loop-IsSound ns ds t' s' (λ e h. dep e (inr h))
              (λ e h. subst (λ st. Links resolver st e) (sym g.same_stack) (l e (inr h))))

  close-IsSound :
      (ns : Namespace) (ds : List Namespace) (t : Traversal) (o : Outcome)
      → IsSearching resolver t
      → t.state ns ≡ unvisited
      → resolver ns ≡ deps ds
      → LoopIsSound resolver ns ds (enter t ns) o
      → IsSound resolver ns t (close_node ns o)
  unfolding close_node
  close-IsSound ns ds t (finished t') s fresh r (s', g, all) = (
    leave-IsSearching resolver ns t t' s s' fresh g ds r all,
    leave-IsGrown resolver ns t t' s s' fresh g,
    leave-done resolver t' ns,
    unfold leave in inr (t'.order, refl),
  )
  close-IsSound ns ds t (cycle path) s fresh r c = c
  close-IsSound ns ds t (failed e) s fresh r c = tt
  close-IsSound ns ds t starved s fresh r c = tt

  at_state-IsSound :
      (v : NodeState) (t : Traversal) (ns : Namespace) (rest : Outcome)
      → IsSearching resolver t
      → Links resolver t.stack ns
      → t.state ns ≡ v
      → (v ≡ unvisited → IsSound resolver ns t rest)
      → IsSound resolver ns t (at_state v t ns rest)
  unfolding at_state
  at_state-IsSound done t ns rest s l e h = (s, IsGrown-refl ns t, e, inl e)
  at_state-IsSound in_progress t ns rest s l e h = build_cycle_error-IsCycle t ns s e l
  at_state-IsSound unvisited t ns rest s l e h = h refl

  expand-IsSound :
      (err : Option Str) (answer : Answer) (t : Traversal) (ns : Namespace)
      (loop : List Namespace → Outcome)
      → resolver ns ≡ answer
      → ((ds : List Namespace) → resolver ns ≡ deps ds → IsSound resolver ns t (loop ds))
      → IsSound resolver ns t (expand err answer loop)
  unfolding expand
  expand-IsSound (some e) answer t ns loop r h = tt
  expand-IsSound none (refused e) t ns loop r h = tt
  expand-IsSound none (deps ds) t ns loop r h = h ds r

  module _ (ctx_err : Traversal → Option Str) where
    pub dfs-IsSound :
        (fuel : ℕ) (t : Traversal) (ns : Namespace)
        → IsSearching resolver t
        → Links resolver t.stack ns
        → IsSound resolver ns t (dfs ctx_err resolver fuel t ns)
    unfolding dfs
    dfs-IsSound zero t ns s l = tt
    dfs-IsSound (suc fuel) t ns s l =
        let visit = dfs ctx_err resolver fuel in
        at_state-IsSound (t.state ns) t ns _ s l refl (λ fresh.
          expand-IsSound (ctx_err t) (resolver ns) t ns _ refl (λ ds r.
            close-IsSound ns ds t (visit_all visit (enter t ns) ds) s fresh r (
              loop-IsSound visit (dfs-IsSound fuel) ns ds (enter t ns)
                (enter-IsSearching resolver t ns s fresh l) (λ d h. (ds, r, h))
                (λ d h. unfold enter in Links-snoc resolver t.stack ns d (ds, r, h)))))
