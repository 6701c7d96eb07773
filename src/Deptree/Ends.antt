-- ===== src/Deptree/Ends.antt =====
-- The search ends: fuel for one more call than there are arrows is enough.
use quiver_core.Prelude.{
  ℕ, zero, suc, ◌<◌, ◌≤◌, Str, Option, none, some, List, [], ◌∷◌, length, Occurs, ◌≡◌, ◌≢◌, inl,
  inr, refl, arith, sym, subst, ap, ◌∙◌,
}
use quiver_core.Domain.Execution.{Namespace}
use quiver_core.Deptree.Traversal.{
  Answer, deps, refused, NodeState, unvisited, in_progress, done, Traversal, Outcome, finished,
  cycle, failed, starved, mark, enter, visit_all, close_node, at_state, expand, dfs, resolve,
  new_traversal,
}
use quiver_core.Deptree.Graph.{DependsOn, Links, Links-snoc}
use quiver_core.Deptree.Sound.{IsSearching, IsGrown, IsSound, enter-IsSearching, mark-cases}
use quiver_core.Deptree.Sound.Search.{dfs-IsSound}
use quiver_core.Deptree.Sound.Resolve.{new-IsSearching}

-- How many of some arrows the search has not seen.
unseen : List Namespace → (Namespace → NodeState) → ℕ
unseen [] state = 0
unseen (x ∷ xs) state =
    let rest = unseen xs state in elim (state x) [ unvisited ↦ suc rest | _ ↦ rest ]

unseen-le :
    (xs : List Namespace) (s s' : Namespace → NodeState)
    → ((n : Namespace) → s' n ≡ unvisited → s n ≡ unvisited)
    → unseen xs s' ≤ unseen xs s
unfolding unseen
unseen-le [] s s' h = omega arith
unseen-le (x ∷ xs) s s' h = ground (arith, unseen-le xs s s' h, h x)

unseen-lt :
    (xs : List Namespace) (s s' : Namespace → NodeState) (y : Namespace)
    → ((n : Namespace) → s' n ≡ unvisited → s n ≡ unvisited)
    → s y ≡ unvisited
    → s' y ≢ unvisited
    → Occurs y xs
    → unseen xs s' < unseen xs s
unfolding unseen
unseen-lt [] s s' y h fresh seen k = absurd k
unseen-lt (x ∷ xs) s s' y h fresh seen (inl e) =
    ground (arith, unseen-le xs s s' h, ap s e, ap s' e)
unseen-lt (x ∷ xs) s s' y h fresh seen (inr k) =
    ground (arith, unseen-lt xs s s' y h fresh seen k, h x)

-- The fuel did not run out.
abbrev IsFed : Outcome → Type 0
IsFed starved = ⊥
IsFed _ = Unit

enter-unseen :
    (xs : List Namespace) (t : Traversal) (ns : Namespace)
    → t.state ns ≡ unvisited
    → Occurs ns xs
    → unseen xs (enter t ns).state < unseen xs t.state
unfolding enter
enter-unseen xs t ns fresh k =
    unseen-lt xs t.state (mark t.state ns in_progress) ns
      (λ n e. elim (mark-cases t.state ns in_progress n) [
        | inl (same, m) ↦ cc
        | inr (other, m) ↦ sym m ∙ e
      ])
      fresh
      (λ e. elim (mark-cases t.state ns in_progress ns) [
        | inl (same, m) ↦ cc
        | inr (other, m) ↦ other refl
      ])
      k

close-IsFed : (ns : Namespace) (o : Outcome) → IsFed o → IsFed (close_node ns o)
unfolding close_node
close-IsFed ns (finished t) h = tt
close-IsFed ns (cycle path) h = tt
close-IsFed ns (failed e) h = tt
close-IsFed ns starved h = h

at_state-IsFed :
    (v : NodeState) (t : Traversal) (ns : Namespace) (rest : Outcome)
    → (v ≡ unvisited → IsFed rest)
    → IsFed (at_state v t ns rest)
unfolding at_state
at_state-IsFed done t ns rest h = tt
at_state-IsFed in_progress t ns rest h = tt
at_state-IsFed unvisited t ns rest h = h refl

expand-IsFed :
    (err : Option Str) (answer : Answer) (loop : List Namespace → Outcome)
    → ((ds : List Namespace) → answer ≡ deps ds → IsFed (loop ds))
    → IsFed (expand err answer loop)
unfolding expand
expand-IsFed (some e) answer loop h = tt
expand-IsFed none (refused e) loop h = tt
expand-IsFed none (deps ds) loop h = h ds refl

module _ (resolver : Namespace → Answer) (ctx_err : Traversal → Option Str) (known : List Namespace)
    (known-closed : (x y : Namespace)
      → Occurs x known
      → DependsOn resolver x y
      → Occurs y known) where
  module _ (fuel : ℕ)
      (dfs_fed : (t : Traversal) (d : Namespace)
        → IsSearching resolver t
        → Links resolver t.stack d
        → Occurs d known
        → unseen known t.state < fuel
        → IsFed (dfs ctx_err resolver fuel t d)) where
    step-IsFed :
        (t : Traversal) (d : Namespace) (ds : List Namespace) (o : Outcome)
        → IsFed o
        → IsSound resolver d t o
        → ((t' : Traversal)
            → IsSearching resolver t'
            → IsGrown resolver d t t'
            → IsFed (visit_all (dfs ctx_err resolver fuel) t' ds))
        → IsFed (elim o [
          | finished t' ↦ visit_all (dfs ctx_err resolver fuel) t' ds
          | cycle path ↦ cycle path
          | failed e ↦ failed e
          | starved ↦ starved
        ])
    step-IsFed t d ds (finished t') fed (s, g, fin, pos) rest = rest t' s g
    step-IsFed t d ds (cycle path) fed sound rest = tt
    step-IsFed t d ds (failed e) fed sound rest = tt
    step-IsFed t d ds starved fed sound rest = fed

    loop-IsFed :
        (ds : List Namespace) (t : Traversal)
        → IsSearching resolver t
        → ((d : Namespace) → Occurs d ds → Links resolver t.stack d)
        → ((d : Namespace) → Occurs d ds → Occurs d known)
        → unseen known t.state < fuel
        → IsFed (visit_all (dfs ctx_err resolver fuel) t ds)
    unfolding visit_all
    loop-IsFed [] t s l k lt = tt
    loop-IsFed (d ∷ ds) t s l k lt =
        step-IsFed t d ds (dfs ctx_err resolver fuel t d)
          (dfs_fed t d s (l d (inl refl)) (k d (inl refl)) lt)
          (dfs-IsSound resolver ctx_err fuel t d s (l d (inl refl)))
          (λ t' s' g.
            loop-IsFed ds t' s'
              (λ e h. subst (λ st. Links resolver st e) (sym g.same_stack) (l e (inr h)))
              (λ e h. k e (inr h))
              (ground (arith, lt, unseen-le known t.state t'.state g.seen_kept)))

  dfs-IsFed :
      (fuel : ℕ) (t : Traversal) (ns : Namespace)
      → IsSearching resolver t
      → Links resolver t.stack ns
      → Occurs ns known
      → unseen known t.state < fuel
      → IsFed (dfs ctx_err resolver fuel t ns)
  unfolding dfs
  dfs-IsFed zero t ns s l k lt = let h : ⊥ = omega arith in absurd h
  dfs-IsFed (suc fuel) t ns s l k lt = at_state-IsFed (t.state ns) t ns _ (λ fresh.
      expand-IsFed (ctx_err t) (resolver ns) _ (λ ds r. close-IsFed ns _ (
        loop-IsFed fuel (dfs-IsFed fuel) ds (enter t ns) (enter-IsSearching resolver t ns s fresh l)
          (λ d h. unfold enter in Links-snoc resolver t.stack ns d (ds, r, h))
          (λ d h. known-closed ns d k (ds, r, h)) (less fresh))))
    where
      less : t.state ns ≡ unvisited → unseen known (enter t ns).state < fuel
      less fresh = let lower = enter-unseen known t ns fresh k in (omega arith)

  unseen_bound : (xs : List Namespace) → unseen xs new_traversal.state ≤ length xs
  unfolding unseen new_traversal
  unseen_bound [] = omega arith
  unseen_bound (x ∷ xs) = ground (arith, unseen_bound xs)

  -- The search ends, whatever the resolver and the context answer: when the arrows that the root
  -- reaches stand in a list, fuel for one more call than the length of the list is enough.
  pub resolve_terminates :
      (root : Namespace)
      → Occurs root known
      → resolve ctx_err resolver (suc (length known)) root ≢ starved
  unfolding resolve
  resolve_terminates root k e = subst IsFed e (
      dfs-IsFed (suc (length known)) new_traversal root (new-IsSearching resolver)
        (unfold new_traversal in tt) k (let bound = unseen_bound known in (omega arith)))
