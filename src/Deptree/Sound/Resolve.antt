-- ===== src/Deptree/Sound/Resolve.antt =====
-- What `Resolve` returns: an installation order of exactly the root's dependencies, or a cycle.
use quiver_core.Prelude.{
  ℕ, Str, Option, List, [], ◌∷◌, ◌++◌, Occurs, ◌≡◌, inl, inr, refl, sym, subst, ap,
}
use quiver_core.Domain.Execution.{Namespace}
use quiver_core.Deptree.Traversal.{Answer, Traversal, finished, cycle, resolve, new_traversal}
use quiver_core.Deptree.Graph.{
  AllOccur, DependsOn, Reaches, here, onward, IsTopological, empty, extend, IsCycle, Occurs-left,
  Occurs-last, Occurs-snoc,
}
use quiver_core.Deptree.Sound.{IsSearching, IsSound}
use quiver_core.Deptree.Sound.Search.{dfs-IsSound}

module _ (resolver : Namespace → Answer) where
  pub new-IsSearching : IsSearching resolver new_traversal
  unfolding new_traversal
  new-IsSearching = record {
    chained = tt;
    stacked = λ n e. cc;
    ordered = λ n e. cc;
    closed = λ n h. absurd h;
    topological = empty;
  }

  -- Every element of a list is reached from the root along dependencies.
  abbrev pub AllReached : Namespace → List Namespace → Type 0
  AllReached root [] = Unit
  AllReached root (x ∷ xs) = Reaches resolver root x × AllReached root xs

  AllReached-all :
      (root : Namespace) (xs : List Namespace)
      → ((n : Namespace) → Occurs n xs → Reaches resolver root n)
      → AllReached root xs
  AllReached-all root [] h = tt
  AllReached-all root (x ∷ xs) h = (h x (inl refl), AllReached-all root xs (λ n k. h n (inr k)))

  Occurs-AllOccur :
      (n : Namespace) (ds xs : List Namespace) → AllOccur ds xs → Occurs n ds → Occurs n xs
  Occurs-AllOccur n [] xs all h = absurd h
  Occurs-AllOccur n (d ∷ ds) xs all (inl e) = subst (λ k. Occurs k xs) (sym e) all.0
  Occurs-AllOccur n (d ∷ ds) xs all (inr h) = Occurs-AllOccur n ds xs all.1 h

  -- A topological list has the dependencies of all its elements.
  topological-closed :
      {xs : List Namespace} (x y : Namespace)
      → IsTopological resolver xs
      → Occurs x xs
      → DependsOn resolver x y
      → Occurs y xs
  topological-closed x y empty h d = absurd h
  topological-closed x y (extend {xs = xs} {ds = ds} {x = z} top r all new e) h (es, r', k) =
      elim (Occurs-snoc x z xs (subst (Occurs x) e h)) [
        | inl same ↦
            let same_deps : ds ≡ es = cc (r, r', ap resolver same) in
            subst (Occurs y) (sym e) (
              Occurs-left y xs (z ∷ [])
                (Occurs-AllOccur y ds xs all (subst (Occurs y) (sym same_deps) k)))
        | inr old ↦
            subst (Occurs y) (sym e)
              (Occurs-left y xs (z ∷ []) (topological-closed x y top old (es, r', k)))
      ]

  module _ (ctx_err : Traversal → Option Str) (fuel : ℕ) (root : Namespace) where
    resolve-IsSound : IsSound resolver root new_traversal (resolve ctx_err resolver fuel root)
    unfolding resolve
    resolve-IsSound =
        dfs-IsSound resolver ctx_err fuel new_traversal root new-IsSearching
          (unfold new_traversal in tt)

    -- A resolution that succeeds returns an order in which each arrow stands once and after all of
    -- its dependencies, the root is last, and every arrow is reached from the root.
    pub resolve-order :
        {t : Traversal}
        → resolve ctx_err resolver fuel root ≡ finished t
        → IsTopological resolver t.order
          × ((xs : List Namespace) × (t.order ≡ xs ++ (root ∷ [])))
          × AllReached root t.order
    resolve-order {t} e =
        let (s, g, fin, end) = subst (IsSound resolver root new_traversal) e resolve-IsSound in
        (
          s.topological,
          unfold new_traversal in elim end [ inl early ↦ cc | inr last ↦ last ],
          AllReached-all root t.order (λ n h. elim (g.reached n h) [
            | inl k ↦ absurd (unfold new_traversal in k)
            | inr r ↦ r
          ]),
        )

    -- A resolution that succeeds leaves out no arrow that is reached from the root.
    pub resolve_complete :
        {t : Traversal} {n : Namespace}
        → resolve ctx_err resolver fuel root ≡ finished t
        → Reaches resolver root n
        → Occurs n t.order
    resolve_complete {t} e here =
        let (top, (xs, last), all) = resolve-order e in
        subst (Occurs root) (sym last) (Occurs-last root xs)
    resolve_complete {t} e (onward {y = y} {z = z} r d) =
        topological-closed y z (resolve-order e).0 (resolve_complete e r) d

    -- A cycle error carries a way along dependencies from an arrow back to it.
    pub resolve-cycle :
        {path : List Namespace}
        → resolve ctx_err resolver fuel root ≡ cycle path
        → IsCycle resolver path
    resolve-cycle e = subst (IsSound resolver root new_traversal) e resolve-IsSound
