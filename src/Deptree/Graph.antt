-- ===== src/Deptree/Graph.antt =====
-- What the order and the cycles of a dependency graph are, apart from any search.
use quiver_core.Prelude.{
  ℕ, suc, str_eq, str_eq_iff, ne_of_str_eq, some, List, [], ◌∷◌, ◌++◌, drop, Occurs, ◌≡◌, ◌≢◌, ◌⊎◌,
  inl, inr, refl, sym, ap, Bool-cases,
}
use quiver_core.Domain.Execution.{Namespace}
use quiver_core.Deptree.Traversal.{Answer, deps, find_start, pop}

-- Every element of a list stands in another.
abbrev pub AllOccur : List Namespace → List Namespace → Type 0
AllOccur [] ys = Unit
AllOccur (x ∷ xs) ys = Occurs x ys × AllOccur xs ys

-- The last element.
abbrev pub LastIs : Namespace → List Namespace → Type 0
LastIs y [] = ⊥
LastIs y (x ∷ []) = x ≡ y
LastIs y (x ∷ x' ∷ xs) = LastIs y (x' ∷ xs)

pub Occurs-left : (x : Namespace) (xs ys : List Namespace) → Occurs x xs → Occurs x (xs ++ ys)
Occurs-left x [] ys h = absurd h
Occurs-left x (z ∷ xs) ys (inl e) = inl e
Occurs-left x (z ∷ xs) ys (inr h) = inr (Occurs-left x xs ys h)

pub Occurs-last : (x : Namespace) (xs : List Namespace) → Occurs x (xs ++ (x ∷ []))
Occurs-last x [] = inl refl
Occurs-last x (z ∷ xs) = inr (Occurs-last x xs)

pub Occurs-snoc :
    (x y : Namespace) (xs : List Namespace) → Occurs x (xs ++ (y ∷ [])) → (x ≡ y) ⊎ Occurs x xs
Occurs-snoc x y [] (inl e) = inl e
Occurs-snoc x y [] (inr h) = absurd h
Occurs-snoc x y (z ∷ xs) (inl e) = inr (inl e)
Occurs-snoc x y (z ∷ xs) (inr h) = elim (Occurs-snoc x y xs h) [
  | inl e ↦ inl e
  | inr k ↦ inr (inr k)
]

ne_nil_of_Occurs : (x : Namespace) (xs : List Namespace) → Occurs x xs → xs ≢ []
ne_nil_of_Occurs x [] h e = h
ne_nil_of_Occurs x (z ∷ xs) h e = cc

pub pop-snoc : (xs : List Namespace) (y : Namespace) → pop (xs ++ (y ∷ [])) ≡ xs
unfolding pop
pop-snoc [] y = refl
pop-snoc (x ∷ []) y = refl
pop-snoc (x ∷ x' ∷ xs) y = ap (λ t. x ∷ t) (pop-snoc (x' ∷ xs) y)

module _ (resolver : Namespace → Answer) where
  -- `y` is one of the dependencies that the resolver gives for `x`.
  abbrev pub DependsOn : Namespace → Namespace → Type 0
  DependsOn x y = (ds : List Namespace) × (resolver x ≡ deps ds) × Occurs y ds

  pub data Reaches (x : Namespace) : Namespace → Type 0 where
    here : Reaches x x
    onward : {y z : Namespace} → Reaches x y → DependsOn y z → Reaches x z

  -- Each element depends on the next.
  abbrev pub Chain : List Namespace → Type 0
  Chain [] = Unit
  Chain (x ∷ []) = Unit
  Chain (x ∷ y ∷ r) = DependsOn x y × Chain (y ∷ r)

  -- The last element of a list, if there is one, depends on `y`.
  abbrev pub Links : List Namespace → Namespace → Type 0
  Links [] y = Unit
  Links (x ∷ []) y = DependsOn x y
  Links (x ∷ x' ∷ r) y = Links (x' ∷ r) y

  -- A list of nodes, built by adding, one after the other, a node that is not there yet and whose
  -- dependencies all are.
  pub data IsTopological : List Namespace → Type 0 where
    empty : IsTopological []
    extend :
        {xs ys ds : List Namespace} {x : Namespace}
        → IsTopological xs
        → resolver x ≡ deps ds
        → AllOccur ds xs
        → ¬ Occurs x xs
        → ys ≡ xs ++ (x ∷ [])
        → IsTopological ys

  -- A way along dependencies from a node back to it, with at least one step.
  pub record IsCycle (path : List Namespace) : Type 0 where
    pub start : Namespace
    pub rest : List Namespace
    pub from_start : path ≡ start ∷ rest
    pub to_start : LastIs start rest
    pub steps : Chain path

  pub Chain-snoc :
      (xs : List Namespace) (y : Namespace) → Chain xs → Links xs y → Chain (xs ++ (y ∷ []))
  Chain-snoc [] y c l = tt
  Chain-snoc (x ∷ []) y c l = (l, tt)
  Chain-snoc (x ∷ x' ∷ xs) y c l = (c.0, Chain-snoc (x' ∷ xs) y c.1 l)

  pub Links-snoc :
      (xs : List Namespace) (x y : Namespace) → DependsOn x y → Links (xs ++ (x ∷ [])) y
  Links-snoc [] x y d = d
  Links-snoc (z ∷ []) x y d = d
  Links-snoc (z ∷ z' ∷ xs) x y d = Links-snoc (z' ∷ xs) x y d

  Chain-tail : (x : Namespace) (xs : List Namespace) → Chain (x ∷ xs) → Chain xs
  Chain-tail x [] c = tt
  Chain-tail x (y ∷ xs) c = c.1

  Links-tail :
      (x : Namespace) (xs : List Namespace) (y : Namespace)
      → xs ≢ []
      → Links (x ∷ xs) y
      → Links xs y
  Links-tail x [] y ne l = absurd (ne refl)
  Links-tail x (z ∷ xs) y ne l = l

  LastIs-snoc : (xs : List Namespace) (y : Namespace) → LastIs y (xs ++ (y ∷ []))
  LastIs-snoc [] y = refl
  LastIs-snoc (x ∷ []) y = refl
  LastIs-snoc (x ∷ x' ∷ xs) y = LastIs-snoc (x' ∷ xs) y

  -- From the first position of a node on the stack, the stack and the node again are a cycle, if the
  -- stack is a chain whose last element depends on the node.
  pub find_start-IsCycle :
      (y : Namespace) (stack : List Namespace)
      → Occurs y stack
      → Chain stack
      → Links stack y
      → (i : ℕ) × (find_start y stack ≡ some i) × IsCycle (drop i stack ++ (y ∷ []))
  unfolding find_start
  find_start-IsCycle y [] h c l = absurd h
  find_start-IsCycle y (x ∷ stack) h c l = elim (Bool-cases (str_eq x y)) [
    | inl same ↦
        let e = (str_eq_iff x y).0 same in
        (
          0,
          rw same,
          record {
            start = y;
            rest = stack ++ (y ∷ []);
            from_start = ap (λ t. t ∷ (stack ++ (y ∷ []))) e;
            to_start = LastIs-snoc stack y;
            steps = Chain-snoc (x ∷ stack) y c l;
          },
        )
    | inr other ↦ elim h [
      | inl e ↦ absurd (ne_of_str_eq x y other (sym e))
      | inr later ↦
          let (i, found, cyc) =
            find_start-IsCycle y stack later (Chain-tail x stack c)
              (Links-tail x stack y (ne_nil_of_Occurs y stack later) l) in
          (suc i, rw (other, found), cyc)
    ]
  ]

  pub Reaches-before : {x y z : Namespace} → DependsOn x y → Reaches y z → Reaches x z
  Reaches-before d here = onward here d
  Reaches-before d (onward r e) = onward (Reaches-before d r) e
