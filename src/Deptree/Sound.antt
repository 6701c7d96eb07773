-- ===== src/Deptree/Sound.antt =====
-- The search is right: its order is topological, and a cycle that it reports is one.
pub mod Search
pub mod Resolve
use quiver_core.Prelude.{
  ℕ, zero, suc, Str, str_eq, str_eq_iff, ne_of_str_eq, Bool, true, false, Option, none, some, List,
  [], ◌∷◌, ◌++◌, Occurs, ◌≡◌, ◌≢◌, ◌⊎◌, inl, inr, refl, arith, sym, subst, ap, ◌∙◌, Bool-cases,
}
use quiver_core.Domain.Execution.{Namespace}
use quiver_core.Deptree.Traversal.{
  Answer, deps, NodeState, unvisited, in_progress, done, Traversal, Outcome, finished, cycle,
  failed, starved, mark, enter, leave, pop, build_cycle_error, cycle_start,
}
use quiver_core.Deptree.Graph.{
  AllOccur, DependsOn, Reaches, Reaches-before, Chain, Links, IsTopological, empty, extend, IsCycle,
  Occurs-left, Occurs-last, Occurs-snoc, pop-snoc, Chain-snoc, Links-snoc, find_start-IsCycle,
}

pub mark-cases :
    (state : Namespace → NodeState) (ns : Namespace) (v : NodeState) (n : Namespace)
    → ((n ≡ ns) × (mark state ns v n ≡ v)) ⊎ ((n ≢ ns) × (mark state ns v n ≡ state n))
unfolding mark
mark-cases state ns v n = elim (Bool-cases (str_eq ns n)) [
  | inl same ↦ inl (sym ((str_eq_iff ns n).0 same), rw same)
  | inr other ↦ inr ((λ e. ne_of_str_eq ns n other (sym e)), rw other)
]

module _ (resolver : Namespace → Answer) where
  -- What holds of a traversal whenever `dfs` is called.
  pub record IsSearching (t : Traversal) : Type 0 where
    pub chained : Chain resolver t.stack
    pub stacked : (n : Namespace) → t.state n ≡ in_progress → Occurs n t.stack
    pub ordered : (n : Namespace) → t.state n ≡ done → Occurs n t.order
    pub closed : (n : Namespace) → Occurs n t.order → t.state n ≡ done
    pub topological : IsTopological resolver t.order

  -- How the traversal may change over a search from `ns` that finishes.
  pub record IsGrown (ns : Namespace) (t t' : Traversal) : Type 0 where
    pub same_stack : t'.stack ≡ t.stack
    pub done_kept : (n : Namespace) → t.state n ≡ done → t'.state n ≡ done
    pub busy_kept : (n : Namespace) → t.state n ≡ in_progress → t'.state n ≡ in_progress
    pub seen_kept : (n : Namespace) → t'.state n ≡ unvisited → t.state n ≡ unvisited
    pub reached : (n : Namespace) → Occurs n t'.order → Occurs n t.order ⊎ Reaches resolver ns n

  -- What a search from `ns` comes to: on success the root is done, and stands last in the order if
  -- it was not done before.
  abbrev pub IsSound : Namespace → Traversal → Outcome → Type 0
  IsSound ns t (finished t') =
      IsSearching t'
      × IsGrown ns t t'
      × (t'.state ns ≡ done)
      × ((t.state ns ≡ done) ⊎ ((xs : List Namespace) × (t'.order ≡ xs ++ (ns ∷ []))))
  IsSound ns t (cycle path) = IsCycle resolver path
  IsSound ns t (failed e) = Unit
  IsSound ns t starved = Unit

  -- What the loop over the dependencies `ds` of `ns` comes to.
  abbrev pub LoopIsSound : Namespace → List Namespace → Traversal → Outcome → Type 0
  LoopIsSound ns ds t (finished t') = IsSearching t' × IsGrown ns t t' × AllOccur ds t'.order
  LoopIsSound ns ds t (cycle path) = IsCycle resolver path
  LoopIsSound ns ds t (failed e) = Unit
  LoopIsSound ns ds t starved = Unit

  pub enter-IsSearching :
      (t : Traversal) (ns : Namespace)
      → IsSearching t
      → t.state ns ≡ unvisited
      → Links resolver t.stack ns
      → IsSearching (enter t ns)
  unfolding enter
  enter-IsSearching t ns s fresh l = record {
    chained = Chain-snoc resolver t.stack ns s.chained l;
    stacked = λ n e. elim (mark-cases t.state ns in_progress n) [
      | inl (same, m) ↦
          subst (λ k. Occurs k (t.stack ++ (ns ∷ []))) (sym same) (Occurs-last ns t.stack)
      | inr (ne, m) ↦ Occurs-left n t.stack (ns ∷ []) (s.stacked n (sym m ∙ e))
    ];
    ordered = λ n e. elim (mark-cases t.state ns in_progress n) [
      | inl (same, m) ↦ cc
      | inr (ne, m) ↦ s.ordered n (sym m ∙ e)
    ];
    closed = λ n h. elim (mark-cases t.state ns in_progress n) [
      | inl (same, m) ↦ cc (s.closed n h, ap t.state same)
      | inr (ne, m) ↦ m ∙ s.closed n h
    ];
    topological = s.topological;
  }

  -- The search from `ns` enters `ns` in `t`, comes to `t'` when its dependencies are done, and
  -- leaves `ns`.
  module _ (ns : Namespace) (t t' : Traversal) (s : IsSearching t) (s' : IsSearching t')
      (fresh : t.state ns ≡ unvisited) (grown : IsGrown ns (enter t ns) t') where
    entered_other : (n : Namespace) → n ≢ ns → (enter t ns).state n ≡ t.state n
    unfolding enter
    entered_other n ne = elim (mark-cases t.state ns in_progress n) [
      | inl (same, m) ↦ absurd (ne same)
      | inr (other, m) ↦ m
    ]

    entered_self : t'.state ns ≡ in_progress
    entered_self = grown.busy_kept ns (
        unfold enter in
        elim (mark-cases t.state ns in_progress ns) [
          | inl (same, m) ↦ m
          | inr (other, m) ↦ absurd (other refl)
        ])

    popped : pop t'.stack ≡ t.stack
    popped = ap pop grown.same_stack ∙ unfold enter in pop-snoc t.stack ns

    pub leave-IsSearching :
        (ds : List Namespace)
        → resolver ns ≡ deps ds
        → AllOccur ds t'.order
        → IsSearching (leave t' ns)
    unfolding leave
    leave-IsSearching ds r all = record {
      chained = rw popped s.chained;
      stacked = λ n e. elim (mark-cases t'.state ns done n) [
        | inl (same, m) ↦ cc
        | inr (ne, m) ↦
            elim (Occurs-snoc n ns t.stack
              (unfold enter in subst (Occurs n) grown.same_stack (s'.stacked n (sym m ∙ e)))) [
                | inl same ↦ absurd (ne same)
                | inr h ↦ rw popped h
              ]
      ];
      ordered = λ n e. elim (mark-cases t'.state ns done n) [
        | inl (same, m) ↦
            subst (λ k. Occurs k (t'.order ++ (ns ∷ []))) (sym same) (Occurs-last ns t'.order)
        | inr (ne, m) ↦ Occurs-left n t'.order (ns ∷ []) (s'.ordered n (sym m ∙ e))
      ];
      closed = λ n h. elim (mark-cases t'.state ns done n) [
        | inl (same, m) ↦ m
        | inr (ne, m) ↦ elim (Occurs-snoc n ns t'.order h) [
          | inl same ↦ absurd (ne same)
          | inr k ↦ m ∙ s'.closed n k
        ]
      ];
      topological = extend s'.topological r all (λ k. cc (s'.closed ns k, entered_self)) refl;
    }

    pub leave-IsGrown : IsGrown ns t (leave t' ns)
    unfolding leave
    leave-IsGrown = record {
      same_stack = popped;
      done_kept = λ n e. elim (mark-cases t'.state ns done n) [
        | inl (same, m) ↦ m
        | inr (ne, m) ↦ m ∙ grown.done_kept n (entered_other n ne ∙ e)
      ];
      busy_kept = λ n e. elim (mark-cases t'.state ns done n) [
        | inl (same, m) ↦ cc (ap t.state same)
        | inr (ne, m) ↦ m ∙ grown.busy_kept n (entered_other n ne ∙ e)
      ];
      seen_kept = λ n e. elim (mark-cases t'.state ns done n) [
        | inl (same, m) ↦ cc
        | inr (ne, m) ↦ sym (entered_other n ne) ∙ grown.seen_kept n (sym m ∙ e)
      ];
      reached = λ n h. elim (Occurs-snoc n ns t'.order h) [
        | inl same ↦ inr (subst (Reaches resolver ns) (sym same) Reaches.here)
        | inr k ↦ unfold enter in grown.reached n k
      ];
    }

  pub leave-done : (t : Traversal) (ns : Namespace) → (leave t ns).state ns ≡ done
  unfolding leave
  leave-done t ns = elim (mark-cases t.state ns done ns) [
    | inl (same, m) ↦ m
    | inr (ne, m) ↦ absurd (ne refl)
  ]

  -- A search from a dependency of `ns`, and the loop over the others after it.
  pub IsGrown-trans :
      {ns d : Namespace} {t t' t'' : Traversal}
      → DependsOn resolver ns d
      → IsGrown d t t'
      → IsGrown ns t' t''
      → IsGrown ns t t''
  IsGrown-trans dep g h = record {
    same_stack = h.same_stack ∙ g.same_stack;
    done_kept = λ n e. h.done_kept n (g.done_kept n e);
    busy_kept = λ n e. h.busy_kept n (g.busy_kept n e);
    seen_kept = λ n e. g.seen_kept n (h.seen_kept n e);
    reached = λ n k. elim (h.reached n k) [
      | inr r ↦ inr r
      | inl k' ↦ elim (g.reached n k') [
        | inl k'' ↦ inl k''
        | inr r ↦ inr (Reaches-before resolver dep r)
      ]
    ];
  }
