-- ===== src/Runtime/Recovery/Collected.antt =====
-- internal/app/repositories/runtime/internal/recovery.go: the namespaces that a recovery goes through.
use quiver_core.Prelude.{
  contains, contains-Occurs, Occurs-contains, append-Occurs, Occurs, Bool, true, false, Option,
  some, List, [], ◌∷◌, ◌++◌, str_eq, str_eq_iff, if◌then◌else◌, Bool-cases, ◌≡◌, ◌⊎◌, inl, inr,
  refl, sym, ◌∙◌, subst,
}
use quiver_core.Domain.Execution.{Namespace}
use quiver_core.Runtime.Recovery.{
  add, add_all, add_versions, views_or, listed_or, collect_recovery_namespaces,
}

-- Each namespace once.
abbrev pub IsOnce : List Namespace → Type 0
IsOnce [] = Unit
IsOnce (ns ∷ rest) = (contains rest ns ≡ false) × IsOnce rest

contains_cons :
    (b : Bool) (m ns : Namespace) (out : List Namespace)
    → str_eq m ns ≡ b
    → contains (m ∷ out) ns ≡ (if b then true else contains out ns)
unfolding contains
contains_cons b m ns out e = rw e refl

IsOnce-append :
    (out : List Namespace) (ns : Namespace)
    → IsOnce out
    → contains out ns ≡ false
    → IsOnce (out ++ (ns ∷ []))
unfolding contains
IsOnce-append [] ns once new = (refl, tt)
IsOnce-append (m ∷ out) ns (fresh, once) new = elim (Bool-cases (str_eq m ns)) [
  | inl e ↦ cc (sym (contains_cons true m ns out e) ∙ new)
  | inr e ↦
      let new_later : contains out ns ≡ false = sym (contains_cons false m ns out e) ∙ new in
      let fresh_later : contains (out ++ (ns ∷ [])) m ≡ false =
        elim (Bool-cases (contains (out ++ (ns ∷ [])) m)) [
          | inr missing ↦ missing
          | inl held ↦
              elim (append-Occurs m out (ns ∷ []) (contains-Occurs (out ++ (ns ∷ [])) m held)) [
                | inl o ↦ cc (fresh, Occurs-contains out m o)
                | inr (inl same) ↦ cc (e, (str_eq_iff m ns).1 same)
                | inr (inr k) ↦ absurd k
              ]
        ] in
      (fresh_later, IsOnce-append out ns once new_later)
]

add-IsOnce : (out : List Namespace) (ns : Namespace) → IsOnce out → IsOnce (add out ns)
unfolding add
add-IsOnce out ns once = go (contains out ns) refl
  where
    go : (b : Bool) → contains out ns ≡ b → IsOnce (if b then out else out ++ (ns ∷ []))
    go true e = once
    go false e = IsOnce-append out ns once e

add_all-IsOnce : (out more : List Namespace) → IsOnce out → IsOnce (add_all out more)
unfolding add_all
add_all-IsOnce out [] once = once
add_all-IsOnce out (ns ∷ more) once = add_all-IsOnce (add out ns) more (add-IsOnce out ns once)

add_versions-IsOnce :
    (out : List Namespace) (views : List (List Namespace))
    → IsOnce out
    → IsOnce (add_versions out views)
unfolding add_versions
add_versions-IsOnce out [] once = once
add_versions-IsOnce out (versions ∷ views) once =
    add_versions-IsOnce (add_all out versions) views (add_all-IsOnce out versions once)

pub collect-IsOnce :
    (arrows : Option (List (List Namespace))) (aggregates : Option (List Namespace))
    → IsOnce (collect_recovery_namespaces arrows aggregates)
unfolding collect_recovery_namespaces
collect-IsOnce arrows aggregates =
    add_all-IsOnce (add_versions [] (views_or arrows)) (listed_or aggregates)
      (add_versions-IsOnce [] (views_or arrows) tt)

Occurs-append_left : {A : Type 0} (x : A) (xs ys : List A) → Occurs x xs → Occurs x (xs ++ ys)
Occurs-append_left x [] ys k = absurd k
Occurs-append_left x (y ∷ xs) ys (inl e) = inl e
Occurs-append_left x (y ∷ xs) ys (inr k) = inr (Occurs-append_left x xs ys k)

Occurs-append_last : {A : Type 0} (x : A) (xs : List A) → Occurs x (xs ++ (x ∷ []))
Occurs-append_last x [] = inl refl
Occurs-append_last x (y ∷ xs) = inr (Occurs-append_last x xs)

Occurs-add :
    (x ns : Namespace) (out : List Namespace) → (x ≡ ns) ⊎ Occurs x out → Occurs x (add out ns)
unfolding add
Occurs-add x ns out how = go (contains out ns) refl how
  where
    go :
        (b : Bool)
        → contains out ns ≡ b
        → (x ≡ ns) ⊎ Occurs x out
        → Occurs x (if b then out else out ++ (ns ∷ []))
    go true e (inl same) = subst (λ n. Occurs n out) (sym same) (contains-Occurs out ns e)
    go true e (inr o) = o
    go false e (inl same) =
        subst (λ n. Occurs n (out ++ (ns ∷ []))) (sym same) (Occurs-append_last ns out)
    go false e (inr o) = Occurs-append_left x out (ns ∷ []) o

Occurs-add_all :
    (x : Namespace) (out more : List Namespace)
    → Occurs x out ⊎ Occurs x more
    → Occurs x (add_all out more)
unfolding add_all
Occurs-add_all x out [] (inl o) = o
Occurs-add_all x out (ns ∷ more) (inl o) =
    Occurs-add_all x (add out ns) more (inl (Occurs-add x ns out (inr o)))
Occurs-add_all x out (ns ∷ more) (inr (inl e)) =
    Occurs-add_all x (add out ns) more (inl (Occurs-add x ns out (inl e)))
Occurs-add_all x out (ns ∷ more) (inr (inr o)) = Occurs-add_all x (add out ns) more (inr o)
Occurs-add_all x out [] (inr k) = absurd k

-- An aggregate that the event store lists is taken.
pub Occurs-collect :
    (x : Namespace) (arrows : Option (List (List Namespace))) (aggregates : List Namespace)
    → Occurs x aggregates
    → Occurs x (collect_recovery_namespaces arrows (some aggregates))
unfolding collect_recovery_namespaces listed_or
Occurs-collect x arrows aggregates k =
    Occurs-add_all x (add_versions [] (views_or arrows)) aggregates (inr k)
