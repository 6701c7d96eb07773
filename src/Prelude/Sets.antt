-- ===== src/Prelude/Sets.antt =====
-- A list of strings as a set, for Go's maps with no values and `slices.Contains`.
use mathlib.Core.Path.{◌≡◌, refl, sym, ◌∙◌, subst}
use mathlib.Core.Logic.{◌⊎◌, inl, inr}
use mathlib.Core.Bool.{Bool, true, false}
use mathlib.Core.List.{List, [], ◌∷◌}
use quiver_core.Prelude.Tests.{if◌then◌else◌, Bool-cases}
use quiver_core.Prelude.Text.{Str, str_eq, str_eq_iff}
use quiver_core.Prelude.Lists.{Occurs}

-- `slices.Contains`
unfoldable pub contains : List Str → Str → Bool
contains [] s = false
contains (x ∷ xs) s = if str_eq x s then true else contains xs s

-- A key of a map that is a set.
unfoldable pub put_new : Str → List Str → List Str
unfolding contains
put_new k names = if contains names k then names else k ∷ names

pub contains-Occurs : (xs : List Str) (s : Str) → contains xs s ≡ true → Occurs s xs
unfolding contains
contains-Occurs [] s h = cc
contains-Occurs (x ∷ xs) s h = elim (Bool-cases (str_eq x s)) [
  | inl e ↦ inl (sym ((str_eq_iff x s).0 e))
  | inr e ↦ inr (contains-Occurs xs s (sym (rw e refl) ∙ h))
]

pub Occurs-contains : (xs : List Str) (s : Str) → Occurs s xs → contains xs s ≡ true
unfolding contains
Occurs-contains [] s k = absurd k
Occurs-contains (x ∷ xs) s (inl e) = rw ((str_eq_iff x s).1 (sym e)) refl
Occurs-contains (x ∷ xs) s (inr k) = elim (Bool-cases (str_eq x s)) [
  | inl e ↦ rw e refl
  | inr e ↦ rw e (Occurs-contains xs s k)
]

pub put_new-Occurs : (k s : Str) (xs : List Str) → Occurs s (put_new k xs) → (s ≡ k) ⊎ Occurs s xs
unfolding put_new
put_new-Occurs k s xs = go (contains xs k)
  where
    go : (b : Bool) → Occurs s (if b then xs else k ∷ xs) → (s ≡ k) ⊎ Occurs s xs
    go true o = inr o
    go false o = o

pub Occurs-put_new : (k s : Str) (xs : List Str) → (s ≡ k) ⊎ Occurs s xs → Occurs s (put_new k xs)
unfolding put_new
Occurs-put_new k s xs how = go (contains xs k) refl how
  where
    go :
        (b : Bool) → contains xs k ≡ b → (s ≡ k) ⊎ Occurs s xs → Occurs s (if b then xs else k ∷ xs)
    go true e (inl same) = subst (λ u. Occurs u xs) (sym same) (contains-Occurs xs k e)
    go true e (inr o) = o
    go false e o = o
