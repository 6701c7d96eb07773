-- ===== src/Prelude/Sorting.antt =====
-- A sort by a comparison, for the sorts of Go's package slices.
use Prim.Native.Nat.{Ordering, lt, eq, gt}
use mathlib.Core.Path.{◌≡◌, refl, sym, ap, subst}
use mathlib.Core.Logic.{◌≢◌, ◌⊎◌, inl, inr}
use mathlib.Core.List.{List, [], ◌∷◌}
use quiver_core.Prelude.Lists.{Occurs}
use quiver_core.Prelude.Comparing.{IsComparator, flip, le_trans, le_total}

module _ {A : Type 0} (f : A → A → Ordering) where
  -- What follows the comparison of the new value and the first of the list.
  abbrev place : Ordering → A → A → List A → List A → List A
  place gt x y ys rest = y ∷ rest
  place lt x y ys rest = x ∷ y ∷ ys
  place eq x y ys rest = x ∷ y ∷ ys

  unfoldable pub insert_by : A → List A → List A
  insert_by x [] = x ∷ []
  insert_by x (y ∷ ys) = place (f x y) x y ys (insert_by x ys)

  -- Where the comparison is a total order, a list has one sorted order, which any sort gives.
  unfoldable pub sort_by : List A → List A
  unfolding insert_by
  sort_by [] = []
  sort_by (x ∷ xs) = insert_by x (sort_by xs)

  -- A value may stand before all values of a list.
  abbrev pub Heads : A → List A → Type 0
  Heads x [] = Unit
  Heads x (y ∷ ys) = (f x y ≢ gt) × Heads x ys

  abbrev pub IsSorted : List A → Type 0
  IsSorted [] = Unit
  IsSorted (x ∷ xs) = Heads x xs × IsSorted xs

  place-Occurs :
      (o : Ordering) (z x y : A) (ys rest : List A)
      → (Occurs z rest → (z ≡ x) ⊎ Occurs z ys)
      → Occurs z (place o x y ys rest)
      → (z ≡ x) ⊎ Occurs z (y ∷ ys)
  place-Occurs lt z x y ys rest ih h = h
  place-Occurs eq z x y ys rest ih h = h
  place-Occurs gt z x y ys rest ih (inl e) = inr (inl e)
  place-Occurs gt z x y ys rest ih (inr h) = elim (ih h) [ inl e ↦ inl e | inr k ↦ inr (inr k) ]

  insert_by-Occurs : (z x : A) (xs : List A) → Occurs z (insert_by x xs) → (z ≡ x) ⊎ Occurs z xs
  unfolding insert_by
  insert_by-Occurs z x [] h = h
  insert_by-Occurs z x (y ∷ ys) h =
      place-Occurs (f x y) z x y ys (insert_by x ys) (insert_by-Occurs z x ys) h

  Occurs-place :
      (o : Ordering) (z x y : A) (ys rest : List A)
      → ((z ≡ x) ⊎ Occurs z ys → Occurs z rest)
      → (z ≡ x) ⊎ Occurs z (y ∷ ys)
      → Occurs z (place o x y ys rest)
  Occurs-place lt z x y ys rest ih h = h
  Occurs-place eq z x y ys rest ih h = h
  Occurs-place gt z x y ys rest ih (inl e) = inr (ih (inl e))
  Occurs-place gt z x y ys rest ih (inr (inl e)) = inl e
  Occurs-place gt z x y ys rest ih (inr (inr h)) = inr (ih (inr h))

  Occurs-insert_by : (z x : A) (xs : List A) → (z ≡ x) ⊎ Occurs z xs → Occurs z (insert_by x xs)
  unfolding insert_by
  Occurs-insert_by z x [] h = h
  Occurs-insert_by z x (y ∷ ys) h =
      Occurs-place (f x y) z x y ys (insert_by x ys) (Occurs-insert_by z x ys) h

  -- A sorted list has the values of the list, and no others.
  pub sort_by-Occurs : (z : A) (xs : List A) → Occurs z (sort_by xs) → Occurs z xs
  unfolding sort_by
  sort_by-Occurs z [] h = h
  sort_by-Occurs z (x ∷ xs) h = elim (insert_by-Occurs z x (sort_by xs) h) [
    | inl e ↦ inl e
    | inr k ↦ inr (sort_by-Occurs z xs k)
  ]

  pub Occurs-sort_by : (z : A) (xs : List A) → Occurs z xs → Occurs z (sort_by xs)
  unfolding sort_by
  Occurs-sort_by z [] h = h
  Occurs-sort_by z (x ∷ xs) (inl e) = Occurs-insert_by z x (sort_by xs) (inl e)
  Occurs-sort_by z (x ∷ xs) (inr h) =
      Occurs-insert_by z x (sort_by xs) (inr (Occurs-sort_by z xs h))

  Heads-all : (x : A) (ys : List A) → ((y : A) → Occurs y ys → f x y ≢ gt) → Heads x ys
  Heads-all x [] h = tt
  Heads-all x (y ∷ ys) h = (h y (inl refl), Heads-all x ys (λ z k. h z (inr k)))

  pub Heads-Occurs : (x : A) (ys : List A) → Heads x ys → (y : A) → Occurs y ys → f x y ≢ gt
  Heads-Occurs x (y ∷ ys) h z (inl e) = subst (λ k. f x k ≢ gt) (sym e) h.0
  Heads-Occurs x (y ∷ ys) h z (inr k) = Heads-Occurs x ys h.1 z k
  Heads-Occurs x [] h z k = absurd k

  module _ (c : IsComparator f) where
    Heads-before : (x y : A) (ys : List A) → f x y ≢ gt → Heads y ys → Heads x ys
    Heads-before x y ys le h = Heads-all x ys (λ z k. le_trans c x y z le (Heads-Occurs y ys h z k))

    place-IsSorted :
        (o : Ordering) (x y : A) (ys : List A)
        → f x y ≡ o
        → Heads y ys × IsSorted ys
        → IsSorted (insert_by x ys)
        → IsSorted (place o x y ys (insert_by x ys))
    place-IsSorted lt x y ys e s ih =
        let le : f x y ≢ gt = λ g. cc in ((le, Heads-before x y ys le s.0), s)
    place-IsSorted eq x y ys e s ih =
        let le : f x y ≢ gt = λ g. cc in ((le, Heads-before x y ys le s.0), s)
    place-IsSorted gt x y ys e s ih = (
      Heads-all y (insert_by x ys) (λ z k. elim (insert_by-Occurs z x ys k) [
        | inl same ↦ subst (λ v. f y v ≢ gt) (sym same) (le_total c x y e)
        | inr old ↦ Heads-Occurs y ys s.0 z old
      ]),
      ih,
    )

    insert_by-IsSorted : (x : A) (xs : List A) → IsSorted xs → IsSorted (insert_by x xs)
    unfolding insert_by
    insert_by-IsSorted x [] s = (tt, tt)
    insert_by-IsSorted x (y ∷ ys) s =
        place-IsSorted (f x y) x y ys refl s (insert_by-IsSorted x ys s.1)

    pub sort_by-IsSorted : (xs : List A) → IsSorted (sort_by xs)
    unfolding sort_by
    sort_by-IsSorted [] = tt
    sort_by-IsSorted (x ∷ xs) = insert_by-IsSorted x (sort_by xs) (sort_by-IsSorted xs)

    -- The first of a sorted list may stand before every value of the list.
    pub sort_by-first :
        (xs ys : List A) (y : A)
        → sort_by xs ≡ y ∷ ys
        → Occurs y xs × ((z : A) → Occurs z xs → f y z ≢ gt)
    unfolding flip
    sort_by-first xs ys y e = (
      sort_by-Occurs y xs (subst (Occurs y) (sym e) (inl refl)),
      λ z k. elim (subst (Occurs z) e (Occurs-sort_by z xs k)) [
        | inl same ↦ λ g. cc (g, ap (f y) same, c.swap y y)
        | inr later ↦ Heads-Occurs y ys (subst IsSorted e (sort_by-IsSorted xs)).0 z later
      ],
    )
