-- ===== src/Prelude/Lists.antt =====
-- Lists measured and indexed by native numbers, under the library's names.
use Prim.Native.Nat.{◌≤◌, ◌<◌, ℕ, zero, suc, ◌+◌, min}
use mathlib.Core.Bool.{Bool, true, false}
use mathlib.Core.Path.{◌≡◌, refl, ap, sym, subst, ◌∙◌}
use mathlib.Core.Logic.{◌⊎◌, inl, inr}
use mathlib.Core.List.{List, [], ◌∷◌, ◌++◌, map}
use mathlib.Core.Option.{Option, none, some}
use quiver_core.Prelude.Tests.{if◌then◌else◌, ◌==◌, Bool-cases}
use native.Mathlib.Omega.{arith}

-- The library's `Option.map`, open to computation.
abbrev pub map_option {ℓ κ} : {A : Type ℓ} {B : Type κ} → (A → B) → Option A → Option B
map_option f none = none
map_option f (some a) = some (f a)

module _ {ℓ} {A : Type ℓ} where
  abbrev pub length : List A → ℕ
  length [] = 0
  length (x ∷ xs) = suc (length xs)

  abbrev pub get_elem? : List A → ℕ → Option A
  get_elem? [] i = none
  get_elem? (x ∷ xs) zero = some x
  get_elem? (x ∷ xs) (suc i) = get_elem? xs i

  abbrev pub take : ℕ → List A → List A
  take zero xs = []
  take (suc n) [] = []
  take (suc n) (x ∷ xs) = x ∷ take n xs

  abbrev pub drop : ℕ → List A → List A
  drop zero xs = xs
  drop (suc n) [] = []
  drop (suc n) (x ∷ xs) = drop n xs

  -- The element at an index replaced by its image; nothing changes out of bounds.
  abbrev pub modify : List A → ℕ → (A → A) → List A
  modify [] i f = []
  modify (x ∷ xs) zero f = f x ∷ xs
  modify (x ∷ xs) (suc i) f = x ∷ modify xs i f

module _ {ℓ} {A : Type ℓ} where
  pub length-append : (xs ys : List A) → length (xs ++ ys) ≡ length xs + length ys
  length-append [] ys = omega arith
  length-append (x ∷ xs) ys = omega (arith, length-append xs ys)

  pub length-modify : (xs : List A) (i : ℕ) (f : A → A) → length (modify xs i f) ≡ length xs
  length-modify [] i f = refl
  length-modify (x ∷ xs) zero f = refl
  length-modify (x ∷ xs) (suc i) f = ap suc (length-modify xs i f)

  -- What stands at each index of a modified list.
  pub get_elem?-modify :
      (xs : List A) (i j : ℕ) (f : A → A)
      → get_elem? (modify xs i f) j
        ≡ (if i == j then map_option f (get_elem? xs j) else get_elem? xs j)
  get_elem?-modify [] i j f = ground arith
  get_elem?-modify (x ∷ xs) zero zero f = refl
  get_elem?-modify (x ∷ xs) zero (suc j) f = ground arith
  get_elem?-modify (x ∷ xs) (suc i) zero f = ground arith
  get_elem?-modify (x ∷ xs) (suc i) (suc j) f = ground (arith, get_elem?-modify xs i j f)

-- `x` stands in a list, with the place where it does.
abbrev pub Occurs : {A : Type 0} → A → List A → Type 0
Occurs x [] = ⊥
Occurs x (y ∷ ys) = (x ≡ y) ⊎ Occurs x ys

module _ {ℓ} {A : Type ℓ} where
  -- The elements that pass a test, in order.
  abbrev pub keep : (A → Bool) → List A → List A
  keep p [] = []
  keep p (x ∷ xs) = if p x then x ∷ keep p xs else keep p xs

  pub keep-append : (p : A → Bool) (xs ys : List A) → keep p (xs ++ ys) ≡ keep p xs ++ keep p ys
  keep-append p [] ys = refl
  keep-append p (x ∷ xs) ys = ground (arith, keep-append p xs ys)

  pub length-take : (n : ℕ) (xs : List A) → length (take n xs) ≡ min n (length xs)
  length-take zero xs = omega arith
  length-take (suc n) [] = omega arith
  length-take (suc n) (x ∷ xs) = omega (arith, length-take n xs)

  pub drop-cons :
      (xs : List A) (i : ℕ) {x : A} → get_elem? xs i ≡ some x → drop i xs ≡ x ∷ drop (suc i) xs
  drop-cons [] i h = cc
  drop-cons (x ∷ xs) zero h = ground arith
  drop-cons (x ∷ xs) (suc i) h = drop-cons xs i h

  pub drop-length : (xs : List A) (i : ℕ) → length xs ≤ i → drop i xs ≡ []
  drop-length [] zero h = refl
  drop-length [] (suc i) h = refl
  drop-length (x ∷ xs) zero h = absurd (omega arith)
  drop-length (x ∷ xs) (suc i) h = drop-length xs i (omega arith)

  pub drop-append : (xs ys : List A) (i : ℕ) → i ≤ length xs → drop i (xs ++ ys) ≡ drop i xs ++ ys
  drop-append xs ys zero h = refl
  drop-append [] ys (suc i) h = absurd (omega arith)
  drop-append (x ∷ xs) ys (suc i) h = drop-append xs ys i (omega arith)

  pub get_elem?-append_left :
      (xs ys : List A) (i : ℕ) → i < length xs → get_elem? (xs ++ ys) i ≡ get_elem? xs i
  get_elem?-append_left [] ys i h = absurd (omega arith)
  get_elem?-append_left (x ∷ xs) ys zero h = refl
  get_elem?-append_left (x ∷ xs) ys (suc i) h = get_elem?-append_left xs ys i (omega arith)

  pub get_elem?-append_last :
      (xs : List A) (y : A) → get_elem? (xs ++ (y ∷ [])) (length xs) ≡ some y
  get_elem?-append_last [] y = refl
  get_elem?-append_last (x ∷ xs) y = get_elem?-append_last xs y

  pub get_elem?-map :
      {B : Type 0} (f : A → B) (xs : List A) (i : ℕ)
      → get_elem? (map f xs) i ≡ map_option f (get_elem? xs i)
  get_elem?-map f [] i = refl
  get_elem?-map f (x ∷ xs) zero = refl
  get_elem?-map f (x ∷ xs) (suc i) = get_elem?-map f xs i

  pub lt_of_get_elem? : (xs : List A) (i : ℕ) {x : A} → get_elem? xs i ≡ some x → i < length xs
  lt_of_get_elem? [] i h = cc
  lt_of_get_elem? (x ∷ xs) zero h = omega arith
  lt_of_get_elem? (x ∷ xs) (suc i) h = omega (arith, lt_of_get_elem? xs i h)

  -- Equal lists that end in parts of one length end in the same part.
  pub suffix_eq : (xs ys s t : List A) → length s ≡ length t → xs ++ s ≡ ys ++ t → s ≡ t
  suffix_eq [] [] s t l e = e
  suffix_eq [] (y ∷ ys) s t l e = absurd (omega (arith, l, ap length e, length-append (y ∷ ys) t))
  suffix_eq (x ∷ xs) [] s t l e = absurd (omega (arith, l, ap length e, length-append (x ∷ xs) s))
  suffix_eq (x ∷ xs) (y ∷ ys) s t l e = suffix_eq xs ys s t l (ap (drop 1) e)

-- What is kept of a list stands in it and passes the test, and the other way round.
module _ {A : Type 0} (p : A → Bool) where
  keep_passed : (y : A) (xs : List A) → p y ≡ true → keep p (y ∷ xs) ≡ y ∷ keep p xs
  keep_passed y xs e = rw e refl

  keep_failed : (y : A) (xs : List A) → p y ≡ false → keep p (y ∷ xs) ≡ keep p xs
  keep_failed y xs e = rw e refl

  pub keep-Occurs : (x : A) (xs : List A) → Occurs x (keep p xs) → Occurs x xs × (p x ≡ true)
  keep-Occurs x [] h = absurd h
  keep-Occurs x (y ∷ xs) h = elim (Bool-cases (p y)) [
    | inl e ↦ elim (subst (Occurs x) (keep_passed y xs e) h) [
      | inl same ↦ (inl same, ap p same ∙ e)
      | inr k ↦ let (o, q) = keep-Occurs x xs k in (inr o, q)
    ]
    | inr e ↦ let (o, q) = keep-Occurs x xs (subst (Occurs x) (keep_failed y xs e) h) in (inr o, q)
  ]

  pub Occurs-keep : (x : A) (xs : List A) → Occurs x xs → p x ≡ true → Occurs x (keep p xs)
  Occurs-keep x [] k h = absurd k
  Occurs-keep x (y ∷ xs) (inl e) h =
      subst (Occurs x) (sym (keep_passed y xs (sym (ap p e) ∙ h))) (inl e)
  Occurs-keep x (y ∷ xs) (inr k) h = elim (Bool-cases (p y)) [
    | inl e ↦ subst (Occurs x) (sym (keep_passed y xs e)) (inr (Occurs-keep x xs k h))
    | inr e ↦ subst (Occurs x) (sym (keep_failed y xs e)) (Occurs-keep x xs k h)
  ]

-- What stands in an image or in one of two lists.
pub append-Occurs :
    {A : Type 0} (x : A) (xs ys : List A) → Occurs x (xs ++ ys) → Occurs x xs ⊎ Occurs x ys
append-Occurs x [] ys h = inr h
append-Occurs x (z ∷ xs) ys (inl e) = inl (inl e)
append-Occurs x (z ∷ xs) ys (inr h) = elim (append-Occurs x xs ys h) [
  | inl o ↦ inl (inr o)
  | inr o ↦ inr o
]

pub map-Occurs :
    {A B : Type 0} (f : A → B) (b : B) (xs : List A)
    → Occurs b (map f xs)
    → (a : A) × Occurs a xs × (b ≡ f a)
map-Occurs f b [] h = absurd h
map-Occurs f b (x ∷ xs) (inl e) = (x, inl refl, e)
map-Occurs f b (x ∷ xs) (inr h) = let (a, o, e) = map-Occurs f b xs h in (a, inr o, e)

pub Occurs-map :
    {A B : Type 0} (f : A → B) (a : A) (xs : List A) → Occurs a xs → Occurs (f a) (map f xs)
Occurs-map f a [] h = absurd h
Occurs-map f a (x ∷ xs) (inl e) = inl (ap f e)
Occurs-map f a (x ∷ xs) (inr h) = inr (Occurs-map f a xs h)

-- The first element that passes a test.
module _ {A : Type 0} (p : A → Bool) where
  unfoldable pub find_first : List A → Option A
  find_first [] = none
  find_first (x ∷ xs) = let rest = find_first xs in if p x then some x else rest

  find_first_cons :
      (b : Bool) (x : A) (xs : List A)
      → p x ≡ b
      → find_first (x ∷ xs) ≡ (if b then some x else find_first xs)
  unfolding find_first
  find_first_cons b x xs e = rw e refl

  pub find_first-Occurs :
      (x : A) (xs : List A) → find_first xs ≡ some x → Occurs x xs × (p x ≡ true)
  find_first-Occurs x [] h = unfold find_first in cc
  find_first-Occurs x (y ∷ xs) h = elim (Bool-cases (p y)) [
    | inl e ↦
        let same : y ≡ x = cc (sym (find_first_cons true y xs e) ∙ h) in
        (inl (sym same), ap p (sym same) ∙ e)
    | inr e ↦
        let (o, q) = find_first-Occurs x xs (sym (find_first_cons false y xs e) ∙ h) in (inr o, q)
  ]

  pub Occurs-find_first :
      (x : A) (xs : List A) → Occurs x xs → p x ≡ true → (y : A) × (find_first xs ≡ some y)
  Occurs-find_first x [] k h = absurd k
  Occurs-find_first x (y ∷ xs) k h = elim (Bool-cases (p y)) [
    | inl e ↦ (y, find_first_cons true y xs e)
    | inr e ↦ elim k [
      | inl same ↦ cc (e, h, ap p same)
      | inr o ↦ let (z, q) = Occurs-find_first x xs o h in (z, find_first_cons false y xs e ∙ q)
    ]
  ]
