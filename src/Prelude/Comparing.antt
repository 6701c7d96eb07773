-- ===== src/Prelude/Comparing.antt =====
-- Three-way comparisons, such as Go's `cmp.Compare`, and a sort by one.
use Prim.Native.Nat.{compare, Ordering, lt, eq, gt}
use mathlib.Core.Path.{◌≡◌, refl, sym, ap, ◌∙◌}
use mathlib.Core.Logic.{◌≢◌}
use mathlib.Core.List.{[], ◌∷◌}
use native.Mathlib.Omega.{arith}
use quiver_core.Prelude.Text.{Str}
use quiver_core.Prelude.Integer.{ℤ, pos, negsuc}

unfoldable pub flip : Ordering → Ordering
flip lt = gt
flip eq = eq
flip gt = lt

-- `if c := o; c != 0 { return c }; return p`
unfoldable pub or_else : Ordering → Ordering → Ordering
or_else eq p = p
or_else lt p = lt
or_else gt p = gt

-- A comparison that agrees with a total order: equal values are those that compare alike.
pub record IsComparator {A : Type 0} (f : A → A → Ordering) : Type 0 where
  pub swap : (a b : A) → f b a ≡ flip (f a b)
  pub lt_trans : (a b c : A) → f a b ≡ lt → f b c ≡ lt → f a c ≡ lt
  pub eq_left : (a b c : A) → f a b ≡ eq → f a c ≡ f b c

flip-flip : (o : Ordering) → flip (flip o) ≡ o
unfolding flip
flip-flip lt = refl
flip-flip eq = refl
flip-flip gt = refl

module _ {A : Type 0} {f : A → A → Ordering} (c : IsComparator f) where
  pub eq_right : (x y z : A) → f y z ≡ eq → f x y ≡ f x z
  eq_right x y z e = c.swap y x ∙ ap flip (c.eq_left y z x e) ∙ sym (c.swap z x)

  -- `a` may stand before `b`.
  pub le_trans : (x y z : A) → f x y ≢ gt → f y z ≢ gt → f x z ≢ gt
  le_trans x y z p q = go (f x y) (f y z) refl refl
    where
      go : (o r : Ordering) → f x y ≡ o → f y z ≡ r → f x z ≢ gt
      go lt lt d e h = cc (h, c.lt_trans x y z d e)
      go lt eq d e h = cc (h, d, eq_right x y z e)
      go eq r d e h = q (sym (c.eq_left x y z d) ∙ h)
      go lt gt d e h = q e
      go gt r d e h = p d

  -- Of two values, one may stand before the other.
  pub le_total : (x y : A) → f x y ≡ gt → f y x ≢ gt
  unfolding flip
  le_total x y e h = cc (h, e, c.swap x y)

module _ {A B : Type 0} (key : A → B) (f : B → B → Ordering) where
  abbrev pub by_key : A → A → Ordering
  by_key a b = f (key a) (key b)

  pub by_key-IsComparator : IsComparator f → IsComparator by_key
  by_key-IsComparator c = record {
    swap = λ a b. c.swap (key a) (key b);
    lt_trans = λ a b d. c.lt_trans (key a) (key b) (key d);
    eq_left = λ a b d. c.eq_left (key a) (key b) (key d);
  }

-- The other way round.
abbrev pub reversed : {A : Type 0} → (A → A → Ordering) → A → A → Ordering
reversed f a b = f b a

pub reversed-IsComparator :
    {A : Type 0} {f : A → A → Ordering} → IsComparator f → IsComparator (reversed f)
unfolding flip
reversed-IsComparator {f = f} c = record {
  swap = λ a b. c.swap b a;
  lt_trans = λ a b d p q. c.lt_trans d b a q p;
  eq_left = λ a b d e. eq_right c d a b (c.swap b a ∙ ap flip e);
}

-- The first comparison decides, and the second one where it finds two values alike.
abbrev pub then_by : {A : Type 0} → (A → A → Ordering) → (A → A → Ordering) → A → A → Ordering
then_by f g a b = or_else (f a b) (g a b)

flip-or_else : (o p : Ordering) → flip (or_else o p) ≡ or_else (flip o) (flip p)
unfolding flip or_else
flip-or_else lt p = refl
flip-or_else eq p = refl
flip-or_else gt p = refl

module _ {A : Type 0} {f g : A → A → Ordering} (c : IsComparator f) (d : IsComparator g) where
  then_by_lt :
      (x y z : A) (o p : Ordering)
      → f x y ≡ o
      → f y z ≡ p
      → or_else o (g x y) ≡ lt
      → or_else p (g y z) ≡ lt
      → or_else (f x z) (g x z) ≡ lt
  unfolding or_else
  then_by_lt x y z lt lt a b h k = rw (c.lt_trans x y z a b) refl
  then_by_lt x y z lt eq a b h k = rw (sym (eq_right c x y z b), a) refl
  then_by_lt x y z eq lt a b h k = rw (c.eq_left x y z a, b) refl
  then_by_lt x y z eq eq a b h k = rw (c.eq_left x y z a, b) (d.lt_trans x y z h k)
  then_by_lt x y z lt gt a b h k = cc
  then_by_lt x y z eq gt a b h k = cc
  then_by_lt x y z gt p a b h k = cc

  then_by_eq :
      (x y z : A) (o : Ordering)
      → f x y ≡ o
      → or_else o (g x y) ≡ eq
      → or_else (f x z) (g x z) ≡ or_else (f y z) (g y z)
  unfolding or_else
  then_by_eq x y z eq a h = rw (c.eq_left x y z a, d.eq_left x y z h) refl
  then_by_eq x y z lt a h = cc
  then_by_eq x y z gt a h = cc

  pub then_by-IsComparator : IsComparator (then_by f g)
  then_by-IsComparator = record {
    swap = λ x y.
        ap (λ o. or_else o (g y x)) (c.swap x y)
        ∙ ap (or_else (flip (f x y))) (d.swap x y)
        ∙ sym (flip-or_else (f x y) (g x y));
    lt_trans = λ x y z h k. then_by_lt x y z (f x y) (f y z) refl refl h k;
    eq_left = λ x y z h. then_by_eq x y z (f x y) refl h;
  }

pub compare-IsComparator : IsComparator compare
unfolding flip
compare-IsComparator = record {
  swap = λ a b. ground arith;
  lt_trans = λ a b c h k. ground arith;
  eq_left = λ a b c h. ground arith;
}

-- `strings.Compare`
unfoldable pub compare_str : Str → Str → Ordering
unfolding or_else
compare_str [] [] = eq
compare_str [] (d ∷ t) = lt
compare_str (c ∷ s) [] = gt
compare_str (c ∷ s) (d ∷ t) = or_else (compare c d) (compare_str s t)

pub compare_str-eq : (s t : Str) → compare_str s t ≡ eq → s ≡ t
unfolding compare_str or_else
compare_str-eq [] [] h = refl
compare_str-eq [] (d ∷ t) h = cc
compare_str-eq (c ∷ s) [] h = cc
compare_str-eq (c ∷ s) (d ∷ t) h = ground (arith, compare_str-eq s t)

compare_str-swap : (s t : Str) → compare_str t s ≡ flip (compare_str s t)
unfolding compare_str or_else flip
compare_str-swap [] [] = refl
compare_str-swap [] (d ∷ t) = refl
compare_str-swap (c ∷ s) [] = refl
compare_str-swap (c ∷ s) (d ∷ t) = ground (arith, compare_str-swap s t)

compare_str_trans :
    (s t u : Str) → compare_str s t ≡ lt → compare_str t u ≡ lt → compare_str s u ≡ lt
unfolding compare_str or_else
compare_str_trans [] (d ∷ t) [] h k = cc
compare_str_trans [] (d ∷ t) (e ∷ u) h k = refl
compare_str_trans (c ∷ s) (d ∷ t) (e ∷ u) h k = ground (arith, compare_str_trans s t u)
compare_str_trans (c ∷ s) (d ∷ t) [] h k = cc
compare_str_trans [] [] u h k = cc
compare_str_trans (c ∷ s) [] u h k = cc

pub compare_str-IsComparator : IsComparator compare_str
compare_str-IsComparator = record {
  swap = compare_str-swap;
  lt_trans = compare_str_trans;
  eq_left = λ s t u e. ap (λ r. compare_str r u) (compare_str-eq s t e);
}

-- `cmp.Compare` of two ints.
unfoldable pub compare_int : ℤ → ℤ → Ordering
compare_int (pos a) (pos b) = compare a b
compare_int (pos a) (negsuc b) = gt
compare_int (negsuc a) (pos b) = lt
compare_int (negsuc a) (negsuc b) = compare b a

compare_int-swap : (a b : ℤ) → compare_int b a ≡ flip (compare_int a b)
unfolding compare_int flip
compare_int-swap (pos a) (pos b) = ground arith
compare_int-swap (pos a) (negsuc b) = refl
compare_int-swap (negsuc a) (pos b) = refl
compare_int-swap (negsuc a) (negsuc b) = ground arith

compare_int_trans : (a b c : ℤ) → compare_int a b ≡ lt → compare_int b c ≡ lt → compare_int a c ≡ lt
unfolding compare_int
compare_int_trans (pos a) (pos b) (pos c) h k = ground arith
compare_int_trans (pos a) (pos b) (negsuc c) h k = cc
compare_int_trans (pos a) (negsuc b) c h k = cc
compare_int_trans (negsuc a) (pos b) (pos c) h k = refl
compare_int_trans (negsuc a) (pos b) (negsuc c) h k = cc
compare_int_trans (negsuc a) (negsuc b) (pos c) h k = refl
compare_int_trans (negsuc a) (negsuc b) (negsuc c) h k = ground arith

compare_int_alike : (a b c : ℤ) → compare_int a b ≡ eq → compare_int a c ≡ compare_int b c
unfolding compare_int
compare_int_alike (pos a) (pos b) c h = let e : a ≡ b = ground arith in rw e refl
compare_int_alike (pos a) (negsuc b) c h = cc
compare_int_alike (negsuc a) (pos b) c h = cc
compare_int_alike (negsuc a) (negsuc b) c h = let e : a ≡ b = ground arith in rw e refl

pub compare_int-IsComparator : IsComparator compare_int
compare_int-IsComparator = record {
  swap = compare_int-swap;
  lt_trans = compare_int_trans;
  eq_left = compare_int_alike;
}
