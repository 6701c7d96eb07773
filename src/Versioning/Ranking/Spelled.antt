-- ===== src/Versioning/Ranking/Spelled.antt =====
-- The stable versions of internal/engine/manifold/resolver/resolvers/constraint.go, as they are spelled.
use quiver_core.Prelude.{
  ℕ, ltb, ◌==◌, ==_iff, Bool, true, false, ◌&&◌, ◌||◌, some, List, [], ◌∷◌, ◌++◌, Str, has_byte,
  split, join, join-split, split-append, split_absent, length, get_elem?, ℤ, pos, gt, compare_int,
  or_else, if◌then◌else◌, Bool-cases, ◌≡◌, ◌≢◌, inl, inr, refl, sym, ap, ◌∙◌, subst, arith,
}
use quiver_core.Versioning.Number.{
  Atoi, number, error_with, atoi, atoi_value, Core, part_value, trim_v, semver_parts, is_component,
  all_components, is_stable_semver, compare_cores,
}
use quiver_core.Versioning.Ranking.Spelling.{
  dot, AreDigits, IsNumeral, IsNumber, IsVersion, Spells, SpellsSome, IsAtMost, atoi-IsNumber,
  IsNumber-atoi,
}

AreDigits-dot : (s : Str) → AreDigits s → has_byte s dot ≡ false
unfolding has_byte
AreDigits-dot [] h = refl
AreDigits-dot (c ∷ s) (low, high, h) = ground (arith, AreDigits-dot s h)

IsNumeral-dot : (s : Str) (n : ℕ) → IsNumeral s n → has_byte s dot ≡ false
IsNumeral-dot [] n h = absurd h
IsNumeral-dot (c ∷ s) n (digits, value) = AreDigits-dot (c ∷ s) digits

IsNumber-dot : (s : Str) (n : ℕ) → IsNumber s n → has_byte s dot ≡ false
unfolding has_byte
IsNumber-dot [] n h = absurd h
IsNumber-dot (c ∷ s) n (small, inl numeral) = IsNumeral-dot (c ∷ s) n numeral
IsNumber-dot (c ∷ s) n (small, inr (inl (e, numeral))) = ground (arith, IsNumeral-dot s n numeral)
IsNumber-dot (c ∷ s) n (small, inr (inr (e, numeral, zeros))) =
    ground (arith, IsNumeral-dot s n numeral)

trim_v-append : (p s : Str) (n : ℕ) → IsNumber p n → trim_v (p ++ s) ≡ p ++ s
unfolding trim_v
trim_v-append [] s n h = absurd h
trim_v-append (c ∷ p) s n (small, inl ((low, high, digits), value)) =
    let e : (c == 118) ≡ false = ground arith in rw e refl
trim_v-append (c ∷ p) s n (small, inr (inl (sign, numeral))) =
    let e : (c == 118) ≡ false = ground arith in rw e refl
trim_v-append (c ∷ p) s n (small, inr (inr (sign, numeral, zeros))) =
    let e : (c == 118) ≡ false = ground arith in rw e refl

trim_v-IsVersion : (s : Str) (a b c : ℕ) → IsVersion s a b c → trim_v s ≡ s
trim_v-IsVersion s a b c (p, q, first, second, inl (e, no_third)) =
    subst (λ x. trim_v x ≡ x) (sym e) (trim_v-append p (dot ∷ q) a first)
trim_v-IsVersion s a b c (p, q, first, second, inr (r, third, e)) =
    subst (λ x. trim_v x ≡ x) (sym e) (trim_v-append p (dot ∷ (q ++ (dot ∷ r))) a first)

-- What is left of a tag that spells a version, without its `v`.
trimmed : (t : Str) (a b c : ℕ) → Spells t a b c → IsVersion (trim_v t) a b c
unfolding trim_v
trimmed t a b c (inl v) = subst (λ s. IsVersion s a b c) (sym (trim_v-IsVersion t a b c v)) v
trimmed t a b c (inr (s, e, v)) = subst (λ u. IsVersion (trim_v u) a b c) (sym e) v

Spells-trim_v : (t : Str) (a b c : ℕ) → IsVersion (trim_v t) a b c → Spells t a b c
unfolding trim_v
Spells-trim_v [] a b c v = inl v
Spells-trim_v (x ∷ t) a b c v = elim (Bool-cases (x == 118)) [
  | inl e ↦
      inr (t, ap (λ y. y ∷ t) ((==_iff x 118).0 e), subst (λ s. IsVersion s a b c) (rw e refl) v)
  | inr e ↦ inl (subst (λ s. IsVersion s a b c) (rw e refl) v)
]

-- The tests and the values of `is_stable_semver` and `semver_parts`, of the parts.
abbrev are_stable : List Str → Bool
are_stable parts =
    if ltb (length parts) 2 || ltb 3 (length parts) then false else all_components parts

abbrev core_of_parts : List Str → Core
core_of_parts parts = record {
  first = part_value (get_elem? parts 0);
  second = part_value (get_elem? parts 1);
  third = part_value (get_elem? parts 2);
  fourth = part_value (get_elem? parts 3);
}

abbrev pub natural_core : ℕ → ℕ → ℕ → Core
natural_core a b c = record { first = pos a; second = pos b; third = pos c; fourth = pos 0 }

part_value-IsNumber : (s : Str) (n : ℕ) → IsNumber s n → part_value (some s) ≡ pos n
unfolding part_value atoi_value
part_value-IsNumber s n h = ap value_of (atoi-IsNumber s n h)
  where
    value_of : Atoi → ℤ
    value_of (number k) = k
    value_of (error_with k) = k

is_component_natural : (n : ℕ) → is_component (number (pos n)) ≡ true
unfolding is_component
is_component_natural n = ground arith

component-IsNumber : (s : Str) (n : ℕ) → IsNumber s n → is_component (atoi s) ≡ true
component-IsNumber s n h = ap is_component (atoi-IsNumber s n h) ∙ is_component_natural n

-- The parts of a version.
parts_of :
    (s : Str) (a b c : ℕ)
    → IsVersion s a b c
    → (are_stable (split dot s) ≡ true) × (core_of_parts (split dot s) ≡ natural_core a b c)
unfolding all_components part_value
parts_of s a b c (p, q, first, second, inl (e, no_third)) =
    let parts : split dot s ≡ p ∷ q ∷ [] =
      ap (split dot) e
      ∙ split-append dot p q (IsNumber-dot p a first)
      ∙ ap (λ l. p ∷ l) (split_absent dot q (IsNumber-dot q b second)) in
    (
      ap are_stable parts ∙ rw (component-IsNumber p a first, component-IsNumber q b second) refl,
      ap core_of_parts parts
          ∙ rw (part_value-IsNumber p a first, part_value-IsNumber q b second, no_third) refl,
    )
parts_of s a b c (p, q, first, second, inr (r, third, e)) =
    let parts : split dot s ≡ p ∷ q ∷ r ∷ [] =
      ap (split dot) e
      ∙ split-append dot p (q ++ (dot ∷ r)) (IsNumber-dot p a first)
      ∙ ap (λ l. p ∷ l)
          (split-append dot q r (IsNumber-dot q b second)
            ∙ ap (λ l. q ∷ l) (split_absent dot r (IsNumber-dot r c third))) in
    (
      ap are_stable parts
          ∙ rw
              (
                component-IsNumber p a first,
                component-IsNumber q b second,
                component-IsNumber r c third,
              )
              refl,
      ap core_of_parts parts
          ∙ rw
              (
                part_value-IsNumber p a first,
                part_value-IsNumber q b second,
                part_value-IsNumber r c third,
              )
              refl,
    )

pub is_stable_semver-Spells : (t : Str) (a b c : ℕ) → Spells t a b c → is_stable_semver t ≡ true
unfolding is_stable_semver
is_stable_semver-Spells t a b c h = (parts_of (trim_v t) a b c (trimmed t a b c h)).0

pub semver_parts-Spells :
    (t : Str) (a b c : ℕ) → Spells t a b c → semver_parts t ≡ natural_core a b c
unfolding semver_parts
semver_parts-Spells t a b c h = (parts_of (trim_v t) a b c (trimmed t a b c h)).1

both : (x y : Bool) → (x && y) ≡ true → (x ≡ true) × (y ≡ true)
both x y h = (ground arith, ground arith)

four_parts : (p q r s : Str) (rest : List Str) → ltb 3 (length (p ∷ q ∷ r ∷ s ∷ rest)) ≡ true
four_parts p q r s rest = ground arith

too_many : (x y z : Bool) → y ≡ true → (if x || y then false else z) ≡ true → ⊥
too_many true y z e h = cc
too_many false true z e h = cc
too_many false false z e h = cc

IsVersion-are_stable :
    (parts : List Str)
    → are_stable parts ≡ true
    → (a : ℕ) × (b : ℕ) × (c : ℕ) × IsVersion (join dot parts) a b c
unfolding all_components join
IsVersion-are_stable [] h = cc
IsVersion-are_stable (p ∷ []) h = cc
IsVersion-are_stable (p ∷ q ∷ []) h =
    let (one, rest) = both (is_component (atoi p)) _ h in
    let (two, last) = both (is_component (atoi q)) _ rest in
    let (a, first) = IsNumber-atoi p one in
    let (b, second) = IsNumber-atoi q two in (a, b, 0, (p, q, first, second, inl (refl, refl)))
IsVersion-are_stable (p ∷ q ∷ r ∷ []) h =
    let (one, rest) = both (is_component (atoi p)) _ h in
    let (two, more) = both (is_component (atoi q)) _ rest in
    let (three, last) = both (is_component (atoi r)) _ more in
    let (a, first) = IsNumber-atoi p one in
    let (b, second) = IsNumber-atoi q two in
    let (c, third) = IsNumber-atoi r three in (a, b, c, (p, q, first, second, inr (r, third, refl)))
IsVersion-are_stable (p ∷ q ∷ r ∷ s ∷ rest) h = absurd (
    too_many (ltb (length (p ∷ q ∷ r ∷ s ∷ rest)) 2) (ltb 3 (length (p ∷ q ∷ r ∷ s ∷ rest))) _
      (four_parts p q r s rest) h)

pub SpellsSome-is_stable_semver : (t : Str) → is_stable_semver t ≡ true → SpellsSome t
unfolding is_stable_semver
SpellsSome-is_stable_semver t h =
    let (a, b, c, v) = IsVersion-are_stable (split dot (trim_v t)) h in
    (a, b, c, Spells-trim_v t a b c (subst (λ s. IsVersion s a b c) (join-split dot (trim_v t)) v))

pub IsAtMost-compare_cores :
    (a b c x y z : ℕ)
    → compare_cores (natural_core a b c) (natural_core x y z) ≢ gt
    → IsAtMost a b c x y z
unfolding compare_cores compare_int or_else
IsAtMost-compare_cores a b c x y z h = ground arith
