-- ===== src/Versioning/Ranking/Spelling.antt =====
-- How internal/engine/manifold/resolver/resolvers/constraint.go reads the numbers of a version.
use quiver_core.Prelude.{
  ℕ, ◌+◌, ◌-◌, ◌*◌, ◌^◌, ◌<◌, ◌≤◌, leb, ◌==◌, ==_iff, Bool, true, false, ◌&&◌, Option, none, some,
  [], ◌∷◌, ◌++◌, Str, pos, Bool-cases, Option-cases, ◌≡◌, ◌⊎◌, inl, inr, refl, ap, ◌∙◌, subst,
  arith,
}
use quiver_core.Versioning.Pattern.{is_digit}
use quiver_core.Versioning.Number.{number, read_digits, signed, unsigned_digits, atoi, is_component}

abbrev pub dot : ℕ
dot = 46

abbrev pub AreDigits : Str → Type 0
AreDigits [] = Unit
AreDigits (c ∷ s) = (48 ≤ c) × (c ≤ 57) × AreDigits s

-- The value of decimal digits that follow those of `n`.
abbrev pub decimal : ℕ → Str → ℕ
decimal n [] = n
decimal n (c ∷ s) = decimal (10 * n + (c - 48)) s

-- One or more decimal digits, of value `n`.
abbrev pub IsNumeral : Str → ℕ → Type 0
IsNumeral [] n = ⊥
IsNumeral (c ∷ s) n = AreDigits (c ∷ s) × (decimal 0 (c ∷ s) ≡ n)

-- What Go reads as the natural number `n`: a numeral of 63 bits, also after a plus sign, and zero
-- after a minus sign.
abbrev pub IsNumber : Str → ℕ → Type 0
IsNumber [] n = ⊥
IsNumber (c ∷ s) n =
    (n < 2 ^ 63)
    × (IsNumeral (c ∷ s) n ⊎ ((c ≡ 43) × IsNumeral s n) ⊎ ((c ≡ 45) × IsNumeral s n × (n ≡ 0)))

-- Two numbers that a dot joins, or three.
abbrev pub IsVersion : Str → ℕ → ℕ → ℕ → Type 0
IsVersion s a b c =
    (p : Str) × (q : Str) × IsNumber p a
    × IsNumber q b
    × (((s ≡ p ++ (dot ∷ q)) × (c ≡ 0))
        ⊎ ((r : Str) × IsNumber r c × (s ≡ p ++ (dot ∷ (q ++ (dot ∷ r))))))

-- A tag spells a version, with or without a `v` before it.
abbrev pub Spells : Str → ℕ → ℕ → ℕ → Type 0
Spells t a b c = IsVersion t a b c ⊎ ((s : Str) × (t ≡ 118 ∷ s) × IsVersion s a b c)

-- A tag spells some version.
abbrev pub SpellsSome : Str → Type 0
SpellsSome t = (a : ℕ) × (b : ℕ) × (c : ℕ) × Spells t a b c

-- One version is at most another: the first numbers that differ decide.
abbrev pub IsAtMost : ℕ → ℕ → ℕ → ℕ → ℕ → ℕ → Type 0
IsAtMost a b c x y z = (a < x) ⊎ ((a ≡ x) × (b < y)) ⊎ ((a ≡ x) × (b ≡ y) × (c ≤ z))

read_digits-decimal : (n : ℕ) (s : Str) → AreDigits s → read_digits n s ≡ some (decimal n s)
unfolding read_digits is_digit
read_digits-decimal n [] h = refl
read_digits-decimal n (c ∷ s) (low, high, h) =
    let digit : (leb 48 c && leb c 57) ≡ true = ground arith in
    rw digit (read_digits-decimal (10 * n + (c - 48)) s h)

decimal-read_digits :
    (n m : ℕ) (s : Str) → read_digits n s ≡ some m → AreDigits s × (decimal n s ≡ m)
unfolding read_digits is_digit
decimal-read_digits n m [] h = (tt, cc)
decimal-read_digits n m (c ∷ s) h = elim (Bool-cases (leb 48 c && leb c 57)) [
  | inr e ↦ ground (arith, e, h)
  | inl e ↦
      let (digits, value) =
        decimal-read_digits (10 * n + (c - 48)) m s
          (subst (λ (o : Option ℕ). o ≡ some m) (rw e refl) h) in
      ((ground arith, ground arith, digits), value)
]

unsigned_digits-IsNumeral : (s : Str) (n : ℕ) → IsNumeral s n → unsigned_digits s ≡ some n
unfolding unsigned_digits
unsigned_digits-IsNumeral [] n h = absurd h
unsigned_digits-IsNumeral (c ∷ s) n (digits, value) =
    read_digits-decimal 0 (c ∷ s) digits ∙ ap some value

IsNumeral-unsigned_digits : (s : Str) (n : ℕ) → unsigned_digits s ≡ some n → IsNumeral s n
unfolding unsigned_digits
IsNumeral-unsigned_digits [] n h = cc
IsNumeral-unsigned_digits (c ∷ s) n h = decimal-read_digits 0 n (c ∷ s) h

signed_natural : (n : ℕ) → n < 2 ^ 63 → signed false (some n) ≡ number (pos n)
unfolding signed
signed_natural n h = ground arith

pub atoi-IsNumber : (s : Str) (n : ℕ) → IsNumber s n → atoi s ≡ number (pos n)
unfolding atoi
atoi-IsNumber [] n h = absurd h
atoi-IsNumber (c ∷ s) n (small, inl ((low, high, digits), value)) =
    let minus : (c == 45) ≡ false = ground arith in
    let plus : (c == 43) ≡ false = ground arith in
    rw (minus, plus, unsigned_digits-IsNumeral (c ∷ s) n ((low, high, digits), value))
      (signed_natural n small)
atoi-IsNumber (c ∷ s) n (small, inr (inl (e, numeral))) =
    let minus : (c == 45) ≡ false = ground arith in
    let plus : (c == 43) ≡ true = ground arith in
    rw (minus, plus, unsigned_digits-IsNumeral s n numeral) (signed_natural n small)
atoi-IsNumber (c ∷ s) n (small, inr (inr (e, numeral, zero_value))) =
    let minus : (c == 45) ≡ true = ground arith in
    rw (minus, unsigned_digits-IsNumeral s n numeral, zero_value) (unfold signed in refl)

signed_component :
    (negative : Bool) (s : Str)
    → is_component (signed negative (unsigned_digits s)) ≡ true
    → (n : ℕ) × (n < 2 ^ 63) × IsNumeral s n × (negative ≡ true → n ≡ 0)
unfolding is_component signed
signed_component negative s h = elim (Option-cases (unsigned_digits s)) [
  | inl e ↦ absurd (unread negative (subst (λ o. is_component (signed negative o) ≡ true) e h))
  | inr (n, e) ↦
      let (small, zeros) =
        read negative n (subst (λ o. is_component (signed negative o) ≡ true) e h) in
      (n, small, IsNumeral-unsigned_digits s n e, zeros)
]
  where
    unread : (b : Bool) → is_component (signed b none) ≡ true → ⊥
    unread true k = cc
    unread false k = cc

    read :
        (b : Bool) (n : ℕ)
        → is_component (signed b (some n)) ≡ true
        → (n < 2 ^ 63) × (b ≡ true → n ≡ 0)
    read true n k = (ground arith, λ e. ground arith)
    read false n k = (ground arith, λ e. cc)

pub IsNumber-atoi : (s : Str) → is_component (atoi s) ≡ true → (n : ℕ) × IsNumber s n
unfolding atoi
IsNumber-atoi [] h = absurd (unfold is_component in cc)
IsNumber-atoi (c ∷ s) h = elim (Bool-cases (c == 45)) [
  | inl minus ↦
      let (n, small, numeral, zeros) =
        signed_component true s (subst (λ x. is_component x ≡ true) (rw minus refl) h) in
      (n, (small, inr (inr ((==_iff c 45).0 minus, numeral, zeros refl))))
  | inr unminus ↦ elim (Bool-cases (c == 43)) [
    | inl plus ↦
        let (n, small, numeral, zeros) =
          signed_component false s
            (subst (λ x. is_component x ≡ true) (rw (unminus, plus) refl) h) in
        (n, (small, inr (inl ((==_iff c 43).0 plus, numeral))))
    | inr unplus ↦
        let (n, small, numeral, zeros) =
          signed_component false (c ∷ s)
            (subst (λ x. is_component x ≡ true) (rw (unminus, unplus) refl) h) in
        (n, (small, inl numeral))
  ]
]
