-- ===== src/Prelude/Strings.antt =====
-- The parts of Go's package strings that cut and join at a byte.
use Prim.Native.Nat.{ℕ}
use mathlib.Core.Path.{◌≡◌, refl, ap, ◌∙◌}
use mathlib.Core.Logic.{inl, inr, ◌≢◌}
use mathlib.Core.Bool.{Bool, true, false, ◌||◌}
use mathlib.Core.List.{List, [], ◌∷◌, ◌++◌}
use mathlib.Core.Option.{Option, none, some}
use native.Mathlib.Omega.{arith}
use quiver_core.Prelude.Tests.{if◌then◌else◌, ◌==◌, Bool-cases, ==_iff}
use quiver_core.Prelude.Text.{Str}

-- `strings.Cut(s, c)`: what stands before the first `c`, and what stands after it if there is one.
unfoldable pub cut : ℕ → Str → Str × Option Str
cut c [] = ([], none)
cut c (x ∷ s) = let rest = cut c s in if x == c then ([], some s) else (x ∷ rest.0, rest.1)

-- `x` put before the first part.
unfoldable pub onto_first : ℕ → List Str → List Str
onto_first x [] = (x ∷ []) ∷ []
onto_first x (part ∷ parts) = (x ∷ part) ∷ parts

-- `strings.Split(s, c)`
unfoldable pub split : ℕ → Str → List Str
unfolding onto_first
split c [] = [] ∷ []
split c (x ∷ s) = let rest = split c s in if x == c then [] ∷ rest else onto_first x rest

-- `strings.Join(parts, c)`
unfoldable pub join : ℕ → List Str → Str
join c [] = []
join c (part ∷ []) = part
join c (part ∷ next ∷ parts) = part ++ (c ∷ join c (next ∷ parts))

-- `strings.IndexByte(s, c) >= 0`
unfoldable pub has_byte : Str → ℕ → Bool
has_byte [] c = false
has_byte (x ∷ s) c = if x == c then true else has_byte s c

-- No part has the byte.
abbrev pub AllFree : ℕ → List Str → Type 0
AllFree c [] = Unit
AllFree c (part ∷ parts) = (has_byte part c ≡ false) × AllFree c parts

pub has_byte-append : (s t : Str) (c : ℕ) → has_byte (s ++ t) c ≡ (has_byte s c || has_byte t c)
unfolding has_byte
has_byte-append [] t c = refl
has_byte-append (x ∷ s) t c = ground (arith, has_byte-append s t c)

pub cut-none : (c : ℕ) (s : Str) → (cut c s).1 ≡ none → (cut c s).0 ≡ s
unfolding cut
cut-none c [] h = refl
cut-none c (x ∷ s) h = ground (arith, cut-none c s)

pub cut-some : (c : ℕ) (s t : Str) → (cut c s).1 ≡ some t → s ≡ (cut c s).0 ++ (c ∷ t)
unfolding cut
cut-some c [] t h = cc
cut-some c (x ∷ s) t h = ground (arith, cut-some c s t)

pub cut-has_byte : (c : ℕ) (s : Str) → has_byte (cut c s).0 c ≡ false
unfolding cut has_byte
cut-has_byte c [] = refl
cut-has_byte c (x ∷ s) = ground (arith, cut-has_byte c s)

pub cut-append : (c : ℕ) (s t : Str) → has_byte s c ≡ false → cut c (s ++ (c ∷ t)) ≡ (s, some t)
unfolding cut has_byte
cut-append c [] t h = ground arith
cut-append c (x ∷ s) t h = ground (arith, cut-append c s t)

pub cut_absent : (c : ℕ) (s : Str) → has_byte s c ≡ false → cut c s ≡ (s, none)
unfolding cut has_byte
cut_absent c [] h = refl
cut_absent c (x ∷ s) h = ground (arith, cut_absent c s)

join-onto_first : (c x : ℕ) (parts : List Str) → join c (onto_first x parts) ≡ x ∷ join c parts
unfolding join onto_first
join-onto_first c x [] = refl
join-onto_first c x (part ∷ []) = refl
join-onto_first c x (part ∷ next ∷ parts) = refl

onto_first-cons : (x : ℕ) (parts : List Str) → onto_first x parts ≢ []
unfolding onto_first
onto_first-cons x [] e = cc
onto_first-cons x (part ∷ parts) e = cc

pub split_cons : (c : ℕ) (s : Str) → split c s ≢ []
unfolding split
split_cons c [] e = cc
split_cons c (x ∷ s) e = ground (arith, onto_first-cons x (split c s))

join_next : (c : ℕ) (parts : List Str) → parts ≢ [] → join c ([] ∷ parts) ≡ c ∷ join c parts
unfolding join
join_next c [] ne = absurd (ne refl)
join_next c (part ∷ parts) ne = refl

pub join-split : (c : ℕ) (s : Str) → join c (split c s) ≡ s
unfolding split
join-split c [] = unfold join in refl
join-split c (x ∷ s) = elim (Bool-cases (x == c)) [
  | inl e ↦
      let same = (==_iff x c).0 e in
      rw (e, join_next c (split c s) (split_cons c s), join-split c s, same) refl
  | inr e ↦ rw (e, join-onto_first c x (split c s), join-split c s) refl
]

onto_first-AllFree :
    (c x : ℕ) (parts : List Str)
    → (x == c) ≡ false
    → AllFree c parts
    → AllFree c (onto_first x parts)
unfolding onto_first has_byte
onto_first-AllFree c x [] e all = (rw e refl, tt)
onto_first-AllFree c x (part ∷ parts) e all = (rw (e, all.0) refl, all.1)

pub split_absent : (c : ℕ) (s : Str) → has_byte s c ≡ false → split c s ≡ s ∷ []
unfolding split has_byte onto_first
split_absent c [] h = refl
split_absent c (x ∷ s) h = ground (arith, split_absent c s)

pub split-AllFree : (c : ℕ) (s : Str) → AllFree c (split c s)
unfolding split
split-AllFree c [] = unfold has_byte in (refl, tt)
split-AllFree c (x ∷ s) = elim (Bool-cases (x == c)) [
  | inl e ↦ rw e (unfold has_byte in refl, split-AllFree c s)
  | inr e ↦ rw e (onto_first-AllFree c x (split c s) e (split-AllFree c s))
]

pub split-append :
    (c : ℕ) (s t : Str) → has_byte s c ≡ false → split c (s ++ (c ∷ t)) ≡ s ∷ split c t
unfolding split has_byte onto_first
split-append c [] t h = ground arith
split-append c (x ∷ s) t h = ground (arith, split-append c s t)

pub split-join :
    (c : ℕ) (part : Str) (parts : List Str)
    → AllFree c (part ∷ parts)
    → split c (join c (part ∷ parts)) ≡ part ∷ parts
unfolding join
split-join c part [] all = split_absent c part all.0
split-join c part (next ∷ parts) all =
    split-append c part _ all.0 ∙ ap (λ r. part ∷ r) (split-join c next parts all.1)
