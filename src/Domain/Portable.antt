-- ===== src/Domain/Portable.antt =====
-- internal/domain/portable_record.go: the portable apps of an install, and those of the next one.
use quiver_core.Prelude.{
  append-Occurs, Str, str_eq, str_eq_iff, Bool, true, false, ◌||◌, Option, none, some, List, [],
  ◌∷◌, ◌++◌, Occurs, Bool-cases, Option-cases, if◌then◌else◌, ◌≡◌, ◌⊎◌, inl, inr, refl, sym, ap,
  ◌∙◌, subst, arith,
}

pub record PortableApp : Type 0 where
  pub name : Str
  pub entry : Str
  pub icon : Str

pub record PortableRecord : Type 0 where
  pub apps : List PortableApp

-- `incoming[entry]`: the last of the apps with the entry.
unfoldable pub incoming : Str → List PortableApp → Option PortableApp
incoming entry [] = none
incoming entry (app ∷ apps) = elim (incoming entry apps) [
  | some later ↦ some later
  | none ↦ if str_eq app.entry entry then some app else none
]

-- `names[name]`
unfoldable pub has_name : Str → List PortableApp → Bool
has_name name [] = false
has_name name (app ∷ apps) = str_eq app.name name || has_name name apps

-- One round of the loop over the existing apps.
unfoldable pub carried :
    Option PortableApp → Bool → PortableApp → List PortableApp → List PortableApp
carried (some replacement) named existing rest = replacement ∷ rest
carried none true existing rest = rest
carried none false existing rest = existing ∷ rest

unfoldable pub carry : List PortableApp → List PortableApp → List PortableApp
unfolding incoming has_name carried
carry apps [] = []
carry apps (existing ∷ rest) =
    carried (incoming existing.entry apps) (has_name existing.name apps) existing (carry apps rest)

-- `consumed[entry]` after that loop.
unfoldable pub consumed : List PortableApp → List PortableApp → Str → Bool
unfolding incoming
consumed apps [] entry = false
consumed apps (existing ∷ rest) entry = elim (incoming existing.entry apps) [
  | some replacement ↦ str_eq existing.entry entry || consumed apps rest entry
  | none ↦ consumed apps rest entry
]

-- The loop over the new apps.
unfoldable pub add_new : (Str → Bool) → List PortableApp → List PortableApp
add_new used [] = []
add_new used (app ∷ apps) =
    let skipped = add_new used apps in
    let added = add_new (λ entry. str_eq app.entry entry || used entry) apps in
    if used app.entry then skipped else app ∷ added

unfoldable pub merge : PortableRecord → List PortableApp → PortableRecord
unfolding carry consumed add_new
merge r apps = record { apps = carry apps r.apps ++ add_new (consumed apps r.apps) apps }

-- Some app of a list has the entry.
unfoldable pub has_entry : Str → List PortableApp → Bool
has_entry entry [] = false
has_entry entry (app ∷ apps) = str_eq app.entry entry || has_entry entry apps

incoming-Occurs :
    (entry : Str) (apps : List PortableApp) (a : PortableApp)
    → incoming entry apps ≡ some a
    → Occurs a apps × (str_eq a.entry entry ≡ true)
unfolding incoming
incoming-Occurs entry [] a h = cc
incoming-Occurs entry (app ∷ apps) a h = elim (Option-cases (incoming entry apps)) [
  | inr (later, e) ↦
      let same : later ≡ a = ground (arith, e, h) in
      let (o, eq) = incoming-Occurs entry apps a (e ∙ ap some same) in (inr o, eq)
  | inl e ↦ elim (Bool-cases (str_eq app.entry entry)) [
    | inl s ↦
        let same : app ≡ a = ground (arith, e, s, h) in
        (inl (sym same), ap (λ k. str_eq k.entry entry) (sym same) ∙ s)
    | inr s ↦ ground (arith, e, s, h)
  ]
]

-- Where an app of the merged record comes from.
abbrev pub Origin : PortableApp → List PortableApp → List PortableApp → Type 0
Origin x existing apps = Occurs x apps ⊎ (Occurs x existing × (has_name x.name apps ≡ false))

Origin-cons :
    (x e : PortableApp) (existing apps : List PortableApp)
    → Origin x existing apps
    → Origin x (e ∷ existing) apps
Origin-cons x e existing apps (inl o) = inl o
Origin-cons x e existing apps (inr (o, free)) = inr (inr o, free)

carried-Origin :
    (o : Option PortableApp) (named : Bool) (x e : PortableApp)
    (existing apps rest : List PortableApp)
    → incoming e.entry apps ≡ o
    → has_name e.name apps ≡ named
    → (Occurs x rest → Origin x existing apps)
    → Occurs x (carried o named e rest)
    → Origin x (e ∷ existing) apps
unfolding carried
carried-Origin (some a) named x e existing apps rest i n later (inl same) =
    inl (subst (λ k. Occurs k apps) (sym same) (incoming-Occurs e.entry apps a i).0)
carried-Origin (some a) named x e existing apps rest i n later (inr h) =
    Origin-cons x e existing apps (later h)
carried-Origin none true x e existing apps rest i n later h =
    Origin-cons x e existing apps (later h)
carried-Origin none false x e existing apps rest i n later (inl same) =
    inr (inl same, ap (λ k. has_name k.name apps) same ∙ n)
carried-Origin none false x e existing apps rest i n later (inr h) =
    Origin-cons x e existing apps (later h)

carry-Origin :
    (x : PortableApp) (apps existing : List PortableApp)
    → Occurs x (carry apps existing)
    → Origin x existing apps
unfolding carry
carry-Origin x apps [] h = absurd h
carry-Origin x apps (e ∷ existing) h =
    carried-Origin (incoming e.entry apps) (has_name e.name apps) x e existing apps
      (carry apps existing) refl refl (carry-Origin x apps existing) h

add_new-Occurs :
    (x : PortableApp) (used : Str → Bool) (apps : List PortableApp)
    → Occurs x (add_new used apps)
    → Occurs x apps
unfolding add_new
add_new-Occurs x used [] h = absurd h
add_new-Occurs x used (app ∷ apps) h = elim (Bool-cases (used app.entry)) [
  | inl e ↦ inr (add_new-Occurs x used apps (subst (Occurs x) (rw e refl) h))
  | inr e ↦ elim (subst (Occurs x) (taken e) h) [
    | inl same ↦ inl same
    | inr k ↦ inr (add_new-Occurs x (λ entry. str_eq app.entry entry || used entry) apps k)
  ]
]
  where
    taken :
        used app.entry ≡ false
        → add_new used (app ∷ apps)
          ≡ app ∷ add_new (λ entry. str_eq app.entry entry || used entry) apps
    taken e = rw e refl

-- An app of the merged record is one of the new ones, or an old one that shares its name with none of
-- the new.
pub merge-Origin :
    (r : PortableRecord) (apps : List PortableApp) (x : PortableApp)
    → Occurs x (merge r apps).apps
    → Origin x r.apps apps
unfolding merge
merge-Origin r apps x h =
    elim (append-Occurs x (carry apps r.apps) (add_new (consumed apps r.apps) apps) h) [
      | inl k ↦ carry-Origin x apps r.apps k
      | inr k ↦ inl (add_new-Occurs x (consumed apps r.apps) apps k)
    ]

has_entry-append :
    (entry : Str) (xs ys : List PortableApp)
    → has_entry entry (xs ++ ys) ≡ (has_entry entry xs || has_entry entry ys)
unfolding has_entry
has_entry-append entry [] ys = refl
has_entry-append entry (x ∷ xs) ys = ground (arith, has_entry-append entry xs ys)

carried-has_entry :
    (entry : Str) (o : Option PortableApp) (named : Bool) (e : PortableApp)
    (rest : List PortableApp)
    → has_entry entry rest ≡ true
    → has_entry entry (carried o named e rest) ≡ true
unfolding carried has_entry
carried-has_entry entry (some a) named e rest h = ground (arith, h)
carried-has_entry entry none true e rest h = h
carried-has_entry entry none false e rest h = ground (arith, h)

replaced-has_entry :
    (entry : Str) (a e : PortableApp) (named : Bool) (rest : List PortableApp)
    → str_eq a.entry e.entry ≡ true
    → str_eq e.entry entry ≡ true
    → has_entry entry (carried (some a) named e rest) ≡ true
unfolding carried has_entry
replaced-has_entry entry a e named rest h k =
    let same = (str_eq_iff a.entry e.entry).0 h in
    let hit = ap (λ s. str_eq s entry) same ∙ k in ground (arith, hit)

carry-has_entry :
    (entry : Str) (apps existing : List PortableApp)
    → consumed apps existing entry ≡ true
    → has_entry entry (carry apps existing) ≡ true
unfolding consumed carry
carry-has_entry entry apps [] h = cc
carry-has_entry entry apps (e ∷ existing) h =
    let more = carry-has_entry entry apps existing in
    let keep_on =
      carried-has_entry entry (incoming e.entry apps) (has_name e.name apps) e
        (carry apps existing) in
    elim (Option-cases (incoming e.entry apps)) [
      | inl i ↦ keep_on (more (ground (arith, i, h)))
      | inr (a, i) ↦ elim (Bool-cases (str_eq e.entry entry)) [
        | inl s ↦
            subst
              (λ o.
                has_entry entry (carried o (has_name e.name apps) e (carry apps existing)) ≡ true)
              (sym i)
              (replaced-has_entry entry a e (has_name e.name apps) (carry apps existing)
                (incoming-Occurs e.entry apps a i).1 s)
        | inr s ↦ keep_on (more (ground (arith, i, s, h)))
      ]
    ]

add_new-has_entry :
    (entry : Str) (used : Str → Bool) (apps : List PortableApp)
    → has_entry entry apps ≡ true
    → used entry ≡ false
    → has_entry entry (add_new used apps) ≡ true
unfolding add_new has_entry
add_new-has_entry entry used [] h free = cc
add_new-has_entry entry used (app ∷ apps) h free = elim (Bool-cases (str_eq app.entry entry)) [
  | inl s ↦ let fresh = ap used ((str_eq_iff app.entry entry).0 s) ∙ free in rw (fresh, s) refl
  | inr s ↦
      let later : has_entry entry apps ≡ true = ground (arith, s, h) in
      elim (Bool-cases (used app.entry)) [
        | inl u ↦ rw u (add_new-has_entry entry used apps later free)
        | inr u ↦
            rw (u, s)
              (add_new-has_entry entry (λ k. str_eq app.entry k || used k) apps later
                (rw (s, free) refl))
      ]
]

-- The entry of each new app is an entry of the merged record.
pub merge-has_entry :
    (r : PortableRecord) (apps : List PortableApp) (entry : Str)
    → has_entry entry apps ≡ true
    → has_entry entry (merge r apps).apps ≡ true
unfolding merge
merge-has_entry r apps entry h =
    let old = carry-has_entry entry apps r.apps in
    let new = add_new-has_entry entry (consumed apps r.apps) apps h in
    has_entry-append entry (carry apps r.apps) (add_new (consumed apps r.apps) apps)
    ∙ elim (Bool-cases (consumed apps r.apps entry)) [
      | inl c ↦ rw (old c) refl
      | inr c ↦ let there = new c in ground (arith, there)
    ]
