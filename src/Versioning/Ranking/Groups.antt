-- ===== src/Versioning/Ranking/Groups.antt =====
-- internal/engine/manifold/resolver/resolvers/channel.go: a tag's classification among others.
use quiver_core.Prelude.{
  Bool, Option, none, some, List, [], ◌∷◌, Str, Occurs, ◌≡◌, ◌⊎◌, inl, inr, refl, sym, ap, ◌∙◌,
  subst,
}
use quiver_core.Versioning.Pattern.{Parsed}
use quiver_core.Versioning.Classify.{
  put_entry, ClassifiedTag, classified, entries, classify_entries, classify_all, is_varied,
  prefix_values, parse_tag_full,
}

put_entry-Occurs :
    (e : Str × Parsed) (t : Str) (o : Option Parsed) (rest : List (Str × Parsed))
    → Occurs e (put_entry t o rest)
    → ((e.0 ≡ t) × (o ≡ some e.1)) ⊎ Occurs e rest
unfolding put_entry
put_entry-Occurs e t none rest k = inr k
put_entry-Occurs e t (some p) rest (inl same) =
    inl (ap (λ x. x.0) same, ap (λ x. some x.1) (sym same))
put_entry-Occurs e t (some p) rest (inr k) = inr k

entries-Occurs :
    (e : Str × Parsed) (tags : List Str)
    → Occurs e (entries tags)
    → Occurs e.0 tags × (parse_tag_full e.0 ≡ some e.1)
unfolding entries
entries-Occurs e [] k = absurd k
entries-Occurs e (t ∷ tags) k = elim (put_entry-Occurs e t (parse_tag_full t) (entries tags) k) [
  | inl (same, parsed) ↦ (inl same, ap parse_tag_full same ∙ parsed)
  | inr later ↦ let (o, q) = entries-Occurs e tags later in (inr o, q)
]

Occurs-put_entry :
    (t : Str) (o : Option Parsed) (p : Parsed) (rest : List (Str × Parsed))
    → o ≡ some p
    → Occurs (t, p) (put_entry t o rest)
unfolding put_entry
Occurs-put_entry t none p rest h = cc
Occurs-put_entry t (some q) p rest h = inl (cc h)

put_entry-later :
    (e : Str × Parsed) (t : Str) (o : Option Parsed) (rest : List (Str × Parsed))
    → Occurs e rest
    → Occurs e (put_entry t o rest)
unfolding put_entry
put_entry-later e t none rest k = k
put_entry-later e t (some p) rest k = inr k

Occurs-entries :
    (t : Str) (p : Parsed) (tags : List Str)
    → Occurs t tags
    → parse_tag_full t ≡ some p
    → Occurs (t, p) (entries tags)
unfolding entries
Occurs-entries t p [] k h = absurd k
Occurs-entries t p (u ∷ tags) (inl e) h =
    subst (λ v. Occurs (t, p) (put_entry v (parse_tag_full v) (entries tags))) e
      (Occurs-put_entry t (parse_tag_full t) p (entries tags) h)
Occurs-entries t p (u ∷ tags) (inr k) h =
    put_entry-later (t, p) u (parse_tag_full u) (entries tags) (Occurs-entries t p tags k h)

classify_entries-Occurs :
    (m : Bool) (c : ClassifiedTag) (es : List (Str × Parsed))
    → Occurs c (classify_entries m es)
    → (e : Str × Parsed) × Occurs e es × (c ≡ classified m e.0 e.1)
unfolding classify_entries
classify_entries-Occurs m c [] k = absurd k
classify_entries-Occurs m c ((t, p) ∷ es) (inl same) = ((t, p), inl refl, same)
classify_entries-Occurs m c ((t, p) ∷ es) (inr k) =
    let (e, o, q) = classify_entries-Occurs m c es k in (e, inr o, q)

Occurs-classify_entries :
    (m : Bool) (e : Str × Parsed) (es : List (Str × Parsed))
    → Occurs e es
    → Occurs (classified m e.0 e.1) (classify_entries m es)
unfolding classify_entries
Occurs-classify_entries m e [] k = absurd k
Occurs-classify_entries m e ((t, p) ∷ es) (inl same) = inl (ap (λ x. classified m x.0 x.1) same)
Occurs-classify_entries m e ((t, p) ∷ es) (inr k) = inr (Occurs-classify_entries m e es k)

classified-tag : (m : Bool) (t : Str) (p : Parsed) → (classified m t p).tag ≡ t
unfolding classified
classified-tag m t p = refl

-- A classified tag stands in the tags, and the tag determines it.
pub classify_all-tag :
    (tags : List Str) (c : ClassifiedTag)
    → Occurs c (classify_all tags)
    → Occurs c.tag tags
      × (p : Parsed) × (parse_tag_full c.tag ≡ some p)
      × (c ≡ classified (is_varied (prefix_values (entries tags))) c.tag p)
unfolding classify_all
classify_all-tag tags c k =
    let m = is_varied (prefix_values (entries tags)) in
    let (e, o, same) = classify_entries-Occurs m c (entries tags) k in
    let (here, parsed) = entries-Occurs e tags o in
    let tag : c.tag ≡ e.0 = ap (λ x. x.tag) same ∙ classified-tag m e.0 e.1 in
    (
      subst (λ t. Occurs t tags) (sym tag) here,
      e.1,
      ap parse_tag_full tag ∙ parsed,
      same ∙ ap (λ t. classified m t e.1) (sym tag),
    )

pub classify_all-same :
    (tags : List Str) (c d : ClassifiedTag)
    → Occurs c (classify_all tags)
    → Occurs d (classify_all tags)
    → c.tag ≡ d.tag
    → c ≡ d
classify_all-same tags c d k l e =
    let (_, p, parsed, same) = classify_all-tag tags c k in
    let (_, q, parsed', same') = classify_all-tag tags d l in
    let alike : p ≡ q = cc (sym parsed ∙ ap parse_tag_full e ∙ parsed') in
    let m = is_varied (prefix_values (entries tags)) in
    same ∙ ap (λ t. classified m t p) e ∙ ap (classified m d.tag) alike ∙ sym same'

pub Occurs-classify_all :
    (tags : List Str) (t : Str) (p : Parsed)
    → Occurs t tags
    → parse_tag_full t ≡ some p
    → (c : ClassifiedTag) × Occurs c (classify_all tags) × (c.tag ≡ t)
unfolding classify_all
Occurs-classify_all tags t p k h =
    let es = entries tags in
    let m = is_varied (prefix_values es) in
    (
      classified m t p,
      Occurs-classify_entries m (t, p) es (Occurs-entries t p tags k h),
      classified-tag m t p,
    )
