-- ===== src/Versioning/Ranking/Tags.antt =====
-- internal/engine/manifold/resolver/resolvers/constraint.go: the tags that match, in order.
use quiver_core.Prelude.{
  append-Occurs, keep-Occurs, Bool, true, false, Option, none, some, List, [], ◌∷◌, ◌++◌, Str,
  Occurs, Ordering, gt, or_else, sort_by, sort_by-Occurs, Occurs-sort_by, if◌then◌else◌, Bool-cases,
  Option-cases, ◌≡◌, ◌≢◌, ◌⊎◌, inl, inr, refl, sym, ap, ◌∙◌, subst,
}
use quiver_core.Versioning.Number.{compare_cores, is_stable_semver, semver_parts}
use quiver_core.Versioning.Classify.{
  ClassifiedTag, classified, rank_of, parse_tag_full, is_known_channel, normalize_version_prefix,
}
use quiver_core.Versioning.Ranking.{
  compare_classified, compare_semver, compare_lex_desc, tier_against_dates, channelled_tags,
  semver_tags, rest_tags, sort_tags_desc, channel_word_tag, tags_of, highest, put_matching,
  matching, first_match, match_of,
}
use quiver_core.Versioning.Ranking.Partition.{tags_of-Occurs, sorted_tiers-Occurs}

module _ (path_match : Str → Str → Option Bool) (pattern : Str) where
  put_matching-Occurs :
      (o : Option Bool) (t x : Str) (rest : Option (List Str)) (matched : List Str)
      → put_matching o t rest ≡ some matched
      → (xs : List Str) × (rest ≡ some xs)
        × (((o ≡ some true) × (matched ≡ t ∷ xs)) ⊎ ((o ≡ some false) × (matched ≡ xs)))
  unfolding put_matching
  put_matching-Occurs none t x rest matched h = cc
  put_matching-Occurs (some true) t x none matched h = cc
  put_matching-Occurs (some true) t x (some xs) matched h = (xs, refl, inl (refl, cc))
  put_matching-Occurs (some false) t x rest matched h = (matched, h, inr (refl, refl))

  -- The tags that match are those of the list that the pattern takes.
  pub matching-Occurs :
      (tags matched : List Str) (x : Str)
      → matching path_match pattern tags ≡ some matched
      → Occurs x matched
      → Occurs x tags × (path_match pattern x ≡ some true)
  unfolding matching
  matching-Occurs [] matched x h k = let e : matched ≡ [] = cc in absurd (subst (Occurs x) e k)
  matching-Occurs (t ∷ tags) matched x h k =
      let (xs, rest, how) =
        put_matching-Occurs (path_match pattern t) t x (matching path_match pattern tags) matched
          h in
      elim how [
        | inl (yes_match, e) ↦ elim (subst (Occurs x) e k) [
          | inl same ↦ (inl same, ap (path_match pattern) same ∙ yes_match)
          | inr later ↦ let (o, q) = matching-Occurs tags xs x rest later in (inr o, q)
        ]
        | inr (not_match, e) ↦
            let (o, q) = matching-Occurs tags xs x rest (subst (Occurs x) e k) in (inr o, q)
      ]

  pub Occurs-matching :
      (tags matched : List Str) (x : Str)
      → matching path_match pattern tags ≡ some matched
      → Occurs x tags
      → path_match pattern x ≡ some true
      → Occurs x matched
  unfolding matching
  Occurs-matching [] matched x h k m = absurd k
  Occurs-matching (t ∷ tags) matched x h k m =
      let (xs, rest, how) =
        put_matching-Occurs (path_match pattern t) t x (matching path_match pattern tags) matched
          h in
      elim k [
        | inl same ↦ elim how [
          | inl (yes_match, e) ↦ subst (Occurs x) (sym e) (inl same)
          | inr (not_match, e) ↦ cc (ap (path_match pattern) same)
        ]
        | inr later ↦
            let o = Occurs-matching tags xs x rest later m in
            elim how [
              | inl (yes_match, e) ↦ subst (Occurs x) (sym e) (inr o)
              | inr (not_match, e) ↦ subst (Occurs x) (sym e) o
            ]
      ]

-- The first of a list that is sorted and then followed by another.
pub first_sorted :
    {A : Type 0} (f : A → A → Ordering) (xs : List A) (u : A)
    → Occurs u xs
    → (y : A) × (ys : List A) × (sort_by f xs ≡ y ∷ ys)
first_sorted {A = A} f xs u k = go (sort_by f xs) (Occurs-sort_by f u xs k)
  where
    go : (zs : List A) → Occurs u zs → (y : A) × (ys : List A) × (zs ≡ y ∷ ys)
    go [] h = absurd h
    go (y ∷ ys) h = (y, ys, refl)

pub match_of-first :
    (matched ys : List Str) (y t : Str)
    → sort_tags_desc matched ≡ y ∷ ys
    → match_of (some matched) ≡ highest t
    → t ≡ y
unfolding match_of first_match
match_of-first matched ys y t e h =
    let first : first_match (y ∷ ys) ≡ highest t = ap first_match (sym e) ∙ h in cc

pub not_above :
    (t u : Str) → compare_semver t u ≢ gt → compare_cores (semver_parts u) (semver_parts t) ≢ gt
unfolding compare_semver or_else
not_above t u h g = h (rw g refl)

pub sort_tags_desc-first :
    (matched : List Str) (y : Str) (ys : List Str)
    → sort_by compare_semver (semver_tags matched) ≡ y ∷ ys
    → (more : List Str) × (sort_tags_desc matched ≡ y ∷ more)
unfolding sort_tags_desc
sort_tags_desc-first matched y ys sorted =
    let rest =
      tags_of (sort_by compare_classified (tier_against_dates (channelled_tags matched)))
      ++ sort_by compare_lex_desc (rest_tags matched) in
    (ys ++ rest, ap (λ l. l ++ rest) sorted)

put_channelled-Occurs :
    (b : Bool) (o : Option ClassifiedTag) (c : ClassifiedTag) (more : List ClassifiedTag)
    → Occurs c (if b then more else elim o [ none ↦ more | some d ↦ d ∷ more ])
    → (o ≡ some c) ⊎ Occurs c more
put_channelled-Occurs true o c more k = inr k
put_channelled-Occurs false none c more k = inr k
put_channelled-Occurs false (some d) c more (inl e) = inl (ap some (sym e))
put_channelled-Occurs false (some d) c more (inr k) = inr k

rank_of-tag : (t : Str) (c : ClassifiedTag) → rank_of t ≡ some c → c.tag ≡ t
unfolding rank_of classified
rank_of-tag t c h = elim (Option-cases (parse_tag_full t)) [
  | inl e ↦ cc (h, e)
  | inr (p, e) ↦
      let same : classified false t p ≡ c = cc (h, e) in
      sym (ap (λ (x : ClassifiedTag). x.tag) same)
]

channel_word_tag-tag : (t : Str) (c : ClassifiedTag) → channel_word_tag t ≡ some c → c.tag ≡ t
unfolding channel_word_tag
channel_word_tag-tag t c h = elim (Option-cases (parse_tag_full t)) [
  | inl e ↦ cc (h, e)
  | inr (p, e) ↦ elim (Bool-cases (is_known_channel (normalize_version_prefix p.prefix))) [
    | inl k ↦ rank_of-tag t c (cc (h, e, k))
    | inr k ↦ cc (h, e, k)
  ]
]

channelled_tags-Occurs :
    (c : ClassifiedTag) (tags : List Str) → Occurs c (channelled_tags tags) → Occurs c.tag tags
unfolding channelled_tags
channelled_tags-Occurs c [] k = absurd k
channelled_tags-Occurs c (t ∷ tags) k =
    elim (put_channelled-Occurs (is_stable_semver t) (channel_word_tag t) c (channelled_tags tags)
      k) [
        | inl e ↦ inl (channel_word_tag-tag t c e)
        | inr o ↦ inr (channelled_tags-Occurs c tags o)
      ]

-- The tags that are put in order are those that were given.
pub sort_tags_desc-Occurs :
    (t : Str) (tags : List Str) → Occurs t (sort_tags_desc tags) → Occurs t tags
unfolding sort_tags_desc semver_tags rest_tags
sort_tags_desc-Occurs t tags k =
    elim (append-Occurs t (sort_by compare_semver (semver_tags tags)) _ k) [
      | inl o ↦
          (keep-Occurs is_stable_semver t tags
            (sort_by-Occurs compare_semver t (semver_tags tags) o)).0
      | inr o ↦
          elim (append-Occurs t
            (tags_of (sort_by compare_classified (tier_against_dates (channelled_tags tags)))) _
            o) [
              | inl p ↦
                  let (c, here, e) =
                    tags_of-Occurs t (channelled_tags tags)
                      (sorted_tiers-Occurs t (channelled_tags tags) p) in
                  subst (λ u. Occurs u tags) e (channelled_tags-Occurs c tags here)
              | inr p ↦
                  (keep-Occurs _ t tags (sort_by-Occurs compare_lex_desc t (rest_tags tags) p)).0
            ]
    ]
