-- ===== src/Versioning/Ranking/Matches.antt =====
-- The highest tag that a constraint matches, of internal/engine/manifold/resolver/resolvers/constraint.go.
use quiver_core.Prelude.{
  ℕ, keep-Occurs, Occurs-keep, Bool, true, Option, some, List, [], ◌∷◌, Str, Occurs, gt,
  sort_by-first, Option-cases, ◌≡◌, ◌≢◌, inl, inr, sym, ap, ◌∙◌, subst,
}
use quiver_core.Versioning.Number.{compare_cores, is_stable_semver, semver_parts}
use quiver_core.Versioning.Ranking.{
  compare_semver, semver_tags, sort_tags_desc, highest, bad_pattern, matching, first_match,
  match_of, highest_match,
}
use quiver_core.Versioning.Ranking.Spelling.{Spells, IsAtMost}
use quiver_core.Versioning.Ranking.Spelled.{
  natural_core, is_stable_semver-Spells, semver_parts-Spells, SpellsSome-is_stable_semver,
  IsAtMost-compare_cores,
}
use quiver_core.Versioning.Ranking.Total.{compare_semver-IsComparator}
use quiver_core.Versioning.Ranking.Tags.{
  matching-Occurs, Occurs-matching, first_sorted, match_of-first, not_above, sort_tags_desc-first,
  sort_tags_desc-Occurs,
}

first_match-Occurs : (t : Str) (tags : List Str) → first_match tags ≡ highest t → Occurs t tags
unfolding first_match
first_match-Occurs t [] h = cc
first_match-Occurs t (u ∷ tags) h = inl (cc h)

-- The highest match is one of the tags, and it matches.
pub highest_match-Occurs :
    (path_match : Str → Str → Option Bool) (pattern t : Str) (tags : List Str)
    → highest_match path_match tags pattern ≡ highest t
    → Occurs t tags × (path_match pattern t ≡ some true)
unfolding highest_match
highest_match-Occurs path_match pattern t tags h =
    elim (Option-cases (matching path_match pattern tags)) [
      | inl e ↦ let bad : bad_pattern ≡ highest t = unfold match_of in ap match_of (sym e) ∙ h in cc
      | inr (matched, e) ↦
          let first : first_match (sort_tags_desc matched) ≡ highest t =
            unfold match_of in ap match_of (sym e) ∙ h in
          matching-Occurs path_match pattern tags matched t e
            (sort_tags_desc-Occurs t matched (first_match-Occurs t (sort_tags_desc matched) first))
    ]

highest_match-is_stable_semver :
    (path_match : Str → Str → Option Bool) (pattern t u : Str) (tags : List Str)
    → highest_match path_match tags pattern ≡ highest t
    → Occurs u tags
    → path_match pattern u ≡ some true
    → is_stable_semver u ≡ true
    → Occurs t tags
      × (path_match pattern t ≡ some true)
      × (is_stable_semver t ≡ true)
      × (compare_cores (semver_parts u) (semver_parts t) ≢ gt)
unfolding highest_match
highest_match-is_stable_semver path_match pattern t u tags h k m s =
    elim (Option-cases (matching path_match pattern tags)) [
      | inl e ↦ let bad : bad_pattern ≡ highest t = unfold match_of in ap match_of (sym e) ∙ h in cc
      | inr (matched, e) ↦
          let found = Occurs-matching path_match pattern tags matched u e k m in
          let stable : Occurs u (semver_tags matched) =
            unfold semver_tags in Occurs-keep is_stable_semver u matched found s in
          let (y, ys, sorted) = first_sorted compare_semver (semver_tags matched) u stable in
          let (here, best) =
            sort_by-first compare_semver compare_semver-IsComparator (semver_tags matched) ys y
              sorted in
          let (more, first) = sort_tags_desc-first matched y ys sorted in
          let same : t ≡ y = match_of-first matched more y t first (ap match_of (sym e) ∙ h) in
          let (kept, is_stable) : Occurs y matched × (is_stable_semver y ≡ true) =
            unfold semver_tags in keep-Occurs is_stable_semver y matched here in
          let (among, taken) = matching-Occurs path_match pattern tags matched y e kept in
          subst
            (λ z.
              Occurs z tags
              × (path_match pattern z ≡ some true)
              × (is_stable_semver z ≡ true)
              × (compare_cores (semver_parts u) (semver_parts z) ≢ gt))
            (sym same) (among, taken, is_stable, not_above y u (best u stable))
    ]

-- When some tag that a constraint matches spells a version, the highest match does too, it is one of
-- the tags, and it matches; its version is at least that of every match that spells one. A version
-- is two or three natural numbers with dots between them, perhaps after a `v`: the third number is 0
-- where there is none, and the first numbers that differ decide which version is higher.
pub highest_match-IsAtMost :
    (path_match : Str → Str → Option Bool) (pattern t u : Str) (tags : List Str) (a b c : ℕ)
    → highest_match path_match tags pattern ≡ highest t
    → Occurs u tags
    → path_match pattern u ≡ some true
    → Spells u a b c
    → Occurs t tags
      × (path_match pattern t ≡ some true)
      × ((x : ℕ) × (y : ℕ) × (z : ℕ) × Spells t x y z × IsAtMost a b c x y z)
highest_match-IsAtMost path_match pattern t u tags a b c h k m s =
    let (among, taken, stable, best) =
      highest_match-is_stable_semver path_match pattern t u tags h k m
        (is_stable_semver-Spells u a b c s) in
    let (x, y, z, spelled) = SpellsSome-is_stable_semver t stable in
    (
      among,
      taken,
      (
        x,
        y,
        z,
        spelled,
        IsAtMost-compare_cores a b c x y z (λ g. best (
            ap (λ core. compare_cores core (semver_parts t)) (semver_parts-Spells u a b c s)
            ∙ ap (compare_cores (natural_core a b c)) (semver_parts-Spells t x y z spelled)
            ∙ g)),
      ),
    )
