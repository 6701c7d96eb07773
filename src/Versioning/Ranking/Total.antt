-- ===== src/Versioning/Ranking/Total.antt =====
-- internal/engine/manifold/resolver/resolvers: the comparisons of tags.
use quiver_core.Prelude.{
  compare, compare_int, compare_str, IsComparator, by_key-IsComparator, reversed-IsComparator,
  then_by-IsComparator, compare-IsComparator, compare_int-IsComparator, compare_str-IsComparator,
}
use quiver_core.Versioning.Number.{compare_cores, compare_cores-IsComparator, semver_parts}
use quiver_core.Versioning.Classify.{ClassifiedTag}
use quiver_core.Versioning.Ranking.{compare_classified, compare_semver}

pub compare_classified-IsComparator : IsComparator compare_classified
unfolding compare_classified
compare_classified-IsComparator = reversed-IsComparator (
    then_by-IsComparator
      (by_key-IsComparator (λ (c : ClassifiedTag). c.tier) compare compare-IsComparator)
      (then_by-IsComparator
        (by_key-IsComparator (λ (c : ClassifiedTag). c.core) compare_cores
          compare_cores-IsComparator)
        (then_by-IsComparator
          (by_key-IsComparator (λ (c : ClassifiedTag). c.ordinal) compare_int
            compare_int-IsComparator)
          (by_key-IsComparator (λ (c : ClassifiedTag). c.tag) compare_str
            compare_str-IsComparator))))

pub compare_semver-IsComparator : IsComparator compare_semver
unfolding compare_semver
compare_semver-IsComparator = reversed-IsComparator (
    then_by-IsComparator (by_key-IsComparator semver_parts compare_cores compare_cores-IsComparator)
      compare_str-IsComparator)
