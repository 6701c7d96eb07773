-- ===== src/Versioning/Examples.antt =====
-- Runs of the model of internal/engine/manifold/versioning, and its theorems at a repository's refs.
use quiver_core.Prelude.{
  ℕ, ◌-◌, arith, none, cut, ◌⊎◌, ◌≤◌, ◌+◌, compare_str, sort_by, split, str_eq, compare_int, ◌==◌,
  ◌&&◌, if◌then◌else◌, Bool, true, false, Option, some, Occurs, inl, inr, lookup, List, [], ◌∷◌,
  Str, codes, ◌≡◌, ◌≢◌, refl,
}
use quiver_core.Domain.Selector.{channel, ordered_channel, constraint, RefSnapshot, Resolved}
use quiver_core.Versioning.Classify.{parse_tag_full, rank_of, has_version_core}
use quiver_core.Versioning.Ranking.{
  group, tier_against_dates, compare_classified, TagChannel, highest, highest_match,
  constraint_outranks, group_channels,
}
use quiver_core.Versioning.Ranking.Matches.{highest_match-IsAtMost}
use quiver_core.Versioning.Ranking.Spelling.{IsNumber, Spells, IsAtMost}
use quiver_core.Versioning.Ranking.Partition.{group_channels-partition}
use quiver_core.Versioning.Number.{is_stable_semver, compare_cores, semver_parts}
use quiver_core.Versioning.Channels.{default_channel, latest_stable}
use quiver_core.Versioning.Selector.{classify_selector, IsPlain, cut_prefix}
use quiver_core.Versioning.Drift.{Available, target, drift, behind, settled}
use quiver_core.Versioning.Drift.Settled.{moved_to, drift-settles}
use quiver_core.Versioning.Drift.Classified.{classify_selector-target}
use quiver_core.Domain.Execution.{Namespace}
use quiver_core.Domain.Identity.{bare_namespace}
use quiver_core.Versioning.Snapshot.{SnapshotCall, to_snapshot, snapshot, after_calls}
use quiver_core.Versioning.Snapshot.Recent.{IsAnswered, snapshot-recent}
use quiver_core.Versioning.Admit.{admit, admitted}
use quiver_core.Versioning.Admit.Targets.{target-admitted}

-- Globs that end in their one `*`, and have no other sign.
abbrev star_match : Str → Str → Bool
star_match [] [] = true
star_match [] (c ∷ s) = false
star_match (p ∷ []) [] = p == 42
star_match (p ∷ q ∷ pattern) [] = false
star_match (p ∷ pattern) (c ∷ s) =
    let rest = star_match pattern s in if p == 42 then true else (p == c) && rest

abbrev path_match : Str → Str → Option Bool
path_match pattern s = some (star_match pattern s)

abbrev stable_tags : List Str
stable_tags = codes "stable-2.0" ∷ codes "stable-2026-09-27" ∷ codes "stable-26.5" ∷ []

-- A date is above a version of the year's number, and below an earlier one.
highest_stable :
    highest_match path_match stable_tags (codes "stable-*") ≡ highest (codes "stable-2026-09-27")
unfolding highest_match sort_by is_stable_semver split tier_against_dates parse_tag_full str_eq
    rank_of compare_classified compare_cores compare_int
highest_stable = refl

pair_outranks : constraint_outranks (codes "stable-2.0") (codes "stable-2026-09-27") ≡ true
unfolding constraint_outranks sort_by is_stable_semver split tier_against_dates parse_tag_full
    str_eq rank_of compare_classified
pair_outranks = refl

abbrev stable_refs : RefSnapshot
stable_refs = record {
  tags =
      (codes "stable-2.0", codes "c1")
      ∷ (codes "stable-2026-09-27", codes "c2")
      ∷ (codes "stable-26.5", codes "c3")
      ∷ [];
  branches = (codes "main", codes "c3") ∷ [];
  head = codes "main";
}

abbrev at_old : Resolved
at_old = record { ref = codes "stable-2.0"; commit = codes "c1"; fingerprint = [] }

-- A row at the lowest of three tags of a channel has the highest as its target, and is settled.
settled_below : drift path_match ordered_channel (codes "stable") at_old stable_refs ≡ settled
unfolding drift sort_by str_eq compare_str group split compare_cores compare_int lookup rank_of
settled_below = refl

target_above :
    target path_match ordered_channel (codes "stable") stable_refs
    ≡ some (record { ref = codes "stable-2026-09-27"; commit = codes "c2" })
unfolding target sort_by str_eq compare_str group split compare_classified compare_cores compare_int
    lookup
target_above = refl

abbrev refs : RefSnapshot
refs = record {
  tags =
      (codes "v1.2.0", codes "c2")
      ∷ (codes "v1.0.0", codes "c1")
      ∷ (codes "v1.3.0-rc1", codes "c3")
      ∷ (codes "demo", codes "c1")
      ∷ [];
  branches = (codes "main", codes "c4") ∷ [];
  head = codes "main";
}

abbrev tags : List Str
tags = codes "v1.2.0" ∷ codes "v1.0.0" ∷ codes "v1.3.0-rc1" ∷ codes "demo" ∷ []

abbrev installed : Resolved
installed = record { ref = codes "v1.0.0"; commit = codes "c1"; fingerprint = [] }

abbrev newest : Available
newest = record { ref = codes "v1.2.0"; commit = codes "c2" }

default_is_stable : default_channel refs ≡ some (codes "stable")
unfolding default_channel sort_by str_eq compare_str group compare_classified compare_cores
    compare_int split
default_is_stable = refl

newest_stable : latest_stable refs ≡ some (codes "v1.2.0")
unfolding latest_stable sort_by str_eq compare_str group compare_classified compare_cores
    compare_int split
newest_stable = refl

version_core : has_version_core (codes "v1.0.0") ≡ true
unfolding has_version_core
version_core = refl

group_channels-partition_example :
    (g : TagChannel) × Occurs g (group_channels tags)
    × Occurs (codes "v1.0.0") g.members
    × ((h : TagChannel)
        → Occurs h (group_channels tags)
        → Occurs (codes "v1.0.0") h.members
        → h ≡ g)
group_channels-partition_example =
    group_channels-partition tags (codes "v1.0.0") (inr (inl refl)) version_core

highest_one : highest_match path_match tags (codes "v1*") ≡ highest (codes "v1.2.0")
unfolding highest_match sort_by is_stable_semver split compare_cores compare_int semver_parts
highest_one = refl

one_digit : (n : ℕ) → 48 ≤ n → n ≤ 57 → IsNumber (n ∷ []) (n - 48)
one_digit n low high = (omega arith, inl ((low, high, tt), omega arith))

old_spelled : Spells (codes "v1.0.0") 1 0 0
old_spelled = inr (
  codes "1.0.0",
  refl,
  (
    codes "1",
    codes "0",
    one_digit 49 (omega arith) (omega arith),
    one_digit 48 (omega arith) (omega arith),
    inr (codes "0", one_digit 48 (omega arith) (omega arith), refl),
  ),
)

highest_match-IsAtMost_example :
    Occurs (codes "v1.2.0") tags
    × (path_match (codes "v1*") (codes "v1.2.0") ≡ some true)
    × ((x : ℕ) × (y : ℕ) × (z : ℕ) × Spells (codes "v1.2.0") x y z × IsAtMost 1 0 0 x y z)
highest_match-IsAtMost_example =
    highest_match-IsAtMost path_match (codes "v1*") (codes "v1.2.0") (codes "v1.0.0") tags 1 0 0
      highest_one (inr (inl refl)) refl old_spelled

is_behind : drift path_match ordered_channel (codes "stable") installed refs ≡ behind newest
unfolding drift sort_by str_eq compare_str group compare_cores compare_int split lookup rank_of
is_behind = refl

not_unrefined : ordered_channel ≢ channel
not_unrefined e = cc

drift-settles_example :
    drift path_match ordered_channel (codes "stable") (moved_to newest []) refs ≡ settled
drift-settles_example =
    drift-settles path_match ordered_channel (codes "stable") [] installed refs newest
      (λ e. absurd (not_unrefined e)) is_behind

classified_stable : classify_selector path_match (codes "stable") refs ≡ some ordered_channel
unfolding classify_selector str_eq sort_by compare_str group compare_classified compare_cores
    compare_int split
classified_stable = refl

stable-IsPlain : IsPlain (codes "stable")
unfolding cut_prefix str_eq
stable-IsPlain = (refl, refl)

head_branch : lookup refs.head refs.branches ≡ some (codes "c4")
unfolding lookup str_eq
head_branch = refl

not_constraint : ordered_channel ≢ constraint
not_constraint e = cc

classify_selector-target_example :
    (a : Available) × (target path_match ordered_channel (codes "stable") refs ≡ some a)
classify_selector-target_example =
    classify_selector-target path_match (codes "stable") (codes "c4") refs ordered_channel
      stable-IsPlain head_branch classified_stable not_constraint

stable_target : target path_match channel (codes "stable") refs ≡ some newest
unfolding target sort_by str_eq compare_str group compare_classified compare_cores compare_int split
    lookup
stable_target = refl

target-admitted_example :
    admit path_match channel (codes "stable") (codes "v1.2.0") refs ≡ admitted newest
target-admitted_example =
    target-admitted path_match channel (codes "stable") refs newest (λ e. stable-IsPlain)
      stable_target

-- A lister that answers the refs above, and later nothing.
abbrev answered : Namespace → Option RefSnapshot
answered ns = some refs

abbrev silent : Namespace → Option RefSnapshot
silent ns = none

abbrev earlier : List SnapshotCall
earlier = to_snapshot answered 10 11 (codes "git.io/u/game@v1") ∷ []

served :
    (snapshot 60 silent 50 51 (codes "git.io/u/game@stable") (after_calls 60 earlier [])).0
    ≡ some refs
unfolding snapshot after_calls str_eq cut
served = refl

served_no_longer :
    (snapshot 60 silent 72 73 (codes "git.io/u/game@stable") (after_calls 60 earlier [])).0 ≡ none
unfolding snapshot after_calls str_eq cut
served_no_longer = refl

snapshot-recent_example :
    (silent (bare_namespace (codes "git.io/u/game@stable")) ≡ some refs)
    ⊎ ((c : SnapshotCall) × (t : ℕ) × Occurs c earlier
        × IsAnswered (bare_namespace (codes "git.io/u/game@stable")) refs t c
        × (50 ≤ t + 60))
snapshot-recent_example =
    snapshot-recent 60 50 51 silent earlier (codes "git.io/u/game@stable") refs served
