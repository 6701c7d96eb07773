-- ===== src/Versioning/Ranking.antt =====
-- internal/engine/manifold/resolver/resolvers: the order of the tags of a channel, and of those that a
-- constraint matches.
pub mod Total
pub mod Groups
pub mod Partition
pub mod Spelling
pub mod Spelled
pub mod Tags
pub mod Matches
use quiver_core.Prelude.{
  put_new, ℕ, zero, suc, leb, Bool, true, false, ◌&&◌, ◌||◌, not, Option, none, some, is_some, List,
  [], ◌∷◌, ◌++◌, map, keep, Str, str_eq, codes, ℤ, pos, lt_int, Ordering, lt, eq, gt, compare,
  compare_int, compare_str, or_else, sort_by, if◌then◌else◌,
}
use quiver_core.Versioning.Pattern.{Parsed}
use quiver_core.Versioning.Number.{Core, compare_cores, is_stable_semver, semver_parts}
use quiver_core.Versioning.Classify.{
  ClassifiedTag, rank_of, classify_all, parse_tag_full, is_known_channel, normalize_version_prefix,
}

abbrev pub calendar_major : ℤ
calendar_major = pos 20

unfoldable pub any_dated : List ClassifiedTag → Bool
any_dated [] = false
any_dated (c ∷ cs) = c.dated || any_dated cs

unfoldable pub any_calendar : List ClassifiedTag → Bool
any_calendar [] = false
any_calendar (c ∷ cs) = (not c.dated && not (lt_int c.core.first calendar_major)) || any_calendar cs

unfoldable pub raise_versions : List ClassifiedTag → List ClassifiedTag
raise_versions [] = []
raise_versions (c ∷ cs) = (if c.dated then c else record c { tier = 1 }) ∷ raise_versions cs

unfoldable pub tier_against_dates : List ClassifiedTag → List ClassifiedTag
unfolding any_dated any_calendar raise_versions
tier_against_dates members =
    if not (any_dated members)
    then members
    else if any_calendar members
    then members
    else raise_versions members

unfoldable pub compare_classified : ClassifiedTag → ClassifiedTag → Ordering
unfolding or_else
compare_classified a b = or_else (compare b.tier a.tier) (
    or_else (compare_cores b.core a.core)
      (or_else (compare_int b.ordinal a.ordinal) (compare_str b.tag a.tag)))

unfoldable pub tags_of : List ClassifiedTag → List Str
tags_of [] = []
tags_of (c ∷ cs) = c.tag ∷ tags_of cs

pub record TagChannel : Type 0 where
  pub name : Str
  pub members : List Str

-- The keys of `byChannel`: each channel once.
unfoldable pub channel_names : List ClassifiedTag → List Str
unfolding put_new
channel_names [] = []
channel_names (c ∷ cs) = put_new c.channel (channel_names cs)

-- `byChannel[name]`
unfoldable pub in_channel : Str → List ClassifiedTag → List ClassifiedTag
in_channel name cs = keep (λ (c : ClassifiedTag). str_eq c.channel name) cs

-- One round of the loop of `GroupChannels`.
unfoldable pub group : List ClassifiedTag → Str → TagChannel
unfolding in_channel tier_against_dates tags_of
group cs name = record {
  name = name;
  members = tags_of (sort_by compare_classified (tier_against_dates (in_channel name cs)));
}

unfoldable pub group_channels : List Str → List TagChannel
unfolding classify_all channel_names
group_channels tags =
    let cs = classify_all tags in map (group cs) (sort_by compare_str (channel_names cs))

unfoldable pub first_ranks_above : List ClassifiedTag → Bool
unfolding compare_classified
first_ranks_above (a ∷ b ∷ []) = elim (compare_classified a b) [ lt ↦ true | _ ↦ false ]
first_ranks_above _ = false

unfoldable pub ranks_above : Option ClassifiedTag → Option ClassifiedTag → Bool
unfolding first_ranks_above tier_against_dates
ranks_above (some a) (some b) =
    if not (str_eq a.channel b.channel)
    then false
    else first_ranks_above (tier_against_dates (a ∷ b ∷ []))
ranks_above _ _ = false

unfoldable pub outranks : Str → Str → Bool
unfolding ranks_above
outranks a b = ranks_above (rank_of a) (rank_of b)

unfoldable pub channel_word_tag : Str → Option ClassifiedTag
unfolding is_known_channel normalize_version_prefix
channel_word_tag tag = elim (parse_tag_full tag) [
  | none ↦ none
  | some p ↦ if is_known_channel (normalize_version_prefix p.prefix) then rank_of tag else none
]

-- `semver`, `channelled` and `rest` of `sortTagsDesc`.
unfoldable pub semver_tags : List Str → List Str
semver_tags tags = keep is_stable_semver tags

unfoldable pub channelled_tags : List Str → List ClassifiedTag
unfolding channel_word_tag
channelled_tags [] = []
channelled_tags (t ∷ tags) =
    let more = channelled_tags tags in
    if is_stable_semver t
    then more
    else elim (channel_word_tag t) [ none ↦ more | some c ↦ c ∷ more ]

unfoldable pub rest_tags : List Str → List Str
unfolding channel_word_tag
rest_tags tags = keep (λ t. not (is_stable_semver t) && not (is_some (channel_word_tag t))) tags

unfoldable pub compare_semver : Str → Str → Ordering
unfolding or_else
compare_semver a b = or_else (compare_cores (semver_parts b) (semver_parts a)) (compare_str b a)

unfoldable pub compare_lex_desc : Str → Str → Ordering
compare_lex_desc a b = compare_str b a

-- The early return for tags that are neither comes to the same sort of them all.
unfoldable pub sort_tags_desc : List Str → List Str
unfolding semver_tags channelled_tags rest_tags compare_semver compare_lex_desc tags_of
sort_tags_desc tags =
    sort_by compare_semver (semver_tags tags)
    ++ (tags_of (sort_by compare_classified (tier_against_dates (channelled_tags tags)))
        ++ sort_by compare_lex_desc (rest_tags tags))

unfoldable pub is_first : Str → List Str → Bool
is_first a [] = false
is_first a (t ∷ tags) = str_eq t a

unfoldable pub constraint_outranks : Str → Str → Bool
unfolding sort_tags_desc is_first
constraint_outranks a b = is_first a (sort_tags_desc (b ∷ a ∷ [])) && not (str_eq a b)

pub data Match : Type 0 where
  -- The highest tag that matches.
  highest : Str → Match
  no_match bad_pattern : Match

unfoldable pub put_matching : Option Bool → Str → Option (List Str) → Option (List Str)
put_matching none tag rest = none
put_matching (some true) tag none = none
put_matching (some true) tag (some tags) = some (tag ∷ tags)
put_matching (some false) tag rest = rest

unfoldable pub first_match : List Str → Match
first_match [] = no_match
first_match (t ∷ tags) = highest t

unfoldable pub match_of : Option (List Str) → Match
unfolding first_match sort_tags_desc
match_of none = bad_pattern
match_of (some matched) = first_match (sort_tags_desc matched)

-- `path_match` is `path.Match` of Go's standard library, where none is its error.
module _ (path_match : Str → Str → Option Bool) where
  -- The loop of `HighestMatch`: the tags that match, or none for an error of the pattern.
  unfoldable pub matching : Str → List Str → Option (List Str)
  unfolding put_matching
  matching pattern [] = some []
  matching pattern (t ∷ tags) = put_matching (path_match pattern t) t (matching pattern tags)

  unfoldable pub highest_match : List Str → Str → Match
  unfolding matching match_of
  highest_match tags pattern = match_of (matching pattern tags)
