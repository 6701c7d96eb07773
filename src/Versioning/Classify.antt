-- ===== src/Versioning/Classify.antt =====
-- internal/engine/manifold/resolver/resolvers/channel.go: what a tag says by itself and among others.
use quiver_core.Prelude.{
  contains, ℕ, suc, ◌+◌, ◌-◌, ltb, leb, ◌==◌, Bool, true, false, ◌&&◌, ◌||◌, not, Option, none,
  some, is_some, List, [], ◌∷◌, ◌++◌, Str, str_eq, is_empty, codes, ℤ, pos, if◌then◌else◌,
}
use quiver_core.Versioning.Pattern.{
  is_separator, Parsed, Dated, lazy_any, ordinal_pattern, date_pattern, letters_digits,
}
use quiver_core.Versioning.Number.{
  lower_case, number, error_with, atoi, atoi_value, itoa_short, as_natural, Core, semver_parts,
}

abbrev pub stable_channel : Str
stable_channel = codes "stable"

abbrev pub date_epoch : ℕ
date_epoch = 2000

abbrev pub known_channels : List Str
known_channels =
    codes "alpha"
    ∷ codes "beta"
    ∷ codes "canary"
    ∷ codes "dev"
    ∷ codes "edge"
    ∷ codes "hotfix"
    ∷ codes "insiders"
    ∷ codes "next"
    ∷ codes "nightly"
    ∷ codes "preview"
    ∷ codes "rc"
    ∷ stable_channel
    ∷ []

unfoldable pub is_known_channel : Str → Bool
unfolding contains
is_known_channel prefix = contains known_channels prefix

-- `strings.TrimLeft(s, "-_.")`
unfoldable pub trim_left : Str → Str
unfolding is_separator
trim_left [] = []
trim_left (c ∷ s) = let rest = trim_left s in if is_separator c then rest else c ∷ s

-- `strings.TrimRight(s, "-_.")`
unfoldable pub trim_right : Str → Str
unfolding is_separator
trim_right [] = []
trim_right (c ∷ s) =
    let rest = trim_right s in if is_empty rest && is_separator c then [] else c ∷ rest

unfoldable pub normalize_version_prefix : Str → Str
unfolding trim_right lower_case
normalize_version_prefix prefix =
    let lowered = lower_case (trim_right prefix) in
    if str_eq lowered (codes "v") then [] else lowered

unfoldable pub valid_date : Str → Str → Str → Bool
unfolding atoi_value as_natural
valid_date year month day =
    let y = as_natural (atoi_value year) in
    let m = as_natural (atoi_value month) in
    let d = as_natural (atoi_value day) in
    (leb date_epoch y && ltb y (date_epoch + 100))
    && ((leb 1 m && leb m 12) && (leb 1 d && leb d 31))

unfoldable pub date_core : Str → Str → Str → Str → Str
unfolding itoa_short atoi_value as_natural
date_core year month day patch =
    itoa_short (as_natural (atoi_value year) - date_epoch)
    ++ (46 ∷ month ++ (46 ∷ day ++ (46 ∷ (if is_empty patch then codes "0" else patch))))

-- The first test of `parseTagFull`: a date behind a channel word.
unfoldable pub parse_date : Option Dated → Option Parsed
unfolding is_known_channel normalize_version_prefix valid_date date_core trim_left
parse_date none = none
parse_date (some m) =
    if is_known_channel (normalize_version_prefix m.prefix) && valid_date m.year m.month m.day
    then some (record {
      prefix = m.prefix;
      core = date_core m.year m.month m.day m.patch;
      suffix = trim_left m.suffix;
    })
    else none

unfoldable pub parse_version : Option Parsed → Option Parsed
unfolding trim_left
parse_version none = none
parse_version (some m) =
    some (record { prefix = m.prefix; core = m.core; suffix = trim_left m.suffix })

unfoldable pub parse_tag_full : Str → Option Parsed
unfolding parse_date parse_version date_pattern ordinal_pattern lazy_any
parse_tag_full tag = elim (parse_date (date_pattern tag)) [
  | some parsed ↦ some parsed
  | none ↦ parse_version (ordinal_pattern (lazy_any tag))
]

unfoldable pub has_version_core : Str → Bool
unfolding parse_tag_full
has_version_core tag = is_some (parse_tag_full tag)

-- `strings.Count(core, ".")`
unfoldable pub count_dots : Str → ℕ
count_dots [] = 0
count_dots (c ∷ s) = let rest = count_dots s in if c == 46 then suc rest else rest

unfoldable pub is_date_core : Str → Bool
unfolding count_dots
is_date_core core = count_dots core == 3

-- `ClassifyChannel`, without whether there is an ordinal, which its callers here leave aside.
unfoldable pub classify_channel : Str → Str × ℤ
unfolding letters_digits lower_case atoi_value
classify_channel suffix = elim (letters_digits suffix) [
  | none ↦ (lower_case suffix, pos 0)
  | some (letters, digits) ↦
      (lower_case letters, if is_empty digits then pos 0 else atoi_value digits)
]

unfoldable pub classify_by_prefix : Str → Bool → ℤ → Str × ℤ
unfolding is_known_channel
classify_by_prefix prefix meaningful ordinal =
    if not (is_empty prefix) && (meaningful || is_known_channel prefix)
    then (prefix, ordinal)
    else (stable_channel, ordinal)

unfoldable pub classify_one : Str → Str → Bool → Str × ℤ
unfolding classify_by_prefix classify_channel atoi
classify_one suffix prefix meaningful =
    if is_empty suffix then classify_by_prefix prefix meaningful (pos 0) else elim (atoi suffix) [
      | number n ↦ classify_by_prefix prefix meaningful n
      | error_with n ↦ classify_channel suffix
    ]

pub record ClassifiedTag : Type 0 where
  pub tag : Str
  pub channel : Str
  pub core : Core
  pub ordinal : ℤ
  pub dated : Bool
  pub tier : ℕ

-- A tag with its parts, classified.
unfoldable pub classified : Bool → Str → Parsed → ClassifiedTag
unfolding classify_one normalize_version_prefix semver_parts is_date_core
classified meaningful tag p =
    let (channel, ordinal) = classify_one p.suffix (normalize_version_prefix p.prefix) meaningful in
    record {
      tag = tag;
      channel = channel;
      core = semver_parts p.core;
      ordinal = ordinal;
      dated = is_date_core p.core;
      tier = 0;
    }

unfoldable pub rank_of : Str → Option ClassifiedTag
unfolding parse_tag_full classified
rank_of tag = elim (parse_tag_full tag) [ none ↦ none | some p ↦ some (classified false tag p) ]

unfoldable pub put_entry : Str → Option Parsed → List (Str × Parsed) → List (Str × Parsed)
put_entry tag none rest = rest
put_entry tag (some p) rest = (tag, p) ∷ rest

-- `entries`, of the first loop of `classifyAll`.
unfoldable pub entries : List Str → List (Str × Parsed)
unfolding put_entry parse_tag_full
entries [] = []
entries (tag ∷ tags) = put_entry tag (parse_tag_full tag) (entries tags)

-- `prefixValues`, of the same loop, with repetitions.
unfoldable pub prefix_values : List (Str × Parsed) → List Str
unfolding normalize_version_prefix is_known_channel
prefix_values [] = []
prefix_values ((tag, p) ∷ es) =
    let norm = normalize_version_prefix p.prefix in
    if is_known_channel norm then prefix_values es else norm ∷ prefix_values es

unfoldable pub all_equal : Str → List Str → Bool
all_equal s [] = true
all_equal s (t ∷ ts) = if str_eq s t then all_equal s ts else false

-- `len(prefixValues) > 1`
unfoldable pub is_varied : List Str → Bool
unfolding all_equal
is_varied [] = false
is_varied (s ∷ ss) = not (all_equal s ss)

unfoldable pub classify_entries : Bool → List (Str × Parsed) → List ClassifiedTag
unfolding classified
classify_entries meaningful [] = []
classify_entries meaningful ((tag, p) ∷ es) =
    classified meaningful tag p ∷ classify_entries meaningful es

unfoldable pub classify_all : List Str → List ClassifiedTag
unfolding entries prefix_values is_varied classify_entries
classify_all tags = let es = entries tags in classify_entries (is_varied (prefix_values es)) es
