-- ===== src/Versioning/Channels.antt =====
-- internal/engine/manifold/versioning/internal/selector/channels.go, with the search of selector.go and
-- the order of resolver/resolvers/newest_first.go: the channels that a repository's refs make.
pub mod Found
use quiver_core.Prelude.{
  contains, put_new, ℕ, Bool, true, false, ◌&&◌, ◌||◌, not, Option, none, some, List, [], ◌∷◌, ◌++◌,
  map, map_option, keep, length, Str, str_eq, is_empty, Dict, lookup, Ordering, lt, eq, gt,
  compare_str, sort_by, if◌then◌else◌,
}
use quiver_core.Domain.Selector.{RefSnapshot}
use quiver_core.Versioning.Number.{Core, compare_cores, semver_parts}
use quiver_core.Versioning.Classify.{stable_channel, parse_tag_full}
use quiver_core.Versioning.Ranking.{TagChannel, group_channels}

pub data ChannelKind : Type 0 where
  ordered pointer : ChannelKind

pub record ChannelInfo : Type 0 where
  pub name : Str
  pub kind : ChannelKind
  pub latest : Str
  pub count : ℕ
  pub members : List Str
  pub is_default_branch_fallback : Bool

unfoldable pub is_ordered : ChannelKind → Bool
is_ordered ordered = true
is_ordered pointer = false

-- The keys of a map, each one once.
unfoldable pub keys : Dict Str → List Str
unfolding put_new
keys [] = []
keys ((k, v) ∷ m) = put_new k (keys m)

unfoldable pub sorted_tags : RefSnapshot → List Str
unfolding keys
sorted_tags snap = sort_by compare_str (keys snap.tags)

-- `Members[0]`; a channel of tags has a member.
unfoldable pub first_or_empty : List Str → Str
first_or_empty [] = []
first_or_empty (t ∷ tags) = t

unfoldable pub ordered_info : TagChannel → ChannelInfo
unfolding first_or_empty
ordered_info channel = record {
  name = channel.name;
  kind = ordered;
  latest = first_or_empty channel.members;
  count = length channel.members;
  members = channel.members;
  is_default_branch_fallback = false;
}

unfoldable pub pointer_info : Bool → Str → ChannelInfo
pointer_info fallback ref = record {
  name = ref;
  kind = pointer;
  latest = ref;
  count = 0;
  members = [];
  is_default_branch_fallback = fallback;
}

-- The keys of `consumed`.
unfoldable pub consumed : List TagChannel → List Str
consumed [] = []
consumed (channel ∷ channels) = channel.members ++ consumed channels

unfoldable pub default_fallback : List Str → Str → List ChannelInfo
unfolding pointer_info
default_fallback (t ∷ tags) head = []
default_fallback [] head = if is_empty head then [] else pointer_info true head ∷ []

-- The order by a test of what is less, as of `sort.Slice`.
unfoldable pub order_of : Bool → Bool → Ordering
order_of true more = lt
order_of false true = gt
order_of false false = eq

unfoldable pub less_str : Str → Str → Bool
less_str a b = elim (compare_str a b) [ lt ↦ true | _ ↦ false ]

unfoldable pub less_kind : ChannelKind → ChannelKind → Bool → Bool
less_kind ordered pointer by_name = true
less_kind pointer ordered by_name = false
less_kind ordered ordered by_name = by_name
less_kind pointer pointer by_name = by_name

unfoldable pub less_channel : ChannelInfo → ChannelInfo → Bool
unfolding less_kind less_str
less_channel a b =
    if str_eq a.name stable_channel
    then not (str_eq b.name stable_channel)
    else if str_eq b.name stable_channel
    then false
    else less_kind a.kind b.kind (less_str a.name b.name)

-- Go's sort leaves the order of two that compare alike open, which are an ordered channel and a tag that
-- are both named stable; here it is the order they had.
unfoldable pub sort_channels : List ChannelInfo → List ChannelInfo
unfolding order_of less_channel
sort_channels channels = sort_by (λ a b. order_of (less_channel a b) (less_channel b a)) channels

unfoldable pub listed : List Str → Str → List TagChannel → List ChannelInfo
unfolding ordered_info pointer_info consumed contains default_fallback
listed tags head groups =
    map ordered_info groups
    ++ (map (pointer_info false) (keep (λ t. not (contains (consumed groups) t)) tags)
        ++ default_fallback tags head)

unfoldable pub channels_of : RefSnapshot → List ChannelInfo
unfolding sorted_tags listed group_channels sort_channels
channels_of snap =
    let tags = sorted_tags snap in sort_channels (listed tags snap.head (group_channels tags))

-- The loop of `FindChannel`, with what it has found.
unfoldable pub find_in : Str → Option ChannelInfo → List ChannelInfo → Option ChannelInfo
unfolding is_ordered
find_in selector found [] = found
find_in selector found (c ∷ cs) =
    let named = str_eq c.name selector in
    let rest = find_in selector (if named then some c else found) cs in
    if named && is_ordered c.kind then some c else rest

unfoldable pub find_channel : Str → RefSnapshot → Option ChannelInfo
unfolding find_in channels_of
find_channel selector snap = find_in selector none (channels_of snap)

unfoldable pub latest_stable : RefSnapshot → Option Str
unfolding find_channel
latest_stable snap = map_option (λ (c : ChannelInfo). c.latest) (find_channel stable_channel snap)

unfoldable pub default_branch : RefSnapshot → Option (Str × Str)
default_branch snap = elim (lookup snap.head snap.branches) [
  | none ↦ none
  | some commit ↦ if is_empty snap.head then none else some (snap.head, commit)
]

unfoldable pub core_of : Str → Core
unfolding parse_tag_full semver_parts
core_of tag = elim (parse_tag_full tag) [ none ↦ semver_parts [] | some p ↦ semver_parts p.core ]

unfoldable pub newer_than : ChannelInfo → ChannelInfo → Ordering
unfolding core_of is_ordered
newer_than a b =
    if is_ordered a.kind
    then (if is_ordered b.kind then compare_cores (core_of b.latest) (core_of a.latest) else lt)
    else (if is_ordered b.kind then gt else eq)

unfoldable pub newest_first : List ChannelInfo → List ChannelInfo
unfolding newer_than
newest_first channels = sort_by newer_than channels

unfoldable pub first_name : List ChannelInfo → Option Str
first_name [] = none
first_name (c ∷ cs) = some c.name

unfoldable pub default_of : List ChannelInfo → Option Str
unfolding first_name newest_first
default_of [] = none
default_of (c ∷ cs) =
    if str_eq c.name stable_channel then some stable_channel else first_name (newest_first (c ∷ cs))

-- None where there is no channel.
unfoldable pub default_channel : RefSnapshot → Option Str
unfolding default_of channels_of
default_channel snap = default_of (channels_of snap)
