-- ===== src/Versioning/Drift.antt =====
-- internal/engine/manifold/versioning/internal/drift/drift.go: the target of a selector, and whether a
-- row is behind it.
pub mod Settled
pub mod Classified
use quiver_core.Prelude.{
  contains, Bool, true, false, ◌&&◌, ◌||◌, not, Option, none, some, List, [], ◌∷◌, Str, str_eq,
  is_empty, lookup, find_first, if◌then◌else◌,
}
use quiver_core.Domain.Selector.{
  SelectorKind, pin, tag_pin, branch_pin, channel, ordered_channel, pointer_channel, branch_channel,
  constraint, commit_pin, unknown, RefSnapshot, Resolved, commit,
}
use quiver_core.Versioning.Ranking.{
  Match, highest, no_match, bad_pattern, highest_match, outranks, constraint_outranks,
}
use quiver_core.Versioning.Channels.{
  ChannelInfo, is_ordered, channels_of, find_channel, sorted_tags,
}
use quiver_core.Versioning.Selector.{pinned_ref}

pub record Available : Type 0 where
  pub ref : Str
  pub commit : Str

-- `snap.Tags[ref]`, which is empty for a tag that is not there.
unfoldable pub value_or_empty : Option Str → Str
value_or_empty none = []
value_or_empty (some hash) = hash

unfoldable pub available_at : Str → Option Str → Option Available
available_at ref none = none
available_at ref (some hash) = some (record { ref = ref; commit = hash })

-- The loop of `orderedTarget`.
unfoldable pub is_ordered_named : Str → ChannelInfo → Bool
unfolding is_ordered
is_ordered_named selector c = str_eq c.name selector && is_ordered c.kind

unfoldable pub find_ordered : Str → List ChannelInfo → Option ChannelInfo
unfolding find_first is_ordered_named
find_ordered selector cs = find_first (is_ordered_named selector) cs

unfoldable pub latest_tag : RefSnapshot → Option ChannelInfo → Option Available
unfolding value_or_empty
latest_tag snap none = none
latest_tag snap (some c) =
    some (record { ref = c.latest; commit = value_or_empty (lookup c.latest snap.tags) })

unfoldable pub ordered_target : Str → RefSnapshot → Option Available
unfolding find_ordered latest_tag channels_of
ordered_target selector snap = latest_tag snap (find_ordered selector (channels_of snap))

unfoldable pub found_target : RefSnapshot → Option ChannelInfo → Option Available
unfolding available_at commit
found_target snap none = none
found_target snap (some c) = available_at c.latest (commit snap c.latest)

unfoldable pub channel_target : Str → RefSnapshot → Option Available
unfolding find_channel found_target
channel_target selector snap = found_target snap (find_channel selector snap)

unfoldable pub match_target : RefSnapshot → Match → Option Available
unfolding value_or_empty
match_target snap no_match = none
match_target snap bad_pattern = none
match_target snap (highest ref) =
    some (record { ref = ref; commit = value_or_empty (lookup ref snap.tags) })

unfoldable pub default_branch_target : Str → Resolved → RefSnapshot → Option Available
unfolding available_at
default_branch_target selector resolved snap =
    if not (str_eq selector snap.head) || not (str_eq resolved.ref selector)
    then none
    else available_at selector (lookup selector snap.branches)

-- The loop of `formerChannelTarget`.
unfoldable pub is_holding : Str → ChannelInfo → Bool
unfolding is_ordered contains
is_holding ref c = is_ordered c.kind && contains c.members ref

unfoldable pub find_holding : Str → List ChannelInfo → Option ChannelInfo
unfolding find_first is_holding
find_holding ref cs = find_first (is_holding ref) cs

unfoldable pub former_channel_target : Str → RefSnapshot → Option Available
unfolding find_holding latest_tag channels_of
former_channel_target ref snap =
    if is_empty ref then none else latest_tag snap (find_holding ref (channels_of snap))

-- A target, or the fallback for one that is unknown.
unfoldable pub target_or : Option Available → Option Available → Option Available
target_or (some target) fallback = some target
target_or none fallback = fallback

unfoldable pub fallback_target : SelectorKind → Str → Resolved → RefSnapshot → Option Available
unfolding target_or default_branch_target former_channel_target
fallback_target channel selector resolved snap =
    target_or (default_branch_target selector resolved snap)
      (former_channel_target resolved.ref snap)
fallback_target ordered_channel selector resolved snap = former_channel_target resolved.ref snap
fallback_target _ selector resolved snap = none

unfoldable pub kind_outranks : SelectorKind → Str → Str → Bool
unfolding outranks constraint_outranks
kind_outranks channel a b = outranks a b
kind_outranks ordered_channel a b = outranks a b
kind_outranks constraint a b = constraint_outranks a b
kind_outranks _ a b = false

unfoldable pub is_downgrade : SelectorKind → Resolved → Available → RefSnapshot → Bool
unfolding kind_outranks
is_downgrade kind resolved target snap =
    if str_eq target.ref resolved.ref then false else elim (lookup resolved.ref snap.tags) [
      | none ↦ false
      | some installed ↦ kind_outranks kind resolved.ref target.ref
    ]

-- What a check for drift reports: that the target is unknown, that the row is at it (or keeps what it
-- has), or the target to move to.
pub data Drifted : Type 0 where
  no_target settled : Drifted
  behind : Available → Drifted

unfoldable pub is_at : Available → Resolved → Bool
is_at target resolved = str_eq target.ref resolved.ref && str_eq target.commit resolved.commit

unfoldable pub drift_to : SelectorKind → Resolved → RefSnapshot → Option Available → Drifted
unfolding is_at is_downgrade
drift_to kind resolved snap none = no_target
drift_to kind resolved snap (some target) =
    if is_at target resolved
    then settled
    else if is_downgrade kind resolved target snap
    then settled
    else behind target

unfoldable pub is_commit_pin : SelectorKind → Bool
is_commit_pin commit_pin = true
is_commit_pin _ = false

-- `path_match` is `path.Match` of Go's standard library, where none is its error.
module _ (path_match : Str → Str → Option Bool) where
  unfoldable pub constraint_target : Str → RefSnapshot → Option Available
  unfolding match_target highest_match sorted_tags
  constraint_target selector snap =
      match_target snap (highest_match path_match (sorted_tags snap) selector)

  -- None is an unknown selector, or a target that is not there.
  unfoldable pub target : SelectorKind → Str → RefSnapshot → Option Available
  unfolding channel_target ordered_target constraint_target pinned_ref available_at
  target channel selector snap = channel_target selector snap
  target ordered_channel selector snap = ordered_target selector snap
  target constraint selector snap = constraint_target selector snap
  target commit_pin selector snap = some (record { ref = selector; commit = selector })
  target (unknown s) selector snap = none
  target kind selector snap =
      let (ref, hash) = pinned_ref kind selector snap in available_at ref hash

  unfoldable pub drift : SelectorKind → Str → Resolved → RefSnapshot → Drifted
  unfolding is_commit_pin target target_or fallback_target drift_to
  drift kind selector resolved snap =
      if is_commit_pin kind
      then settled
      else drift_to kind resolved snap
          (target_or (target kind selector snap) (fallback_target kind selector resolved snap))
