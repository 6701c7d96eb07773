-- ===== src/Versioning/Admit.antt =====
-- internal/engine/manifold/versioning/internal/admit/admit.go: the refs that a row may be declared at.
pub mod Refs
pub mod Targets
use quiver_core.Prelude.{
  contains, Bool, true, false, ◌&&◌, not, Option, none, some, is_some, List, [], ◌∷◌, Str, str_eq,
  if◌then◌else◌,
}
use quiver_core.Domain.Selector.{
  SelectorKind, pin, tag_pin, branch_pin, channel, ordered_channel, pointer_channel, branch_channel,
  constraint, commit_pin, unknown, RefSnapshot, commit,
}
use quiver_core.Versioning.Number.{lower_case}
use quiver_core.Versioning.Channels.{ChannelInfo, is_ordered, find_channel}
use quiver_core.Versioning.Selector.{cut_prefix, followed_ref, ref_commit}
use quiver_core.Versioning.Drift.{Available, is_commit_pin}

pub data Admission : Type 0 where
  admitted : Available → Admission
  unknown_selector not_admitted : Admission

-- `channelAdmits` of the channel that is found.
unfoldable pub found_admits : Str → Str → Str → Option ChannelInfo → Bool
unfolding is_ordered contains
found_admits selector ref head none = str_eq selector head && str_eq ref selector
found_admits selector ref head (some c) =
    if is_ordered c.kind then contains c.members ref else str_eq c.latest ref

unfoldable pub channel_admits : Str → Str → RefSnapshot → Bool
unfolding find_channel found_admits
channel_admits selector ref snap = found_admits selector ref snap.head (find_channel selector snap)

unfoldable pub found_holds : Str → Option ChannelInfo → Bool
unfolding is_ordered contains
found_holds ref none = false
found_holds ref (some c) = is_ordered c.kind && contains c.members ref

unfoldable pub ordered_admits : Str → Str → RefSnapshot → Bool
unfolding find_channel found_holds
ordered_admits selector ref snap = found_holds ref (find_channel selector snap)

unfoldable pub is_true : Option Bool → Bool
is_true none = false
is_true (some b) = b

-- `strings.EqualFold`, in ASCII.
unfoldable pub equal_fold : Str → Str → Bool
unfolding lower_case
equal_fold a b = str_eq (lower_case a) (lower_case b)

-- `path_match` is `path.Match` of Go's standard library, where none is its error.
module _ (path_match : Str → Str → Option Bool) where
  unfoldable pub admits : SelectorKind → Str → Str → Str → RefSnapshot → Bool
  unfolding channel_admits ordered_admits is_true lower_case cut_prefix followed_ref
  admits channel selector ref hash snap = channel_admits selector ref snap
  admits ordered_channel selector ref hash snap = ordered_admits selector ref snap
  admits constraint selector ref hash snap = is_true (path_match selector ref)
  admits commit_pin selector ref hash snap =
      is_some (cut_prefix (lower_case hash) (lower_case selector))
  admits (unknown s) selector ref hash snap = false
  admits kind selector ref hash snap = str_eq (followed_ref kind selector).0 ref

  -- The test of the row's own ref.
  unfoldable pub admit_at : SelectorKind → Str → Str → RefSnapshot → Option Str → Admission
  unfolding admits
  admit_at kind selector ref snap none = not_admitted
  admit_at kind selector ref snap (some hash) =
      if admits kind selector ref hash snap
      then admitted (record { ref = ref; commit = hash })
      else not_admitted

  unfoldable pub admit : SelectorKind → Str → Str → RefSnapshot → Admission
  unfolding is_commit_pin equal_fold commit ref_commit admit_at
  admit kind selector ref snap =
      if is_commit_pin kind && equal_fold ref selector
      then admitted (record { ref = selector; commit = selector })
      else elim (commit snap ref) [
        | none ↦ unknown_selector
        | some found ↦ admit_at kind selector ref snap (ref_commit kind selector ref snap)
      ]
