-- ===== src/Versioning/Admit/Refs.antt =====
-- internal/engine/manifold/versioning/internal/admit/admit.go: what admits a ref.
use quiver_core.Prelude.{
  Occurs-contains, contains, Bool, true, false, ◌&&◌, Option, none, some, List, [], ◌∷◌, Str,
  str_eq, str_eq_iff, lookup, find_first, Occurs, if◌then◌else◌, Option-cases, ◌≡◌, inl, inr, refl,
  ap, ◌∙◌,
}
use quiver_core.Domain.Selector.{SelectorKind, RefSnapshot, commit, tag_or}
use quiver_core.Versioning.Channels.{ChannelInfo, is_ordered, channels_of, find_channel, find_in}
use quiver_core.Versioning.Channels.Found.{find_channel-Occurs, latest-Occurs}
use quiver_core.Versioning.Selector.{
  RefSource, ref_either, ref_tag, ref_branch, lookup_ref, ref_commit,
}
use quiver_core.Versioning.Drift.{is_ordered_named, find_ordered, is_commit_pin}
use quiver_core.Versioning.Admit.{
  admitted, found_admits, found_holds, channel_admits, ordered_admits, admits, admit_at, admit,
}

pub commit-tag :
    (snap : RefSnapshot) (ref v : Str) → lookup ref snap.tags ≡ some v → commit snap ref ≡ some v
unfolding commit tag_or
commit-tag snap ref v e = rw e refl

commit-branch :
    (snap : RefSnapshot) (ref v : Str)
    → lookup ref snap.tags ≡ none
    → lookup ref snap.branches ≡ some v
    → commit snap ref ≡ some v
unfolding commit tag_or
commit-branch snap ref v n e = rw n e

pub lookup_ref-commit :
    (source : RefSource) (name v : Str) (snap : RefSnapshot)
    → lookup_ref source name snap ≡ some v
    → (w : Str) × (commit snap name ≡ some w)
unfolding lookup_ref
lookup_ref-commit ref_tag name v snap e = (v, commit-tag snap name v e)
lookup_ref-commit ref_either name v snap e = (v, e)
lookup_ref-commit ref_branch name v snap e = elim (Option-cases (lookup name snap.tags)) [
  | inl n ↦ (v, commit-branch snap name v n e)
  | inr (w, t) ↦ (w, commit-tag snap name w t)
]

-- A ref that has a commit, one for the row, and is admitted.
pub admit-admitted :
    (path_match : Str → Str → Option Bool) (kind : SelectorKind) (selector ref v w : Str)
    (snap : RefSnapshot)
    → is_commit_pin kind ≡ false
    → commit snap ref ≡ some w
    → ref_commit kind selector ref snap ≡ some v
    → admits path_match kind selector ref v snap ≡ true
    → admit path_match kind selector ref snap ≡ admitted (record { ref = ref; commit = v })
unfolding admit admit_at
admit-admitted path_match kind selector ref v w snap k c r a = rw (k, c, r, a) refl

pub find_ordered-find_in :
    (selector : Str) (found : Option ChannelInfo) (c : ChannelInfo) (cs : List ChannelInfo)
    → find_ordered selector cs ≡ some c
    → find_in selector found cs ≡ some c
unfolding find_ordered find_first is_ordered_named find_in
find_ordered-find_in selector found c [] h = cc
find_ordered-find_in selector found c (d ∷ cs) h =
    go (str_eq d.name selector && is_ordered d.kind)
      (find_ordered-find_in selector (if str_eq d.name selector then some d else found) c cs) h
  where
    go :
        (b : Bool) {rest other : Option ChannelInfo}
        → (other ≡ some c → rest ≡ some c)
        → (if b then some d else other) ≡ some c
        → (if b then some d else rest) ≡ some c
    go true ih e = e
    go false ih e = ih e

pub is_ordered_named-ordered :
    (selector : Str) (c : ChannelInfo)
    → is_ordered_named selector c ≡ true
    → is_ordered c.kind ≡ true
unfolding is_ordered_named
is_ordered_named-ordered selector c h = go (str_eq c.name selector) h
  where
    go : (b : Bool) → (b && is_ordered c.kind) ≡ true → is_ordered c.kind ≡ true
    go true e = e
    go false e = cc

pub ordered_admits-member :
    (selector ref : Str) (snap : RefSnapshot) (c : ChannelInfo)
    → find_in selector none (channels_of snap) ≡ some c
    → is_ordered c.kind ≡ true
    → Occurs ref c.members
    → ordered_admits selector ref snap ≡ true
unfolding ordered_admits find_channel found_holds
ordered_admits-member selector ref snap c h i m =
    ap (found_holds ref) h ∙ rw (i, Occurs-contains c.members ref m) refl

pub channel_admits-latest :
    (selector : Str) (snap : RefSnapshot) (c : ChannelInfo)
    → find_channel selector snap ≡ some c
    → channel_admits selector c.latest snap ≡ true
unfolding channel_admits found_admits
channel_admits-latest selector snap c h =
    ap (found_admits selector c.latest snap.head) h ∙ go (is_ordered c.kind) refl
  where
    go :
        (b : Bool)
        → is_ordered c.kind ≡ b
        → (if b then contains c.members c.latest else str_eq c.latest c.latest) ≡ true
    go true i =
        Occurs-contains c.members c.latest
          (latest-Occurs snap c (find_channel-Occurs selector snap c h) i)
    go false i = (str_eq_iff c.latest c.latest).1 refl
