-- ===== src/Versioning/Drift/Settled.antt =====
-- internal/engine/manifold/versioning/internal/drift/drift.go: a row that has moved to its target.
use quiver_core.Prelude.{
  Occurs-contains, contains, contains-Occurs, Bool, true, false, ◌&&◌, Option, none, some, [], ◌∷◌,
  Str, str_eq, str_eq_iff, is_empty, lookup, find_first-Occurs, Occurs-find_first, Occurs,
  if◌then◌else◌, Bool-cases, ◌≡◌, ◌≢◌, inl, inr, refl, sym, ap, ◌∙◌, subst,
}
use quiver_core.Domain.Selector.{
  SelectorKind, pin, tag_pin, branch_pin, channel, ordered_channel, pointer_channel, branch_channel,
  constraint, commit_pin, unknown, RefSnapshot, Resolved,
}
use quiver_core.Versioning.Classify.{has_version_core}
use quiver_core.Versioning.Channels.{ChannelInfo, is_ordered, channels_of}
use quiver_core.Versioning.Channels.Found.{
  latest-Occurs, members-has_version_core, channels_of-same,
}
use quiver_core.Versioning.Drift.{
  Available, is_holding, latest_tag, value_or_empty, find_holding, former_channel_target,
  default_branch_target, fallback_target, is_downgrade, settled, behind, is_at, drift_to, target_or,
  is_commit_pin, target, drift,
}

-- The state of a row that has moved to a target.
abbrev pub moved_to : Available → Str → Resolved
moved_to a fingerprint = record { ref = a.ref; commit = a.commit; fingerprint = fingerprint }

drift_to-behind :
    (kind : SelectorKind) (r : Resolved) (snap : RefSnapshot) (o : Option Available) (a : Available)
    → drift_to kind r snap o ≡ behind a
    → o ≡ some a
unfolding drift_to
drift_to-behind kind r snap none a h = cc
drift_to-behind kind r snap (some t) a h = go (is_at t r) (is_downgrade kind r t snap) h
  where
    go :
        (b d : Bool)
        → (if b then settled else if d then settled else behind t) ≡ behind a
        → some t ≡ some a
    go true d e = cc
    go false true e = cc
    go false false e = cc

drift_to-moved_to :
    (kind : SelectorKind) (snap : RefSnapshot) (a : Available) (f : Str)
    → drift_to kind (moved_to a f) snap (some a) ≡ settled
unfolding drift_to is_at
drift_to-moved_to kind snap a f =
    rw ((str_eq_iff a.ref a.ref).1 refl, (str_eq_iff a.commit a.commit).1 refl) refl

is_holding-both :
    (ref : Str) (c : ChannelInfo)
    → is_holding ref c ≡ true
    → (is_ordered c.kind ≡ true) × Occurs ref c.members
unfolding is_holding
is_holding-both ref c h = go (is_ordered c.kind) (contains c.members ref) refl refl h
  where
    go :
        (b m : Bool)
        → is_ordered c.kind ≡ b
        → contains c.members ref ≡ m
        → (b && m) ≡ true
        → (is_ordered c.kind ≡ true) × Occurs ref c.members
    go true true e k q = (e, contains-Occurs c.members ref k)
    go true false e k q = cc
    go false m e k q = cc

holding-is_holding :
    (ref : Str) (c : ChannelInfo)
    → is_ordered c.kind ≡ true
    → Occurs ref c.members
    → is_holding ref c ≡ true
unfolding is_holding
holding-is_holding ref c i m = rw (i, Occurs-contains c.members ref m) refl

no_version_in_empty : has_version_core [] ≡ false
unfolding has_version_core
no_version_in_empty = refl

latest_nonempty :
    (snap : RefSnapshot) (c : ChannelInfo)
    → Occurs c (channels_of snap)
    → is_ordered c.kind ≡ true
    → is_empty c.latest ≡ false
latest_nonempty snap c o i =
    go c.latest (members-has_version_core snap c c.latest o i (latest-Occurs snap c o i))
  where
    go : (t : Str) → has_version_core t ≡ true → is_empty t ≡ false
    go [] h = cc (h, no_version_in_empty)
    go (x ∷ t) h = refl

-- The channel that holds a tag is the one that holds the latest tag of that channel.
find_holding-latest :
    (snap : RefSnapshot) (ref : Str) (c : ChannelInfo)
    → find_holding ref (channels_of snap) ≡ some c
    → (find_holding c.latest (channels_of snap) ≡ some c) × (is_empty c.latest ≡ false)
unfolding find_holding
find_holding-latest snap ref c h =
    let cs = channels_of snap in
    let (o, held) = find_first-Occurs (is_holding ref) c cs h in
    let (i, m) = is_holding-both ref c held in
    let latest = latest-Occurs snap c o i in
    let (d, found) =
      Occurs-find_first (is_holding c.latest) c cs o (holding-is_holding c.latest c i latest) in
    let (o', held') = find_first-Occurs (is_holding c.latest) d cs found in
    let (i', m') = is_holding-both c.latest d held' in
    let same = channels_of-same snap c.latest d c o' o i' i m' latest in
    (found ∙ ap some same, latest_nonempty snap c o i)

former_channel_target-moved_to :
    (snap : RefSnapshot) (ref : Str) (a : Available)
    → former_channel_target ref snap ≡ some a
    → former_channel_target a.ref snap ≡ some a
unfolding former_channel_target latest_tag
former_channel_target-moved_to snap ref a h =
    go (is_empty ref) (find_holding ref (channels_of snap)) refl h
  where
    go :
        (b : Bool) (o : Option ChannelInfo)
        → find_holding ref (channels_of snap) ≡ o
        → (if b then none else latest_tag snap o) ≡ some a
        → (if is_empty a.ref then none else latest_tag snap (find_holding a.ref (channels_of snap)))
          ≡ some a
    go true o e k = cc
    go false none e k = cc
    go false (some c) e k =
        let (again, nonempty) = find_holding-latest snap ref c e in
        let here : record { ref = c.latest; commit = value_or_empty (lookup c.latest snap.tags) }
            ≡ a =
          cc in
        let at : c.latest ≡ a.ref = ap (λ (x : Available). x.ref) here in
        subst
          (λ r.
            (if is_empty r then none else latest_tag snap (find_holding r (channels_of snap)))
            ≡ some a)
          at (rw (nonempty, again) k)

default_branch_target-none :
    (selector : Str) (r : Resolved) (snap : RefSnapshot)
    → selector ≢ snap.head
    → default_branch_target selector r snap ≡ none
unfolding default_branch_target
default_branch_target-none selector r snap ne = elim (Bool-cases (str_eq selector snap.head)) [
  | inl e ↦ absurd (ne ((str_eq_iff selector snap.head).0 e))
  | inr e ↦ rw e refl
]

fallback_target-moved_to :
    (kind : SelectorKind) (selector f : Str) (r : Resolved) (snap : RefSnapshot) (a : Available)
    → (kind ≡ channel → selector ≢ snap.head)
    → fallback_target kind selector r snap ≡ some a
    → fallback_target kind selector (moved_to a f) snap ≡ some a
unfolding fallback_target target_or
fallback_target-moved_to channel selector f r snap a ne h =
    let n = default_branch_target-none selector r snap (ne refl) in
    let n' = default_branch_target-none selector (moved_to a f) snap (ne refl) in
    let former = former_channel_target-moved_to snap r.ref a (sym (rw n refl) ∙ h) in rw n' former
fallback_target-moved_to ordered_channel selector f r snap a ne h =
    former_channel_target-moved_to snap r.ref a h
fallback_target-moved_to pin selector f r snap a ne h = cc
fallback_target-moved_to tag_pin selector f r snap a ne h = cc
fallback_target-moved_to branch_pin selector f r snap a ne h = cc
fallback_target-moved_to pointer_channel selector f r snap a ne h = cc
fallback_target-moved_to branch_channel selector f r snap a ne h = cc
fallback_target-moved_to constraint selector f r snap a ne h = cc
fallback_target-moved_to commit_pin selector f r snap a ne h = cc
fallback_target-moved_to (unknown s) selector f r snap a ne h = cc

target_or-moved_to :
    (kind : SelectorKind) (selector f : Str) (r : Resolved) (snap : RefSnapshot) (a : Available)
    (t : Option Available)
    → (kind ≡ channel → selector ≢ snap.head)
    → target_or t (fallback_target kind selector r snap) ≡ some a
    → target_or t (fallback_target kind selector (moved_to a f) snap) ≡ some a
unfolding target_or
target_or-moved_to kind selector f r snap a (some t) ne h = h
target_or-moved_to kind selector f r snap a none ne h =
    fallback_target-moved_to kind selector f r snap a ne h

-- A row that is behind and moves to its target is settled there for as long as the refs stay as they
-- are, where an unrefined channel is not named as the default branch.
pub drift-settles :
    (path_match : Str → Str → Option Bool) (kind : SelectorKind) (selector fingerprint : Str)
    (r : Resolved) (snap : RefSnapshot) (a : Available)
    → (kind ≡ channel → selector ≢ snap.head)
    → drift path_match kind selector r snap ≡ behind a
    → drift path_match kind selector (moved_to a fingerprint) snap ≡ settled
unfolding drift
drift-settles path_match kind selector f r snap a ne h = go (is_commit_pin kind) h
  where
    go :
        (b : Bool)
        → (if b
            then settled
            else drift_to kind r snap (
                target_or
                  (target path_match kind selector snap)
                  (fallback_target kind selector r snap)))
          ≡ behind a
        → (if b
            then settled
            else drift_to kind (moved_to a f) snap (
                target_or
                  (target path_match kind selector snap)
                  (fallback_target kind selector (moved_to a f) snap)))
          ≡ settled
    go true k = refl
    go false k =
        let same =
          target_or-moved_to kind selector f r snap a (target path_match kind selector snap) ne
            (drift_to-behind kind r snap _ a k) in
        ap (drift_to kind (moved_to a f) snap) same ∙ drift_to-moved_to kind snap a f
