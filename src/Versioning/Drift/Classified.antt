-- ===== src/Versioning/Drift/Classified.antt =====
-- internal/engine/manifold/versioning: selectors that are classified, and their targets.
use quiver_core.Prelude.{
  Bool, true, false, Option, none, some, is_some, [], Str, str_eq_iff, lookup, Occurs-find_first,
  Occurs, if◌then◌else◌, Option-cases, ◌≡◌, ◌≢◌, ◌⊎◌, inl, inr, refl, sym, ap, ◌∙◌, subst,
}
use quiver_core.Domain.Selector.{
  SelectorKind, pin, tag_pin, branch_pin, ordered_channel, pointer_channel, branch_channel,
  constraint, commit_pin, RefSnapshot,
}
use quiver_core.Versioning.Channels.{
  ChannelInfo, is_ordered, pointer_info, ordered_info, channels_of, find_channel,
}
use quiver_core.Versioning.Channels.Found.{
  find_channel-name, sorted_tags-Occurs, channels_of-IsListed,
}
use quiver_core.Versioning.Selector.{
  RefSource, ref_either, ref_tag, ref_branch, lookup_ref, source_pin_kind, kind_source, cut_prefix,
  tag_ref_prefix, branch_ref_prefix, followed_ref, followed_ref-named, IsPlain, pinned_ref, kind_or,
  kind_if, found_kind, channel_kind, kind_of, pin_kind, pin_kind_at, classify_pattern,
  classify_selector, has_empty_component, is_glob, is_commitish,
}
use quiver_core.Versioning.Drift.{
  Available, available_at, value_or_empty, latest_tag, is_ordered_named, find_ordered,
  ordered_target, target,
}

followed_ref-cases :
    (selector : Str)
    → ((name : Str) × ((kind : SelectorKind) → followed_ref kind selector ≡ (name, ref_tag)))
      ⊎ ((name : Str) × ((kind : SelectorKind) → followed_ref kind selector ≡ (name, ref_branch)))
      ⊎ ((kind : SelectorKind) → followed_ref kind selector ≡ (selector, kind_source kind))
unfolding followed_ref
followed_ref-cases selector = elim (Option-cases (cut_prefix selector tag_ref_prefix)) [
  | inr (name, e) ↦ inl (name, λ kind. rw e refl)
  | inl n ↦ elim (Option-cases (cut_prefix selector branch_ref_prefix)) [
    | inr (name, e) ↦ inr (inl (name, λ kind. rw (n, e) refl))
    | inl m ↦ inr (inr (λ kind. rw (n, m) refl))
  ]
]

kind_if-some :
    (kind k : SelectorKind) (o : Option Str)
    → kind_if kind o ≡ some k
    → (kind ≡ k) × (v : Str) × (o ≡ some v)
unfolding kind_if
kind_if-some kind k none h = cc
kind_if-some kind k (some v) h = (cc h, v, refl)

kind_or-some :
    (o p : Option SelectorKind) (k : SelectorKind)
    → kind_or o p ≡ some k
    → (o ≡ some k) ⊎ (p ≡ some k)
unfolding kind_or
kind_or-some none p k h = inr h
kind_or-some (some kind) p k h = inl h

found_kind-some :
    (o : Option ChannelInfo) (k : SelectorKind)
    → found_kind o ≡ some k
    → (c : ChannelInfo) × (o ≡ some c) × (channel_kind c ≡ k)
unfolding found_kind
found_kind-some none k h = cc
found_kind-some (some c) k h = (c, refl, cc h)

module _ (path_match : Str → Str → Option Bool) (selector : Str) (snap : RefSnapshot) where
  -- A kind under which the selector has a target.
  abbrev pub HasTarget : SelectorKind → Type 0
  HasTarget kind = (a : Available) × (target path_match kind selector snap ≡ some a)

  -- A kind whose target is the ref that the selector names.
  abbrev IsPinned : SelectorKind → Type 0
  IsPinned kind =
      target path_match kind selector snap
      ≡ available_at (pinned_ref kind selector snap).0 (pinned_ref kind selector snap).1

  pinned-HasTarget :
      (kind : SelectorKind) (source : RefSource) (name v : Str)
      → IsPinned kind
      → followed_ref kind selector ≡ (name, source)
      → lookup_ref source name snap ≡ some v
      → HasTarget kind
  unfolding pinned_ref
  pinned-HasTarget kind source name v reads e h =
      let found : available_at name (some v) ≡ some (record { ref = name; commit = v }) =
        unfold available_at in refl in
      (
        record { ref = name; commit = v },
        reads
            ∙ ap (λ f. available_at f.0 (lookup_ref f.1 f.0 snap)) e
            ∙ ap (available_at name) h
            ∙ found,
      )

  tag_pin-IsPinned : IsPinned tag_pin
  unfolding target
  tag_pin-IsPinned = refl

  branch_pin-IsPinned : IsPinned branch_pin
  unfolding target
  branch_pin-IsPinned = refl

  pointer_channel-IsPinned : IsPinned pointer_channel
  unfolding target
  pointer_channel-IsPinned = refl

  branch_channel-IsPinned : IsPinned branch_channel
  unfolding target
  branch_channel-IsPinned = refl

  pin_kind-HasTarget : (kind : SelectorKind) → pin_kind selector snap ≡ some kind → HasTarget kind
  unfolding pin_kind pin_kind_at source_pin_kind lookup_ref
  pin_kind-HasTarget kind h = elim (followed_ref-cases selector) [
    | inl (name, e) ↦
        let (k, v, o) =
          kind_if-some tag_pin kind (lookup name snap.tags)
            (sym (ap (λ f. pin_kind_at f.1 f.0 snap) (e pin)) ∙ h) in
        subst HasTarget k (pinned-HasTarget tag_pin ref_tag name v tag_pin-IsPinned (e tag_pin) o)
    | inr (inl (name, e)) ↦
        let (k, v, o) =
          kind_if-some branch_pin kind (lookup name snap.branches)
            (sym (ap (λ f. pin_kind_at f.1 f.0 snap) (e pin)) ∙ h) in
        subst HasTarget k
          (pinned-HasTarget branch_pin ref_branch name v branch_pin-IsPinned (e branch_pin) o)
    | inr (inr e) ↦
        let at : pin_kind_at ref_either selector snap ≡ some kind =
          sym (ap (λ f. pin_kind_at f.1 f.0 snap) (e pin)) ∙ h in
        elim (kind_or-some (kind_if tag_pin (lookup selector snap.tags)) _ kind at) [
          | inl as_tag ↦
              let (k, v, o) = kind_if-some tag_pin kind (lookup selector snap.tags) as_tag in
              subst HasTarget k
                (pinned-HasTarget tag_pin ref_tag selector v tag_pin-IsPinned (e tag_pin) o)
          | inr as_branch ↦
              let (k, v, o) =
                kind_if-some branch_pin kind (lookup selector snap.branches) as_branch in
              subst HasTarget k (
                pinned-HasTarget branch_pin ref_branch selector v branch_pin-IsPinned (e branch_pin)
                  o)
        ]
  ]

  ordered_channel-HasTarget :
      (c : ChannelInfo)
      → Occurs c (channels_of snap)
      → c.name ≡ selector
      → is_ordered c.kind ≡ true
      → HasTarget ordered_channel
  unfolding target ordered_target find_ordered
  ordered_channel-HasTarget c o n i =
      let named : is_ordered_named selector c ≡ true =
        unfold is_ordered_named in rw (i, (str_eq_iff c.name selector).1 n) refl in
      let (d, found) = Occurs-find_first (is_ordered_named selector) c (channels_of snap) o named in
      let latest : latest_tag snap (some d)
          ≡ some (record { ref = d.latest; commit = value_or_empty (lookup d.latest snap.tags) }) =
        unfold latest_tag in refl in
      (
        record { ref = d.latest; commit = value_or_empty (lookup d.latest snap.tags) },
        ap (latest_tag snap) found ∙ latest,
      )

  -- The kind of a channel that the selector names.
  channel_kind-HasTarget :
      (c : ChannelInfo)
      → IsPlain selector
      → ((v : Str) × (lookup snap.head snap.branches ≡ some v))
      → find_channel selector snap ≡ some c
      → HasTarget (channel_kind c)
  unfolding channel_kind kind_of ordered_info pointer_info lookup_ref kind_source is_ordered
  channel_kind-HasTarget c plain (b, branch) h =
      let (o, n) = find_channel-name selector snap c h in
      elim (channels_of-IsListed snap c o) [
        | inl (g, _, e) ↦
            subst (λ x. HasTarget (channel_kind x)) (sym e)
              (ordered_channel-HasTarget c o n (ap (λ (x : ChannelInfo). is_ordered x.kind) e))
        | inr (inl (t, here, e)) ↦
            let (v, tagged) = sorted_tags-Occurs t snap here in
            let at : t ≡ selector = sym (ap (λ (x : ChannelInfo). x.name) e) ∙ n in
            subst (λ x. HasTarget (channel_kind x)) (sym e)
              (pinned-HasTarget pointer_channel ref_tag selector v pointer_channel-IsPinned
                (followed_ref-named pointer_channel selector plain)
                (ap (λ x. lookup x snap.tags) (sym at) ∙ tagged))
        | inr (inr (_, e)) ↦
            let at : snap.head ≡ selector = sym (ap (λ (x : ChannelInfo). x.name) e) ∙ n in
            subst (λ x. HasTarget (channel_kind x)) (sym e)
              (pinned-HasTarget branch_channel ref_branch selector b branch_channel-IsPinned
                (followed_ref-named branch_channel selector plain)
                (ap (λ x. lookup x snap.branches) (sym at) ∙ branch))
      ]

  commit_pin-HasTarget : HasTarget commit_pin
  unfolding target
  commit_pin-HasTarget = (record { ref = selector; commit = selector }, refl)

  classify_pattern-kind :
      (kind : SelectorKind)
      → classify_pattern path_match selector ≡ some kind
      → (kind ≡ constraint) ⊎ (kind ≡ commit_pin)
  unfolding classify_pattern
  classify_pattern-kind kind h =
      go (is_glob selector) (is_some (path_match selector [])) (is_commitish selector) h
    where
      go :
          (g m c : Bool)
          → (if g
              then (if m then some constraint else none)
              else if c
              then some commit_pin
              else none)
            ≡ some kind
          → (kind ≡ constraint) ⊎ (kind ≡ commit_pin)
      go true true c e = inl (cc e)
      go true false c e = cc
      go false m true e = inr (cc e)
      go false m false e = cc

-- A selector that is classified, and not as a constraint, has a target under its kind, where it is not
-- spelled as the escape of a ref and the default branch is one of the branches.
pub classify_selector-target :
    (path_match : Str → Str → Option Bool) (selector v : Str) (snap : RefSnapshot)
    (kind : SelectorKind)
    → IsPlain selector
    → lookup snap.head snap.branches ≡ some v
    → classify_selector path_match selector snap ≡ some kind
    → kind ≢ constraint
    → (a : Available) × (target path_match kind selector snap ≡ some a)
unfolding classify_selector
classify_selector-target path_match selector v snap kind plain branch h ne =
    elim (kind_or-some _ _ kind (accepted (has_empty_component selector) h)) [
      | inl by_channel ↦
          let (c, found, k) = found_kind-some (find_channel selector snap) kind by_channel in
          subst (HasTarget path_match selector snap) k
            (channel_kind-HasTarget path_match selector snap c plain (v, branch) found)
      | inr next ↦ elim (kind_or-some (pin_kind selector snap) _ kind next) [
        | inl by_pin ↦ pin_kind-HasTarget path_match selector snap kind by_pin
        | inr by_pattern ↦ elim (classify_pattern-kind path_match selector snap kind by_pattern) [
          | inl k ↦ absurd (ne k)
          | inr k ↦
              subst (HasTarget path_match selector snap) (sym k)
                (commit_pin-HasTarget path_match selector snap)
        ]
      ]
    ]
  where
    accepted :
        (b : Bool) {o : Option SelectorKind} → (if b then none else o) ≡ some kind → o ≡ some kind
    accepted true e = cc
    accepted false e = e
