-- ===== src/Versioning/Ranking/Partition.antt =====
-- internal/engine/manifold/resolver/resolvers/channel.go: the tags of the channels.
use quiver_core.Prelude.{
  Occurs-put_new, put_new-Occurs, map-Occurs, Occurs-map, keep, keep-Occurs, Occurs-keep, Bool,
  true, false, is_some, List, [], ◌∷◌, Str, str_eq, str_eq_iff, Occurs, compare_str, sort_by,
  sort_by-Occurs, Occurs-sort_by, if◌then◌else◌, not, Option-cases, ◌≡◌, inl, inr, refl, sym, ap,
  ◌∙◌, subst,
}
use quiver_core.Versioning.Classify.{ClassifiedTag, classify_all, parse_tag_full, has_version_core}
use quiver_core.Versioning.Ranking.{
  TagChannel, tags_of, in_channel, channel_names, tier_against_dates, any_dated, any_calendar,
  raise_versions, compare_classified, group, group_channels,
}
use quiver_core.Versioning.Ranking.Groups.{classify_all-tag, classify_all-same, Occurs-classify_all}

pub tags_of-Occurs :
    (t : Str) (cs : List ClassifiedTag)
    → Occurs t (tags_of cs)
    → (c : ClassifiedTag) × Occurs c cs × (c.tag ≡ t)
unfolding tags_of
tags_of-Occurs t [] k = absurd k
tags_of-Occurs t (c ∷ cs) (inl e) = (c, inl refl, sym e)
tags_of-Occurs t (c ∷ cs) (inr k) = let (d, o, e) = tags_of-Occurs t cs k in (d, inr o, e)

Occurs-tags_of :
    (c : ClassifiedTag) (cs : List ClassifiedTag) → Occurs c cs → Occurs c.tag (tags_of cs)
unfolding tags_of
Occurs-tags_of c [] k = absurd k
Occurs-tags_of c (d ∷ cs) (inl e) = inl (ap (λ x. x.tag) e)
Occurs-tags_of c (d ∷ cs) (inr k) = inr (Occurs-tags_of c cs k)

raise_one-tag :
    (b : Bool) (c : ClassifiedTag) → (if b then c else record c { tier = 1 }).tag ≡ c.tag
raise_one-tag true c = refl
raise_one-tag false c = refl

raise_versions-tags_of : (cs : List ClassifiedTag) → tags_of (raise_versions cs) ≡ tags_of cs
unfolding tags_of raise_versions
raise_versions-tags_of [] = refl
raise_versions-tags_of (c ∷ cs) =
    ap (λ t. t ∷ tags_of (raise_versions cs)) (raise_one-tag c.dated c)
    ∙ ap (λ ts. c.tag ∷ ts) (raise_versions-tags_of cs)

-- A comparison with dates leaves the tags in place.
pub tier_against_dates-tags_of :
    (cs : List ClassifiedTag) → tags_of (tier_against_dates cs) ≡ tags_of cs
unfolding tier_against_dates
tier_against_dates-tags_of cs = go (any_dated cs) (any_calendar cs)
  where
    go :
        (dated calendar : Bool)
        → tags_of (if not dated then cs else if calendar then cs else raise_versions cs)
          ≡ tags_of cs
    go false calendar = refl
    go true true = refl
    go true false = raise_versions-tags_of cs

-- The tags of a sorted list of members.
pub sorted_tiers-Occurs :
    (t : Str) (cs : List ClassifiedTag)
    → Occurs t (tags_of (sort_by compare_classified (tier_against_dates cs)))
    → Occurs t (tags_of cs)
sorted_tiers-Occurs t cs k =
    let tiered = tier_against_dates cs in
    let (c, o, e) = tags_of-Occurs t (sort_by compare_classified tiered) k in
    subst (Occurs t) (tier_against_dates-tags_of cs) (
      subst (λ u. Occurs u (tags_of tiered)) e
        (Occurs-tags_of c tiered (sort_by-Occurs compare_classified c tiered o)))

Occurs-sorted_tiers :
    (t : Str) (cs : List ClassifiedTag)
    → Occurs t (tags_of cs)
    → Occurs t (tags_of (sort_by compare_classified (tier_against_dates cs)))
Occurs-sorted_tiers t cs k =
    let tiered = tier_against_dates cs in
    let (c, o, e) =
      tags_of-Occurs t tiered (subst (Occurs t) (sym (tier_against_dates-tags_of cs)) k) in
    subst (λ u. Occurs u (tags_of (sort_by compare_classified tiered))) e
      (Occurs-tags_of c (sort_by compare_classified tiered)
        (Occurs-sort_by compare_classified c tiered o))

channel_names-Occurs :
    (name : Str) (cs : List ClassifiedTag)
    → Occurs name (channel_names cs)
    → (c : ClassifiedTag) × Occurs c cs × (c.channel ≡ name)
unfolding channel_names
channel_names-Occurs name [] k = absurd k
channel_names-Occurs name (c ∷ cs) k = elim (put_new-Occurs c.channel name (channel_names cs) k) [
  | inl e ↦ (c, inl refl, sym e)
  | inr later ↦ let (d, o, e) = channel_names-Occurs name cs later in (d, inr o, e)
]

Occurs-channel_names :
    (c : ClassifiedTag) (cs : List ClassifiedTag)
    → Occurs c cs
    → Occurs c.channel (channel_names cs)
unfolding channel_names
Occurs-channel_names c [] k = absurd k
Occurs-channel_names c (d ∷ cs) (inl e) =
    Occurs-put_new d.channel c.channel (channel_names cs) (inl (ap (λ x. x.channel) e))
Occurs-channel_names c (d ∷ cs) (inr k) =
    Occurs-put_new d.channel c.channel (channel_names cs) (inr (Occurs-channel_names c cs k))

group-Occurs :
    (cs : List ClassifiedTag) (name t : Str)
    → Occurs t (group cs name).members
    → (c : ClassifiedTag) × Occurs c cs × (c.channel ≡ name) × (c.tag ≡ t)
unfolding group in_channel
group-Occurs cs name t k =
    let within : ClassifiedTag → Bool = λ c. str_eq c.channel name in
    let (c, o, e) = tags_of-Occurs t (keep within cs) (sorted_tiers-Occurs t (keep within cs) k) in
    let (here, named) = keep-Occurs within c cs o in
    (c, here, (str_eq_iff c.channel name).0 named, e)

Occurs-group :
    (cs : List ClassifiedTag) (c : ClassifiedTag)
    → Occurs c cs
    → Occurs c.tag (group cs c.channel).members
unfolding group in_channel
Occurs-group cs c o =
    let within : ClassifiedTag → Bool = λ d. str_eq d.channel c.channel in
    Occurs-sorted_tiers c.tag (keep within cs) (
      Occurs-tags_of c (keep within cs)
        (Occurs-keep within c cs o ((str_eq_iff c.channel c.channel).1 refl)))

-- Each channel is the group of a name that some tag is classified under.
group_channels-Occurs :
    (tags : List Str) (g : TagChannel)
    → Occurs g (group_channels tags)
    → (name : Str) × (g ≡ group (classify_all tags) name)
      × (c : ClassifiedTag) × Occurs c (classify_all tags)
      × (c.channel ≡ name)
unfolding group_channels
group_channels-Occurs tags g k =
    let cs = classify_all tags in
    let (name, o, e) = map-Occurs (group cs) g (sort_by compare_str (channel_names cs)) k in
    let (c, here, named) =
      channel_names-Occurs name cs (sort_by-Occurs compare_str name (channel_names cs) o) in
    (name, e, c, here, named)

-- Two channels that a tag stands in are one.
pub group_channels-same :
    (tags : List Str) (t : Str) (g h : TagChannel)
    → Occurs g (group_channels tags)
    → Occurs h (group_channels tags)
    → Occurs t g.members
    → Occurs t h.members
    → g ≡ h
group_channels-same tags t g h k l s s' =
    let cs = classify_all tags in
    let (name, e, _, _, _) = group_channels-Occurs tags g k in
    let (name', e', _, _, _) = group_channels-Occurs tags h l in
    let (c, o, named, tag) = group-Occurs cs name t (subst (λ x. Occurs t x.members) e s) in
    let (d, o', named', tag') = group-Occurs cs name' t (subst (λ x. Occurs t x.members) e' s') in
    let same = classify_all-same tags c d o o' (tag ∙ sym tag') in
    e ∙ ap (group cs) (sym named ∙ ap (λ x. x.channel) same ∙ named') ∙ sym e'

-- A member is one of the tags, with a version in it.
pub group_channels-member :
    (tags : List Str) (t : Str) (g : TagChannel)
    → Occurs g (group_channels tags)
    → Occurs t g.members
    → Occurs t tags × (has_version_core t ≡ true)
unfolding has_version_core
group_channels-member tags t g k s =
    let cs = classify_all tags in
    let (name, e, _, _, _) = group_channels-Occurs tags g k in
    let (c, o, named, tag) = group-Occurs cs name t (subst (λ x. Occurs t x.members) e s) in
    let (here, p, parsed, _) = classify_all-tag tags c o in
    (subst (λ u. Occurs u tags) tag here, ap is_some (ap parse_tag_full (sym tag) ∙ parsed))

-- No channel is empty.
pub group_channels-nonempty :
    (tags : List Str) (g : TagChannel)
    → Occurs g (group_channels tags)
    → (t : Str) × Occurs t g.members
group_channels-nonempty tags g k =
    let cs = classify_all tags in
    let (name, e, c, o, named) = group_channels-Occurs tags g k in
    (c.tag, subst (λ x. Occurs c.tag x.members) (ap (group cs) named ∙ sym e) (Occurs-group cs c o))

-- Every tag with a version in it stands in just one channel.
pub group_channels-partition :
    (tags : List Str) (t : Str)
    → Occurs t tags
    → has_version_core t ≡ true
    → (g : TagChannel) × Occurs g (group_channels tags)
      × Occurs t g.members
      × ((h : TagChannel) → Occurs h (group_channels tags) → Occurs t h.members → h ≡ g)
unfolding has_version_core
group_channels-partition tags t k h = elim (Option-cases (parse_tag_full t)) [
  | inl e ↦ cc (ap is_some e)
  | inr (p, e) ↦
      let cs = classify_all tags in
      let (c, o, tag) = Occurs-classify_all tags t p k e in
      let g = group cs c.channel in
      let here : Occurs g (group_channels tags) =
        unfold group_channels in
        Occurs-map (group cs) c.channel (sort_by compare_str (channel_names cs))
          (Occurs-sort_by compare_str c.channel (channel_names cs) (Occurs-channel_names c cs o)) in
      let member = subst (λ u. Occurs u g.members) tag (Occurs-group cs c o) in
      (g, here, member, λ h' l s. group_channels-same tags t h' g l here s member)
]
