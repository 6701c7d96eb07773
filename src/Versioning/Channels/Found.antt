-- ===== src/Versioning/Channels/Found.antt =====
-- internal/engine/manifold/versioning/internal/selector/channels.go: what stands in the listed channels.
use quiver_core.Prelude.{
  contains, put_new-Occurs, Bool, true, false, ◌&&◌, not, Option, none, some, List, [], ◌∷◌, map,
  keep, keep-Occurs, Str, str_eq, str_eq_iff, append-Occurs, map-Occurs, Dict, lookup, Occurs,
  compare_str, sort_by-Occurs, if◌then◌else◌, Bool-cases, ◌≡◌, ◌⊎◌, inl, inr, refl, sym, ap, ◌∙◌,
  subst,
}
use quiver_core.Domain.Selector.{RefSnapshot}
use quiver_core.Versioning.Classify.{has_version_core}
use quiver_core.Versioning.Ranking.{TagChannel, group_channels}
use quiver_core.Versioning.Ranking.Partition.{
  group_channels-same, group_channels-member, group_channels-nonempty,
}
use quiver_core.Versioning.Channels.{
  ChannelInfo, is_ordered, keys, sorted_tags, first_or_empty, ordered_info, pointer_info, consumed,
  default_fallback, order_of, less_channel, sort_channels, listed, channels_of, find_in,
  find_channel,
}

lookup_cons :
    (k t v : Str) (m : Dict Str) (b : Bool)
    → str_eq k t ≡ b
    → lookup t ((k, v) ∷ m) ≡ (if b then some v else lookup t m)
unfolding lookup
lookup_cons k t v m b e = rw e refl

keys-Occurs : (t : Str) (m : Dict Str) → Occurs t (keys m) → (v : Str) × (lookup t m ≡ some v)
unfolding keys
keys-Occurs t [] k = absurd k
keys-Occurs t ((j, v) ∷ m) k = elim (Bool-cases (str_eq j t)) [
  | inl e ↦ (v, lookup_cons j t v m true e)
  | inr e ↦ elim (put_new-Occurs j t (keys m) k) [
    | inl same ↦ cc (e, (str_eq_iff j t).1 (sym same))
    | inr later ↦ let (w, q) = keys-Occurs t m later in (w, lookup_cons j t v m false e ∙ q)
  ]
]

-- A listed tag has a commit.
pub sorted_tags-Occurs :
    (t : Str) (snap : RefSnapshot)
    → Occurs t (sorted_tags snap)
    → (v : Str) × (lookup t snap.tags ≡ some v)
unfolding sorted_tags
sorted_tags-Occurs t snap k =
    keys-Occurs t snap.tags (sort_by-Occurs compare_str t (keys snap.tags) k)

-- A channel that is listed is one of the tags', a tag by itself, or the default branch where there are
-- no tags.
abbrev pub IsListed : List Str → Str → List TagChannel → ChannelInfo → Type 0
IsListed tags head groups c =
    ((g : TagChannel) × Occurs g groups × (c ≡ ordered_info g))
    ⊎ ((t : Str) × Occurs t tags × (c ≡ pointer_info false t))
    ⊎ ((tags ≡ []) × (c ≡ pointer_info true head))

default_fallback-Occurs :
    (tags : List Str) (head : Str) (c : ChannelInfo)
    → Occurs c (default_fallback tags head)
    → (tags ≡ []) × (c ≡ pointer_info true head)
unfolding default_fallback
default_fallback-Occurs (t ∷ tags) head c k = absurd k
default_fallback-Occurs [] [] c k = absurd k
default_fallback-Occurs [] (h ∷ head) c (inl e) = (refl, e)
default_fallback-Occurs [] (h ∷ head) c (inr k) = absurd k

listed-IsListed :
    (tags : List Str) (head : Str) (groups : List TagChannel) (c : ChannelInfo)
    → Occurs c (listed tags head groups)
    → IsListed tags head groups c
unfolding listed
listed-IsListed tags head groups c k =
    let lone : Str → Bool = λ t. not (contains (consumed groups) t) in
    elim (append-Occurs c (map ordered_info groups) _ k) [
      | inl o ↦ inl (map-Occurs ordered_info c groups o)
      | inr o ↦ elim (append-Occurs c (map (pointer_info false) (keep lone tags)) _ o) [
        | inl p ↦
            let (t, here, e) = map-Occurs (pointer_info false) c (keep lone tags) p in
            inr (inl (t, (keep-Occurs lone t tags here).0, e))
        | inr p ↦ inr (inr (default_fallback-Occurs tags head c p))
      ]
    ]

pub channels_of-IsListed :
    (snap : RefSnapshot) (c : ChannelInfo)
    → Occurs c (channels_of snap)
    → IsListed (sorted_tags snap) snap.head (group_channels (sorted_tags snap)) c
unfolding channels_of sort_channels
channels_of-IsListed snap c k =
    let tags = sorted_tags snap in
    let groups = group_channels tags in
    let compare_channels = λ (a b : ChannelInfo). order_of (less_channel a b) (less_channel b a) in
    listed-IsListed tags snap.head groups c
      (sort_by-Occurs compare_channels c (listed tags snap.head groups) k)

-- An ordered channel is one of the tags'.
pub ordered-group :
    (snap : RefSnapshot) (c : ChannelInfo)
    → Occurs c (channels_of snap)
    → is_ordered c.kind ≡ true
    → (g : TagChannel) × Occurs g (group_channels (sorted_tags snap)) × (c ≡ ordered_info g)
unfolding ordered_info pointer_info is_ordered
ordered-group snap c k h = elim (channels_of-IsListed snap c k) [
  | inl found ↦ found
  | inr (inl (t, o, e)) ↦ cc (h, e)
  | inr (inr (n, e)) ↦ cc (h, e)
]

first_or_empty-Occurs :
    (t : Str) (tags : List Str) → Occurs t tags → Occurs (first_or_empty tags) tags
unfolding first_or_empty
first_or_empty-Occurs t [] k = absurd k
first_or_empty-Occurs t (u ∷ tags) k = inl refl

-- The latest of an ordered channel is one of its members.
pub latest-Occurs :
    (snap : RefSnapshot) (c : ChannelInfo)
    → Occurs c (channels_of snap)
    → is_ordered c.kind ≡ true
    → Occurs c.latest c.members
unfolding ordered_info
latest-Occurs snap c k h =
    let (g, o, e) = ordered-group snap c k h in
    let (t, member) = group_channels-nonempty (sorted_tags snap) g o in
    subst (λ (x : ChannelInfo). Occurs x.latest x.members) (sym e)
      (first_or_empty-Occurs t g.members member)

pub members-Occurs :
    (snap : RefSnapshot) (c : ChannelInfo) (t : Str)
    → Occurs c (channels_of snap)
    → is_ordered c.kind ≡ true
    → Occurs t c.members
    → Occurs t (sorted_tags snap)
unfolding ordered_info
members-Occurs snap c t k h m =
    let (g, o, e) = ordered-group snap c k h in
    (group_channels-member (sorted_tags snap) t g o
      (subst (λ (x : ChannelInfo). Occurs t x.members) e m)).0

pub members-has_version_core :
    (snap : RefSnapshot) (c : ChannelInfo) (t : Str)
    → Occurs c (channels_of snap)
    → is_ordered c.kind ≡ true
    → Occurs t c.members
    → has_version_core t ≡ true
unfolding ordered_info
members-has_version_core snap c t k h m =
    let (g, o, e) = ordered-group snap c k h in
    (group_channels-member (sorted_tags snap) t g o
      (subst (λ (x : ChannelInfo). Occurs t x.members) e m)).1

-- Two ordered channels with a common member are one.
pub channels_of-same :
    (snap : RefSnapshot) (t : Str) (c d : ChannelInfo)
    → Occurs c (channels_of snap)
    → Occurs d (channels_of snap)
    → is_ordered c.kind ≡ true
    → is_ordered d.kind ≡ true
    → Occurs t c.members
    → Occurs t d.members
    → c ≡ d
unfolding ordered_info
channels_of-same snap t c d k l h i m n =
    let (g, o, e) = ordered-group snap c k h in
    let (g', o', e') = ordered-group snap d l i in
    let same =
      group_channels-same (sorted_tags snap) t g g' o o'
        (subst (λ (x : ChannelInfo). Occurs t x.members) e m)
        (subst (λ (x : ChannelInfo). Occurs t x.members) e' n) in
    e ∙ ap ordered_info same ∙ sym e'

find_in-step :
    (selector : Str) (found : Option ChannelInfo) (c : ChannelInfo) (cs : List ChannelInfo)
    (n o : Bool)
    → str_eq c.name selector ≡ n
    → is_ordered c.kind ≡ o
    → find_in selector found (c ∷ cs)
      ≡ (if n && o then some c else find_in selector (if n then some c else found) cs)
unfolding find_in
find_in-step selector found c cs n o e k = rw (e, k) refl

-- What is found is listed under the name, or was found before.
find_in-Occurs :
    (selector : Str) (found : Option ChannelInfo) (c : ChannelInfo) (cs : List ChannelInfo)
    → find_in selector found cs ≡ some c
    → (found ≡ some c) ⊎ (Occurs c cs × (c.name ≡ selector))
find_in-Occurs selector found c [] h = unfold find_in in inl h
find_in-Occurs selector found c (d ∷ cs) h = elim (Bool-cases (str_eq d.name selector)) [
  | inl n ↦
      let named : d.name ≡ selector = (str_eq_iff d.name selector).0 n in
      elim (Bool-cases (is_ordered d.kind)) [
        | inl o ↦
            let same : d ≡ c = cc (sym (find_in-step selector found d cs true true n o) ∙ h) in
            inr (inl (sym same), ap (λ (x : ChannelInfo). x.name) (sym same) ∙ named)
        | inr o ↦
            elim (find_in-Occurs selector (some d) c cs
              (sym (find_in-step selector found d cs true false n o) ∙ h)) [
                | inl before ↦
                    let same : d ≡ c = cc before in
                    inr (inl (sym same), ap (λ (x : ChannelInfo). x.name) (sym same) ∙ named)
                | inr (later, at) ↦ inr (inr later, at)
              ]
      ]
  | inr n ↦
      elim (find_in-Occurs selector found c cs
        (sym (find_in-step selector found d cs false (is_ordered d.kind) n refl) ∙ h)) [
          | inl before ↦ inl before
          | inr (later, at) ↦ inr (inr later, at)
        ]
]

pub find_channel-name :
    (selector : Str) (snap : RefSnapshot) (c : ChannelInfo)
    → find_channel selector snap ≡ some c
    → Occurs c (channels_of snap) × (c.name ≡ selector)
unfolding find_channel
find_channel-name selector snap c h = elim (find_in-Occurs selector none c (channels_of snap) h) [
  | inl before ↦ cc before
  | inr o ↦ o
]

pub find_channel-Occurs :
    (selector : Str) (snap : RefSnapshot) (c : ChannelInfo)
    → find_channel selector snap ≡ some c
    → Occurs c (channels_of snap)
find_channel-Occurs selector snap c h = (find_channel-name selector snap c h).0
