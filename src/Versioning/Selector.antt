-- ===== src/Versioning/Selector.antt =====
-- internal/engine/manifold/versioning/internal/selector/selector.go: what a selector follows.
use quiver_core.Prelude.{
  ℕ, ltb, leb, Bool, true, false, ◌≡◌, refl, ◌&&◌, ◌||◌, Option, none, some, is_some, [], ◌∷◌,
  length, Str, str_eq, codes, lookup, has_byte, if◌then◌else◌,
}
use quiver_core.Domain.Selector.{
  SelectorKind, pin, tag_pin, branch_pin, ordered_channel, pointer_channel, branch_channel,
  constraint, commit_pin, RefSnapshot, commit,
}
use quiver_core.Versioning.Number.{lower_case}
use quiver_core.Versioning.Channels.{ChannelKind, ordered, pointer, ChannelInfo, find_channel}

abbrev pub tag_ref_prefix : Str
tag_ref_prefix = codes "refs/tags/"

abbrev pub branch_ref_prefix : Str
branch_ref_prefix = codes "refs/heads/"

abbrev pub min_commit_len : ℕ
min_commit_len = 7

abbrev pub max_commit_len : ℕ
max_commit_len = 40

unfoldable pub kind_of : ChannelKind → Bool → SelectorKind
kind_of ordered fallback = ordered_channel
kind_of pointer true = branch_channel
kind_of pointer false = pointer_channel

unfoldable pub channel_kind : ChannelInfo → SelectorKind
unfolding kind_of
channel_kind info = kind_of info.kind info.is_default_branch_fallback

-- `strings.CutPrefix(s, prefix)`
unfoldable pub cut_prefix : Str → Str → Option Str
cut_prefix s [] = some s
cut_prefix [] (d ∷ prefix) = none
cut_prefix (c ∷ s) (d ∷ prefix) =
    let rest = cut_prefix s prefix in if str_eq (c ∷ []) (d ∷ []) then rest else none

pub data RefSource : Type 0 where
  ref_either ref_tag ref_branch : RefSource

unfoldable pub lookup_ref : RefSource → Str → RefSnapshot → Option Str
unfolding commit
lookup_ref ref_tag name snap = lookup name snap.tags
lookup_ref ref_branch name snap = lookup name snap.branches
lookup_ref ref_either name snap = commit snap name

unfoldable pub source_pin_kind : RefSource → SelectorKind
source_pin_kind ref_branch = branch_pin
source_pin_kind ref_tag = tag_pin
source_pin_kind ref_either = tag_pin

unfoldable pub kind_source : SelectorKind → RefSource
kind_source tag_pin = ref_tag
kind_source pointer_channel = ref_tag
kind_source branch_pin = ref_branch
kind_source branch_channel = ref_branch
kind_source _ = ref_either

unfoldable pub followed_ref : SelectorKind → Str → Str × RefSource
unfolding cut_prefix kind_source
followed_ref kind selector = elim (cut_prefix selector tag_ref_prefix) [
  | some name ↦ (name, ref_tag)
  | none ↦ elim (cut_prefix selector branch_ref_prefix) [
    | some name ↦ (name, ref_branch)
    | none ↦ (selector, kind_source kind)
  ]
]

unfoldable pub pinned_ref : SelectorKind → Str → RefSnapshot → Str × Option Str
unfolding followed_ref lookup_ref
pinned_ref kind selector snap =
    let (name, source) = followed_ref kind selector in (name, lookup_ref source name snap)

-- A kind, or that of the tests after it.
unfoldable pub kind_or : Option SelectorKind → Option SelectorKind → Option SelectorKind
kind_or (some kind) next = some kind
kind_or none next = next

unfoldable pub kind_if : SelectorKind → Option Str → Option SelectorKind
kind_if kind none = none
kind_if kind (some found) = some kind

-- The kind of a pin, or none where the ref it names is not there.
unfoldable pub pin_kind_at : RefSource → Str → RefSnapshot → Option SelectorKind
unfolding kind_if kind_or lookup_ref source_pin_kind
pin_kind_at ref_tag name snap = kind_if (source_pin_kind ref_tag) (lookup_ref ref_tag name snap)
pin_kind_at ref_branch name snap =
    kind_if (source_pin_kind ref_branch) (lookup_ref ref_branch name snap)
pin_kind_at ref_either name snap =
    kind_or (kind_if tag_pin (lookup name snap.tags))
      (kind_if branch_pin (lookup name snap.branches))

unfoldable pub pin_kind : Str → RefSnapshot → Option SelectorKind
unfolding followed_ref pin_kind_at
pin_kind selector snap =
    let (name, source) = followed_ref pin selector in pin_kind_at source name snap

unfoldable pub commit_or : Option Str → Str → Option Str
commit_or (some found) ref = some found
commit_or none ref = some ref

unfoldable pub ref_commit : SelectorKind → Str → Str → RefSnapshot → Option Str
unfolding commit_or commit followed_ref lookup_ref
ref_commit commit_pin selector ref snap = commit_or (commit snap ref) ref
ref_commit ordered_channel selector ref snap = lookup ref snap.tags
ref_commit constraint selector ref snap = lookup ref snap.tags
ref_commit kind selector ref snap = lookup_ref (followed_ref kind selector).1 ref snap

unfoldable pub starts_with_slash : Str → Bool
starts_with_slash [] = false
starts_with_slash (c ∷ s) = str_eq (c ∷ []) (codes "/")

unfoldable pub ends_with_slash : Str → Bool
ends_with_slash [] = false
ends_with_slash (c ∷ []) = str_eq (c ∷ []) (codes "/")
ends_with_slash (c ∷ d ∷ s) = ends_with_slash (d ∷ s)

-- `strings.Contains(selector, "//")`
unfoldable pub has_double_slash : Str → Bool
unfolding starts_with_slash
has_double_slash [] = false
has_double_slash (c ∷ s) =
    (str_eq (c ∷ []) (codes "/") && starts_with_slash s) || has_double_slash s

unfoldable pub has_empty_component : Str → Bool
unfolding starts_with_slash ends_with_slash has_double_slash
has_empty_component selector =
    starts_with_slash selector || (ends_with_slash selector || has_double_slash selector)

unfoldable pub is_glob : Str → Bool
unfolding has_byte
is_glob selector = has_byte selector 42 || (has_byte selector 63 || has_byte selector 91)

unfoldable pub is_hex : ℕ → Bool
is_hex r = (leb 48 r && leb r 57) || (leb 97 r && leb r 102)

unfoldable pub all_hex : Str → Bool
unfolding is_hex
all_hex [] = true
all_hex (r ∷ s) = is_hex r && all_hex s

unfoldable pub is_commitish : Str → Bool
unfolding all_hex lower_case
is_commitish selector =
    if ltb (length selector) min_commit_len || ltb max_commit_len (length selector)
    then false
    else all_hex (lower_case selector)

-- The tests after that for a pin.
unfoldable pub classify_pattern : (Str → Str → Option Bool) → Str → Option SelectorKind
unfolding is_glob is_commitish
classify_pattern path_match selector =
    if is_glob selector
    then (if is_some (path_match selector []) then some constraint else none)
    else if is_commitish selector
    then some commit_pin
    else none

unfoldable pub found_kind : Option ChannelInfo → Option SelectorKind
unfolding channel_kind
found_kind none = none
found_kind (some found) = some (channel_kind found)

-- None is an unknown selector. `path_match` is `path.Match` of Go's standard library, where none is its
-- error.
unfoldable pub classify_selector :
    (Str → Str → Option Bool) → Str → RefSnapshot → Option SelectorKind
unfolding has_empty_component find_channel found_kind kind_or pin_kind classify_pattern
classify_selector path_match selector snap =
    if has_empty_component selector
    then none
    else kind_or (found_kind (find_channel selector snap))
        (kind_or (pin_kind selector snap) (classify_pattern path_match selector))

-- A selector that is no escape for a tag or for a branch.
abbrev pub IsPlain : Str → Type 0
IsPlain selector =
    (cut_prefix selector tag_ref_prefix ≡ none) × (cut_prefix selector branch_ref_prefix ≡ none)

pub followed_ref-plain :
    (kind : SelectorKind) (selector : Str)
    → IsPlain selector
    → (followed_ref kind selector).1 ≡ kind_source kind
unfolding followed_ref
followed_ref-plain kind selector plain = rw (plain.0, plain.1) refl

pub followed_ref-named :
    (kind : SelectorKind) (selector : Str)
    → IsPlain selector
    → followed_ref kind selector ≡ (selector, kind_source kind)
unfolding followed_ref
followed_ref-named kind selector plain = rw (plain.0, plain.1) refl
