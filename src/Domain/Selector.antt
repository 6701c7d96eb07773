-- ===== src/Domain/Selector.antt =====
-- internal/domain/selector.go: what a row of the catalog follows, and the refs that it can see.
use quiver_core.Prelude.{
  Str, str_eq, Bool, true, false, is_empty, Option, none, some, Dict, lookup, insert, lookup-insert,
  if◌then◌else◌, ◌≡◌, refl, ap, ◌∙◌,
}

-- A string type; `unknown` is any string that is none of its constants.
pub data SelectorKind : Type 0 where
  pin tag_pin branch_pin channel ordered_channel pointer_channel branch_channel : SelectorKind
  constraint commit_pin : SelectorKind
  unknown : Str → SelectorKind

unfoldable pub valid : SelectorKind → Bool
valid (unknown s) = false
valid _ = true

unfoldable pub family : SelectorKind → SelectorKind
family tag_pin = pin
family branch_pin = pin
family ordered_channel = channel
family pointer_channel = channel
family branch_channel = channel
family kind = kind

pub record Resolved : Type 0 where
  pub ref : Str
  pub commit : Str
  pub fingerprint : Str

unfoldable pub ref_or : Resolved → Str → Str
ref_or r fallback = if is_empty r.ref then fallback else r.ref

pub record RefSnapshot : Type 0 where
  pub tags : Dict Str
  pub branches : Dict Str
  pub head : Str

-- `Commit`, after the lookup among the tags.
unfoldable pub tag_or : Option Str → Option Str → Option Str
tag_or (some found) branch = some found
tag_or none branch = branch

unfoldable pub commit : RefSnapshot → Str → Option Str
unfolding tag_or
commit s ref = tag_or (lookup ref s.tags) (lookup ref s.branches)

-- A tag that is added hides a branch of its name, and leaves what the other names stand for.
pub commit-insert :
    (s : RefSnapshot) (tag hash ref : Str)
    → commit (record s { tags = insert tag hash s.tags }) ref
      ≡ (if str_eq tag ref then some hash else commit s ref)
unfolding commit tag_or
commit-insert s tag hash ref =
    ap (λ o. tag_or o (lookup ref s.branches)) (lookup-insert tag ref hash s.tags)
    ∙ chosen (str_eq tag ref)
  where
    chosen :
        (b : Bool)
        → tag_or (if b then some hash else lookup ref s.tags) (lookup ref s.branches)
          ≡ (if b then some hash else tag_or (lookup ref s.tags) (lookup ref s.branches))
    chosen true = refl
    chosen false = refl

-- A family is its own family, and the family of a kind is valid just when the kind is.
pub family-family :
    (kind : SelectorKind)
    → (family (family kind) ≡ family kind) × (valid (family kind) ≡ valid kind)
unfolding family valid
family-family pin = (refl, refl)
family-family tag_pin = (refl, refl)
family-family branch_pin = (refl, refl)
family-family channel = (refl, refl)
family-family ordered_channel = (refl, refl)
family-family pointer_channel = (refl, refl)
family-family branch_channel = (refl, refl)
family-family constraint = (refl, refl)
family-family commit_pin = (refl, refl)
family-family (unknown s) = (refl, refl)
