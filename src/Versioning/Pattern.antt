-- ===== src/Versioning/Pattern.antt =====
-- The regular expressions of internal/engine/manifold/resolver/resolvers/channel.go. Go's package
-- regexp takes, of the ways a pattern can match, the first in the order of the pattern's own choices;
-- a pattern is here the list of its ways, in that order.
use quiver_core.Prelude.{
  ℕ, leb, ◌==◌, Bool, ◌&&◌, ◌||◌, Option, none, some, List, [], ◌∷◌, ◌++◌, Str, if◌then◌else◌,
}

-- One way to match: what was matched, and the rest of the text.
pub record Way : Type 0 where
  pub matched : Str
  pub rest : Str

abbrev pub way : Str → Str → Way
way matched rest = record { matched = matched; rest = rest }

unfoldable pub is_digit : ℕ → Bool
is_digit c = leb 48 c && leb c 57

unfoldable pub is_letter : ℕ → Bool
is_letter c = (leb 65 c && leb c 90) || (leb 97 c && leb c 122)

-- `[-_.]`
unfoldable pub is_separator : ℕ → Bool
is_separator c = c == 45 || (c == 95 || c == 46)

-- `[A-Za-z0-9._-]`
unfoldable pub is_tail : ℕ → Bool
unfolding is_digit is_letter is_separator
is_tail c = is_letter c || (is_digit c || is_separator c)

unfoldable pub grow : Str → List Way → List Way
grow before [] = []
grow before (w ∷ ws) = way (before ++ w.matched) w.rest ∷ grow before ws

-- `.*?`: the shortest first, and no newline.
unfoldable pub lazy_any : Str → List Way
unfolding grow
lazy_any [] = way [] [] ∷ []
lazy_any (c ∷ s) =
    let more = grow (c ∷ []) (lazy_any s) in way [] (c ∷ s) ∷ (if c == 10 then [] else more)

-- One byte of a class.
unfoldable pub one : (ℕ → Bool) → Str → List Way
one p [] = []
one p (c ∷ s) = if p c then way (c ∷ []) s ∷ [] else []

-- `p*`: the longest first.
unfoldable pub many : (ℕ → Bool) → Str → List Way
unfolding grow
many p [] = way [] [] ∷ []
many p (c ∷ s) =
    let more = grow (c ∷ []) (many p s) in (if p c then more else []) ++ (way [] (c ∷ s) ∷ [])

-- One pattern after another.
unfoldable pub after : (Str → List Way) → List Way → List Way
unfolding grow
after next [] = []
after next (w ∷ ws) = grow w.matched (next w.rest) ++ after next ws

-- `m?`
unfoldable pub optional : (Str → List Way) → Str → List Way
optional m s = m s ++ (way [] s ∷ [])

-- `p+`
unfoldable pub some_of : (ℕ → Bool) → Str → List Way
unfolding after one many
some_of p s = after (many p) (one p s)

-- `\.\d+`
unfoldable pub dot_digits : Str → List Way
unfolding after one some_of is_digit
dot_digits s = after (some_of is_digit) (one (λ c. c == 46) s)

-- `\d+(?:\.\d+){1,2}`
unfoldable pub version_core : Str → List Way
unfolding after some_of is_digit dot_digits optional
version_core s = after (optional dot_digits) (after dot_digits (some_of is_digit s))

-- `[-_.]?[A-Za-z][A-Za-z0-9._-]*|[-_.]?\d+`
unfoldable pub channel_suffix : Str → List Way
unfolding after one many some_of optional is_separator is_letter is_tail is_digit
channel_suffix s =
    after (many is_tail) (after (one is_letter) (optional (one is_separator) s))
    ++ after (some_of is_digit) (optional (one is_separator) s)

-- The suffix and then the end of the text, of the first way that there is.
unfoldable pub first_whole : List Way → Option Str
first_whole [] = none
first_whole (w ∷ ws) = elim w.rest [ [] ↦ some w.matched | c ∷ r ↦ first_whole ws ]

unfoldable pub suffix_to_end : Str → Option Str
unfolding first_whole optional channel_suffix
suffix_to_end s = first_whole (optional channel_suffix s)

pub record Parsed : Type 0 where
  pub prefix : Str
  pub core : Str
  pub suffix : Str

-- `(core)(suffix)?$` after a prefix.
unfoldable pub with_core : Str → List Way → Option Parsed
unfolding suffix_to_end
with_core prefix [] = none
with_core prefix (w ∷ ws) = elim (suffix_to_end w.rest) [
  | some suffix ↦ some (record { prefix = prefix; core = w.matched; suffix = suffix })
  | none ↦ with_core prefix ws
]

-- `tagPatternWithOrdinalSuffix`, of the ways to match its prefix.
unfoldable pub ordinal_pattern : List Way → Option Parsed
unfolding with_core version_core
ordinal_pattern [] = none
ordinal_pattern (w ∷ ws) = elim (with_core w.matched (version_core w.rest)) [
  | some parsed ↦ some parsed
  | none ↦ ordinal_pattern ws
]

-- The submatches of `tagPatternWithDateCore`.
pub record Dated : Type 0 where
  pub prefix : Str
  pub year : Str
  pub month : Str
  pub day : Str
  pub patch : Str
  pub suffix : Str

-- `\d{4}`
unfoldable pub four_digits : Str → List Way
unfolding after one is_digit
four_digits s = after (one is_digit) (after (one is_digit) (after (one is_digit) (one is_digit s)))

-- `\d{1,2}`
unfoldable pub one_or_two_digits : Str → List Way
unfolding after one is_digit optional
one_or_two_digits s = after (optional (one is_digit)) (one is_digit s)

-- `-` and then a part of the date; the dash is not part of what is matched.
unfoldable pub dash_then : (Str → List Way) → Str → List Way
dash_then next [] = []
dash_then next (c ∷ s) = if c == 45 then next s else []

-- `(?:\.(\d+))?`, which captures the digits.
unfoldable pub patch_part : Str → List Way
unfolding some_of is_digit
patch_part [] = way [] [] ∷ []
patch_part (c ∷ s) = (if c == 46 then some_of is_digit s else []) ++ (way [] (c ∷ s) ∷ [])

-- The first way of a list that a function takes to an answer.
unfoldable pub first_of : {A : Type 0} → (Way → Option A) → List Way → Option A
first_of f [] = none
first_of f (w ∷ ws) = elim (f w) [ some a ↦ some a | none ↦ first_of f ws ]

-- `tagPatternWithDateCore`
unfoldable pub date_pattern : Str → Option Dated
unfolding first_of lazy_any four_digits one_or_two_digits dash_then patch_part suffix_to_end
date_pattern tag =
    first_of
      (λ p.
        first_of
          (λ y.
            first_of
              (λ m.
                first_of
                  (λ d.
                    first_of
                      (λ n. elim (suffix_to_end n.rest) [
                        | none ↦ none
                        | some suffix ↦ some (record {
                          prefix = p.matched;
                          year = y.matched;
                          month = m.matched;
                          day = d.matched;
                          patch = n.matched;
                          suffix = suffix;
                        })
                      ])
                      (patch_part d.rest))
                  (dash_then one_or_two_digits m.rest))
              (dash_then one_or_two_digits y.rest))
          (four_digits p.rest))
      (lazy_any tag)

-- `channelSuffixPattern`: the letters, and the digits that follow them.
unfoldable pub letters_digits : Str → Option (Str × Str)
unfolding first_of some_of is_letter optional one is_separator is_digit first_whole
letters_digits suffix =
    first_of
      (λ w.
        elim (first_of (λ v. first_whole (some_of is_digit v.rest))
          (optional (one is_separator) w.rest)) [
            | some digits ↦ some (w.matched, digits)
            | none ↦ elim w.rest [ [] ↦ some (w.matched, []) | c ∷ r ↦ none ]
          ])
      (some_of is_letter suffix)
