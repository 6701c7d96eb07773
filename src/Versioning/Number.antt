-- ===== src/Versioning/Number.antt =====
-- Numbers and cases in tags: what internal/engine/manifold/resolver/resolvers uses of Go's packages
-- strconv and strings, and its semantic versions.
use quiver_core.Prelude.{
  ℕ, ◌+◌, ◌-◌, ◌*◌, ◌/◌, ◌%◌, ◌^◌, ltb, leb, ◌==◌, Bool, true, false, ◌&&◌, ◌||◌, not, Option, none,
  some, List, [], ◌∷◌, map, Str, split, length, get_elem?, ℤ, pos, negsuc, lt_int, Ordering,
  compare_int, or_else, if◌then◌else◌, IsComparator, by_key-IsComparator, then_by-IsComparator,
  compare_int-IsComparator,
}
use quiver_core.Versioning.Pattern.{is_digit}

-- `strings.ToLower` of one byte, in ASCII.
unfoldable pub lower_byte : ℕ → ℕ
lower_byte c = if leb 65 c && leb c 90 then c + 32 else c

unfoldable pub lower_case : Str → Str
unfolding lower_byte
lower_case s = map lower_byte s

-- The result of `strconv.Atoi`: a number, or an error with the number that comes with it.
pub data Atoi : Type 0 where
  number : ℤ → Atoi
  error_with : ℤ → Atoi

unfoldable pub read_digits : ℕ → Str → Option ℕ
unfolding is_digit
read_digits value [] = some value
read_digits value (c ∷ s) =
    let rest = read_digits (10 * value + (c - 48)) s in if is_digit c then rest else none

-- The largest int is one less.
abbrev pub int_bound : ℕ
int_bound = 2 ^ 63

unfoldable pub signed : Bool → Option ℕ → Atoi
signed negative none = error_with (pos 0)
signed false (some n) = if ltb n int_bound then number (pos n) else error_with (pos (int_bound - 1))
signed true (some n) =
    if n == 0
    then number (pos 0)
    else if leb n int_bound
    then number (negsuc (n - 1))
    else error_with (negsuc (int_bound - 1))

unfoldable pub unsigned_digits : Str → Option ℕ
unfolding read_digits
unsigned_digits [] = none
unsigned_digits (c ∷ s) = read_digits 0 (c ∷ s)

unfoldable pub atoi : Str → Atoi
unfolding signed unsigned_digits
atoi [] = error_with (pos 0)
atoi (c ∷ s) =
    if c == 45
    then signed true (unsigned_digits s)
    else if c == 43
    then signed false (unsigned_digits s)
    else signed false (unsigned_digits (c ∷ s))

-- `n, _ := strconv.Atoi(s)`
unfoldable pub atoi_value : Str → ℤ
unfolding atoi
atoi_value s = elim (atoi s) [ number n ↦ n | error_with n ↦ n ]

-- `strconv.Itoa` of a number below 100.
unfoldable pub itoa_short : ℕ → Str
itoa_short n = if ltb n 10 then (48 + n) ∷ [] else (48 + n / 10) ∷ (48 + n % 10) ∷ []

unfoldable pub as_natural : ℤ → ℕ
as_natural (pos n) = n
as_natural (negsuc n) = 0

-- `[4]int`
pub record Core : Type 0 where
  pub first : ℤ
  pub second : ℤ
  pub third : ℤ
  pub fourth : ℤ

unfoldable pub part_value : Option Str → ℤ
unfolding atoi_value
part_value none = pos 0
part_value (some s) = atoi_value s

-- `strings.TrimPrefix(tag, "v")`
unfoldable pub trim_v : Str → Str
trim_v [] = []
trim_v (c ∷ s) = if c == 118 then s else c ∷ s

unfoldable pub semver_parts : Str → Core
unfolding part_value trim_v
semver_parts tag =
    let parts = split 46 (trim_v tag) in
    record {
      first = part_value (get_elem? parts 0);
      second = part_value (get_elem? parts 1);
      third = part_value (get_elem? parts 2);
      fourth = part_value (get_elem? parts 3);
    }

-- One round of the loop over the parts.
unfoldable pub is_component : Atoi → Bool
is_component (number n) = not (lt_int n (pos 0))
is_component (error_with n) = false

unfoldable pub all_components : List Str → Bool
unfolding is_component atoi
all_components [] = true
all_components (p ∷ rest) = is_component (atoi p) && all_components rest

unfoldable pub is_stable_semver : Str → Bool
unfolding trim_v all_components
is_stable_semver tag =
    let parts = split 46 (trim_v tag) in
    if ltb (length parts) 2 || ltb 3 (length parts) then false else all_components parts

unfoldable pub compare_cores : Core → Core → Ordering
unfolding or_else
compare_cores a b = or_else (compare_int a.first b.first) (
    or_else (compare_int a.second b.second)
      (or_else (compare_int a.third b.third) (compare_int a.fourth b.fourth)))

pub compare_cores-IsComparator : IsComparator compare_cores
unfolding compare_cores
compare_cores-IsComparator =
    then_by-IsComparator
      (by_key-IsComparator (λ (c : Core). c.first) compare_int compare_int-IsComparator)
      (then_by-IsComparator
        (by_key-IsComparator (λ (c : Core). c.second) compare_int compare_int-IsComparator)
        (then_by-IsComparator
          (by_key-IsComparator (λ (c : Core). c.third) compare_int compare_int-IsComparator)
          (by_key-IsComparator (λ (c : Core). c.fourth) compare_int compare_int-IsComparator)))
