-- ===== src/Domain/Identity.antt =====
-- internal/domain/namespace.go: the parts of an arrow's namespace.
use quiver_core.Prelude.{
  ℕ, suc, leb, ◌==◌, not, ◌&&◌, Bool, true, false, Option, none, some, List, [], ◌∷◌, ◌++◌, Str,
  is_empty, cut, split, join, has_byte, cut-none, cut-some, cut-has_byte, cut-append, cut_absent,
  join-split, length, take, get_elem?, if◌then◌else◌, ◌≡◌, ◌≢◌, refl, sym, ap, ◌∙◌, Option-cases,
  arith, inl, inr, append_assoc,
}
use quiver_core.Domain.Execution.{Namespace}

abbrev separator : ℕ
separator = 47

abbrev at_sign : ℕ
at_sign = 64

unfoldable pub bare_namespace : Namespace → Namespace
bare_namespace n = (cut at_sign n).0

unfoldable pub or_empty : Option Str → Str
or_empty none = []
or_empty (some s) = s

unfoldable pub ref : Namespace → Str
unfolding or_empty
ref n = or_empty (cut at_sign n).1

-- Whether the reference has a `*`.
unfoldable pub is_glob : Namespace → Bool
unfolding ref
is_glob n = has_byte (ref n) 42

unfoldable pub parts : Namespace → List Str
unfolding bare_namespace
parts n = split separator (bare_namespace n)

pub data NamespaceErr : Type 0 where
  empty_namespace : NamespaceErr
  wrong_format : Namespace → NamespaceErr
  empty_segment : ℕ → NamespaceErr

-- The loop over the parts, from the part numbered `i`.
unfoldable pub check_segments : ℕ → List Str → Option NamespaceErr
check_segments i [] = none
check_segments i (part ∷ rest) =
    if is_empty part then some (empty_segment i) else check_segments (suc i) rest

unfoldable pub validate : Namespace → Option NamespaceErr
unfolding parts check_segments
validate n =
    if is_empty n
    then some empty_namespace
    else if not (length (parts n) == 3) && not (length (parts n) == 4)
    then some (wrong_format n)
    else check_segments 0 (parts n)

unfoldable pub get_quid : Namespace → Str
unfolding parts bare_namespace
get_quid n =
    if leb 3 (length (parts n)) then join separator (take 3 (parts n)) else bare_namespace n

unfoldable pub get_auid : Namespace → Str
unfolding parts or_empty
get_auid n = or_empty (get_elem? (parts n) 3)

unfoldable pub is_quiver_hosted : Namespace → Bool
unfolding parts
is_quiver_hosted n = length (parts n) == 4

unfoldable pub with_ref : Namespace → Str → Namespace
unfolding bare_namespace
with_ref n r = if is_empty r then bare_namespace n else bare_namespace n ++ (at_sign ∷ r)

-- A namespace given a reference has that reference, and is the same arrow.
pub ref-with_ref :
    (n : Namespace) (r : Str)
    → (ref (with_ref n r) ≡ r) × (bare_namespace (with_ref n r) ≡ bare_namespace n)
unfolding ref with_ref bare_namespace or_empty
ref-with_ref n [] =
    let same = cut_absent at_sign (cut at_sign n).0 (cut-has_byte at_sign n) in
    (ap (λ c. or_empty c.1) same, ap (λ c. c.0) same)
ref-with_ref n (c ∷ r) =
    let same = cut-append at_sign (cut at_sign n).0 (c ∷ r) (cut-has_byte at_sign n) in
    (ap (λ c. or_empty c.1) same, ap (λ c. c.0) same)

-- The parts of a namespace and its reference make the namespace again, unless it ends in a bare `@`.
pub with_ref-ref : (n : Namespace) → (cut at_sign n).1 ≢ some [] → with_ref n (ref n) ≡ n
unfolding with_ref ref bare_namespace or_empty
with_ref-ref n ne = elim (Option-cases (cut at_sign n).1) [
  | inl e ↦ ap (λ o. joined (or_empty o)) e ∙ cut-none at_sign n e
  | inr ([], e) ↦ absurd (ne e)
  | inr (c ∷ r, e) ↦ ap (λ o. joined (or_empty o)) e ∙ sym (cut-some at_sign n (c ∷ r) e)
]
  where
    joined : Str → Namespace
    joined r = if is_empty r then (cut at_sign n).0 else (cut at_sign n).0 ++ (at_sign ∷ r)

three_or_four :
    (ps : List Str)
    → (not (length ps == 3) && not (length ps == 4)) ≡ false
    → join separator ps ≡ (
        if length ps == 4
        then join separator (take 3 ps) ++ (separator ∷ or_empty (get_elem? ps 3))
        else join separator (take 3 ps))
unfolding join or_empty
three_or_four [] h = cc
three_or_four (a ∷ []) h = cc
three_or_four (a ∷ b ∷ []) h = cc
three_or_four (a ∷ b ∷ c ∷ []) h = refl
three_or_four (a ∷ b ∷ c ∷ d ∷ []) h = sym (
    append_assoc a (separator ∷ (b ++ (separator ∷ c))) (separator ∷ d)
    ∙ ap (λ t. a ++ (separator ∷ t)) (append_assoc b (separator ∷ c) (separator ∷ d)))
three_or_four (a ∷ b ∷ c ∷ d ∷ e ∷ ps) h = ground (arith, h)

three_at_least :
    (ps : List Str)
    → (not (length ps == 3) && not (length ps == 4)) ≡ false
    → leb 3 (length ps) ≡ true
three_at_least ps h = ground (arith, h)

get_quid-join :
    (n : Namespace)
    → leb 3 (length (parts n)) ≡ true
    → get_quid n ≡ join separator (take 3 (parts n))
unfolding get_quid
get_quid-join n e = rw e refl

validated_format :
    (n : Namespace)
    → validate n ≡ none
    → (not (length (parts n) == 3) && not (length (parts n) == 4)) ≡ false
unfolding validate
validated_format n h = ground (arith, h)

-- A namespace that validates is its collection's identifier, with the arrow's own after it where a
-- collection hosts it.
pub validate-get_quid :
    (n : Namespace)
    → validate n ≡ none
    → bare_namespace n
      ≡ (if is_quiver_hosted n then get_quid n ++ (separator ∷ get_auid n) else get_quid n)
unfolding parts is_quiver_hosted get_auid
validate-get_quid n h =
    let ok = validated_format n h in
    sym (join-split separator (bare_namespace n))
    ∙ three_or_four (parts n) ok
    ∙ ap (λ q. if length (parts n) == 4 then q ++ (separator ∷ get_auid n) else q) (quid_of ok)
  where
    quid_of :
        (not (length (parts n) == 3) && not (length (parts n) == 4)) ≡ false
        → join separator (take 3 (parts n)) ≡ get_quid n
    quid_of ok = sym (get_quid-join n (three_at_least (parts n) ok))
