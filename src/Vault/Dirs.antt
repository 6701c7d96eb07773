-- ===== src/Vault/Dirs.antt =====
-- internal/engine/vault/pathsafe.go: the directory of an identity, today's and the earlier layout's.
pub mod Capped
pub mod Decode
pub mod Distinct
use quiver_core.Prelude.{
  ℕ, zero, suc, ◌-◌, leb, ◌==◌, Bool, true, false, Option, none, some, List, [], ◌∷◌, ◌++◌, Str,
  is_empty, cut, split, join, has_byte, length, take, map_option, if◌then◌else◌,
}
use quiver_core.Domain.Execution.{Namespace}
use quiver_core.Vault.Bytes.{percent, slash, at_sign, tilde}
use quiver_core.Vault.Escape.{encode_ref_segment, escape_ref_dir, path_unescape}

abbrev pub max_name_len : ℕ
max_name_len = 96

abbrev pub hash_len : ℕ
hash_len = 32

-- `strings.LastIndexByte`
unfoldable pub last_index_byte : Str → ℕ → Option ℕ
last_index_byte [] c = none
last_index_byte (x ∷ s) c = elim (last_index_byte s c) [
  | some i ↦ some (suc i)
  | none ↦ if x == c then some 0 else none
]

-- `path.Split`
unfoldable pub split_path : Str → Str × Str
split_path [] = ([], [])
split_path (c ∷ s) =
    let rest = split_path s in
    if c == slash
    then (c ∷ rest.0, rest.1)
    else if is_empty rest.0
    then ([], c ∷ rest.1)
    else (c ∷ rest.0, rest.1)

abbrev pub full_cut : ℕ
full_cut = max_name_len - 1 - hash_len

-- Where a long name is cut; `last` is the last escape that starts in what a full cut keeps.
unfoldable pub cut_before : Option ℕ → ℕ
cut_before none = full_cut
cut_before (some last) = if leb (full_cut - 2) last then last else full_cut

unfoldable pub cap_cut : Str → ℕ
unfolding last_index_byte cut_before
cap_cut name = cut_before (last_index_byte (take full_cut name) percent)

unfoldable pub is_hashed : Str → Bool
is_hashed name = has_byte name tilde

-- One component, before the others.
unfoldable pub put_component : Option Str → Option (List Str) → Option (List Str)
put_component none rest = none
put_component (some s) rest = map_option (λ decoded. s ∷ decoded) rest

unfoldable pub decode_components : List Str → Option (List Str)
unfolding put_component
decode_components [] = some []
decode_components (component ∷ rest) =
    put_component (path_unescape component) (decode_components rest)

unfoldable pub decode_ref : Str → Str → Option (List Str) → Namespace
decode_ref rel bare none = rel
decode_ref rel bare (some components) = bare ++ (at_sign ∷ join slash components)

-- `decodeNSDir`, of the two sides of the `@` of `rel`.
unfoldable pub decode_sides : Str → Str → Option Str → Namespace
unfolding decode_components decode_ref
decode_sides rel bare none = rel
decode_sides rel bare (some ref) = decode_ref rel bare (decode_components (split slash ref))

unfoldable pub decode_ns_dir : Str → Namespace
unfolding decode_sides
decode_ns_dir rel = decode_sides rel (cut at_sign rel).0 (cut at_sign rel).1

unfoldable pub legacy_sides : Str → Option Str → Str
legacy_sides bare none = bare
legacy_sides bare (some ref) = bare ++ (at_sign ∷ escape_ref_dir ref)

unfoldable pub legacy_identity_dir : Namespace → Str
unfolding legacy_sides
legacy_identity_dir ns = legacy_sides (cut at_sign ns).0 (cut at_sign ns).1

-- `digest` gives the SHA-256 of a namespace in hexadecimal digits.
module _ (digest : Namespace → Str) where
  unfoldable pub cap_name : Str → Namespace → Str
  unfolding cap_cut
  cap_name name ns =
      if leb (length name) max_name_len
      then name
      else take (cap_cut name) name ++ (tilde ∷ take hash_len (digest ns))

  -- `identityDir`, of the two sides of the `@` of `ns`.
  unfoldable pub identity_sides : Namespace → Str → Option Str → Str
  unfolding split_path cap_name
  identity_sides ns bare none = bare
  identity_sides ns bare (some ref) =
      (split_path bare).0 ++ cap_name ((split_path bare).1 ++ (at_sign ∷ encode_ref_segment ref)) ns

  unfoldable pub identity_dir : Namespace → Str
  unfolding identity_sides
  identity_dir ns = identity_sides ns (cut at_sign ns).0 (cut at_sign ns).1
