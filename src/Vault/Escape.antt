-- ===== src/Vault/Escape.antt =====
-- internal/engine/vault/pathsafe.go: the escapes of a selector and of a path component.
pub mod Unescape
pub mod Safe
use quiver_core.Prelude.{
  ℕ, zero, suc, ◌+◌, ◌*◌, ltb, leb, ◌==◌, Bool, true, false, ◌&&◌, ◌||◌, Option, none, some, List,
  [], ◌∷◌, ◌++◌, map, Str, str_eq, is_empty, cut, split, join, length, take, drop, get_elem?,
  map_option, if◌then◌else◌,
}
use quiver_core.Vault.Bytes.{
  percent, dot, slash, is_windows_reserved, is_identity_reserved, is_upper, to_upper, unhex,
  write_byte,
}

-- A trailing dot or space.
unfoldable pub is_stripped : ℕ → Bool → Bool
is_stripped c last = last && (c == dot || c == 32)

unfoldable pub must_escape_identity : ℕ → Bool → Bool
unfolding is_upper is_identity_reserved is_stripped
must_escape_identity c last =
    if ltb c 32 || (leb 127 c || (is_upper c || is_identity_reserved c))
    then true
    else is_stripped c last

unfoldable pub encode_ref_segment : Str → Str
unfolding must_escape_identity write_byte
encode_ref_segment [] = []
encode_ref_segment (c ∷ ref) =
    write_byte (must_escape_identity c (is_empty ref)) c ++ encode_ref_segment ref

-- "COM" and "LPT"
unfoldable pub is_numbered_device : Str → Bool
is_numbered_device stem = str_eq stem (67 ∷ 79 ∷ 77 ∷ []) || str_eq stem (76 ∷ 80 ∷ 84 ∷ [])

-- "CON", "PRN", "AUX" and "NUL"
unfoldable pub is_plain_device : Str → Bool
is_plain_device stem =
    (str_eq stem (67 ∷ 79 ∷ 78 ∷ []) || str_eq stem (80 ∷ 82 ∷ 78 ∷ []))
    || (str_eq stem (65 ∷ 85 ∷ 88 ∷ []) || str_eq stem (78 ∷ 85 ∷ 76 ∷ []))

unfoldable pub is_device_digit : Option ℕ → Bool
is_device_digit none = false
is_device_digit (some d) = leb 49 d && leb d 57

unfoldable pub is_windows_device_name : Str → Bool
unfolding to_upper is_plain_device is_numbered_device is_device_digit
is_windows_device_name component =
    let stem = map to_upper (cut dot component).0 in
    if is_plain_device stem
    then true
    else (length stem == 4 && is_numbered_device (take 3 stem))
      && is_device_digit (get_elem? stem 3)

-- `device` is whether the byte is the first of a component that stands alone and names a device.
unfoldable pub must_escape : ℕ → Bool → Bool → Bool
unfolding is_windows_reserved is_stripped
must_escape c last device =
    if ltb c 32 || is_windows_reserved c then true else if is_stripped c last then true else device

unfoldable pub escape_bytes : Bool → Str → Str
unfolding must_escape write_byte
escape_bytes device [] = []
escape_bytes device (c ∷ component) =
    write_byte (must_escape c (is_empty component) device) c ++ escape_bytes false component

unfoldable pub escape_component : Str → Bool → Str
unfolding escape_bytes is_windows_device_name
escape_component component standalone =
    escape_bytes (standalone && is_windows_device_name component) component

-- The loop over the components; the first is not standalone.
unfoldable pub escape_components : Bool → List Str → List Str
unfolding escape_component
escape_components standalone [] = []
escape_components standalone (component ∷ rest) =
    escape_component component standalone ∷ escape_components true rest

unfoldable pub escape_ref_dir : Str → Str
unfolding escape_components
escape_ref_dir ref = join slash (escape_components false (split slash ref))

-- The byte of two hexadecimal digits, before what follows.
unfoldable pub decoded_byte : Option ℕ → Option ℕ → Option Str → Option Str
decoded_byte (some hi) (some lo) rest = map_option (λ s. (16 * hi + lo) ∷ s) rest
decoded_byte (some hi) none rest = none
decoded_byte none lo rest = none

-- `url.PathUnescape`, of Go's standard library.
unfoldable pub path_unescape : Str → Option Str
unfolding unhex decoded_byte
path_unescape [] = some []
path_unescape (c ∷ []) = if c == percent then none else some (c ∷ [])
path_unescape (c ∷ d ∷ []) =
    let rest = path_unescape (d ∷ []) in if c == percent then none else map_option (λ s. c ∷ s) rest
path_unescape (c ∷ d ∷ e ∷ s) = elim (c == percent) [
  | true ↦ decoded_byte (unhex d) (unhex e) (path_unescape s)
  | false ↦ map_option (λ t. c ∷ t) (path_unescape (d ∷ e ∷ s))
]
