-- ===== src/Vault/Escape/Unescape.antt =====
-- `url.PathUnescape` undoes the escapes, also of a name that a filesystem has folded to lower case.
use quiver_core.Prelude.{
  ℕ, ◌+◌, ◌*◌, ◌/◌, ◌%◌, ◌<◌, ◌==◌, Bool, true, false, some, [], ◌∷◌, ◌++◌, map, Str, is_empty,
  map_option, ◌≡◌, refl, ap, ◌∙◌, arith,
}
use quiver_core.Vault.Bytes.{
  AreBytes, percent, is_upper, to_lower, unhex, write_byte, hex_digit, unhex-hex_digit,
  unhex-to_lower, is_identity_reserved, is_windows_reserved,
}
use quiver_core.Vault.Escape.{
  must_escape_identity, encode_ref_segment, must_escape, escape_bytes, escape_component,
  decoded_byte, path_unescape,
}

unescape_plain :
    (c : ℕ) (t : Str)
    → (c == percent) ≡ false
    → path_unescape (c ∷ t) ≡ map_option (λ s. c ∷ s) (path_unescape t)
unfolding path_unescape
unescape_plain c [] h = rw h refl
unescape_plain c (d ∷ []) h = rw h refl
unescape_plain c (d ∷ e ∷ t) h = rw (path_unescape, h) refl

unescape_hex :
    (hi lo a b : ℕ) (t : Str)
    → unhex a ≡ some hi
    → unhex b ≡ some lo
    → path_unescape (percent ∷ a ∷ b ∷ t) ≡ map_option (λ s. (16 * hi + lo) ∷ s) (path_unescape t)
unfolding path_unescape decoded_byte
unescape_hex hi lo a b t ea eb = rw (ea, eb) refl

hex_value : (c : ℕ) → 16 * (c / 16) + c % 16 ≡ c
hex_value c = omega arith

-- An escape is undone, and so is the escape folded to lower case.
pub unescape-write_byte :
    (e : Bool) (c : ℕ) (t : Str)
    → c < 256
    → (e ≡ false → (c == percent) ≡ false)
    → path_unescape (write_byte e c ++ t) ≡ map_option (λ s. c ∷ s) (path_unescape t)
unfolding write_byte
unescape-write_byte true c t lt h =
    unescape_hex (c / 16) (c % 16) (hex_digit (c / 16)) (hex_digit (c % 16)) t
      (unhex-hex_digit (c / 16) (omega arith)) (unhex-hex_digit (c % 16) (omega arith))
    ∙ ap (λ v. map_option (λ s. v ∷ s) (path_unescape t)) (hex_value c)
unescape-write_byte false c t lt h = unescape_plain c t (h refl)

folded-write_byte :
    (e : Bool) (c : ℕ) (t : Str)
    → c < 256
    → (e ≡ false → ((c == percent) ≡ false) × (is_upper c ≡ false))
    → path_unescape (map to_lower (write_byte e c) ++ t) ≡ map_option (λ s. c ∷ s) (path_unescape t)
unfolding write_byte path_unescape to_lower
folded-write_byte true c t lt h =
    unescape_hex (c / 16) (c % 16) (to_lower (hex_digit (c / 16))) (to_lower (hex_digit (c % 16))) t
      (unhex-to_lower (c / 16) (omega arith)) (unhex-to_lower (c % 16) (omega arith))
    ∙ ap (λ v. map_option (λ s. v ∷ s) (path_unescape t)) (hex_value c)
folded-write_byte false c t lt h =
    let plain : to_lower c ≡ c = rw (h refl).1 refl in
    ap (λ v. path_unescape (v ∷ t)) plain ∙ unescape_plain c t (h refl).0

identity_plain :
    (c : ℕ) (last : Bool)
    → must_escape_identity c last ≡ false
    → ((c == percent) ≡ false) × (is_upper c ≡ false)
unfolding must_escape_identity is_identity_reserved is_windows_reserved
identity_plain c last h = (ground arith, ground arith)

component_plain :
    (c : ℕ) (last device : Bool) → must_escape c last device ≡ false → (c == percent) ≡ false
unfolding must_escape is_windows_reserved
component_plain c last device h = ground arith

map-append : (f : ℕ → ℕ) (xs ys : Str) → map f (xs ++ ys) ≡ map f xs ++ map f ys
map-append f [] ys = refl
map-append f (x ∷ xs) ys = ap (λ t. f x ∷ t) (map-append f xs ys)

pub encode_ref_segment_folded :
    (ref : Str) → AreBytes ref → path_unescape (map to_lower (encode_ref_segment ref)) ≡ some ref
unfolding encode_ref_segment
encode_ref_segment_folded [] bytes = unfold path_unescape in refl
encode_ref_segment_folded (c ∷ ref) (lt, bytes) =
    let e = must_escape_identity c (is_empty ref) in
    ap path_unescape (map-append to_lower (write_byte e c) (encode_ref_segment ref))
    ∙ folded-write_byte e c _ lt (identity_plain c (is_empty ref))
    ∙ ap (map_option (λ s. c ∷ s)) (encode_ref_segment_folded ref bytes)

pub unescape-encode_ref_segment :
    (ref : Str) → AreBytes ref → path_unescape (encode_ref_segment ref) ≡ some ref
unfolding encode_ref_segment
unescape-encode_ref_segment [] bytes = unfold path_unescape in refl
unescape-encode_ref_segment (c ∷ ref) (lt, bytes) =
    let e = must_escape_identity c (is_empty ref) in
    unescape-write_byte e c _ lt (λ h. (identity_plain c (is_empty ref) h).0)
    ∙ ap (map_option (λ s. c ∷ s)) (unescape-encode_ref_segment ref bytes)

-- Unescaping the encoded name of a selector, of bytes and before any cap on its length, gives the selector back:
-- the name as it was written, and the name that a filesystem has folded to lower case.
pub unescape_both_cases :
    (ref : Str)
    → AreBytes ref
    → (path_unescape (encode_ref_segment ref) ≡ some ref)
      × (path_unescape (map to_lower (encode_ref_segment ref)) ≡ some ref)
unescape_both_cases ref bytes =
    (unescape-encode_ref_segment ref bytes, encode_ref_segment_folded ref bytes)

unescape-escape_bytes :
    (device : Bool) (component : Str)
    → AreBytes component
    → path_unescape (escape_bytes device component) ≡ some component
unfolding escape_bytes
unescape-escape_bytes device [] bytes = unfold path_unescape in refl
unescape-escape_bytes device (c ∷ component) (lt, bytes) =
    unescape-write_byte (must_escape c (is_empty component) device) c _ lt
      (component_plain c (is_empty component) device)
    ∙ ap (map_option (λ s. c ∷ s)) (unescape-escape_bytes false component bytes)

pub unescape-escape_component :
    (component : Str) (standalone : Bool)
    → AreBytes component
    → path_unescape (escape_component component standalone) ≡ some component
unfolding escape_component
unescape-escape_component component standalone bytes = unescape-escape_bytes _ component bytes
