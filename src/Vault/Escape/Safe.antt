-- ===== src/Vault/Escape/Safe.antt =====
-- What stands in an escaped name: no byte that is reserved, apart from the escapes' own.
use quiver_core.Prelude.{
  ℕ, ◌/◌, ◌%◌, ◌<◌, ◌≤◌, ◌==◌, Bool, true, false, [], ◌∷◌, ◌++◌, Str, is_empty, has_byte,
  has_byte-append, ◌≡◌, ◌≢◌, refl, sym, ap, ◌∙◌, arith,
}
use quiver_core.Vault.Bytes.{
  AreBytes, percent, slash, write_byte, hex_digit, is_identity_reserved, is_windows_reserved,
}
use quiver_core.Vault.Escape.{
  must_escape_identity, is_stripped, encode_ref_segment, must_escape, escape_bytes,
  escape_component,
}

hex_digit_plain : (d b : ℕ) → d < 16 → is_identity_reserved b ≡ true → (hex_digit d == b) ≡ false
unfolding hex_digit is_identity_reserved is_windows_reserved
hex_digit_plain d b lt h = ground arith

write_byte-has_byte :
    (e : Bool) (c b : ℕ)
    → c < 256
    → is_identity_reserved b ≡ true
    → (b == percent) ≡ false
    → (e ≡ false → (c == b) ≡ false)
    → has_byte (write_byte e c) b ≡ false
unfolding write_byte has_byte
write_byte-has_byte true c b lt h p plain =
    ground (
      arith,
      hex_digit_plain (c / 16) b (omega arith) h,
      hex_digit_plain (c % 16) b (omega arith) h,
    )
write_byte-has_byte false c b lt h p plain = rw (plain refl) refl

identity_kept :
    (c b : ℕ) (last : Bool)
    → is_identity_reserved b ≡ true
    → must_escape_identity c last ≡ false
    → (c == b) ≡ false
unfolding must_escape_identity is_identity_reserved is_windows_reserved
identity_kept c b last h kept = ground arith

pub encode-has_byte :
    (ref : Str) (b : ℕ)
    → AreBytes ref
    → is_identity_reserved b ≡ true
    → (b == percent) ≡ false
    → has_byte (encode_ref_segment ref) b ≡ false
unfolding encode_ref_segment
encode-has_byte [] b bytes h p = unfold has_byte in refl
encode-has_byte (c ∷ ref) b (lt, bytes) h p =
    rw
      (
        has_byte-append (write_byte (must_escape_identity c (is_empty ref)) c)
            (encode_ref_segment ref) b,
        write_byte-has_byte (must_escape_identity c (is_empty ref)) c b lt h p
            (identity_kept c b (is_empty ref) h),
        encode-has_byte ref b bytes h p,
      )
      refl

slash_reserved : is_identity_reserved slash ≡ true
unfolding is_identity_reserved is_windows_reserved
slash_reserved = refl

free_cons :
    (x : ℕ) (s : Str)
    → has_byte (x ∷ s) slash ≡ false
    → ((x == slash) ≡ false) × (has_byte s slash ≡ false)
unfolding has_byte
free_cons x s h = (ground arith, ground arith)

escape_bytes-slash :
    (device : Bool) (component : Str)
    → AreBytes component
    → has_byte component slash ≡ false
    → has_byte (escape_bytes device component) slash ≡ false
unfolding escape_bytes
escape_bytes-slash device [] bytes h = unfold has_byte in refl
escape_bytes-slash device (c ∷ component) (lt, bytes) h =
    let (head, tail) = free_cons c component h in
    rw
      (
        has_byte-append (write_byte (must_escape c (is_empty component) device) c)
            (escape_bytes false component) slash,
        write_byte-has_byte (must_escape c (is_empty component) device) c slash lt slash_reserved
            refl (λ e. head),
        escape_bytes-slash false component bytes tail,
      )
      refl

pub escape_component-slash :
    (component : Str) (standalone : Bool)
    → AreBytes component
    → has_byte component slash ≡ false
    → has_byte (escape_component component standalone) slash ≡ false
unfolding escape_component
escape_component-slash component standalone bytes h = escape_bytes-slash _ component bytes h

-- Printable ASCII but for the quotation mark, '*', '/', ':', '<', '>', '?', the backslash, '|' and '~'.
abbrev pub IsPortableByte : ℕ → Type 0
IsPortableByte c =
    (32 ≤ c)
    × (c < 127)
    × (c ≢ 34)
    × (c ≢ 42)
    × (c ≢ 47)
    × (c ≢ 58)
    × (c ≢ 60)
    × (c ≢ 62)
    × (c ≢ 63)
    × (c ≢ 92)
    × (c ≢ 124)
    × (c ≢ 126)

-- A name of such bytes, without a dot or a space at its end.
abbrev pub IsPortable : Str → Type 0
IsPortable [] = Unit
IsPortable (c ∷ []) = IsPortableByte c × (c ≢ 46) × (c ≢ 32)
IsPortable (c ∷ d ∷ s) = IsPortableByte c × IsPortable (d ∷ s)

unreserved-IsPortableByte :
    (c : ℕ) → 32 ≤ c → c < 127 → (is_identity_reserved c ≡ true → c ≡ percent) → IsPortableByte c
unreserved-IsPortableByte c low high h = (
  low,
  high,
  differs 34 (unfold is_identity_reserved is_windows_reserved in refl) (omega arith),
  differs 42 (unfold is_identity_reserved is_windows_reserved in refl) (omega arith),
  differs 47 (unfold is_identity_reserved is_windows_reserved in refl) (omega arith),
  differs 58 (unfold is_identity_reserved is_windows_reserved in refl) (omega arith),
  differs 60 (unfold is_identity_reserved is_windows_reserved in refl) (omega arith),
  differs 62 (unfold is_identity_reserved is_windows_reserved in refl) (omega arith),
  differs 63 (unfold is_identity_reserved is_windows_reserved in refl) (omega arith),
  differs 92 (unfold is_identity_reserved is_windows_reserved in refl) (omega arith),
  differs 124 (unfold is_identity_reserved is_windows_reserved in refl) (omega arith),
  differs 126 (unfold is_identity_reserved is_windows_reserved in refl) (omega arith),
)
  where
    differs : (b : ℕ) → is_identity_reserved b ≡ true → b ≢ percent → c ≢ b
    differs b r ne e = ne (sym e ∙ h (ap is_identity_reserved e ∙ r))

unstripped : (c : ℕ) → is_stripped c true ≡ false → (c ≢ 46) × (c ≢ 32)
unfolding is_stripped
unstripped c h = (λ e. ground arith, λ e. ground arith)

hex_digit-IsPortableByte : (d : ℕ) → d < 16 → IsPortableByte (hex_digit d)
unfolding hex_digit is_identity_reserved is_windows_reserved
hex_digit-IsPortableByte d lt =
    unreserved-IsPortableByte (hex_digit d) (ground arith) (ground arith) (λ h. ground arith)

hex_digit_kept : (d : ℕ) → d < 16 → is_stripped (hex_digit d) true ≡ false
unfolding hex_digit is_stripped
hex_digit_kept d lt = ground arith

percent-IsPortableByte : IsPortableByte percent
percent-IsPortableByte = unreserved-IsPortableByte percent (omega arith) (omega arith) (λ h. refl)

plain-IsPortableByte :
    (c : ℕ) (last : Bool)
    → must_escape_identity c last ≡ false
    → IsPortableByte c × (last ≡ true → is_stripped c true ≡ false)
unfolding must_escape_identity is_stripped
plain-IsPortableByte c last h = (
  unreserved-IsPortableByte c (ground arith) (ground arith) (λ r. ground arith),
  λ e. ground arith,
)

IsPortable-cons :
    (c : ℕ) (s : Str)
    → IsPortableByte c
    → (is_empty s ≡ true → is_stripped c true ≡ false)
    → IsPortable s
    → IsPortable (c ∷ s)
IsPortable-cons c [] h last p = let (dot, space) = unstripped c (last refl) in (h, dot, space)
IsPortable-cons c (d ∷ s) h last p = (h, p)

write_byte-IsPortable :
    (e : Bool) (c : ℕ) (s : Str)
    → c < 256
    → (e ≡ false → IsPortableByte c × (is_empty s ≡ true → is_stripped c true ≡ false))
    → IsPortable s
    → IsPortable (write_byte e c ++ s)
unfolding write_byte
write_byte-IsPortable true c s lt h p =
    let hi : c / 16 < 16 = omega arith in
    let lo : c % 16 < 16 = omega arith in
    (
      percent-IsPortableByte,
      (
        hex_digit-IsPortableByte (c / 16) hi,
        IsPortable-cons (hex_digit (c % 16)) s (hex_digit-IsPortableByte (c % 16) lo)
            (λ e. hex_digit_kept (c % 16) lo) p,
      ),
    )
write_byte-IsPortable false c s lt h p = IsPortable-cons c s (h refl).0 (h refl).1 p

write_byte_cons : (e : Bool) (c : ℕ) (s : Str) → is_empty (write_byte e c ++ s) ≡ false
unfolding write_byte
write_byte_cons true c s = refl
write_byte_cons false c s = refl

encode_empty : (ref : Str) → is_empty (encode_ref_segment ref) ≡ true → is_empty ref ≡ true
unfolding encode_ref_segment
encode_empty [] h = refl
encode_empty (c ∷ ref) h =
    cc (h, write_byte_cons (must_escape_identity c (is_empty ref)) c (encode_ref_segment ref))

-- The name made for a selector, of bytes, has only printable ASCII, has none of the printable bytes that Windows
-- refuses in a name and no '~', and does not end in a dot or a space.
pub encode_ref_segment-IsPortable : (ref : Str) → AreBytes ref → IsPortable (encode_ref_segment ref)
unfolding encode_ref_segment
encode_ref_segment-IsPortable [] bytes = tt
encode_ref_segment-IsPortable (c ∷ ref) (lt, bytes) =
    write_byte-IsPortable (must_escape_identity c (is_empty ref)) c (encode_ref_segment ref) lt
      (λ e.
        let (portable, kept) = plain-IsPortableByte c (is_empty ref) e in
        (portable, λ last. kept (encode_empty ref last)))
      (encode_ref_segment-IsPortable ref bytes)
