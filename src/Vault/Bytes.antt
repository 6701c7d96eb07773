-- ===== src/Vault/Bytes.antt =====
-- The bytes that internal/engine/vault/pathsafe.go tests, and their two-digit escapes.
use quiver_core.Prelude.{
  ℕ, ◌+◌, ◌-◌, ◌/◌, ◌%◌, ◌<◌, ltb, leb, ◌==◌, Bool, true, false, ◌&&◌, ◌||◌, Option, none, some, [],
  ◌∷◌, Str, if◌then◌else◌, ◌≡◌, arith,
}

-- What stands in a Go string.
abbrev pub AreBytes : Str → Type 0
AreBytes [] = Unit
AreBytes (c ∷ s) = (c < 256) × AreBytes s

abbrev pub percent : ℕ
percent = 37

abbrev pub dot : ℕ
dot = 46

abbrev pub slash : ℕ
slash = 47

abbrev pub at_sign : ℕ
at_sign = 64

abbrev pub tilde : ℕ
tilde = 126

-- The quote, '<' '>' ':' '|' '?' '*' '\' and '%'.
unfoldable pub is_windows_reserved : ℕ → Bool
is_windows_reserved c =
    (c == 34 || (c == 60 || (c == 62 || c == 58)))
    || (c == 124 || (c == 63 || (c == 42 || (c == 92 || c == percent))))

unfoldable pub is_identity_reserved : ℕ → Bool
unfolding is_windows_reserved
is_identity_reserved c = is_windows_reserved c || (c == slash || c == tilde)

unfoldable pub is_upper : ℕ → Bool
is_upper c = leb 65 c && leb c 90

-- One byte of `strings.ToUpper`, in ASCII.
unfoldable pub to_upper : ℕ → ℕ
to_upper c = if leb 97 c && leb c 122 then c - 32 else c

-- One byte as a case-insensitive filesystem compares it.
unfoldable pub to_lower : ℕ → ℕ
unfolding is_upper
to_lower c = if is_upper c then c + 32 else c

-- A digit of the verb `%02X`.
unfoldable pub hex_digit : ℕ → ℕ
hex_digit d = if ltb d 10 then 48 + d else 55 + d

-- `unhex` of net/url, where `ishex` holds.
unfoldable pub unhex : ℕ → Option ℕ
unhex c =
    if leb 48 c && leb c 57
    then some (c - 48)
    else if leb 97 c && leb c 102
    then some (c - 87)
    else if leb 65 c && leb c 70
    then some (c - 55)
    else none

-- `fmt.Fprintf(&b, "%%%02X", c)`, or `b.WriteByte(c)`.
unfoldable pub write_byte : Bool → ℕ → Str
unfolding hex_digit
write_byte true c = percent ∷ hex_digit (c / 16) ∷ hex_digit (c % 16) ∷ []
write_byte false c = c ∷ []

pub unhex-hex_digit : (d : ℕ) → d < 16 → unhex (hex_digit d) ≡ some d
unfolding unhex hex_digit
unhex-hex_digit d h = ground arith

pub unhex-to_lower : (d : ℕ) → d < 16 → unhex (to_lower (hex_digit d)) ≡ some d
unfolding unhex hex_digit to_lower is_upper
unhex-to_lower d h = ground arith
