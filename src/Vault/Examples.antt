-- ===== src/Vault/Examples.antt =====
-- Names of some identities, and the theorems at them.
use quiver_core.Prelude.{
  ℕ, zero, suc, ltb, ◌≤◌, ◌&&◌, Bool, true, false, some, [], ◌∷◌, ◌++◌, map, Str, codes, cut,
  has_byte, length, take, ◌≡◌, ◌⊎◌, refl, arith,
}
use quiver_core.Domain.Execution.{Namespace}
use quiver_core.Vault.Bytes.{
  AreBytes, slash, to_lower, is_upper, write_byte, hex_digit, is_windows_reserved,
  is_identity_reserved,
}
use quiver_core.Vault.Escape.{encode_ref_segment, must_escape_identity, is_stripped, path_unescape}
use quiver_core.Vault.Escape.Safe.{IsPortable, encode_ref_segment-IsPortable}
use quiver_core.Vault.Escape.Unescape.{unescape_both_cases}
use quiver_core.Vault.Dirs.{
  identity_dir, identity_sides, legacy_identity_dir, decode_ns_dir, is_hashed, cap_name, cap_cut,
  cut_before, last_index_byte, split_path,
}
use quiver_core.Vault.Dirs.Decode.{decode-legacy_identity_dir, decode-identity_dir}
use quiver_core.Vault.Dirs.Capped.{identity_dir-name_bound}
use quiver_core.Vault.Dirs.Distinct.{identity_dir-distinct}

abbrev are_small : Str → Bool
are_small [] = true
are_small (c ∷ s) = ltb c 256 && are_small s

AreBytes-are_small : (s : Str) → are_small s ≡ true → AreBytes s
AreBytes-are_small [] h = tt
AreBytes-are_small (c ∷ s) h = (ground arith, AreBytes-are_small s (ground arith))

abbrev branch : Str
branch = codes "feat/V1."

branch_bytes : AreBytes branch
branch_bytes = AreBytes-are_small branch refl

branch_name : encode_ref_segment branch ≡ codes "feat%2F%561%2E"
unfolding encode_ref_segment must_escape_identity is_stripped write_byte hex_digit is_upper
    is_identity_reserved is_windows_reserved
branch_name = refl

abbrev identity : Namespace
identity = codes "git.io/u/repo@feat/V1."

-- A digest of sixty-four equal digits.
abbrev zeros : Namespace → Str
zeros ns = repeated 64
  where
    repeated : ℕ → Str
    repeated zero = []
    repeated (suc n) = 48 ∷ repeated n

unescape_both_cases_example :
    (path_unescape (encode_ref_segment branch) ≡ some branch)
    × (path_unescape (map to_lower (encode_ref_segment branch)) ≡ some branch)
unescape_both_cases_example = unescape_both_cases branch branch_bytes

encode_ref_segment-IsPortable_example : IsPortable (encode_ref_segment branch)
encode_ref_segment-IsPortable_example = encode_ref_segment-IsPortable branch branch_bytes

identity_bytes : AreBytes identity
identity_bytes = AreBytes-are_small identity refl

decode-legacy_identity_dir_example : decode_ns_dir (legacy_identity_dir identity) ≡ identity
decode-legacy_identity_dir_example = decode-legacy_identity_dir identity identity_bytes

identity_plain : is_hashed (identity_dir zeros identity) ≡ false
unfolding is_hashed identity_dir identity_sides cap_name split_path encode_ref_segment
    must_escape_identity is_stripped write_byte hex_digit is_upper is_identity_reserved
    is_windows_reserved cut has_byte
identity_plain = refl

decode-identity_dir_example : decode_ns_dir (identity_dir zeros identity) ≡ identity
decode-identity_dir_example = decode-identity_dir zeros identity identity_bytes identity_plain

-- Eighty bytes.
abbrev long : Str
long = codes "aaaaaaaaaabbbbbbbbbbccccccccccddddddddddeeeeeeeeeeffffffffffgggggggggghhhhhhhhhh"

abbrev long_first : Namespace
long_first = codes "h/u/" ++ (long ++ codes "@release/first-of-the-two")

abbrev long_second : Namespace
long_second = codes "h/u/" ++ (long ++ codes "@release/second-of-the-two")

long_same : identity_dir zeros long_first ≡ identity_dir zeros long_second
unfolding identity_dir identity_sides cap_name cap_cut cut_before last_index_byte split_path
    encode_ref_segment must_escape_identity is_stripped write_byte hex_digit is_upper
    is_identity_reserved is_windows_reserved cut
long_same = refl

no_tilde :
    (has_byte (cut 64 long_first).0 126 ≡ false) × (has_byte (cut 64 long_second).0 126 ≡ false)
unfolding has_byte cut
no_tilde = (refl, refl)

identity_dir-distinct_example :
    (long_first ≡ long_second) ⊎ (take 32 (zeros long_first) ≡ take 32 (zeros long_second))
identity_dir-distinct_example =
    identity_dir-distinct zeros long_first long_second (λ ns. refl)
      (AreBytes-are_small long_first refl) (AreBytes-are_small long_second refl) no_tilde.0
      no_tilde.1 long_same

-- The name of the first, cut and followed by its digest.
abbrev long_name : Str
long_name =
    codes "aaaaaaaaaabbbbbbbbbbccccccccccddddddddddeeeeeeeeeeffffffffffggg~"
    ++ codes "00000000000000000000000000000000"

long_written : identity_dir zeros long_first ≡ codes "h/u" ++ (slash ∷ long_name)
unfolding identity_dir identity_sides cap_name cap_cut cut_before last_index_byte split_path
    encode_ref_segment must_escape_identity is_stripped write_byte hex_digit is_upper
    is_identity_reserved is_windows_reserved cut
long_written = refl

no_at : has_byte (codes "h/u/" ++ long) 64 ≡ false
unfolding has_byte
no_at = refl

no_slash : has_byte long_name slash ≡ false
unfolding has_byte
no_slash = refl

identity_dir-name_bound_example : length long_name ≤ 96
identity_dir-name_bound_example =
    identity_dir-name_bound zeros (codes "h/u/" ++ long) (codes "release/first-of-the-two")
      (codes "h/u") long_name no_at long_written no_slash
