-- ===== src/Vault/Dirs/Distinct.antt =====
-- Two identities do not come to share a directory.
use quiver_core.Prelude.{
  suc, false, Option, none, some, [], ◌∷◌, ◌++◌, map, Str, cut, has_byte, has_byte-append, length,
  length-take, suffix_eq, take, drop, ◌≡◌, ◌⊎◌, inl, inr, refl, sym, ap, ◌∙◌, arith, append_assoc,
}
use quiver_core.Domain.Execution.{Namespace}
use quiver_core.Vault.Bytes.{
  AreBytes, at_sign, tilde, to_lower, is_identity_reserved, is_windows_reserved,
}
use quiver_core.Vault.Escape.{encode_ref_segment}
use quiver_core.Vault.Escape.Safe.{encode-has_byte}
use quiver_core.Vault.Escape.Unescape.{encode_ref_segment_folded}
use quiver_core.Vault.Escape.{path_unescape}
use quiver_core.Vault.Dirs.{
  is_hashed, hash_len, split_path, identity_sides, identity_dir, decode_ns_dir,
}
use quiver_core.Vault.Dirs.Decode.{
  cut-AreBytes, has_byte-middle, cap_name-cases, split_path_joined, decode-identity_dir,
}

-- Two selectors whose names differ in nothing but the case of letters are the same selector.
pub encode_ref_segment_case :
    (a b : Str)
    → AreBytes a
    → AreBytes b
    → map to_lower (encode_ref_segment a) ≡ map to_lower (encode_ref_segment b)
    → a ≡ b
encode_ref_segment_case a b bytes_a bytes_b e =
    cc
      (encode_ref_segment_folded a bytes_a, encode_ref_segment_folded b bytes_b, ap path_unescape e)

module _ (digest : Namespace → Str) where
  plain_free :
      (bare r : Str)
      → has_byte bare tilde ≡ false
      → AreBytes r
      → is_hashed (bare ++ (at_sign ∷ encode_ref_segment r)) ≡ false
  unfolding is_hashed is_identity_reserved is_windows_reserved
  plain_free bare r free bytes =
      rw
        (
          has_byte-append bare (at_sign ∷ encode_ref_segment r) tilde,
          free,
          has_byte-append (at_sign ∷ []) (encode_ref_segment r) tilde,
          encode-has_byte r tilde bytes refl refl,
        )
        (unfold has_byte in refl)

  sides_cases :
      (ns : Namespace) (bare : Str) (ref : Option Str)
      → has_byte bare tilde ≡ false
      → ((r : Str) → ref ≡ some r → AreBytes r)
      → (is_hashed (identity_sides digest ns bare ref) ≡ false)
        ⊎ ((kept : Str) × (identity_sides digest ns bare ref
              ≡ kept ++ (tilde ∷ take hash_len (digest ns))))
  unfolding identity_sides
  sides_cases ns bare none free bytes = inl (unfold is_hashed in free)
  sides_cases ns bare (some r) free bytes =
      let name = (split_path bare).1 ++ (at_sign ∷ encode_ref_segment r) in
      elim (cap_name-cases digest name ns) [
        | inl e ↦
            let whole =
              ap (λ t. (split_path bare).0 ++ t) e
              ∙ sym (
                  append_assoc (split_path bare).0 (split_path bare).1
                    (at_sign ∷ encode_ref_segment r))
              ∙ ap (λ t. t ++ (at_sign ∷ encode_ref_segment r)) (split_path_joined bare) in
            inl (ap is_hashed whole ∙ plain_free bare r free (bytes r refl))
        | inr (kept, e) ↦ inr (
          (split_path bare).0 ++ kept,
          ap (λ t. (split_path bare).0 ++ t) e
              ∙ sym (append_assoc (split_path bare).0 kept (tilde ∷ take hash_len (digest ns))),
        )
      ]

  dir_cases :
      (ns : Namespace)
      → AreBytes ns
      → has_byte (cut at_sign ns).0 tilde ≡ false
      → (is_hashed (identity_dir digest ns) ≡ false)
        ⊎ ((kept : Str) × (identity_dir digest ns ≡ kept ++ (tilde ∷ take hash_len (digest ns))))
  unfolding identity_dir
  dir_cases ns bytes free =
      sides_cases ns (cut at_sign ns).0 (cut at_sign ns).1 free (λ r e. cut-AreBytes ns r bytes e)

  mixed : (dir kept h : Str) → dir ≡ kept ++ (tilde ∷ h) → is_hashed dir ≡ false → ⊥
  unfolding is_hashed
  mixed dir kept h e plain = cc (ap (λ t. has_byte t tilde) e, has_byte-middle kept h tilde, plain)

  -- Two identities, of bytes, that are given one directory are the same, or the first 32 digits of
  -- their digests agree; a digest has 64 digits, and no '~' stands before the '@' of either identity.
  pub identity_dir-distinct :
      (m n : Namespace)
      → ((ns : Namespace) → length (digest ns) ≡ 64)
      → AreBytes m
      → AreBytes n
      → has_byte (cut at_sign m).0 tilde ≡ false
      → has_byte (cut at_sign n).0 tilde ≡ false
      → identity_dir digest m ≡ identity_dir digest n
      → (m ≡ n) ⊎ (take 32 (digest m) ≡ take 32 (digest n))
  identity_dir-distinct m n hex bytes_m bytes_n free_m free_n same =
      elim (dir_cases m bytes_m free_m) [
        | inl p ↦ elim (dir_cases n bytes_n free_n) [
          | inl q ↦ inl (
              sym (decode-identity_dir digest m bytes_m p)
              ∙ ap decode_ns_dir same
              ∙ decode-identity_dir digest n bytes_n q)
          | inr (kept, e) ↦
              absurd (mixed (identity_dir digest m) kept (take hash_len (digest n)) (same ∙ e) p)
        ]
        | inr (k, e) ↦ elim (dir_cases n bytes_n free_n) [
          | inl q ↦
              absurd (mixed (identity_dir digest n) k (take hash_len (digest m)) (sym same ∙ e) q)
          | inr (l, f) ↦
              let one : length (take hash_len (digest m)) ≡ length (take hash_len (digest n)) =
                omega (
                  arith,
                  length-take hash_len (digest m),
                  length-take hash_len (digest n),
                  hex m,
                  hex n,
                ) in
              inr (
                ap (drop 1) (
                  suffix_eq k l (tilde ∷ take hash_len (digest m))
                    (tilde ∷ take hash_len (digest n)) (ap suc one) (sym e ∙ same ∙ f)))
        ]
      ]
