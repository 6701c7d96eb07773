-- ===== src/Vault/Dirs/Decode.antt =====
-- A directory of either layout is decoded back to the identity it was made for.
use quiver_core.Prelude.{
  ℕ, leb, ◌==◌, ◌<◌, Bool, true, false, ◌||◌, Option, none, some, List, [], ◌∷◌, ◌++◌, Str,
  is_empty, cut, split, join, has_byte, has_byte-append, cut-none, cut-some, cut-has_byte,
  cut-append, cut_absent, join-split, split_absent, split-AllFree, split-join, split_cons,
  onto_first, AllFree, length, take, map_option, Bool-cases, Option-cases, ◌≡◌, ◌≢◌, inl, inr, refl,
  sym, ap, ◌∙◌, subst, arith, append_assoc, ◌⊎◌,
}
use quiver_core.Domain.Execution.{Namespace}
use quiver_core.Vault.Bytes.{
  AreBytes, slash, at_sign, tilde, is_windows_reserved, is_identity_reserved,
}
use quiver_core.Vault.Escape.{
  encode_ref_segment, escape_ref_dir, escape_component, escape_components,
}
use quiver_core.Vault.Escape.Unescape.{unescape-encode_ref_segment, unescape-escape_component}
use quiver_core.Vault.Escape.Safe.{encode-has_byte, escape_component-slash}
use quiver_core.Vault.Dirs.{
  split_path, is_hashed, hash_len, cap_cut, max_name_len, put_component, decode_sides, legacy_sides,
  identity_sides, decode_components, decode_ref, decode_ns_dir, legacy_identity_dir, cap_name,
  identity_dir,
}

AllBytes : List Str → Type 0
AllBytes [] = Unit
AllBytes (s ∷ r) = AreBytes s × AllBytes r

decode_bare : (bare : Str) → has_byte bare at_sign ≡ false → decode_ns_dir bare ≡ bare
unfolding decode_ns_dir decode_sides
decode_bare bare free = ap (λ c. decode_sides bare c.0 c.1) (cut_absent at_sign bare free)

decode-escape_components :
    (standalone : Bool) (components : List Str)
    → AllBytes components
    → decode_components (escape_components standalone components) ≡ some components
unfolding decode_components put_component escape_components AllBytes
decode-escape_components standalone [] bytes = refl
decode-escape_components standalone (s ∷ rest) bytes =
    ap (λ o. put_component o (decode_components (escape_components true rest)))
      (unescape-escape_component s standalone bytes.0)
    ∙ ap (map_option (λ t. s ∷ t)) (decode-escape_components true rest bytes.1)

onto_first-AllBytes :
    (x : ℕ) (parts : List Str) → x < 256 → AllBytes parts → AllBytes (onto_first x parts)
unfolding AllBytes onto_first
onto_first-AllBytes x [] lt bytes = ((lt, tt), tt)
onto_first-AllBytes x (part ∷ parts) lt bytes = ((lt, bytes.0), bytes.1)

split-AllBytes : (s : Str) → AreBytes s → AllBytes (split slash s)
unfolding AllBytes split
split-AllBytes [] bytes = (tt, tt)
split-AllBytes (x ∷ s) bytes = elim (Bool-cases (x == slash)) [
  | inl e ↦ rw e (tt, split-AllBytes s bytes.1)
  | inr e ↦ rw e (onto_first-AllBytes x (split slash s) bytes.0 (split-AllBytes s bytes.1))
]

AreBytes-after : (s t : Str) (c : ℕ) → AreBytes (s ++ (c ∷ t)) → AreBytes t
AreBytes-after [] t c bytes = bytes.1
AreBytes-after (x ∷ s) t c bytes = AreBytes-after s t c bytes.1

pub cut-AreBytes : (s t : Str) → AreBytes s → (cut at_sign s).1 ≡ some t → AreBytes t
cut-AreBytes s t bytes h =
    AreBytes-after (cut at_sign s).0 t at_sign (subst AreBytes (cut-some at_sign s t h) bytes)

escape_components-AllFree :
    (standalone : Bool) (components : List Str)
    → AllBytes components
    → AllFree slash components
    → AllFree slash (escape_components standalone components)
unfolding escape_components AllBytes
escape_components-AllFree standalone [] bytes free = tt
escape_components-AllFree standalone (s ∷ rest) bytes free = (
  escape_component-slash s standalone bytes.0 free.0,
  escape_components-AllFree true rest bytes.1 free.1,
)

split-escape_components :
    (components : List Str)
    → components ≢ []
    → AllBytes components
    → AllFree slash components
    → split slash (join slash (escape_components false components))
      ≡ escape_components false components
unfolding escape_components
split-escape_components [] ne bytes free = absurd (ne refl)
split-escape_components (s ∷ rest) ne bytes free =
    split-join slash (escape_component s false) (escape_components true rest)
      (escape_components-AllFree false (s ∷ rest) bytes free)

-- A name made of the part before the `@` and a selector's directory, decoded.
decode_at :
    (bare dir : Str) (components : List Str)
    → has_byte bare at_sign ≡ false
    → decode_components (split slash dir) ≡ some components
    → decode_ns_dir (bare ++ (at_sign ∷ dir)) ≡ bare ++ (at_sign ∷ join slash components)
unfolding decode_ns_dir decode_sides decode_ref
decode_at bare dir components free e =
    let rel = bare ++ (at_sign ∷ dir) in
    ap (λ c. decode_sides rel c.0 c.1) (cut-append at_sign bare dir free)
    ∙ ap (decode_ref rel bare) e

-- The two sides of a cut at the `@`, put together.
rejoined : Str → Option Str → Namespace
rejoined bare none = bare
rejoined bare (some r) = bare ++ (at_sign ∷ r)

rejoined-cut : (ns : Namespace) → rejoined (cut at_sign ns).0 (cut at_sign ns).1 ≡ ns
unfolding rejoined
rejoined-cut ns = elim (Option-cases (cut at_sign ns).1) [
  | inl e ↦ ap (rejoined (cut at_sign ns).0) e ∙ cut-none at_sign ns e
  | inr (r, e) ↦ ap (rejoined (cut at_sign ns).0) e ∙ sym (cut-some at_sign ns r e)
]

decode_one :
    (r : Str) → AreBytes r → decode_components (split slash (encode_ref_segment r)) ≡ some (r ∷ [])
unfolding decode_components put_component
decode_one r bytes =
    ap decode_components
      (split_absent slash (encode_ref_segment r) (encode-has_byte r slash bytes reserved refl))
    ∙ ap (λ o. put_component o (some [])) (unescape-encode_ref_segment r bytes)
  where
    reserved : is_identity_reserved slash ≡ true
    reserved = unfold is_identity_reserved is_windows_reserved in refl

nil_of_is_empty : (s : Str) → is_empty s ≡ true → s ≡ []
nil_of_is_empty [] h = refl
nil_of_is_empty (c ∷ s) h = cc

pub split_path_joined : (s : Str) → (split_path s).0 ++ (split_path s).1 ≡ s
unfolding split_path
split_path_joined [] = refl
split_path_joined (c ∷ s) = elim (Bool-cases (c == slash)) [
  | inl e ↦ rw e (ap (λ t. c ∷ t) (split_path_joined s))
  | inr e ↦ elim (Bool-cases (is_empty (split_path s).0)) [
    | inl none_left ↦
        rw (e, none_left)
          (ap (λ t. c ∷ t)
            (sym (ap (λ t. t ++ (split_path s).1) (nil_of_is_empty (split_path s).0 none_left))
              ∙ split_path_joined s))
    | inr some_left ↦ rw (e, some_left) (ap (λ t. c ∷ t) (split_path_joined s))
  ]
]

pub has_byte-middle : (s t : Str) (c : ℕ) → has_byte (s ++ (c ∷ t)) c ≡ true
unfolding has_byte
has_byte-middle [] t c = ground arith
has_byte-middle (x ∷ s) t c = ground (arith, has_byte-middle s t c)

-- A name is kept, or it is cut and ends in the marker and the digest.
pub cap_name-cases :
    (digest : Namespace → Str) (name : Str) (ns : Namespace)
    → (cap_name digest name ns ≡ name)
      ⊎ ((kept : Str) × (cap_name digest name ns ≡ kept ++ (tilde ∷ take hash_len (digest ns))))
unfolding cap_name
cap_name-cases digest name ns = elim (Bool-cases (leb (length name) max_name_len)) [
  | inl e ↦ inl (rw e refl)
  | inr e ↦ inr (take (cap_cut name) name, rw e refl)
]

cap_name_plain :
    (digest : Namespace → Str) (name parent : Str) (ns : Namespace)
    → is_hashed (parent ++ cap_name digest name ns) ≡ false
    → cap_name digest name ns ≡ name
unfolding is_hashed
cap_name_plain digest name parent ns plain = elim (cap_name-cases digest name ns) [
  | inl e ↦ e
  | inr (kept, e) ↦
      let hashed =
        ap (λ t. has_byte (parent ++ t) tilde) e
        ∙ has_byte-append parent (kept ++ (tilde ∷ take hash_len (digest ns))) tilde
        ∙ ap (λ b. has_byte parent tilde || b)
            (has_byte-middle kept (take hash_len (digest ns)) tilde) in
      ground (arith, hashed, plain)
]

pub plain_dir :
    (digest : Namespace → Str) (ns : Namespace) (bare r : Str)
    → is_hashed (identity_sides digest ns bare (some r)) ≡ false
    → identity_sides digest ns bare (some r) ≡ bare ++ (at_sign ∷ encode_ref_segment r)
unfolding identity_sides
plain_dir digest ns bare r plain =
    ap (λ t. (split_path bare).0 ++ t)
      (cap_name_plain digest ((split_path bare).1 ++ (at_sign ∷ encode_ref_segment r))
        (split_path bare).0 ns plain)
    ∙ sym (append_assoc (split_path bare).0 (split_path bare).1 (at_sign ∷ encode_ref_segment r))
    ∙ ap (λ t. t ++ (at_sign ∷ encode_ref_segment r)) (split_path_joined bare)

legacy_sides_decoded :
    (bare : Str) (ref : Option Str)
    → has_byte bare at_sign ≡ false
    → ((r : Str) → ref ≡ some r → AreBytes r)
    → decode_ns_dir (legacy_sides bare ref) ≡ rejoined bare ref
unfolding legacy_sides rejoined
legacy_sides_decoded bare none free bytes = decode_bare bare free
legacy_sides_decoded bare (some r) free bytes =
    let all = split-AllBytes r (bytes r refl) in
    let parts =
      split-escape_components (split slash r) (split_cons slash r) all (split-AllFree slash r) in
    decode_at bare (escape_ref_dir r) (split slash r) free (
      unfold escape_ref_dir in
      ap decode_components parts ∙ decode-escape_components false (split slash r) all)
    ∙ ap (λ t. bare ++ (at_sign ∷ t)) (join-split slash r)

-- A directory of the earlier layout is decoded to the identity that it was made for.
pub decode-legacy_identity_dir :
    (ns : Namespace) → AreBytes ns → decode_ns_dir (legacy_identity_dir ns) ≡ ns
unfolding legacy_identity_dir
decode-legacy_identity_dir ns bytes =
    legacy_sides_decoded (cut at_sign ns).0 (cut at_sign ns).1 (cut-has_byte at_sign ns)
      (λ r e. cut-AreBytes ns r bytes e)
    ∙ rejoined-cut ns

module _ (digest : Namespace → Str) where
  identity_sides_decoded :
      (ns : Namespace) (bare : Str) (ref : Option Str)
      → has_byte bare at_sign ≡ false
      → ((r : Str) → ref ≡ some r → AreBytes r)
      → is_hashed (identity_sides digest ns bare ref) ≡ false
      → decode_ns_dir (identity_sides digest ns bare ref) ≡ rejoined bare ref
  unfolding identity_sides rejoined
  identity_sides_decoded ns bare none free bytes plain = decode_bare bare free
  identity_sides_decoded ns bare (some r) free bytes plain =
      ap decode_ns_dir (plain_dir digest ns bare r plain)
      ∙ decode_at bare (encode_ref_segment r) (r ∷ []) free (decode_one r (bytes r refl))
      ∙ unfold join in refl

  -- The directory of an identity, if its name was not cut, is decoded to the identity.
  pub decode-identity_dir :
      (ns : Namespace)
      → AreBytes ns
      → is_hashed (identity_dir digest ns) ≡ false
      → decode_ns_dir (identity_dir digest ns) ≡ ns
  unfolding identity_dir
  decode-identity_dir ns bytes plain =
      identity_sides_decoded ns (cut at_sign ns).0 (cut at_sign ns).1 (cut-has_byte at_sign ns)
        (λ r e. cut-AreBytes ns r bytes e) plain
      ∙ rejoined-cut ns
