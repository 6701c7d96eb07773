-- ===== src/Vault/Dirs/Capped.antt =====
-- The length of the last name in the directory of an identity.
use quiver_core.Prelude.{
  ℕ, suc, ◌<◌, ◌≤◌, ◌==◌, leb, false, Option, none, some, [], ◌∷◌, ◌++◌, Str, cut-append, has_byte,
  is_empty, length, length-append, length-take, take, Bool-cases, Option-cases, ==_iff, ◌≡◌, ◌⊎◌,
  inl, inr, refl, sym, ap, ◌∙◌, subst, arith, append_assoc,
}
use quiver_core.Domain.Execution.{Namespace}
use quiver_core.Vault.Bytes.{percent, slash, at_sign, tilde}
use quiver_core.Vault.Escape.{encode_ref_segment}
use quiver_core.Vault.Dirs.{
  hash_len, max_name_len, full_cut, cap_cut, cut_before, last_index_byte, cap_name, split_path,
  identity_sides, identity_dir,
}
use quiver_core.Vault.Dirs.Decode.{has_byte-middle}

lt_of_last_index_byte : (s : Str) (c i : ℕ) → last_index_byte s c ≡ some i → i < length s
unfolding last_index_byte
lt_of_last_index_byte [] c i h = cc
lt_of_last_index_byte (x ∷ s) c i h = elim (Option-cases (last_index_byte s c)) [
  | inl e ↦ ground arith
  | inr (j, e) ↦ ground (arith, lt_of_last_index_byte s c j e)
]

cut_before-le : (o : Option ℕ) → ((i : ℕ) → o ≡ some i → i < suc full_cut) → cut_before o ≤ full_cut
unfolding cut_before
cut_before-le none h = omega arith
cut_before-le (some last) h = ground (arith, h last refl)

cap_cut-le : (name : Str) → cap_cut name ≤ full_cut
unfolding cap_cut
cap_cut-le name = cut_before-le (last_index_byte (take full_cut name) percent) (λ i e.
    omega
      (arith, lt_of_last_index_byte (take full_cut name) percent i e, length-take full_cut name))

-- What stands before the last component is empty or ends in a slash.
abbrev IsDirectory : Str → Type 0
IsDirectory s = (s ≡ []) ⊎ ((b : Str) × (s ≡ b ++ (slash ∷ [])))

IsDirectory-cons : (c : ℕ) (s : Str) → is_empty s ≡ false → IsDirectory s → IsDirectory (c ∷ s)
IsDirectory-cons c [] h d = cc
IsDirectory-cons c (x ∷ s) h (inl e) = cc
IsDirectory-cons c (x ∷ s) h (inr (b, e)) = inr (c ∷ b, ap (λ t. c ∷ t) e)

IsDirectory-slash : (s : Str) → IsDirectory s → IsDirectory (slash ∷ s)
IsDirectory-slash s (inl e) = inr ([], ap (λ t. slash ∷ t) e)
IsDirectory-slash s (inr (b, e)) = inr (slash ∷ b, ap (λ t. slash ∷ t) e)

split_path-IsDirectory : (s : Str) → IsDirectory (split_path s).0
unfolding split_path
split_path-IsDirectory [] = inl refl
split_path-IsDirectory (c ∷ s) = elim (Bool-cases (c == slash)) [
  | inl e ↦ rw e (
      subst (λ x. IsDirectory (x ∷ (split_path s).0)) (sym ((==_iff c slash).0 e))
        (IsDirectory-slash (split_path s).0 (split_path-IsDirectory s)))
  | inr e ↦ elim (Bool-cases (is_empty (split_path s).0)) [
    | inl none_before ↦ rw (e, none_before) (inl refl)
    | inr before ↦
        rw (e, before) (IsDirectory-cons c (split_path s).0 before (split_path-IsDirectory s))
  ]
]

-- A name without a slash at the end of a path stands after the path's last slash.
last_name-le :
    (b p t name : Str)
    → has_byte name slash ≡ false
    → b ++ (slash ∷ t) ≡ p ++ (slash ∷ name)
    → length name ≤ length t
last_name-le [] [] t name free e = let same : t ≡ name = cc in rw same (omega arith)
last_name-le [] (x ∷ p) t name free e =
    let same : t ≡ p ++ (slash ∷ name) = cc in
    rw same (omega (arith, length-append p (slash ∷ name)))
last_name-le (y ∷ b) [] t name free e =
    let same : b ++ (slash ∷ t) ≡ name = cc in
    cc (has_byte-middle b t slash, free, ap (λ s. has_byte s slash) same)
last_name-le (y ∷ b) (x ∷ p) t name free e = last_name-le b p t name free cc

directory_name-le :
    (s t p name : Str)
    → IsDirectory s
    → has_byte name slash ≡ false
    → s ++ t ≡ p ++ (slash ∷ name)
    → length name ≤ length t
directory_name-le s t p name (inl e) free h =
    let same : t ≡ p ++ (slash ∷ name) = ap (λ d. d ++ t) (sym e) ∙ h in
    rw same (omega (arith, length-append p (slash ∷ name)))
directory_name-le s t p name (inr (b, e)) free h =
    last_name-le b p t name free
      (sym (append_assoc b (slash ∷ []) t) ∙ ap (λ d. d ++ t) (sym e) ∙ h)

module _ (digest : Namespace → Str) where
  length-cap_name : (name : Str) (ns : Namespace) → length (cap_name digest name ns) ≤ max_name_len
  unfolding cap_name
  length-cap_name name ns = elim (Bool-cases (leb (length name) max_name_len)) [
    | inl e ↦ rw e (ground (arith, e))
    | inr e ↦
        let kept = length-take (cap_cut name) name in
        let hash = length-take hash_len (digest ns) in
        let whole = length-append (take (cap_cut name) name) (tilde ∷ take hash_len (digest ns)) in
        let bound = cap_cut-le name in rw e (omega arith)
  ]

  -- The last name in the directory of an identity with a ref has at most 96 bytes, however long the
  -- identity is: `name` is what stands after the last slash of the directory, and `bare` what stands
  -- before the first '@' of the identity.
  pub identity_dir-name_bound :
      (bare ref p name : Str)
      → has_byte bare at_sign ≡ false
      → identity_dir digest (bare ++ (at_sign ∷ ref)) ≡ p ++ (slash ∷ name)
      → has_byte name slash ≡ false
      → length name ≤ 96
  unfolding identity_dir identity_sides
  identity_dir-name_bound bare ref p name plain e free =
      let ns = bare ++ (at_sign ∷ ref) in
      let written = (split_path bare).1 ++ (at_sign ∷ encode_ref_segment ref) in
      let sides = ap (λ c. identity_sides digest ns c.0 c.1) (cut-append at_sign bare ref plain) in
      let below =
        directory_name-le (split_path bare).0 (cap_name digest written ns) p name
          (split_path-IsDirectory bare) free (sym sides ∙ e) in
      omega (arith, below, length-cap_name written ns)
