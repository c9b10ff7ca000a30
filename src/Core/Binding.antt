-- ===== src/Core/Binding.antt =====
-- What a key that `derive_key` returns is bound to.
use pysui_crypto.Common.{
  ℕ, ◌+◌, ◌*◌, ◌<◌, ◌≡◌, refl, sym, ap, ap₂, ◌∙◌, ◌⊎◌, inl, inr, List, [], ◌∷◌, ◌++◌, length,
  length-append, append_injective, ok, panic, if◌then◌else◌, not, ◌==◌, Array, Array_ext, arith,
}
use pysui_crypto.Byte.{U8}
use pysui_crypto.Byte.Numbers.{of_ℕ_injective}
use pysui_crypto.Dem.{Key}
use pysui_crypto.Dem.RoundTrip.{equal_or_not}
use pysui_crypto.Groups.{Curve}
use pysui_crypto.Ibe.{ObjectId, Block}
use pysui_crypto.Core.{
  dst_derive_key, KeyPurpose, encrypted_randomness, dem, tag, concat_bytes, derive_key,
}
use pysui_crypto.Core.Keys.{derivation_text, derived}

length-concat_bytes : (xs : List (Array U8 32)) → length (concat_bytes xs) ≡ 32 * length xs
unfolding concat_bytes
length-concat_bytes [] = refl
length-concat_bytes (x ∷ xs) =
    omega (arith, length-append x.items (concat_bytes xs), x.size, length-concat_bytes xs)

concat_bytes_injective :
    (xs ys : List (Array U8 32))
    → length xs ≡ length ys
    → concat_bytes xs ≡ concat_bytes ys
    → xs ≡ ys
unfolding concat_bytes
concat_bytes_injective [] [] e h = refl
concat_bytes_injective [] (y ∷ ys) e h = absurd (omega arith)
concat_bytes_injective (x ∷ xs) [] e h = absurd (omega arith)
concat_bytes_injective (x ∷ xs) (y ∷ ys) e h =
    let (p, q) =
      append_injective x.items y.items (concat_bytes xs) (concat_bytes ys) (x.size ∙ sym y.size)
        h in
    ap₂ ◌∷◌ (Array_ext x y p) (concat_bytes_injective xs ys (omega arith) q)

tag_injective : (p p' : KeyPurpose) → tag p ≡ tag p' → p ≡ p'
unfolding tag
tag_injective encrypted_randomness encrypted_randomness h = refl
tag_injective encrypted_randomness dem h =
    absurd (omega (arith, of_ℕ_injective 0 1 (omega arith) (omega arith) (cc h)))
tag_injective dem encrypted_randomness h =
    absurd (omega (arith, of_ℕ_injective 1 0 (omega arith) (omega arith) (cc h)))
tag_injective dem dem h = refl

length-tag : (p p' : KeyPurpose) → length (tag p) ≡ length (tag p')
unfolding tag
length-tag encrypted_randomness encrypted_randomness = refl
length-tag encrypted_randomness dem = refl
length-tag dem encrypted_randomness = refl
length-tag dem dem = refl

-- What is hashed, part by part.
pub record AreEqual (p p' : KeyPurpose) (base base' : Key) (shares shares' : List Block) (t t' : ℕ)
    (servers servers' : List ObjectId) : Type 0 where
  pub same_purpose : p ≡ p'
  pub same_base_key : base ≡ base'
  pub same_shares : shares ≡ shares'
  pub same_threshold : t ≡ t'
  pub same_servers : servers ≡ servers'

equal_parts :
    (p p' : KeyPurpose) (base base' : Key) (shares shares' : List Block) (t t' : ℕ)
    (servers servers' : List ObjectId)
    → t < 256
    → t' < 256
    → length shares ≡ length servers
    → length shares' ≡ length servers'
    → derivation_text p base shares t servers ≡ derivation_text p' base' shares' t' servers'
    → AreEqual p p' base base' shares shares' t t' servers servers'
equal_parts p p' base base' shares shares' t t' servers servers' h h' e e' same =
    let (_, a) = append_injective dst_derive_key dst_derive_key _ _ refl same in
    let (same_base, b) =
      append_injective base.items base'.items _ _ (base.size ∙ sym base'.size) a in
    let (same_tag, d) = append_injective (tag p) (tag p') _ _ (length-tag p p') b in
    let rests : concat_bytes shares ++ concat_bytes servers
        ≡ concat_bytes shares' ++ concat_bytes servers' =
      cc d in
    let count =
      counts (length shares) (length servers) (length shares') (length servers') e e'
        (sym (total shares servers) ∙ ap length rests ∙ total shares' servers') in
    let (f, g) =
      append_injective (concat_bytes shares) (concat_bytes shares') (concat_bytes servers)
        (concat_bytes servers')
        (length-concat_bytes shares ∙ ap (λ n. 32 * n) count ∙ sym (length-concat_bytes shares'))
        rests in
    record {
      same_purpose = tag_injective p p' same_tag;
      same_base_key = Array_ext base base' same_base;
      same_shares = concat_bytes_injective shares shares' count f;
      same_threshold = of_ℕ_injective t t' h h' (cc d);
      same_servers = concat_bytes_injective servers servers' (sym e ∙ count ∙ e') g;
    }
  where
    total :
        (xs ys : List (Array U8 32))
        → length (concat_bytes xs ++ concat_bytes ys) ≡ 32 * length xs + 32 * length ys
    total xs ys =
        length-append (concat_bytes xs) (concat_bytes ys)
        ∙ ap₂ ◌+◌ (length-concat_bytes xs) (length-concat_bytes ys)

    counts : (m n m' n' : ℕ) → m ≡ n → m' ≡ n' → 32 * m + 32 * n ≡ 32 * m' + 32 * n' → m ≡ m'
    counts m n m' n' e e' h = omega (arith, e, e', h)

module _ (c : Curve) where
  derive_key_inversion :
      (p : KeyPurpose) (base : Key) (shares : List Block) (t : ℕ) (servers : List ObjectId)
      (key : Key)
      → derive_key c p base shares t servers ≡ ok key
      → (length shares ≡ length servers) × (derived c p base shares t servers ≡ key)
  unfolding derive_key
  derive_key_inversion p base shares t servers key h =
      checked (length shares) (length servers) (derived c p base shares t servers) key h
    where
      checked :
          (n m : ℕ) (a b : Key) → (if not (n == m) then panic else ok a) ≡ ok b → (n ≡ m) × (a ≡ b)
      checked n m a b h = ground arith

  -- A derived key is bound to everything it is derived from. For thresholds below 256, if
  -- `derive_key` returns one key twice, then the purposes, the base keys, the encrypted shares, the
  -- thresholds and the key servers are equal, or the two texts that it hashes differ and have the
  -- same SHA3-256 hash.
  pub derive_key-AreEqual :
      (p p' : KeyPurpose) (base base' : Key) (shares shares' : List Block) (t t' : ℕ)
      (servers servers' : List ObjectId) (key : Key)
      → t < 256
      → t' < 256
      → derive_key c p base shares t servers ≡ ok key
      → derive_key c p' base' shares' t' servers' ≡ ok key
      → AreEqual p p' base base' shares shares' t t' servers servers'
        ⊎ (¬ (
              derivation_text p base shares t servers
              ≡ derivation_text p' base' shares' t' servers')
            × (c.sha3_256 (derivation_text p base shares t servers)
                ≡ c.sha3_256 (derivation_text p' base' shares' t' servers')))
  derive_key-AreEqual p p' base base' shares shares' t t' servers servers' key h h' e e' =
      let (size, made) = derive_key_inversion p base shares t servers key e in
      let (size', made') = derive_key_inversion p' base' shares' t' servers' key e' in
      elim (equal_or_not (derivation_text p base shares t servers)
        (derivation_text p' base' shares' t' servers')) [
          | inl same ↦ inl (
              equal_parts p p' base base' shares shares' t t' servers servers' h h' size size' same)
          | inr other ↦ inr (other, made ∙ sym made')
        ]
