-- ===== src/Core/Overflow.antt =====
-- `seal_encrypt` for more key servers than a byte can count.
use pysui_crypto.Common.{
  ℕ, suc, ◌%◌, ◌≤◌, ◌<◌, ◌≡◌, refl, sym, ap, ◌∙◌, ◌⊎◌, inl, inr, true, false, ◌||◌, List, [], ◌∷◌,
  length, ok, err, panic, invalid_input, ltb, ◌==◌, arith,
}
use mathlib.Core.List.{zip, zip_with}
use pysui_crypto.Byte.{U8}
use pysui_crypto.Utils.{Rng, generate_random_bytes}
use pysui_crypto.Tss.{SecretSharing, split}
use pysui_crypto.Tss.Sharing.{split-ok}
use pysui_crypto.Dem.{Key, Primitives, EncryptionInput}
use pysui_crypto.Groups.{Curve}
use pysui_crypto.Ibe.{ObjectId}
use pysui_crypto.Ibe.Batch.{encrypt_batched_deterministic_some}
use pysui_crypto.Core.{create_full_id, derive_key, encrypt_shares, seal_encrypt}
use pysui_crypto.Core.Keys.{equal}

length-zip_shorter :
    {A B : Type 0} (xs : List A) (ys : List B)
    → length ys ≤ length xs
    → length (zip xs ys) ≡ length ys
unfolding zip zip_with
length-zip_shorter [] [] h = refl
length-zip_shorter [] (y ∷ ys) h = absurd (omega arith)
length-zip_shorter (x ∷ xs) [] h = refl
length-zip_shorter (x ∷ xs) (y ∷ ys) h = ap suc (length-zip_shorter xs ys (omega arith))

-- The conditions on the arguments, with the count that is left of the servers.
abbrev pub IsAcceptedWrapped : {A B : Type 0} → List A → List B → ℕ → Type 0
IsAcceptedWrapped key_servers public_keys threshold =
    (0 < threshold)
    × (threshold ≤ length key_servers % 256)
    × (length public_keys ≡ length key_servers % 256)

cases :
    (k m t : ℕ)
    → ((0 < t) × (t ≤ k) × (m ≡ k) × ((ltb k t || t == 0) ≡ false))
      ⊎ (((0 < t) × (t ≤ k) × ¬ (m ≡ k) × ((ltb k t || t == 0) ≡ false))
          ⊎ (¬ ((0 < t) × (t ≤ k)) × ((ltb k t || t == 0) ≡ true)))
cases k m t = ground arith

module _ (c : Curve) (lib : Primitives) (g : Rng) (rand : g.State → c.Scalar × g.State)
    (st : g.State) (package_id : ObjectId) (id : List U8) (key_servers : List ObjectId)
    (public_keys : List c.g2.Elt) (threshold : ℕ) (input : EncryptionInput)
    (many : 255 < length key_servers) where
  abbrev count : ℕ
  count = length key_servers % 256

  abbrev base : Key × g.State
  base = generate_random_bytes g 32 st

  refused :
      (ltb count threshold || threshold == 0) ≡ true
      → seal_encrypt c lib g rand st package_id id key_servers public_keys threshold input
        ≡ err invalid_input
  unfolding seal_encrypt
  refused e = rw e refl

  differ : (n m : ℕ) → ¬ (n ≡ m) → (n == m) ≡ false
  differ n m h = ground arith

  other_public_keys :
      (sharing : SecretSharing 32) (st2 : g.State)
      → (ltb count threshold || threshold == 0) ≡ false
      → split g 32 base.1 base.0 threshold count ≡ ok (sharing, st2)
      → ¬ (length public_keys ≡ count)
      → seal_encrypt c lib g rand st package_id id key_servers public_keys threshold input
        ≡ err invalid_input
  unfolding seal_encrypt encrypt_shares
  other_public_keys sharing st2 e f h = rw (e, f, differ (length public_keys) count h) refl

  asserts :
      (sharing : SecretSharing 32) (st2 : g.State)
      → (ltb count threshold || threshold == 0) ≡ false
      → split g 32 base.1 base.0 threshold count ≡ ok (sharing, st2)
      → length public_keys ≡ count
      → length sharing.shares ≡ count
      → length sharing.indices ≡ count
      → seal_encrypt c lib g rand st package_id id key_servers public_keys threshold input ≡ panic
  unfolding seal_encrypt encrypt_shares derive_key
  asserts sharing st2 e f same p q =
      let wide =
        length-zip_shorter key_servers sharing.indices
          (fewer (length sharing.indices) (length key_servers) q many) in
      let (cts, made, size) =
        encrypt_batched_deterministic_some c (rand st2).0 sharing.shares public_keys
          (create_full_id package_id id) (zip key_servers sharing.indices) (p ∙ sym same)
          (p ∙ sym (wide ∙ q)) in
      rw
        (
          e,
          f,
          equal (length public_keys) count same,
          made,
          apart (length cts) (length key_servers) (size ∙ p) many,
        )
        refl
    where
      fewer : (n m : ℕ) → n ≡ m % 256 → 255 < m → n ≤ m
      fewer n m e h = omega (arith, e, h)

      apart : (n m : ℕ) → n ≡ m % 256 → 255 < m → (n == m) ≡ false
      apart n m e h = ground arith

  below : (n : ℕ) → n % 256 ≤ 255
  below n = omega arith

  shared :
      0 < threshold
      → threshold ≤ count
      → (sharing : SecretSharing 32) × (st2 : g.State) × (split g 32 base.1 base.0 threshold count
          ≡ ok (sharing, st2))
        × (length sharing.shares ≡ count)
        × (length sharing.indices ≡ count)
  shared positive enough =
      let (sharing, st2, f, _, p, q, _, _) =
        split-ok g threshold count 32 base.1 base.0 positive enough (below (length key_servers))
          (omega arith) in
      (sharing, st2, f, p, q)

  -- `seal_encrypt` counts the key servers in a byte. For more than 255 of them the count wraps:
  -- where the threshold and the number of public keys fit the wrapped count, `seal_encrypt` panics,
  -- at the debug assertion of `derive_key` that there are as many encrypted shares as key servers.
  -- All other arguments are refused as invalid input.
  pub seal_encrypt-wraps :
      (IsAcceptedWrapped key_servers public_keys threshold
        × (seal_encrypt c lib g rand st package_id id key_servers public_keys threshold input
            ≡ panic))
      ⊎ (¬ (IsAcceptedWrapped key_servers public_keys threshold)
          × (seal_encrypt c lib g rand st package_id id key_servers public_keys threshold input
              ≡ err invalid_input))
  seal_encrypt-wraps = elim (cases count (length public_keys) threshold) [
    | inl (positive, enough, same, e) ↦
        let (sharing, st2, f, p, q) = shared positive enough in
        inl ((positive, enough, same), asserts sharing st2 e f same p q)
    | inr (inl (positive, enough, other, e)) ↦
        let (sharing, st2, f, _, _) = shared positive enough in
        inr ((λ a. other a.2), other_public_keys sharing st2 e f other)
    | inr (inr (outside, e)) ↦ inr ((λ a. outside (a.0, a.1)), refused e)
  ]
