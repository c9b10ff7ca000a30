-- ===== src/Core/Decrypted.antt =====
-- `seal_decrypt` with public keys, taken apart where it succeeds.
use pysui_crypto.Common.{
  ℕ, ◌+◌, ◌≡◌, sym, ap, subst, ◌∙◌, Bool, false, not, ◌||◌, List, [], ◌∷◌, map, length, filter,
  enumerate_from, All, All-positions, Option, some, ok, ok_injective, ◌>>=◌, >>=-eq-ok, traverse,
  map_ok-eq-ok, index, ltb, ◌==◌, arith, invalid_input, guard-eq-ok,
}
use pysui_crypto.Byte.{U8}
use pysui_crypto.Dem.{Key, Primitives}
use pysui_crypto.Dem
use pysui_crypto.Groups.{Curve, CurveLaws}
use pysui_crypto.Ibe.{ObjectId, Block}
use pysui_crypto.Ibe
use pysui_crypto.Core.{
  dem, create_full_id, is_some, expect, EncryptedObject, derive_key,
  combine_and_check_share_consistency, decrypt_share, combine_shares, seal_decrypt,
}
use pysui_crypto.Core.Consistency.{combine_and_check-IsChecked}
use pysui_crypto.Core.Agreement.{IsServed, same_base_key}

-- What a successful decryption with public keys went through.
pub record IsDecrypted (c : Curve) (lib : Primitives) (object : EncryptedObject c)
    (public_keys : List c.g2.Elt) (keys : ObjectId → Option c.g1.Elt) (out : List U8) : Type 0 where
  pub served : length object.encrypted_shares.encrypted_shares ≡ length object.services
  pub shares : List (U8 × Block)
  pub read :
      traverse (decrypt_share c object keys (create_full_id object.package_id object.id)) (
        map
          (λ (t : ℕ × (ObjectId × U8)). t.0)
          (filter
            (λ (t : ℕ × (ObjectId × U8)). is_some (keys t.1.0))
            (enumerate_from 0 object.services)))
      ≡ ok shares
  pub all_served : All (IsServed object.services) shares
  pub base_key : Key
  pub check :
      combine_and_check_share_consistency c object.encrypted_shares shares
        (create_full_id object.package_id object.id)
        object.services
        object.threshold
        public_keys
      ≡ ok base_key
  pub rest :
      (derive_key c dem base_key object.encrypted_shares.encrypted_shares object.threshold
          (map (λ s. s.0) object.services)
        >>= λ key. Dem.decrypt lib object.ciphertext key)
      ≡ ok out

module _ (c : Curve) (object : EncryptedObject c) (keys : ObjectId → Option c.g1.Elt) where
  share_IsServed :
      (id : List U8) (i : ℕ) (s : ObjectId × U8)
      → index object.services i ≡ ok s
      → (r : U8 × Block) → decrypt_share c object keys id i ≡ ok r
      → IsServed object.services r
  unfolding decrypt_share
  share_IsServed id i s e r h =
      let (t, e', h1) = >>=-eq-ok (index object.services i) _ r h in
      let (ct, _, h2) = >>=-eq-ok (index object.encrypted_shares.encrypted_shares i) _ r h1 in
      let (key, _, h3) = >>=-eq-ok (expect (keys t.0)) _ r h2 in
      let (share, _, h4) =
        >>=-eq-ok (Ibe.decrypt c object.encrypted_shares.nonce ct key id t) _ r h3 in
      (i, t, e', ap (λ (s : U8 × Block). s.0) (sym (ok_injective h4)))

  traverse-IsServed :
      (id : List U8) (is : List ℕ) (shares : List (U8 × Block))
      → All (λ i. (s : ObjectId × U8) × (index object.services i ≡ ok s)) is
      → traverse (decrypt_share c object keys id) is ≡ ok shares
      → All (IsServed object.services) shares
  unfolding traverse
  traverse-IsServed id [] shares h e = subst (All (IsServed object.services)) (ok_injective e) tt
  traverse-IsServed id (i ∷ is) shares h e =
      let (r, here, e1) = >>=-eq-ok (decrypt_share c object keys id i) _ shares e in
      let (rs, there, joined) =
        map_ok-eq-ok (◌∷◌ r) (traverse (decrypt_share c object keys id) is) shares e1 in
      subst (All (IsServed object.services)) joined
        (share_IsServed id i h.0.0 h.0.1 r here, traverse-IsServed id is rs h.1 there)

module _ (c : Curve) (lib : Primitives) (object : EncryptedObject c)
    (public_keys : List c.g2.Elt) where
  pub seal_decrypt-IsDecrypted :
      (keys : ObjectId → Option c.g1.Elt) (out : List U8)
      → seal_decrypt c lib object keys (some public_keys) ≡ ok out
      → IsDecrypted c lib object public_keys keys out
  unfolding seal_decrypt combine_shares
  seal_decrypt-IsDecrypted keys out h =
      let (passed, h1) = guard-eq-ok _ _ _ out h in
      let (_, h2) =
        guard-eq-ok
          (ltb
            (length (
              map (λ (t : ℕ × (ObjectId × U8)). t.0)
                (filter (λ (t : ℕ × (ObjectId × U8)). is_some (keys t.1.0))
                  (enumerate_from 0 object.services))))
            object.threshold)
          invalid_input _ out h1 in
      let (shares, read, h3) =
        >>=-eq-ok
          (traverse (decrypt_share c object keys (create_full_id object.package_id object.id)) (
            map (λ (t : ℕ × (ObjectId × U8)). t.0)
              (filter (λ (t : ℕ × (ObjectId × U8)). is_some (keys t.1.0))
                (enumerate_from 0 object.services))))
          _ out h2 in
      let (base_key, check, h4) =
        >>=-eq-ok
          (combine_and_check_share_consistency c object.encrypted_shares shares
            (create_full_id object.package_id object.id) object.services object.threshold
            public_keys)
          _ out h3 in
      record {
        served = same_sizes (object.version == 0) _ _ passed;
        shares = shares;
        read = read;
        all_served =
            traverse-IsServed c object keys (create_full_id object.package_id object.id) _ shares
              there read;
        base_key = base_key;
        check = check;
        rest = h4;
      }
    where
      same_sizes : (b : Bool) (n m : ℕ) → (not b || not (n == m)) ≡ false → n ≡ m
      same_sizes b n m h = ground arith

      there :
          All
            (λ i. (s : ObjectId × U8) × (index object.services i ≡ ok s))
            (map
              (λ (t : ℕ × (ObjectId × U8)). t.0)
              (filter
                (λ (t : ℕ × (ObjectId × U8)). is_some (keys t.1.0))
                (enumerate_from 0 object.services)))
      there =
          All-positions (λ i. (s : ObjectId × U8) × (index object.services i ≡ ok s))
            (λ (s : ObjectId × U8). is_some (keys s.0)) 0 object.services
            (λ i s e k. (s, ap (index object.services) {x = 0 + i} {y = i} (omega arith) ∙ e))

-- Consistency of the shares. Two successful decryptions of one encrypted object, with any two sets
-- of user secret keys and the same public keys, give the same payload, also where the object was
-- not made by `seal_encrypt`. The groups have the laws of `CurveLaws`, and the scalar of a multiple
-- of the generator of the second group is unique.
pub seal_decrypt_consistent :
    (c : Curve)
    → CurveLaws c
    → ((r r' : c.Scalar) → c.g2.mul c.g2.generator r ≡ c.g2.mul c.g2.generator r' → r ≡ r')
    → (lib : Primitives) (object : EncryptedObject c) (public_keys : List c.g2.Elt)
      (keys keys' : ObjectId → Option c.g1.Elt) (out out' : List U8)
    → seal_decrypt c lib object keys (some public_keys) ≡ ok out
    → seal_decrypt c lib object keys' (some public_keys) ≡ ok out'
    → out ≡ out'
seal_decrypt_consistent c laws unique lib object public_keys keys keys' out out' h h' =
    ok_injective (
      sym a.rest
      ∙ ap
          (λ k.
            derive_key c dem k object.encrypted_shares.encrypted_shares object.threshold
              (map (λ (s : ObjectId × U8). s.0) object.services)
            >>= λ key. Dem.decrypt lib object.ciphertext key)
          (same_base_key c unique object.encrypted_shares
            (create_full_id object.package_id object.id) object.services public_keys a.served
            a.shares b.shares a.base_key b.base_key a.all_served b.all_served
            (combine_and_check-IsChecked c laws object.encrypted_shares a.shares _ object.services
              object.threshold public_keys a.base_key a.check)
            (combine_and_check-IsChecked c laws object.encrypted_shares b.shares _ object.services
              object.threshold public_keys b.base_key b.check))
      ∙ b.rest)
  where
    a : IsDecrypted c lib object public_keys keys out
    a = seal_decrypt-IsDecrypted c lib object public_keys keys out h

    b : IsDecrypted c lib object public_keys keys' out'
    b = seal_decrypt-IsDecrypted c lib object public_keys keys' out' h'
