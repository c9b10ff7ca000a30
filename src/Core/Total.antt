-- ===== src/Core/Total.antt =====
-- `seal_decrypt` on any encrypted object, also one that `seal_encrypt` never made.
use pysui_crypto.Common.{
  ℕ, ◌+◌, ◌≡◌, sym, ap, subst, ◌∙◌, Bool, true, false, not, ◌||◌, List, [], ◌∷◌, map, length,
  length-map, filter, enumerate_from, All-always, All-positions, Option, none, some, ok, err, ◌>>=◌,
  traverse, index, index-as_long, Returns, Returns-ok, Returns-err, Returns-eq, Returns->>=,
  Returns-map_ok, Returns-traverse, Returns-if, Returns-guard, invalid_input, ltb, ◌==◌, Array,
  arith,
}
use mathlib.Core.List.{zip}
use pysui_crypto.Byte.{U8, of_ℕ}
use pysui_crypto.Utils.{xor}
use pysui_crypto.Utils.Laws.{xor_array, xor-ok}
use pysui_crypto.Polynomial.{Polynomial}
use pysui_crypto.Tss.{combine, interpolate, evaluate_all}
use pysui_crypto.Tss.Total.{Returns-combine, Returns-interpolate, Returns-evaluate_all}
use pysui_crypto.Dem.{Key, Primitives, Ciphertext, bytes_eq, hmac_decrypt, aes_gcm_decrypt}
use pysui_crypto.Dem
use pysui_crypto.Groups.{Curve}
use pysui_crypto.Ibe.{ObjectId, Block, decrypt_randomness, verify_nonce, decrypt_deterministic}
use pysui_crypto.Ibe
use pysui_crypto.Core.{
  KeyPurpose, encrypted_randomness, dem, create_full_id, is_some, expect, IbeEncryptions,
  EncryptedObject, derive_key, combine_and_verify_nonce, decrypt_all_shares_and_verify_nonce,
  any_differs, combine_and_check_share_consistency, decrypt_share, combine_shares, seal_decrypt,
}
use pysui_crypto.Core.Keys.{derive_key-ok}

module _ (c : Curve) (parses : (b : Array U8 32) → Returns (c.scalar_of_bytes b)) where
  Returns-decrypt_randomness : (e key : Block) → Returns (decrypt_randomness c e key)
  unfolding decrypt_randomness
  Returns-decrypt_randomness e key =
      Returns-eq (ap (λ o. o >>= c.scalar_of_bytes) (xor-ok 32 key e)) (parses (xor_array 32 key e))

  Returns-verify_nonce : (r : c.Scalar) (nonce : c.g2.Elt) → Returns (verify_nonce c r nonce)
  unfolding verify_nonce
  Returns-verify_nonce r nonce = Returns-if _ _ _ (Returns-err _) (Returns-ok tt)

  Returns-derive_key :
      (purpose : KeyPurpose) (base_key : Key) (shares : List Block) (threshold : ℕ)
      (servers : List ObjectId)
      → length shares ≡ length servers
      → Returns (derive_key c purpose base_key shares threshold servers)
  Returns-derive_key purpose base_key shares threshold servers e =
      Returns-eq (derive_key-ok c purpose base_key shares threshold servers e) (Returns-ok _)

  module _ (e : IbeEncryptions c) (services : List (ObjectId × U8))
      (sizes : length e.encrypted_shares ≡ length services) where
    sizes' : length e.encrypted_shares ≡ length (map (λ (s : ObjectId × U8). s.0) services)
    sizes' = sizes ∙ sym (length-map (λ (s : ObjectId × U8). s.0) services)

    Returns-combine_and_verify_nonce :
        (shares : List (U8 × Block)) (threshold : ℕ)
        → Returns (combine_and_verify_nonce c e shares services threshold)
    unfolding combine_and_verify_nonce
    Returns-combine_and_verify_nonce shares threshold =
        Returns->>= (combine 32 shares) _ (Returns-combine (omega arith) shares) (λ base_key _.
          Returns->>=
            (derive_key c encrypted_randomness base_key e.encrypted_shares threshold
              (map (λ s. s.0) services))
            _
            (Returns-derive_key encrypted_randomness base_key e.encrypted_shares threshold _ sizes')
            (λ key _.
              Returns->>= (decrypt_randomness c e.encrypted_randomness key) _
                (Returns-decrypt_randomness e.encrypted_randomness key)
                (λ r _.
                  Returns->>= (verify_nonce c r e.nonce) _ (Returns-verify_nonce r e.nonce)
                    (λ _ _. Returns-ok base_key))))

    Returns-decrypt_all_shares :
        (id : List U8) (public_keys : List c.g2.Elt) (base_key : Key) (threshold : ℕ)
        → Returns
            (decrypt_all_shares_and_verify_nonce c e id services public_keys base_key threshold)
    unfolding decrypt_all_shares_and_verify_nonce decrypt_deterministic
    Returns-decrypt_all_shares id public_keys base_key threshold =
        Returns->>=
          (derive_key c encrypted_randomness base_key e.encrypted_shares threshold
            (map (λ s. s.0) services))
          _ (Returns-derive_key encrypted_randomness base_key e.encrypted_shares threshold _ sizes')
          (λ key _.
            Returns->>= (decrypt_randomness c e.encrypted_randomness key) _
              (Returns-decrypt_randomness e.encrypted_randomness key)
              (λ r _.
                Returns->>= (verify_nonce c r e.nonce) _ (Returns-verify_nonce r e.nonce) (λ _ _.
                  Returns-if _ _ _ (Returns-err _) (
                    Returns-traverse _ (zip (zip public_keys e.encrypted_shares) services) (
                      All-always _ _ (λ t.
                        Returns-map_ok _ _ (Returns-eq (xor-ok 32 t.0.1 _) (Returns-ok _))))))))

    Returns-any_differs :
        (picked : List (U8 × Block)) (ps : List Polynomial) (shares : List (U8 × Block))
        → interpolate 32 picked ≡ ok ps
        → Returns (any_differs c ps shares)
    unfolding any_differs
    Returns-any_differs picked ps [] h = Returns-ok false
    Returns-any_differs picked ps (s ∷ shares) h =
        Returns->>= (evaluate_all 32 ps s.0) _ (Returns-evaluate_all (omega arith) picked ps s.0 h)
          (λ v _. Returns-if _ _ _ (Returns-any_differs picked ps shares h) (Returns-ok true))

    Returns-combine_and_check :
        (shares : List (U8 × Block)) (id : List U8) (threshold : ℕ) (public_keys : List c.g2.Elt)
        → Returns (combine_and_check_share_consistency c e shares id services threshold public_keys)
    unfolding combine_and_check_share_consistency
    Returns-combine_and_check shares id threshold public_keys =
        Returns->>= (interpolate 32 shares) _ (Returns-interpolate (omega arith) shares) (λ ps h.
          Returns->>= (evaluate_all 32 ps (of_ℕ 0)) _
            (Returns-evaluate_all (omega arith) shares ps (of_ℕ 0) h)
            (λ base_key _.
              Returns->>=
                (decrypt_all_shares_and_verify_nonce c e id services public_keys base_key threshold)
                _ (Returns-decrypt_all_shares id public_keys base_key threshold)
                (λ all _.
                  Returns->>= (any_differs c ps all) _ (Returns-any_differs shares ps all h)
                    (λ b _. Returns-if b _ _ (Returns-err _) (Returns-ok base_key)))))

  Returns-expect : {A : Type 0} (o : Option A) → is_some o ≡ true → Returns (expect o)
  Returns-expect none h = cc
  Returns-expect (some a) h = Returns-ok a

  module _ (object : EncryptedObject c) (keys : ObjectId → Option c.g1.Elt)
      (sizes : length object.encrypted_shares.encrypted_shares ≡ length object.services) where
    Returns-decrypt_share :
        (id : List U8) (i : ℕ) (s : ObjectId × U8)
        → index object.services i ≡ ok s
        → is_some (keys s.0) ≡ true
        → Returns (decrypt_share c object keys id i)
    unfolding decrypt_share Ibe.decrypt
    Returns-decrypt_share id i s e k =
        let (ct, there) =
          index-as_long object.services object.encrypted_shares.encrypted_shares i s e sizes in
        rw (e, there)
          (Returns->>= (expect (keys s.0)) _ (Returns-expect (keys s.0) k) (λ key _.
            Returns->>= (xor 32 ct _) _ (Returns-eq (xor-ok 32 ct _) (Returns-ok _))
              (λ share _. Returns-ok (s.1, share))))

    Returns-decrypt_shares :
        (id : List U8)
        → Returns (
            traverse (decrypt_share c object keys id) (
              map
                (λ (t : ℕ × (ObjectId × U8)). t.0)
                (filter
                  (λ (t : ℕ × (ObjectId × U8)). is_some (keys t.1.0))
                  (enumerate_from 0 object.services))))
    Returns-decrypt_shares id = Returns-traverse _ _ (
        All-positions (λ i. Returns (decrypt_share c object keys id i))
          (λ (s : ObjectId × U8). is_some (keys s.0)) 0 object.services
          (λ i s e k.
            subst (λ m. Returns (decrypt_share c object keys id m)) {x = i} {y = 0 + i}
              (omega arith) (Returns-decrypt_share id i s e k)))

    Returns-combine_shares :
        (public_keys : Option (List c.g2.Elt)) (shares : List (U8 × Block)) (id : List U8)
        → Returns (combine_shares c public_keys object shares id)
    unfolding combine_shares
    Returns-combine_shares none shares id =
        Returns-combine_and_verify_nonce object.encrypted_shares object.services sizes shares
          object.threshold
    Returns-combine_shares (some public_keys) shares id =
        Returns-combine_and_check object.encrypted_shares object.services sizes shares id
          object.threshold public_keys

  Returns-payload :
      (lib : Primitives)
      → ((key : Key) (iv aad blob : List U8) → Returns (lib.aes_decrypt key iv aad blob))
      → (ciphertext : Ciphertext) (key : Key) → Returns (Dem.decrypt lib ciphertext key)
  unfolding Dem.decrypt hmac_decrypt aes_gcm_decrypt
  Returns-payload lib aes (Ciphertext.aes256_gcm blob aad) key = aes key _ _ blob
  Returns-payload lib aes (Ciphertext.hmac256_ctr blob aad tag) key =
      Returns-if _ _ _ (Returns-err _) (Returns-ok _)
  Returns-payload lib aes Ciphertext.plain key = Returns-ok _

  -- Where reading a scalar from its bytes and decryption of AES-256-GCM return, `seal_decrypt`
  -- returns: it does not panic on any encrypted object, with any user secret keys, without public
  -- keys or with any.
  pub seal_decrypt-Returns :
      (lib : Primitives)
      → ((key : Key) (iv aad blob : List U8) → Returns (lib.aes_decrypt key iv aad blob))
      → (object : EncryptedObject c) (keys : ObjectId → Option c.g1.Elt)
        (public_keys : Option (List c.g2.Elt))
      → Returns (seal_decrypt c lib object keys public_keys)
  unfolding seal_decrypt
  seal_decrypt-Returns lib aes object keys public_keys =
      Returns-guard
        (not (object.version == 0)
          || not (length object.encrypted_shares.encrypted_shares == length object.services))
        (err invalid_input) _ (Returns-err invalid_input)
        (λ passed.
          Returns-if
            (ltb
              (length (
                map (λ (t : ℕ × (ObjectId × U8)). t.0)
                  (filter (λ (t : ℕ × (ObjectId × U8)). is_some (keys t.1.0))
                    (enumerate_from 0 object.services))))
              object.threshold)
            (err invalid_input) _ (Returns-err invalid_input)
            (Returns->>= (traverse _ _) _
              (Returns-decrypt_shares object keys (same_sizes (object.version == 0) _ _ passed)
                (create_full_id object.package_id object.id))
              (λ shares _.
                Returns->>=
                  (combine_shares c public_keys object shares
                    (create_full_id object.package_id object.id))
                  _
                  (Returns-combine_shares object keys (same_sizes (object.version == 0) _ _ passed)
                    public_keys shares (create_full_id object.package_id object.id))
                  (λ base_key _.
                    Returns->>=
                      (derive_key c dem base_key object.encrypted_shares.encrypted_shares
                        object.threshold (map (λ s. s.0) object.services))
                      _
                      (Returns-derive_key dem base_key object.encrypted_shares.encrypted_shares
                        object.threshold _
                        (sizes' object.encrypted_shares object.services
                          (same_sizes (object.version == 0) _ _ passed)))
                      (λ key _. Returns-payload lib aes object.ciphertext key)))))
    where
      same_sizes : (b : Bool) (n m : ℕ) → (not b || not (n == m)) ≡ false → n ≡ m
      same_sizes b n m h = ground arith
