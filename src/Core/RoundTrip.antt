-- ===== src/Core/RoundTrip.antt =====
-- `seal_decrypt` after `seal_encrypt`.
use pysui_crypto.Common.{
  ℕ, ◌%◌, ◌≤◌, ◌<◌, ◌≡◌, refl, ◌∙◌, true, false, ◌||◌, List, map, length, length-map, filter, All,
  Option, none, some, ok, ltb, ◌==◌, arith,
}
use pysui_crypto.Byte.{U8}
use pysui_crypto.Utils.{Rng, generate_random_bytes}
use pysui_crypto.Tss.{SecretSharing, all_unique, split}
use pysui_crypto.Tss.Sharing.{split-ok, combine-split}
use pysui_crypto.Dem.{Key, Primitives, EncryptionInput, Ciphertext, iv}
use pysui_crypto.Dem
use pysui_crypto.Dem.RoundTrip.{payload, decrypt-encrypt}
use pysui_crypto.Groups.{Curve, CurveLaws}
use pysui_crypto.Ibe.{ObjectId, Block, public_key_from_master_key}
use pysui_crypto.Core.{
  dem, create_full_id, is_some, EncryptedObject, seal_encrypt, seal_decrypt, combine_shares,
  combine_and_verify_nonce, combine_and_check_share_consistency,
}
use pysui_crypto.Core.Recipients.{length-filter_within}
use pysui_crypto.Core.Keys.{derived, derive_key-ok}
use pysui_crypto.Core.Sealed.{
  Server, IsExtracted, Sealing, ids, cts, encrypted, length-cts, encrypt_shares-ok,
}
use pysui_crypto.Core.Opened.{
  picked, picked-Mem, picked_unique, length-picked, object, combine_and_verify_nonce-ok,
  seal_decrypt-ok,
}
use pysui_crypto.Core.PublicKeys.{public_keys, combine_and_check-ok}
use mathlib.Core.List.{zip}
use pysui_crypto.Tss.Check.{interpolate-split}

module _ (c : Curve) (lib : Primitives) (g : Rng) (rand : g.State → c.Scalar × g.State) where
  module _ (laws : CurveLaws c) (package_id : ObjectId) (inner_id : List U8) (threshold : ℕ)
      (servers : List (Server c)) (keys : ObjectId → Option c.g1.Elt) (st : g.State)
      (positive : 0 < threshold) (fits : length servers ≤ 255)
      (held : All (IsExtracted c keys (create_full_id package_id inner_id)) servers)
      (enough : threshold
        ≤ length (filter (λ i. is_some (keys i)) (map (λ (s : Server c). s.0) servers)))
      (input : EncryptionInput) where
    abbrev pub base : Key × g.State
    base = generate_random_bytes g 32 st

    pub within : threshold ≤ length servers
    within = omega (
      arith,
      enough,
      length-filter_within (λ i. is_some (keys i)) (map (λ (s : Server c). s.0) servers),
      length-map (λ (s : Server c). s.0) servers,
    )

    module _ (sharing : SecretSharing 32) (st2 : g.State)
        (shared : split g 32 base.1 base.0 threshold (length servers) ≡ ok (sharing, st2))
        (p : length sharing.shares ≡ length servers) (q : length sharing.indices ≡ length servers)
        (unique : all_unique sharing.indices ≡ true) where
      abbrev pub sealing : Sealing c
      sealing = record {
        id = create_full_id package_id inner_id;
        r = (rand st2).0;
        base_key = base.0;
        threshold = threshold;
        servers = servers;
        sharing = sharing;
        shares_size = p;
        indices_size = q;
      }

      abbrev pub shares : List (U8 × Block)
      shares = picked c sealing laws keys held

      abbrev pub dem_key : Key
      dem_key = derived c dem base.0 (cts c sealing) threshold (ids c sealing)

      many : threshold ≤ length shares
      many = omega (arith, enough, length-picked c sealing laws keys held)

      pub without_keys :
          combine_and_verify_nonce c
            (encrypted c sealing)
            shares
            (zip (ids c sealing) sharing.indices)
            threshold
          ≡ ok base.0
      without_keys = combine_and_verify_nonce-ok c sealing laws keys held (
          combine-split g threshold (length servers) 32 base.1 st2 base.0 sharing shares positive
            within fits (omega arith) shared (picked-Mem c sealing laws keys held)
            (picked_unique c sealing laws keys held unique) many)

      pub with_keys :
          combine_and_check_share_consistency c
            (encrypted c sealing)
            shares
            (create_full_id package_id inner_id)
            (zip (ids c sealing) sharing.indices)
            threshold
            (public_keys c laws sealing)
          ≡ ok base.0
      with_keys =
          let (ps, h, at_zero, everywhere) =
            interpolate-split g threshold (length servers) 32 base.1 st2 base.0 sharing shares
              positive within fits (omega arith) shared (picked-Mem c sealing laws keys held)
              (picked_unique c sealing laws keys held unique) many in
          combine_and_check-ok c laws sealing shares ps h at_zero everywhere

      pub seal_encrypt-ok :
          seal_encrypt c lib g rand st package_id inner_id
            (map (λ s. s.0) servers)
            (map (λ s. public_key_from_master_key c s.1) servers)
            threshold
            input
          ≡ ok (
            object c sealing laws keys held package_id inner_id refl
                (Dem.encrypt lib input dem_key),
            dem_key,
            (rand st2).1,
          )
      unfolding seal_encrypt
      seal_encrypt-ok =
          rw
            (
              length-map (λ (s : Server c). s.0) servers,
              small (length servers) fits,
              guards (length servers) threshold within positive,
              shared,
              encrypt_shares-ok c sealing lib g rand st2 (rand st2).1 refl,
              derive_key-ok c dem base.0 (cts c sealing) threshold
                  (map (λ (s : Server c). s.0) servers) (length-cts c sealing),
            )
            refl
        where
          small : (k : ℕ) → k ≤ 255 → k % 256 ≡ k
          small k h = omega arith

          guards : (k m : ℕ) → m ≤ k → 0 < m → (ltb k m || m == 0) ≡ false
          guards k m h pos = ground arith

      seal_decrypt_both :
          ((key : Key) (aad msg : List U8)
            → lib.aes_decrypt key iv aad (lib.aes_encrypt key iv aad msg) ≡ ok msg)
          → (seal_decrypt c lib
                (object c sealing laws keys held package_id inner_id refl
                  (Dem.encrypt lib input dem_key))
                keys
                none
              ≡ ok (payload lib input dem_key))
            × (seal_decrypt c lib
                  (object c sealing laws keys held package_id inner_id refl
                    (Dem.encrypt lib input dem_key))
                  keys
                  (some (map (λ s. public_key_from_master_key c s.1) servers))
                ≡ ok (payload lib input dem_key))
      unfolding combine_shares
      seal_decrypt_both aes = (
        seal_decrypt-ok c sealing laws keys held package_id inner_id refl _ lib none enough
              without_keys
            ∙ decrypt-encrypt lib aes input dem_key,
        seal_decrypt-ok c sealing laws keys held package_id inner_id refl _ lib _ enough with_keys
            ∙ decrypt-encrypt lib aes input dem_key,
      )

  -- Encryption to key servers and decryption with extracted keys, over groups with the laws of
  -- `CurveLaws`. At most 255 servers are given by their ids and the public keys of their master
  -- keys, and the threshold is positive. For each server the user holds either no key or the one
  -- that its master key extracts for the full id, and holds keys of at least `threshold` servers.
  -- Where decryption of AES-256-GCM undoes its encryption, `seal_encrypt` succeeds, and
  -- `seal_decrypt` with these keys gives the payload back, without the public keys and with them:
  -- the text, or in plain mode the derived key.
  pub seal_decrypt-seal_encrypt :
      (laws : CurveLaws c)
      → ((key : Key) (aad msg : List U8)
          → lib.aes_decrypt key iv aad (lib.aes_encrypt key iv aad msg) ≡ ok msg)
      → (package_id : ObjectId) (id : List U8) (threshold : ℕ) (servers : List (Server c))
        (keys : ObjectId → Option c.g1.Elt) (st : g.State) (input : EncryptionInput)
      → 0 < threshold
      → length servers ≤ 255
      → All (IsExtracted c keys (create_full_id package_id id)) servers
      → threshold ≤ length (filter (λ i. is_some (keys i)) (map (λ s. s.0) servers))
      → (object : EncryptedObject c) × (dem_key : Key) × (st' : g.State) × (seal_encrypt c lib g
            rand st package_id id
            (map (λ s. s.0) servers)
            (map (λ s. public_key_from_master_key c s.1) servers)
            threshold
            input
          ≡ ok (object, dem_key, st'))
        × (seal_decrypt c lib object keys none ≡ ok (payload lib input dem_key))
        × (seal_decrypt c lib object keys
              (some (map (λ s. public_key_from_master_key c s.1) servers))
            ≡ ok (payload lib input dem_key))
  seal_decrypt-seal_encrypt laws aes package_id id threshold servers keys st input positive fits
        held enough =
      let s =
        split-ok g threshold (length servers) 32 (generate_random_bytes g 32 st).1
          (generate_random_bytes g 32 st).0 positive
          (within laws package_id id threshold servers keys st positive fits held enough input) fits
          (omega arith) in
      let (without, checked) =
        seal_decrypt_both laws package_id id threshold servers keys st positive fits held enough
          input s.0 s.1 s.2 s.4 s.5 s.7 aes in
      (
        _,
        dem_key laws package_id id threshold servers keys st positive fits held enough input s.0 s.1
            s.2 s.4 s.5 s.7,
        _,
        seal_encrypt-ok laws package_id id threshold servers keys st positive fits held enough input
            s.0 s.1 s.2 s.4 s.5 s.7,
        without,
        checked,
      )
