-- ===== src/Core/Opened.antt =====
-- How `seal_decrypt` reads what `seal_encrypt` made of the shares of a base key.
use pysui_crypto.Common.{
  ℕ, ◌+◌, ◌≤◌, ◌≡◌, refl, sym, ap, subst, ◌∙◌, inl, inr, Bool, true, false, List, map, length,
  length-map, filter, All, All-index, enumerate_from, Option, some, ok, ◌>>=◌, traverse, index,
  index-map, ltb, arith,
}
use mathlib.Core.List.{map-map, Mem, zip}
use pysui_crypto.Byte.{U8}
use pysui_crypto.Tss.{all_unique, combine}
use pysui_crypto.Dem.{Key, Primitives, EncryptionInput, Ciphertext, iv}
use pysui_crypto.Dem
use pysui_crypto.Groups.{Curve, CurveLaws}
use pysui_crypto.Utils.Laws.{xor_array, xor-ok}
use pysui_crypto.Ibe.{ObjectId, Block, extract, encrypt_randomness, decrypt_randomness}
use pysui_crypto.Ibe.Laws.{
  Recipient, sealed, decrypt-sealed, decrypt_randomness-encrypt_randomness, verify_nonce_lem,
}
use pysui_crypto.Core.{
  encrypted_randomness, dem, create_full_id, is_some, EncryptedObject, combine_and_verify_nonce,
  decrypt_share, combine_shares, seal_decrypt,
}
use pysui_crypto.Core.Recipients.{
  All-recipients, length-filter-map, All-Mem-filter, all_unique-filter, traverse-positions,
  length-positions,
}
use pysui_crypto.Core.Keys.{equal, derived, derive_key-ok}
use pysui_crypto.Core.Sealed.{
  IsExtracted, Sealing, ids, ts, made, cts, length-cts, encrypted, same_servers,
}

module _ (c : Curve) (x : Sealing c) where
  open x use {id, r, base_key, threshold, servers, sharing, shares_size, indices_size}

  -- The key that encrypts the randomness.
  abbrev pub randomness_key : Key
  randomness_key = derived c encrypted_randomness base_key (cts c x) threshold (ids c x)

  pub randomness-ok :
      CurveLaws c
      → decrypt_randomness c (xor_array 32 randomness_key (c.scalar_bytes r)) randomness_key ≡ ok r
  randomness-ok laws =
      unfold encrypt_randomness in
      sym (
        ap (λ o. o >>= λ b. decrypt_randomness c b randomness_key)
          (xor-ok 32 randomness_key (c.scalar_bytes r)))
      ∙ decrypt_randomness-encrypt_randomness c laws r randomness_key

  module _ (laws : CurveLaws c) (keys : ObjectId → Option c.g1.Elt)
      (held : All (IsExtracted c keys id) servers) where
    abbrev pub keep : Recipient c → Bool
    keep t = is_some (keys t.2.0)

    abbrev pub picked : List (U8 × Block)
    picked = map (λ (t : Recipient c). (t.2.1, t.0)) (filter keep (ts c x))

    -- As many shares are picked as there are servers with a key.
    kept : length (filter keep (ts c x)) ≡ length (filter (λ i. is_some (keys i)) (ids c x))
    kept =
        length-filter-map keep (λ i. is_some (keys i)) (λ (t : Recipient c). t.2.0) (ts c x)
          (λ t. refl)
        ∙ ap (λ is. length (filter (λ i. is_some (keys i)) is)) (made c x).same_ids

    pub length-picked : length picked ≡ length (filter (λ i. is_some (keys i)) (ids c x))
    length-picked = length-map (λ (t : Recipient c). (t.2.1, t.0)) (filter keep (ts c x)) ∙ kept

    pub picked-Mem : All (λ s. Mem s (zip sharing.indices sharing.shares)) picked
    picked-Mem =
        subst (λ l. All (λ s. Mem s l) picked) (made c x).same_pairs
          (All-Mem-filter keep (λ (t : Recipient c). (t.2.1, t.0)) (ts c x))

    pub picked_unique :
        all_unique sharing.indices ≡ true → all_unique (map (λ (s : U8 × Block). s.0) picked) ≡ true
    picked_unique unique =
        ap all_unique (map-map _ (λ (t : Recipient c). (t.2.1, t.0)) (filter keep (ts c x)))
        ∙ all_unique-filter keep (λ (t : Recipient c). t.2.1) (ts c x)
            (ap all_unique (made c x).same_indices ∙ unique)

    key_of :
        (t : Recipient c)
        → IsExtracted c keys id (t.2.0, t.1)
        → keep t ≡ true
        → keys t.2.0 ≡ some (extract c t.1 id)
    key_of t (inl e) k = cc (sym (ap is_some e) ∙ k)
    key_of t (inr e) k = e

    decrypt_share-ok :
        (object : EncryptedObject c)
        → object.services ≡ zip (ids c x) sharing.indices
        → object.encrypted_shares ≡ (encrypted c x)
        → (i : ℕ) (t : Recipient c) → index (ts c x) i ≡ ok t
        → keep t ≡ true
        → decrypt_share c object keys id i ≡ ok (t.2.1, t.0)
    unfolding decrypt_share
    decrypt_share-ok object services same i t e k =
        rw
          (
            services ∙ sym (made c x).same_infos,
            same,
            index-map (λ (t : Recipient c). t.2) (ts c x) i e,
            index-map (sealed c r id) (ts c x) i e,
            key_of t
                (All-index _ (ts c x) i t
                  (All-recipients (IsExtracted c keys id) sharing.shares servers sharing.indices
                    held)
                  e)
                k,
            decrypt-sealed c laws r id t,
          )
          refl

    pub combine_and_verify_nonce-ok :
        combine 32 picked ≡ ok base_key
        → combine_and_verify_nonce c
            (encrypted c x)
            picked
            (zip (ids c x) sharing.indices)
            threshold
          ≡ ok base_key
    unfolding combine_and_verify_nonce
    combine_and_verify_nonce-ok combined =
        rw
          (
            combined,
            (same_servers c x),
            derive_key-ok c encrypted_randomness base_key (cts c x) threshold (ids c x)
                (length-cts c x),
            randomness-ok laws,
            (verify_nonce_lem c laws r _).1 refl,
          )
          refl

    module _ (package_id : ObjectId) (inner_id : List U8)
        (full_id : create_full_id package_id inner_id ≡ id) (ciphertext : Ciphertext) where
      abbrev pub object : EncryptedObject c
      object = record {
        version = 0;
        package_id = package_id;
        id = inner_id;
        services = zip (ids c x) sharing.indices;
        threshold = threshold;
        encrypted_shares = (encrypted c x);
        ciphertext = ciphertext;
      }

      positions :
          traverse (decrypt_share c object keys id) (
            map
              (λ (t : ℕ × (ObjectId × U8)). t.0)
              (filter
                (λ (t : ℕ × (ObjectId × U8)). is_some (keys t.1.0))
                (enumerate_from 0 object.services)))
          ≡ ok picked
      positions =
          ap
            (λ ss. traverse (decrypt_share c object keys id) (
              map (λ (t : ℕ × (ObjectId × U8)). t.0)
                (filter (λ (t : ℕ × (ObjectId × U8)). is_some (keys t.1.0)) (enumerate_from 0 ss))))
            (sym (made c x).same_infos)
          ∙ traverse-positions keep (λ (i : ObjectId × U8). is_some (keys i.0))
              (λ (t : Recipient c). t.2) (decrypt_share c object keys id)
              (λ (t : Recipient c). (t.2.1, t.0)) 0 (ts c x) (λ t. refl)
              (λ i t e k.
                ap (decrypt_share c object keys id) {x = 0 + i} {y = i} (omega arith)
                ∙ decrypt_share-ok object refl refl i t e k)

      -- Decryption with enough keys, past the shares.
      pub seal_decrypt-ok :
          (lib : Primitives) (public_keys : Option (List c.g2.Elt))
          → threshold ≤ length (filter (λ i. is_some (keys i)) (ids c x))
          → combine_shares c public_keys object picked id ≡ ok base_key
          → seal_decrypt c lib object keys public_keys
            ≡ Dem.decrypt lib ciphertext (derived c dem base_key (cts c x) threshold (ids c x))
      unfolding seal_decrypt
      seal_decrypt-ok lib public_keys enough combined =
          rw
            (
              full_id,
              equal (length (cts c x)) (length (zip (ids c x) sharing.indices)) sizes,
              not_below
                  (length (
                    map (λ (t : ℕ × (ObjectId × U8)). t.0)
                      (filter (λ (t : ℕ × (ObjectId × U8)). is_some (keys t.1.0))
                        (enumerate_from 0 (zip (ids c x) sharing.indices)))))
                  threshold (omega (arith, enough, count)),
              positions,
              combined,
              (same_servers c x),
              derive_key-ok c dem base_key (cts c x) threshold (ids c x) (length-cts c x),
            )
            refl
        where
          sizes : length (cts c x) ≡ length (zip (ids c x) sharing.indices)
          sizes =
              length-map (sealed c r id) (ts c x)
              ∙ sym (length-map (λ (t : Recipient c). t.2) (ts c x))
              ∙ ap length (made c x).same_infos

          count :
              length (
                map
                  (λ (t : ℕ × (ObjectId × U8)). t.0)
                  (filter
                    (λ (t : ℕ × (ObjectId × U8)). is_some (keys t.1.0))
                    (enumerate_from 0 (zip (ids c x) sharing.indices))))
              ≡ length (filter (λ i. is_some (keys i)) (ids c x))
          count =
              ap
                (λ ss. length (
                  map (λ (t : ℕ × (ObjectId × U8)). t.0)
                    (filter (λ (t : ℕ × (ObjectId × U8)). is_some (keys t.1.0))
                      (enumerate_from 0 ss))))
                (sym (made c x).same_infos)
              ∙ length-positions keep (λ (i : ObjectId × U8). is_some (keys i.0))
                  (λ (t : Recipient c). t.2) 0 (ts c x) (λ t. refl)
              ∙ kept

          not_below : (n m : ℕ) → m ≤ n → ltb n m ≡ false
          not_below n m h = ground arith
