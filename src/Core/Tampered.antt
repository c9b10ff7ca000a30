-- ===== src/Core/Tampered.antt =====
-- An encrypted object whose ciphertext was replaced.
use pysui_crypto.Common.{
  ℕ, ◌^◌, ◌≤◌, ◌<◌, ◌≡◌, refl, sym, subst, ◌⊎◌, inl, inr, List, map, length, filter, All, Option,
  none, some, Outcome, ok, err, general_error, Array, arith,
}
use pysui_crypto.Byte.{U8}
use pysui_crypto.Utils.{Rng, generate_random_bytes}
use pysui_crypto.Tss.Sharing.{split-ok}
use pysui_crypto.Dem.{
  Key, Primitives, EncryptionInput, Ciphertext, aad_or_empty, hmac_encrypt, hmac_decrypt,
}
use pysui_crypto.Dem
use pysui_crypto.Dem.RoundTrip.{hmac_decrypt_lem, hmac_decrypt-encrypt}
use pysui_crypto.Dem.Bound.{mac_text, hmac_decrypt-binds}
use pysui_crypto.Groups.{Curve, CurveLaws}
use pysui_crypto.Ibe.{ObjectId, public_key_from_master_key}
use pysui_crypto.Core.{
  create_full_id, is_some, EncryptedObject, seal_encrypt, seal_decrypt, combine_shares,
}
use pysui_crypto.Core.Sealed.{Server, IsExtracted}
use pysui_crypto.Core.Opened.{seal_decrypt-ok}
use pysui_crypto.Core.RoundTrip.{within, sealing, dem_key, without_keys, with_keys, seal_encrypt-ok}

-- The object with another ciphertext.
abbrev pub with_ciphertext : {c : Curve} → EncryptedObject c → Ciphertext → EncryptedObject c
with_ciphertext object ciphertext = record {
  version = object.version;
  package_id = object.package_id;
  id = object.id;
  services = object.services;
  threshold = object.threshold;
  encrypted_shares = object.encrypted_shares;
  ciphertext = ciphertext;
}

-- The result is the error of a wrong MAC, or nothing was changed, or two texts have one HMAC.
abbrev pub IsRejectedOrSame :
    Primitives → Key → List U8 → List U8 → List U8 → List U8 → Outcome (List U8) → Type 0
IsRejectedOrSame lib key aad aad' blob blob' result =
    (result ≡ err (general_error "Invalid MAC"))
    ⊎ (((aad ≡ aad') × (blob ≡ blob'))
        ⊎ (¬ (mac_text lib aad blob ≡ mac_text lib aad' blob')
            × (lib.hmac_sha3_256 key (mac_text lib aad blob)
                ≡ lib.hmac_sha3_256 key (mac_text lib aad' blob'))))

module _ (lib : Primitives) (wide : (n : ℕ) → length (lib.u64_bytes n) ≡ 8)
    (injective : (m n : ℕ)
      → m < 2 ^ 64
      → n < 2 ^ 64
      → lib.u64_bytes m ≡ lib.u64_bytes n
      → m ≡ n) where
  -- A ciphertext and associated data put in the place of those that were authenticated.
  replaced :
      (key : Key) (text aad aad' blob' : List U8)
      → length aad < 2 ^ 64
      → length aad' < 2 ^ 64
      → IsRejectedOrSame lib key aad aad'
          (hmac_encrypt lib text aad key).0
          blob'
          (hmac_decrypt lib blob' (hmac_encrypt lib text aad key).1 aad' key)
  replaced key text aad aad' blob' h h' =
      elim (hmac_decrypt_lem lib blob' (hmac_encrypt lib text aad key).1 aad' key) [
        | inr (_, refused) ↦ inl refused
        | inl (_, accepted) ↦ inr (
            hmac_decrypt-binds lib wide injective (hmac_encrypt lib text aad key).1 key aad aad'
              (hmac_encrypt lib text aad key).0 blob' _ _ h h'
              (hmac_decrypt-encrypt lib text aad key) accepted)
      ]

  module _ (c : Curve) (g : Rng) (rand : g.State → c.Scalar × g.State) (laws : CurveLaws c)
      (package_id : ObjectId) (id : List U8) (threshold : ℕ) (servers : List (Server c))
      (keys : ObjectId → Option c.g1.Elt) (st : g.State) (positive : 0 < threshold)
      (fits : length servers ≤ 255)
      (held : All (IsExtracted c keys (create_full_id package_id id)) servers)
      (enough : threshold
        ≤ length (filter (λ i. is_some (keys i)) (map (λ (s : Server c). s.0) servers)))
      (text : List U8) (aad aad' : Option (List U8)) (blob' : List U8)
      (short : length (aad_or_empty aad) < 2 ^ 64)
      (short' : length (aad_or_empty aad') < 2 ^ 64) where
    abbrev input : EncryptionInput
    input = EncryptionInput.hmac256_ctr text aad

    abbrev pks : List c.g2.Elt
    pks = map (λ (s : Server c). public_key_from_master_key c s.1) servers

    opened :
        (key : Key) (result : Outcome (List U8))
        → result
          ≡ Dem.decrypt lib
              (Ciphertext.hmac256_ctr blob' aad' (hmac_encrypt lib text (aad_or_empty aad) key).1)
              key
        → IsRejectedOrSame lib key
            (aad_or_empty aad)
            (aad_or_empty aad')
            (hmac_encrypt lib text (aad_or_empty aad) key).0
            blob'
            result
    unfolding Dem.decrypt
    opened key result e =
        subst
          (IsRejectedOrSame lib key (aad_or_empty aad) (aad_or_empty aad')
            (hmac_encrypt lib text (aad_or_empty aad) key).0 blob')
          (sym e) (replaced key text (aad_or_empty aad) (aad_or_empty aad') blob' short short')

    -- A payload of the mode HMAC-CTR cannot be replaced under its tag. Where BCS writes a u64 as
    -- eight bytes, and different numbers differently, over groups with the laws of `CurveLaws`: for
    -- at most 255 servers, a positive threshold, and a user who holds extracted keys of at least
    -- `threshold` servers and no other keys of them, `seal_encrypt` succeeds. If the ciphertext and
    -- the associated data of the object are replaced and the tag is kept, with associated data of
    -- less than 2^64 bytes, then `seal_decrypt`, without public keys and with them, fails with
    -- "Invalid MAC", or the replacements are equal to the originals, or the texts that are
    -- authenticated differ and have the same HMAC under the derived key.
    pub seal_decrypt-with_ciphertext :
        (object : EncryptedObject c) × (key : Key) × (st' : g.State) × (blob : List U8)
        × (tag : Array U8 32) × (seal_encrypt c lib g rand st package_id id
              (map (λ (s : Server c). s.0) servers)
              pks
              threshold
              input
            ≡ ok (object, key, st'))
        × (object.ciphertext ≡ Ciphertext.hmac256_ctr blob aad tag)
        × IsRejectedOrSame lib key (aad_or_empty aad) (aad_or_empty aad') blob blob' (
            seal_decrypt c lib
              (with_ciphertext object (Ciphertext.hmac256_ctr blob' aad' tag))
              keys
              none)
        × IsRejectedOrSame lib key (aad_or_empty aad) (aad_or_empty aad') blob blob' (
            seal_decrypt c lib
              (with_ciphertext object (Ciphertext.hmac256_ctr blob' aad' tag))
              keys
              (some pks))
    unfolding Dem.encrypt combine_shares
    seal_decrypt-with_ciphertext =
        let s =
          split-ok g threshold (length servers) 32 (generate_random_bytes g 32 st).1
            (generate_random_bytes g 32 st).0 positive
            (within c lib g rand laws package_id id threshold servers keys st positive fits held
              enough input)
            fits (omega arith) in
        let key =
          dem_key c lib g rand laws package_id id threshold servers keys st positive fits held
            enough input s.0 s.1 s.2 s.4 s.5 s.7 in
        let x =
          sealing c lib g rand laws package_id id threshold servers keys st positive fits held
            enough input s.0 s.1 s.2 s.4 s.5 s.7 in
        (
          _,
          key,
          _,
          (hmac_encrypt lib text (aad_or_empty aad) key).0,
          (hmac_encrypt lib text (aad_or_empty aad) key).1,
          seal_encrypt-ok c lib g rand laws package_id id threshold servers keys st positive fits
              held enough input s.0 s.1 s.2 s.4 s.5 s.7,
          refl,
          opened key _ (
              seal_decrypt-ok c x laws keys held package_id id refl _ lib none enough (
                without_keys c lib g rand laws package_id id threshold servers keys st positive fits
                  held enough input s.0 s.1 s.2 s.4 s.5 s.7)),
          opened key _ (
              seal_decrypt-ok c x laws keys held package_id id refl _ lib (some pks) enough (
                with_keys c lib g rand laws package_id id threshold servers keys st positive fits
                  held enough input s.0 s.1 s.2 s.4 s.5 s.7)),
        )
