-- ===== src/Bindings/RoundTrip.antt =====
-- `seal_encrypt` and `seal_decrypt` of the bindings, from bytes to bytes.
use pysui_crypto.Common.{
  ℕ, ◌≤◌, ◌<◌, ◌≡◌, refl, ap, ◌∙◌, ◌⊎◌, inl, inr, false, List, [], ◌∷◌, map, length, length-map,
  filter, Option, none, some, if◌then◌else◌, ltb, All, ok, arith,
}
use pysui_crypto.Python.{runtime_error, returned, raised, ◌>>=◌, ok_or, collect}
use pysui_crypto.Byte.{U8}
use pysui_crypto.Utils.{Rng}
use pysui_crypto.Dem.{Key, Primitives, EncryptionInput, iv}
use pysui_crypto.Dem.RoundTrip.{payload}
use pysui_crypto.Groups.{Curve, CurveLaws}
use pysui_crypto.Ibe.{ObjectId, public_key_from_master_key}
use pysui_crypto.Core.{EncryptedObject, create_full_id, is_some}
use pysui_crypto.Core
use pysui_crypto.Core.Sealed.{Server, IsExtracted}
use pysui_crypto.Core.RoundTrip.{seal_decrypt-seal_encrypt}
use pysui_crypto.Bindings.{
  DemType, dem_type_eq, encryption_input, collect_map, Bcs, parse_object_id, parse_g2,
  parse_user_secret_key, seal_encrypt, seal_decrypt,
}

-- What decryption gives back: the text, and in plain mode the derived key.
abbrev pub restored : DemType → List U8 → Key → List U8
restored DemType.aes_gcm256 text key = text
restored DemType.hmac256_ctr text key = text
restored DemType.plain text key = key.items

payload-restored :
    (lib : Primitives) (mode : DemType) (text : List U8) (aad : Option (List U8)) (key : Key)
    → payload lib (encryption_input mode text aad) key ≡ restored mode text key
payload-restored lib DemType.aes_gcm256 text aad key = refl
payload-restored lib DemType.hmac256_ctr text aad key = refl
payload-restored lib DemType.plain text aad key = refl

module _ (c : Curve) (bcs : Bcs c)
    (raw : (o : ObjectId) → bcs.object_id_from_bytes o.items ≡ some o) where
  parse_object_id-items : (o : ObjectId) → parse_object_id c bcs o.items ≡ returned o
  unfolding parse_object_id
  parse_object_id-items o = rw (o.size, raw o) refl

  collect-items :
      (os : List ObjectId)
      → collect (parse_object_id c bcs) (map (λ (o : ObjectId). o.items) os) ≡ returned os
  unfolding collect
  collect-items [] = refl
  collect-items (o ∷ os) = rw (parse_object_id-items o, collect-items os) refl

  module _ (lib : Primitives) (g : Rng) (rand : g.State → c.Scalar × g.State) (laws : CurveLaws c)
      (aes : (key : Key) (aad msg : List U8)
        → lib.aes_decrypt key iv aad (lib.aes_encrypt key iv aad msg) ≡ ok msg)
      (decoded : (o : EncryptedObject c) (bs : List U8)
        → bcs.object_to_bytes o ≡ some bs
        → bcs.object_from_bytes bs ≡ some o)
      (package_id : ObjectId) (id : List U8) (servers : List (Server c))
      (public_keys : List (List U8)) (user_secret_keys : List (List U8 × List U8))
      (keys : List (ObjectId × c.g1.Elt)) (threshold : ℕ) (text : List U8) (mode : DemType)
      (aad : Option (List U8)) (st : g.State) where
    abbrev pub key_servers : List (List U8)
    key_servers = map (λ (o : ObjectId). o.items) (map (λ (s : Server c). s.0) servers)

    abbrev pub input : EncryptionInput
    input = encryption_input mode text aad

    -- A run of `seal_encrypt`, and two of `seal_decrypt` on what it returned.
    abbrev pub RoundTrips : Type 0
    RoundTrips =
        (object : EncryptedObject c) × (dem_key : Key) × (st' : g.State) × (Core.seal_encrypt c lib
            g rand st package_id id (map (λ (s : Server c). s.0) servers)
            (map (λ (s : Server c). public_key_from_master_key c s.1) servers) threshold input
          ≡ ok (object, dem_key, st'))
        × (((bcs.object_to_bytes object ≡ none)
              × (seal_encrypt c bcs lib g rand st package_id.items id key_servers public_keys
                    threshold text mode aad
                  ≡ raised runtime_error))
            ⊎ ((bytes : List U8) × (seal_encrypt c bcs lib g rand st package_id.items id key_servers
                    public_keys threshold text mode aad
                  ≡ returned (
                    (bytes, (if dem_type_eq mode DemType.plain then some dem_key.items else none)),
                    st',
                  ))
                × (seal_decrypt c bcs lib bytes user_secret_keys none
                    ≡ returned (restored mode text dem_key))
                × (seal_decrypt c bcs lib bytes user_secret_keys (some public_keys)
                    ≡ returned (restored mode text dem_key))))

    module _ (positive : 0 < threshold) (fits : length servers ≤ 255)
        (held : All (IsExtracted c (collect_map keys) (create_full_id package_id id)) servers)
        (enough : threshold
          ≤ length
              (filter (λ i. is_some (collect_map keys i)) (map (λ (s : Server c). s.0) servers)))
        (read_public : collect (parse_g2 c bcs) public_keys
          ≡ returned (map (λ (s : Server c). public_key_from_master_key c s.1) servers))
        (read_keys : collect (parse_user_secret_key c bcs) user_secret_keys ≡ returned keys) where
      few : ltb 255 (length key_servers) ≡ false
      few = below (length key_servers) (omega (arith, fits, size))
        where
          size : length key_servers ≡ length servers
          size =
              length-map (λ (o : ObjectId). o.items) (map (λ (s : Server c). s.0) servers)
              ∙ length-map (λ (s : Server c). s.0) servers

          below : (n : ℕ) → n ≤ 255 → ltb 255 n ≡ false
          below n h = ground arith

      encrypted :
          (object : EncryptedObject c) (dem_key : Key) (st' : g.State) (encoded : Option (List U8))
          → Core.seal_encrypt c lib g rand st package_id id
              (map (λ (s : Server c). s.0) servers)
              (map (λ (s : Server c). public_key_from_master_key c s.1) servers)
              threshold
              input
            ≡ ok (object, dem_key, st')
          → bcs.object_to_bytes object ≡ encoded
          → seal_encrypt c bcs lib g rand st package_id.items id key_servers public_keys threshold
              text mode aad
            ≡ (ok_or runtime_error encoded >>= λ bytes. returned (
              (bytes, (if dem_type_eq mode DemType.plain then some dem_key.items else none)),
              st',
            ))
      unfolding seal_encrypt
      encrypted object dem_key st' encoded e made =
          rw
            (
              few,
              parse_object_id-items package_id,
              collect-items (map (λ (s : Server c). s.0) servers),
              read_public,
              e,
              made,
            )
            refl

      decrypted :
          (object : EncryptedObject c) (bytes : List U8) (out : List U8)
          → bcs.object_to_bytes object ≡ some bytes
          → Core.seal_decrypt c lib object (collect_map keys) none ≡ ok out
          → Core.seal_decrypt c lib object
              (collect_map keys)
              (some (map (λ (s : Server c). public_key_from_master_key c s.1) servers))
            ≡ ok out
          → (seal_decrypt c bcs lib bytes user_secret_keys none ≡ returned out)
            × (seal_decrypt c bcs lib bytes user_secret_keys (some public_keys) ≡ returned out)
      unfolding seal_decrypt
      decrypted object bytes out made without checked = (
        rw (decoded object bytes made, read_keys, without) refl,
        rw (decoded object bytes made, read_keys, read_public, checked) refl,
      )

      -- Round trip through bytes, over groups with the laws of `CurveLaws`. The arguments are the
      -- bytes of an object id, of at most 255 key servers, of their public keys and of user secret
      -- keys, and the threshold is positive and at most the number of servers with a key. Of each
      -- server the user holds no key or the extracted one. Reading an object id and decoding undo
      -- their BCS encoding, and decryption of AES-256-GCM its encryption. Then `seal_encrypt`
      -- raises a RuntimeError where BCS cannot encode the object, and else returns bytes from which
      -- `seal_decrypt` gives back the text, or in plain mode the derived key, without the public
      -- keys and with them.
      pub seal_decrypt-seal_encrypt_bytes : RoundTrips
      seal_decrypt-seal_encrypt_bytes =
          let (object, dem_key, st', e, without, checked) =
            seal_decrypt-seal_encrypt c lib g rand laws aes package_id id threshold servers
              (collect_map keys) st input positive fits held enough in
          (
            object,
            dem_key,
            st',
            e,
            outcome object dem_key st' (bcs.object_to_bytes object) e (without ∙ same dem_key)
                (checked ∙ same dem_key) refl,
          )
        where
          same : (key : Key) → ok (payload lib input key) ≡ ok (restored mode text key)
          same key = ap ok (payload-restored lib mode text aad key)

          outcome :
              (object : EncryptedObject c) (dem_key : Key) (st' : g.State)
              (encoded : Option (List U8))
              → Core.seal_encrypt c lib g rand st package_id id
                  (map (λ (s : Server c). s.0) servers)
                  (map (λ (s : Server c). public_key_from_master_key c s.1) servers)
                  threshold
                  input
                ≡ ok (object, dem_key, st')
              → Core.seal_decrypt c lib object (collect_map keys) none
                ≡ ok (restored mode text dem_key)
              → Core.seal_decrypt c lib object
                  (collect_map keys)
                  (some (map (λ (s : Server c). public_key_from_master_key c s.1) servers))
                ≡ ok (restored mode text dem_key)
              → bcs.object_to_bytes object ≡ encoded
              → ((bcs.object_to_bytes object ≡ none)
                  × (seal_encrypt c bcs lib g rand st package_id.items id key_servers public_keys
                        threshold text mode aad
                      ≡ raised runtime_error))
                ⊎ ((bytes : List U8) × (seal_encrypt c bcs lib g rand st package_id.items id
                        key_servers public_keys threshold text mode aad
                      ≡ returned (
                        (
                          bytes,
                          (if dem_type_eq mode DemType.plain then some dem_key.items else none),
                        ),
                        st',
                      ))
                    × (seal_decrypt c bcs lib bytes user_secret_keys none
                        ≡ returned (restored mode text dem_key))
                    × (seal_decrypt c bcs lib bytes user_secret_keys (some public_keys)
                        ≡ returned (restored mode text dem_key)))
          outcome object dem_key st' none e without checked made =
              inl (made, encrypted object dem_key st' none e made)
          outcome object dem_key st' (some bytes) e without checked made =
              let (plain, with_keys) = decrypted object bytes _ made without checked in
              inr (bytes, encrypted object dem_key st' (some bytes) e made, plain, with_keys)
