-- ===== src/Bindings/Verified.antt =====
-- Keys that `verify_user_secret_key` of the bindings accepted decrypt.
use pysui_crypto.Common.{
  ℕ, ◌≤◌, ◌<◌, ◌≡◌, refl, sym, ap, ◌∙◌, ◌⊎◌, inl, inr, List, map, length, filter, Option, none,
  some, All, All-implies, ok, err, invalid_input,
}
use pysui_crypto.Python.{value_error, returned, collect, map_err, map_err-eq-returned}
use pysui_crypto.Byte.{U8}
use pysui_crypto.Utils.{Rng}
use pysui_crypto.Dem.{Key, Primitives, iv}
use pysui_crypto.Groups.{Curve, CurveLaws}
use pysui_crypto.Ibe.{ObjectId, public_key_from_master_key, extract}
use pysui_crypto.Ibe
use pysui_crypto.Ibe.Exact.{verify_user_secret_key-extract_only}
use pysui_crypto.Core.{EncryptedObject, create_full_id, is_some}
use pysui_crypto.Core.Sealed.{Server, IsExtracted}
use pysui_crypto.Bindings.{
  DemType, collect_map, Bcs, parse_g1, parse_g2, parse_user_secret_key, verify_user_secret_key,
}
use pysui_crypto.Bindings.RoundTrip.{RoundTrips, seal_decrypt-seal_encrypt_bytes}

module _ (c : Curve) (bcs : Bcs c) where
  -- The user holds no key of the server, or one whose bytes `verify_user_secret_key` accepted for
  -- the full id and the bytes of the public key of the server.
  abbrev pub IsVerified : (ObjectId → Option c.g1.Elt) → List U8 → Server c → Type 0
  IsVerified keys full_id s =
      (keys s.0 ≡ none)
      ⊎ ((usk : c.g1.Elt) × (usk_bytes pk_bytes : List U8) × (keys s.0 ≡ some usk)
          × (bcs.g1_from_bytes usk_bytes ≡ some usk)
          × (bcs.g2_from_bytes pk_bytes ≡ some (public_key_from_master_key c s.1))
          × (verify_user_secret_key c bcs usk_bytes full_id pk_bytes ≡ returned tt))

  -- What is accepted in bytes is accepted.
  accepted :
      (usk : c.g1.Elt) (usk_bytes pk_bytes full_id : List U8) (pk : c.g2.Elt)
      → bcs.g1_from_bytes usk_bytes ≡ some usk
      → bcs.g2_from_bytes pk_bytes ≡ some pk
      → verify_user_secret_key c bcs usk_bytes full_id pk_bytes ≡ returned tt
      → Ibe.verify_user_secret_key c usk full_id pk ≡ ok tt
  accepted usk usk_bytes pk_bytes full_id pk read read_pk h =
      map_err-eq-returned value_error (Ibe.verify_user_secret_key c usk full_id pk) tt
        (sym opened ∙ h)
    where
      opened :
          verify_user_secret_key c bcs usk_bytes full_id pk_bytes
          ≡ map_err value_error (Ibe.verify_user_secret_key c usk full_id pk)
      opened = unfold verify_user_secret_key parse_g1 parse_g2 in rw (read, read_pk) refl

  module _ (laws : CurveLaws c)
      (injective : (a b : c.g1.Elt)
        → c.pairing a c.g2.generator ≡ c.pairing b c.g2.generator
        → a ≡ b) where
    IsVerified-IsExtracted :
        (keys : ObjectId → Option c.g1.Elt) (full_id : List U8) (s : Server c)
        → IsVerified keys full_id s
        → IsExtracted c keys full_id s
    IsVerified-IsExtracted keys full_id s (inl e) = inl e
    IsVerified-IsExtracted keys full_id s (inr (usk, usk_bytes, pk_bytes, e, read, read_pk, h)) =
        elim (verify_user_secret_key-extract_only c laws injective s.1 full_id usk) [
          | inl (same, _) ↦ inr (e ∙ ap some same)
          | inr (_, refused) ↦
              absurd
                (clash (sym refused ∙ accepted usk usk_bytes pk_bytes full_id _ read read_pk h))
        ]
      where
        clash : ¬ (err invalid_input ≡ ok (tt {0}))
        clash e = cc

    module _ (raw : (o : ObjectId) → bcs.object_id_from_bytes o.items ≡ some o) (lib : Primitives)
        (g : Rng) (rand : g.State → c.Scalar × g.State)
        (aes : (key : Key) (aad msg : List U8)
          → lib.aes_decrypt key iv aad (lib.aes_encrypt key iv aad msg) ≡ ok msg)
        (decoded : (o : EncryptedObject c) (bs : List U8)
          → bcs.object_to_bytes o ≡ some bs
          → bcs.object_from_bytes bs ≡ some o)
        (package_id : ObjectId) (id : List U8) (servers : List (Server c))
        (public_keys : List (List U8)) (user_secret_keys : List (List U8 × List U8))
        (keys : List (ObjectId × c.g1.Elt)) (threshold : ℕ) (text : List U8) (mode : DemType)
        (aad : Option (List U8)) (st : g.State) (positive : 0 < threshold)
        (fits : length servers ≤ 255)
        (verified : All (IsVerified (collect_map keys) (create_full_id package_id id)) servers)
        (enough : threshold
          ≤ length
              (filter (λ i. is_some (collect_map keys i)) (map (λ (s : Server c). s.0) servers)))
        (read_public : collect (parse_g2 c bcs) public_keys
          ≡ returned (map (λ (s : Server c). public_key_from_master_key c s.1) servers))
        (read_keys : collect (parse_user_secret_key c bcs) user_secret_keys ≡ returned keys) where
      -- Checked keys decrypt, over groups with the laws of `CurveLaws` where the pairing with the
      -- generator of G2 is injective. The arguments are the bytes of an object id, of at most 255
      -- key servers, of their public keys and of user secret keys, and the threshold is positive
      -- and at most the number of servers with a key. Each key that the user holds of a server
      -- passed `verify_user_secret_key` for the full id and the public key of the server. Reading
      -- an object id and decoding undo their BCS encoding, and decryption of AES-256-GCM its
      -- encryption. Then `seal_encrypt` raises a RuntimeError where BCS cannot encode the object,
      -- and else returns bytes from which `seal_decrypt` gives back the text, or in plain mode the
      -- derived key, without the public keys and with them.
      pub seal_decrypt-verify_user_secret_key :
          RoundTrips c bcs raw lib g rand laws aes decoded package_id id servers public_keys
            user_secret_keys keys threshold text mode aad st
      seal_decrypt-verify_user_secret_key =
          seal_decrypt-seal_encrypt_bytes c bcs raw lib g rand laws aes decoded package_id id
            servers public_keys user_secret_keys keys threshold text mode aad st positive fits
            (All-implies _ _ servers
              (IsVerified-IsExtracted (collect_map keys) (create_full_id package_id id)) verified)
            enough read_public read_keys
