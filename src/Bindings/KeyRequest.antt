-- ===== src/Bindings/KeyRequest.antt =====
-- A user secret key requested with an ElGamal key pair: `generate_elgamal_keypair`,
-- `elgamal_decrypt` and `verify_user_secret_key`.
use pysui_crypto.Common.{◌≡◌, refl, sym, ap, ◌∙◌, ◌⊎◌, inl, inr, List, Option, none, some}
use pysui_crypto.Python.{
  runtime_error, returned, raised, ok_or, ok_or-eq-returned, >>=-eq-returned, returned_injective,
}
use pysui_crypto.Byte.{U8}
use pysui_crypto.Utils.{Rng}
use pysui_crypto.Groups.{Curve, CurveLaws}
use pysui_crypto.Ibe.{public_key_from_master_key, extract}
use pysui_crypto.Ibe.Laws.{verify_user_secret_key-extract}
use pysui_crypto.Elgamal
use pysui_crypto.Elgamal.{decrypt-encrypt-genkey}
use pysui_crypto.Bindings.{
  Bcs, parse_g1, parse_g2, generate_elgamal_keypair, elgamal_decrypt, verify_user_secret_key,
}

module _ (c : Curve) (bcs : Bcs c) (g : Rng) (rand : g.State → c.Scalar × g.State) where
  -- The bytes that are returned are of the key pair of `genkey`.
  keypair_bytes :
      (st st' : g.State) (sk pk vk : List U8)
      → generate_elgamal_keypair c bcs g rand st ≡ returned ((sk, pk, vk), st')
      → (bcs.scalar_to_bytes (Elgamal.genkey rand c.g1 c.g2 st).0.0 ≡ some sk)
        × (bcs.g1_to_bytes (Elgamal.genkey rand c.g1 c.g2 st).0.1 ≡ some pk)
  unfolding generate_elgamal_keypair
  keypair_bytes st st' sk pk vk h =
      let keys = (Elgamal.genkey rand c.g1 c.g2 st).0 in
      let (sk', e, h1) = >>=-eq-returned (ok_or runtime_error (bcs.scalar_to_bytes keys.0)) _ _ h in
      let (pk', e', h2) = >>=-eq-returned (ok_or runtime_error (bcs.g1_to_bytes keys.1)) _ _ h1 in
      let (vk', _, h3) = >>=-eq-returned (ok_or runtime_error (bcs.g2_to_bytes keys.2)) _ _ h2 in
      let result = returned_injective h3 in
      (
        ok_or-eq-returned runtime_error _ sk' e
            ∙ ap (λ (r : (List U8 × List U8 × List U8) × g.State). some r.0.0) result,
        ok_or-eq-returned runtime_error _ pk' e'
            ∙ ap (λ (r : (List U8 × List U8 × List U8) × g.State). some r.0.1) result,
      )

  module _ (laws : CurveLaws c)
      (scalar_undo : (s : c.Scalar) (bs : List U8)
        → bcs.scalar_to_bytes s ≡ some bs
        → bcs.scalar_from_bytes bs ≡ some s)
      (g1_undo : (a : c.g1.Elt) (bs : List U8)
        → bcs.g1_to_bytes a ≡ some bs
        → bcs.g1_from_bytes bs ≡ some a)
      (master : c.Scalar) (full_id : List U8) (st st' st2 : g.State) (sk pk vk : List U8)
      (read_pk : c.g1.Elt) (encryption server_key : List U8) where
    -- What the user gets out of the answer of the key server.
    abbrev pub IsAnswered : Type 0
    IsAnswered =
        ((bcs.g1_to_bytes (extract c master full_id) ≡ none)
          × (elgamal_decrypt c bcs g rand sk encryption ≡ raised runtime_error))
        ⊎ ((usk : List U8) × (elgamal_decrypt c bcs g rand sk encryption ≡ returned usk)
            × (bcs.g1_from_bytes usk ≡ some (extract c master full_id))
            × (verify_user_secret_key c bcs usk full_id server_key ≡ returned tt))

    -- A request for a user secret key, over groups with the laws of `CurveLaws`. The user makes a
    -- key pair with `generate_elgamal_keypair`. The key server reads the public key from its bytes
    -- and answers with the ElGamal encryption under it of the key that its master key extracts for
    -- the full id. Decoding undoes the BCS encoding of scalars and of elements of the first group.
    -- Then `elgamal_decrypt` with the secret key raises a RuntimeError where BCS cannot encode the
    -- extracted key, and else returns its bytes, which `verify_user_secret_key` accepts for the
    -- public key of the server.
    pub verify_user_secret_key-elgamal_decrypt :
        generate_elgamal_keypair c bcs g rand st ≡ returned ((sk, pk, vk), st')
        → bcs.g1_from_bytes pk ≡ some read_pk
        → bcs.encryption_from_bytes encryption
          ≡ some (Elgamal.encrypt rand c.g1 st2 (extract c master full_id) read_pk).0
        → bcs.g2_from_bytes server_key ≡ some (public_key_from_master_key c master)
        → IsAnswered
    verify_user_secret_key-elgamal_decrypt made read answered server =
        outcome (bcs.g1_to_bytes usk) refl
      where
        usk : c.g1.Elt
        usk = extract c master full_id

        keys : c.Scalar × c.g1.Elt × c.g2.Elt
        keys = (Elgamal.genkey rand c.g1 c.g2 st).0

        some_eq : {a b : c.g1.Elt} → some a ≡ some b → a ≡ b
        some_eq h = cc

        same_pk : read_pk ≡ keys.1
        same_pk = some_eq (sym read ∙ g1_undo keys.1 pk (keypair_bytes st st' sk pk vk made).1)

        secret : bcs.scalar_from_bytes sk ≡ some keys.0
        secret = scalar_undo keys.0 sk (keypair_bytes st st' sk pk vk made).0

        opened :
            Elgamal.decrypt rand c.g1 keys.0 (Elgamal.encrypt rand c.g1 st2 usk read_pk).0 ≡ usk
        opened =
            ap (λ k. Elgamal.decrypt rand c.g1 keys.0 (Elgamal.encrypt rand c.g1 st2 usk k).0)
              same_pk
            ∙ decrypt-encrypt-genkey rand c.g1 laws.g1_laws c.g2 st st2 usk

        decrypted :
            elgamal_decrypt c bcs g rand sk encryption ≡ ok_or runtime_error (bcs.g1_to_bytes usk)
        decrypted = unfold elgamal_decrypt in rw (secret, answered, opened) refl

        verified :
            (bs : List U8)
            → bcs.g1_from_bytes bs ≡ some usk
            → verify_user_secret_key c bcs bs full_id server_key ≡ returned tt
        verified bs e =
            unfold verify_user_secret_key parse_g1 parse_g2 in
            rw (e, server, verify_user_secret_key-extract c laws master full_id) refl

        outcome : (o : Option (List U8)) → bcs.g1_to_bytes usk ≡ o → IsAnswered
        outcome none e = inl (e, decrypted ∙ ap (ok_or runtime_error) e)
        outcome (some bs) e = inr (
          bs,
          decrypted ∙ ap (ok_or runtime_error) e,
          g1_undo usk bs e,
          verified bs (g1_undo usk bs e),
        )
