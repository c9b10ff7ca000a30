-- ===== src/Ibe/Laws.antt =====
-- What the operations of seal/ibe.rs promise each other.
use pysui_crypto.Common.{
  ℕ, ◌+◌, ◌≡◌, refl, sym, ap, ap₂, ◌∙◌, ◌↔◌, true, false, List, map, length, length-map, ok, ◌>>=◌,
  map_ok, index, index-map, traverse-range_from, ◌==◌, Bool-cases, arith, inl, inr,
}
use pysui_crypto.Byte.{U8}
use pysui_crypto.Utils.{xor}
use pysui_crypto.Utils.Laws.{xor_array, xor-ok, xor_array_undo, xor_array_comm}
use pysui_crypto.Groups.{Curve, CurveLaws}
use pysui_crypto.Elgamal
use pysui_crypto.Ibe.{
  Info, Block, public_key_from_master_key, hash_to_g1, extract, verify_user_secret_key,
  verify_encrypted_signature, kdf, encrypt_batched_deterministic, decrypt, verify_nonce,
  decrypt_deterministic, encrypt_randomness, decrypt_randomness,
}

module _ (c : Curve) where
  -- What one recipient of a batch gets: the plaintext, the master key of the server and its info.
  abbrev pub Recipient : Type 0
  Recipient = Block × c.Scalar × Info

  -- The pad of a recipient.
  abbrev pub pad : c.Scalar → List U8 → Recipient → Block
  pad r id t =
      kdf c (c.pairing (c.g1.mul (hash_to_g1 c id) r) (public_key_from_master_key c t.1))
        (c.g2.mul c.g2.generator r) (hash_to_g1 c id) t.2

  abbrev pub sealed : c.Scalar → List U8 → Recipient → Block
  sealed r id t = xor_array 32 (pad r id t) t.0

  same : (n m : ℕ) → n ≡ m → (n == m) ≡ true
  same n m e = ground arith

  zero_plus : (i : ℕ) → 0 + i ≡ i
  zero_plus i = omega arith

  -- A batch encryption to key pairs succeeds, with one ciphertext for each recipient.
  pub encrypt_batched_deterministic-ok :
      (r : c.Scalar) (id : List U8) (ts : List Recipient)
      → encrypt_batched_deterministic c r
          (map (λ t. t.0) ts)
          (map (λ t. public_key_from_master_key c t.1) ts)
          id
          (map (λ t. t.2) ts)
        ≡ ok (c.g2.mul c.g2.generator r, map (sealed r id) ts)
  unfolding encrypt_batched_deterministic
  encrypt_batched_deterministic-ok r id ts =
      rw
        (
          length-map {A = Recipient} (λ t. t.0) ts,
          length-map {A = Recipient} (λ t. public_key_from_master_key c t.1) ts,
          length-map {A = Recipient} (λ t. t.2) ts,
          same (length ts) (length ts) refl,
        )
        (ap (map_ok (λ cs. (c.g2.mul c.g2.generator r, cs))) (
          traverse-range_from _ (sealed r id) 0 ts (λ i t e.
            rw
              (
                zero_plus i,
                index-map {A = Recipient} (λ t. public_key_from_master_key c t.1) ts i e,
                index-map {A = Recipient} (λ t. t.2) ts i e,
                index-map {A = Recipient} (λ t. t.0) ts i e,
              )
              (xor-ok 32 (pad r id t) t.0))))

  -- The pad as the holder of an extracted key computes it.
  module _ (laws : CurveLaws c) where
    extract_pairing :
        (r mk : c.Scalar) (id : List U8)
        → c.pairing (extract c mk id) (c.g2.mul c.g2.generator r)
          ≡ c.pairing (c.g1.mul (hash_to_g1 c id) r) (public_key_from_master_key c mk)
    unfolding extract public_key_from_master_key
    extract_pairing r mk id =
        rw
          (
            laws.pairing-mul_left (hash_to_g1 c id) mk (c.g2.mul c.g2.generator r),
            laws.pairing-mul_right (hash_to_g1 c id) c.g2.generator r,
            laws.pairing-mul_left (hash_to_g1 c id) r (c.g2.mul c.g2.generator mk),
            laws.pairing-mul_right (hash_to_g1 c id) c.g2.generator mk,
          )
          (laws.gt_laws.mul_swap (c.pairing (hash_to_g1 c id) c.g2.generator) r mk)

    pad_undo :
        (r : c.Scalar) (id : List U8) (t : Recipient) → xor 32 (sealed r id t) (pad r id t) ≡ ok t.0
    pad_undo r id t =
        xor-ok 32 _ _
        ∙ ap ok (
            ap (λ b. xor_array 32 b (pad r id t)) (xor_array_comm 32 (pad r id t) t.0)
            ∙ xor_array_undo 32 t.0 (pad r id t))

    pub decrypt-sealed :
        (r : c.Scalar) (id : List U8) (t : Recipient)
        → decrypt c (c.g2.mul c.g2.generator r) (sealed r id t) (extract c t.1 id) id t.2 ≡ ok t.0
    unfolding decrypt
    decrypt-sealed r id t = rw (extract_pairing r t.1 id) (pad_undo r id t)

    pub decrypt_deterministic-sealed :
        (r : c.Scalar) (id : List U8) (t : Recipient)
        → decrypt_deterministic c r (sealed r id t) (public_key_from_master_key c t.1) id t.2
          ≡ ok t.0
    unfolding decrypt_deterministic
    decrypt_deterministic-sealed r id t = pad_undo r id t

    -- Batch encryption to the public keys of key pairs succeeds, and for each recipient t at
    -- position i of the batch the ciphertext at i decrypts to the plaintext of t: with the key that
    -- the master key of t extracts for the identity, and with the randomness and the public key.
    pub decrypt-encrypt_batched_deterministic :
        (r : c.Scalar) (id : List U8) (ts : List Recipient) (i : ℕ) (t : Recipient)
        → index ts i ≡ ok t
        → ((encrypt_batched_deterministic c r
                (map (λ t. t.0) ts)
                (map (λ t. public_key_from_master_key c t.1) ts)
                id
                (map (λ t. t.2) ts)
              >>= λ s. index s.1 i >>= λ b. decrypt c s.0 b (extract c t.1 id) id t.2)
            ≡ ok t.0)
          × ((encrypt_batched_deterministic c r
                  (map (λ t. t.0) ts)
                  (map (λ t. public_key_from_master_key c t.1) ts)
                  id
                  (map (λ t. t.2) ts)
                >>= λ s. index s.1 i >>= λ b.
                    decrypt_deterministic c r b (public_key_from_master_key c t.1) id t.2)
              ≡ ok t.0)
    decrypt-encrypt_batched_deterministic r id ts i t e = (
      rw (encrypt_batched_deterministic-ok r id ts, index-map (sealed r id) ts i e)
          (decrypt-sealed r id t),
      rw (encrypt_batched_deterministic-ok r id ts, index-map (sealed r id) ts i e)
          (decrypt_deterministic-sealed r id t),
    )

    -- The key extracted for an identity passes verification against the public key.
    pub verify_user_secret_key-extract :
        (mk : c.Scalar) (id : List U8)
        → verify_user_secret_key c (extract c mk id) id (public_key_from_master_key c mk) ≡ ok tt
    unfolding verify_user_secret_key extract public_key_from_master_key
    verify_user_secret_key-extract mk id =
        rw
          ((laws.gt_laws.is_eq_iff _ _).1 (
            laws.pairing-mul_left (hash_to_g1 c id) mk c.g2.generator
            ∙ sym (laws.pairing-mul_right (hash_to_g1 c id) c.g2.generator mk)))
          refl

    -- The randomness of an encryption comes back from its encrypted form.
    pub decrypt_randomness-encrypt_randomness :
        (r : c.Scalar) (key : Block)
        → (encrypt_randomness c r key >>= λ b. decrypt_randomness c b key) ≡ ok r
    unfolding encrypt_randomness decrypt_randomness
    decrypt_randomness-encrypt_randomness r key =
        rw (xor-ok 32 key (c.scalar_bytes r), xor-ok 32 key (xor_array 32 key (c.scalar_bytes r)))
          (ap c.scalar_of_bytes (
              xor_array_comm 32 key (xor_array 32 key (c.scalar_bytes r))
              ∙ ap (λ b. xor_array 32 b key) (xor_array_comm 32 key (c.scalar_bytes r))
              ∙ xor_array_undo 32 (c.scalar_bytes r) key)
            ∙ laws.scalar_round_trip r)

    -- `verify_nonce` accepts exactly the nonce of the randomness.
    pub verify_nonce_lem :
        (r : c.Scalar) (nonce : c.g2.Elt)
        → (verify_nonce c r nonce ≡ ok tt) ↔ (c.g2.mul c.g2.generator r ≡ nonce)
    unfolding verify_nonce
    verify_nonce_lem r nonce = elim (Bool-cases (c.g2.is_eq (c.g2.mul c.g2.generator r) nonce)) [
      | inl e ↦ (λ h. (laws.g2_laws.is_eq_iff _ _).0 e, λ h. rw e refl)
      | inr e ↦ (λ h. absurd (refused e h), λ h. cc ((laws.g2_laws.is_eq_iff _ _).1 h, e))
    ]
      where
        refused :
            c.g2.is_eq (c.g2.mul c.g2.generator r) nonce ≡ false
            → ¬ (verify_nonce c r nonce ≡ ok tt)
        refused e = rw e (λ h. cc)

    signature_pairing :
        (sk r mk : c.Scalar) (h : c.g1.Elt)
        → c.pairing
            (c.g1.add (c.g1.mul (c.g1.mul c.g1.generator sk) r) (c.g1.mul h mk))
            c.g2.generator
          ≡ c.gt.add
              (c.pairing (c.g1.mul c.g1.generator r) (c.g2.mul c.g2.generator sk))
              (c.pairing h (c.g2.mul c.g2.generator mk))
    signature_pairing sk r mk h =
        laws.pairing-add _ _ _
        ∙ ap₂ c.gt.add
            (laws.pairing-mul_left _ r _
              ∙ ap (λ e. c.gt.mul e r)
                  (laws.pairing-mul_left c.g1.generator sk c.g2.generator
                    ∙ sym (laws.pairing-mul_right c.g1.generator c.g2.generator sk))
              ∙ sym (laws.pairing-mul_left c.g1.generator r (c.g2.mul c.g2.generator sk)))
            (laws.pairing-mul_left h mk c.g2.generator
              ∙ sym (laws.pairing-mul_right h c.g2.generator mk))

    -- The ElGamal encryption of an extracted key, under a key pair with its verification key, passes
    -- verification, where the elements that are compared with the identity are not the identity.
    pub verify_encrypted_signature-encrypt :
        {R : Type 0} (rand : R → c.Scalar × R) (st st' : R) (mk : c.Scalar) (id : List U8)
        (keys : c.Scalar × c.g1.Elt × c.g2.Elt) (sig : c.g1.Elt × c.g1.Elt)
        → keys ≡ (Elgamal.genkey rand c.g1 c.g2 st).0
        → sig ≡ (Elgamal.encrypt rand c.g1 st' (extract c mk id) keys.1).0
        → c.g1.is_eq sig.0 c.g1.zero ≡ false
        → c.g1.is_eq sig.1 c.g1.zero ≡ false
        → c.g2.is_eq keys.2 c.g2.zero ≡ false
        → c.g2.is_eq (public_key_from_master_key c mk) c.g2.zero ≡ false
        → verify_encrypted_signature c sig keys.2 (public_key_from_master_key c mk) id ≡ ok tt
    unfolding verify_encrypted_signature extract public_key_from_master_key Elgamal.genkey
        Elgamal.encrypt
    verify_encrypted_signature-encrypt rand st st' mk id keys sig made signed h0 h1 h2 h3 =
        rw (h0, h1, h2, h3, (laws.gt_laws.is_eq_iff _ _).1 balance) refl
      where
        balance :
            c.pairing sig.1 c.g2.generator
            ≡ c.gt.add
                (c.pairing sig.0 keys.2)
                (c.pairing (hash_to_g1 c id) (public_key_from_master_key c mk))
        balance =
            rw (signed, made) (signature_pairing (rand st).0 (rand st').0 mk (hash_to_g1 c id))
