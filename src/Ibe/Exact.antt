-- ===== src/Ibe/Exact.antt =====
-- Which keys and encrypted keys the checks of seal/ibe.rs accept.
use pysui_crypto.Common.{
  ◌≡◌, refl, sym, ap, ap₂, ◌∙◌, ◌⊎◌, inl, inr, Bool, true, false, ◌||◌, List, ok, err,
  invalid_input, if◌then◌else◌,
}
use pysui_crypto.Byte.{U8}
use pysui_crypto.Groups.{Curve, CurveLaws}
use pysui_crypto.Elgamal
use pysui_crypto.Ibe.{
  public_key_from_master_key, hash_to_g1, extract, verify_user_secret_key,
  verify_encrypted_signature,
}

-- One of two outcomes by a test.
by_test :
    (b : Bool)
    → ((b ≡ true) × ((if b then ok (tt {0}) else err invalid_input) ≡ ok tt))
      ⊎ ((b ≡ false) × ((if b then ok (tt {0}) else err invalid_input) ≡ err invalid_input))
by_test true = inl (refl, refl)
by_test false = inr (refl, refl)

-- The outcome of the tests of `verify_encrypted_signature`.
by_tests :
    (p q r s t : Bool)
    → (((p ≡ false) × (q ≡ false) × (r ≡ false) × (s ≡ false) × (t ≡ true))
        × ((if p || q || r || s
              then err invalid_input
              else if t
              then ok (tt {0})
              else err invalid_input)
            ≡ ok tt))
      ⊎ (((p ≡ true) ⊎ ((q ≡ true) ⊎ ((r ≡ true) ⊎ ((s ≡ true) ⊎ (t ≡ false)))))
          × ((if p || q || r || s
                then err invalid_input
                else if t
                then ok (tt {0})
                else err invalid_input)
              ≡ err invalid_input))
by_tests true q r s t = inr (inl refl, refl)
by_tests false true r s t = inr (inr (inl refl), refl)
by_tests false false true s t = inr (inr (inr (inl refl)), refl)
by_tests false false false true t = inr (inr (inr (inr (inl refl))), refl)
by_tests false false false false true = inl ((refl, refl, refl, refl, refl), refl)
by_tests false false false false false = inr (inr (inr (inr (inr refl))), refl)

-- None of the four elements that `verify_encrypted_signature` checks is the identity.
abbrev pub HasNoIdentity : (c : Curve) → c.Scalar → c.Scalar → c.g1.Elt × c.g1.Elt → Type 0
HasNoIdentity c sk mk sig =
    ¬ (sig.0 ≡ c.g1.zero)
    × ¬ (sig.1 ≡ c.g1.zero)
    × ¬ (c.g2.mul c.g2.generator sk ≡ c.g2.zero)
    × ¬ (public_key_from_master_key c mk ≡ c.g2.zero)

module _ (c : Curve) (laws : CurveLaws c)
    (injective : (a b : c.g1.Elt)
      → c.pairing a c.g2.generator ≡ c.pairing b c.g2.generator
      → a ≡ b) where
  extract_balance :
      (mk : c.Scalar) (id : List U8)
      → c.pairing (extract c mk id) c.g2.generator
        ≡ c.pairing (hash_to_g1 c id) (public_key_from_master_key c mk)
  unfolding extract public_key_from_master_key
  extract_balance mk id =
      laws.pairing-mul_left (hash_to_g1 c id) mk c.g2.generator
      ∙ sym (laws.pairing-mul_right (hash_to_g1 c id) c.g2.generator mk)

  -- Over groups with the laws of `CurveLaws`, where the pairing with the generator of G2 is
  -- injective: against the public key of a master key, `verify_user_secret_key` accepts the key
  -- that the master key extracts for the identity, and refuses every other key as invalid input.
  pub verify_user_secret_key-extract_only :
      (mk : c.Scalar) (id : List U8) (key : c.g1.Elt)
      → ((key ≡ extract c mk id)
          × (verify_user_secret_key c key id (public_key_from_master_key c mk) ≡ ok tt))
        ⊎ (¬ (key ≡ extract c mk id)
            × (verify_user_secret_key c key id (public_key_from_master_key c mk)
                ≡ err invalid_input))
  unfolding verify_user_secret_key
  verify_user_secret_key-extract_only mk id key =
      elim (by_test (
        c.gt.is_eq (c.pairing key c.g2.generator)
          (c.pairing (hash_to_g1 c id) (public_key_from_master_key c mk)))) [
            | inl (e, accepted) ↦ inl (
              injective key (extract c mk id)
                  ((laws.gt_laws.is_eq_iff _ _).0 e ∙ sym (extract_balance mk id)),
              accepted,
            )
            | inr (e, refused) ↦ inr (
              (λ h. cc (
                (laws.gt_laws.is_eq_iff _ _).1
                    (ap (λ k. c.pairing k c.g2.generator) h ∙ extract_balance mk id),
                e,
              )),
              refused,
            )
          ]

  -- The encrypted key balances exactly where it decrypts to the extracted key.
  module _ {R : Type 0} (rand : R → c.Scalar × R) (sk mk : c.Scalar) (id : List U8)
      (sig : c.g1.Elt × c.g1.Elt) where
    right_side :
        c.gt.add
          (c.pairing sig.0 (c.g2.mul c.g2.generator sk))
          (c.pairing (hash_to_g1 c id) (public_key_from_master_key c mk))
        ≡ c.pairing (c.g1.add (c.g1.mul sig.0 sk) (extract c mk id)) c.g2.generator
    right_side =
        ap₂ c.gt.add
          (laws.pairing-mul_right sig.0 c.g2.generator sk
            ∙ sym (laws.pairing-mul_left sig.0 sk c.g2.generator))
          (sym (extract_balance mk id))
        ∙ sym (laws.pairing-add (c.g1.mul sig.0 sk) (extract c mk id) c.g2.generator)

    decrypts :
        sig.1 ≡ c.g1.add (c.g1.mul sig.0 sk) (extract c mk id)
        → Elgamal.decrypt rand c.g1 sk sig ≡ extract c mk id
    unfolding Elgamal.decrypt
    decrypts e =
        ap (λ a. c.g1.sub a (c.g1.mul sig.0 sk)) e
        ∙ laws.g1_laws.sub-add (c.g1.mul sig.0 sk) (extract c mk id)

    balances :
        Elgamal.decrypt rand c.g1 sk sig ≡ extract c mk id
        → sig.1 ≡ c.g1.add (c.g1.mul sig.0 sk) (extract c mk id)
    unfolding Elgamal.decrypt
    balances e =
        sym (laws.g1_laws.add-sub (c.g1.mul sig.0 sk) sig.1) ∙ ap (c.g1.add (c.g1.mul sig.0 sk)) e

    -- The equation between pairings that is tested.
    abbrev balanced : Bool
    balanced = c.gt.is_eq (c.pairing sig.1 c.g2.generator) (
        c.gt.add (c.pairing sig.0 (c.g2.mul c.g2.generator sk))
          (c.pairing (hash_to_g1 c id) (public_key_from_master_key c mk)))

    -- Over groups with the laws of `CurveLaws`, where the pairing with the generator of G2 is
    -- injective: against the verification key of the secret key sk and the public key of a master
    -- key, `verify_encrypted_signature` accepts an encrypted key exactly where none of the elements
    -- it checks is the identity and ElGamal decryption with sk gives the key that the master key
    -- extracts for the identity. It refuses everything else as invalid input.
    pub verify_encrypted_signature-decrypt :
        ((HasNoIdentity c sk mk sig × (Elgamal.decrypt rand c.g1 sk sig ≡ extract c mk id))
          × (verify_encrypted_signature c sig
                (c.g2.mul c.g2.generator sk)
                (public_key_from_master_key c mk)
                id
              ≡ ok tt))
        ⊎ (¬ (HasNoIdentity c sk mk sig × (Elgamal.decrypt rand c.g1 sk sig ≡ extract c mk id))
            × (verify_encrypted_signature c sig
                  (c.g2.mul c.g2.generator sk)
                  (public_key_from_master_key c mk)
                  id
                ≡ err invalid_input))
    unfolding verify_encrypted_signature
    verify_encrypted_signature-decrypt =
        elim (by_tests (c.g1.is_eq sig.0 c.g1.zero) (c.g1.is_eq sig.1 c.g1.zero)
          (c.g2.is_eq (c.g2.mul c.g2.generator sk) c.g2.zero)
          (c.g2.is_eq (public_key_from_master_key c mk) c.g2.zero) balanced) [
            | inl ((p, q, r, s, t), accepted) ↦ inl (
              (
                (differ1 sig.0 p, differ1 sig.1 q, differ2 _ r, differ2 _ s),
                decrypts (injective _ _ ((laws.gt_laws.is_eq_iff _ _).0 t ∙ right_side)),
              ),
              accepted,
            )
            | inr (failed, refused) ↦ inr ((λ h. rejected failed h.0 h.1), refused)
          ]
      where
        differ1 : (a : c.g1.Elt) → c.g1.is_eq a c.g1.zero ≡ false → ¬ (a ≡ c.g1.zero)
        differ1 a e h = cc ((laws.g1_laws.is_eq_iff _ _).1 h, e)

        differ2 : (a : c.g2.Elt) → c.g2.is_eq a c.g2.zero ≡ false → ¬ (a ≡ c.g2.zero)
        differ2 a e h = cc ((laws.g2_laws.is_eq_iff _ _).1 h, e)

        rejected :
            (c.g1.is_eq sig.0 c.g1.zero ≡ true)
              ⊎ ((c.g1.is_eq sig.1 c.g1.zero ≡ true)
                  ⊎ ((c.g2.is_eq (c.g2.mul c.g2.generator sk) c.g2.zero ≡ true)
                      ⊎ ((c.g2.is_eq (public_key_from_master_key c mk) c.g2.zero ≡ true)
                          ⊎ (balanced ≡ false))))
            → HasNoIdentity c sk mk sig
            → Elgamal.decrypt rand c.g1 sk sig ≡ extract c mk id
            → ⊥
        rejected (inl e) h d = h.0 ((laws.g1_laws.is_eq_iff _ _).0 e)
        rejected (inr (inl e)) h d = h.1 ((laws.g1_laws.is_eq_iff _ _).0 e)
        rejected (inr (inr (inl e))) h d = h.2 ((laws.g2_laws.is_eq_iff _ _).0 e)
        rejected (inr (inr (inr (inl e)))) h d = h.3 ((laws.g2_laws.is_eq_iff _ _).0 e)
        rejected (inr (inr (inr (inr e)))) h d = cc (
          (laws.gt_laws.is_eq_iff _ _).1
              (ap (λ a. c.pairing a c.g2.generator) (balances d) ∙ sym right_side),
          e,
        )
