-- ===== src/Ibe/Guards.antt =====
-- When the checks of seal/ibe.rs reject.
use pysui_crypto.Common.{◌≡◌, refl, ◌⊎◌, inl, inr, List, ok, err, invalid_input, Bool-cases}
use pysui_crypto.Byte.{U8}
use pysui_crypto.Groups.{Curve, CurveLaws}
use pysui_crypto.Ibe.{hash_to_g1, verify_user_secret_key}

module _ (c : Curve) where
  -- A key passes verification exactly if its pairing with the generator is the pairing of the hashed
  -- identity with the public key; any other key is `InvalidInput`.
  pub verify_user_secret_key_lem :
      CurveLaws c
      → (key : c.g1.Elt) (id : List U8) (public_key : c.g2.Elt)
      → ((c.pairing key c.g2.generator ≡ c.pairing (hash_to_g1 c id) public_key)
          × (verify_user_secret_key c key id public_key ≡ ok tt))
        ⊎ (¬ (c.pairing key c.g2.generator ≡ c.pairing (hash_to_g1 c id) public_key)
            × (verify_user_secret_key c key id public_key ≡ err invalid_input))
  unfolding verify_user_secret_key
  verify_user_secret_key_lem laws key id public_key =
      elim (Bool-cases
        (c.gt.is_eq (c.pairing key c.g2.generator) (c.pairing (hash_to_g1 c id) public_key))) [
          | inl e ↦ inl ((laws.gt_laws.is_eq_iff _ _).0 e, rw e refl)
          | inr e ↦ inr (λ h. cc ((laws.gt_laws.is_eq_iff _ _).1 h, e), rw e refl)
        ]
