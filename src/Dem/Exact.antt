-- ===== src/Dem/Exact.antt =====
-- What HMAC-CTR decrypts.
use pysui_crypto.Common.{
  ◌≡◌, sym, ap, ap₂, ◌∙◌, ◌↔◌, ◌⊎◌, inl, inr, List, ok, ok_injective, err, general_error, Array,
}
use pysui_crypto.Byte.{U8}
use pysui_crypto.Dem.{Key, Primitives, encrypt_in_ctr_mode, compute_mac, hmac_encrypt, hmac_decrypt}
use pysui_crypto.Dem.Ctr.{encrypt_in_ctr_mode_undo}
use pysui_crypto.Dem.RoundTrip.{hmac_decrypt_lem, hmac_decrypt-encrypt}

module _ (lib : Primitives) (ciphertext : List U8) (tag : Array U8 32) (aad : List U8)
    (key : Key) where
  -- A tag that is the MAC makes the ciphertext one that was encrypted.
  encrypted :
      tag ≡ compute_mac lib key aad ciphertext
      → hmac_encrypt lib (encrypt_in_ctr_mode lib key ciphertext) aad key ≡ (ciphertext, tag)
  unfolding hmac_encrypt
  encrypted same =
      let back = (encrypt_in_ctr_mode_undo lib key ciphertext).1 in
      ap₂ (λ (c : List U8) (t : Array U8 32). (c, t)) back
        (ap (compute_mac lib key aad) back ∙ sym same)

  -- What was encrypted decrypts.
  decrypted :
      (text : List U8)
      → hmac_encrypt lib text aad key ≡ (ciphertext, tag)
      → hmac_decrypt lib ciphertext tag aad key ≡ ok text
  decrypted text e =
      sym (ap (λ (p : List U8 × Array U8 32). hmac_decrypt lib p.0 p.1 aad key) e)
      ∙ hmac_decrypt-encrypt lib text aad key

  -- `Hmac256Ctr::decrypt` is the inverse of `Hmac256Ctr::encrypt` and accepts nothing else. Under
  -- one key and associated data it returns a text exactly if encryption of this text gives the
  -- ciphertext and the tag, and for every ciphertext and tag it returns a text or fails with
  -- "Invalid MAC".
  pub hmac_decrypt-encrypt_only :
      ((text : List U8)
        → (hmac_decrypt lib ciphertext tag aad key ≡ ok text)
          ↔ (hmac_encrypt lib text aad key ≡ (ciphertext, tag)))
      × (((text : List U8) × (hmac_decrypt lib ciphertext tag aad key ≡ ok text))
          ⊎ (hmac_decrypt lib ciphertext tag aad key ≡ err (general_error "Invalid MAC")))
  hmac_decrypt-encrypt_only = elim (hmac_decrypt_lem lib ciphertext tag aad key) [
    | inl (same, e) ↦ (
      (λ text. (
        (λ h. ap (λ t. hmac_encrypt lib t aad key) (ok_injective (sym h ∙ e)) ∙ encrypted same),
        decrypted text,
      )),
      inl (_, e),
    )
    | inr (_, e) ↦ ((λ text. ((λ h. cc), decrypted text)), inr e)
  ]
