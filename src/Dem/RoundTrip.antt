-- ===== src/Dem/RoundTrip.antt =====
-- Encryption and decryption of the payload in its three modes.
use pysui_crypto.Common.{
  ◌≡◌, refl, ap, ap₂, ◌⊎◌, inl, inr, Bool, true, false, ◌&&◌, List, [], ◌∷◌, ok, err, general_error,
  Bool-cases, Array, Array_ext, arith,
}
use pysui_crypto.Byte.{U8}
use pysui_crypto.Byte.Numbers.{eq_iff, eq_self}
use pysui_crypto.Dem.{
  Key, Primitives, bytes_eq, EncryptionInput, aad_or_empty, iv, encrypt_in_ctr_mode, compute_mac,
  hmac_encrypt, hmac_decrypt, aes_gcm_encrypt, aes_gcm_decrypt, encrypt, decrypt,
}
use pysui_crypto.Dem.Ctr.{encrypt_in_ctr_mode_undo}

pub bytes_eq_self : (xs : List U8) → bytes_eq xs xs ≡ true
unfolding bytes_eq
bytes_eq_self [] = refl
bytes_eq_self (x ∷ xs) = rw (eq_self x) (bytes_eq_self xs)

and_true : (a b : Bool) → (a && b) ≡ true → (a ≡ true) × (b ≡ true)
and_true a b h = ground arith

pub bytes_eq_sound : (xs ys : List U8) → bytes_eq xs ys ≡ true → xs ≡ ys
unfolding bytes_eq
bytes_eq_sound [] [] h = refl
bytes_eq_sound [] (y ∷ ys) h = cc
bytes_eq_sound (x ∷ xs) [] h = cc
bytes_eq_sound (x ∷ xs) (y ∷ ys) h =
    let (p, q) = and_true _ _ h in ap₂ ◌∷◌ ((eq_iff x y).0 p) (bytes_eq_sound xs ys q)

-- Two texts that are equal, or that differ and have the same hash.
pub equal_or_not : (xs ys : List U8) → (xs ≡ ys) ⊎ (¬ (xs ≡ ys))
equal_or_not xs ys = elim (Bool-cases (bytes_eq xs ys)) [
  | inl e ↦ inl (bytes_eq_sound xs ys e)
  | inr e ↦ inr (λ h. cc (ap (bytes_eq xs) h, bytes_eq_self xs, e))
]

module _ (lib : Primitives) where
  -- `Hmac256Ctr::decrypt` returns a text exactly if the tag is the MAC of the associated data and
  -- the ciphertext under the key, and then it is the ciphertext run through counter mode; else the
  -- error is "Invalid MAC".
  pub hmac_decrypt_lem :
      (ciphertext : List U8) (tag : Array U8 32) (aad : List U8) (key : Key)
      → ((tag ≡ compute_mac lib key aad ciphertext)
          × (hmac_decrypt lib ciphertext tag aad key ≡ ok (encrypt_in_ctr_mode lib key ciphertext)))
        ⊎ (¬ (tag ≡ compute_mac lib key aad ciphertext)
            × (hmac_decrypt lib ciphertext tag aad key ≡ err (general_error "Invalid MAC")))
  unfolding hmac_decrypt
  hmac_decrypt_lem ciphertext tag aad key =
      elim (Bool-cases (bytes_eq tag.items (compute_mac lib key aad ciphertext).items)) [
        | inl same ↦ inl (Array_ext _ _ (bytes_eq_sound _ _ same), rw same)
        | inr other ↦ inr (differs other, rw other)
      ]
    where
      differs :
          bytes_eq tag.items (compute_mac lib key aad ciphertext).items ≡ false
          → ¬ (tag ≡ compute_mac lib key aad ciphertext)
      differs h e = cc (
        h,
        ap (λ (t : Array U8 32). bytes_eq t.items (compute_mac lib key aad ciphertext).items) e,
        bytes_eq_self (compute_mac lib key aad ciphertext).items,
      )

  -- What was encrypted with HMAC-CTR decrypts, under the same key and associated data.
  pub hmac_decrypt-encrypt :
      (msg aad : List U8) (key : Key)
      → hmac_decrypt lib (hmac_encrypt lib msg aad key).0 (hmac_encrypt lib msg aad key).1 aad key
        ≡ ok msg
  unfolding hmac_decrypt hmac_encrypt
  hmac_decrypt-encrypt msg aad key =
      rw (bytes_eq_self (compute_mac lib key aad (encrypt_in_ctr_mode lib key msg)).items)
        (ap ok (encrypt_in_ctr_mode_undo lib key msg).1)

  -- What a payload decrypts to: its text, and in plain mode the key.
  abbrev pub payload : EncryptionInput → Key → List U8
  payload (EncryptionInput.aes256_gcm text aad) key = text
  payload (EncryptionInput.hmac256_ctr text aad) key = text
  payload EncryptionInput.plain key = key.items

  -- Where decryption of AES-256-GCM undoes its encryption, decryption of a payload undoes its
  -- encryption under the same key in the two modes with a text, and in plain mode it gives the key.
  pub decrypt-encrypt :
      ((key : Key) (aad msg : List U8)
        → lib.aes_decrypt key iv aad (lib.aes_encrypt key iv aad msg) ≡ ok msg)
      → (input : EncryptionInput) (key : Key)
      → decrypt lib (encrypt lib input key) key ≡ ok (payload input key)
  unfolding decrypt encrypt
  decrypt-encrypt aes (EncryptionInput.aes256_gcm text aad) key =
      unfold aes_gcm_encrypt aes_gcm_decrypt in aes key (aad_or_empty aad) text
  decrypt-encrypt aes (EncryptionInput.hmac256_ctr text aad) key =
      hmac_decrypt-encrypt text (aad_or_empty aad) key
  decrypt-encrypt aes EncryptionInput.plain key = refl
