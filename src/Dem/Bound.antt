-- ===== src/Dem/Bound.antt =====
-- What the MAC of a payload is bound to.
use pysui_crypto.Common.{
  ℕ, ◌^◌, ◌<◌, ◌≡◌, refl, sym, ◌∙◌, ◌⊎◌, inl, inr, ok, List, ◌++◌, length, append_injective, Array,
}
use pysui_crypto.Byte.{U8}
use pysui_crypto.Dem.{Key, Primitives, mac, tag, hmac, compute_mac, hmac_decrypt}
use pysui_crypto.Dem.RoundTrip.{equal_or_not, hmac_decrypt_lem}

module _ (lib : Primitives) where
  -- The text whose HMAC is the MAC.
  abbrev pub mac_text : List U8 → List U8 → List U8
  mac_text aad ciphertext = tag mac ++ (lib.u64_bytes (length aad) ++ (aad ++ ciphertext))

  -- A text that is decrypted has the MAC as its tag.
  accepted :
      (ciphertext : List U8) (tag' : Array U8 32) (aad : List U8) (key : Key) (out : List U8)
      → hmac_decrypt lib ciphertext tag' aad key ≡ ok out
      → tag' ≡ lib.hmac_sha3_256 key (mac_text aad ciphertext)
  unfolding compute_mac hmac
  accepted ciphertext tag' aad key out h = elim (hmac_decrypt_lem lib ciphertext tag' aad key) [
    | inl (e, _) ↦ e
    | inr (_, f) ↦ cc (sym h ∙ f)
  ]

  -- The MAC binds the associated data and the ciphertext. Where BCS writes a u64 as eight bytes, and
  -- different numbers differently: if a tag and a key decrypt two ciphertexts, with associated data
  -- of less than 2^64 bytes each, then the associated data are equal and the ciphertexts are equal,
  -- or the texts that are authenticated differ and have the same HMAC under the key.
  pub hmac_decrypt-binds :
      ((n : ℕ) → length (lib.u64_bytes n) ≡ 8)
      → ((m n : ℕ) → m < 2 ^ 64 → n < 2 ^ 64 → lib.u64_bytes m ≡ lib.u64_bytes n → m ≡ n)
      → (tag' : Array U8 32) (key : Key) (aad aad' ciphertext ciphertext' out out' : List U8)
      → length aad < 2 ^ 64
      → length aad' < 2 ^ 64
      → hmac_decrypt lib ciphertext tag' aad key ≡ ok out
      → hmac_decrypt lib ciphertext' tag' aad' key ≡ ok out'
      → ((aad ≡ aad') × (ciphertext ≡ ciphertext'))
        ⊎ (¬ (mac_text aad ciphertext ≡ mac_text aad' ciphertext')
            × (lib.hmac_sha3_256 key (mac_text aad ciphertext)
                ≡ lib.hmac_sha3_256 key (mac_text aad' ciphertext')))
  hmac_decrypt-binds wide injective tag' key aad aad' ciphertext ciphertext' out out' h h' e e' =
      elim (equal_or_not (mac_text aad ciphertext) (mac_text aad' ciphertext')) [
        | inl same ↦
            let (_, behind_tag) = append_injective (tag mac) (tag mac) _ _ refl same in
            let (lengths, texts) =
              append_injective (lib.u64_bytes (length aad)) (lib.u64_bytes (length aad')) _ _
                (wide (length aad) ∙ sym (wide (length aad'))) behind_tag in
            inl (
              append_injective aad aad' ciphertext ciphertext'
                (injective (length aad) (length aad') h h' lengths) texts)
        | inr other ↦ inr (
          other,
          sym (accepted ciphertext tag' aad key out e) ∙ accepted ciphertext' tag' aad' key out' e',
        )
      ]
