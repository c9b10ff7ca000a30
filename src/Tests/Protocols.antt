-- ===== src/Tests/Protocols.antt =====
-- The theorems on encryption at concrete inputs.
use pysui_crypto.Common.{
  Array, ℕ, suc, ◌≡◌, ◌⊎◌, ◌↔◌, refl, List, [], ◌∷◌, map, some, Outcome, ok, err, general_error,
  ◌>>=◌, index,
}
use pysui_crypto.Byte.{U8, of_ℕ}
use pysui_crypto.Gf256.{Gf256, from_u8, one as 𝟙, ◌⊕◌, ◌⊗◌}
use pysui_crypto.Dem.{
  Key, EncryptionInput, iv, compute_mac, encrypt_in_ctr_mode, hmac_encrypt, hmac_decrypt,
}
use pysui_crypto.Dem
use pysui_crypto.Dem.RoundTrip.{decrypt-encrypt}
use pysui_crypto.Dem.Exact.{hmac_decrypt-encrypt_only}
use pysui_crypto.Dem.Stream.{masked, encrypt_in_ctr_mode-masked}
use pysui_crypto.Elgamal
use pysui_crypto.Elgamal.{decrypt-encrypt-genkey}
use pysui_crypto.Ibe.{
  Info, Block, public_key_from_master_key, extract, verify_user_secret_key,
  verify_encrypted_signature, encrypt_batched_deterministic, verify_nonce, decrypt_deterministic,
  encrypt_randomness, decrypt_randomness,
}
use pysui_crypto.Ibe
use pysui_crypto.Common.{invalid_input}
use pysui_crypto.Ibe.{hash_to_g1}
use pysui_crypto.Ibe.Exact.{
  HasNoIdentity, verify_user_secret_key-extract_only, verify_encrypted_signature-decrypt,
}
use pysui_crypto.Gf256.Field.{⊗-one}
use pysui_crypto.Common.{sym, ◌∙◌}
use pysui_crypto.Ibe.Laws.{Recipient, decrypt-encrypt_batched_deterministic}
use pysui_crypto.Tests.Toy.{filled, primitives, group, curve, curve_laws}

abbrev element : ℕ → Gf256
element n = from_u8 (of_ℕ n)

abbrev key : Key
key = filled 32 of_ℕ

abbrev text : List U8
text = map of_ℕ (72 ∷ 101 ∷ 108 ∷ 108 ∷ 111 ∷ [])

abbrev aad : List U8
aad = of_ℕ 7 ∷ []

abbrev blob : List U8
blob = (hmac_encrypt primitives text aad key).0

abbrev mac : Array U8 32
mac = (hmac_encrypt primitives text aad key).1

hmac_decrypt-encrypt_only_example :
    ((t : List U8)
      → (hmac_decrypt primitives blob mac aad key ≡ ok t)
        ↔ (hmac_encrypt primitives t aad key ≡ (blob, mac)))
    × (((t : List U8) × (hmac_decrypt primitives blob mac aad key ≡ ok t))
        ⊎ (hmac_decrypt primitives blob mac aad key ≡ err (general_error "Invalid MAC")))
hmac_decrypt-encrypt_only_example = hmac_decrypt-encrypt_only primitives blob mac aad key

decrypt-encrypt_example :
    Dem.decrypt primitives
      (Dem.encrypt primitives (EncryptionInput.hmac256_ctr text (some aad)) key)
      key
    ≡ ok text
decrypt-encrypt_example =
    decrypt-encrypt primitives (λ key aad msg. refl) (EncryptionInput.hmac256_ctr text (some aad))
      key

abbrev draw : ℕ → Gf256 × ℕ
draw n = (element n, suc n)

abbrev identity : List U8
identity = of_ℕ 1 ∷ of_ℕ 2 ∷ []

abbrev first : Recipient curve
first = (filled 32 of_ℕ, element 11, (filled 32 of_ℕ, of_ℕ 1))

abbrev second : Recipient curve
second = (filled 32 (λ k. of_ℕ 42), element 12, (filled 32 of_ℕ, of_ℕ 2))

abbrev batch : Outcome (Gf256 × List Block)
batch =
    encrypt_batched_deterministic curve (element 99)
      (map (λ (t : Recipient curve). t.0) (first ∷ second ∷ []))
      (map (λ (t : Recipient curve). public_key_from_master_key curve t.1) (first ∷ second ∷ []))
      identity (map (λ (t : Recipient curve). t.2) (first ∷ second ∷ []))

index-second : index (first ∷ second ∷ []) 1 ≡ ok second
unfolding index
index-second = refl

decrypt-encrypt_batched_deterministic_example :
    ((batch >>= λ s. index s.1 1 >>= λ b.
    Ibe.decrypt curve s.0 b (extract curve (element 12) identity) identity second.2)
      ≡ ok second.0)
    × ((batch >>= λ s. index s.1 1 >>= λ b.
          decrypt_deterministic curve
            (element 99)
            b
            (public_key_from_master_key curve (element 12))
            identity
            second.2)
        ≡ ok second.0)
decrypt-encrypt_batched_deterministic_example =
    decrypt-encrypt_batched_deterministic curve curve_laws (element 99) identity
      (first ∷ second ∷ []) 1 second index-second

abbrev keys : Gf256 × Gf256 × Gf256
keys = (element 5, 𝟙 ⊗ element 5, 𝟙 ⊗ element 5)

abbrev signature : Gf256 × Gf256
signature = (𝟙 ⊗ element 9, ((𝟙 ⊗ element 5) ⊗ element 9) ⊕ extract curve (element 11) identity)

pairing_injective : (a b : Gf256) → a ⊗ 𝟙 ≡ b ⊗ 𝟙 → a ≡ b
pairing_injective a b e = sym (⊗-one a) ∙ e ∙ ⊗-one b

verify_user_secret_key-extract_only_example :
    ((element 3 ≡ extract curve (element 11) identity)
      × (verify_user_secret_key curve
            (element 3)
            identity
            (public_key_from_master_key curve (element 11))
          ≡ ok tt))
    ⊎ (¬ (element 3 ≡ extract curve (element 11) identity)
        × (verify_user_secret_key curve
              (element 3)
              identity
              (public_key_from_master_key curve (element 11))
            ≡ err invalid_input))
verify_user_secret_key-extract_only_example =
    verify_user_secret_key-extract_only curve curve_laws pairing_injective (element 11) identity
      (element 3)

abbrev DecryptsToKey : Type 0
DecryptsToKey =
    HasNoIdentity curve (element 5) (element 11) signature
    × (Elgamal.decrypt draw group (element 5) signature ≡ extract curve (element 11) identity)

verify_encrypted_signature-decrypt_example :
    (DecryptsToKey
      × (verify_encrypted_signature curve signature
            (𝟙 ⊗ element 5)
            (public_key_from_master_key curve (element 11))
            identity
          ≡ ok tt))
    ⊎ (¬ DecryptsToKey
        × (verify_encrypted_signature curve signature
              (𝟙 ⊗ element 5)
              (public_key_from_master_key curve (element 11))
              identity
            ≡ err invalid_input))
verify_encrypted_signature-decrypt_example =
    verify_encrypted_signature-decrypt curve curve_laws pairing_injective draw (element 5)
      (element 11) identity signature

encrypt_in_ctr_mode-masked_example :
    encrypt_in_ctr_mode primitives key text ≡ masked primitives key 0 text
encrypt_in_ctr_mode-masked_example = encrypt_in_ctr_mode-masked primitives key text
