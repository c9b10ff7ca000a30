-- ===== src/Tests/Secrecy.antt =====
-- The theorems on what is hidden and what is bound at concrete inputs.
use pysui_crypto.Common.{
  ℕ, ◌+◌, ◌/◌, ◌^◌, ◌<◌, ◌≡◌, ◌⊎◌, refl, ap, false, get_or, ◌∙◌, Bool, List, [], ◌∷◌, length,
  filter, some, Option, ok, err, invalid_input, Array, arith,
}
use pysui_crypto.Tss.{contains, all_unique}
use pysui_crypto.Byte.{U8, to_ℕ, of_ℕ, eq}
use pysui_crypto.Tss.Indices.{indices_to}
use pysui_crypto.Tss.Secrecy.{IsHidden, split-IsHidden}
use pysui_crypto.Byte.Numbers.{to_ℕ-of_ℕ}
use pysui_crypto.Gf256.{Gf256, one as 𝟙}
use pysui_crypto.Dem.{Key, compute_mac, hmac, bytes_eq, hmac_decrypt, encrypt_in_ctr_mode}
use pysui_crypto.Dem
use pysui_crypto.Ibe.{ObjectId, to_be_bytes}
use pysui_crypto.Core.{
  dst_derive_key, tag, concat_bytes, encrypted_randomness, dem, EncryptedObject, derive_key,
  seal_decrypt,
}
use pysui_crypto.Core.{seal_encrypt}
use pysui_crypto.Gf256.{from_u8}
use pysui_crypto.Common.{◌+◌, panic, map, range_from, length-map, length-range_from}
use pysui_crypto.Tests.Toy.{counter}
use pysui_crypto.Core.Overflow.{IsAcceptedWrapped, seal_encrypt-wraps}
use pysui_crypto.Core.Keys.{derivation_text}
use pysui_crypto.Core.Binding.{AreEqual, derive_key-AreEqual}
use pysui_crypto.Core.Refused.{same_index, seal_decrypt-IsRefused}
use pysui_crypto.Tests.Toy.{filled, primitives, curve}

-- The holder of the share with index 1.
abbrev is_first : U8 → Bool
is_first i = eq i (of_ℕ 1)

first_alone : length (filter is_first (indices_to 3)) < 2
unfolding eq of_ℕ
first_alone = omega arith

split-IsHidden_example : IsHidden 2 3 1 is_first (filled 1 (λ k. of_ℕ 42)) (filled 1 (λ k. of_ℕ 7))
split-IsHidden_example =
    split-IsHidden 2 3 1 is_first (filled 1 (λ k. of_ℕ 42)) (filled 1 (λ k. of_ℕ 7)) (omega arith)
      (omega arith) (omega arith) (omega arith) first_alone

abbrev block : ℕ → Array U8 32
block n = filled 32 (λ k. of_ℕ (n + k))

-- The toy hash is that of the length, so that two purposes have the same key.
same_keys :
    (derive_key curve dem (block 1) (block 2 ∷ []) 1 (block 3 ∷ []) ≡ ok (block 125))
    × (derive_key curve encrypted_randomness (block 1) (block 2 ∷ []) 1 (block 3 ∷ [])
        ≡ ok (block 125))
unfolding derive_key dst_derive_key tag concat_bytes
same_keys = (refl, refl)

derive_key-AreEqual_example :
    AreEqual dem encrypted_randomness
      (block 1)
      (block 1)
      (block 2 ∷ [])
      (block 2 ∷ [])
      1
      1
      (block 3 ∷ [])
      (block 3 ∷ [])
    ⊎ (¬ (
          derivation_text dem (block 1) (block 2 ∷ []) 1 (block 3 ∷ [])
          ≡ derivation_text encrypted_randomness (block 1) (block 2 ∷ []) 1 (block 3 ∷ []))
        × (curve.sha3_256 (derivation_text dem (block 1) (block 2 ∷ []) 1 (block 3 ∷ []))
            ≡ curve.sha3_256
                (derivation_text encrypted_randomness (block 1) (block 2 ∷ []) 1 (block 3 ∷ []))))
derive_key-AreEqual_example =
    derive_key-AreEqual curve dem encrypted_randomness (block 1) (block 1) (block 2 ∷ [])
      (block 2 ∷ []) 1 1 (block 3 ∷ []) (block 3 ∷ []) (block 125) (omega arith) (omega arith)
      same_keys.0 same_keys.1

-- Two services with the index 1.
abbrev object : EncryptedObject curve
object = record {
  version = 0;
  package_id = block 1;
  id = [];
  services = (block 2, of_ℕ 1) ∷ (block 3, of_ℕ 1) ∷ [];
  threshold = 1;
  encrypted_shares = record {
    nonce = 𝟙;
    encrypted_shares = block 4 ∷ block 5 ∷ [];
    encrypted_randomness = block 6;
  };
  ciphertext = Dem.Ciphertext.plain;
}

abbrev both : ObjectId → Option Gf256
both i = some 𝟙

index_twice : all_unique (of_ℕ 1 ∷ of_ℕ 1 ∷ []) ≡ false
unfolding all_unique contains eq of_ℕ
index_twice = refl

seal_decrypt-IsRefused_example :
    seal_decrypt curve primitives object both (some (𝟙 ∷ [])) ≡ err invalid_input
seal_decrypt-IsRefused_example =
    seal_decrypt-IsRefused curve object both primitives (some (𝟙 ∷ [])) (same_index index_twice)

pub length-to_be_bytes : (n : ℕ) → length (to_be_bytes n) ≡ 8
unfolding to_be_bytes
length-to_be_bytes n = refl

-- One more digit to the base 256.
digit : (m n : ℕ) → m / 256 ≡ n / 256 → of_ℕ m ≡ of_ℕ n → m ≡ n
digit m n h e = omega (arith, h, to_ℕ-of_ℕ m, to_ℕ-of_ℕ n, ap to_ℕ e)

pub to_be_bytes_injective :
    (m n : ℕ) → m < 2 ^ 64 → n < 2 ^ 64 → to_be_bytes m ≡ to_be_bytes n → m ≡ n
unfolding to_be_bytes
to_be_bytes_injective m n hm hn e =
    let e7 = digit (m / 256 ^ 7) (n / 256 ^ 7) (omega (arith, hm, hn)) (at 0) in
    let e6 = digit (m / 256 ^ 6) (n / 256 ^ 6) (omega (arith, e7)) (at 1) in
    let e5 = digit (m / 256 ^ 5) (n / 256 ^ 5) (omega (arith, e6)) (at 2) in
    let e4 = digit (m / 256 ^ 4) (n / 256 ^ 4) (omega (arith, e5)) (at 3) in
    let e3 = digit (m / 256 ^ 3) (n / 256 ^ 3) (omega (arith, e4)) (at 4) in
    let e2 = digit (m / 256 ^ 2) (n / 256 ^ 2) (omega (arith, e3)) (at 5) in
    let e1 = digit (m / 256) (n / 256) (omega (arith, e2)) (at 6) in
    digit m n e1 (ap of_ℕ (omega arith) ∙ at 7 ∙ ap of_ℕ (omega arith))
  where
    at : (k : ℕ) → get_or (to_be_bytes m) k (of_ℕ 0) ≡ get_or (to_be_bytes n) k (of_ℕ 0)
    at k = ap (λ bs. get_or bs k (of_ℕ 0)) e

abbrev byte : List U8
byte = of_ℕ 5 ∷ []

abbrev draw : ℕ → Gf256 × ℕ
draw n = (from_u8 (of_ℕ n), n + 1)

-- 257 servers.
abbrev crowd : List ObjectId
crowd = map block (range_from 0 257)

seal_encrypt-wraps_example :
    (IsAcceptedWrapped crowd (𝟙 ∷ []) 1
      × (seal_encrypt curve primitives counter draw 5
            (block 1)
            byte
            crowd
            (𝟙 ∷ [])
            1
            Dem.EncryptionInput.plain
          ≡ panic))
    ⊎ (¬ (IsAcceptedWrapped crowd (𝟙 ∷ []) 1)
        × (seal_encrypt curve primitives counter draw 5
              (block 1)
              byte
              crowd
              (𝟙 ∷ [])
              1
              Dem.EncryptionInput.plain
            ≡ err invalid_input))
seal_encrypt-wraps_example =
    seal_encrypt-wraps curve primitives counter draw 5 (block 1) byte crowd (𝟙 ∷ []) 1
      Dem.EncryptionInput.plain
      (omega (arith, length-map block (range_from 0 257), length-range_from 0 257))
