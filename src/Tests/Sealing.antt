-- ===== src/Tests/Sealing.antt =====
-- A round trip of `seal_encrypt` and `seal_decrypt` with two servers, one of which gave a key.
use pysui_crypto.Common.{
  ℕ, suc, ◌≡◌, refl, inl, inr, List, [], ◌∷◌, map, length, filter, All, Option, none, some, ok,
  if◌then◌else◌, arith,
}
use pysui_crypto.Byte.{U8, of_ℕ, eq}
use pysui_crypto.Gf256.{Gf256, from_u8}
use pysui_crypto.Dem.{Key, EncryptionInput}
use pysui_crypto.Ibe.{ObjectId, public_key_from_master_key, extract}
use pysui_crypto.Core.{is_some, create_full_id, EncryptedObject, seal_encrypt, seal_decrypt}
use pysui_crypto.Core.Sealed.{Server, IsExtracted}
use pysui_crypto.Core.RoundTrip.{seal_decrypt-seal_encrypt}
use pysui_crypto.Tests.Toy.{filled, counter, primitives, curve, curve_laws}

abbrev draw : ℕ → Gf256 × ℕ
draw n = (from_u8 (of_ℕ n), suc n)

abbrev package_id : ObjectId
package_id = filled 32 (λ k. of_ℕ 7)

abbrev name : List U8
name = of_ℕ 1 ∷ of_ℕ 2 ∷ []

abbrev text : List U8
text = map of_ℕ (72 ∷ 101 ∷ 108 ∷ 108 ∷ 111 ∷ [])

abbrev servers : List (Server curve)
servers = (filled 32 of_ℕ, from_u8 (of_ℕ 11)) ∷ (filled 32 (λ k. of_ℕ 42), from_u8 (of_ℕ 12)) ∷ []

-- Only the first server gave a key.
abbrev keys : ObjectId → Option Gf256
keys o = elim o.items [
  | [] ↦ none
  | b ∷ bs ↦
      if eq b (of_ℕ 0)
      then some (extract curve (from_u8 (of_ℕ 11)) (create_full_id package_id name))
      else none
]

keys-IsExtracted : All (IsExtracted curve keys (create_full_id package_id name)) servers
unfolding eq of_ℕ
keys-IsExtracted = (inr refl, (inl refl, tt))

one_key : length (filter (λ i. is_some (keys i)) (map (λ (s : Server curve). s.0) servers)) ≡ 1
unfolding eq of_ℕ
one_key = refl

seal_decrypt-seal_encrypt_example :
    (object : EncryptedObject curve) × (dem_key : Key) × (st' : ℕ) × (seal_encrypt curve primitives
        counter draw 5 package_id name
        (map (λ (s : Server curve). s.0) servers)
        (map (λ (s : Server curve). public_key_from_master_key curve s.1) servers)
        1
        (EncryptionInput.hmac256_ctr text none)
      ≡ ok (object, dem_key, st'))
    × (seal_decrypt curve primitives object keys none ≡ ok text)
    × (seal_decrypt curve primitives object keys
          (some (map (λ (s : Server curve). public_key_from_master_key curve s.1) servers))
        ≡ ok text)
seal_decrypt-seal_encrypt_example =
    seal_decrypt-seal_encrypt curve primitives counter draw curve_laws (λ key aad msg. refl)
      package_id name 1 servers keys 5 (EncryptionInput.hmac256_ctr text none) (omega arith)
      (omega arith) keys-IsExtracted (omega (arith, one_key))
