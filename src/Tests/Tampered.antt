-- ===== src/Tests/Tampered.antt =====
-- A replaced ciphertext at concrete inputs.
use pysui_crypto.Common.{ℕ, ◌≡◌, List, [], ◌∷◌, none, some, ok, Array, arith}
use pysui_crypto.Byte.{U8, of_ℕ}
use pysui_crypto.Dem.{Key, EncryptionInput, Ciphertext}
use pysui_crypto.Core.{EncryptedObject, seal_encrypt, seal_decrypt}
use pysui_crypto.Core.Tampered.{with_ciphertext, IsRejectedOrSame, seal_decrypt-with_ciphertext}
use pysui_crypto.Tests.Toy.{counter, primitives, curve, curve_laws}
use pysui_crypto.Tests.Secrecy.{length-to_be_bytes, to_be_bytes_injective}
use pysui_crypto.Tests.Consistency.{
  draw, package_id, name, text, servers, servers_ids, public_keys, key_of, held_0, one_key_0,
}

abbrev aad : List U8
aad = of_ℕ 9 ∷ []

abbrev replacement : List U8
replacement = of_ℕ 1 ∷ of_ℕ 2 ∷ []

seal_decrypt-with_ciphertext_example :
    (object : EncryptedObject curve) × (key : Key) × (st' : ℕ) × (blob : List U8) × (tag : Array U8
      32)
    × (seal_encrypt curve primitives counter draw 5 package_id name servers_ids public_keys 1
          (EncryptionInput.hmac256_ctr text none)
        ≡ ok (object, key, st'))
    × (object.ciphertext ≡ Ciphertext.hmac256_ctr blob none tag)
    × IsRejectedOrSame primitives key [] aad blob replacement (
        seal_decrypt curve primitives
          (with_ciphertext object (Ciphertext.hmac256_ctr replacement (some aad) tag))
          (key_of 0 11)
          none)
    × IsRejectedOrSame primitives key [] aad blob replacement (
        seal_decrypt curve primitives
          (with_ciphertext object (Ciphertext.hmac256_ctr replacement (some aad) tag))
          (key_of 0 11)
          (some public_keys))
seal_decrypt-with_ciphertext_example =
    seal_decrypt-with_ciphertext primitives length-to_be_bytes to_be_bytes_injective curve counter
      draw curve_laws package_id name 1 servers (key_of 0 11) 5 (omega arith) (omega arith) held_0
      (omega (arith, one_key_0)) text none (some aad) replacement (omega arith) (omega arith)
