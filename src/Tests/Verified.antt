-- ===== src/Tests/Verified.antt =====
-- Decryption with a checked key at concrete inputs.
use pysui_crypto.Common.{[], ◌∷◌, ◌≡◌, refl, sym, ◌∙◌, inl, inr, none, All, arith}
use pysui_crypto.Python.{returned}
use pysui_crypto.Byte.{of_ℕ, eq}
use pysui_crypto.Gf256.{Gf256, from_u8, one as 𝟙, ◌⊗◌}
use pysui_crypto.Gf256.Field.{⊗-one}
use pysui_crypto.Dem.{bytes_eq}
use pysui_crypto.Ibe.{public_key_from_master_key}
use pysui_crypto.Ibe.Laws.{verify_user_secret_key-extract}
use pysui_crypto.Core.{create_full_id}
use pysui_crypto.Bindings.{DemType, collect_map, parse_g1, parse_g2, verify_user_secret_key}
use pysui_crypto.Bindings.RoundTrip.{RoundTrips}
use pysui_crypto.Bindings.Verified.{IsVerified, seal_decrypt-verify_user_secret_key}
use pysui_crypto.Tests.Toy.{counter, primitives, curve, curve_laws}
use pysui_crypto.Tests.Codec.{block_bytes-items}
use pysui_crypto.Tests.Bytes.{
  draw, package_id, name, text, bcs, servers, usk, keys, user_secret_keys, public_keys, decoded,
  one_key, read_public, read_keys,
}

pairing_injective : (a b : Gf256) → a ⊗ 𝟙 ≡ b ⊗ 𝟙 → a ≡ b
pairing_injective a b e = sym (⊗-one a) ∙ e ∙ ⊗-one b

abbrev server_key : Gf256
server_key = public_key_from_master_key curve (from_u8 (of_ℕ 11))

usk_accepted :
    verify_user_secret_key curve bcs
      (usk.byte ∷ [])
      (create_full_id package_id name)
      (server_key.byte ∷ [])
    ≡ returned tt
unfolding verify_user_secret_key parse_g1 parse_g2
usk_accepted =
    rw
      (verify_user_secret_key-extract curve curve_laws (from_u8 (of_ℕ 11))
        (create_full_id package_id name))
      refl

verified : All (IsVerified curve bcs (collect_map keys) (create_full_id package_id name)) servers
unfolding collect_map bytes_eq eq of_ℕ
verified =
    (inr (usk, usk.byte ∷ [], server_key.byte ∷ [], refl, refl, refl, usk_accepted), (inl refl, tt))

seal_decrypt-verify_user_secret_key_example :
    RoundTrips curve bcs block_bytes-items primitives counter draw curve_laws
      (λ key aad msg. refl)
      decoded
      package_id
      name
      servers
      public_keys
      user_secret_keys
      keys
      1
      text
      DemType.hmac256_ctr
      none
      5
seal_decrypt-verify_user_secret_key_example =
    seal_decrypt-verify_user_secret_key curve bcs curve_laws pairing_injective block_bytes-items
      primitives counter draw (λ key aad msg. refl) decoded package_id name servers public_keys
      user_secret_keys keys 1 text DemType.hmac256_ctr none 5 (omega arith) (omega arith) verified
      (omega (arith, one_key)) read_public read_keys
