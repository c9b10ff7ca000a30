-- ===== src/Ibe/Batch.antt =====
-- `encrypt_batched_deterministic` for any public keys.
use pysui_crypto.Common.{
  ℕ, ◌<◌, ◌≡◌, ap, ◌∙◌, false, not, ◌||◌, List, length, length-range_from, All-range_from, Outcome,
  ok, ◌>>=◌, map_ok, traverse_some, index, index_within, range_from, ◌==◌, arith,
}
use pysui_crypto.Byte.{U8}
use pysui_crypto.Utils.{xor}
use pysui_crypto.Utils.Laws.{xor_array, xor-ok}
use pysui_crypto.Groups.{Curve}
use pysui_crypto.Ibe.{Info, Block, hash_to_g1, kdf, encrypt_batched_deterministic}

module _ (c : Curve) where
  round : c.Scalar → List Block → List c.g2.Elt → List U8 → List Info → ℕ → Outcome Block
  round r plaintexts public_keys id infos i = do
    pk ← index public_keys i
    info ← index infos i
    plaintext ← index plaintexts i
    xor 32
        (kdf c (c.pairing (c.g1.mul (hash_to_g1 c id) r) pk) (c.g2.mul c.g2.generator r)
          (hash_to_g1 c id) info)
        plaintext

  round_some :
      (r : c.Scalar) (plaintexts : List Block) (public_keys : List c.g2.Elt) (id : List U8)
      (infos : List Info) (i : ℕ)
      → i < length plaintexts
      → length plaintexts ≡ length public_keys
      → length plaintexts ≡ length infos
      → (b : Block) × (round r plaintexts public_keys id infos i ≡ ok b)
  unfolding round
  round_some r plaintexts public_keys id infos i h p q =
      let (pk, e0) = index_within public_keys i (omega arith) in
      let (info, e1) = index_within infos i (omega arith) in
      let (plaintext, e2) = index_within plaintexts i h in
      let mask =
        kdf c (c.pairing (c.g1.mul (hash_to_g1 c id) r) pk) (c.g2.mul c.g2.generator r)
          (hash_to_g1 c id) info in
      (xor_array 32 mask plaintext, rw (e0, e1, e2) (xor-ok 32 mask plaintext))

  -- A batch with as many public keys and infos as plaintexts is encrypted, to as many ciphertexts.
  pub encrypt_batched_deterministic_some :
      (r : c.Scalar) (plaintexts : List Block) (public_keys : List c.g2.Elt) (id : List U8)
      (infos : List Info)
      → length plaintexts ≡ length public_keys
      → length plaintexts ≡ length infos
      → (cts : List Block) × (encrypt_batched_deterministic c r plaintexts public_keys id infos
          ≡ ok (c.g2.mul c.g2.generator r, cts))
        × (length cts ≡ length plaintexts)
  unfolding encrypt_batched_deterministic round
  encrypt_batched_deterministic_some r plaintexts public_keys id infos p q =
      let (cts, e, n) =
        traverse_some (round r plaintexts public_keys id infos) (range_from 0 (length plaintexts)) (
          All-range_from (λ i. (b : Block) × (round r plaintexts public_keys id infos i ≡ ok b)) 0
            (length plaintexts)
            (λ i lo hi. round_some r plaintexts public_keys id infos i (omega arith) p q)) in
      (
        cts,
        rw (same (length plaintexts) (length public_keys) (length infos) p q)
            (ap (map_ok (λ cs. (c.g2.mul c.g2.generator r, cs))) e),
        n ∙ length-range_from 0 (length plaintexts),
      )
    where
      same : (k m n : ℕ) → k ≡ m → k ≡ n → (not (k == m) || not (k == n)) ≡ false
      same k m n p q = ground arith
