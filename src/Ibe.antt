-- ===== src/Ibe.antt =====
-- seal/ibe.rs: identity-based encryption of shares, over the pairing groups.
pub mod Laws
pub mod Guards
pub mod Batch
pub mod Exact
use pysui_crypto.Common.{
  ℕ, ◌+◌, ◌-◌, ◌/◌, ◌^◌, Bool, true, false, not, ◌||◌, List, [], ◌∷◌, ◌++◌, map, length, Outcome,
  ok, err, ◌>>=◌, traverse, index, invalid_input, general_error, if◌then◌else◌, ◌==◌, range_from,
  Array, map_ok,
}
use pysui_crypto.Byte.{U8, of_ℕ}
use pysui_crypto.Utils.{xor, Rng, generate_random_bytes}
use pysui_crypto.Groups.{Curve}
use pysui_crypto.Dem.{bytes_of}

-- seal/mod.rs: `ObjectID`, 32 bytes.
abbrev pub ObjectId : Type 0
ObjectId = Array U8 32

-- The object id of a key server, and the index of its share.
abbrev pub Info : Type 0
Info = ObjectId × U8

abbrev pub Block : Type 0
Block = Array U8 32

unfoldable pub dst_id : List U8
dst_id = bytes_of "SUI-SEAL-IBE-BLS12381-00"

unfoldable pub dst_pop : List U8
dst_pop = bytes_of "SUI-SEAL-IBE-BLS12381-POP-00"

unfoldable pub dst_kdf : List U8
dst_kdf = bytes_of "SUI-SEAL-IBE-BLS12381-H2-00"

-- `u64::to_be_bytes`.
unfoldable pub to_be_bytes : ℕ → List U8
to_be_bytes n = map (λ k. of_ℕ (n / 256 ^ (7 - k))) (range_from 0 8)

unfoldable pub generate_seed : (g : Rng) → g.State → Array U8 32 × g.State
generate_seed g st = generate_random_bytes g 32 st

module _ (c : Curve) where
  unfoldable pub public_key_from_master_key : c.Scalar → c.g2.Elt
  public_key_from_master_key master_key = c.g2.mul c.g2.generator master_key

  unfoldable pub into_key_pair : c.Scalar → c.Scalar × c.g2.Elt
  into_key_pair master_key = (master_key, public_key_from_master_key master_key)

  unfoldable pub generate_key_pair :
      {R : Type 0} → (R → c.Scalar × R) → R → (c.Scalar × c.g2.Elt) × R
  generate_key_pair rand st = let (s, st') = rand st in (into_key_pair s, st')

  unfoldable pub derive_master_key : List U8 → ℕ → c.Scalar
  derive_master_key seed derivation_index =
      c.scalar_mod_r (c.hkdf_sha3_256 seed [] (to_be_bytes derivation_index) 64)

  unfoldable pub hash_to_g1 : List U8 → c.g1.Elt
  hash_to_g1 id = c.hash_to_group_element (dst_id ++ id)

  unfoldable pub extract : c.Scalar → List U8 → c.g1.Elt
  extract master_key id = c.g1.mul (hash_to_g1 id) master_key

  unfoldable pub verify_user_secret_key : c.g1.Elt → List U8 → c.g2.Elt → Outcome (Unit {0})
  verify_user_secret_key user_secret_key id public_key =
      if c.gt.is_eq (c.pairing user_secret_key c.g2.generator)
        (c.pairing (hash_to_g1 id) public_key)
      then ok tt
      else err invalid_input

  unfoldable pub verify_encrypted_signature :
      c.g1.Elt × c.g1.Elt → c.g2.Elt → c.g2.Elt → List U8 → Outcome (Unit {0})
  verify_encrypted_signature encrypted_sig ephemeral_vk partial_pk id =
      if c.g1.is_eq encrypted_sig.0 c.g1.zero
        || c.g1.is_eq encrypted_sig.1 c.g1.zero
        || c.g2.is_eq ephemeral_vk c.g2.zero
        || c.g2.is_eq partial_pk c.g2.zero
      then err invalid_input
      else if c.gt.is_eq (c.pairing encrypted_sig.1 c.g2.generator)
          (c.gt.add (c.pairing encrypted_sig.0 ephemeral_vk) (c.pairing (hash_to_g1 id) partial_pk))
      then ok tt
      else err invalid_input

  unfoldable pub kdf : c.gt.Elt → c.g2.Elt → c.g1.Elt → Info → Block
  kdf input nonce gid info = c.sha3_256 (
      dst_kdf
      ++ (c.gt_bytes input
          ++ (c.g2_bytes nonce ++ (c.g1_bytes gid ++ (info.0.items ++ (info.1 ∷ []))))))

  unfoldable pub encrypt_batched_deterministic :
      c.Scalar → List Block → List c.g2.Elt → List U8 → List Info → Outcome (c.g2.Elt × List Block)
  encrypt_batched_deterministic randomness plaintexts public_keys id infos =
      let batch_size = length plaintexts in
      if not (batch_size == length public_keys) || not (batch_size == length infos)
      then err invalid_input
      else let gid = hash_to_g1 id in
        let gid_r = c.g1.mul gid randomness in
        let nonce = c.g2.mul c.g2.generator randomness in
        map_ok (λ cs. (nonce, cs))
          (traverse
            (λ i. do
              pk ← index public_keys i
              info ← index infos i
              plaintext ← index plaintexts i
              xor 32 (kdf (c.pairing gid_r pk) nonce gid info) plaintext)
            (range_from 0 batch_size))

  unfoldable pub decrypt : c.g2.Elt → Block → c.g1.Elt → List U8 → Info → Outcome Block
  decrypt nonce ciphertext secret_key id info =
      xor 32 ciphertext (kdf (c.pairing secret_key nonce) nonce (hash_to_g1 id) info)

  unfoldable pub verify_nonce : c.Scalar → c.g2.Elt → Outcome (Unit {0})
  verify_nonce randomness nonce =
      if not (c.g2.is_eq (c.g2.mul c.g2.generator randomness) nonce)
      then err (general_error "Invalid randomness")
      else ok tt

  unfoldable pub decrypt_deterministic :
      c.Scalar → Block → c.g2.Elt → List U8 → Info → Outcome Block
  decrypt_deterministic randomness ciphertext public_key id info =
      let gid = hash_to_g1 id in
      let gid_r = c.g1.mul gid randomness in
      let nonce = c.g2.mul c.g2.generator randomness in
      xor 32 ciphertext (kdf (c.pairing gid_r public_key) nonce gid info)

  unfoldable pub encrypt_randomness : c.Scalar → Block → Outcome Block
  encrypt_randomness randomness key = xor 32 key (c.scalar_bytes randomness)

  unfoldable pub decrypt_randomness : Block → Block → Outcome c.Scalar
  decrypt_randomness encrypted_randomness derived_key =
      xor 32 derived_key encrypted_randomness >>= c.scalar_of_bytes

  -- The bytes of the public key are its BCS form.
  unfoldable pub create_proof_of_possession : (c.g2.Elt → List U8) → c.Scalar → List U8 → c.g1.Elt
  create_proof_of_possession bcs_bytes master_key message =
      let public_key = public_key_from_master_key master_key in
      c.g1.mul (c.hash_to_group_element (dst_pop ++ (bcs_bytes public_key ++ message))) master_key
