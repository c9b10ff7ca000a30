-- ===== src/Bindings.antt =====
-- seal/bindings.rs: the functions for Python, which read their arguments from bytes and call the
-- rest of the crate. BCS and the serialization of group elements are parameters.
pub mod Message
pub mod Commas
pub mod Signed
pub mod RoundTrip
pub mod Exposed
pub mod Shown
pub mod Verified
pub mod KeyRequest
use pysui_crypto.Common.{
  ℕ, Bool, true, false, not, List, [], ◌∷◌, map, length, Option, none, some, if◌then◌else◌, ltb,
  ◌==◌, Array,
}
use pysui_crypto.Python.{
  PyErr, value_error, runtime_error, PyResult, returned, raised, panicked, ◌>>=◌, map_err, ok_or,
  collect, transpose,
}
use pysui_crypto.Byte.{U8}
use pysui_crypto.Utils.{Rng}
use pysui_crypto.Dem.{Key, Primitives, EncryptionInput, Ciphertext, bytes_eq, bytes_of}
use pysui_crypto.Groups.{Curve}
use pysui_crypto.Ibe.{ObjectId}
use pysui_crypto.Ibe
use pysui_crypto.Elgamal
use pysui_crypto.Core.{EncryptedObject}
use pysui_crypto.Core

pub data DemType : Type 0 where
  aes_gcm256 hmac256_ctr plain : DemType

-- `DemType::__eq__`, the equality that is derived.
unfoldable pub dem_type_eq : DemType → DemType → Bool
dem_type_eq DemType.aes_gcm256 DemType.aes_gcm256 = true
dem_type_eq DemType.hmac256_ctr DemType.hmac256_ctr = true
dem_type_eq DemType.plain DemType.plain = true
dem_type_eq _ _ = false

unfoldable pub repr : DemType → List U8
repr DemType.aes_gcm256 = bytes_of "DemType.AesGcm256"
repr DemType.hmac256_ctr = bytes_of "DemType.Hmac256Ctr"
repr DemType.plain = bytes_of "DemType.Plain"

-- The input of `core::seal_encrypt` for a mode.
abbrev pub encryption_input : DemType → List U8 → Option (List U8) → EncryptionInput
encryption_input DemType.aes_gcm256 data' aad = EncryptionInput.aes256_gcm data' aad
encryption_input DemType.hmac256_ctr data' aad = EncryptionInput.hmac256_ctr data' aad
encryption_input DemType.plain data' aad = EncryptionInput.plain

-- `collect` into a `HashMap`: a later entry replaces an earlier one with the same key.
unfoldable pub collect_map {ℓ} : {V : Type ℓ} → List (ObjectId × V) → ObjectId → Option V
collect_map [] o = none
collect_map (e ∷ es) o = elim (collect_map es o) [
  | some v ↦ some v
  | none ↦ if bytes_eq e.0.items o.items then some e.1 else none
]

-- `generate_session_keypair`: the secret key and the public key. Generation of Ed25519 key pairs,
-- as the bytes of the public key and of the private key, is library code.
unfoldable pub generate_session_keypair :
    {R : Type 0} → (R → (List U8 × List U8) × R) → R → PyResult ((List U8 × List U8) × R)
generate_session_keypair generate st =
    let ((pk_bytes, sk_bytes), st') = generate st in returned ((sk_bytes, pk_bytes), st')

module _ (c : Curve) where
  -- BCS of the types of the crate.
  pub record Bcs : Type 0 where
    pub object_to_bytes : EncryptedObject c → Option (List U8)
    pub object_from_bytes : List U8 → Option (EncryptedObject c)
    pub object_id_from_bytes : List U8 → Option ObjectId
    pub g1_to_bytes : c.g1.Elt → Option (List U8)
    pub g1_from_bytes : List U8 → Option c.g1.Elt
    pub g2_to_bytes : c.g2.Elt → Option (List U8)
    pub g2_from_bytes : List U8 → Option c.g2.Elt
    pub scalar_to_bytes : c.Scalar → Option (List U8)
    pub scalar_from_bytes : List U8 → Option c.Scalar
    -- A ciphertext of ElGamal encryption.
    pub encryption_from_bytes : List U8 → Option (c.g1.Elt × c.g1.Elt)

  -- `PyEncryptedObject::dem_type`, `package_id` and `services`.
  unfoldable pub dem_type : EncryptedObject c → DemType
  dem_type object = elim object.ciphertext [
    | Ciphertext.aes256_gcm blob aad ↦ DemType.aes_gcm256
    | Ciphertext.hmac256_ctr blob aad mac ↦ DemType.hmac256_ctr
    | Ciphertext.plain ↦ DemType.plain
  ]

  -- `PyEncryptedObject::version`, `id` and `threshold`.
  unfoldable pub version : EncryptedObject c → ℕ
  version object = object.version

  unfoldable pub id : EncryptedObject c → List U8
  id object = object.id

  unfoldable pub threshold : EncryptedObject c → ℕ
  threshold object = object.threshold

  unfoldable pub package_id : EncryptedObject c → List U8
  package_id object = object.package_id.items

  unfoldable pub services : EncryptedObject c → List (List U8 × U8)
  services object = map (λ (s : ObjectId × U8). (s.0.items, s.1)) object.services

  module _ (bcs : Bcs) where
    -- `PyEncryptedObject::parse` and `to_bytes`.
    unfoldable pub parse : List U8 → PyResult (EncryptedObject c)
    parse data' = ok_or value_error (bcs.object_from_bytes data')

    unfoldable pub to_bytes : EncryptedObject c → PyResult (List U8)
    to_bytes object = ok_or value_error (bcs.object_to_bytes object)

    unfoldable pub parse_object_id : List U8 → PyResult ObjectId
    parse_object_id bytes =
        if not (length bytes == 32)
        then raised value_error
        else ok_or value_error (bcs.object_id_from_bytes bytes)

    unfoldable pub parse_g1 : List U8 → PyResult c.g1.Elt
    parse_g1 bytes = ok_or value_error (bcs.g1_from_bytes bytes)

    unfoldable pub parse_g2 : List U8 → PyResult c.g2.Elt
    parse_g2 bytes = ok_or value_error (bcs.g2_from_bytes bytes)

    -- An entry of the argument `user_secret_keys`.
    unfoldable pub parse_user_secret_key : List U8 × List U8 → PyResult (ObjectId × c.g1.Elt)
    parse_user_secret_key e = do id ← parse_object_id e.0; usk ← parse_g1 e.1; returned (id, usk)

    module _ (lib : Primitives) (g : Rng) (rand : g.State → c.Scalar × g.State) where
      unfoldable pub seal_encrypt :
          g.State
          → List U8
          → List U8
          → List (List U8)
          → List (List U8)
          → ℕ
          → List U8
          → DemType
          → Option (List U8)
          → PyResult ((List U8 × Option (List U8)) × g.State)
      seal_encrypt st package_id id key_servers public_keys threshold data' dem_type aad =
          if ltb 255 (length key_servers)
          then raised value_error
          else let is_plain = dem_type_eq dem_type DemType.plain in
            do
              pkg_id ← parse_object_id package_id
              servers ← collect parse_object_id key_servers
              pks ← collect parse_g2 public_keys
              (eo, dem_key, st') ← map_err runtime_error (
                  Core.seal_encrypt c lib g rand st pkg_id id servers pks threshold
                    (encryption_input dem_type data' aad))
              eo_bytes ← ok_or runtime_error (bcs.object_to_bytes eo)
              returned ((eo_bytes, (if is_plain then some dem_key.items else none)), st')

    module _ (g : Rng) (rand : g.State → c.Scalar × g.State) where
      -- The secret key, the public key and the verification key of `elgamal::genkey`.
      unfoldable pub generate_elgamal_keypair :
          g.State → PyResult ((List U8 × List U8 × List U8) × g.State)
      generate_elgamal_keypair st =
          let ((sk, pk, vk), st') = Elgamal.genkey rand c.g1 c.g2 st in
          do
            sk_bytes ← ok_or runtime_error (bcs.scalar_to_bytes sk)
            pk_bytes ← ok_or runtime_error (bcs.g1_to_bytes pk)
            vk_bytes ← ok_or runtime_error (bcs.g2_to_bytes vk)
            returned ((sk_bytes, pk_bytes, vk_bytes), st')

      unfoldable pub elgamal_decrypt : List U8 → List U8 → PyResult (List U8)
      elgamal_decrypt sk encryption = do
        secret_key ← ok_or value_error (bcs.scalar_from_bytes sk)
        enc ← ok_or value_error (bcs.encryption_from_bytes encryption)
        ok_or runtime_error (bcs.g1_to_bytes (Elgamal.decrypt rand c.g1 secret_key enc))

    unfoldable pub seal_decrypt :
        Primitives
        → List U8
        → List (List U8 × List U8)
        → Option (List (List U8))
        → PyResult (List U8)
    seal_decrypt lib encrypted_object user_secret_keys public_keys = do
      eo ← ok_or value_error (bcs.object_from_bytes encrypted_object)
      usks ← collect parse_user_secret_key user_secret_keys
      ibe_pks ← transpose (collect parse_g2) public_keys
      map_err runtime_error (Core.seal_decrypt c lib eo (collect_map usks) ibe_pks)

    unfoldable pub verify_user_secret_key : List U8 → List U8 → List U8 → PyResult (Unit {0})
    verify_user_secret_key usk full_id public_key = do
      usk_g1 ← parse_g1 usk
      pk_g2 ← parse_g2 public_key
      map_err value_error (Ibe.verify_user_secret_key c usk_g1 full_id pk_g2)
