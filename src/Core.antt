-- ===== src/Core.antt =====
-- seal/core.rs: threshold encryption of a payload to key servers. A one-variant enum stands as its
-- contents; `version` and `threshold` are numbers; the map of user secret keys is a function.
pub mod Binding
pub mod Tampered
pub mod Overflow
pub mod Refused
pub mod Recipients
pub mod Keys
pub mod Sealed
pub mod Opened
pub mod PublicKeys
pub mod Total
pub mod Consistency
pub mod Agreement
pub mod Decrypted
pub mod Detected
pub mod WellFormed
pub mod RoundTrip
use pysui_crypto.Common.{
  ℕ, ◌%◌, Bool, true, false, not, ◌||◌, List, [], ◌∷◌, ◌++◌, map, length, filter, enumerate_from,
  Option, none, some, Outcome, ok, err, panic, ◌>>=◌, map_ok, traverse, index, invalid_input,
  general_error, if◌then◌else◌, ltb, ◌==◌, Array,
}
use mathlib.Core.List.{zip}
use pysui_crypto.Byte.{U8, of_ℕ}
use pysui_crypto.Utils.{Rng, generate_random_bytes}
use pysui_crypto.Polynomial.{Polynomial}
use pysui_crypto.Tss.{SecretSharing, split, combine, evaluate_all}
use pysui_crypto.Tss
use pysui_crypto.Dem.{Key, Primitives, EncryptionInput, Ciphertext, bytes_of, bytes_eq}
use pysui_crypto.Dem
use pysui_crypto.Groups.{Curve}
use pysui_crypto.Ibe.{
  ObjectId, Block, encrypt_batched_deterministic, verify_nonce, decrypt_deterministic,
  encrypt_randomness, decrypt_randomness,
}
use pysui_crypto.Ibe

unfoldable pub dst_derive_key : List U8
dst_derive_key = bytes_of "SUI-SEAL-IBE-BLS12381-H3-00"

pub data KeyPurpose : Type 0 where
  encrypted_randomness dem : KeyPurpose

-- `KeyPurpose::tag`.
unfoldable pub tag : KeyPurpose → List U8
tag encrypted_randomness = of_ℕ 0 ∷ []
tag dem = of_ℕ 1 ∷ []

unfoldable pub create_full_id : ObjectId → List U8 → List U8
create_full_id package_id id = package_id.items ++ id

-- The bytes of a list of arrays, in order.
unfoldable pub concat_bytes : List (Array U8 32) → List U8
concat_bytes [] = []
concat_bytes (a ∷ as') = a.items ++ concat_bytes as'

abbrev pub is_some {ℓ} : {A : Type ℓ} → Option A → Bool
is_some none = false
is_some (some a) = true

-- `get(…).expect(…)`.
abbrev pub expect {ℓ} : {A : Type ℓ} → Option A → Outcome A
expect none = panic
expect (some a) = ok a

module _ (c : Curve) where
  pub record IbeEncryptions : Type 0 where
    pub nonce : c.g2.Elt
    pub encrypted_shares : List Block
    pub encrypted_randomness : Block

  pub record EncryptedObject : Type 0 where
    pub version : ℕ
    pub package_id : ObjectId
    pub id : List U8
    -- The key servers, each with the index of its share.
    pub services : List (ObjectId × U8)
    pub threshold : ℕ
    pub encrypted_shares : IbeEncryptions
    pub ciphertext : Ciphertext

  -- `IBEEncryptions::ciphertexts`.
  abbrev pub ciphertexts : IbeEncryptions → List Block
  ciphertexts e = e.encrypted_shares

  -- The updates of the hash are one text; the debug assertion is a panic.
  unfoldable pub derive_key : KeyPurpose → Key → List Block → ℕ → List ObjectId → Outcome Key
  derive_key purpose base_key encrypted_shares threshold key_servers =
      if not (length encrypted_shares == length key_servers)
      then panic
      else ok (
          c.sha3_256 (
            dst_derive_key
            ++ (base_key.items
                ++ (tag purpose
                    ++ (of_ℕ threshold
                        ∷ (concat_bytes encrypted_shares ++ concat_bytes key_servers))))))

  module _ (lib : Primitives) (g : Rng) (rand : g.State → c.Scalar × g.State) where
    -- The encryption of the shares of the base key: the `match` in `seal_encrypt`.
    unfoldable pub encrypt_shares :
        g.State
        → List U8
        → List (ObjectId × U8)
        → List c.g2.Elt
        → ℕ
        → Key
        → List Block
        → ℕ
        → List ObjectId
        → Outcome (IbeEncryptions × g.State)
    encrypt_shares st full_id services pks number_of_shares base_key shares threshold key_servers =
        if not (length pks == number_of_shares)
        then err invalid_input
        else let (randomness, st') = rand st in
          do
            (nonce, encrypted_shares) ←
                encrypt_batched_deterministic c randomness shares pks full_id services
            key ← derive_key encrypted_randomness base_key encrypted_shares threshold key_servers
            encrypted ← encrypt_randomness c randomness key
            ok (
              record {
                nonce = nonce;
                encrypted_shares = encrypted_shares;
                encrypted_randomness = encrypted;
              },
              st',
            )

    unfoldable pub seal_encrypt :
        g.State
        → ObjectId
        → List U8
        → List ObjectId
        → List c.g2.Elt
        → ℕ
        → EncryptionInput
        → Outcome (EncryptedObject × Key × g.State)
    seal_encrypt st package_id id key_servers public_keys threshold encryption_input =
        let number_of_shares = length key_servers % 256 in
        if ltb number_of_shares threshold || threshold == 0
        then err invalid_input
        else let full_id = create_full_id package_id id in
          let (base_key, st1) = generate_random_bytes g 32 st in
          do
            (sharing, st2) ← split g 32 st1 base_key threshold number_of_shares
            let services = zip key_servers sharing.indices
            (ibe, st3) ←
                encrypt_shares st2 full_id services public_keys number_of_shares base_key
                  sharing.shares threshold key_servers
            dem_key ← derive_key dem base_key (ciphertexts ibe) threshold key_servers
            ok (
              record {
                version = 0;
                package_id = package_id;
                id = id;
                services = services;
                threshold = threshold;
                encrypted_shares = ibe;
                ciphertext = Dem.encrypt lib encryption_input dem_key;
              },
              dem_key,
              st3,
            )

  unfoldable pub combine_and_verify_nonce :
      IbeEncryptions → List (U8 × Block) → List (ObjectId × U8) → ℕ → Outcome Key
  combine_and_verify_nonce e shares services threshold = do
    base_key ← combine 32 shares
    randomness_key ←
        derive_key encrypted_randomness base_key e.encrypted_shares threshold
          (map (λ s. s.0) services)
    randomness ← decrypt_randomness c e.encrypted_randomness randomness_key
    checked ← verify_nonce c randomness e.nonce
    ok base_key

  unfoldable pub decrypt_all_shares_and_verify_nonce :
      IbeEncryptions
      → List U8
      → List (ObjectId × U8)
      → List c.g2.Elt
      → Key
      → ℕ
      → Outcome (List (U8 × Block))
  decrypt_all_shares_and_verify_nonce e full_id services public_keys base_key threshold = do
    key ←
        derive_key encrypted_randomness base_key e.encrypted_shares threshold
          (map (λ s. s.0) services)
    randomness ← decrypt_randomness c e.encrypted_randomness key
    checked ← verify_nonce c randomness e.nonce
    if not (length public_keys == length e.encrypted_shares)
        then err invalid_input
        else traverse
            (λ t.
              map_ok (λ plaintext. (t.1.1, plaintext))
                (decrypt_deterministic c randomness t.0.1 t.0.0 full_id t.1))
            (zip (zip public_keys e.encrypted_shares) services)

  -- `any(|(i, share)| polynomial(i) != share)`.
  unfoldable pub any_differs : List Polynomial → List (U8 × Block) → Outcome Bool
  any_differs polynomial [] = ok false
  any_differs polynomial (s ∷ shares) =
      let rest = any_differs polynomial shares in
      do
        value ← evaluate_all 32 polynomial s.0
        if bytes_eq value.items s.1.items then rest else ok true

  unfoldable pub combine_and_check_share_consistency :
      IbeEncryptions
      → List (U8 × Block)
      → List U8
      → List (ObjectId × U8)
      → ℕ
      → List c.g2.Elt
      → Outcome Key
  combine_and_check_share_consistency e shares full_id services threshold public_keys = do
    polynomial ← Tss.interpolate 32 shares
    base_key ← evaluate_all 32 polynomial (of_ℕ 0)
    all_shares ←
        decrypt_all_shares_and_verify_nonce e full_id services public_keys base_key threshold
    inconsistent ← any_differs polynomial all_shares
    if inconsistent then err (general_error "Inconsistent shares") else ok base_key

  -- The share of the service at an index, decrypted with the key of the service.
  unfoldable pub decrypt_share :
      EncryptedObject → (ObjectId → Option c.g1.Elt) → List U8 → ℕ → Outcome (U8 × Block)
  decrypt_share object user_secret_keys full_id i = do
    service ← index object.services i
    encrypted_share ← index object.encrypted_shares.encrypted_shares i
    key ← expect (user_secret_keys service.0)
    share ← Ibe.decrypt c object.encrypted_shares.nonce encrypted_share key full_id service
    ok (service.1, share)

  -- The base key from the shares, checked against the public keys where they are given.
  unfoldable pub combine_shares :
      Option (List c.g2.Elt) → EncryptedObject → List (U8 × Block) → List U8 → Outcome Key
  combine_shares none object shares full_id =
      combine_and_verify_nonce object.encrypted_shares shares object.services object.threshold
  combine_shares (some public_keys) object shares full_id =
      combine_and_check_share_consistency object.encrypted_shares shares full_id object.services
        object.threshold public_keys

  unfoldable pub seal_decrypt :
      Primitives
      → EncryptedObject
      → (ObjectId → Option c.g1.Elt)
      → Option (List c.g2.Elt)
      → Outcome (List U8)
  seal_decrypt lib object user_secret_keys public_keys =
      if not (object.version == 0)
        || not (length object.encrypted_shares.encrypted_shares == length object.services)
      then err invalid_input
      else let full_id = create_full_id object.package_id object.id in
        let service_indices =
          map (λ (t : ℕ × (ObjectId × U8)). t.0)
            (filter (λ (t : ℕ × (ObjectId × U8)). is_some (user_secret_keys t.1.0))
              (enumerate_from 0 object.services)) in
        if ltb (length service_indices) object.threshold then err invalid_input else do
          shares ← traverse (decrypt_share object user_secret_keys full_id) service_indices
          base_key ← combine_shares public_keys object shares full_id
          dem_key ←
              derive_key dem base_key (ciphertexts object.encrypted_shares) object.threshold
                (map (λ s. s.0) object.services)
          Dem.decrypt lib object.ciphertext dem_key
