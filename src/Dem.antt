-- ===== src/Dem.antt =====
-- seal/dem.rs: the two symmetric modes that encrypt the payload, and the choice between them.
-- AES-256-GCM, HMAC-SHA3-256 and BCS are library code, and enter as parameters.
pub mod Ctr
pub mod Stream
pub mod Exact
pub mod RoundTrip
pub mod Bound
use pysui_crypto.Common.{
  ℕ, zero, suc, ◌-◌, Bool, true, false, not, ◌&&◌, List, [], ◌∷◌, ◌++◌, map, length, Option, none,
  some, Outcome, ok, err, general_error, if◌then◌else◌, Array, take, drop,
}
use Prim.Native.Char.{code}
use Prim.Native.String.{String}
use Prim.Native.String
use pysui_crypto.Byte.{U8, of_ℕ, eq}
use pysui_crypto.Utils.{xor_unchecked}

abbrev pub Key : Type 0
Key = Array U8 32

-- The library code that the module calls.
pub record Primitives : Type 0 where
  -- AES-256-GCM: the key, the initialization vector, the associated data and the text.
  pub aes_encrypt : Key → List U8 → List U8 → List U8 → List U8
  pub aes_decrypt : Key → List U8 → List U8 → List U8 → Outcome (List U8)
  pub hmac_sha3_256 : Key → List U8 → Array U8 32
  -- BCS of a u64.
  pub u64_bytes : ℕ → List U8

pub data Purpose : Type 0 where
  encryption mac : Purpose

abbrev pub bytes_of : String → List U8
bytes_of String.[] = []
bytes_of (String.◌∷◌ c s) = of_ℕ (code c) ∷ bytes_of s

-- `Purpose::tag`.
unfoldable pub tag : Purpose → List U8
tag encryption = bytes_of "HMAC-CTR-ENC"
tag mac = bytes_of "HMAC-CTR-MAC"

-- `Aes256Gcm::IV`.
unfoldable pub iv : List U8
iv =
    map of_ℕ (
      138 ∷ 55 ∷ 153 ∷ 253 ∷ 198 ∷ 46 ∷ 121 ∷ 219 ∷ 160 ∷ 128 ∷ 89 ∷ 7 ∷ 214 ∷ 156 ∷ 148 ∷ 220 ∷ [])

-- `slice.chunks(n)`; the fuel is the length of the slice.
unfoldable pub chunks_within : ℕ → ℕ → List U8 → List (List U8)
chunks_within zero n xs = []
chunks_within (suc f) n [] = []
chunks_within (suc f) n (x ∷ xs) = take n (x ∷ xs) ∷ chunks_within f n (drop n (x ∷ xs))

unfoldable pub chunks : ℕ → List U8 → List (List U8)
chunks n xs = chunks_within (length xs) n xs

-- `a == b` on slices.
unfoldable pub bytes_eq : List U8 → List U8 → Bool
bytes_eq [] [] = true
bytes_eq [] (b ∷ bs) = false
bytes_eq (a ∷ as') [] = false
bytes_eq (a ∷ as') (b ∷ bs) = eq a b && bytes_eq as' bs

-- The two enums of seal/core.rs that this module matches on.
pub data EncryptionInput : Type 0 where
  aes256_gcm : List U8 → Option (List U8) → EncryptionInput
  hmac256_ctr : List U8 → Option (List U8) → EncryptionInput
  plain : EncryptionInput

pub data Ciphertext : Type 0 where
  aes256_gcm : List U8 → Option (List U8) → Ciphertext
  hmac256_ctr : List U8 → Option (List U8) → Array U8 32 → Ciphertext
  plain : Ciphertext

-- `aad.as_ref().unwrap_or(&vec![])`.
abbrev pub aad_or_empty : Option (List U8) → List U8
aad_or_empty none = []
aad_or_empty (some aad) = aad

module _ (lib : Primitives) where
  unfoldable pub hmac : Purpose → Key → List U8 → Array U8 32
  hmac purpose key text = lib.hmac_sha3_256 key (tag purpose ++ text)

  -- The block of the key stream at index i.
  unfoldable pub stream_block : Key → ℕ → List U8
  stream_block key i = (hmac encryption key (lib.u64_bytes i)).items

  -- The chunks of the message from index i on, each against its block of the key stream.
  unfoldable pub encrypt_chunks : Key → ℕ → List (List U8) → List U8
  encrypt_chunks key i [] = []
  encrypt_chunks key i (c ∷ cs) =
      xor_unchecked c (stream_block key i) ++ encrypt_chunks key (suc i) cs

  unfoldable pub encrypt_in_ctr_mode : Key → List U8 → List U8
  encrypt_in_ctr_mode key msg = encrypt_chunks key 0 (chunks 32 msg)

  unfoldable pub compute_mac : Key → List U8 → List U8 → Array U8 32
  compute_mac key aad ciphertext = hmac mac key (lib.u64_bytes (length aad) ++ (aad ++ ciphertext))

  -- `Hmac256Ctr`.
  unfoldable pub hmac_encrypt : List U8 → List U8 → Key → List U8 × Array U8 32
  hmac_encrypt msg aad key =
      let ciphertext = encrypt_in_ctr_mode key msg in (ciphertext, compute_mac key aad ciphertext)

  unfoldable pub hmac_decrypt : List U8 → Array U8 32 → List U8 → Key → Outcome (List U8)
  hmac_decrypt ciphertext tag' aad key =
      let actual_mac = compute_mac key aad ciphertext in
      if not (bytes_eq tag'.items actual_mac.items)
      then err (general_error "Invalid MAC")
      else ok (encrypt_in_ctr_mode key ciphertext)

  -- `Aes256Gcm`.
  unfoldable pub aes_gcm_encrypt : List U8 → List U8 → Key → List U8
  aes_gcm_encrypt msg aad key = lib.aes_encrypt key iv aad msg

  unfoldable pub aes_gcm_decrypt : List U8 → List U8 → Key → Outcome (List U8)
  aes_gcm_decrypt ciphertext aad key = lib.aes_decrypt key iv aad ciphertext

  -- `EncryptionInput::encrypt`.
  unfoldable pub encrypt : EncryptionInput → Key → Ciphertext
  encrypt (aes256_gcm text aad) key =
      Ciphertext.aes256_gcm (aes_gcm_encrypt text (aad_or_empty aad) key) aad
  encrypt (hmac256_ctr text aad) key =
      let (blob, tag') = hmac_encrypt text (aad_or_empty aad) key in
      Ciphertext.hmac256_ctr blob aad tag'
  encrypt plain key = Ciphertext.plain

  -- `Ciphertext::decrypt`.
  unfoldable pub decrypt : Ciphertext → Key → Outcome (List U8)
  decrypt (aes256_gcm blob aad) key = aes_gcm_decrypt blob (aad_or_empty aad) key
  decrypt (hmac256_ctr blob aad tag') key = hmac_decrypt blob tag' (aad_or_empty aad) key
  decrypt plain key = ok key.items
