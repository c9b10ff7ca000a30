-- ===== src/Zklogin.antt =====
-- lib.rs: the helpers for zkLogin. Strings stand as the bytes of their UTF-8 form. Blake2b256,
-- Base64, JSON, BCS and fastcrypto's zkLogin are library code, and enter as parameters.
pub mod Seeds
pub mod Address
pub mod Claims
pub mod Bound
use pysui_crypto.Common.{
  ℕ, zero, suc, ◌+◌, ◌-◌, ◌*◌, ◌/◌, ◌%◌, Bool, true, false, not, List, [], ◌∷◌, ◌++◌, length,
  Option, none, some, if◌then◌else◌, ltb, ◌==◌, Array, drop,
}
use mathlib.Core.Option.{get_or}
use pysui_crypto.Python.{
  PyErr, value_error, runtime_error, PyResult, returned, raised, panicked, ◌>>=◌, ok_or,
}
use pysui_crypto.Dem.{bytes_of}
use pysui_crypto.Byte.{U8, to_ℕ, of_ℕ, eq}

unfoldable pub build_nonce_key : List U8 → List U8
build_nonce_key epk_bytes = of_ℕ 0 ∷ epk_bytes

-- `generate_ephemeral_keypair`: the public key and the private key. Generation of Ed25519 and of
-- secp256r1 key pairs, as the bytes of the public key and of the private key, is library code.
unfoldable pub generate_ephemeral_keypair :
    {R : Type 0}
    → (R → (List U8 × List U8) × R)
    → (R → (List U8 × List U8) × R)
    → R
    → Bool
    → PyResult ((List U8 × List U8) × R)
generate_ephemeral_keypair generate_ed25519 generate_secp256r1 st as_secp256r1 =
    if as_secp256r1 then returned (generate_secp256r1 st) else returned (generate_ed25519 st)

-- `&xs[i..]`, which panics where i is past the end.
unfoldable pub slice_from : List U8 → ℕ → PyResult (List U8)
slice_from xs i = if ltb (length xs) i then panicked else returned (drop i xs)

-- `position(|&b| b != 0)`.
unfoldable pub first_nonzero : List U8 → Option ℕ
first_nonzero [] = none
first_nonzero (b ∷ bs) =
    if not (eq b (of_ℕ 0))
    then some 0
    else (elim (first_nonzero bs) [ none ↦ none | some i ↦ some (suc i) ])

-- `map(|pos| &seed[pos..])`.
unfoldable pub slice_at : List U8 → Option ℕ → PyResult (Option (List U8))
slice_at seed (some pos) = do rest ← slice_from seed pos; returned (some rest)
slice_at seed none = returned none

-- The argument of `unwrap_or`, `&seed[31..]`, is evaluated also where a byte that is not zero was
-- found, and panics there for a seed of less than 31 bytes.
unfoldable pub strip_seed_leading_zeros : List U8 → PyResult (List U8)
strip_seed_leading_zeros seed = do
  found ← slice_at seed (first_nonzero seed)
  last ← slice_from seed 31
  returned (get_or found last)

-- A digit of `{b:02x}`.
unfoldable pub hex_digit : ℕ → U8
hex_digit d = if ltb d 10 then of_ℕ (48 + d) else of_ℕ (87 + d)

-- Each byte as two digits: `map(|b| format!("{b:02x}")).collect()`.
unfoldable pub hex_text : List U8 → List U8
hex_text [] = []
hex_text (b ∷ bs) = hex_digit (to_ℕ b / 16) ∷ hex_digit (to_ℕ b % 16) ∷ hex_text bs

-- `serde_json::Value`, as far as it is looked at. A member that is missing is `null`.
mutual
  pub data Value : Type 0 where
    null : Value
    string : List U8 → Value
    array : Values → Value
    other : Value

  pub data Values : Type 0 where
    empty : Values
    more : Value → Values → Values

-- `as_str`.
unfoldable pub as_str : Value → Option (List U8)
as_str (Value.string s) = some s
as_str _ = none

-- The value of the claim "aud": a string, or the first element of an array.
unfoldable pub audience : Value → Option (List U8)
audience (Value.string s) = some s
audience (Value.array (Values.more v vs)) = as_str v
audience _ = none

-- `splitn(n + 1, '.')`: at most n separators are taken.
unfoldable pub splitn : ℕ → List U8 → List (List U8)
splitn zero s = s ∷ []
splitn (suc n) [] = [] ∷ []
splitn (suc n) (b ∷ bs) =
    if eq b (of_ℕ 46)
    then [] ∷ splitn n bs
    else (elim (splitn (suc n) bs) [ [] ↦ (b ∷ []) ∷ [] | part ∷ parts ↦ (b ∷ part) ∷ parts ])

abbrev claim_iss : List U8
claim_iss = bytes_of "iss"

abbrev claim_sub : List U8
claim_sub = bytes_of "sub"

abbrev claim_aud : List U8
claim_aud = bytes_of "aud"

abbrev claim_nonce : List U8
claim_nonce = bytes_of "nonce"

-- `n` zero bytes.
unfoldable pub zeros : ℕ → List U8
zeros zero = []
zeros (suc n) = of_ℕ 0 ∷ zeros n

-- `result[start..].copy_from_slice(&bytes)` into 32 zero bytes, with `start` the saturating
-- difference. It panics where the lengths differ.
unfoldable pub copy_to_end : List U8 → PyResult (List U8)
copy_to_end bytes =
    let start = 32 - length bytes in
    if not (32 - start == length bytes) then panicked else returned (zeros start ++ bytes)

-- A check that returns a ValueError early.
abbrev pub refuse_if : Bool → PyResult (Unit {0})
refuse_if b = if b then raised value_error else returned tt

-- The library code that is called.
pub record Libraries : Type 1 where
  pub blake2b256 : List U8 → Array U8 32
  -- `Base64UrlUnpadded::decode_vec` and `Base64::encode_string`.
  pub base64_url_decode : List U8 → Option (List U8)
  pub base64_encode : List U8 → List U8
  -- `serde_json::from_slice`, and `payload[name]` for a name of a member.
  pub Json : Type 0
  pub json_from_slice : List U8 → Option Json
  pub member : Json → List U8 → Value
  pub get_nonce : List U8 → ℕ → List U8 → Option (List U8)
  pub gen_address_seed : List U8 → List U8 → List U8 → List U8 → Option (List U8)
  -- `BigUint`: `parse_bytes` with radix 10, `to_bytes_be`, and `from_bytes_be` with
  -- `to_str_radix(10)`.
  pub parse_decimal : List U8 → Option ℕ
  pub to_bytes_be : ℕ → List U8
  pub decimal_of_bytes_be : List U8 → List U8
  -- `ZkLoginInputs::from_json` and BCS.
  pub ZkLoginInputs : Type 0
  pub inputs_from_json : List U8 → List U8 → Option ZkLoginInputs
  pub inputs_to_bytes : ZkLoginInputs → Option (List U8)
  pub u64_to_bytes : ℕ → Option (List U8)
  pub bytes_to_bytes : List U8 → Option (List U8)

module _ (lib : Libraries) where
  -- The updates of the hash are one text.
  unfoldable pub hash_zklogin_address : List U8 → List U8 → Array U8 32
  hash_zklogin_address iss seed_bytes =
      lib.blake2b256 (of_ℕ 5 ∷ (of_ℕ (length iss) ∷ (iss ++ seed_bytes)))

  -- The claims iss, sub, aud and nonce of a payload.
  unfoldable pub read_claims : lib.Json → PyResult (List U8 × List U8 × List U8 × List U8)
  read_claims payload = do
    iss ← ok_or value_error (as_str (lib.member payload claim_iss))
    iss_fits ← refuse_if (ltb 255 (length iss))
    sub ← ok_or value_error (as_str (lib.member payload claim_sub))
    aud ← ok_or value_error (audience (lib.member payload claim_aud))
    nonce ← ok_or value_error (as_str (lib.member payload claim_nonce))
    aud_fits ← refuse_if (ltb 145 (length aud))
    returned (iss, sub, aud, nonce)

  -- `extract_jwt_claims`, of the parts of the token.
  unfoldable pub claims_of_parts : List (List U8) → PyResult (List U8 × List U8 × List U8 × List U8)
  claims_of_parts (header ∷ payload_part ∷ signature ∷ []) = do
    header_fits ← refuse_if (ltb 248 (length header))
    parts_fit ← refuse_if (ltb 1600 (length header + 1 + length payload_part))
    payload_bytes ← ok_or value_error (lib.base64_url_decode payload_part)
    payload ← ok_or value_error (lib.json_from_slice payload_bytes)
    read_claims payload
  claims_of_parts _ = raised value_error

  unfoldable pub extract_jwt_claims : List U8 → PyResult (List U8 × List U8 × List U8 × List U8)
  extract_jwt_claims jwt = claims_of_parts (splitn 3 jwt)

  unfoldable pub compute_nonce : List U8 → ℕ → List U8 → PyResult (List U8)
  compute_nonce epk_bytes max_epoch randomness =
      ok_or value_error (lib.get_nonce (build_nonce_key epk_bytes) max_epoch randomness)

  unfoldable pub compute_address_seed : List U8 → List U8 → List U8 → List U8 → PyResult (List U8)
  compute_address_seed key_claim_name key_claim_value aud user_salt = do
    seed_str ← ok_or value_error (lib.gen_address_seed user_salt key_claim_name key_claim_value aud)
    seed_int ← ok_or runtime_error (lib.parse_decimal seed_str)
    copy_to_end (lib.to_bytes_be seed_int)

  unfoldable pub compute_zklogin_address : List U8 → List U8 → Bool → PyResult (List U8)
  compute_zklogin_address iss address_seed legacy =
      if not (length address_seed == 32) then raised value_error else do
        seed_bytes ←
            (if legacy then returned address_seed else strip_seed_leading_zeros address_seed)
        returned (of_ℕ 48 ∷ (of_ℕ 120 ∷ hex_text (hash_zklogin_address iss seed_bytes).items))

  unfoldable pub build_zklogin_signature : List U8 → List U8 → List U8 → ℕ → PyResult (List U8)
  build_zklogin_signature proof_json ephemeral_sig address_seed max_epoch = do
    inputs ←
        ok_or value_error (lib.inputs_from_json proof_json (lib.decimal_of_bytes_be address_seed))
    inputs_bytes ← ok_or runtime_error (lib.inputs_to_bytes inputs)
    epoch_bytes ← ok_or runtime_error (lib.u64_to_bytes max_epoch)
    sig_bytes ← ok_or runtime_error (lib.bytes_to_bytes ephemeral_sig)
    returned (lib.base64_encode (of_ℕ 5 ∷ (inputs_bytes ++ (epoch_bytes ++ sig_bytes))))
