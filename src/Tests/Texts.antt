-- ===== src/Tests/Texts.antt =====
-- The functions on texts at concrete inputs.
use pysui_crypto.Common.{
  ℕ, ◌+◌, ◌-◌, ◌≤◌, ◌<◌, ◌≡◌, ◌↔◌, ◌⊎◌, refl, false, List, [], ◌∷◌, ◌++◌, map, length, some, arith,
}
use pysui_crypto.Python.{returned, raised, panicked, value_error}
use pysui_crypto.Byte.{U8, of_ℕ, eq}
use pysui_crypto.Dem.{bytes_of}
use pysui_crypto.Ibe.{ObjectId}
use pysui_crypto.ObjectText.{Hex, without_prefix, from_str, fmt, from_str-fmt}
use pysui_crypto.Bindings.Message.{
  comma, contains_byte, starts_with_0x, validate_package_id, Texts, message, seal_signed_message,
}
use pysui_crypto.Bindings.Signed.{seal_signed_message-binds_key}
use pysui_crypto.Zklogin.{
  slice_at, slice_from, first_nonzero, Value, Libraries, as_str, audience, splitn, read_claims,
  claims_of_parts, zeros, strip_seed_leading_zeros, compute_address_seed, hash_zklogin_address,
  hex_text, compute_zklogin_address, extract_jwt_claims,
}
use pysui_crypto.Zklogin.Seeds.{strip_seed_leading_zeros_cases, compute_address_seed_lem}
use pysui_crypto.Zklogin.Address.{compute_zklogin_address_lem}
use pysui_crypto.Zklogin.Bound.{seed_bytes, address_text, compute_zklogin_address-binds}
use pysui_crypto.Zklogin.Claims.{IsBounded, extract_jwt_claims-IsBounded}
use pysui_crypto.Tests.Toy.{filled}

abbrev name : List U8
name = bytes_of "@app"

name_accepted : validate_package_id name ≡ returned tt
unfolding validate_package_id starts_with_0x contains_byte eq of_ℕ
name_accepted = refl

abbrev texts : Texts
texts = record {
  PublicKey = List U8;
  public_key_from_bytes = some;
  public_key_text = λ k. k;
  DateTime = ℕ;
  from_timestamp = some;
  date_text = λ t. of_ℕ 48 ∷ [];
}

no_comma : (t : ℕ) → contains_byte comma (texts.date_text t) ≡ false
unfolding contains_byte eq of_ℕ
no_comma t = refl

signed : (m : List U8) × (seal_signed_message texts name (of_ℕ 1 ∷ []) 5000 10 ≡ returned m)
unfolding seal_signed_message
signed = (message texts name 10 5 (of_ℕ 1 ∷ []), rw name_accepted refl)

seal_signed_message-binds_key_example :
    texts.public_key_from_bytes (of_ℕ 1 ∷ []) ≡ texts.public_key_from_bytes (of_ℕ 1 ∷ [])
seal_signed_message-binds_key_example =
    seal_signed_message-binds_key texts no_comma (λ k k' e. e) name name (of_ℕ 1 ∷ []) (of_ℕ 1 ∷ [])
      5000 5000 10 10 signed.0 signed.1 signed.1

abbrev pub seed : List U8
seed = (filled 32 (λ k. of_ℕ (k - 28))).items

-- Every claim is "a".
abbrev libraries : Libraries
libraries = record {
  blake2b256 = λ bs. filled 32 (λ k. of_ℕ (length bs + k));
  base64_url_decode = some;
  base64_encode = λ bs. bs;
  Json = List U8;
  json_from_slice = some;
  member = λ j claim. Value.string (of_ℕ 97 ∷ []);
  get_nonce = λ key epoch randomness. some randomness;
  gen_address_seed = λ salt claim value aud. some (bytes_of "7");
  parse_decimal = λ text. some 7;
  to_bytes_be = λ n. of_ℕ n ∷ [];
  decimal_of_bytes_be = λ bs. bs;
  ZkLoginInputs = List U8;
  inputs_from_json = λ proof address_seed. some proof;
  inputs_to_bytes = some;
  u64_to_bytes = λ n. some (of_ℕ n ∷ []);
  bytes_to_bytes = some;
}

compute_address_seed_lem_example :
    ((s : List U8) × (compute_address_seed libraries name name name name ≡ returned s)
      × (length s ≡ 32)
      × (s ≡ zeros (32 - length (libraries.to_bytes_be 7)) ++ libraries.to_bytes_be 7))
    ⊎ ((32 < length (libraries.to_bytes_be 7))
        × (compute_address_seed libraries name name name name ≡ panicked))
compute_address_seed_lem_example =
    compute_address_seed_lem libraries name name name name (bytes_of "7") 7 refl refl

compute_zklogin_address_lem_example :
    ((length seed ≡ 32)
      × (address : List U8) × (compute_zklogin_address libraries name seed false ≡ returned address)
      × (length address ≡ 66)
      × (validate_package_id address ≡ returned tt))
    ⊎ (¬ (length seed ≡ 32)
        × (compute_zklogin_address libraries name seed false ≡ raised value_error))
compute_zklogin_address_lem_example = compute_zklogin_address_lem libraries name seed false

abbrev other_name : List U8
other_name = bytes_of "@apq"

abbrev toy_address : List U8
toy_address = of_ℕ 48 ∷ (of_ℕ 120 ∷ hex_text (filled 32 (λ k. of_ℕ (9 + k))).items)

-- The toy hash is that of the length, so that another issuer has the same address.
addressed :
    (compute_zklogin_address libraries name seed false ≡ returned toy_address)
    × (compute_zklogin_address libraries other_name seed false ≡ returned toy_address)
unfolding compute_zklogin_address strip_seed_leading_zeros slice_at slice_from first_nonzero eq of_ℕ
    hash_zklogin_address
addressed = (refl, refl)

compute_zklogin_address-binds_example :
    ((name ≡ other_name) × (seed ≡ seed))
    ⊎ ((s s' : List U8) × (seed_bytes false seed ≡ returned s)
        × (seed_bytes false seed ≡ returned s')
        × ¬ (address_text name s ≡ address_text other_name s')
        × (libraries.blake2b256 (address_text name s)
            ≡ libraries.blake2b256 (address_text other_name s')))
compute_zklogin_address-binds_example =
    compute_zklogin_address-binds libraries name other_name seed seed false false toy_address
      (omega arith) (omega arith) addressed.0 addressed.1

abbrev jwt : List U8
jwt = bytes_of "h.p.s"

abbrev claim : List U8
claim = of_ℕ 97 ∷ []

jwt_accepted : extract_jwt_claims libraries jwt ≡ returned (claim, claim, claim, claim)
unfolding extract_jwt_claims claims_of_parts read_claims splitn eq of_ℕ as_str audience
jwt_accepted = refl

extract_jwt_claims-IsBounded_example : IsBounded jwt claim claim
extract_jwt_claims-IsBounded_example =
    extract_jwt_claims-IsBounded libraries jwt claim claim claim claim jwt_accepted

-- In the place of hexadecimal digits, the bytes themselves.
abbrev hex : Hex
hex = record { encode = λ bs. bs; decode = some }

abbrev id : ObjectId
id = filled 32 of_ℕ

from_str-fmt_example :
    ((s : List U8) → (from_str hex s ≡ some id) ↔ (hex.decode (without_prefix s) ≡ some id.items))
    × (from_str hex (fmt hex id) ≡ some id)
from_str-fmt_example = from_str-fmt hex (λ bs. refl) id

strip_seed_leading_zeros_cases_example :
    ((length seed < 31) × (strip_seed_leading_zeros seed ≡ panicked))
    ⊎ (((k : ℕ) × (b : U8) × (rest : List U8) × (31 ≤ length seed)
          × ¬ (b ≡ of_ℕ 0)
          × (seed ≡ zeros k ++ (b ∷ rest))
          × (strip_seed_leading_zeros seed ≡ returned (b ∷ rest)))
        ⊎ ((31 ≤ length seed)
            × (seed ≡ zeros (length seed))
            × (strip_seed_leading_zeros seed ≡ returned (zeros (length seed - 31)))))
strip_seed_leading_zeros_cases_example = strip_seed_leading_zeros_cases seed

-- A byte that is not zero in a seed that is too short for `&seed[31..]`.
strip_panics : strip_seed_leading_zeros (map of_ℕ (0 ∷ 1 ∷ [])) ≡ panicked
unfolding strip_seed_leading_zeros slice_at slice_from first_nonzero eq of_ℕ
strip_panics = refl

-- From the tests of lib.rs.
strip_all_zero : strip_seed_leading_zeros (zeros 32) ≡ returned (of_ℕ 0 ∷ [])
unfolding strip_seed_leading_zeros slice_at slice_from first_nonzero zeros eq of_ℕ
strip_all_zero = refl

strip_leading_zeros :
    strip_seed_leading_zeros (zeros 28 ++ map of_ℕ (1 ∷ 2 ∷ 3 ∷ 4 ∷ []))
    ≡ returned (map of_ℕ (1 ∷ 2 ∷ 3 ∷ 4 ∷ []))
unfolding strip_seed_leading_zeros slice_at slice_from first_nonzero zeros eq of_ℕ
strip_leading_zeros = refl

-- A package id without a prefix is not looked at beyond its commas.
empty_accepted : validate_package_id [] ≡ returned tt
unfolding validate_package_id starts_with_0x contains_byte
empty_accepted = refl
