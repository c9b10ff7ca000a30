-- ===== src/Zklogin/Address.antt =====
-- The text of an address.
use pysui_crypto.Common.{
  ℕ, ◌*◌, ◌/◌, ◌%◌, ◌≡◌, refl, ◌⊎◌, inl, inr, Bool, true, false, ◌&&◌, List, [], ◌∷◌, length,
  if◌then◌else◌, ◌==◌, arith,
}
use pysui_crypto.Python.{value_error, returned, raised}
use pysui_crypto.Byte.{U8, to_ℕ, of_ℕ, eq}
use pysui_crypto.Byte.Every.{every_bit, every_byte, every_byte_sound}
use pysui_crypto.Bindings.Message.{
  is_ascii_hexdigit, all_hexdigits, starts_with_0x, validate_package_id,
}
use pysui_crypto.Zklogin.{
  strip_seed_leading_zeros, hex_digit, hex_text, Libraries, hash_zklogin_address,
  compute_zklogin_address,
}
use pysui_crypto.Zklogin.Seeds.{copy_to_end-strip_seed_leading_zeros}

length-hex_text : (bs : List U8) → length (hex_text bs) ≡ 2 * length bs
unfolding hex_text
length-hex_text [] = refl
length-hex_text (b ∷ bs) = omega (arith, length-hex_text bs)

digits_ok : U8 → Bool
digits_ok b =
    is_ascii_hexdigit (hex_digit (to_ℕ b / 16)) && is_ascii_hexdigit (hex_digit (to_ℕ b % 16))

every_digits_ok : every_byte digits_ok ≡ true
unfolding every_byte every_bit digits_ok is_ascii_hexdigit hex_digit to_ℕ of_ℕ
every_digits_ok = refl

all_hexdigits-hex_text : (bs : List U8) → all_hexdigits (hex_text bs) ≡ true
unfolding all_hexdigits hex_text
all_hexdigits-hex_text [] = refl
all_hexdigits-hex_text (b ∷ bs) =
    joined (is_ascii_hexdigit (hex_digit (to_ℕ b / 16)))
      (is_ascii_hexdigit (hex_digit (to_ℕ b % 16))) (all_hexdigits (hex_text bs))
      (unfold digits_ok in every_byte_sound digits_ok every_digits_ok b) (all_hexdigits-hex_text bs)
  where
    joined : (x y z : Bool) → (x && y) ≡ true → z ≡ true → (x && (y && z)) ≡ true
    joined x y z h k = ground arith

valid :
    (bs : List U8)
    → length bs ≡ 64
    → all_hexdigits bs ≡ true
    → validate_package_id (of_ℕ 48 ∷ (of_ℕ 120 ∷ bs)) ≡ returned tt
unfolding validate_package_id starts_with_0x eq of_ℕ
valid bs size hex = rw (size, hex) refl

-- The bytes that are hashed.
hashed :
    (seed : List U8) (legacy : Bool)
    → length seed ≡ 32
    → (s : List U8) × ((if legacy then returned seed else strip_seed_leading_zeros seed)
        ≡ returned s)
hashed seed true size = (seed, refl)
hashed seed false size = let (s, e, _, _) = copy_to_end-strip_seed_leading_zeros seed size in (s, e)

same_or_other : (n : ℕ) → ((n ≡ 32) × ((n == 32) ≡ true)) ⊎ (¬ (n ≡ 32) × ((n == 32) ≡ false))
same_or_other n = ground arith

-- A seed that is not of 32 bytes is a ValueError. From one of 32 bytes `compute_zklogin_address`
-- returns an address in each mode, without a panic: 66 characters that `validate_package_id`
-- accepts.
pub compute_zklogin_address_lem :
    (lib : Libraries) (iss seed : List U8) (legacy : Bool)
    → ((length seed ≡ 32)
        × (address : List U8) × (compute_zklogin_address lib iss seed legacy ≡ returned address)
        × (length address ≡ 66)
        × (validate_package_id address ≡ returned tt))
      ⊎ (¬ (length seed ≡ 32) × (compute_zklogin_address lib iss seed legacy ≡ raised value_error))
unfolding compute_zklogin_address
compute_zklogin_address_lem lib iss seed legacy = elim (same_or_other (length seed)) [
  | inl (size, same) ↦
      let (s, e) = hashed seed legacy size in
      let digest = hash_zklogin_address lib iss s in
      let count = length-hex_text digest.items in
      inl (
        size,
        of_ℕ 48 ∷ (of_ℕ 120 ∷ hex_text digest.items),
        rw (same, e) refl,
        omega (arith, count, digest.size),
        valid (hex_text digest.items) (omega (arith, count, digest.size))
            (all_hexdigits-hex_text digest.items),
      )
  | inr (other, differs) ↦ inr (other, rw differs refl)
]
