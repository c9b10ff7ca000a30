-- ===== src/Byte/Every.antt =====
-- A test that holds at all 256 bytes holds at each.
use pysui_crypto.Common.{◌≡◌, Bool, true, false, ◌&&◌, arith}
use pysui_crypto.Byte.{U8}

unfoldable pub every_bit : (Bool → Bool) → Bool
every_bit p = p true && p false

every_bit_sound : (p : Bool → Bool) → every_bit p ≡ true → (b : Bool) → p b ≡ true
unfolding every_bit
every_bit_sound p h true = ground arith
every_bit_sound p h false = ground arith

module _ (p : U8 → Bool) where
  abbrev from_bit_0 : Bool → Bool → Bool → Bool → Bool → Bool → Bool → Bool
  from_bit_0 b7 b6 b5 b4 b3 b2 b1 =
      every_bit
        λ b0. p (record { b7 = b7; b6 = b6; b5 = b5; b4 = b4; b3 = b3; b2 = b2; b1 = b1; b0 = b0 })

  abbrev from_bit_1 : Bool → Bool → Bool → Bool → Bool → Bool → Bool
  from_bit_1 b7 b6 b5 b4 b3 b2 = every_bit λ b1. from_bit_0 b7 b6 b5 b4 b3 b2 b1

  abbrev from_bit_2 : Bool → Bool → Bool → Bool → Bool → Bool
  from_bit_2 b7 b6 b5 b4 b3 = every_bit λ b2. from_bit_1 b7 b6 b5 b4 b3 b2

  abbrev from_bit_3 : Bool → Bool → Bool → Bool → Bool
  from_bit_3 b7 b6 b5 b4 = every_bit λ b3. from_bit_2 b7 b6 b5 b4 b3

  abbrev from_bit_4 : Bool → Bool → Bool → Bool
  from_bit_4 b7 b6 b5 = every_bit λ b4. from_bit_3 b7 b6 b5 b4

  abbrev from_bit_5 : Bool → Bool → Bool
  from_bit_5 b7 b6 = every_bit λ b5. from_bit_4 b7 b6 b5

  abbrev from_bit_6 : Bool → Bool
  from_bit_6 b7 = every_bit λ b6. from_bit_5 b7 b6

  abbrev from_bit_7 : Bool
  from_bit_7 = every_bit λ b7. from_bit_6 b7

  unfoldable pub every_byte : Bool
  every_byte = from_bit_7

  pub every_byte_sound : every_byte ≡ true → (a : U8) → p a ≡ true
  unfolding every_byte
  every_byte_sound h a =
      let h7 = every_bit_sound (λ b. from_bit_6 b) h a.b7 in
      let h6 = every_bit_sound (λ b. from_bit_5 a.b7 b) h7 a.b6 in
      let h5 = every_bit_sound (λ b. from_bit_4 a.b7 a.b6 b) h6 a.b5 in
      let h4 = every_bit_sound (λ b. from_bit_3 a.b7 a.b6 a.b5 b) h5 a.b4 in
      let h3 = every_bit_sound (λ b. from_bit_2 a.b7 a.b6 a.b5 a.b4 b) h4 a.b3 in
      let h2 = every_bit_sound (λ b. from_bit_1 a.b7 a.b6 a.b5 a.b4 a.b3 b) h3 a.b2 in
      let h1 = every_bit_sound (λ b. from_bit_0 a.b7 a.b6 a.b5 a.b4 a.b3 a.b2 b) h2 a.b1 in
      every_bit_sound
        (λ b. p (record {
          b7 = a.b7;
          b6 = a.b6;
          b5 = a.b5;
          b4 = a.b4;
          b3 = a.b3;
          b2 = a.b2;
          b1 = a.b1;
          b0 = b;
        }))
        h1 a.b0
