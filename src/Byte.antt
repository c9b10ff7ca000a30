-- ===== src/Byte.antt =====
-- `u8`, the byte that the field elements, the shares and the ciphertexts are made of: its eight
-- bits, so that `^` is bit by bit. `to_ℕ` is its number, and `of_ℕ` the cast `as u8`, which wraps.
pub mod Xor
pub mod Numbers
pub mod Every
use pysui_crypto.Common.{ℕ, ◌+◌, ◌*◌, ◌/◌, ◌%◌, ◌==◌, Bool, true, false, ◌&&◌, if◌then◌else◌}
use mathlib.Core.Bool.{xor}

pub record U8 : Type 0 where
  pub b7 : Bool
  pub b6 : Bool
  pub b5 : Bool
  pub b4 : Bool
  pub b3 : Bool
  pub b2 : Bool
  pub b1 : Bool
  pub b0 : Bool

abbrev pub bit : Bool → ℕ
bit true = 1
bit false = 0

unfoldable pub to_ℕ : U8 → ℕ
to_ℕ a =
    bit a.b0
    + 2
      * (bit a.b1
          + 2
            * (bit a.b2
                + 2 * (bit a.b3 + 2 * (bit a.b4 + 2 * (bit a.b5 + 2 * (bit a.b6 + 2 * bit a.b7))))))

unfoldable pub of_ℕ : ℕ → U8
of_ℕ n = record {
  b7 = n / 128 % 2 == 1;
  b6 = n / 64 % 2 == 1;
  b5 = n / 32 % 2 == 1;
  b4 = n / 16 % 2 == 1;
  b3 = n / 8 % 2 == 1;
  b2 = n / 4 % 2 == 1;
  b1 = n / 2 % 2 == 1;
  b0 = n % 2 == 1;
}

-- `a ^ b`.
infixl 65 ◌^^◌
unfoldable pub ◌^^◌ : U8 → U8 → U8
unfolding xor
a ^^ b = record {
  b7 = xor a.b7 b.b7;
  b6 = xor a.b6 b.b6;
  b5 = xor a.b5 b.b5;
  b4 = xor a.b4 b.b4;
  b3 = xor a.b3 b.b3;
  b2 = xor a.b2 b.b2;
  b1 = xor a.b1 b.b1;
  b0 = xor a.b0 b.b0;
}

abbrev pub bit_eq : Bool → Bool → Bool
bit_eq true b = b
bit_eq false b = if b then false else true

-- `a == b`.
unfoldable pub eq : U8 → U8 → Bool
eq a b =
    bit_eq a.b7 b.b7
    && bit_eq a.b6 b.b6
    && bit_eq a.b5 b.b5
    && bit_eq a.b4 b.b4
    && bit_eq a.b3 b.b3
    && bit_eq a.b2 b.b2
    && bit_eq a.b1 b.b1
    && bit_eq a.b0 b.b0
