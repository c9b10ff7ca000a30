-- ===== src/Byte/Xor.antt =====
-- The laws of `^` on bytes, from those on bits.
use pysui_crypto.Common.{◌≡◌, Bool, false, arith}
use mathlib.Core.Bool.{xor}
use pysui_crypto.Byte.{U8, ◌^^◌, of_ℕ}

xor_comm : (a b : Bool) → xor a b ≡ xor b a
unfolding xor
xor_comm a b = ground arith

xor_assoc : (a b c : Bool) → xor (xor a b) c ≡ xor a (xor b c)
unfolding xor
xor_assoc a b c = ground arith

xor_self : (a : Bool) → xor a a ≡ false
unfolding xor
xor_self a = ground arith

xor-false : (a : Bool) → xor a false ≡ a
unfolding xor
xor-false a = ground arith

pub U8_ext :
    (a b : U8)
    → a.b7 ≡ b.b7
    → a.b6 ≡ b.b6
    → a.b5 ≡ b.b5
    → a.b4 ≡ b.b4
    → a.b3 ≡ b.b3
    → a.b2 ≡ b.b2
    → a.b1 ≡ b.b1
    → a.b0 ≡ b.b0
    → a ≡ b
U8_ext a b h7 h6 h5 h4 h3 h2 h1 h0 i = record {
  b7 = h7 i;
  b6 = h6 i;
  b5 = h5 i;
  b4 = h4 i;
  b3 = h3 i;
  b2 = h2 i;
  b1 = h1 i;
  b0 = h0 i;
}

pub ^^_comm : (a b : U8) → a ^^ b ≡ b ^^ a
unfolding ◌^^◌
^^_comm a b =
    U8_ext _ _ (xor_comm _ _) (xor_comm _ _) (xor_comm _ _) (xor_comm _ _) (xor_comm _ _)
      (xor_comm _ _) (xor_comm _ _) (xor_comm _ _)

pub ^^_assoc : (a b c : U8) → (a ^^ b) ^^ c ≡ a ^^ (b ^^ c)
unfolding ◌^^◌
^^_assoc a b c =
    U8_ext _ _ (xor_assoc _ _ _) (xor_assoc _ _ _) (xor_assoc _ _ _) (xor_assoc _ _ _)
      (xor_assoc _ _ _) (xor_assoc _ _ _) (xor_assoc _ _ _) (xor_assoc _ _ _)

pub ^^_self : (a : U8) → a ^^ a ≡ of_ℕ 0
unfolding ◌^^◌ of_ℕ
^^_self a =
    U8_ext _ _ (xor_self _) (xor_self _) (xor_self _) (xor_self _) (xor_self _) (xor_self _)
      (xor_self _) (xor_self _)

pub ^^-zero : (a : U8) → a ^^ of_ℕ 0 ≡ a
unfolding ◌^^◌ of_ℕ
^^-zero a =
    U8_ext _ _ (xor-false _) (xor-false _) (xor-false _) (xor-false _) (xor-false _) (xor-false _)
      (xor-false _) (xor-false _)
