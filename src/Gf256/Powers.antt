-- ===== src/Gf256/Powers.antt =====
-- The tables against the arithmetic that they stand for. Bytes are polynomials over F₂ modulo
-- x⁸ + x⁴ + x³ + x + 1; the generator 0x03 is x + 1, and a step up the table multiplies by it.
use pysui_crypto.Common.{
  ℕ, zero, suc, ◌+◌, ◌%◌, ◌<◌, ◌≡◌, refl, sym, ap, ◌∙◌, Bool, true, false, ◌||◌, arith, ltb, not,
  count_holds, count_holds-at,
}
use mathlib.Core.Bool.{xor}
use pysui_crypto.Byte.{U8, to_ℕ, of_ℕ, ◌^^◌, eq}
use pysui_crypto.Byte.Xor.{U8_ext, ^^_comm, ^^_assoc, ^^_self}
use pysui_crypto.Byte.Numbers.{eq_iff}
use pysui_crypto.Byte.Every.{every_bit, every_byte, every_byte_sound}
use pysui_crypto.Gf256.Tables.{exp_table, log_table}
use pysui_crypto.Gf256.{Gf256, from_u8, log_entry, exp}

-- Multiplication by x: the bits move up, and x⁸ is x⁴ + x³ + x + 1.
unfoldable pub times_x : U8 → U8
unfolding xor
times_x a = record {
  b7 = a.b6;
  b6 = a.b5;
  b5 = a.b4;
  b4 = xor a.b3 a.b7;
  b3 = xor a.b2 a.b7;
  b2 = a.b1;
  b1 = xor a.b0 a.b7;
  b0 = a.b7;
}

-- Multiplication by the generator x + 1.
unfoldable pub times_generator : U8 → U8
unfolding times_x
times_generator a = a ^^ times_x a

xor_interchange : (a b c d : Bool) → xor (xor a b) (xor c d) ≡ xor (xor a c) (xor b d)
unfolding xor
xor_interchange a b c d = ground arith

pub times_x-^^ : (a b : U8) → times_x (a ^^ b) ≡ times_x a ^^ times_x b
unfolding times_x ◌^^◌
times_x-^^ a b =
    U8_ext _ _ refl refl refl (xor_interchange _ _ _ _) (xor_interchange _ _ _ _) refl
      (xor_interchange _ _ _ _) refl

pub ^^_interchange : (a b c d : U8) → (a ^^ b) ^^ (c ^^ d) ≡ (a ^^ c) ^^ (b ^^ d)
^^_interchange a b c d =
    ^^_assoc a b (c ^^ d)
    ∙ ap (◌^^◌ a) (sym (^^_assoc b c d) ∙ ap (λ t. t ^^ d) (^^_comm b c) ∙ ^^_assoc c b d)
    ∙ sym (^^_assoc a c (b ^^ d))

pub times_generator-^^ :
    (a b : U8) → times_generator (a ^^ b) ≡ times_generator a ^^ times_generator b
unfolding times_generator
times_generator-^^ a b = rw (times_x-^^ a b) (^^_interchange a b (times_x a) (times_x b))

pub times_x-generator : (a : U8) → times_x (times_generator a) ≡ times_generator (times_x a)
unfolding times_generator
times_x-generator a = times_x-^^ a (times_x a)

exp_steps_table :
    count_holds (λ n. eq (exp (suc n)).byte (times_generator (exp n).byte)) 0 255 ≡ true
unfolding count_holds exp exp_table of_ℕ eq times_generator ◌^^◌
exp_steps_table = refl

log_table_inverts :
    every_byte (λ a. eq a (of_ℕ 0) || eq (exp (log_entry (from_u8 a))).byte a) ≡ true
unfolding every_byte every_bit exp exp_table log_entry log_table of_ℕ to_ℕ eq
log_table_inverts = refl

log_table_small : every_byte (λ a. ltb (log_entry (from_u8 a)) 255) ≡ true
unfolding every_byte every_bit log_entry log_table to_ℕ
log_table_small = refl

exp_table_nonzero : count_holds (λ n. not (eq (exp n).byte (of_ℕ 0))) 0 255 ≡ true
unfolding count_holds exp exp_table of_ℕ eq
exp_table_nonzero = refl

exp_mod : (m n : ℕ) → m % 255 ≡ n % 255 → exp m ≡ exp n
unfolding exp
exp_mod m n e = rw e

-- A step up the table is a multiplication by the generator, also where the index wraps.
pub exp-suc : (n : ℕ) → (exp (suc n)).byte ≡ times_generator (exp n).byte
exp-suc n =
    ap (λ e. e.byte) (exp_mod (suc n) (suc (n % 255)) (omega arith))
    ∙ (eq_iff _ _).0 (count_holds-at _ 0 255 exp_steps_table (n % 255) (omega arith) (omega arith))
    ∙ ap (λ e. times_generator e.byte) (exp_mod (n % 255) n (omega arith))

-- `n` multiplications by the generator.
unfoldable pub times_power : ℕ → U8 → U8
times_power zero a = a
times_power (suc n) a = times_generator (times_power n a)

pub times_power-exp : (m n : ℕ) → times_power m (exp n).byte ≡ (exp (m + n)).byte
unfolding times_power
times_power-exp zero n = ap (λ k. (exp k).byte) {x = n} (omega arith)
times_power-exp (suc m) n =
    ap times_generator (times_power-exp m n)
    ∙ sym (exp-suc (m + n))
    ∙ ap (λ k. (exp k).byte) {x = suc (m + n)} (omega arith)

pub times_power-^^ :
    (n : ℕ) (a b : U8) → times_power n (a ^^ b) ≡ times_power n a ^^ times_power n b
unfolding times_power
times_power-^^ zero a b = refl
times_power-^^ (suc n) a b = rw (times_power-^^ n a b) (times_generator-^^ _ _)

pub times_power-times_x : (n : ℕ) (a : U8) → times_power n (times_x a) ≡ times_x (times_power n a)
unfolding times_power
times_power-times_x zero a = refl
times_power-times_x (suc n) a =
    rw (times_power-times_x n a) (sym (times_x-generator (times_power n a)))

-- A map that respects `^` fixes zero.
pub times_power-zero : (n : ℕ) → times_power n (of_ℕ 0) ≡ of_ℕ 0
times_power-zero n =
    ap (times_power n) (sym (^^_self (of_ℕ 0)))
    ∙ times_power-^^ n (of_ℕ 0) (of_ℕ 0)
    ∙ ^^_self (times_power n (of_ℕ 0))

pub exp-log_entry : (a : U8) → eq a (of_ℕ 0) ≡ false → exp (log_entry (from_u8 a)) ≡ from_u8 a
exp-log_entry a h =
    ap from_u8 ((eq_iff _ _).0 (right_of_or _ _ h (every_byte_sound _ log_table_inverts a)))
  where
    right_of_or : (p q : Bool) → p ≡ false → (p || q) ≡ true → q ≡ true
    right_of_or p q e t = ground arith

pub log_entry-lt : (a : Gf256) → log_entry a < 255
log_entry-lt a = below (every_byte_sound _ log_table_small a.byte)
  where
    below : ltb (log_entry a) 255 ≡ true → log_entry a < 255
    below h = ground arith

pub exp-ne-zero : (n : ℕ) → eq (exp n).byte (of_ℕ 0) ≡ false
exp-ne-zero n =
    ap (λ e. eq e.byte (of_ℕ 0)) (exp_mod n (n % 255) (omega arith))
    ∙ not_true _ (count_holds-at _ 0 255 exp_table_nonzero (n % 255) (omega arith) (omega arith))
  where
    not_true : (p : Bool) → not p ≡ true → p ≡ false
    not_true p h = ground arith
