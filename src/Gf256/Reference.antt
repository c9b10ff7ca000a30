-- ===== src/Gf256/Reference.antt =====
-- The product by tables against multiplication of polynomials over F₂.
use pysui_crypto.Common.{ℕ, ◌≡◌, refl, sym, ap, ap₂, ◌∙◌, Bool, true, false, inl, inr}
use pysui_crypto.Byte.{U8, of_ℕ, ◌^^◌, eq}
use pysui_crypto.Byte.Numbers.{eq_iff}
use pysui_crypto.Byte.Every.{every_bit, every_byte, every_byte_sound}
use pysui_crypto.Gf256.{Gf256, from_u8, one as 𝟙, log_entry, ◌⊗◌}
use pysui_crypto.Gf256.Powers.{
  times_x, times_power, times_power-^^, times_power-zero, times_power-times_x,
}
use pysui_crypto.Gf256.Field.{zero_or_not, zero-⊗, ⊗-one, ⊗_as_power}

-- A coefficient in F₂ times a polynomial.
abbrev pub scale : Bool → U8 → U8
scale true a = a
scale false a = of_ℕ 0

-- `a` times the polynomial with the bits of `b`, by Horner's rule from the highest bit.
unfoldable pub carryless : U8 → U8 → U8
carryless a b =
    let s6 = times_x (scale b.b7 a) ^^ scale b.b6 a in
    let s5 = times_x s6 ^^ scale b.b5 a in
    let s4 = times_x s5 ^^ scale b.b4 a in
    let s3 = times_x s4 ^^ scale b.b3 a in
    let s2 = times_x s3 ^^ scale b.b2 a in
    let s1 = times_x s2 ^^ scale b.b1 a in times_x s1 ^^ scale b.b0 a

-- Every byte is one times the polynomial with its bits.
one_table : every_byte (λ b. eq (carryless (of_ℕ 1) b) b) ≡ true
unfolding every_byte every_bit eq carryless times_x ◌^^◌ of_ℕ
one_table = refl

module _ (n : ℕ) where
  power_scale : (c : Bool) (a : U8) → times_power n (scale c a) ≡ scale c (times_power n a)
  power_scale true a = refl
  power_scale false a = times_power-zero n

  horner_step :
      (s a : U8) (c : Bool)
      → times_power n (times_x s ^^ scale c a)
        ≡ times_x (times_power n s) ^^ scale c (times_power n a)
  horner_step s a c =
      times_power-^^ n (times_x s) (scale c a)
      ∙ ap₂ ◌^^◌ (times_power-times_x n s) (power_scale c a)

  -- Powers of the generator pass through a carryless product.
  times_power-carryless : (a b : U8) → times_power n (carryless a b) ≡ carryless (times_power n a) b
  unfolding carryless
  times_power-carryless a b = simp (horner_step, power_scale)

carryless_zero : (b : U8) → carryless (of_ℕ 0) b ≡ of_ℕ 0
carryless_zero b = (eq_iff _ _).0 (every_byte_sound _ zero_table b)
  where
    zero_table : every_byte (λ b. eq (carryless (of_ℕ 0) b) (of_ℕ 0)) ≡ true
    zero_table = unfold every_byte every_bit eq carryless times_x ◌^^◌ of_ℕ in refl

-- The product by tables is the product of the bits' polynomials over F₂ modulo x⁸ + x⁴ + x³ + x + 1,
-- as `carryless` computes it by shifts and exclusive or.
pub ⊗-carryless : (a b : Gf256) → a ⊗ b ≡ from_u8 (carryless a.byte b.byte)
⊗-carryless a b = elim (zero_or_not a) [
  | inl za ↦ rw za (zero-⊗ b ∙ ap from_u8 (sym (carryless_zero b.byte)))
  | inr na ↦
      ⊗_as_power a b na
      ∙ ap (λ t. from_u8 (times_power (log_entry a) t))
          (sym ((eq_iff _ _).0 (every_byte_sound _ one_table b.byte)))
      ∙ ap from_u8 (times_power-carryless (log_entry a) (of_ℕ 1) b.byte)
      ∙ ap (λ (t : Gf256). from_u8 (carryless t.byte b.byte)) (sym (⊗_as_power a 𝟙 na) ∙ ⊗-one a)
]
