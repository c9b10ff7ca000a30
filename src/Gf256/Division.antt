-- ===== src/Gf256/Division.antt =====
-- Division, negation and subtraction of field elements, and the assertions of `log`.
use pysui_crypto.Common.{
  ℕ, ◌+◌, ◌-◌, ◌≡◌, ◌≢◌, ◌⊎◌, inl, inr, refl, sym, ap, ◌∙◌, true, false, arith, Bool-cases, ok, err,
  invalid_input,
}
use pysui_crypto.Gf256.{
  Gf256, from_u8, zero as 𝟘, one as 𝟙, is_zero, log, log_entry, exp, ◌⊕◌, ◌⊖◌, ◌⊗◌, mul, div, neg,
}
use pysui_crypto.Gf256.Tables.{exp_table}
use pysui_crypto.Gf256.Powers.{times_power-exp, log_entry-lt, exp-ne-zero}
use pysui_crypto.Gf256.Field.{
  zero_or_not, is_zero_iff_eq, ne_of_is_zero, is_zero_zero, zero-⊗, ⊗_as_power, ⊗_assoc, ⊗_comm,
  ⊗-one, zero-⊕,
}

-- The inverse that the code reaches by `one / b`.
unfoldable pub inverse : Gf256 → Gf256
inverse b = exp (255 - log_entry b)

⊗-exp : (a : Gf256) (n : ℕ) → is_zero a ≡ false → a ⊗ exp n ≡ exp (log_entry a + n)
⊗-exp a n na = ⊗_as_power a (exp n) na ∙ ap from_u8 (times_power-exp (log_entry a) n)

-- A nonzero element times its inverse is one.
pub ⊗-inverse : (b : Gf256) → is_zero b ≡ false → b ⊗ inverse b ≡ 𝟙
unfolding inverse
⊗-inverse b nb =
    ⊗-exp b (255 - log_entry b) nb ∙ ap exp {y = 255} (omega (arith, log_entry-lt b)) ∙ whole_turn
  where
    whole_turn : exp 255 ≡ 𝟙
    whole_turn = unfold exp exp_table in refl

pub inverse-ne-zero : (b : Gf256) → is_zero (inverse b) ≡ false
unfolding inverse is_zero
inverse-ne-zero b = exp-ne-zero (255 - log_entry b)

-- By a nonzero element division is multiplication by the inverse.
pub div-inverse : (a b : Gf256) → is_zero b ≡ false → div a b ≡ ok (a ⊗ inverse b)
div-inverse a b nb = elim (zero_or_not a) [
  | inl za ↦ rw za (by_zero ∙ ap ok (sym (zero-⊗ (inverse b))))
  | inr na ↦
      by_tables na
      ∙ ap (λ n. ok (exp n)) {y = log_entry a + (255 - log_entry b)} (omega (arith, log_entry-lt b))
      ∙ ap ok (sym (shifted na))
]
  where
    shifted : is_zero a ≡ false → a ⊗ inverse b ≡ exp (log_entry a + (255 - log_entry b))
    shifted na = unfold inverse in ⊗-exp a (255 - log_entry b) na

    by_zero : div 𝟘 b ≡ ok 𝟘
    by_zero = unfold div in rw (nb, is_zero_zero)

    by_tables : is_zero a ≡ false → div a b ≡ ok (exp (255 + log_entry a - log_entry b))
    by_tables na = unfold div log in rw (nb, na)

pub div-zero : (a b : Gf256) → is_zero b ≡ true → div a b ≡ err invalid_input
unfolding div
div-zero a b zb = rw zb

-- Division by zero is `InvalidInput`. By any other `b`, `Div` returns an element whose product with
-- `b` is `a`. It never panics.
pub div_lem :
    (a b : Gf256)
    → ((b ≡ 𝟘) × (div a b ≡ err invalid_input))
      ⊎ ((b ≢ 𝟘) × ((q : Gf256) × (div a b ≡ ok q) × (q ⊗ b ≡ a)))
div_lem a b = elim (Bool-cases (is_zero b)) [
  | inl e ↦ inl (is_zero_iff_eq b e, div-zero a b e)
  | inr e ↦ inr (ne_of_is_zero b e, (a ⊗ inverse b, div-inverse a b e, exact e))
]
  where
    exact : is_zero b ≡ false → (a ⊗ inverse b) ⊗ b ≡ a
    exact nb =
        ⊗_assoc a (inverse b) b ∙ ap (◌⊗◌ a) (⊗_comm (inverse b) b ∙ ⊗-inverse b nb) ∙ ⊗-one a

-- The assertions in the two calls of `log` never fail: `Mul` always returns, with the product.
pub mul-eq-⊗ : (a b : Gf256) → mul a b ≡ ok (a ⊗ b)
unfolding mul ◌⊗◌ log
mul-eq-⊗ a b = elim (Bool-cases (is_zero a)) [
  | inl za ↦ rw za
  | inr na ↦ elim (Bool-cases (is_zero b)) [ inl zb ↦ rw (na, zb) | inr nb ↦ rw (na, nb) ]
]

-- In characteristic two `-` is `+`, and negation does nothing.
pub ⊖-eq-⊕ : (a b : Gf256) → a ⊖ b ≡ a ⊕ b
unfolding ◌⊖◌
⊖-eq-⊕ a b = refl

pub neg_lem : (a : Gf256) → neg a ≡ a
unfolding neg
neg_lem a = ⊖-eq-⊕ 𝟘 a ∙ zero-⊕ a
