-- ===== src/Gf256/Laws.antt =====
-- The operators of seal/gf256.rs make a field of characteristic two.
use pysui_crypto.Common.{◌≡◌, refl, ap, ◌∙◌, false, inl, inr, ◌||◌, Bool-cases}
use pysui_crypto.Gf256.{Gf256, zero as 𝟘, one as 𝟙, is_zero, ◌⊕◌, ◌⊖◌, ◌⊗◌, neg}
use pysui_crypto.Gf256.Field.{
  ⊕_comm, ⊕_assoc, ⊕_self, ⊕-zero, ⊗_comm, ⊗_assoc, ⊗-one, ⊗-⊕, zero-⊗, ⊗-zero, ⊗-ne-zero,
  is_zero_iff_eq, is_zero_zero, one_nonzero,
}
use pysui_crypto.Gf256.Division.{⊖-eq-⊕, neg_lem}

-- The laws of a field, but for division.
pub record IsField : Type 0 where
  pub add_assoc : (a b c : Gf256) → (a ⊕ b) ⊕ c ≡ a ⊕ (b ⊕ c)
  pub add_comm : (a b : Gf256) → a ⊕ b ≡ b ⊕ a
  pub add_zero : (a : Gf256) → a ⊕ 𝟘 ≡ a
  pub add_neg : (a : Gf256) → a ⊕ neg a ≡ 𝟘
  pub sub_add : (a b : Gf256) → (a ⊖ b) ⊕ b ≡ a
  pub mul_assoc : (a b c : Gf256) → (a ⊗ b) ⊗ c ≡ a ⊗ (b ⊗ c)
  pub mul_comm : (a b : Gf256) → a ⊗ b ≡ b ⊗ a
  pub mul_one : (a : Gf256) → a ⊗ 𝟙 ≡ a
  pub mul_add : (a b c : Gf256) → a ⊗ (b ⊕ c) ≡ (a ⊗ b) ⊕ (a ⊗ c)
  pub no_zero_divisors : (a b : Gf256) → is_zero (a ⊗ b) ≡ (is_zero a || is_zero b)
  pub one_not_zero : is_zero 𝟙 ≡ false

zero_product : (a b : Gf256) → is_zero (a ⊗ b) ≡ (is_zero a || is_zero b)
zero_product a b = elim (Bool-cases (is_zero a)) [
  | inl za ↦ rw (is_zero_iff_eq a za, zero-⊗ b, is_zero_zero) refl
  | inr na ↦ elim (Bool-cases (is_zero b)) [
    | inl zb ↦ rw (na, is_zero_iff_eq b zb, ⊗-zero a, is_zero_zero) refl
    | inr nb ↦ rw (na, nb) (⊗-ne-zero a b na nb)
  ]
]

-- Addition, subtraction, negation and multiplication of field elements have the laws of a field:
-- both operations are associative and commutative and have their neutral element, multiplication
-- distributes over addition, negation and subtraction undo addition, a product is zero exactly
-- where a factor is, and one is not zero.
pub operators-IsField : IsField
operators-IsField = record {
  add_assoc = ⊕_assoc;
  add_comm = ⊕_comm;
  add_zero = ⊕-zero;
  add_neg = λ a. ap (◌⊕◌ a) (neg_lem a) ∙ ⊕_self a;
  sub_add = λ a b. ap (λ c. c ⊕ b) (⊖-eq-⊕ a b) ∙ ⊕_assoc a b b ∙ ap (◌⊕◌ a) (⊕_self b) ∙ ⊕-zero a;
  mul_assoc = ⊗_assoc;
  mul_comm = ⊗_comm;
  mul_one = ⊗-one;
  mul_add = ⊗-⊕;
  no_zero_divisors = zero_product;
  one_not_zero = one_nonzero;
}
