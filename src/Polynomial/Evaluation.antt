-- ===== src/Polynomial/Evaluation.antt =====
-- Evaluation against the operations of seal/polynomial.rs.
use pysui_crypto.Common.{◌+◌, ◌≡◌, sym, ap, ap₂, ◌∙◌, List, ◌∷◌, length, ok, suc, arith}
use pysui_crypto.Gf256.{Gf256, ◌⊕◌, ◌⊗◌}
use pysui_crypto.Polynomial.{Polynomial, poly, evaluate, add, scale, mul}
use pysui_crypto.Polynomial.Value.{evaluate-value, value-add, value-scale}
use pysui_crypto.Polynomial.Product.{times, mul-times, length-times, value-times}

-- `Mul` returns on polynomials with at least one coefficient: no index is out of bounds and no
-- length falls below zero. The product has one coefficient less than the factors together, and its
-- value anywhere is the product of theirs.
pub evaluate-mul :
    (a b : Gf256) (as' bs : List Gf256) (x : Gf256)
    → (r : Polynomial) × (mul (poly (a ∷ as')) (poly (b ∷ bs)) ≡ ok r)
      × (length r.coefficients ≡ suc (length as' + length bs))
      × (evaluate r x ≡ evaluate (poly (a ∷ as')) x ⊗ evaluate (poly (b ∷ bs)) x)
evaluate-mul a b as' bs x = (
  poly (times (a ∷ as') (b ∷ bs)),
  mul-times a b as' bs,
  omega (arith, length-times (a ∷ as') (b ∷ bs)),
  evaluate-value (times (a ∷ as') (b ∷ bs)) x
      ∙ value-times a b as' bs x
      ∙ sym (ap₂ ◌⊗◌ (evaluate-value (a ∷ as') x) (evaluate-value (b ∷ bs) x)),
)

-- The value of a sum is the sum of the values, and the value of a multiple is the multiple of the
-- value, although both operations strip trailing zeros.
pub evaluate-add-scale :
    (p q : Polynomial) (s x : Gf256)
    → (evaluate (add p q) x ≡ evaluate p x ⊕ evaluate q x)
      × (evaluate (scale p s) x ≡ evaluate p x ⊗ s)
evaluate-add-scale p q s x = (
  evaluate-value (add p q).coefficients x
      ∙ value-add p q x
      ∙ sym (ap₂ ◌⊕◌ (evaluate-value p.coefficients x) (evaluate-value q.coefficients x)),
  evaluate-value (scale p s).coefficients x
      ∙ value-scale p s x
      ∙ sym (ap (λ v. v ⊗ s) (evaluate-value p.coefficients x)),
)

-- Evaluation and the operations on polynomials. Of polynomials with at least one coefficient, `Mul`
-- returns a product, with one coefficient less than the factors together, whose value anywhere is
-- the product of the values of the factors. The value of a sum is the sum of the values, and the
-- value of a multiple is the multiple of the value, although both operations strip trailing zeros.
pub evaluate-mul-add-scale :
    (a b : Gf256) (as' bs : List Gf256) (p q : Polynomial) (s x : Gf256)
    → ((r : Polynomial) × (mul (poly (a ∷ as')) (poly (b ∷ bs)) ≡ ok r)
        × (length r.coefficients ≡ suc (length as' + length bs))
        × (evaluate r x ≡ evaluate (poly (a ∷ as')) x ⊗ evaluate (poly (b ∷ bs)) x))
      × ((evaluate (add p q) x ≡ evaluate p x ⊕ evaluate q x)
          × (evaluate (scale p s) x ≡ evaluate p x ⊗ s))
evaluate-mul-add-scale a b as' bs p q s x = (evaluate-mul a b as' bs x, evaluate-add-scale p q s x)
