-- ===== src/Polynomial.antt =====
-- seal/polynomial.rs: polynomials over the field, as the list of coefficients from the constant up.
pub mod Value
pub mod Product
pub mod Roots
pub mod Lagrange
pub mod Factors
pub mod Interpolation
pub mod Refused
pub mod Evaluation
use pysui_crypto.Common.{
  ℕ, zero, suc, ◌+◌, ◌-◌, Bool, true, false, not, ◌&&◌, List, [], ◌∷◌, map, foldl, reverse, filter,
  length, Outcome, ok, panic, ◌>>=◌, map_ok, traverse, fold_ok, index, if◌then◌else◌, leb, ◌==◌,
  range_from, enumerate_from,
}
use pysui_crypto.Gf256.{
  Gf256, zero as 𝟘, one as 𝟙, is_zero, ◌⊕◌, ◌⊖◌, ◌⊗◌, div, neg, sum as sum_field,
}

pub record Polynomial : Type 0 where
  pub coefficients : List Gf256

abbrev pub poly : List Gf256 → Polynomial
poly cs = record { coefficients = cs }

-- `self.0.len() - 1`, which falls below zero at the empty polynomial.
unfoldable pub degree : Polynomial → Outcome ℕ
degree p = elim p.coefficients [ [] ↦ panic | c ∷ cs ↦ ok (length cs) ]

-- Horner's method, from the highest coefficient.
unfoldable pub evaluate : Polynomial → Gf256 → Gf256
evaluate p x = foldl (λ acc coefficient. (acc ⊗ x) ⊕ coefficient) 𝟘 (reverse p.coefficients)

abbrev pub zero_poly : Polynomial
zero_poly = poly []

abbrev pub one_poly : Polynomial
one_poly = poly (𝟙 ∷ [])

-- The `while` loop over `last` and `pop`, on the coefficients from the last to the first.
unfoldable pub pop_zeros : List Gf256 → List Gf256
pop_zeros [] = []
pop_zeros (c ∷ cs) = let popped = pop_zeros cs in if is_zero c then popped else c ∷ cs

unfoldable pub strip_trailing_zeros : Polynomial → Polynomial
strip_trailing_zeros p = poly (reverse (pop_zeros (reverse p.coefficients)))

-- x + constant.
abbrev pub monic_linear : Gf256 → Polynomial
monic_linear constant = poly (constant ∷ 𝟙 ∷ [])

-- `zip_longest` with `+` where both sides have a coefficient.
unfoldable pub add_coefficients : List Gf256 → List Gf256 → List Gf256
add_coefficients [] bs = bs
add_coefficients (a ∷ as') [] = a ∷ as'
add_coefficients (a ∷ as') (b ∷ bs) = (a ⊕ b) ∷ add_coefficients as' bs

-- `Add`.
unfoldable pub add : Polynomial → Polynomial → Polynomial
add p q = strip_trailing_zeros (poly (add_coefficients p.coefficients q.coefficients))

-- `Sum`.
unfoldable pub sum : List Polynomial → Polynomial
sum ps = foldl add zero_poly ps

-- `Mul<&Gf256>`.
unfoldable pub scale : Polynomial → Gf256 → Polynomial
scale p s = strip_trailing_zeros (poly (map (λ a. a ⊗ s) p.coefficients))

-- One coefficient of the product: the inner iterator of `Mul`.
unfoldable pub product_coefficient : List Gf256 → List Gf256 → ℕ → ℕ → ℕ → Outcome Gf256
product_coefficient as' bs da db i = map_ok sum_field (
    traverse (λ j. do a ← index as' j; b ← index bs (i - j); ok (a ⊗ b))
      (filter (λ j. leb j da && leb (i - j) db) (range_from 0 (suc i))))

-- `Mul` of two polynomials.
unfoldable pub mul : Polynomial → Polynomial → Outcome Polynomial
mul p q = do
  da ← degree p
  db ← degree q
  map_ok poly (
      traverse (product_coefficient p.coefficients q.coefficients da db)
        (range_from 0 (suc (da + db))))

-- `Div<&Gf256>`.
unfoldable pub div_scalar : Polynomial → Gf256 → Outcome Polynomial
div_scalar p divisor = do
  inverse ← div 𝟙 divisor
  ok (strip_trailing_zeros (poly (map (λ a. a ⊗ inverse) p.coefficients)))

-- `Product`.
unfoldable pub product : List Polynomial → Outcome Polynomial
product ps = fold_ok mul one_poly ps

-- The term of `interpolate` for the point at index `j`.
unfoldable pub interpolate_term : List (Gf256 × Gf256) → ℕ → Gf256 × Gf256 → Outcome Polynomial
interpolate_term points j (xj, yj) = do
  factors ←
      traverse (λ e. div_scalar (monic_linear (neg e.1.0)) (xj ⊖ e.1.0))
        (filter (λ e. not (e.0 == j)) (enumerate_from 0 points))
  basis ← product factors
  ok (scale basis yj)

-- Lagrange interpolation.
unfoldable pub interpolate : List (Gf256 × Gf256) → Outcome Polynomial
interpolate points =
    map_ok sum (traverse (λ e. interpolate_term points e.0 e.1) (enumerate_from 0 points))
