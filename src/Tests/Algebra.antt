-- ===== src/Tests/Algebra.antt =====
-- The theorems on field elements, polynomials and tables at concrete inputs.
use pysui_crypto.Common.{ℕ, ◌≤◌, ◌≡◌, ◌≢◌, ◌⊎◌, List, [], ◌∷◌, length, All, ok, err, invalid_input}
use pysui_crypto.Byte.{of_ℕ}
use pysui_crypto.Gf256.{Gf256, from_u8, zero as 𝟘, ◌⊕◌, ◌⊗◌, mul, div}
use pysui_crypto.Gf256.Reference.{carryless, ⊗-carryless}
use pysui_crypto.Utils.{transpose}
use pysui_crypto.Utils.Matrix.{IsMatrix, Transposes, transpose_cases}
use pysui_crypto.Gf256.Division.{div_lem, mul-eq-⊗}
use pysui_crypto.Polynomial.{Polynomial, poly, evaluate, interpolate}
use pysui_crypto.Polynomial
use pysui_crypto.Polynomial.Lagrange.{Point, AreDistinct}
use pysui_crypto.Polynomial.Refused.{interpolate_cases}
use pysui_crypto.Polynomial.Evaluation.{evaluate-mul-add-scale}

abbrev element : ℕ → Gf256
element n = from_u8 (of_ℕ n)

⊗-carryless_example : element 83 ⊗ element 202 ≡ from_u8 (carryless (of_ℕ 83) (of_ℕ 202))
⊗-carryless_example = ⊗-carryless (element 83) (element 202)

div_lem_example :
    ((element 202 ≡ 𝟘) × (div (element 83) (element 202) ≡ err invalid_input))
    ⊎ ((element 202 ≢ 𝟘)
        × ((q : Gf256) × (div (element 83) (element 202) ≡ ok q) × (q ⊗ element 202 ≡ element 83)))
div_lem_example = div_lem (element 83) (element 202)

mul-eq-⊗_example : mul (element 83) (element 202) ≡ ok (element 83 ⊗ element 202)
mul-eq-⊗_example = mul-eq-⊗ (element 83) (element 202)

abbrev coefficients : List Gf256
coefficients = element 4 ∷ element 0 ∷ element 7 ∷ []

-- Two points with one abscissa.
abbrev clashing : List Point
clashing = (element 1, element 9) ∷ (element 1, element 7) ∷ []

interpolate_cases_example :
    (AreDistinct clashing
      × ((p : Polynomial) × (interpolate clashing ≡ ok p)
          × (length p.coefficients ≤ 2)
          × All (λ (k : Point). evaluate p k.0 ≡ k.1) clashing))
    ⊎ (¬ (AreDistinct clashing) × (interpolate clashing ≡ err invalid_input))
interpolate_cases_example = interpolate_cases clashing

evaluate-mul-add-scale_example :
    ((r : Polynomial) × (Polynomial.mul (poly (element 4 ∷ element 7 ∷ [])) (poly (element 5 ∷ []))
        ≡ ok r)
      × (length r.coefficients ≡ 2)
      × (evaluate r (element 3)
          ≡ evaluate (poly (element 4 ∷ element 7 ∷ [])) (element 3)
            ⊗ evaluate (poly (element 5 ∷ [])) (element 3)))
    × ((evaluate (Polynomial.add (poly coefficients) (poly [])) (element 3)
          ≡ evaluate (poly coefficients) (element 3) ⊕ evaluate (poly []) (element 3))
        × (evaluate (Polynomial.scale (poly coefficients) (element 2)) (element 3)
            ≡ evaluate (poly coefficients) (element 3) ⊗ element 2))
evaluate-mul-add-scale_example =
    evaluate-mul-add-scale (element 4) (element 5) (element 7 ∷ []) [] (poly coefficients) (poly [])
      (element 2) (element 3)

abbrev matrix : List (List ℕ)
matrix = (1 ∷ 2 ∷ 3 ∷ []) ∷ (4 ∷ 5 ∷ 6 ∷ []) ∷ []

transpose_cases_example :
    ((m : ℕ) × IsMatrix 2 m matrix × Transposes 2 m 0 matrix)
    ⊎ (¬ ((m : ℕ) × IsMatrix 2 m matrix) × (transpose 2 matrix ≡ err invalid_input))
transpose_cases_example = transpose_cases 2 0 matrix
