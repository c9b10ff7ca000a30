-- ===== src/Polynomial/Value.antt =====
-- The value of a polynomial at a point, and what each operation does to values and lengths.
use pysui_crypto.Common.{
  ℕ, zero, suc, ◌≤◌, ◌≡◌, refl, sym, ap, ◌∙◌, inl, inr, List, [], ◌∷◌, ◌++◌, map, foldl, reverse,
  length, length-append, length-map, Bool-cases, arith,
}
use mathlib.Core.List.{reverse-cons, reverse-reverse, foldl-append}
use pysui_crypto.Gf256.{Gf256, zero as 𝟘, is_zero, ◌⊕◌, ◌⊗◌}
use pysui_crypto.Gf256.Field.{
  ⊕_comm, zero-⊕, ⊕-zero, ⊗_comm, ⊗_assoc, ⊗-zero, zero-⊗, ⊗-⊕, ⊕-⊗, is_zero_iff_eq,
}
use pysui_crypto.Gf256.Sums.{⊕_interchange}
use pysui_crypto.Polynomial.{
  Polynomial, poly, evaluate, pop_zeros, strip_trailing_zeros, add_coefficients, add, scale,
}

-- c₀ + c₁ x + c₂ x² + …
unfoldable pub value : List Gf256 → Gf256 → Gf256
value [] x = 𝟘
value (c ∷ cs) x = c ⊕ (x ⊗ value cs x)

pub value-nil : (x : Gf256) → value [] x ≡ 𝟘
unfolding value
value-nil x = refl

-- At zero only the constant term is left.
pub value_at_zero : (c : Gf256) (cs : List Gf256) → value (c ∷ cs) 𝟘 ≡ c
unfolding value
value_at_zero c cs = ap (◌⊕◌ c) (zero-⊗ _) ∙ ⊕-zero c

-- Horner's method from the highest coefficient computes the value c₀ + c₁ x + c₂ x² + ….
pub evaluate-value : (cs : List Gf256) (x : Gf256) → evaluate (poly cs) x ≡ value cs x
unfolding evaluate value
evaluate-value [] x = refl
evaluate-value (c ∷ cs) x =
    ap (foldl step 𝟘) (reverse-cons c cs)
    ∙ foldl-append step 𝟘 (reverse cs) (c ∷ [])
    ∙ ap (λ v. (v ⊗ x) ⊕ c) (evaluate-value cs x)
    ∙ ap (λ t. t ⊕ c) (⊗_comm (value cs x) x)
    ∙ ⊕_comm _ c
  where
    step : Gf256 → Gf256 → Gf256
    step acc coefficient = (acc ⊗ x) ⊕ coefficient

value-append_zero : (cs : List Gf256) (x : Gf256) → value (cs ++ 𝟘 ∷ []) x ≡ value cs x
unfolding value
value-append_zero [] x = zero-⊕ _ ∙ ⊗-zero x
value-append_zero (c ∷ cs) x = ap (λ t. c ⊕ (x ⊗ t)) (value-append_zero cs x)

value-pop_zeros :
    (cs : List Gf256) (x : Gf256) → value (reverse (pop_zeros cs)) x ≡ value (reverse cs) x
unfolding pop_zeros
value-pop_zeros [] x = refl
value-pop_zeros (c ∷ cs) x = elim (Bool-cases (is_zero c)) [
  | inl e ↦ rw e (
      value-pop_zeros cs x
      ∙ sym (value-append_zero (reverse cs) x)
      ∙ ap (λ t. value (reverse cs ++ t ∷ []) x) (sym (is_zero_iff_eq c e))
      ∙ ap (λ t. value t x) (sym (reverse-cons c cs)))
  | inr e ↦ rw e
]

-- Stripping trailing zeros changes no value.
pub value-strip :
    (cs : List Gf256) (x : Gf256)
    → value (strip_trailing_zeros (poly cs)).coefficients x ≡ value cs x
unfolding strip_trailing_zeros
value-strip cs x = value-pop_zeros (reverse cs) x ∙ ap (λ t. value t x) (reverse-reverse cs)

pub length-reverse : (cs : List Gf256) → length (reverse cs) ≡ length cs
length-reverse [] = refl
length-reverse (c ∷ cs) =
    ap length (reverse-cons c cs)
    ∙ omega (arith, length-append (reverse cs) (c ∷ []), length-reverse cs)

length-pop_zeros : (cs : List Gf256) → length (pop_zeros cs) ≤ length cs
unfolding pop_zeros
length-pop_zeros [] = omega arith
length-pop_zeros (c ∷ cs) = elim (Bool-cases (is_zero c)) [
  | inl e ↦ rw e (omega (arith, length-pop_zeros cs))
  | inr e ↦ rw e (omega arith)
]

pub length-strip :
    (cs : List Gf256) → length (strip_trailing_zeros (poly cs)).coefficients ≤ length cs
unfolding strip_trailing_zeros
length-strip cs = omega (
  arith,
  length-reverse (pop_zeros (reverse cs)),
  length-pop_zeros (reverse cs),
  length-reverse cs,
)

pub value-add_coefficients :
    (as' bs : List Gf256) (x : Gf256) → value (add_coefficients as' bs) x ≡ value as' x ⊕ value bs x
unfolding value add_coefficients
value-add_coefficients [] bs x = sym (zero-⊕ _)
value-add_coefficients (a ∷ as') [] x = sym (⊕-zero _)
value-add_coefficients (a ∷ as') (b ∷ bs) x =
    ap (λ t. (a ⊕ b) ⊕ (x ⊗ t)) (value-add_coefficients as' bs x)
    ∙ ap (λ t. (a ⊕ b) ⊕ t) (⊗-⊕ x _ _)
    ∙ ⊕_interchange a b _ _

pub length-add_coefficients :
    (n : ℕ) (as' bs : List Gf256)
    → length as' ≤ n
    → length bs ≤ n
    → length (add_coefficients as' bs) ≤ n
unfolding add_coefficients
length-add_coefficients n [] bs p q = q
length-add_coefficients n (a ∷ as') [] p q = p
length-add_coefficients zero (a ∷ as') (b ∷ bs) p q = absurd (omega arith)
length-add_coefficients (suc n) (a ∷ as') (b ∷ bs) p q =
    omega (arith, length-add_coefficients n as' bs (omega arith) (omega arith))

pub value-add :
    (p q : Polynomial) (x : Gf256)
    → value (add p q).coefficients x ≡ value p.coefficients x ⊕ value q.coefficients x
unfolding add
value-add p q x =
    value-strip (add_coefficients p.coefficients q.coefficients) x
    ∙ value-add_coefficients p.coefficients q.coefficients x

pub length-add :
    (n : ℕ) (p q : Polynomial)
    → length p.coefficients ≤ n
    → length q.coefficients ≤ n
    → length (add p q).coefficients ≤ n
unfolding add
length-add n p q hp hq = omega (
  arith,
  length-strip (add_coefficients p.coefficients q.coefficients),
  length-add_coefficients n p.coefficients q.coefficients hp hq,
)

pub value-map-⊗ : (cs : List Gf256) (s x : Gf256) → value (map (λ a. a ⊗ s) cs) x ≡ value cs x ⊗ s
unfolding value
value-map-⊗ [] s x = sym (zero-⊗ s)
value-map-⊗ (c ∷ cs) s x =
    ap (λ t. (c ⊗ s) ⊕ (x ⊗ t)) (value-map-⊗ cs s x)
    ∙ ap (◌⊕◌ (c ⊗ s)) (sym (⊗_assoc x _ s))
    ∙ sym (⊕-⊗ c _ s)

pub value-scale :
    (p : Polynomial) (s x : Gf256) → value (scale p s).coefficients x ≡ value p.coefficients x ⊗ s
unfolding scale
value-scale p s x = value-strip (map (λ a. a ⊗ s) p.coefficients) x ∙ value-map-⊗ p.coefficients s x

pub length-scale :
    (p : Polynomial) (s : Gf256) → length (scale p s).coefficients ≤ length p.coefficients
unfolding scale
length-scale p s = omega (
  arith,
  length-strip (map (λ a. a ⊗ s) p.coefficients),
  length-map (λ (a : Gf256). a ⊗ s) p.coefficients,
)
