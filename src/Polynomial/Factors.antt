-- ===== src/Polynomial/Factors.antt =====
-- The linear factors that `Polynomial::interpolate` divides and multiplies.
use pysui_crypto.Common.{
  ℕ, suc, ◌+◌, ◌≡◌, refl, sym, ap, ap₂, ◌∙◌, false, List, [], ◌∷◌, map, length, Outcome, ok,
  fold_ok, arith,
}
use pysui_crypto.Gf256.{Gf256, zero as 𝟘, one as 𝟙, is_zero, ◌⊕◌, ◌⊖◌, ◌⊗◌, neg}
use pysui_crypto.Gf256.Field.{⊕_comm, ⊕-zero, ⊗_assoc, one-⊗, ⊗-one, ⊗-zero, ⊕-⊗}
use pysui_crypto.Gf256.Division.{inverse, div-inverse, inverse-ne-zero, ⊖-eq-⊕, neg_lem}
use pysui_crypto.Polynomial.{
  Polynomial, poly, pop_zeros, strip_trailing_zeros, mul, div_scalar, monic_linear,
}
use pysui_crypto.Polynomial.Value.{value}
use pysui_crypto.Polynomial.Product.{times, length-times, mul-times, value-times}
use pysui_crypto.Polynomial.Lagrange.{Point, basis, basis-nil, basis-cons}

-- The two coefficients of (x - xo) / (xj - xo).
constant_of : Gf256 → Point → Gf256
constant_of xj o = o.0 ⊗ (𝟙 ⊗ inverse (xj ⊕ o.0))

slope_of : Gf256 → Point → Gf256
slope_of xj o = 𝟙 ⊗ (𝟙 ⊗ inverse (xj ⊕ o.0))

pub factor : Gf256 → Point → Polynomial
factor xj o = poly (constant_of xj o ∷ slope_of xj o ∷ [])

strip_two :
    (a b : Gf256) → is_zero b ≡ false → strip_trailing_zeros (poly (a ∷ b ∷ [])) ≡ poly (a ∷ b ∷ [])
unfolding strip_trailing_zeros pop_zeros
strip_two a b h = rw h

-- A linear factor keeps both coefficients, since its divisor is not zero.
pub div_scalar-factor :
    (xj : Gf256) (o : Point)
    → is_zero (xj ⊕ o.0) ≡ false
    → div_scalar (monic_linear (neg o.0)) (xj ⊖ o.0) ≡ ok (factor xj o)
unfolding div_scalar factor constant_of slope_of
div_scalar-factor xj o h =
    rw (⊖-eq-⊕ xj o.0, neg_lem o.0, div-inverse 𝟙 (xj ⊕ o.0) h)
      (ap ok (strip_two _ _ (ap is_zero (one-⊗ _ ∙ one-⊗ _) ∙ inverse-ne-zero _)))

value-factor :
    (xj : Gf256) (o : Point) (x : Gf256)
    → constant_of xj o ⊕ (x ⊗ slope_of xj o) ≡ (x ⊕ o.0) ⊗ inverse (xj ⊕ o.0)
unfolding constant_of slope_of
value-factor xj o x =
    ap₂ (λ s t. (o.0 ⊗ s) ⊕ (x ⊗ t)) (one-⊗ _) (one-⊗ _ ∙ one-⊗ _)
    ∙ sym (⊕-⊗ o.0 x _)
    ∙ ap (λ t. t ⊗ inverse (xj ⊕ o.0)) (⊕_comm o.0 x)

nonempty :
    {A : Type 0} (n : ℕ) (xs : List A)
    → length xs ≡ suc n
    → (h : A) × (t : List A) × (xs ≡ h ∷ t) × (length t ≡ n)
nonempty n [] e = absurd (omega arith)
nonempty n (x ∷ xs) e = (x, xs, refl, omega arith)

-- Multiplying a nonempty polynomial by linear factors: one coefficient more for each.
pub record IsProduct (xj a : Gf256) (as' : List Gf256) (others : List Point)
    (result : Outcome Polynomial) : Type 0 where
  pub head : Gf256
  pub tail : List Gf256
  pub returns : result ≡ ok (poly (head ∷ tail))
  pub tail_length : length tail ≡ length as' + length others
  pub values : (x : Gf256) → value (head ∷ tail) x ≡ value (a ∷ as') x ⊗ basis xj others x

pub IsProduct-factors :
    (xj a : Gf256) (as' : List Gf256) (others : List Point)
    → IsProduct xj a as' others (fold_ok mul (poly (a ∷ as')) (map (factor xj) others))
IsProduct-factors xj a as' [] = record {
  head = a;
  tail = as';
  returns = unfold fold_ok in refl;
  tail_length = omega arith;
  values = λ x. sym (ap (◌⊗◌ (value (a ∷ as') x)) (basis-nil xj x) ∙ ⊗-one _);
}
IsProduct-factors xj a as' (o ∷ others) =
    let cs = times (a ∷ as') (constant_of xj o ∷ slope_of xj o ∷ []) in
    let (h, t, e, l) =
      nonempty (suc (length as')) cs
        (length-times (a ∷ as') (constant_of xj o ∷ slope_of xj o ∷ []) ∙ omega arith) in
    let rest = IsProduct-factors xj h t others in
    record {
      head = rest.head;
      tail = rest.tail;
      returns = step h t e ∙ rest.returns;
      tail_length = omega (arith, rest.tail_length);
      values = λ x.
          rest.values x
          ∙ ap (λ v. v ⊗ basis xj others x)
              (ap (λ l. value l x) (sym e)
                ∙ value-times a (constant_of xj o) as' (slope_of xj o ∷ []) x
                ∙ ap (◌⊗◌ (value (a ∷ as') x)) (linear_value x))
          ∙ ⊗_assoc _ _ _
          ∙ ap (◌⊗◌ (value (a ∷ as') x)) (sym (basis-cons xj o others x));
    }
  where
    step :
        (h : Gf256) (t : List Gf256)
        → times (a ∷ as') (constant_of xj o ∷ slope_of xj o ∷ []) ≡ h ∷ t
        → fold_ok mul (poly (a ∷ as')) (map (factor xj) (o ∷ others))
          ≡ fold_ok mul (poly (h ∷ t)) (map (factor xj) others)
    step h t e =
        unfold fold_ok factor in rw (mul-times a (constant_of xj o) as' (slope_of xj o ∷ []), e)

    linear_value :
        (x : Gf256)
        → value (constant_of xj o ∷ slope_of xj o ∷ []) x ≡ (x ⊕ o.0) ⊗ inverse (xj ⊕ o.0)
    linear_value x =
        opened
        ∙ ap (λ t. constant_of xj o ⊕ (x ⊗ t)) (ap (◌⊕◌ (slope_of xj o)) (⊗-zero x) ∙ ⊕-zero _)
        ∙ value-factor xj o x
      where
        opened :
            value (constant_of xj o ∷ slope_of xj o ∷ []) x
            ≡ constant_of xj o ⊕ (x ⊗ (slope_of xj o ⊕ (x ⊗ 𝟘)))
        opened = unfold value in refl
