-- ===== src/Polynomial/Interpolation.antt =====
-- `Polynomial::interpolate` against Lagrange's formula.
use pysui_crypto.Common.{
  ℕ, suc, ◌≤◌, ◌≡◌, refl, sym, ap, ap₂, subst, ◌∙◌, not, List, [], ◌∷◌, ◌++◌, map, foldl, filter,
  length, length-append, enumerate_from, without_index_lem, ◌==◌, All, All-implies, Outcome, ok,
  map_ok, ◌>>=◌, traverse, traverse-map, traverse-All-ok, fold_ok, arith,
}
use mathlib.Core.List.{append_assoc}
use pysui_crypto.Gf256.{Gf256, one as 𝟙, ◌⊕◌, ◌⊖◌, ◌⊗◌, sum as sum_field}
use pysui_crypto.Gf256.Field.{⊕_assoc, ⊕-zero, zero-⊕, one-⊗, ⊗-zero}
use pysui_crypto.Gf256.Sums.{sum-nil, sum-cons}
use pysui_crypto.Polynomial.{
  Polynomial, poly, evaluate, mul, div_scalar, monic_linear, product, one_poly, zero_poly, add, sum,
  scale, interpolate_term, interpolate,
}
use pysui_crypto.Polynomial.Value.{
  value, value-nil, evaluate-value, value-add, length-add, value-scale, length-scale,
}
use pysui_crypto.Polynomial.Factors.{IsProduct, factor, div_scalar-factor, IsProduct-factors}
use pysui_crypto.Polynomial.Lagrange.{
  Point, AreDistinct, IsApart, basis, lagrange, lagrange-nil, lagrange-cons, lagrange_at_points,
  IsApart-others,
}
use pysui_crypto.Gf256.{neg}

value-one_poly : (x : Gf256) → value (𝟙 ∷ []) x ≡ 𝟙
unfolding value
value-one_poly x = ap (◌⊕◌ 𝟙) (⊗-zero x) ∙ ⊕-zero 𝟙

-- The term of one point: it returns a polynomial with at most as many coefficients as there are
-- points, whose value is the term of Lagrange's formula.
pub record IsTerm (n : ℕ) (p : Point) (others : List Point) (result : Outcome Polynomial)
    : Type 0 where
  pub polynomial : Polynomial
  pub returns : result ≡ ok polynomial
  bounded : length polynomial.coefficients ≤ n
  values : (x : Gf256) → value polynomial.coefficients x ≡ basis p.0 others x ⊗ p.1

pub interpolate_term-IsTerm :
    (pre : List Point) (p : Point) (post : List Point)
    → IsApart p.0 (pre ++ post)
    → IsTerm
        (length (pre ++ p ∷ post))
        p
        (pre ++ post)
        (interpolate_term (pre ++ p ∷ post) (length pre) p)
interpolate_term-IsTerm pre p post apart = record {
  polynomial = scale basis_poly p.1;
  returns =
      opened
      ∙ ap (λ r. r >>= λ fs. product fs >>= λ b. ok (scale b p.1)) factors_ok
      ∙ ap (λ r. r >>= λ b. ok (scale b p.1)) (multiplied ∙ whole.returns);
  bounded = omega (
    arith,
    length-scale basis_poly p.1,
    whole.tail_length,
    length-append pre post,
    length-append pre (p ∷ post),
  );
  values = λ x.
      value-scale basis_poly p.1 x
      ∙ ap (λ t. t ⊗ p.1)
          (whole.values x ∙ ap (λ t. t ⊗ basis p.0 (pre ++ post) x) (value-one_poly x) ∙ one-⊗ _);
}
  where
    others : List Point
    others = pre ++ post

    linear : Point → Outcome Polynomial
    linear o = div_scalar (monic_linear (neg o.0)) (p.0 ⊖ o.0)

    whole : IsProduct p.0 𝟙 [] others (fold_ok mul one_poly (map (factor p.0) others))
    whole = IsProduct-factors p.0 𝟙 [] others

    basis_poly : Polynomial
    basis_poly = poly (whole.head ∷ whole.tail)

    multiplied : product (map (factor p.0) others) ≡ fold_ok mul one_poly (map (factor p.0) others)
    multiplied = unfold product in refl

    opened : interpolate_term (pre ++ p ∷ post) (length pre) p ≡ (
        traverse
          (λ (e : ℕ × Point). linear e.1)
          (filter (λ e. not (e.0 == length pre)) (enumerate_from 0 (pre ++ p ∷ post)))
        >>= λ fs. product fs >>= λ b. ok (scale b p.1))
    opened = unfold interpolate_term in refl

    factors_ok :
        traverse
          (λ (e : ℕ × Point). linear e.1)
          (filter (λ e. not (e.0 == length pre)) (enumerate_from 0 (pre ++ p ∷ post)))
        ≡ ok (map (factor p.0) others)
    factors_ok =
        sym (traverse-map linear (λ (e : ℕ × Point). e.1) _)
        ∙ ap (traverse linear) (without_index_lem (length pre) 0 pre p post (omega arith))
        ∙ traverse-All-ok linear (factor p.0) others
            (All-implies _ _ others (div_scalar-factor p.0) apart)

-- The terms of the points in `post`, behind those in `pre`.
record AreTerms (n : ℕ) (pre post : List Point) (result : Outcome (List Polynomial)) : Type 0 where
  polynomials : List Polynomial
  returns : result ≡ ok polynomials
  bounded : All (λ q. length q.coefficients ≤ n) polynomials
  values :
      (x : Gf256) → sum_field (map (λ q. value q.coefficients x) polynomials) ≡ lagrange pre post x

unfoldable pub terms : List Point → List Point → List Point → Outcome (List Polynomial)
terms points pre post =
    traverse (λ e. interpolate_term points e.0 e.1) (enumerate_from (length pre) post)

AreTerms-cons :
    (points pre : List Point) (p : Point) (post : List Point)
    → points ≡ pre ++ p ∷ post
    → AreDistinct points
    → AreTerms (length points) (pre ++ p ∷ []) post (terms points (pre ++ p ∷ []) post)
    → AreTerms (length points) pre (p ∷ post) (terms points pre (p ∷ post))
AreTerms-cons points pre p post e distinct rest = record {
  polynomials = here.polynomial ∷ rest.polynomials;
  returns = opened ∙ ap₂ (λ r rs. r >>= λ q. map_ok (◌∷◌ q) rs) here.returns rest.returns;
  bounded = (here.bounded, rest.bounded);
  values = λ x.
      sum-cons _ _ ∙ ap₂ ◌⊕◌ (here.values x) (rest.values x) ∙ sym (lagrange-cons pre p post x);
}
  where
    here : IsTerm (length points) p (pre ++ post) (interpolate_term points (length pre) p)
    here =
        subst (λ l. IsTerm (length l) p (pre ++ post) (interpolate_term l (length pre) p)) (sym e)
          (interpolate_term-IsTerm pre p post
            (IsApart-others pre p post (subst AreDistinct e distinct)))

    opened : terms points pre (p ∷ post) ≡ (
        interpolate_term points (length pre) p >>= λ q.
        map_ok (◌∷◌ q) (terms points (pre ++ p ∷ []) post))
    opened =
        unfold terms traverse in
        ap
          (λ n. interpolate_term points (length pre) p >>= λ q.
            map_ok (◌∷◌ q)
              (traverse (λ e. interpolate_term points e.0 e.1) (enumerate_from n post)))
          {x = suc (length pre)} {y = length (pre ++ p ∷ [])}
          (omega (arith, length-append pre (p ∷ [])))

terms-AreTerms :
    (points pre post : List Point)
    → points ≡ pre ++ post
    → AreDistinct points
    → AreTerms (length points) pre post (terms points pre post)
terms-AreTerms points pre [] e distinct = record {
  polynomials = [];
  returns = unfold terms traverse in refl;
  bounded = tt;
  values = λ x. sum-nil ∙ sym (lagrange-nil pre x);
}
terms-AreTerms points pre (p ∷ post) e distinct =
    AreTerms-cons points pre p post e distinct (
      terms-AreTerms points (pre ++ p ∷ []) post (e ∙ sym (append_assoc pre (p ∷ []) post))
        distinct)

-- The sum of polynomials: its values are the sums of the values, and it is no longer than its terms.
value-sum_from :
    (acc : Polynomial) (qs : List Polynomial) (x : Gf256)
    → value (foldl add acc qs).coefficients x
      ≡ value acc.coefficients x ⊕ sum_field (map (λ q. value q.coefficients x) qs)
value-sum_from acc [] x = sym (ap (◌⊕◌ (value acc.coefficients x)) sum-nil ∙ ⊕-zero _)
value-sum_from acc (q ∷ qs) x =
    value-sum_from (add acc q) qs x
    ∙ ap (λ t. t ⊕ sum_field (map (λ q. value q.coefficients x) qs)) (value-add acc q x)
    ∙ ⊕_assoc _ _ _
    ∙ ap (◌⊕◌ (value acc.coefficients x)) (sym (sum-cons _ _))

length-sum_from :
    (n : ℕ) (acc : Polynomial) (qs : List Polynomial)
    → length acc.coefficients ≤ n
    → All (λ q. length q.coefficients ≤ n) qs
    → length (foldl add acc qs).coefficients ≤ n
length-sum_from n acc [] h k = h
length-sum_from n acc (q ∷ qs) h k = length-sum_from n (add acc q) qs (length-add n acc q h k.0) k.1

value-sum :
    (qs : List Polynomial) (x : Gf256)
    → value (sum qs).coefficients x ≡ sum_field (map (λ q. value q.coefficients x) qs)
unfolding sum
value-sum qs x = value-sum_from zero_poly qs x ∙ ap (λ t. t ⊕ total) (value-nil x) ∙ zero-⊕ total
  where
    total : Gf256
    total = sum_field (map (λ q. value q.coefficients x) qs)

length-sum :
    (n : ℕ) (qs : List Polynomial)
    → All (λ q. length q.coefficients ≤ n) qs
    → length (sum qs).coefficients ≤ n
unfolding sum
length-sum n qs h = length-sum_from n zero_poly qs (omega arith) h

-- What `interpolate` returns, and its values by Lagrange's formula.
pub record IsInterpolation (points : List Point) (result : Outcome Polynomial) : Type 0 where
  pub polynomial : Polynomial
  pub returns : result ≡ ok polynomial
  pub bounded : length polynomial.coefficients ≤ length points
  pub values : (x : Gf256) → value polynomial.coefficients x ≡ lagrange [] points x

pub interpolate-IsInterpolation :
    (points : List Point) → AreDistinct points → IsInterpolation points (interpolate points)
interpolate-IsInterpolation points distinct = record {
  polynomial = sum all.polynomials;
  returns = opened ∙ ap (map_ok sum) all.returns;
  bounded = length-sum (length points) all.polynomials all.bounded;
  values = λ x. value-sum all.polynomials x ∙ all.values x;
}
  where
    all : AreTerms (length points) [] points (terms points [] points)
    all = terms-AreTerms points [] points refl distinct

    opened : interpolate points ≡ map_ok sum (terms points [] points)
    opened = unfold interpolate terms in refl

-- Over points whose first coordinates differ pairwise, `interpolate` returns a polynomial with at
-- most as many coefficients as there are points, whose value at each point's first coordinate is
-- its second.
pub interpolate_lem :
    (points : List Point)
    → AreDistinct points
    → (p : Polynomial) × (interpolate points ≡ ok p)
      × (length p.coefficients ≤ length points)
      × All (λ k. evaluate p k.0 ≡ k.1) points
interpolate_lem points distinct = (
  found.polynomial,
  found.returns,
  found.bounded,
  All-implies _ _ points
      (λ k h. evaluate-value found.polynomial.coefficients k.0 ∙ found.values k.0 ∙ h)
      (lagrange_at_points [] points distinct),
)
  where
    found : IsInterpolation points (interpolate points)
    found = interpolate-IsInterpolation points distinct
