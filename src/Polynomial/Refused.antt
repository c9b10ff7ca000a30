-- ===== src/Polynomial/Refused.antt =====
-- `Polynomial::interpolate` on every list of points.
use pysui_crypto.Common.{
  ℕ, suc, ◌≤◌, ◌≡◌, refl, sym, ap, ◌∙◌, ◌⊎◌, inl, inr, true, false, not, List, [], ◌∷◌, ◌++◌, map,
  filter, length, length-append, enumerate_from, without_index_lem, ◌==◌, All, All-of_map,
  All-append_right, Outcome, ok, err, invalid_input, map_ok, ◌>>=◌, traverse, traverse-map,
  Bool-cases, arith,
}
use mathlib.Core.List.{append_assoc}
use pysui_crypto.Gf256.{Gf256, is_zero, ◌⊕◌, ◌⊖◌, neg}
use pysui_crypto.Gf256.Division.{div-zero, ⊖-eq-⊕}
use pysui_crypto.Polynomial.{
  Polynomial, evaluate, div_scalar, monic_linear, product, scale, sum, interpolate_term,
  interpolate,
}
use pysui_crypto.Polynomial.Factors.{factor, div_scalar-factor}
use pysui_crypto.Polynomial.Lagrange.{Point, AreDistinct, IsApart}
use pysui_crypto.Polynomial.Interpolation.{terms, interpolate_term-IsTerm, interpolate_lem}

linear : Gf256 → Point → Outcome Polynomial
linear x o = div_scalar (monic_linear (neg o.0)) (x ⊖ o.0)

linear-err : (x : Gf256) (o : Point) → is_zero (x ⊕ o.0) ≡ true → linear x o ≡ err invalid_input
unfolding linear div_scalar
linear-err x o h = rw (⊖-eq-⊕ x o.0, div-zero _ (x ⊕ o.0) h) refl

linear-ok : (x : Gf256) (o : Point) → is_zero (x ⊕ o.0) ≡ false → linear x o ≡ ok (factor x o)
unfolding linear
linear-ok x o h = div_scalar-factor x o h

-- The factors of a point that is apart from the others, or an error.
IsApart-or_err :
    (x : Gf256) (others : List Point)
    → (IsApart x others × (traverse (linear x) others ≡ ok (map (factor x) others)))
      ⊎ (traverse (linear x) others ≡ err invalid_input)
unfolding traverse
IsApart-or_err x [] = inl (tt, refl)
IsApart-or_err x (o ∷ others) = elim (Bool-cases (is_zero (x ⊕ o.0))) [
  | inl e ↦ inr (rw (linear-err x o e) refl)
  | inr e ↦ elim (IsApart-or_err x others) [
    | inl (apart, h) ↦ inl ((e, apart), rw (linear-ok x o e, h) refl)
    | inr h ↦ inr (rw (linear-ok x o e, h) refl)
  ]
]

-- The term of a point is made, or an error, if another has the same abscissa.
term_or_err :
    (pre : List Point) (p : Point) (post : List Point)
    → (IsApart p.0 (pre ++ post)
        × ((q : Polynomial) × (interpolate_term (pre ++ p ∷ post) (length pre) p ≡ ok q)))
      ⊎ (interpolate_term (pre ++ p ∷ post) (length pre) p ≡ err invalid_input)
term_or_err pre p post = elim (IsApart-or_err p.0 (pre ++ post)) [
  | inl (apart, h) ↦
      let term = interpolate_term-IsTerm pre p post apart in
      inl (apart, (term.polynomial, term.returns))
  | inr h ↦ inr (opened ∙ ap (λ r. r >>= λ fs. product fs >>= λ b. ok (scale b p.1)) (factors ∙ h))
]
  where
    opened : interpolate_term (pre ++ p ∷ post) (length pre) p ≡ (
        traverse
          (λ (e : ℕ × Point). linear p.0 e.1)
          (filter (λ e. not (e.0 == length pre)) (enumerate_from 0 (pre ++ p ∷ post)))
        >>= λ fs. product fs >>= λ b. ok (scale b p.1))
    opened = unfold interpolate_term linear in refl

    factors :
        traverse
          (λ (e : ℕ × Point). linear p.0 e.1)
          (filter (λ e. not (e.0 == length pre)) (enumerate_from 0 (pre ++ p ∷ post)))
        ≡ traverse (linear p.0) (pre ++ post)
    factors =
        sym (traverse-map (linear p.0) (λ (e : ℕ × Point). e.1) _)
        ∙ ap (traverse (linear p.0)) (without_index_lem (length pre) 0 pre p post (omega arith))

-- All terms are made, or an error.
AreDistinct-or_err :
    (pre post : List Point) → AreDistinct post ⊎ (terms (pre ++ post) pre post ≡ err invalid_input)
AreDistinct-or_err pre [] = inl tt
AreDistinct-or_err pre (p ∷ post) = elim (term_or_err pre p post) [
  | inr h ↦ inr (opened ∙ ap (λ r. r >>= λ q. map_ok (◌∷◌ q) rest) h)
  | inl (apart, (q, h)) ↦ elim (AreDistinct-or_err (pre ++ p ∷ []) post) [
    | inl distinct ↦ inl (All-of_map _ _ post (All-append_right _ pre post apart), distinct)
    | inr failed ↦ inr (
        opened
        ∙ ap (λ r. r >>= λ q. map_ok (◌∷◌ q) rest) h
        ∙ ap (map_ok (◌∷◌ q)) (
            ap (λ l. terms l (pre ++ p ∷ []) post) (sym (append_assoc pre (p ∷ []) post)) ∙ failed))
  ]
]
  where
    rest : Outcome (List Polynomial)
    rest = terms (pre ++ p ∷ post) (pre ++ p ∷ []) post

    opened :
        terms (pre ++ p ∷ post) pre (p ∷ post)
        ≡ (interpolate_term (pre ++ p ∷ post) (length pre) p >>= λ q. map_ok (◌∷◌ q) rest)
    opened =
        unfold terms traverse in
        ap
          (λ n. interpolate_term (pre ++ p ∷ post) (length pre) p >>= λ q.
            map_ok (◌∷◌ q)
              (traverse (λ e. interpolate_term (pre ++ p ∷ post) e.0 e.1) (enumerate_from n post)))
          {x = suc (length pre)} {y = length (pre ++ p ∷ [])}
          (omega (arith, length-append pre (p ∷ [])))

-- What `interpolate` does on any list of points. Where the first coordinates differ pairwise, it
-- returns a polynomial with at most as many coefficients as there are points, whose value at each
-- point's first coordinate is its second. Where two of them are equal, the points are invalid input;
-- it never panics.
pub interpolate_cases :
    (points : List Point)
    → (AreDistinct points
        × ((p : Polynomial) × (interpolate points ≡ ok p)
            × (length p.coefficients ≤ length points)
            × All (λ k. evaluate p k.0 ≡ k.1) points))
      ⊎ (¬ (AreDistinct points) × (interpolate points ≡ err invalid_input))
interpolate_cases points = elim (AreDistinct-or_err [] points) [
  | inl distinct ↦ inl (distinct, interpolate_lem points distinct)
  | inr failed ↦ inr ((λ d. clash d (fails failed)), fails failed)
]
  where
    fails : terms points [] points ≡ err invalid_input → interpolate points ≡ err invalid_input
    fails failed = opened ∙ ap (map_ok sum) failed
      where
        opened : interpolate points ≡ map_ok sum (terms points [] points)
        opened = unfold interpolate terms in refl

    clash : AreDistinct points → ¬ (interpolate points ≡ err invalid_input)
    clash d e = let (p, made, _, _) = interpolate_lem points d in cc (sym made ∙ e)
