-- ===== src/Tss/Shamir.antt =====
-- Shamir's scheme for one byte: evaluations of a polynomial, and its constant term.
use pysui_crypto.Common.{
  suc, ◌≤◌, ◌≡◌, sym, ap, ◌∙◌, List, [], ◌∷◌, map, length, length-map, All, ok, arith,
}
use pysui_crypto.Byte.{U8}
use pysui_crypto.Gf256.{Gf256, from_u8, zero as 𝟘}
use pysui_crypto.Polynomial.Value.{value, value_at_zero}
use pysui_crypto.Polynomial.Roots.{value_unique}
use pysui_crypto.Polynomial.Lagrange.{Point, AreDistinct, abscissa, lagrange, lagrange_at_points}
use pysui_crypto.Polynomial.Interpolation.{IsInterpolation, interpolate-IsInterpolation}
use pysui_crypto.Polynomial.{interpolate}
use pysui_crypto.Tss.{combine_byte}
use pysui_crypto.Tss.Bytes.{point, all_unique-AreDistinct}
use pysui_crypto.Tss.Combine.{AreUsable, combine_byte-lagrange}

-- The share of a byte at an index: the value there of the polynomial with the constant term
-- `secret` and the further coefficients `cs`.
abbrev pub evaluation : U8 × List Gf256 → U8 → U8
evaluation p x = (value (from_u8 p.0 ∷ p.1) (from_u8 x)).byte

-- Lagrange's formula over points on a short enough polynomial is that polynomial.
pub lagrange-polynomial :
    (cs : List Gf256) (points : List Point)
    → AreDistinct points
    → length cs ≤ length points
    → All (λ k. k.1 ≡ value cs k.0) points
    → (x : Gf256) → lagrange [] points x ≡ value cs x
lagrange-polynomial cs points distinct fits on_curve x =
    sym (found.values x)
    ∙ value_unique found.polynomial.coefficients cs (map abscissa points) distinct
        (omega (arith, found.bounded, length-map abscissa points))
        (omega (arith, length-map abscissa points))
        (agree points (lagrange_at_points [] points distinct) on_curve) x
  where
    found : IsInterpolation points (interpolate points)
    found = interpolate-IsInterpolation points distinct

    agree :
        (ks : List Point)
        → All (λ k. lagrange [] points k.0 ≡ k.1) ks
        → All (λ k. k.1 ≡ value cs k.0) ks
        → All (λ r. value found.polynomial.coefficients r ≡ value cs r) (map abscissa ks)
    agree [] h l = tt
    agree (k ∷ ks) h l = (found.values k.0 ∙ h.0 ∙ l.0, agree ks h.1 l.1)

on_curve :
    (p : U8 × List Gf256) (shares : List (U8 × U8))
    → All (λ s. s.1 ≡ evaluation p s.0) shares
    → All (λ k. k.1 ≡ value (from_u8 p.0 ∷ p.1) k.0) (map point shares)
on_curve p [] h = tt
on_curve p (s ∷ shares) h = (ap from_u8 h.0, on_curve p shares h.1)

-- Shares of one byte that lie on a polynomial, where no index is zero or occurs twice, and that are
-- at least as many as the polynomial has coefficients, combine to its constant term.
pub combine_byte-evaluation :
    (p : U8 × List Gf256) (shares : List (U8 × U8))
    → AreUsable (λ t. t.0) shares
    → suc (length p.1) ≤ length shares
    → All (λ s. s.1 ≡ evaluation p s.0) shares
    → combine_byte shares ≡ ok p.0
combine_byte-evaluation p shares usable enough shared =
    combine_byte-lagrange shares usable
    ∙ ap (λ (v : Gf256). ok v.byte)
        (lagrange-polynomial (from_u8 p.0 ∷ p.1) (map point shares)
            (all_unique-AreDistinct (λ t. t.0) (λ t. t.1) shares usable.unique)
            (omega (arith, length-map point shares)) (on_curve p shares shared) 𝟘
          ∙ value_at_zero (from_u8 p.0) p.1)
