-- ===== src/Tss/Interpolate.antt =====
-- `interpolate` of whole shares, and the closure that it returns.
use pysui_crypto.Common.{
  ℕ, ◌<◌, ◌≡◌, sym, ap, ◌∙◌, List, [], ◌∷◌, map, length-map, length-range_from, map-get_or, map-All,
  is_empty-map, get_or, All, All-implies, All-range_from, ok, ◌>>=◌, map_ok, traverse, traverse-ok,
  traverse-All-ok, index-get_or, range_from, Array, Array_ext, to_array, to_array-ok, arith,
}
use mathlib.Core.List.{map-map}
use pysui_crypto.Byte.{U8, of_ℕ}
use pysui_crypto.Gf256.{Gf256, from_u8}
use pysui_crypto.Polynomial.{Polynomial, poly, evaluate}
use pysui_crypto.Polynomial
use pysui_crypto.Polynomial.Value.{evaluate-value}
use pysui_crypto.Polynomial.Lagrange.{Point, AreDistinct, lagrange, lagrange_at_points}
use pysui_crypto.Polynomial.Interpolation.{IsInterpolation, interpolate-IsInterpolation}
use pysui_crypto.Tss.{
  contains, all_unique, byte_of_share, combine_byte, combine, interpolate, evaluate_all,
}
use pysui_crypto.Tss.Bytes.{point, all_unique-AreDistinct}
use pysui_crypto.Tss.Combine.{AreUsable, combine_byte-lagrange}

-- Byte `i` of a share, with the index of the share.
abbrev pub byte_at : {n : ℕ} → ℕ → U8 × Array U8 n → U8 × U8
byte_at i s = (s.0, get_or s.1.items i (of_ℕ 0))

pub traverse-byte_of_share :
    {n : ℕ} (shares : List (U8 × Array U8 n)) (i : ℕ)
    → i < n
    → traverse (byte_of_share i) shares ≡ ok (map (byte_at i) shares)
unfolding byte_of_share
traverse-byte_of_share {n} shares i h =
    traverse-ok (byte_of_share i) (byte_at i) shares (λ s.
      ap (map_ok (λ b. (s.0, b))) (index-get_or s.1.items i (of_ℕ 0) (omega (arith, s.1.size))))

module _ {n : ℕ} (shares : List (U8 × Array U8 n)) (usable : AreUsable (λ s. s.0) shares) where
  abbrev pub points : ℕ → List Point
  points i = map point (map (byte_at i) shares)

  usable_at : (i : ℕ) → AreUsable {A = U8 × U8} (λ t. t.0) (map (byte_at i) shares)
  usable_at i = record {
    some_share = is_empty-map (byte_at i) shares ∙ usable.some_share;
    unique = ap all_unique (map-map (λ t. t.0) (byte_at {n = n} i) shares) ∙ usable.unique;
    no_zero =
        ap (contains (of_ℕ 0)) (map-map (λ t. t.0) (byte_at {n = n} i) shares) ∙ usable.no_zero;
  }

  pub distinct_at : (i : ℕ) → AreDistinct (points i)
  distinct_at i =
      all_unique-AreDistinct (λ t. t.0) (λ t. t.1) (map (byte_at i) shares) (usable_at i).unique

  pub found : (i : ℕ) → IsInterpolation (points i) (Polynomial.interpolate (points i))
  found i = interpolate-IsInterpolation (points i) (distinct_at i)

  abbrev pub polynomials : List Polynomial
  polynomials = map (λ i. (found i).polynomial) (range_from 0 n)

  pub interpolate-polynomials : interpolate n shares ≡ ok polynomials
  unfolding interpolate
  interpolate-polynomials =
      rw (usable.some_share, usable.unique, usable.no_zero)
        (traverse-All-ok _ (λ i. (found i).polynomial) (range_from 0 n)
          (All-range_from _ 0 n (λ i lo hi.
            ap (λ r. r >>= λ ps. Polynomial.interpolate (map point ps))
              (traverse-byte_of_share shares i (omega arith))
            ∙ (found i).returns)))

  -- The bytes at `x`, by Lagrange's formula.
  abbrev pub bytes_at : U8 → Array U8 n
  bytes_at x = record {
    items = map (λ i. (lagrange [] (points i) (from_u8 x)).byte) (range_from 0 n);
    size = length-map _ (range_from 0 n) ∙ length-range_from 0 n;
  }

  pub evaluate_all-polynomials : (x : U8) → evaluate_all n polynomials x ≡ ok (bytes_at x)
  unfolding evaluate_all
  evaluate_all-polynomials x =
      ap (to_array n) (
        map-map (λ (p : Polynomial). (evaluate p (from_u8 x)).byte) (λ i. (found i).polynomial)
          (range_from 0 n)
        ∙ map-All _ _ (range_from 0 n) (
            All-range_from _ 0 n (λ i lo hi.
              ap (λ (v : Gf256). v.byte)
                (evaluate-value (found i).polynomial.coefficients (from_u8 x)
                  ∙ (found i).values (from_u8 x)))))
      ∙ to_array-ok n _ _

  pub combine-bytes_at : combine n shares ≡ ok (bytes_at (of_ℕ 0))
  unfolding combine
  combine-bytes_at =
      ap (λ r. r >>= to_array n)
        (traverse-All-ok _ (λ i. (lagrange [] (points i) (from_u8 (of_ℕ 0))).byte) (range_from 0 n)
          (All-range_from _ 0 n (λ i lo hi.
            ap (λ r. r >>= combine_byte) (traverse-byte_of_share shares i (omega arith))
            ∙ combine_byte-lagrange (map (byte_at i) shares) (usable_at i))))
      ∙ to_array-ok n _ _

  through :
      (ss : List (U8 × Array U8 n))
      → ((i : ℕ) → All (λ k. lagrange [] (points i) k.0 ≡ k.1) (map point (map (byte_at i) ss)))
      → All
          (λ s.
            (i : ℕ) → lagrange [] (points i) (from_u8 s.0) ≡ from_u8 (get_or s.1.items i (of_ℕ 0)))
          ss
  through [] h = tt
  through (s ∷ ss) h = (λ i. (h i).0, through ss (λ i. (h i).1))

  at_shares : All (λ s. evaluate_all n polynomials s.0 ≡ ok s.1) shares
  at_shares =
      All-implies _ _ shares
        (λ s h.
          evaluate_all-polynomials s.0
          ∙ ap ok (
              Array_ext (bytes_at s.0) s.1 (
                map-All _ _ (range_from 0 n)
                  (All-range_from _ 0 n (λ i lo hi. ap (λ (v : Gf256). v.byte) (h i)))
                ∙ ap (λ m. map (λ i. get_or s.1.items i (of_ℕ 0)) (range_from 0 m)) (sym s.1.size)
                ∙ map-get_or s.1.items (of_ℕ 0))))
        (through shares (λ i. lagrange_at_points [] (points i) (distinct_at i)))

-- On at least one share, where no index is zero or occurs twice, `interpolate` succeeds. The closure
-- that it returns gives at the index of each share that share, and at zero what `combine` gives.
pub interpolate-evaluate_all :
    (n : ℕ) (shares : List (U8 × Array U8 n))
    → AreUsable (λ s. s.0) shares
    → (ps : List Polynomial) × (interpolate n shares ≡ ok ps)
      × All (λ s. evaluate_all n ps s.0 ≡ ok s.1) shares
      × (combine n shares ≡ evaluate_all n ps (of_ℕ 0))
interpolate-evaluate_all n shares usable = (
  polynomials shares usable,
  interpolate-polynomials shares usable,
  at_shares shares usable,
  combine-bytes_at shares usable ∙ sym (evaluate_all-polynomials shares usable (of_ℕ 0)),
)
