-- ===== src/Tss/Columns.antt =====
-- The closure of `interpolate` on shares that were made by `split`.
use pysui_crypto.Common.{
  ℕ, suc, ◌+◌, ◌≤◌, ◌<◌, ◌≡◌, sym, ap, ◌∙◌, List, [], ◌∷◌, map, length, length-map, map-get_or,
  get_or, get_or-map, map-All, All, All-get_or, All-range_from, ok, range_from, Array, Array_ext,
  arith,
}
use mathlib.Core.List.{map-map}
use pysui_crypto.Byte.{U8, of_ℕ}
use pysui_crypto.Gf256.{Gf256, from_u8}
use pysui_crypto.Polynomial.Value.{value}
use pysui_crypto.Polynomial.Lagrange.{lagrange}
use pysui_crypto.Tss.{evaluate_all}
use pysui_crypto.Tss.Bytes.{point}
use pysui_crypto.Tss.Combine.{AreUsable}
use pysui_crypto.Tss.Shamir.{evaluation, lagrange-polynomial}
use pysui_crypto.Tss.Split.{Shared}
use pysui_crypto.Tss.Picked.{IsColumn}
use pysui_crypto.Tss.Interpolate.{
  byte_at, points, distinct_at, polynomials, bytes_at, evaluate_all-polynomials,
}

module _ {n : ℕ} (shares : List (U8 × Array U8 n)) (usable : AreUsable (λ s. s.0) shares)
    (ps : List Shared) (size : length ps ≡ n) where
  -- The share at `x` of what the polynomials share.
  abbrev pub share_at : U8 → Array U8 n
  share_at x = record { items = map (λ p. evaluation p x) ps; size = length-map _ ps ∙ size }

  abbrev polynomial_at : ℕ → Shared
  polynomial_at i = get_or ps i (of_ℕ 0, [])

  on_curve :
      (i : ℕ) (ss : List (U8 × Array U8 n))
      → i < n
      → All (IsColumn ps) ss
      → All
          (λ k. k.1 ≡ value (from_u8 (polynomial_at i).0 ∷ (polynomial_at i).1) k.0)
          (map point (map (byte_at i) ss))
  on_curve i [] h columns = tt
  on_curve i (s ∷ ss) h columns = (
    ap from_u8 (
        ap (λ l. get_or l i (of_ℕ 0)) columns.0
        ∙ get_or-map (λ p. evaluation p s.0) ps i (of_ℕ 0, []) (of_ℕ 0) (omega (arith, size))),
    on_curve i ss h columns.1,
  )

  pub evaluate_all-columns :
      All (λ p. suc (length p.1) ≤ length shares) ps
      → All (IsColumn ps) shares
      → (x : U8) → evaluate_all n (polynomials shares usable) x ≡ ok (share_at x)
  evaluate_all-columns enough columns x =
      evaluate_all-polynomials shares usable x
      ∙ ap ok (
          Array_ext (bytes_at shares usable x) (share_at x) (
            map-All _ _ (range_from 0 n) (All-range_from _ 0 n at_byte)
            ∙ ap (λ m. map (λ i. evaluation (polynomial_at i) x) (range_from 0 m)) (sym size)
            ∙ sym (map-map (λ p. evaluation p x) polynomial_at (range_from 0 (length ps)))
            ∙ ap (map (λ p. evaluation p x)) (map-get_or ps (of_ℕ 0, []))))
    where
      at_byte :
          (i : ℕ)
          → 0 ≤ i
          → i < 0 + n
          → (lagrange [] (points shares usable i) (from_u8 x)).byte ≡ evaluation (polynomial_at i) x
      at_byte i lo hi =
          ap (λ (v : Gf256). v.byte)
            (lagrange-polynomial (from_u8 (polynomial_at i).0 ∷ (polynomial_at i).1)
              (points shares usable i) (distinct_at shares usable i)
              (omega (
                arith,
                All-get_or (λ (p : Shared). suc (length p.1) ≤ length shares) ps i (of_ℕ 0, [])
                    (omega (arith, size)) enough,
                length-map point (map (byte_at i) shares),
                length-map (byte_at {n = n} i) shares,
              ))
              (on_curve i shares (omega arith) columns) (from_u8 x))
