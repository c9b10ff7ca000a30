-- ===== src/Tss/Agree.antt =====
-- Two interpolations that agree at enough indices.
use pysui_crypto.Common.{
  ℕ, ◌≤◌, ◌≡◌, refl, sym, ap, ap₂, subst, ◌∙◌, List, [], ◌∷◌, map, length, length-map,
  length-range_from, All, All-implies, All-always, All-of_map, ok, ok_injective, range_from, Array,
  to_array, to_array-ok, arith,
}
use mathlib.Core.List.{map-map}
use pysui_crypto.Byte.{U8}
use pysui_crypto.Gf256.{Gf256, from_u8}
use pysui_crypto.Polynomial.{Polynomial, evaluate}
use pysui_crypto.Polynomial.Value.{evaluate-value}
use pysui_crypto.Polynomial.Roots.{IsDistinct, value_unique}
use pysui_crypto.Polynomial.Lagrange.{abscissa}
use pysui_crypto.Tss.{evaluate_all}
use pysui_crypto.Tss.Bytes.{point, as_point, all_unique-AreDistinct}
use pysui_crypto.Tss.Combine.{AreUsable}
use pysui_crypto.Tss.Interpolate.{byte_at, found, polynomials}

-- At most as many coefficients as `m`.
abbrev pub AreShort : ℕ → List Polynomial → Type 0
AreShort m ps = All (λ (p : Polynomial). length p.coefficients ≤ m) ps

module _ {n : ℕ} (shares : List (U8 × Array U8 n)) (usable : AreUsable (λ s. s.0) shares) where
  pub polynomials-AreShort : AreShort (length shares) (polynomials shares usable)
  polynomials-AreShort =
      All-of_map (λ (p : Polynomial). length p.coefficients ≤ length shares)
        (λ i. (found shares usable i).polynomial) (range_from 0 n)
        (All-always _ (range_from 0 n) (λ i. omega (
          arith,
          (found shares usable i).bounded,
          length-map point (map (byte_at i) shares),
          length-map (byte_at {n = n} i) shares,
        )))

  pub length-polynomials : length (polynomials shares usable) ≡ n
  length-polynomials = length-map _ (range_from 0 n) ∙ length-range_from 0 n

  -- The indices, as field elements.
  abbrev pub abscissas : List Gf256
  abscissas = map (λ (s : U8 × Array U8 n). from_u8 s.0) shares

  pub abscissas-IsDistinct : IsDistinct abscissas
  abscissas-IsDistinct =
      subst IsDistinct
        (map-map abscissa (as_point {A = U8 × Array U8 n} (λ s. s.0) (λ s. s.0)) shares)
        (all_unique-AreDistinct (λ s. s.0) (λ s. s.0) shares usable.unique)

abbrev values_at : Gf256 → List Polynomial → List U8
values_at x ps = map (λ (p : Polynomial). (evaluate p x).byte) ps

-- Lists of short polynomials that agree at enough points agree everywhere.
agree_everywhere :
    (rs : List Gf256) (ps qs : List Polynomial)
    → IsDistinct rs
    → AreShort (length rs) ps
    → AreShort (length rs) qs
    → length ps ≡ length qs
    → All (λ r. values_at r ps ≡ values_at r qs) rs
    → (x : Gf256) → values_at x ps ≡ values_at x qs
agree_everywhere rs [] [] distinct p q e h x = refl
agree_everywhere rs [] (k ∷ qs) distinct p q e h x = absurd (omega arith)
agree_everywhere rs (k ∷ ps) [] distinct p q e h x = absurd (omega arith)
agree_everywhere rs (k ∷ ps) (l ∷ qs) distinct p q e h x =
    ap₂ ◌∷◌
      (ap (λ (v : Gf256). v.byte)
        (evaluate-value k.coefficients x
          ∙ value_unique k.coefficients l.coefficients rs distinct p.0 q.0
              (All-implies _ _ rs
                (λ r t.
                  sym (evaluate-value k.coefficients r)
                  ∙ ap from_u8 (cc t)
                  ∙ evaluate-value l.coefficients r)
                h)
              x
          ∙ sym (evaluate-value l.coefficients x)))
      (agree_everywhere rs ps qs distinct p.1 q.1 (omega arith) (All-implies _ _ rs (λ r t. cc t) h)
        x)

evaluate_all-ok :
    (n : ℕ) (ps : List Polynomial) (x : U8) (e : length ps ≡ n)
    → evaluate_all n ps x
      ≡ ok (record {
        items = values_at (from_u8 x) ps;
        size = length-map (λ (p : Polynomial). (evaluate p (from_u8 x)).byte) ps ∙ e;
      })
unfolding evaluate_all
evaluate_all-ok n ps x e = to_array-ok n _ _

-- So the closures do.
pub closures_agree :
    {n : ℕ} (shares : List (U8 × Array U8 n)) (usable : AreUsable (λ s. s.0) shares)
    (ps qs : List Polynomial)
    → length ps ≡ n
    → length qs ≡ n
    → AreShort (length shares) ps
    → AreShort (length shares) qs
    → All (λ s. evaluate_all n ps s.0 ≡ evaluate_all n qs s.0) shares
    → (x : U8) → evaluate_all n ps x ≡ evaluate_all n qs x
unfolding evaluate_all
closures_agree {n} shares usable ps qs sp sq p q h x = ap (to_array n) (
    agree_everywhere (abscissas shares usable) ps qs (abscissas-IsDistinct shares usable)
      (subst (λ m. AreShort m ps) (sym (length-map (λ (s : U8 × Array U8 n). from_u8 s.0) shares))
        p)
      (subst (λ m. AreShort m qs) (sym (length-map (λ (s : U8 × Array U8 n). from_u8 s.0) shares))
        q)
      (sp ∙ sym sq)
      (All-of_map (λ r. values_at r ps ≡ values_at r qs) (λ (s : U8 × Array U8 n). from_u8 s.0)
        shares
        (All-implies _ _ shares
          (λ s t.
            ap (λ (a : Array U8 n). a.items)
              (ok_injective (sym (evaluate_all-ok n ps s.0 sp) ∙ t ∙ evaluate_all-ok n qs s.0 sq)))
          h))
      (from_u8 x))
