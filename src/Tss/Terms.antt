-- ===== src/Tss/Terms.antt =====
-- The terms of `combine_byte`, and those of Lagrange's formula at zero.
use pysui_crypto.Common.{
  ◌≡◌, refl, sym, ap, ap₂, ◌∙◌, false, not, List, [], ◌∷◌, ◌++◌, map, filter, ok, unwrap,
}
use pysui_crypto.Byte.{U8, eq}
use pysui_crypto.Gf256.{Gf256, from_u8, zero as 𝟘, one as 𝟙, is_zero, ◌⊕◌, ◌⊖◌, ◌⊗◌, div, product}
use pysui_crypto.Gf256.Field.{⊕_comm, zero-⊕, ⊗_comm, ⊗_assoc, one-⊗, ⊗-one, ⊗-ne-zero}
use pysui_crypto.Gf256.Division.{inverse, ⊗-inverse, div-inverse, ⊖-eq-⊕}
use pysui_crypto.Gf256.Sums.{product-nil, product-cons, product-map-⊗, ⊗_interchange}
use pysui_crypto.Polynomial.Lagrange.{Point, IsApart, basis}
use pysui_crypto.Tss.{combine_term}
use pysui_crypto.Tss.Bytes.{point, filter_others, product-ne-zero}

-- (x X) (y / (x D)) = (X I) y where D I = 1.
cancel :
    (x X y D I : Gf256)
    → is_zero (x ⊗ D) ≡ false
    → D ⊗ I ≡ 𝟙
    → (x ⊗ X) ⊗ (y ⊗ inverse (x ⊗ D)) ≡ (X ⊗ I) ⊗ y
cancel x X y D I nonzero e =
    let v = inverse (x ⊗ D) in
    ap (◌⊗◌ (x ⊗ X)) (⊗_comm y v)
    ∙ ⊗_interchange x X v y
    ∙ sym (⊗-one _)
    ∙ ap (◌⊗◌ ((x ⊗ v) ⊗ (X ⊗ y))) (sym e)
    ∙ ⊗_interchange (x ⊗ v) (X ⊗ y) D I
    ∙ ap₂ ◌⊗◌
        (⊗_assoc x v D ∙ ap (◌⊗◌ x) (⊗_comm v D) ∙ sym (⊗_assoc x D v) ∙ ⊗-inverse (x ⊗ D) nonzero)
        (⊗_assoc X y I ∙ ap (◌⊗◌ X) (⊗_comm y I) ∙ sym (⊗_assoc X I y))
    ∙ one-⊗ _

-- The distances from the other indices, as the code multiplies them.
spread : U8 → List (U8 × U8) → Gf256
spread x others = product (map (λ j. from_u8 j ⊖ from_u8 x) (map (λ t. t.0) others))

spread-points :
    (x : U8) (others : List (U8 × U8))
    → spread x others ≡ product (map (λ (o : Point). from_u8 x ⊕ o.0) (map point others))
unfolding spread
spread-points x [] = refl
spread-points x (o ∷ others) =
    product-cons _ _
    ∙ ap₂ ◌⊗◌ (⊖-eq-⊕ _ _ ∙ ⊕_comm _ _) (spread-points x others)
    ∙ sym (product-cons _ _)

indices-points :
    (others : List (U8 × U8))
    → product (map (λ (t : U8 × U8). from_u8 t.0) others)
      ≡ product (map (λ (o : Point). 𝟘 ⊕ o.0) (map point others))
indices-points [] = refl
indices-points (o ∷ others) =
    product-cons _ _ ∙ ap₂ ◌⊗◌ (sym (zero-⊕ _)) (indices-points others) ∙ sym (product-cons _ _)

inverses : Gf256 → List Point → Gf256
inverses x os = product (map (λ (o : Point). inverse (x ⊕ o.0)) os)

spread-inverses :
    (x : Gf256) (os : List Point)
    → IsApart x os
    → product (map (λ (o : Point). x ⊕ o.0) os) ⊗ inverses x os ≡ 𝟙
unfolding inverses
spread-inverses x os h =
    sym (product-map-⊗ (λ (o : Point). x ⊕ o.0) (λ (o : Point). inverse (x ⊕ o.0)) os) ∙ ones os h
  where
    ones :
        (ps : List Point)
        → IsApart x ps
        → product (map (λ (o : Point). (x ⊕ o.0) ⊗ inverse (x ⊕ o.0)) ps) ≡ 𝟙
    ones [] h = product-nil
    ones (p ∷ ps) h = product-cons _ _ ∙ ap₂ ◌⊗◌ (⊗-inverse _ h.0) (ones ps h.1) ∙ one-⊗ 𝟙

-- The term of a share in the code's form, and in Lagrange's.
pub term : U8 × U8 → List (U8 × U8) → Gf256
term s others = from_u8 s.1 ⊗ inverse (from_u8 s.0 ⊗ spread s.0 others)

pub term-basis :
    (s : U8 × U8) (others : List (U8 × U8))
    → is_zero (from_u8 s.0) ≡ false
    → IsApart (from_u8 s.0) (map point others)
    → (from_u8 s.0 ⊗ product (map (λ (t : U8 × U8). from_u8 t.0) others)) ⊗ term s others
      ≡ basis (from_u8 s.0) (map point others) 𝟘 ⊗ from_u8 s.1
unfolding term
term-basis s others nonzero apart =
    cancel (from_u8 s.0) _ (from_u8 s.1) (spread s.0 others)
      (inverses (from_u8 s.0) (map point others))
      (⊗-ne-zero _ _ nonzero
        (ap is_zero (spread-points s.0 others) ∙ product-ne-zero _ (map point others) apart))
      (ap (λ d. d ⊗ inverses (from_u8 s.0) (map point others)) (spread-points s.0 others)
        ∙ spread-inverses (from_u8 s.0) (map point others) apart)
    ∙ ap (λ t. t ⊗ from_u8 s.1)
        (ap (λ d. d ⊗ inverses (from_u8 s.0) (map point others)) (indices-points others)
          ∙ split_basis)
  where
    split_basis :
        product (map (λ (o : Point). 𝟘 ⊕ o.0) (map point others))
          ⊗ inverses (from_u8 s.0) (map point others)
        ≡ basis (from_u8 s.0) (map point others) 𝟘
    split_basis =
        unfold basis inverses in
        sym (
          product-map-⊗ (λ (o : Point). 𝟘 ⊕ o.0) (λ (o : Point). inverse (from_u8 s.0 ⊕ o.0))
            (map point others))

-- No share makes the division fail, so the `unwrap` does not panic.
pub combine_term-ok :
    (pre : List (U8 × U8)) (s : U8 × U8) (post : List (U8 × U8))
    → is_zero (from_u8 s.0) ≡ false
    → IsApart (from_u8 s.0) (map point (pre ++ post))
    → combine_term (pre ++ s ∷ post) s ≡ ok (term s (pre ++ post))
combine_term-ok pre s post nonzero apart =
    opened
    ∙ ap
        (λ js.
          unwrap
            (div (from_u8 s.1) (from_u8 s.0 ⊗ product (map (λ j. from_u8 j ⊖ from_u8 s.0) js))))
        (filter_others pre s post apart)
    ∙ closed
  where
    opened :
        combine_term (pre ++ s ∷ post) s
        ≡ unwrap (
            div (from_u8 s.1) (
              from_u8 s.0
              ⊗ product (
                  map
                    (λ j. from_u8 j ⊖ from_u8 s.0)
                    (filter (λ j. not (eq j s.0)) (map (λ t. t.0) (pre ++ s ∷ post))))))
    opened = unfold combine_term in refl

    denominator_nonzero : is_zero (from_u8 s.0 ⊗ spread s.0 (pre ++ post)) ≡ false
    denominator_nonzero = ⊗-ne-zero _ _ nonzero (
        ap is_zero (spread-points s.0 (pre ++ post))
        ∙ product-ne-zero _ (map point (pre ++ post)) apart)

    closed :
        unwrap (
          div (from_u8 s.1) (
            from_u8 s.0
            ⊗ product (map (λ j. from_u8 j ⊖ from_u8 s.0) (map (λ t. t.0) (pre ++ post)))))
        ≡ ok (term s (pre ++ post))
    closed =
        unfold term spread in
        ap unwrap (div-inverse (from_u8 s.1) _ (unfold spread in denominator_nonzero))
