-- ===== src/Tss/Combine.antt =====
-- `combine_byte` against Lagrange's formula at zero.
use pysui_crypto.Common.{
  ◌≡◌, refl, sym, ap, ap₂, subst, ◌∙◌, true, false, List, [], ◌∷◌, ◌++◌, map, is_empty, All, ok,
  map_ok, ◌>>=◌, traverse,
}
use mathlib.Core.List.{map-append, append_assoc}
use pysui_crypto.Byte.{U8, of_ℕ, eq}
use pysui_crypto.Gf256.{Gf256, from_u8, zero as 𝟘, is_zero, ◌⊕◌, ◌⊗◌, sum, product}
use pysui_crypto.Gf256.Field.{zero-⊕, ⊗-zero, ⊗-⊕}
use pysui_crypto.Gf256.Sums.{sum-nil, sum-cons}
use pysui_crypto.Polynomial.Lagrange.{
  AreDistinct, IsApart, basis, lagrange, lagrange-nil, lagrange-cons, IsApart-others,
}
use pysui_crypto.Tss.{contains, all_unique, combine_term, combine_byte}
use pysui_crypto.Tss.Bytes.{
  point, apart_of_eq, contains-false, product_middle, all_unique-AreDistinct,
}
use pysui_crypto.Tss.Terms.{term, term-basis, combine_term-ok}

-- The terms of the shares in `post`, behind those in `pre`, times the product of all indices.
record AreTerms (shares pre post : List (U8 × U8)) : Type 0 where
  values : List Gf256
  returns : traverse (combine_term shares) post ≡ ok values
  total :
      product (map (λ (t : U8 × U8). from_u8 t.0) shares) ⊗ sum values
      ≡ lagrange (map point pre) (map point post) 𝟘

AreTerms-cons :
    (shares pre : List (U8 × U8)) (s : U8 × U8) (post : List (U8 × U8))
    → shares ≡ pre ++ s ∷ post
    → AreDistinct (map point shares)
    → is_zero (from_u8 s.0) ≡ false
    → AreTerms shares (pre ++ s ∷ []) post
    → AreTerms shares pre (s ∷ post)
AreTerms-cons shares pre s post e distinct nonzero rest = record {
  values = term s (pre ++ post) ∷ rest.values;
  returns = opened ∙ ap₂ (λ r rs. r >>= λ q. map_ok (◌∷◌ q) rs) here rest.returns;
  total =
      ap (◌⊗◌ whole) (sum-cons _ _)
      ∙ ⊗-⊕ whole _ _
      ∙ ap₂ ◌⊕◌
          (ap (λ w. w ⊗ term s (pre ++ post)) whole_split
            ∙ term-basis s (pre ++ post) nonzero apart)
          (rest.total ∙ ap (λ l. lagrange l (map point post) 𝟘) (map-append point pre (s ∷ [])))
      ∙ ap
          (λ l.
            (basis (from_u8 s.0) l 𝟘 ⊗ from_u8 s.1)
            ⊕ lagrange (map point pre ++ point s ∷ []) (map point post) 𝟘)
          (map-append point pre post)
      ∙ sym (lagrange-cons (map point pre) (point s) (map point post) 𝟘);
}
  where
    whole : Gf256
    whole = product (map (λ (t : U8 × U8). from_u8 t.0) shares)

    whole_split : whole ≡ from_u8 s.0 ⊗ product (map (λ (t : U8 × U8). from_u8 t.0) (pre ++ post))
    whole_split =
        ap (λ l. product (map (λ (t : U8 × U8). from_u8 t.0) l)) e
        ∙ product_middle (λ (t : U8 × U8). from_u8 t.0) pre s post

    apart : IsApart (from_u8 s.0) (map point (pre ++ post))
    apart = subst (IsApart (from_u8 s.0)) (sym (map-append point pre post)) (
        IsApart-others (map point pre) (point s) (map point post)
          (subst AreDistinct (ap (map point) e ∙ map-append point pre (s ∷ post)) distinct))

    here : combine_term shares s ≡ ok (term s (pre ++ post))
    here = ap (λ l. combine_term l s) e ∙ combine_term-ok pre s post nonzero apart

    opened :
        traverse (combine_term shares) (s ∷ post)
        ≡ (combine_term shares s >>= λ q. map_ok (◌∷◌ q) (traverse (combine_term shares) post))
    opened = unfold traverse in refl

terms-AreTerms :
    (shares pre post : List (U8 × U8))
    → shares ≡ pre ++ post
    → AreDistinct (map point shares)
    → All (λ s. is_zero (from_u8 s.0) ≡ false) post
    → AreTerms shares pre post
terms-AreTerms shares pre [] e distinct nonzero = record {
  values = [];
  returns = unfold traverse in refl;
  total = ap (◌⊗◌ _) sum-nil ∙ ⊗-zero _ ∙ sym (lagrange-nil (map point pre) 𝟘);
}
terms-AreTerms shares pre (s ∷ post) e distinct nonzero =
    AreTerms-cons shares pre s post e distinct nonzero.0 (
      terms-AreTerms shares (pre ++ s ∷ []) post (e ∙ sym (append_assoc pre (s ∷ []) post)) distinct
        nonzero.1)

-- The shares that pass the guards: at least one, no index twice, no index zero.
pub record AreUsable {A : Type 0} (index_of : A → U8) (shares : List A) : Type 0 where
  pub some_share : is_empty shares ≡ false
  pub unique : all_unique (map index_of shares) ≡ true
  pub no_zero : contains (of_ℕ 0) (map index_of shares) ≡ false

nonzero_indices :
    (shares : List (U8 × U8))
    → All (λ b. eq (of_ℕ 0) b ≡ false) (map (λ t. t.0) shares)
    → All (λ s. is_zero (from_u8 s.0) ≡ false) shares
nonzero_indices [] h = tt
nonzero_indices (s ∷ shares) h = (nonzero, nonzero_indices shares h.1)
  where
    nonzero : is_zero (from_u8 s.0) ≡ false
    nonzero = ap is_zero (sym (zero-⊕ (from_u8 s.0))) ∙ apart_of_eq (of_ℕ 0) s.0 h.0

-- On at least one share, where no index is zero or occurs twice, `combine_byte` succeeds and returns
-- Lagrange's formula through the shares at zero.
pub combine_byte-lagrange :
    (shares : List (U8 × U8))
    → AreUsable (λ t. t.0) shares
    → combine_byte shares ≡ ok (lagrange [] (map point shares) 𝟘).byte
combine_byte-lagrange shares usable =
    opened
    ∙ ap (λ r. r >>= λ ts. ok (whole ⊗ sum ts).byte) all.returns
    ∙ ap (λ (v : Gf256). ok v.byte) all.total
  where
    whole : Gf256
    whole = product (map (λ (t : U8 × U8). from_u8 t.0) shares)

    all : AreTerms shares [] shares
    all =
        terms-AreTerms shares [] shares refl
          (all_unique-AreDistinct (λ t. t.0) (λ t. t.1) shares usable.unique)
          (nonzero_indices shares (contains-false (of_ℕ 0) _ usable.no_zero))

    opened :
        combine_byte shares
        ≡ (traverse (combine_term shares) shares >>= λ ts. ok (whole ⊗ sum ts).byte)
    opened = unfold combine_byte in rw (usable.some_share, usable.unique, usable.no_zero)
