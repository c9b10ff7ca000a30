-- ===== src/Polynomial/Roots.antt =====
-- Polynomials by their roots and values.
use pysui_crypto.Common.{
  suc, ◌≤◌, ◌≡◌, refl, sym, ap, ap₂, ◌∙◌, false, inl, inr, List, [], ◌∷◌, length, arith, All,
}
use pysui_crypto.Gf256.{Gf256, zero as 𝟘, is_zero, ◌⊕◌, ◌⊗◌}
use pysui_crypto.Gf256.Field.{
  ⊕_comm, ⊕_assoc, zero-⊕, ⊕-zero, ⊕_self, ⊗-zero, ⊗-⊕, ⊕-⊗, zero_or_not, ⊗-ne-zero, ne_of_is_zero,
}
use pysui_crypto.Gf256.Sums.{⊕_cancel, eq_of_⊕, ⊕_interchange, ⊗_left_comm}
use pysui_crypto.Polynomial.{add_coefficients}
use pysui_crypto.Polynomial.Value.{value, value-add_coefficients, length-add_coefficients}

-- No element occurs twice.
abbrev pub IsDistinct : List Gf256 → Type 0
IsDistinct [] = Unit {0}
IsDistinct (x ∷ xs) = All (λ y. is_zero (x ⊕ y) ≡ false) xs × IsDistinct xs

-- Division of c + x (c₀ + c₁ x + …) by x - r: the quotient, from the coefficients behind c.
unfoldable pub quotient : List Gf256 → Gf256 → List Gf256
quotient [] r = []
quotient (c ∷ cs) r = value (c ∷ cs) r ∷ quotient cs r

length-quotient : (cs : List Gf256) (r : Gf256) → length (quotient cs r) ≡ length cs
unfolding quotient
length-quotient [] r = refl
length-quotient (c ∷ cs) r = ap suc (length-quotient cs r)

-- Equal constant terms drop out of a difference.
drop_constant : (c u v : Gf256) → (c ⊕ u) ⊕ (c ⊕ v) ≡ u ⊕ v
drop_constant c u v = ⊕_interchange c u c v ∙ ap (λ t. t ⊕ (u ⊕ v)) (⊕_self c) ∙ zero-⊕ _

-- From v + w = (x + r) q follows x v + r w = (x + r) (w + x q).
quotient_step :
    (x r v w q : Gf256) → v ⊕ w ≡ (x ⊕ r) ⊗ q → (x ⊗ v) ⊕ (r ⊗ w) ≡ (x ⊕ r) ⊗ (w ⊕ (x ⊗ q))
quotient_step x r v w q e =
    ap (λ t. (x ⊗ t) ⊕ (r ⊗ w)) (sym (⊕_cancel v w) ∙ ap (λ t. t ⊕ w) e)
    ∙ ap (λ t. t ⊕ (r ⊗ w)) (⊗-⊕ x _ w)
    ∙ ⊕_assoc _ (x ⊗ w) (r ⊗ w)
    ∙ ap₂ ◌⊕◌ (⊗_left_comm x (x ⊕ r) q) (sym (⊕-⊗ x r w))
    ∙ ⊕_comm _ _
    ∙ sym (⊗-⊕ (x ⊕ r) w (x ⊗ q))

value-quotient :
    (cs : List Gf256) (r x : Gf256)
    → (x ⊗ value cs x) ⊕ (r ⊗ value cs r) ≡ (x ⊕ r) ⊗ value (quotient cs r) x
unfolding quotient value
value-quotient [] r x = ap₂ ◌⊕◌ (⊗-zero x) (⊗-zero r) ∙ ⊕-zero 𝟘 ∙ sym (⊗-zero _)
value-quotient (c ∷ cs) r x = quotient_step x r _ _ _ (drop_constant c _ _ ∙ value-quotient cs r x)

-- Values differ by a multiple of the distance of the points.
pub value_difference :
    (c : Gf256) (cs : List Gf256) (r x : Gf256)
    → value (c ∷ cs) x ⊕ value (c ∷ cs) r ≡ (x ⊕ r) ⊗ value (quotient cs r) x
unfolding value
value_difference c cs r x = drop_constant c _ _ ∙ value-quotient cs r x

zero_of_product : (a b : Gf256) → is_zero a ≡ false → a ⊗ b ≡ 𝟘 → b ≡ 𝟘
zero_of_product a b na e = elim (zero_or_not b) [
  | inl zb ↦ zb
  | inr nb ↦ absurd (ne_of_is_zero (a ⊗ b) (⊗-ne-zero a b na nb) e)
]

abbrev pub IsRoot : List Gf256 → Gf256 → Type 0
IsRoot cs r = value cs r ≡ 𝟘

roots-quotient :
    (c : Gf256) (cs : List Gf256) (r : Gf256) (rs : List Gf256)
    → IsRoot (c ∷ cs) r
    → All (λ s. is_zero (r ⊕ s) ≡ false) rs
    → All (IsRoot (c ∷ cs)) rs
    → All (IsRoot (quotient cs r)) rs
roots-quotient c cs r [] hr apart hs = tt
roots-quotient c cs r (s ∷ rs) hr apart hs = (
  zero_of_product (s ⊕ r) _ (ap is_zero (⊕_comm s r) ∙ apart.0)
      (sym (value_difference c cs r s) ∙ ap₂ ◌⊕◌ hs.0 hr ∙ ⊕-zero 𝟘),
  roots-quotient c cs r rs hr apart.1 hs.1,
)

-- With as many distinct roots as coefficients, every value is zero.
pub value-zero_of_roots :
    (rs cs : List Gf256)
    → IsDistinct rs
    → length cs ≤ length rs
    → All (IsRoot cs) rs
    → (x : Gf256) → value cs x ≡ 𝟘
value-zero_of_roots rs [] distinct fits hs x = unfold value in refl
value-zero_of_roots [] (c ∷ cs) distinct fits hs x = absurd (omega arith)
value-zero_of_roots (r ∷ rs) (c ∷ cs) distinct fits hs x =
    sym (⊕-zero _)
    ∙ ap (◌⊕◌ (value (c ∷ cs) x)) (sym hs.0)
    ∙ value_difference c cs r x
    ∙ ap (◌⊗◌ (x ⊕ r)) (
        value-zero_of_roots rs (quotient cs r) distinct.1 (omega (arith, length-quotient cs r))
          (roots-quotient c cs r rs hs.0 distinct.0 hs.1) x)
    ∙ ⊗-zero _

-- Two polynomials with at most as many coefficients as there are distinct points at which they
-- agree have the same value everywhere.
pub value_unique :
    (as' bs rs : List Gf256)
    → IsDistinct rs
    → length as' ≤ length rs
    → length bs ≤ length rs
    → All (λ r. value as' r ≡ value bs r) rs
    → (x : Gf256) → value as' x ≡ value bs x
value_unique as' bs rs distinct fits_a fits_b agree x = eq_of_⊕ _ _ (
    sym (value-add_coefficients as' bs x)
    ∙ value-zero_of_roots rs (add_coefficients as' bs) distinct
        (length-add_coefficients (length rs) as' bs fits_a fits_b) (roots rs agree) x)
  where
    roots :
        (ss : List Gf256)
        → All (λ r. value as' r ≡ value bs r) ss
        → All (IsRoot (add_coefficients as' bs)) ss
    roots [] h = tt
    roots (s ∷ ss) h =
        (value-add_coefficients as' bs s ∙ ap (λ t. t ⊕ value bs s) h.0 ∙ ⊕_self _, roots ss h.1)
