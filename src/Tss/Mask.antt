-- ===== src/Tss/Mask.antt =====
-- Coefficients that move the secret of a shared byte and leave chosen shares as they are.
use pysui_crypto.Common.{
  suc, ◌≤◌, ◌≡◌, refl, sym, ap, ap₂, ◌∙◌, false, List, [], ◌∷◌, map, length, length-map, All,
  All-implies, arith,
}
use pysui_crypto.Gf256.{Gf256, zero as 𝟘, is_zero, ◌⊕◌, ◌⊗◌}
use pysui_crypto.Gf256.Field.{⊕_self, ⊕-zero, zero-⊕, ⊗-zero, ⊗_assoc, ⊗_comm, ⊗-one, zero-⊗}
use pysui_crypto.Gf256.Division.{inverse, ⊗-inverse}
use pysui_crypto.Gf256.Sums.{⊕_cancel}
use pysui_crypto.Polynomial.{add_coefficients}
use pysui_crypto.Polynomial.Value.{
  value, value-add_coefficients, value-map-⊗, length-add_coefficients,
}

-- The coefficients behind `d` of the polynomial d (1 - x / r₁) (1 - x / r₂) ….
pub mask : Gf256 → List Gf256 → List Gf256
mask d [] = []
mask d (r ∷ rs) = add_coefficients (mask d rs) (map (λ a. a ⊗ inverse r) (d ∷ mask d rs))

pub length-mask : (d : Gf256) (rs : List Gf256) → length (mask d rs) ≤ length rs
unfolding mask
length-mask d [] = omega arith
length-mask d (r ∷ rs) =
    length-add_coefficients (suc (length rs)) (mask d rs) (map (λ a. a ⊗ inverse r) (d ∷ mask d rs))
      (omega (arith, length-mask d rs))
      (omega (arith, length-mask d rs, length-map (λ a. a ⊗ inverse r) (mask d rs)))

-- One more factor: the value v becomes v + x (v / r).
value-mask-cons :
    (d r : Gf256) (rs : List Gf256) (x : Gf256)
    → value (d ∷ mask d (r ∷ rs)) x
      ≡ value (d ∷ mask d rs) x ⊕ (x ⊗ (value (d ∷ mask d rs) x ⊗ inverse r))
value-mask-cons d r rs x =
    ap (λ h. value (h ∷ mask d (r ∷ rs)) x) (sym (⊕-zero d))
    ∙ opened
    ∙ value-add_coefficients (d ∷ mask d rs) (𝟘 ∷ map (λ a. a ⊗ inverse r) (d ∷ mask d rs)) x
    ∙ ap (λ t. value (d ∷ mask d rs) x ⊕ t)
        (shifted (map (λ a. a ⊗ inverse r) (d ∷ mask d rs))
          ∙ ap (◌⊗◌ x) (value-map-⊗ (d ∷ mask d rs) (inverse r) x))
  where
    shifted : (cs : List Gf256) → value (𝟘 ∷ cs) x ≡ x ⊗ value cs x
    shifted cs = unfold value in zero-⊕ _

    opened :
        value ((d ⊕ 𝟘) ∷ mask d (r ∷ rs)) x
        ≡ value (add_coefficients (d ∷ mask d rs) (𝟘 ∷ map (λ a. a ⊗ inverse r) (d ∷ mask d rs))) x
    opened = unfold mask add_coefficients in refl

-- It vanishes at each of the points, which are not zero.
pub value-mask :
    (d : Gf256) (rs : List Gf256)
    → All (λ r. is_zero r ≡ false) rs
    → All (λ r. value (d ∷ mask d rs) r ≡ 𝟘) rs
value-mask d [] h = tt
value-mask d (r ∷ rs) h = (
  value-mask-cons d r rs r
      ∙ ap (λ t. value (d ∷ mask d rs) r ⊕ t) (back (value (d ∷ mask d rs) r))
      ∙ ⊕_self _,
  All-implies _ _ rs
      (λ s e.
        value-mask-cons d r rs s
        ∙ ap₂ ◌⊕◌ e (ap (λ v. s ⊗ (v ⊗ inverse r)) e ∙ ap (◌⊗◌ s) (zero-⊗ _) ∙ ⊗-zero s)
        ∙ ⊕-zero 𝟘)
      (value-mask d rs h.1),
)
  where
    back : (v : Gf256) → r ⊗ (v ⊗ inverse r) ≡ v
    back v =
        ap (◌⊗◌ r) (⊗_comm v (inverse r))
        ∙ sym (⊗_assoc r (inverse r) v)
        ∙ ap (λ t. t ⊗ v) (⊗-inverse r h.0)
        ∙ ⊗_comm _ v
        ∙ ⊗-one v

-- Adding the coefficients twice changes nothing.
pub add_coefficients_twice :
    (cs ds : List Gf256) → length ds ≤ length cs → add_coefficients (add_coefficients cs ds) ds ≡ cs
unfolding add_coefficients
add_coefficients_twice [] [] h = refl
add_coefficients_twice [] (d ∷ ds) h = absurd (omega arith)
add_coefficients_twice (c ∷ cs) [] h = refl
add_coefficients_twice (c ∷ cs) (d ∷ ds) h =
    ap₂ ◌∷◌ (⊕_cancel c d) (add_coefficients_twice cs ds (omega arith))

pub length-add_coefficients_within :
    (cs ds : List Gf256) → length ds ≤ length cs → length (add_coefficients cs ds) ≡ length cs
unfolding add_coefficients
length-add_coefficients_within [] [] h = refl
length-add_coefficients_within [] (d ∷ ds) h = absurd (omega arith)
length-add_coefficients_within (c ∷ cs) [] h = refl
length-add_coefficients_within (c ∷ cs) (d ∷ ds) h =
    ap suc (length-add_coefficients_within cs ds (omega arith))
