-- ===== src/Polynomial/Lagrange.antt =====
-- Lagrange's formula over points with distinct first coordinates, as an independent definition.
use pysui_crypto.Common.{
  ◌≡◌, sym, ap, ap₂, ◌∙◌, false, List, [], ◌∷◌, ◌++◌, map, All, All-append_right, All-map, subst,
}
use mathlib.Core.List.{append_assoc}
use pysui_crypto.Gf256.{Gf256, zero as 𝟘, one as 𝟙, is_zero, ◌⊕◌, ◌⊗◌, sum, product}
use pysui_crypto.Gf256.Field.{⊕_comm, zero-⊕, ⊕-zero, ⊕_self, ⊗_assoc, one-⊗, zero-⊗, ⊗-zero}
use pysui_crypto.Gf256.Division.{inverse, ⊗-inverse}
use pysui_crypto.Gf256.Sums.{sum-nil, sum-cons, product-nil, product-cons, product-map-⊗}
use pysui_crypto.Polynomial.Roots.{IsDistinct}

abbrev pub Point : Type 0
Point = Gf256 × Gf256

abbrev pub abscissa : Point → Gf256
abscissa p = p.0

-- Each element of `post` with the elements before and behind it; `pre` stands before them all.
abbrev pub with_others {ℓ} : {A : Type ℓ} → List A → List A → List (A × List A)
with_others pre [] = []
with_others pre (p ∷ post) = (p, pre ++ post) ∷ with_others (pre ++ p ∷ []) post

-- The product over the other points o of (x - o) / (xj - o).
unfoldable pub basis : Gf256 → List Point → Gf256 → Gf256
basis xj others x = product (map (λ o. (x ⊕ o.0) ⊗ inverse (xj ⊕ o.0)) others)

pub basis-nil : (xj x : Gf256) → basis xj [] x ≡ 𝟙
unfolding basis
basis-nil xj x = product-nil

pub basis-cons :
    (xj : Gf256) (o : Point) (others : List Point) (x : Gf256)
    → basis xj (o ∷ others) x ≡ ((x ⊕ o.0) ⊗ inverse (xj ⊕ o.0)) ⊗ basis xj others x
unfolding basis
basis-cons xj o others x = product-cons _ _

unfoldable pub lagrange : List Point → List Point → Gf256 → Gf256
lagrange pre post x = sum (map (λ e. basis e.0.0 e.1 x ⊗ e.0.1) (with_others pre post))

abbrev pub IsApart : Gf256 → List Point → Type 0
IsApart x ps = All (λ o. is_zero (x ⊕ o.0) ≡ false) ps

-- The first coordinates differ pairwise.
abbrev pub AreDistinct : List Point → Type 0
AreDistinct ps = IsDistinct (map abscissa ps)

-- A point among distinct points is apart from the points before it and behind it.
pub IsApart-others :
    (pre : List Point) (p : Point) (post : List Point)
    → AreDistinct (pre ++ p ∷ post)
    → IsApart p.0 (pre ++ post)
IsApart-others [] p post h = All-map _ abscissa post h.0
IsApart-others (q ∷ pre) p post h = (
  ap is_zero (⊕_comm p.0 q.0)
      ∙ (All-append_right _ pre (p ∷ post) (All-map _ abscissa (pre ++ p ∷ post) h.0)).0,
  IsApart-others pre p post h.1,
)

pub distinct_behind :
    (pre : List Point) (p : Point) (post : List Point)
    → AreDistinct (pre ++ p ∷ post)
    → AreDistinct ((pre ++ p ∷ []) ++ post)
distinct_behind pre p post h = rw (append_assoc pre (p ∷ []) post) h

-- The product of the distances to the points.
distances : Gf256 → List Point → Gf256
distances x ps = product (map (λ o. x ⊕ o.0) ps)

distances-append :
    (x : Gf256) (ps qs : List Point) → distances x (ps ++ qs) ≡ distances x ps ⊗ distances x qs
unfolding distances
distances-append x [] qs = sym (ap (λ t. t ⊗ distances x qs) product-nil ∙ one-⊗ (distances x qs))
distances-append x (p ∷ ps) qs =
    product-cons _ _
    ∙ ap (◌⊗◌ (x ⊕ p.0)) (distances-append x ps qs)
    ∙ sym (⊗_assoc _ _ _)
    ∙ ap (λ t. t ⊗ distances x qs) (sym (product-cons _ _))

distances-here : (p : Point) (ps : List Point) → distances p.0 (p ∷ ps) ≡ 𝟘
unfolding distances
distances-here p ps = product-cons _ _ ∙ ap (λ t. t ⊗ distances p.0 ps) (⊕_self p.0) ∙ zero-⊗ _

distances-behind :
    (x : Gf256) (pre post : List Point) → distances x post ≡ 𝟘 → distances x (pre ++ post) ≡ 𝟘
distances-behind x pre post h =
    distances-append x pre post ∙ ap (◌⊗◌ (distances x pre)) h ∙ ⊗-zero _

distances-before :
    (x : Gf256) (pre post : List Point) → distances x pre ≡ 𝟘 → distances x (pre ++ post) ≡ 𝟘
distances-before x pre post h =
    distances-append x pre post ∙ ap (λ t. t ⊗ distances x post) h ∙ zero-⊗ _

-- The basis polynomial vanishes at the other points.
basis_vanishes :
    (xj : Gf256) (others : List Point) (x : Gf256) → distances x others ≡ 𝟘 → basis xj others x ≡ 𝟘
unfolding basis distances
basis_vanishes xj others x h =
    product-map-⊗ (λ o. x ⊕ o.0) (λ o. inverse (xj ⊕ o.0)) others
    ∙ ap (λ t. t ⊗ product (map (λ (o : Point). inverse (xj ⊕ o.0)) others)) h
    ∙ zero-⊗ _

-- And it is one at its own point.
basis_self : (xj : Gf256) (others : List Point) → IsApart xj others → basis xj others xj ≡ 𝟙
unfolding basis
basis_self xj [] h = product-nil
basis_self xj (o ∷ others) h =
    product-cons _ _ ∙ ap₂ ◌⊗◌ (⊗-inverse (xj ⊕ o.0) h.0) (basis_self xj others h.1) ∙ one-⊗ 𝟙

pub lagrange-nil : (pre : List Point) (x : Gf256) → lagrange pre [] x ≡ 𝟘
unfolding lagrange
lagrange-nil pre x = sum-nil

pub lagrange-cons :
    (pre : List Point) (p : Point) (post : List Point) (x : Gf256)
    → lagrange pre (p ∷ post) x
      ≡ (basis p.0 (pre ++ post) x ⊗ p.1) ⊕ lagrange (pre ++ p ∷ []) post x
unfolding lagrange
lagrange-cons pre p post x = sum-cons _ _

lagrange_vanishes :
    (pre post : List Point) (x : Gf256) → distances x pre ≡ 𝟘 → lagrange pre post x ≡ 𝟘
lagrange_vanishes pre [] x h = lagrange-nil pre x
lagrange_vanishes pre (p ∷ post) x h =
    lagrange-cons pre p post x
    ∙ ap₂ (λ b r. (b ⊗ p.1) ⊕ r)
        (basis_vanishes p.0 (pre ++ post) x (distances-before x pre post h))
        (lagrange_vanishes (pre ++ p ∷ []) post x (distances-before x pre (p ∷ []) h))
    ∙ ap (λ t. t ⊕ 𝟘) (zero-⊗ p.1)
    ∙ ⊕-zero 𝟘

All-distances : (pre post : List Point) → All (λ k. distances k.0 (pre ++ post) ≡ 𝟘) post
All-distances pre [] = tt
All-distances pre (p ∷ post) = (
  distances-behind p.0 pre (p ∷ post) (distances-here p post),
  subst (λ l. All (λ k. distances k.0 l ≡ 𝟘) post) (append_assoc pre (p ∷ []) post)
      (All-distances (pre ++ p ∷ []) post),
)

-- At each point the formula has the point's second coordinate.
pub lagrange_at_points :
    (pre post : List Point)
    → AreDistinct (pre ++ post)
    → All (λ k. lagrange pre post k.0 ≡ k.1) post
lagrange_at_points pre [] h = tt
lagrange_at_points pre (p ∷ post) h = (
  lagrange-cons pre p post p.0
      ∙ ap₂ (λ b r. (b ⊗ p.1) ⊕ r) (basis_self p.0 (pre ++ post) (IsApart-others pre p post h))
          (lagrange_vanishes (pre ++ p ∷ []) post p.0
            (distances-behind p.0 pre (p ∷ []) (distances-here p [])))
      ∙ ⊕-zero _
      ∙ one-⊗ p.1,
  later post (All-distances pre post)
      (lagrange_at_points (pre ++ p ∷ []) post (distinct_behind pre p post h)),
)
  where
    later :
        (ks : List Point)
        → All (λ k. distances k.0 (pre ++ post) ≡ 𝟘) ks
        → All (λ k. lagrange (pre ++ p ∷ []) post k.0 ≡ k.1) ks
        → All (λ k. lagrange pre (p ∷ post) k.0 ≡ k.1) ks
    later [] d l = tt
    later (k ∷ ks) d l = (
      lagrange-cons pre p post k.0
          ∙ ap₂ (λ b r. (b ⊗ p.1) ⊕ r) (basis_vanishes p.0 (pre ++ post) k.0 d.0) l.0
          ∙ ap (λ t. t ⊕ k.1) (zero-⊗ p.1)
          ∙ zero-⊕ k.1,
      later ks d.1 l.1,
    )
