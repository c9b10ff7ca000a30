-- ===== src/Tss/Total.antt =====
-- `combine` and `interpolate` on any list of shares.
use pysui_crypto.Common.{
  ℕ, ◌<◌, ◌≡◌, refl, sym, ap, ◌∙◌, ◌⊎◌, inl, inr, true, List, [], ◌∷◌, map, is_empty, ok,
  ok_injective, Bool-cases, Array, Returns, Returns-ok, Returns-err, Returns-eq,
}
use pysui_crypto.Byte.{U8, of_ℕ}
use pysui_crypto.Polynomial.{Polynomial}
use pysui_crypto.Tss.{contains, all_unique, combine, interpolate, evaluate_all}
use pysui_crypto.Tss.Combine.{AreUsable}
use pysui_crypto.Tss.Guards.{AreRefused, combine-interpolate-err}
use pysui_crypto.Tss.Interpolate.{
  polynomials, interpolate-polynomials, evaluate_all-polynomials, combine-bytes_at,
}

empty_of_is_empty : {A : Type 0} (xs : List A) → is_empty xs ≡ true → xs ≡ []
empty_of_is_empty [] h = refl
empty_of_is_empty (x ∷ xs) h = cc

pub usable_or_refused :
    {A : Type 0} (shares : List (U8 × A)) → AreUsable (λ s. s.0) shares ⊎ AreRefused shares
usable_or_refused shares = elim (Bool-cases (is_empty shares)) [
  | inl e ↦ inr (inl (empty_of_is_empty shares e))
  | inr some ↦ elim (Bool-cases (contains (of_ℕ 0) (map (λ s. s.0) shares))) [
    | inl found ↦ inr (inr (inl found))
    | inr apart ↦ elim (Bool-cases (all_unique (map (λ s. s.0) shares))) [
      | inl unique ↦ inl (record { some_share = some; unique = unique; no_zero = apart })
      | inr twice ↦ inr (inr (inr twice))
    ]
  ]
]

module _ {n : ℕ} (pos : 0 < n) (shares : List (U8 × Array U8 n)) where
  pub Returns-combine : Returns (combine n shares)
  Returns-combine = elim (usable_or_refused shares) [
    | inl usable ↦ Returns-eq (combine-bytes_at shares usable) (Returns-ok _)
    | inr refused ↦ Returns-eq ((combine-interpolate-err n shares pos refused).0) (Returns-err _)
  ]

  pub Returns-interpolate : Returns (interpolate n shares)
  Returns-interpolate = elim (usable_or_refused shares) [
    | inl usable ↦ Returns-eq (interpolate-polynomials shares usable) (Returns-ok _)
    | inr refused ↦ Returns-eq ((combine-interpolate-err n shares pos refused).1) (Returns-err _)
  ]

  -- Where `interpolate` succeeds, the shares passed its guards.
  pub interpolate-eq-ok :
      (ps : List Polynomial)
      → interpolate n shares ≡ ok ps
      → (usable : AreUsable (λ s. s.0) shares) × (ps ≡ polynomials shares usable)
  interpolate-eq-ok ps h = elim (usable_or_refused shares) [
    | inl usable ↦ (usable, ok_injective (sym h ∙ interpolate-polynomials shares usable))
    | inr refused ↦ cc (sym h ∙ (combine-interpolate-err n shares pos refused).1)
  ]

  pub Returns-evaluate_all :
      (ps : List Polynomial) (x : U8) → interpolate n shares ≡ ok ps → Returns (evaluate_all n ps x)
  Returns-evaluate_all ps x h =
      let (usable, same) = interpolate-eq-ok ps h in
      Returns-eq (ap (λ ps. evaluate_all n ps x) same ∙ evaluate_all-polynomials shares usable x)
        (Returns-ok _)
