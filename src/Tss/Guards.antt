-- ===== src/Tss/Guards.antt =====
-- When the guards of seal/tss.rs reject.
use pysui_crypto.Common.{
  ℕ, zero, suc, ◌<◌, ◌≡◌, refl, ◌⊎◌, inl, inr, Bool, true, false, not, ◌||◌, List, [], map,
  is_empty, is_empty-map, ok, err, map_ok, traverse, traverse-ok, index-get_or, get_or,
  invalid_input, Array, arith, ap,
}
use mathlib.Core.List.{map-map}
use pysui_crypto.Byte.{U8, of_ℕ}
use pysui_crypto.Tss.{contains, all_unique, byte_of_share, combine_byte, combine, interpolate}

-- No shares, or one with index zero, or two with the same index.
abbrev pub AreRefused : {A : Type 0} → List (U8 × A) → Type 0
AreRefused shares =
    (shares ≡ [])
    ⊎ ((contains (of_ℕ 0) (map (λ s. s.0) shares) ≡ true)
        ⊎ (all_unique (map (λ s. s.0) shares) ≡ false))

refused :
    (p q r : Bool)
    → (p ≡ true) ⊎ ((q ≡ true) ⊎ (r ≡ false))
    → ((p || q || not r) ≡ true) × ((p || not r || q) ≡ true)
refused p q r h = (ground arith, ground arith)

module _ {A : Type 0} (shares : List (U8 × A)) where
  guarded :
      AreRefused shares
      → ((is_empty shares
            || contains (of_ℕ 0) (map (λ s. s.0) shares)
            || not (all_unique (map (λ s. s.0) shares)))
          ≡ true)
        × ((is_empty shares
              || not (all_unique (map (λ s. s.0) shares))
              || contains (of_ℕ 0) (map (λ s. s.0) shares))
            ≡ true)
  guarded (inl e) = refused _ _ _ (inl (ap is_empty e))
  guarded (inr h) = refused _ _ _ (inr h)

interpolate-err :
    (n : ℕ) (shares : List (U8 × Array U8 n))
    → AreRefused shares
    → interpolate n shares ≡ err invalid_input
unfolding interpolate
interpolate-err n shares h = rw ((guarded shares h).0) refl

module _ {n : ℕ} where
  abbrev first_byte : U8 × Array U8 (suc n) → U8 × U8
  first_byte s = (s.0, get_or s.1.items 0 (of_ℕ 0))

  first_bytes :
      (shares : List (U8 × Array U8 (suc n)))
      → traverse (byte_of_share 0) shares ≡ ok (map first_byte shares)
  unfolding byte_of_share
  first_bytes shares = traverse-ok (byte_of_share 0) first_byte shares (λ s.
      ap (map_ok (λ b. (s.0, b))) (index-get_or s.1.items 0 (of_ℕ 0) (omega (arith, s.1.size))))

  combine_byte-err :
      (shares : List (U8 × Array U8 (suc n)))
      → AreRefused shares
      → combine_byte (map first_byte shares) ≡ err invalid_input
  unfolding combine_byte
  combine_byte-err shares h =
      rw
        (
          is_empty-map first_byte shares,
          map-map (λ (t : U8 × U8). t.0) first_byte shares,
          (guarded shares h).1,
        )
        refl

combine_refused :
    (n : ℕ) (shares : List (U8 × Array U8 n))
    → 0 < n
    → AreRefused shares
    → combine n shares ≡ err invalid_input
unfolding combine traverse
combine_refused zero shares pos h = absurd (omega arith)
combine_refused (suc n) shares pos h = rw (first_bytes shares, combine_byte-err shares h) refl

-- Where there are no shares, or one has index zero, or two have the same index, `interpolate` is
-- `InvalidInput`, and so is `combine` for shares of at least one byte: neither panics.
pub combine-interpolate-err :
    (n : ℕ) (shares : List (U8 × Array U8 n))
    → 0 < n
    → AreRefused shares
    → (combine n shares ≡ err invalid_input) × (interpolate n shares ≡ err invalid_input)
combine-interpolate-err n shares pos h =
    (combine_refused n shares pos h, interpolate-err n shares h)
