-- ===== src/Tss/Check.antt =====
-- `interpolate` after `split`.
use pysui_crypto.Common.{
  ℕ, ◌≤◌, ◌<◌, ◌≡◌, sym, ap, subst, ◌∙◌, true, List, [], ◌∷◌, map, length, All, All-implies, ok,
  Array, Array_ext,
}
use mathlib.Core.List.{Mem, zip, zip_with}
use pysui_crypto.Byte.{U8, of_ℕ}
use pysui_crypto.Utils.{Rng}
use pysui_crypto.Polynomial.{Polynomial}
use pysui_crypto.Tss.{SecretSharing, all_unique, split, interpolate, evaluate_all}
use pysui_crypto.Tss.Shamir.{evaluation}
use pysui_crypto.Tss.Split.{Shared, IsSharing}
use pysui_crypto.Tss.Combine.{AreUsable}
use pysui_crypto.Tss.Picked.{IsColumn}
use pysui_crypto.Tss.Sharing.{
  made, same_sharing, size, usable, made_columns, picked_columns, short, combine-split,
}
use pysui_crypto.Tss.Interpolate.{
  polynomials, interpolate-polynomials, evaluate_all-polynomials, combine-bytes_at,
}
use pysui_crypto.Tss.Columns.{share_at, evaluate_all-columns}

zip_columns :
    {n : ℕ} (ps : List Shared) (indices : List U8) (shares : List (Array U8 n))
    → map (λ (a : Array U8 n). a.items) shares ≡ map (λ i. map (λ p. evaluation p i) ps) indices
    → All (IsColumn ps) (zip indices shares)
unfolding zip zip_with
zip_columns ps [] shares e = tt
zip_columns ps (i ∷ indices) [] e = tt
zip_columns ps (i ∷ indices) (a ∷ shares) e = (cc e, zip_columns ps indices shares (cc e))

-- Whatever `split` made of a nonempty secret for 1 ≤ threshold ≤ k ≤ 255, `interpolate` of any
-- selection of at least `threshold` of the k shares with their indices, in any order and with no
-- index twice, succeeds. The closure that it returns gives the secret at zero, and at every index
-- the share there, also of the shares that were not selected.
pub interpolate-split :
    (g : Rng) (threshold k n : ℕ) (st st' : g.State) (secret : Array U8 n)
    (sharing : SecretSharing n) (picked : List (U8 × Array U8 n))
    → 0 < threshold
    → threshold ≤ k
    → k ≤ 255
    → 0 < n
    → split g n st secret threshold k ≡ ok (sharing, st')
    → All (λ s. Mem s (zip sharing.indices sharing.shares)) picked
    → all_unique (map (λ s. s.0) picked) ≡ true
    → threshold ≤ length picked
    → (ps : List Polynomial) × (interpolate n picked ≡ ok ps)
      × (evaluate_all n ps (of_ℕ 0) ≡ ok secret)
      × All (λ s. evaluate_all n ps s.0 ≡ ok s.1) (zip sharing.indices sharing.shares)
interpolate-split g threshold k n st st' secret sharing picked positive enough fits nonempty e
      members unique many =
    (
      polynomials picked fine,
      interpolate-polynomials picked fine,
      evaluate_all-polynomials picked fine (of_ℕ 0)
          ∙ sym (combine-bytes_at picked fine)
          ∙ combine-split g threshold k n st st' secret sharing picked positive enough fits nonempty
              e members unique many,
      subst
          (λ (s : SecretSharing n).
            All (λ (t : U8 × Array U8 n). evaluate_all n (polynomials picked fine) t.0 ≡ ok t.1)
              (zip s.indices s.shares))
          (sym (
            same_sharing g threshold k n st st' secret sharing picked positive enough fits nonempty
              e members unique many))
          (All-implies (IsColumn all.polynomials) _ (zip all.sharing.indices all.sharing.shares)
            (λ (t : U8 × Array U8 n) c.
              evaluate_all-columns picked fine all.polynomials
                (size g threshold k n st st' secret sharing picked positive enough fits nonempty e
                  members unique many)
                (short g threshold k n st st' secret sharing picked positive enough fits nonempty e
                  members unique many)
                (picked_columns g threshold k n st st' secret sharing picked positive enough fits
                  nonempty e members unique many)
                t.0
              ∙ ap ok (
                  Array_ext
                    (share_at picked fine all.polynomials
                      (size g threshold k n st st' secret sharing picked positive enough fits
                        nonempty e members unique many)
                      t.0)
                    t.1 (sym c)))
            (zip_columns all.polynomials all.sharing.indices all.sharing.shares (
              made_columns g threshold k n st st' secret sharing picked positive enough fits
                nonempty e members unique many))),
    )
  where
    fine : AreUsable {A = U8 × Array U8 n} (λ s. s.0) picked
    fine =
        usable g threshold k n st st' secret sharing picked positive enough fits nonempty e members
          unique many

    all : IsSharing g threshold k positive enough fits st secret (split g n st secret threshold k)
    all =
        made g threshold k n st st' secret sharing picked positive enough fits nonempty e members
          unique many
