-- ===== src/Tss/Sharing.antt =====
-- `combine` after `split`.
use pysui_crypto.Common.{
  ℕ, suc, ◌≤◌, ◌<◌, ◌≡◌, sym, ap, ◌∙◌, true, false, List, map, length, length-map, All, All-implies,
  ok, err, invalid_input, ◌⊎◌, inl, inr, ◌||◌, ltb, ◌==◌, refl, ok_injective, subst, Array,
  Array_ext, arith,
}
use mathlib.Core.List.{Mem, zip}
use pysui_crypto.Byte.{U8, of_ℕ}
use pysui_crypto.Utils.{Rng}
use pysui_crypto.Tss.{SecretSharing, contains, all_unique, split, combine}
use pysui_crypto.Tss.Combine.{AreUsable}
use pysui_crypto.Tss.Shamir.{evaluation}
use pysui_crypto.Tss.Split.{Shared, IsSharing, split-IsSharing}
use pysui_crypto.Tss.Indices.{
  indices_to, length-indices_to, all_unique-indices_to, contains_zero-indices_to,
}
use pysui_crypto.Tss.Picked.{
  IsColumn, All-columns, apart_of_mem, not_contained, nonempty_of_length, combine-constants,
}

-- For 1 ≤ threshold ≤ k ≤ 255 and a nonempty secret, `split` into k shares succeeds: it returns the
-- secret with k shares and k indices, where no index is zero or occurs twice.
pub split-ok :
    (g : Rng) (threshold k n : ℕ) (st : g.State) (secret : Array U8 n)
    → 0 < threshold
    → threshold ≤ k
    → k ≤ 255
    → 0 < n
    → (sharing : SecretSharing n) × (st' : g.State) × (split g n st secret threshold k
        ≡ ok (sharing, st'))
      × (sharing.secret ≡ secret)
      × (length sharing.shares ≡ k)
      × (length sharing.indices ≡ k)
      × (contains (of_ℕ 0) sharing.indices ≡ false)
      × (all_unique sharing.indices ≡ true)
split-ok g threshold k n st secret positive enough fits nonempty = (
  made.sharing,
  made.state,
  made.returns,
  made.same_secret,
  sym (length-map (λ (a : Array U8 n). a.items) made.sharing.shares)
      ∙ ap length made.columns
      ∙ length-map _ (indices_to k)
      ∙ length-indices_to k,
  ap length made.same_indices ∙ length-indices_to k,
  ap (contains (of_ℕ 0)) made.same_indices ∙ contains_zero-indices_to k fits,
  ap all_unique made.same_indices ∙ all_unique-indices_to k fits,
)
  where
    made : IsSharing g threshold k positive enough fits st secret (split g n st secret threshold k)
    made = split-IsSharing g threshold k positive enough fits n st secret nonempty

within_or_not :
    (t k : ℕ) → ((0 < t) × (t ≤ k)) ⊎ (¬ ((0 < t) × (t ≤ k)) × ((ltb k t || t == 0) ≡ true))
within_or_not t k = ground arith

-- What `split` into k ≤ 255 shares returns for a nonempty secret, on every branch. Where
-- 1 ≤ threshold ≤ k it succeeds: it returns the secret with k shares and k indices, where no index
-- is zero or occurs twice. Every other threshold is invalid input.
pub split_lem :
    (g : Rng) (threshold k n : ℕ) (st : g.State) (secret : Array U8 n)
    → k ≤ 255
    → 0 < n
    → (((0 < threshold) × (threshold ≤ k))
        × ((sharing : SecretSharing n) × (st' : g.State) × (split g n st secret threshold k
              ≡ ok (sharing, st'))
            × (sharing.secret ≡ secret)
            × (length sharing.shares ≡ k)
            × (length sharing.indices ≡ k)
            × (contains (of_ℕ 0) sharing.indices ≡ false)
            × (all_unique sharing.indices ≡ true)))
      ⊎ (¬ ((0 < threshold) × (threshold ≤ k))
          × (split g n st secret threshold k ≡ err invalid_input))
split_lem g threshold k n st secret fits nonempty = elim (within_or_not threshold k) [
  | inl (positive, enough) ↦
      inl ((positive, enough), split-ok g threshold k n st secret positive enough fits nonempty)
  | inr (outside, e) ↦ inr (outside, refused e)
]
  where
    refused :
        (ltb k threshold || threshold == 0) ≡ true
        → split g n st secret threshold k ≡ err invalid_input
    refused e = unfold split in rw e refl

module _ (g : Rng) (threshold k n : ℕ) (st st' : g.State) (secret : Array U8 n)
    (sharing : SecretSharing n) (picked : List (U8 × Array U8 n)) (positive : 0 < threshold)
    (enough : threshold ≤ k) (fits : k ≤ 255) (nonempty : 0 < n)
    (e : split g n st secret threshold k ≡ ok (sharing, st'))
    (members : All (λ s. Mem s (zip sharing.indices sharing.shares)) picked)
    (unique : all_unique (map (λ s. s.0) picked) ≡ true) (many : threshold ≤ length picked) where
  abbrev pub made :
      IsSharing g threshold k positive enough fits st secret (split g n st secret threshold k)
  made = split-IsSharing g threshold k positive enough fits n st secret nonempty

  pub same_sharing : sharing ≡ made.sharing
  same_sharing = ap (λ (r : SecretSharing n × g.State). r.0) (ok_injective (sym e ∙ made.returns))

  pub members' : All (λ s. Mem s (zip made.sharing.indices made.sharing.shares)) picked
  members' =
      subst (λ (s : SecretSharing n). All (λ t. Mem t (zip s.indices s.shares)) picked) same_sharing
        members

  pub size : length made.polynomials ≡ n
  size =
      sym (length-map (λ (p : Shared). p.0) made.polynomials)
      ∙ ap length made.constants
      ∙ secret.size

  pub usable : AreUsable (λ s. s.0) picked
  usable = record {
    some_share = nonempty_of_length threshold picked positive many;
    unique = unique;
    no_zero = not_contained (of_ℕ 0) picked (
        All-implies _ _ picked
          (λ s.
            apart_of_mem (of_ℕ 0) made.sharing.indices made.sharing.shares s
              (ap (contains (of_ℕ 0)) made.same_indices ∙ contains_zero-indices_to k fits))
          members');
  }

  pub made_columns :
      map (λ (a : Array U8 n). a.items) made.sharing.shares
      ≡ map (λ i. map (λ p. evaluation p i) made.polynomials) made.sharing.indices
  made_columns =
      made.columns
      ∙ ap (map (λ i. map (λ p. evaluation p i) made.polynomials)) (sym made.same_indices)

  pub picked_columns : All (IsColumn made.polynomials) picked
  picked_columns =
      All-columns made.polynomials made.sharing.indices made.sharing.shares picked made_columns
        members'

  pub short : All (λ p. suc (length p.1) ≤ length picked) made.polynomials
  short = All-implies _ _ made.polynomials (λ p e. omega arith) made.degrees

-- Whatever `split` made of a nonempty secret for 1 ≤ threshold ≤ k ≤ 255, any selection of at least
-- `threshold` of the k shares with their indices, in any order and with no index twice, combines to
-- the secret.
pub combine-split :
    (g : Rng) (threshold k n : ℕ) (st st' : g.State) (secret : Array U8 n)
    (sharing : SecretSharing n) (picked : List (U8 × Array U8 n))
    → 0 < threshold
    → threshold ≤ k
    → k ≤ 255
    → 0 < n
    → split g n st secret threshold k ≡ ok (sharing, st')
    → All (λ s. Mem s (zip sharing.indices sharing.shares)) picked
    → all_unique (map (λ s. s.0) picked) ≡ true
    → threshold ≤ length picked
    → combine n picked ≡ ok secret
combine-split g threshold k n st st' secret sharing picked positive enough fits nonempty e members
      unique many =
    combine-constants
      (made g threshold k n st st' secret sharing picked positive enough fits nonempty e members
        unique many).polynomials
      (size g threshold k n st st' secret sharing picked positive enough fits nonempty e members
        unique many)
      picked
      (usable g threshold k n st st' secret sharing picked positive enough fits nonempty e members
        unique many)
      (short g threshold k n st st' secret sharing picked positive enough fits nonempty e members
        unique many)
      (picked_columns g threshold k n st st' secret sharing picked positive enough fits nonempty e
        members unique many)
    ∙ ap ok (
        Array_ext _ _
          (made g threshold k n st st' secret sharing picked positive enough fits nonempty e members
            unique many).constants)
