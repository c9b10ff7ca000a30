-- ===== src/Tss/Picked.antt =====
-- Shares picked among those that `split` made, byte by byte.
use pysui_crypto.Common.{
  ℕ, suc, ◌+◌, ◌≤◌, ◌<◌, ◌≡◌, refl, sym, ap, ◌∙◌, Bool, false, ◌||◌, List, [], ◌∷◌, map, length,
  length-map, is_empty, is_empty-map, All, All-implies, Outcome, ok, ◌>>=◌, map_ok, traverse,
  traverse-All-ok, traverse-range_from, All-index, index, index-map, range_from, Array, to_array,
  to_array-ok, arith,
}
use mathlib.Core.List.{map-map, Mem, mem-cons, not-mem-nil, zip, zip_with}
use mathlib.Core.Logic.Or
use mathlib.Core.Bool.{Bool-set}
use pysui_crypto.Byte.{U8, of_ℕ, eq}
use pysui_crypto.Tss.{contains, all_unique, byte_of_share, combine_byte, combine}
use pysui_crypto.Tss.Combine.{AreUsable}
use pysui_crypto.Tss.Shamir.{evaluation, combine_byte-evaluation}
use pysui_crypto.Tss.Split.{Shared}

-- The share holds the values of the polynomials at its index.
abbrev pub IsColumn : {n : ℕ} → List Shared → U8 × Array U8 n → Type 0
IsColumn ps s = s.1.items ≡ map (λ p. evaluation p s.0) ps

-- The share of the byte that `p` shares.
abbrev byte_share : {n : ℕ} → Shared → U8 × Array U8 n → U8 × U8
byte_share p s = (s.0, evaluation p s.0)

-- The indices are not changed by reading one byte of each share.
usable_bytes :
    {n : ℕ} (p : Shared) (picked : List (U8 × Array U8 n))
    → AreUsable (λ s. s.0) picked
    → AreUsable {A = U8 × U8} (λ t. t.0) (map (byte_share p) picked)
usable_bytes p picked usable = record {
  some_share = is_empty-map _ picked ∙ usable.some_share;
  unique = ap all_unique (map-map (λ t. t.0) (byte_share p) picked) ∙ usable.unique;
  no_zero = ap (contains (of_ℕ 0)) (map-map (λ t. t.0) (byte_share p) picked) ∙ usable.no_zero;
}

bytes_on_curve :
    {n : ℕ} (p : Shared) (picked : List (U8 × Array U8 n))
    → All {A = U8 × U8} (λ s. s.1 ≡ evaluation p s.0) (map (byte_share p) picked)
bytes_on_curve p [] = tt
bytes_on_curve p (s ∷ picked) = (refl, bytes_on_curve p picked)

-- Byte `i` of each share is the value of polynomial `i` at the share's index.
read_bytes :
    {n : ℕ} (ps : List Shared) (picked : List (U8 × Array U8 n)) (i : ℕ) (p : Shared)
    → index ps i ≡ ok p
    → All (IsColumn ps) picked
    → traverse (byte_of_share i) picked ≡ ok (map (byte_share p) picked)
read_bytes {n} ps picked i p e columns =
    traverse-All-ok (byte_of_share i) _ picked (All-implies _ _ picked read columns)
  where
    read : (s : U8 × Array U8 n) → IsColumn ps s → byte_of_share i s ≡ ok (s.0, evaluation p s.0)
    read s c =
        unfold byte_of_share in
        ap (map_ok (λ b. (s.0, b)))
          (ap (λ l. index l i) c ∙ index-map (λ p. evaluation p s.0) ps i e)

module _ {n : ℕ} (ps : List Shared) (size : length ps ≡ n) (picked : List (U8 × Array U8 n)) where
  -- Shares on polynomials with at most as many coefficients as there are shares combine to the
  -- constant terms.
  pub combine-constants :
      AreUsable (λ s. s.0) picked
      → All (λ p. suc (length p.1) ≤ length picked) ps
      → All (IsColumn ps) picked
      → combine n picked
        ≡ ok (record { items = map (λ p. p.0) ps; size = length-map (λ p. p.0) ps ∙ size })
  combine-constants usable enough columns =
      opened
      ∙ ap (λ r. r >>= to_array n)
          (ap (λ m. traverse round (range_from 0 m)) (sym size)
            ∙ traverse-range_from round (λ p. p.0) 0 ps rounds)
      ∙ to_array-ok n _ _
    where
      round : ℕ → Outcome U8
      round i = traverse (byte_of_share i) picked >>= combine_byte

      rounds : (i : ℕ) (p : Shared) → index ps i ≡ ok p → round (0 + i) ≡ ok p.0
      rounds i p e =
          ap round {x = 0 + i} {y = i} (omega arith)
          ∙ ap (λ r. r >>= combine_byte) (read_bytes ps picked i p e columns)
          ∙ combine_byte-evaluation p (map (byte_share p) picked) (usable_bytes p picked usable)
              (omega (
                arith,
                All-index (λ p. suc (length p.1) ≤ length picked) ps i p enough e,
                length-map (byte_share {n = n} p) picked,
              ))
              (bytes_on_curve p picked)

      opened : combine n picked ≡ (traverse round (range_from 0 n) >>= to_array n)
      opened = unfold combine in refl

List_U8-set : IsSet (List U8)
List_U8-set = hlevel

-- A share among those that were made holds the values at its index.
IsColumn-of_mem :
    {n : ℕ} (ps : List Shared) (indices : List U8) (shares : List (Array U8 n))
    (s : U8 × Array U8 n)
    → map (λ (a : Array U8 n). a.items) shares ≡ map (λ i. map (λ p. evaluation p i) ps) indices
    → Mem s (zip indices shares)
    → IsColumn ps s
unfolding zip zip_with
IsColumn-of_mem ps [] shares s e m = absurd (not-mem-nil m)
IsColumn-of_mem ps (i ∷ indices) [] s e m = absurd (not-mem-nil m)
IsColumn-of_mem ps (i ∷ indices) (a ∷ shares) s e m =
    Or.elim (List_U8-set _ _) (mem-cons.0 m) (λ h. rw h (cc e))
      (IsColumn-of_mem ps indices shares s (cc e))

pub All-columns :
    {n : ℕ} (ps : List Shared) (indices : List U8) (shares : List (Array U8 n))
    (picked : List (U8 × Array U8 n))
    → map (λ (a : Array U8 n). a.items) shares ≡ map (λ i. map (λ p. evaluation p i) ps) indices
    → All (λ s. Mem s (zip indices shares)) picked
    → All (IsColumn ps) picked
All-columns ps indices shares picked e =
    All-implies _ _ picked (λ s. IsColumn-of_mem ps indices shares s e)

or_false : (p q : Bool) → (p || q) ≡ false → (p ≡ false) × (q ≡ false)
or_false p q h = ground arith

-- An index that none of the shares has is not the index of one of them.
pub apart_of_mem :
    {n : ℕ} (a : U8) (indices : List U8) (shares : List (Array U8 n)) (s : U8 × Array U8 n)
    → contains a indices ≡ false
    → Mem s (zip indices shares)
    → eq a s.0 ≡ false
unfolding zip zip_with contains
apart_of_mem a [] shares s h m = absurd (not-mem-nil m)
apart_of_mem a (i ∷ indices) [] s h m = absurd (not-mem-nil m)
apart_of_mem a (i ∷ indices) (b ∷ shares) s h m =
    Or.elim (Bool-set _ _) (mem-cons.0 m) (λ e. rw e ((or_false (eq a i) _ h).0))
      (apart_of_mem a indices shares s (or_false (eq a i) _ h).1)

pub not_contained :
    {n : ℕ} (a : U8) (picked : List (U8 × Array U8 n))
    → All (λ s. eq a s.0 ≡ false) picked
    → contains a (map (λ s. s.0) picked) ≡ false
unfolding contains
not_contained a [] h = refl
not_contained a (s ∷ picked) h = rw h.0 (not_contained a picked h.1)

pub nonempty_of_length :
    {A : Type 0} (m : ℕ) (xs : List A) → 0 < m → m ≤ length xs → is_empty xs ≡ false
nonempty_of_length m [] p q = absurd (omega arith)
nonempty_of_length m (x ∷ xs) p q = refl
