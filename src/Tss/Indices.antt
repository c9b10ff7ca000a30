-- ===== src/Tss/Indices.antt =====
-- The indices `1..=number_of_shares` pass the guards: no two are equal, and none is zero.
use pysui_crypto.Common.{
  ℕ, zero, suc, ◌+◌, ◌≤◌, ◌<◌, ◌≡◌, refl, ◌∙◌, true, false, inl, inr, List, map, length, length-map,
  length-range_from, range_from, Bool-cases, arith,
}
use pysui_crypto.Byte.{U8, of_ℕ, eq}
use pysui_crypto.Byte.Numbers.{eq_iff, of_ℕ_injective}
use pysui_crypto.Tss.{contains, all_unique}

-- The indices that `split` uses for `k` shares.
abbrev pub indices_to : ℕ → List U8
indices_to k = map of_ℕ (range_from 1 k)

of_ℕ_apart : (a b : ℕ) → a < b → b < 256 → eq (of_ℕ a) (of_ℕ b) ≡ false
of_ℕ_apart a b h hb = elim (Bool-cases (eq (of_ℕ a) (of_ℕ b))) [
  | inl e ↦ absurd (omega (arith, of_ℕ_injective a b (omega arith) hb ((eq_iff _ _).0 e)))
  | inr e ↦ e
]

contains-range_from :
    (a lo k : ℕ) → a < lo → lo + k ≤ 256 → contains (of_ℕ a) (map of_ℕ (range_from lo k)) ≡ false
unfolding contains
contains-range_from a lo zero h fits = refl
contains-range_from a lo (suc k) h fits =
    rw (of_ℕ_apart a lo h (omega arith))
      (contains-range_from a (suc lo) k (omega arith) (omega arith))

all_unique-range_from : (lo k : ℕ) → lo + k ≤ 256 → all_unique (map of_ℕ (range_from lo k)) ≡ true
all_unique-range_from lo zero fits = unfold all_unique in refl
all_unique-range_from lo (suc k) fits =
    step (contains-range_from lo (suc lo) k (omega arith) (omega arith))
      (all_unique-range_from (suc lo) k (omega arith))
  where
    step :
        contains (of_ℕ lo) (map of_ℕ (range_from (suc lo) k)) ≡ false
        → all_unique (map of_ℕ (range_from (suc lo) k)) ≡ true
        → all_unique (map of_ℕ (range_from lo (suc k))) ≡ true
    step p q = unfold all_unique in rw (p, q)

pub length-indices_to : (k : ℕ) → length (indices_to k) ≡ k
length-indices_to k = length-map of_ℕ (range_from 1 k) ∙ length-range_from 1 k

pub all_unique-indices_to : (k : ℕ) → k ≤ 255 → all_unique (indices_to k) ≡ true
all_unique-indices_to k h = all_unique-range_from 1 k (omega arith)

pub contains_zero-indices_to : (k : ℕ) → k ≤ 255 → contains (of_ℕ 0) (indices_to k) ≡ false
contains_zero-indices_to k h = contains-range_from 0 1 k (omega arith) (omega arith)
