-- ===== src/Tests/Shares.antt =====
-- The theorems on sharing at concrete inputs.
use pysui_crypto.Common.{
  ℕ, ◌≡◌, refl, ap, true, false, List, [], ◌∷◌, map, length, All, ok, ◌>>=◌, index, traverse, Array,
  to_array, arith,
}
use mathlib.Core.List.{Mem, mem-cons_of_mem, mem-cons_self, zip, zip_with}
use pysui_crypto.Byte.{U8, of_ℕ, to_ℕ, eq, ◌^^◌}
use pysui_crypto.Gf256.{Gf256, from_u8, zero as 𝟘, is_zero, log_entry, exp, ◌⊕◌, ◌⊗◌}
use pysui_crypto.Gf256.Tables.{exp_table, log_table}
use pysui_crypto.Polynomial.{Polynomial, evaluate}
use pysui_crypto.Polynomial.Value.{value}
use pysui_crypto.Polynomial.Lagrange.{lagrange}
use native.Mathlib.Decide.{ℕ_discrete}
use pysui_crypto.Utils.{transpose, all_equal_value}
use pysui_crypto.Utils.Laws.{column, transpose_table}
use pysui_crypto.Common.{err, invalid_input, ◌⊎◌, ◌<◌, ◌≤◌}
use pysui_crypto.Tss.{interpolate, evaluate_all}
use pysui_crypto.Tss.Interpolate.{interpolate-evaluate_all}
use pysui_crypto.Tss.Check.{interpolate-split}
use pysui_crypto.Tss.{
  SecretSharing, contains, all_unique, random_elements, split_byte, split_bytes, split, combine,
  combine_byte,
}
use pysui_crypto.Tss.Bytes.{point}
use pysui_crypto.Tss.Combine.{AreUsable, combine_byte-lagrange}
use pysui_crypto.Tss.Shamir.{evaluation}
use pysui_crypto.Tss.Sharing.{split_lem, combine-split}
use pysui_crypto.Tests.Toy.{filled, counter}

abbrev element : ℕ → Gf256
element n = from_u8 (of_ℕ n)

abbrev one_byte : ℕ → Array U8 1
one_byte n = filled 1 (λ k. of_ℕ n)

-- 42 is shared by 42 + 5x.
abbrev line : U8 × List Gf256
line = (of_ℕ 42, element 5 ∷ [])

abbrev share : ℕ → Array U8 1
share i = column evaluation (line ∷ []) (of_ℕ i)

abbrev sharing : SecretSharing 1
sharing = record {
  secret = one_byte 42;
  indices = of_ℕ 1 ∷ of_ℕ 2 ∷ of_ℕ 3 ∷ [];
  shares = share 1 ∷ share 2 ∷ share 3 ∷ [];
}

abbrev picked : List (U8 × Array U8 1)
picked = (of_ℕ 3, share 3) ∷ (of_ℕ 1, share 1) ∷ []

split-sharing : split counter 1 5 (one_byte 42) 2 3 ≡ ok (sharing, 6)
unfolding split split_bytes split_byte contains eq of_ℕ all_unique evaluate random_elements value
    ◌⊕◌ ◌^^◌ transpose all_equal_value traverse index to_array ℕ_discrete ◌⊗◌ is_zero exp exp_table
    log_entry log_table to_ℕ
split-sharing =
    ap
      (λ r. r >>= λ (shares : List (Array U8 1)).
        ok (record { secret = one_byte 42; indices = sharing.indices; shares = shares }, 6))
      (transpose_table evaluation sharing.indices line [])

picked-Mem : All (λ s. Mem s (zip sharing.indices sharing.shares)) picked
unfolding zip zip_with
picked-Mem = (mem-cons_of_mem _ (mem-cons_of_mem _ mem-cons_self), (mem-cons_self, tt))

picked-all_unique : all_unique (map (λ (s : U8 × Array U8 1). s.0) picked) ≡ true
unfolding all_unique contains eq of_ℕ
picked-all_unique = refl

combine-split_example : combine 1 picked ≡ ok (one_byte 42)
combine-split_example =
    combine-split counter 2 3 1 5 6 (one_byte 42) sharing picked (omega arith) (omega arith)
      (omega arith) (omega arith) split-sharing picked-Mem picked-all_unique (omega arith)

split_lem_example :
    (((0 < 2) × (2 ≤ 3))
      × ((sharing : SecretSharing 1) × (st' : ℕ) × (split counter 1 5 (one_byte 42) 2 3
            ≡ ok (sharing, st'))
          × (sharing.secret ≡ one_byte 42)
          × (length sharing.shares ≡ 3)
          × (length sharing.indices ≡ 3)
          × (contains (of_ℕ 0) sharing.indices ≡ false)
          × (all_unique sharing.indices ≡ true)))
    ⊎ (¬ ((0 < 2) × (2 ≤ 3)) × (split counter 1 5 (one_byte 42) 2 3 ≡ err invalid_input))
split_lem_example = split_lem counter 2 3 1 5 (one_byte 42) (omega arith) (omega arith)

abbrev byte_shares : List (U8 × U8)
byte_shares = (of_ℕ 3, of_ℕ 37) ∷ (of_ℕ 1, of_ℕ 47) ∷ []

byte_shares-AreUsable : AreUsable (λ (s : U8 × U8). s.0) byte_shares
unfolding all_unique contains eq of_ℕ
byte_shares-AreUsable = record { some_share = refl; unique = refl; no_zero = refl }

combine_byte-lagrange_example :
    combine_byte byte_shares ≡ ok (lagrange [] (map point byte_shares) 𝟘).byte
combine_byte-lagrange_example = combine_byte-lagrange byte_shares byte_shares-AreUsable

picked-AreUsable : AreUsable (λ (s : U8 × Array U8 1). s.0) picked
unfolding contains eq of_ℕ
picked-AreUsable = record { some_share = refl; unique = picked-all_unique; no_zero = refl }

interpolate-evaluate_all_example :
    (ps : List Polynomial) × (interpolate 1 picked ≡ ok ps)
    × All (λ s. evaluate_all 1 ps s.0 ≡ ok s.1) picked
    × (combine 1 picked ≡ evaluate_all 1 ps (of_ℕ 0))
interpolate-evaluate_all_example = interpolate-evaluate_all 1 picked picked-AreUsable

interpolate-split_example :
    (ps : List Polynomial) × (interpolate 1 picked ≡ ok ps)
    × (evaluate_all 1 ps (of_ℕ 0) ≡ ok (one_byte 42))
    × All (λ s. evaluate_all 1 ps s.0 ≡ ok s.1) (zip sharing.indices sharing.shares)
interpolate-split_example =
    interpolate-split counter 2 3 1 5 6 (one_byte 42) sharing picked (omega arith) (omega arith)
      (omega arith) (omega arith) split-sharing picked-Mem picked-all_unique (omega arith)
