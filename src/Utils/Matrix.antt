-- ===== src/Utils/Matrix.antt =====
-- `transpose` on every matrix.
use pysui_crypto.Common.{
  ℕ, suc, ◌<◌, ◌≡◌, refl, sym, ap, ap₂, subst, ◌∙◌, ◌⊎◌, inl, inr, Bool, true, false, not, ◌||◌,
  List, [], ◌∷◌, map, length, range_from, is_empty, get_or, map-get_or, All, All-map, All-of_map,
  All-implies, ok, err, invalid_input, ◌==◌, Array, Bool-cases, arith,
}
use mathlib.Core.List.{map-map}
use pysui_crypto.Utils.{all_equal_to, all_equal_value, transpose}
use pysui_crypto.Utils.Laws.{column, transpose_table}

-- All are equal to `m`, or the test fails.
all_equal_to_cases :
    (m : ℕ) (ns : List ℕ)
    → All (λ n. n ≡ m) ns ⊎ (¬ (All (λ n. n ≡ m) ns) × (all_equal_to m ns ≡ false))
unfolding all_equal_to
all_equal_to_cases m [] = inl tt
all_equal_to_cases m (n ∷ ns) = elim (Bool-cases (n == m)) [
  | inr e ↦ inr ((λ h. differ n h.0 e), rw e refl)
  | inl e ↦ elim (all_equal_to_cases m ns) [
    | inl h ↦ inl (same n e, h)
    | inr (h, f) ↦ inr ((λ k. h k.1), rw (e, f) refl)
  ]
]
  where
    same : (n : ℕ) → (n == m) ≡ true → n ≡ m
    same n e = ground arith

    differ : (n : ℕ) → n ≡ m → ¬ ((n == m) ≡ false)
    differ n e h = ground arith

module _ {A : Type 0} where
  -- `n` rows, at least one, of `m` entries each.
  abbrev pub IsMatrix : ℕ → ℕ → List (List A) → Type 0
  IsMatrix n m matrix = (0 < n) × (length matrix ≡ n) × All (λ row. length row ≡ m) matrix

  -- The entry of a row at a position, and the rows by their entries.
  abbrev entry : A → List A → ℕ → A
  entry d row j = get_or row j d

  rows_by_entries :
      (m : ℕ) (d : A) (rows : List (List A))
      → All (λ row. length row ≡ m) rows
      → map (λ row. map (entry d row) (range_from 0 m)) rows ≡ rows
  rows_by_entries m d [] h = refl
  rows_by_entries m d (row ∷ rows) h =
      ap₂ ◌∷◌ (ap (λ m. map (entry d row) (range_from 0 m)) (sym h.0) ∙ map-get_or row d)
        (rows_by_entries m d rows h.1)

  -- The columns of a matrix: at each position below `m`, the entries of the rows there.
  abbrev pub Transposes : ℕ → ℕ → A → List (List A) → Type 0
  Transposes n m d matrix =
      (columns : List (Array A n)) × (transpose n matrix ≡ ok columns)
      × (map (λ (column : Array A n). column.items) columns
          ≡ map (λ j. map (λ row. get_or row j d) matrix) (range_from 0 m))

  transpose-ok :
      (m : ℕ) (d : A) (row : List A) (rows : List (List A))
      → All (λ row. length row ≡ m) (row ∷ rows)
      → Transposes (length (row ∷ rows)) m d (row ∷ rows)
  transpose-ok m d row rows h = (
    map (column (entry d) (row ∷ rows)) (range_from 0 m),
    ap (transpose (length (row ∷ rows))) (sym (rows_by_entries m d (row ∷ rows) h))
        ∙ transpose_table (entry d) (range_from 0 m) row rows,
    map-map (λ (c : Array A (length (row ∷ rows))). c.items) (column (entry d) (row ∷ rows))
        (range_from 0 m),
  )

  other_rows :
      (n : ℕ) (matrix : List (List A))
      → (not (length matrix == n) || is_empty matrix) ≡ true
      → transpose n matrix ≡ err invalid_input
  unfolding transpose
  other_rows n matrix e = rw e refl

  uneven :
      (n : ℕ) (row : List A) (rows : List (List A))
      → (not (length (row ∷ rows) == n)) ≡ false
      → all_equal_to (length row) (map length rows) ≡ false
      → transpose n (row ∷ rows) ≡ err invalid_input
  unfolding transpose all_equal_value
  uneven n row rows e f = rw (e, f) refl

  -- `transpose` to arrays of length n, on every list of rows. Of n rows, at least one, of one
  -- length m, it returns the m columns in order: at each position, the entries of the rows there.
  -- Any other list of rows is invalid input: none, fewer or more than n, or rows that differ in
  -- length. It never panics.
  pub transpose_cases :
      (n : ℕ) (d : A) (matrix : List (List A))
      → ((m : ℕ) × IsMatrix n m matrix × Transposes n m d matrix)
        ⊎ (¬ ((m : ℕ) × IsMatrix n m matrix) × (transpose n matrix ≡ err invalid_input))
  transpose_cases n d [] = inr ((λ h. nothing n (h.1).0 (h.1).1), other_rows n [] (always (0 == n)))
    where
      nothing : (n : ℕ) → 0 < n → ¬ (0 ≡ n)
      nothing n h e = omega arith

      always : (b : Bool) → (not b || true) ≡ true
      always true = refl
      always false = refl
  transpose_cases n d (row ∷ rows) = elim (Bool-cases (length (row ∷ rows) == n)) [
    | inr e ↦
        inr ((λ h. differ (length (row ∷ rows)) n e (h.1).1), other_rows n (row ∷ rows) (rw e refl))
    | inl e ↦ elim (all_equal_to_cases (length row) (map length rows)) [
      | inl even ↦
          let size = same (length (row ∷ rows)) n e in
          let all : All (λ r. length r ≡ length row) (row ∷ rows) =
            (refl, All-map (λ k. k ≡ length row) length rows even) in
          inl (
            length row,
            (positive (length rows) n size, size, all),
            subst (λ n. Transposes n (length row) d (row ∷ rows)) size
                (transpose-ok (length row) d row rows all),
          )
      | inr (odd, f) ↦ inr ((λ h. odd (lengths h.0 (h.1).2)), uneven n row rows (rw e refl) f)
    ]
  ]
    where
      same : (k n : ℕ) → (k == n) ≡ true → k ≡ n
      same k n e = ground arith

      differ : (k n : ℕ) → (k == n) ≡ false → ¬ (k ≡ n)
      differ k n e h = ground arith

      positive : (k n : ℕ) → suc k ≡ n → 0 < n
      positive k n e = omega (arith, e)

      lengths :
          (m : ℕ)
          → All (λ r. length r ≡ m) (row ∷ rows)
          → All (λ k. k ≡ length row) (map length rows)
      lengths m h =
          All-of_map (λ k. k ≡ length row) length rows
            (All-implies _ _ rows (λ r e. e ∙ sym h.0) h.1)
