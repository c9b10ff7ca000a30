-- ===== src/Utils/Laws.antt =====
-- What the helpers of seal/utils.rs do.
use pysui_crypto.Common.{
  ℕ, zero, suc, ◌+◌, ◌≤◌, ◌≡◌, refl, ap, ap₂, ◌∙◌, true, List, [], ◌∷◌, map, length, length-map,
  All, Outcome, ok, ◌>>=◌, traverse, traverse-map, traverse-ok, traverse-range_from, index,
  index-map, ◌==◌, range_from, Array, Array_ext, to_array, to_array-ok, arith,
}
use pysui_crypto.Byte.{U8, ◌^^◌}
use pysui_crypto.Byte.Xor.{^^_comm, ^^_assoc, ^^_self, ^^-zero}
use pysui_crypto.Utils.{xor_unchecked, xor, all_equal_to, all_equal_value, transpose}

length-xor_unchecked :
    (n : ℕ) (as' bs : List U8) → length as' ≡ n → length bs ≡ n → length (xor_unchecked as' bs) ≡ n
unfolding xor_unchecked
length-xor_unchecked n [] bs p q = p
length-xor_unchecked n (a ∷ as') [] p q = q
length-xor_unchecked zero (a ∷ as') (b ∷ bs) p q = absurd (omega arith)
length-xor_unchecked (suc n) (a ∷ as') (b ∷ bs) p q =
    omega (arith, length-xor_unchecked n as' bs (omega arith) (omega arith))

pub length-xor_unchecked_within :
    (as' bs : List U8) → length as' ≤ length bs → length (xor_unchecked as' bs) ≡ length as'
unfolding xor_unchecked
length-xor_unchecked_within [] bs h = refl
length-xor_unchecked_within (a ∷ as') [] h = absurd (omega arith)
length-xor_unchecked_within (a ∷ as') (b ∷ bs) h =
    ap suc (length-xor_unchecked_within as' bs (omega arith))

-- The exclusive or of two arrays of one size.
pub xor_array : (n : ℕ) → Array U8 n → Array U8 n → Array U8 n
xor_array n a b = record {
  items = xor_unchecked a.items b.items;
  size = length-xor_unchecked n a.items b.items a.size b.size;
}

-- The conversion in `xor` does not fail.
pub xor-ok : (n : ℕ) (a b : Array U8 n) → xor n a b ≡ ok (xor_array n a b)
unfolding xor xor_array
xor-ok n a b = to_array-ok n _ _

-- The pad may be longer than the text: the text comes back.
pub xor_unchecked_undo :
    (text pad : List U8)
    → length text ≤ length pad
    → xor_unchecked (xor_unchecked text pad) pad ≡ text
unfolding xor_unchecked
xor_unchecked_undo [] pad h = refl
xor_unchecked_undo (a ∷ text) [] h = absurd (omega arith)
xor_unchecked_undo (a ∷ text) (b ∷ pad) h =
    ap₂ ◌∷◌ (^^_assoc a b b ∙ ap (◌^^◌ a) (^^_self b) ∙ ^^-zero a)
      (xor_unchecked_undo text pad (omega arith))

pub xor_array_undo : (n : ℕ) (a b : Array U8 n) → xor_array n (xor_array n a b) b ≡ a
unfolding xor_array
xor_array_undo n a b =
    Array_ext _ _ (xor_unchecked_undo a.items b.items (omega (arith, a.size, b.size)))

all_equal_to-true : (m : ℕ) (ns : List ℕ) → All (λ n. n ≡ m) ns → all_equal_to m ns ≡ true
unfolding all_equal_to
all_equal_to-true m [] h = refl
all_equal_to-true m (n ∷ ns) h = rw (same n h.0) (all_equal_to-true m ns h.1)
  where
    same : (n : ℕ) → n ≡ m → (n == m) ≡ true
    same n e = ground arith

all_equal_value-ok :
    (m : ℕ) (ns : List ℕ) → All (λ n. n ≡ m) ns → (k : ℕ) → k ≡ m → all_equal_value (k ∷ ns) ≡ ok m
unfolding all_equal_value
all_equal_value-ok m ns h k e = rw (e, all_equal_to-true m ns h)

-- The round of `transpose` at one column.
read_column : {A : Type 0} (n : ℕ) → List (List A) → ℕ → Outcome (Array A n)
read_column n matrix i = traverse (λ row. index row i) matrix >>= to_array n

-- Past its guards `transpose` reads the columns one by one.
transpose_columns :
    {A : Type 0} (n m : ℕ) (row : List A) (rows : List (List A))
    → suc (length rows) ≡ n
    → all_equal_value (map length (row ∷ rows)) ≡ ok m
    → transpose n (row ∷ rows) ≡ traverse (read_column n (row ∷ rows)) (range_from 0 m)
unfolding transpose read_column
transpose_columns n m row rows size equal = rw (fits (suc (length rows)) size, equal)
  where
    fits : (k : ℕ) → k ≡ n → (k == n) ≡ true
    fits k e = ground arith

module _ {A B I : Type 0} (h : B → I → A) where
  row_lengths :
      (idx : List I) (ps : List B)
      → All (λ n. n ≡ length idx) (map length (map (λ p. map (h p) idx) ps))
  row_lengths idx [] = tt
  row_lengths idx (p ∷ ps) = (length-map (h p) idx, row_lengths idx ps)

  -- The column of the table at one argument.
  abbrev pub column : (ps : List B) → I → Array A (length ps)
  column ps i = record { items = map (λ p. h p i) ps; size = length-map _ ps }

  column_read :
      (ps : List B) (idx : List I) (i : ℕ) (a : I)
      → index idx i ≡ ok a
      → read_column (length ps) (map (λ p. map (h p) idx) ps) i ≡ ok (column ps a)
  unfolding read_column
  column_read ps idx i a e =
      ap (λ r. r >>= to_array (length ps))
        (traverse-map (λ row. index row i) (λ p. map (h p) idx) ps
          ∙ traverse-ok (λ p. index (map (h p) idx) i) (λ p. h p a) ps
              (λ p. index-map (h p) idx i e))
      ∙ to_array-ok (length ps) (map (λ p. h p a) ps) (length-map _ ps)

  -- `transpose` of a table of values, with a row for each of the `ps` and a column for each of the
  -- arguments `idx`, succeeds where there is a row, and returns the columns in order.
  pub transpose_table :
      (idx : List I) (p : B) (ps : List B)
      → transpose (length (p ∷ ps)) (map (λ p. map (h p) idx) (p ∷ ps))
        ≡ ok (map (column (p ∷ ps)) idx)
  transpose_table idx p ps =
      transpose_columns (length (p ∷ ps)) (length idx) (map (h p) idx) (map (λ p. map (h p) idx) ps)
        (ap suc (length-map _ ps))
        (all_equal_value-ok (length idx) _ (row_lengths idx ps) _ (length-map (h p) idx))
      ∙ traverse-range_from _ (column (p ∷ ps)) 0 idx (λ i a e.
        ap (read_column (length (p ∷ ps)) (map (λ p. map (h p) idx) (p ∷ ps))) {x = 0 + i} {y = i}
          (omega arith)
        ∙ column_read (p ∷ ps) idx i a e)

xor_unchecked_comm : (as' bs : List U8) → xor_unchecked as' bs ≡ xor_unchecked bs as'
unfolding xor_unchecked
xor_unchecked_comm [] [] = refl
xor_unchecked_comm [] (b ∷ bs) = refl
xor_unchecked_comm (a ∷ as') [] = refl
xor_unchecked_comm (a ∷ as') (b ∷ bs) = ap₂ ◌∷◌ (^^_comm a b) (xor_unchecked_comm as' bs)

pub xor_array_comm : (n : ℕ) (a b : Array U8 n) → xor_array n a b ≡ xor_array n b a
unfolding xor_array
xor_array_comm n a b = Array_ext _ _ (xor_unchecked_comm a.items b.items)
