-- ===== src/Dem/Ctr.antt =====
-- Counter mode applied twice: the key stream and the chunks of a text.
use pysui_crypto.Common.{
  ℕ, zero, suc, ◌+◌, ◌≤◌, ◌<◌, ◌≡◌, refl, sym, ap, ap₂, ◌∙◌, inl, inr, List, [], ◌∷◌, ◌++◌, length,
  length-append, take, drop, append-take-drop, length-take-le, length-drop, take_full, take-append,
  drop-append, take_all, drop_all, arith,
}
use mathlib.Core.List.{append-nil}
use pysui_crypto.Byte.{U8}
use pysui_crypto.Utils.{xor_unchecked}
use pysui_crypto.Utils.Laws.{xor_unchecked_undo, length-xor_unchecked_within}
use pysui_crypto.Dem.{
  Key, Primitives, hmac, stream_block, encrypt_chunks, chunks_within, chunks, encrypt_in_ctr_mode,
}

chunks_within_step :
    (f n : ℕ) (xs : List U8)
    → 0 < length xs
    → chunks_within (suc f) n xs ≡ take n xs ∷ chunks_within f n (drop n xs)
unfolding chunks_within
chunks_within_step f n [] h = absurd (omega arith)
chunks_within_step f n (x ∷ xs) h = refl

module _ (lib : Primitives) (key : Key) where
  -- Counter mode from block i on.
  pub ctr : ℕ → ℕ → List U8 → List U8
  ctr f i xs = encrypt_chunks lib key i (chunks_within f 32 xs)

  pub block_length : (i : ℕ) → length (stream_block lib key i) ≡ 32
  unfolding stream_block
  block_length i = (hmac lib _ key (lib.u64_bytes i)).size

  pub ctr-nil : (f i : ℕ) → ctr f i [] ≡ []
  unfolding ctr chunks_within encrypt_chunks
  ctr-nil zero i = refl
  ctr-nil (suc f) i = refl

  pub ctr_step :
      (f i : ℕ) (xs : List U8)
      → 0 < length xs
      → ctr (suc f) i xs
        ≡ xor_unchecked (take 32 xs) (stream_block lib key i) ++ ctr f (suc i) (drop 32 xs)
  unfolding ctr encrypt_chunks
  ctr_step f i xs h = rw (chunks_within_step f 32 xs h)

  first_length :
      (i : ℕ) (xs : List U8)
      → length (xor_unchecked (take 32 xs) (stream_block lib key i)) ≡ length (take 32 xs)
  first_length i xs =
      length-xor_unchecked_within (take 32 xs) (stream_block lib key i)
        (omega (arith, length-take-le 32 xs, block_length i))

  -- The ciphertext falls into its first chunk and the rest at the place where the message does.
  first_and_rest :
      (i : ℕ) (xs t : List U8)
      → (drop 32 xs ≡ [] → t ≡ [])
      → let e = xor_unchecked (take 32 xs) (stream_block lib key i) in
        (take 32 (e ++ t) ≡ e) × (drop 32 (e ++ t) ≡ t)
  first_and_rest i xs t last = elim (take_full 32 xs) [
    | inl full ↦ (
      take-append 32 _ t (first_length i xs ∙ full),
      drop-append 32 _ t (first_length i xs ∙ full),
    )
    | inr none_left ↦ rw (last none_left) (
      ap (take 32) (append-nil first) ∙ take_all 32 _ within,
      ap (drop 32) (append-nil first) ∙ drop_all 32 _ within,
    )
  ]
    where
      first : List U8
      first = xor_unchecked (take 32 xs) (stream_block lib key i)

      within : length (xor_unchecked (take 32 xs) (stream_block lib key i)) ≤ 32
      within = omega (arith, first_length i xs, length-take-le 32 xs)

  length-ctr : (f i : ℕ) (xs : List U8) → length xs ≤ f → length (ctr f i xs) ≡ length xs
  length-ctr f i [] h = ap length (ctr-nil f i)
  length-ctr zero i (x ∷ xs) h = absurd (omega arith)
  length-ctr (suc f) i (x ∷ xs) h =
      ap length (ctr_step f i (x ∷ xs) (omega arith))
      ∙ length-append _ (ctr f (suc i) (drop 32 (x ∷ xs)))
      ∙ ap₂ ◌+◌ (first_length i (x ∷ xs))
          (length-ctr f (suc i) (drop 32 (x ∷ xs)) (omega (arith, length-drop 32 (x ∷ xs))))
      ∙ sym (length-append (take 32 (x ∷ xs)) (drop 32 (x ∷ xs)))
      ∙ ap length (append-take-drop 32 (x ∷ xs))

  ctr_undo :
      (f f' i : ℕ) (xs : List U8) → length xs ≤ f → length xs ≤ f' → ctr f' i (ctr f i xs) ≡ xs
  ctr_undo f f' i [] h h' = ap (ctr f' i) (ctr-nil f i) ∙ ctr-nil f' i
  ctr_undo zero f' i (x ∷ xs) h h' = absurd (omega arith)
  ctr_undo (suc f) zero i (x ∷ xs) h h' = absurd (omega arith)
  ctr_undo (suc f) (suc f') i (x ∷ xs) h h' =
      ctr_step f' i out (omega (arith, length-ctr (suc f) i (x ∷ xs) h))
      ∙ ap₂ (λ a b. xor_unchecked a block ++ ctr f' (suc i) b) (ap (take 32) step ∙ parts.0)
          (ap (drop 32) step ∙ parts.1)
      ∙ ap₂ ◌++◌
          (xor_unchecked_undo (take 32 (x ∷ xs)) block
            (omega (arith, length-take-le 32 (x ∷ xs), block_length i)))
          (ctr_undo f f' (suc i) (drop 32 (x ∷ xs)) (omega (arith, length-drop 32 (x ∷ xs)))
            (omega (arith, length-drop 32 (x ∷ xs))))
      ∙ append-take-drop 32 (x ∷ xs)
    where
      block : List U8
      block = stream_block lib key i

      out : List U8
      out = ctr (suc f) i (x ∷ xs)

      step : out ≡ xor_unchecked (take 32 (x ∷ xs)) block ++ ctr f (suc i) (drop 32 (x ∷ xs))
      step = ctr_step f i (x ∷ xs) (omega arith)

      parts :
          let e = xor_unchecked (take 32 (x ∷ xs)) block in
          let t = ctr f (suc i) (drop 32 (x ∷ xs)) in
          (take 32 (e ++ t) ≡ e) × (drop 32 (e ++ t) ≡ t)
      parts =
          first_and_rest i (x ∷ xs) (ctr f (suc i) (drop 32 (x ∷ xs)))
            (λ e. ap (ctr f (suc i)) e ∙ ctr-nil f (suc i))

  pub encrypt_in_ctr_mode-ctr :
      (xs : List U8) → encrypt_in_ctr_mode lib key xs ≡ ctr (length xs) 0 xs
  unfolding encrypt_in_ctr_mode ctr chunks
  encrypt_in_ctr_mode-ctr xs = refl

  -- Counter mode keeps the length, and a second run with the same key gives the message back.
  pub encrypt_in_ctr_mode_undo :
      (msg : List U8)
      → (length (encrypt_in_ctr_mode lib key msg) ≡ length msg)
        × (encrypt_in_ctr_mode lib key (encrypt_in_ctr_mode lib key msg) ≡ msg)
  encrypt_in_ctr_mode_undo msg = (
    ap length (encrypt_in_ctr_mode-ctr msg) ∙ length-ctr (length msg) 0 msg (omega arith),
    encrypt_in_ctr_mode-ctr (encrypt_in_ctr_mode lib key msg)
        ∙ ap (λ c. ctr (length c) 0 c) (encrypt_in_ctr_mode-ctr msg)
        ∙ ctr_undo (length msg) (length (ctr (length msg) 0 msg)) 0 msg (omega arith)
            (omega (arith, length-ctr (length msg) 0 msg (omega arith))),
  )
