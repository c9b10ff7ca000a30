-- ===== src/Dem/Stream.antt =====
-- Counter mode byte by byte.
use pysui_crypto.Common.{
  ℕ, zero, suc, ◌+◌, ◌*◌, ◌/◌, ◌%◌, ◌≤◌, ◌<◌, ◌≡◌, refl, sym, ap, ap₂, ◌∙◌, inl, inr, List, [], ◌∷◌,
  ◌++◌, length, get_or, take, drop, append-take-drop, length-take-le, length-drop, take_full, arith,
}
use pysui_crypto.Byte.{U8, of_ℕ, ◌^^◌}
use pysui_crypto.Utils.{xor_unchecked}
use pysui_crypto.Dem.{Key, Primitives, stream_block, encrypt_in_ctr_mode}
use pysui_crypto.Dem.Ctr.{block_length, ctr, ctr-nil, ctr_step, encrypt_in_ctr_mode-ctr}

drop_at :
    (d : U8) (j : ℕ) (xs : List U8) → j < length xs → drop j xs ≡ get_or xs j d ∷ drop (suc j) xs
drop_at d j [] h = absurd (omega arith)
drop_at d zero (x ∷ xs) h = refl
drop_at d (suc j) (x ∷ xs) h = drop_at d j xs (omega arith)

module _ (lib : Primitives) (key : Key) where
  -- The byte of the key stream at position i: byte i % 32 of block i / 32.
  abbrev pub stream : ℕ → U8
  stream i = get_or (stream_block lib key (i / 32)) (i % 32) (of_ℕ 0)

  -- A text from position i on, each byte under the byte of the key stream at its position.
  unfoldable pub masked : ℕ → List U8 → List U8
  masked i [] = []
  masked i (b ∷ bs) = (b ^^ stream i) ∷ masked (suc i) bs

  masked-append :
      (i : ℕ) (xs ys : List U8) → masked i (xs ++ ys) ≡ masked i xs ++ masked (i + length xs) ys
  unfolding masked
  masked-append i [] ys = ap (λ k. masked k ys) {x = i} {y = i + 0} (omega arith)
  masked-append i (x ∷ xs) ys = ap (◌∷◌ (x ^^ stream i)) (
      masked-append (suc i) xs ys
      ∙ ap (λ k. masked (suc i) xs ++ masked k ys) {x = suc i + length xs} {y = i + suc (length xs)}
          (omega arith))

  -- Within a block.
  block_masked :
      (k j : ℕ) (xs : List U8)
      → j + length xs ≤ 32
      → xor_unchecked xs (drop j (stream_block lib key k)) ≡ masked (32 * k + j) xs
  unfolding masked xor_unchecked
  block_masked k j [] h = refl
  block_masked k j (x ∷ xs) h =
      rw (drop_at (of_ℕ 0) j (stream_block lib key k) (omega (arith, block_length lib key k))) (
        ap₂ ◌∷◌ (ap (◌^^◌ x) here) (
          block_masked k (suc j) xs (omega arith)
          ∙ ap (λ i. masked i xs) {x = 32 * k + suc j} {y = suc (32 * k + j)} (omega arith)))
    where
      here : get_or (stream_block lib key k) j (of_ℕ 0) ≡ stream (32 * k + j)
      here =
          ap₂ (λ q r. get_or (stream_block lib key q) r (of_ℕ 0)) {x = k} {y = (32 * k + j) / 32}
            {u = j} {v = (32 * k + j) % 32} (omega (arith, h)) (omega (arith, h))

  -- Behind a block.
  next_masked :
      (k : ℕ) (xs : List U8)
      → masked (32 * suc k) (drop 32 xs) ≡ masked (32 * k + 0 + length (take 32 xs)) (drop 32 xs)
  next_masked k xs = elim (take_full 32 xs) [
    | inl full ↦
        ap (λ i. masked i (drop 32 xs)) {x = 32 * suc k} {y = 32 * k + 0 + length (take 32 xs)}
          (omega (arith, full))
    | inr none_left ↦ rw none_left nothing
  ]
    where
      nothing : masked (32 * suc k) [] ≡ masked (32 * k + 0 + length (take 32 xs)) []
      nothing = unfold masked in refl

  ctr-masked :
      (f k : ℕ) (xs : List U8) → length xs ≤ f → ctr lib key f k xs ≡ masked (32 * k + 0) xs
  ctr-masked f k [] h = ctr-nil lib key f k ∙ unfold masked in refl
  ctr-masked zero k (x ∷ xs) h = absurd (omega arith)
  ctr-masked (suc f) k (x ∷ xs) h =
      ctr_step lib key f k (x ∷ xs) (omega arith)
      ∙ ap₂ ◌++◌ (block_masked k 0 (take 32 (x ∷ xs)) (omega (arith, length-take-le 32 (x ∷ xs)))) (
          ctr-masked f (suc k) (drop 32 (x ∷ xs)) (omega (arith, h, length-drop 32 (x ∷ xs)))
          ∙ ap (λ i. masked i (drop 32 (x ∷ xs))) {x = 32 * suc k + 0} {y = 32 * suc k}
              (omega arith)
          ∙ next_masked k (x ∷ xs))
      ∙ sym (masked-append (32 * k + 0) (take 32 (x ∷ xs)) (drop 32 (x ∷ xs)))
      ∙ ap (masked (32 * k + 0)) (append-take-drop 32 (x ∷ xs))

  -- Encryption in counter mode is a stream cipher: chunk by chunk as the code goes, it is exclusive
  -- or of each byte with the byte of the key stream at its position, which is byte i % 32 of the
  -- block for i / 32.
  pub encrypt_in_ctr_mode-masked : (msg : List U8) → encrypt_in_ctr_mode lib key msg ≡ masked 0 msg
  encrypt_in_ctr_mode-masked msg =
      encrypt_in_ctr_mode-ctr lib key msg ∙ ctr-masked (length msg) 0 msg (omega arith)
