-- ===== src/Tss/Tape.antt =====
-- Shared bytes whose random coefficients are read from a list, and how to move the secret in them.
use pysui_crypto.Common.{
  ℕ, zero, suc, ◌+◌, ◌≤◌, ◌≡◌, refl, sym, ap, ap₂, ◌∙◌, false, List, [], ◌∷◌, ◌++◌, map, length,
  length-map, length-append, take, drop, take-append, drop-append, append-take-drop, All,
  All-implies, All-always, All-both, range_from, length-range_from, arith,
}
use pysui_crypto.Byte.{U8, of_ℕ}
use pysui_crypto.Gf256.{Gf256, from_u8, is_zero, ◌⊕◌}
use pysui_crypto.Gf256.Field.{⊕-zero, ⊕_comm}
use pysui_crypto.Gf256.Sums.{⊕_cancel}
use pysui_crypto.Polynomial.{add_coefficients}
use pysui_crypto.Polynomial.Value.{value, value-add_coefficients}
use pysui_crypto.Utils.{Rng}
use pysui_crypto.Tss.{random_elements}
use pysui_crypto.Tss.Mask.{
  mask, length-mask, value-mask, add_coefficients_twice, length-add_coefficients_within,
}
use pysui_crypto.Tss.Split.{Shared, drawn_polynomials}

abbrev next_byte : List U8 → U8 × List U8
next_byte [] = (of_ℕ 0, [])
next_byte (b ∷ bs) = (b, bs)

-- A generator that reads its random bytes from a list.
abbrev pub tape : Rng
tape = record {
  State = List U8;
  gen_byte = next_byte;
  fill_bytes = λ n bs. (
    record {
      items = map (λ k. of_ℕ 0) (range_from 0 n);
      size = length-map _ (range_from 0 n) ∙ length-range_from 0 n;
    },
    bs,
  );
}

random_elements-tape :
    (m : ℕ) (bs : List U8)
    → m ≤ length bs
    → random_elements tape m bs ≡ (map from_u8 (take m bs), drop m bs)
unfolding random_elements
random_elements-tape zero bs h = refl
random_elements-tape (suc m) [] h = absurd (omega arith)
random_elements-tape (suc m) (b ∷ bs) h =
    ap (λ (r : List Gf256 × List U8). (from_u8 b ∷ r.0, r.1))
      (random_elements-tape m bs (omega arith))

map-byte : (cs : List Gf256) → map from_u8 (map (λ (c : Gf256). c.byte) cs) ≡ cs
map-byte [] = refl
map-byte (c ∷ cs) = ap (◌∷◌ c) (map-byte cs)

map-from_u8 : (bs : List U8) → map (λ (c : Gf256). c.byte) (map from_u8 bs) ≡ bs
map-from_u8 [] = refl
map-from_u8 (b ∷ bs) = ap (◌∷◌ b) (map-from_u8 bs)

-- The difference of two bytes.
abbrev difference : U8 → U8 → Gf256
difference s s' = from_u8 s ⊕ from_u8 s'

-- The tape has `m` bytes for each byte of the secret.
abbrev pub Fits : ℕ → List U8 → List U8 → Type 0
Fits m [] bs = length bs ≡ 0
Fits m (s ∷ ss) bs = (length (take m bs) ≡ m) × Fits m ss (drop m bs)

module _ (m : ℕ) (rs : List Gf256) (few : length rs ≤ m) where
  -- The bytes of the coefficients for the one byte, from those for the other.
  move_byte : U8 → U8 → List U8 → List U8
  move_byte s s' bs =
      map (λ (c : Gf256). c.byte) (add_coefficients (map from_u8 bs) (mask (difference s s') rs))

  -- The same for each byte of a secret, with `m` bytes of the tape each.
  pub move : List U8 → List U8 → List U8 → List U8
  move [] ss' bs = bs
  move (s ∷ ss) [] bs = bs
  move (s ∷ ss) (s' ∷ ss') bs = move_byte s s' (take m bs) ++ move ss ss' (drop m bs)

  mask_fits :
      (d : Gf256) (bs : List U8) → length bs ≡ m → length (mask d rs) ≤ length (map from_u8 bs)
  mask_fits d bs e = omega (arith, length-mask d rs, length-map from_u8 bs)

  length-move_byte : (s s' : U8) (bs : List U8) → length bs ≡ m → length (move_byte s s' bs) ≡ m
  unfolding move_byte
  length-move_byte s s' bs e =
      length-map _ (add_coefficients (map from_u8 bs) (mask (difference s s') rs))
      ∙ length-add_coefficients_within (map from_u8 bs) (mask (difference s s') rs)
          (mask_fits (difference s s') bs e)
      ∙ length-map from_u8 bs
      ∙ e

  move_byte_twice :
      (s s' : U8) (bs : List U8) → length bs ≡ m → move_byte s s' (move_byte s s' bs) ≡ bs
  unfolding move_byte
  move_byte_twice s s' bs e =
      ap (λ cs. map (λ (c : Gf256). c.byte) (add_coefficients cs (mask (difference s s') rs)))
        (map-byte _)
      ∙ ap (map (λ (c : Gf256). c.byte)) (
          add_coefficients_twice (map from_u8 bs) (mask (difference s s') rs)
            (mask_fits (difference s s') bs e))
      ∙ map-from_u8 bs

  -- The value at a point of the mask stays.
  evaluation-move_byte :
      (s s' : U8) (bs : List U8)
      → All (λ r. is_zero r ≡ false) rs
      → All
          (λ r.
            value (from_u8 s' ∷ map from_u8 (move_byte s s' bs)) r
            ≡ value (from_u8 s ∷ map from_u8 bs) r)
          rs
  unfolding move_byte
  evaluation-move_byte s s' bs apart =
      All-implies _ _ rs
        (λ r vanishes.
          ap₂ (λ h t. value (h ∷ t) r) (sym other) (map-byte _)
          ∙ opened r
          ∙ value-add_coefficients (from_u8 s ∷ map from_u8 bs)
              (difference s s' ∷ mask (difference s s') rs) r
          ∙ ap (◌⊕◌ (value (from_u8 s ∷ map from_u8 bs) r)) vanishes
          ∙ ⊕-zero _)
        (value-mask (difference s s') rs apart)
    where
      other : from_u8 s ⊕ difference s s' ≡ from_u8 s'
      other =
          ap (◌⊕◌ (from_u8 s)) (⊕_comm (from_u8 s) (from_u8 s'))
          ∙ ⊕_comm _ _
          ∙ ⊕_cancel (from_u8 s') (from_u8 s)

      opened :
          (r : Gf256)
          → value
              ((from_u8 s ⊕ difference s s')
                ∷ add_coefficients (map from_u8 bs) (mask (difference s s') rs))
              r
            ≡ value
                (add_coefficients
                  (from_u8 s ∷ map from_u8 bs)
                  (difference s s' ∷ mask (difference s s') rs))
                r
      opened r = unfold add_coefficients in refl

  pub move_twice :
      (ss ss' bs : List U8)
      → length ss ≡ length ss'
      → Fits m ss bs
      → move ss' ss (move ss ss' bs) ≡ bs
  unfolding move move_byte
  move_twice [] [] bs e h = refl
  move_twice [] (s' ∷ ss') bs e h = absurd (omega arith)
  move_twice (s ∷ ss) [] bs e h = absurd (omega arith)
  move_twice (s ∷ ss) (s' ∷ ss') bs e h =
      ap₂ (λ a b. move_byte s' s a ++ move ss' ss b)
        (take-append m (move_byte s s' (take m bs)) (move ss ss' (drop m bs))
          (length-move_byte s s' (take m bs) h.0))
        (drop-append m (move_byte s s' (take m bs)) (move ss ss' (drop m bs))
          (length-move_byte s s' (take m bs) h.0))
      ∙ ap₂ ◌++◌ (back (take m bs) h.0) (move_twice ss ss' (drop m bs) (omega arith) h.1)
      ∙ append-take-drop m bs
    where
      back : (cs : List U8) → length cs ≡ m → move_byte s' s (move_byte s s' cs) ≡ cs
      back cs e =
          ap
            (λ d.
              map (λ (c : Gf256). c.byte)
                (add_coefficients (map from_u8 (move_byte s s' cs)) (mask d rs)))
            (⊕_comm (from_u8 s') (from_u8 s))
          ∙ move_byte_twice s s' cs e

  pub length-move :
      (ss ss' bs : List U8)
      → length ss ≡ length ss'
      → Fits m ss bs
      → length (move ss ss' bs) ≡ length bs
  unfolding move
  length-move [] [] bs e h = refl
  length-move [] (s' ∷ ss') bs e h = absurd (omega arith)
  length-move (s ∷ ss) [] bs e h = absurd (omega arith)
  length-move (s ∷ ss) (s' ∷ ss') bs e h =
      length-append (move_byte s s' (take m bs)) (move ss ss' (drop m bs))
      ∙ ap₂ ◌+◌ (length-move_byte s s' (take m bs) h.0 ∙ sym h.0)
          (length-move ss ss' (drop m bs) (omega arith) h.1)
      ∙ sym (length-append (take m bs) (drop m bs))
      ∙ ap length (append-take-drop m bs)

  drawn-cons :
      (s : U8) (ss bs : List U8)
      → m ≤ length bs
      → drawn_polynomials tape m bs (s ∷ ss)
        ≡ (s, map from_u8 (take m bs)) ∷ drawn_polynomials tape m (drop m bs) ss
  unfolding drawn_polynomials
  drawn-cons s ss bs h =
      ap (λ (r : List Gf256 × List U8). (s, r.0) ∷ drawn_polynomials tape m r.1 ss)
        (random_elements-tape m bs h)

  abbrev pub values : Gf256 → List Shared → List Gf256
  values r ps = map (λ (p : Shared). value (from_u8 p.0 ∷ p.1) r) ps

  -- The polynomials that are drawn have the same values at the points of the mask.
  pub same_values :
      (ss ss' bs : List U8)
      → length ss ≡ length ss'
      → Fits m ss bs
      → All (λ r. is_zero r ≡ false) rs
      → All
          (λ r.
            values r (drawn_polynomials tape m (move ss ss' bs) ss')
            ≡ values r (drawn_polynomials tape m bs ss))
          rs
  same_values [] [] bs e h apart = All-always _ rs (λ r. unfold drawn_polynomials in refl)
  same_values [] (s' ∷ ss') bs e h apart = absurd (omega arith)
  same_values (s ∷ ss) [] bs e h apart = absurd (omega arith)
  same_values (s ∷ ss) (s' ∷ ss') bs e h apart =
      All-implies _ _ rs (λ r t. ap (values r) after ∙ ap₂ ◌∷◌ t.0 t.1 ∙ ap (values r) (sym before))
        (All-both _ _ rs (evaluation-move_byte s s' (take m bs) apart)
          (same_values ss ss' (drop m bs) (omega arith) h.1 apart))
    where
      before :
          drawn_polynomials tape m bs (s ∷ ss)
          ≡ (s, map from_u8 (take m bs)) ∷ drawn_polynomials tape m (drop m bs) ss
      before = drawn-cons s ss bs (
          omega
            (arith, h.0, length-append (take m bs) (drop m bs), ap length (append-take-drop m bs)))

      first : length (move_byte s s' (take m bs)) ≡ m
      first = length-move_byte s s' (take m bs) h.0

      opened : move (s ∷ ss) (s' ∷ ss') bs ≡ move_byte s s' (take m bs) ++ move ss ss' (drop m bs)
      opened = unfold move in refl

      after :
          drawn_polynomials tape m (move (s ∷ ss) (s' ∷ ss') bs) (s' ∷ ss')
          ≡ (s', map from_u8 (move_byte s s' (take m bs)))
            ∷ drawn_polynomials tape m (move ss ss' (drop m bs)) ss'
      after =
          ap (λ t. drawn_polynomials tape m t (s' ∷ ss')) opened
          ∙ drawn-cons s' ss' (move_byte s s' (take m bs) ++ move ss ss' (drop m bs)) (
              omega (
                arith,
                first,
                length-append (move_byte s s' (take m bs)) (move ss ss' (drop m bs)),
              ))
          ∙ ap₂ (λ a b. (s', map from_u8 a) ∷ drawn_polynomials tape m b ss')
              (take-append m (move_byte s s' (take m bs)) (move ss ss' (drop m bs)) first)
              (drop-append m (move_byte s s' (take m bs)) (move ss ss' (drop m bs)) first)
