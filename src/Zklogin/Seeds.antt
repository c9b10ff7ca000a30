-- ===== src/Zklogin/Seeds.antt =====
-- Seeds of addresses: leading zeros stripped, and put back.
use pysui_crypto.Common.{
  ℕ, zero, suc, ◌+◌, ◌-◌, ◌≤◌, ◌<◌, ◌≡◌, refl, sym, ap, ◌∙◌, ◌⊎◌, inl, inr, true, false, List, [],
  ◌∷◌, ◌++◌, length, length-append, none, some, ltb, ◌==◌, drop, arith, Bool-cases,
}
use pysui_crypto.Python.{returned, panicked}
use pysui_crypto.Byte.{U8, of_ℕ, eq}
use pysui_crypto.Byte.Numbers.{eq_iff}
use pysui_crypto.Zklogin.{
  slice_from, slice_at, first_nonzero, strip_seed_leading_zeros, zeros, copy_to_end, Libraries,
  compute_address_seed,
}

length-zeros : (n : ℕ) → length (zeros n) ≡ n
unfolding zeros
length-zeros zero = refl
length-zeros (suc n) = ap suc (length-zeros n)

-- What `first_nonzero` finds: a first byte that is not zero, behind zeros, or none.
record IsFirst (bs : List U8) (pos : ℕ) : Type 0 where
  byte : U8
  rest : List U8
  nonzero : ¬ (byte ≡ of_ℕ 0)
  joined : bs ≡ zeros pos ++ (byte ∷ rest)
  found : drop pos bs ≡ byte ∷ rest

first_nonzero-IsFirst :
    (bs : List U8)
    → ((pos : ℕ) × (first_nonzero bs ≡ some pos) × IsFirst bs pos)
      ⊎ ((first_nonzero bs ≡ none) × (bs ≡ zeros (length bs)))
unfolding first_nonzero zeros
first_nonzero-IsFirst [] = inr (refl, refl)
first_nonzero-IsFirst (b ∷ bs) = elim (Bool-cases (eq b (of_ℕ 0))) [
  | inr e ↦ inl (
    0,
    rw e refl,
    record {
      byte = b;
      rest = bs;
      nonzero = λ h. cc ((eq_iff b (of_ℕ 0)).1 h, e);
      joined = refl;
      found = refl;
    },
  )
  | inl e ↦ elim (first_nonzero-IsFirst bs) [
    | inl (pos, found, first) ↦ inl (
      suc pos,
      rw (e, found) refl,
      record {
        byte = first.byte;
        rest = first.rest;
        nonzero = first.nonzero;
        joined = cc ((eq_iff b (of_ℕ 0)).0 e, first.joined);
        found = first.found;
      },
    )
    | inr (found, all) ↦ inr (rw (e, found) refl, cc ((eq_iff b (of_ℕ 0)).0 e, all))
  ]
]

slice_from-within : (xs : List U8) (i : ℕ) → i ≤ length xs → slice_from xs i ≡ returned (drop i xs)
unfolding slice_from
slice_from-within xs i h = rw (below (length xs) i h) refl
  where
    below : (n i : ℕ) → i ≤ n → ltb n i ≡ false
    below n i h = ground arith

pub copy_to_end-fits :
    (bs : List U8) (start : ℕ)
    → start + length bs ≡ 32
    → copy_to_end bs ≡ returned (zeros start ++ bs)
unfolding copy_to_end
copy_to_end-fits bs start h = rw (room (length bs) start h, fits start (length bs) h) refl
  where
    room : (n start : ℕ) → start + n ≡ 32 → 32 - n ≡ start
    room n start h = omega arith

    fits : (start n : ℕ) → start + n ≡ 32 → (32 - start == n) ≡ true
    fits start n h = ground arith

slice_from-beyond : (xs : List U8) (i : ℕ) → length xs < i → slice_from xs i ≡ panicked
unfolding slice_from
slice_from-beyond xs i h = rw (above (length xs) i h) refl
  where
    above : (n i : ℕ) → n < i → ltb n i ≡ true
    above n i h = ground arith

strip_found :
    (seed : List U8) (pos : ℕ)
    → first_nonzero seed ≡ some pos
    → pos ≤ length seed
    → 31 ≤ length seed
    → strip_seed_leading_zeros seed ≡ returned (drop pos seed)
unfolding strip_seed_leading_zeros slice_at
strip_found seed pos e h long =
    rw (e, slice_from-within seed pos h, slice_from-within seed 31 long) refl

strip_none :
    (seed : List U8)
    → first_nonzero seed ≡ none
    → 31 ≤ length seed
    → strip_seed_leading_zeros seed ≡ returned (drop 31 seed)
unfolding strip_seed_leading_zeros slice_at
strip_none seed e long = rw (e, slice_from-within seed 31 long) refl

first_within : (seed : List U8) (pos : ℕ) → IsFirst seed pos → pos ≤ length seed
first_within seed pos first = omega (
  arith,
  ap length first.joined,
  length-append (zeros pos) (first.byte ∷ first.rest),
  length-zeros pos,
)

strip_short : (seed : List U8) → length seed < 31 → strip_seed_leading_zeros seed ≡ panicked
unfolding strip_seed_leading_zeros slice_at
strip_short seed h = elim (first_nonzero-IsFirst seed) [
  | inl (pos, e, first) ↦
      rw (e, slice_from-within seed pos (first_within seed pos first), slice_from-beyond seed 31 h)
        refl
  | inr (e, _) ↦ rw (e, slice_from-beyond seed 31 h) refl
]

drop-zeros : (k n : ℕ) → drop k (zeros n) ≡ zeros (n - k)
unfolding zeros
drop-zeros zero n = let e : n ≡ n - 0 = omega arith in ap zeros e
drop-zeros (suc k) zero = let e : 0 ≡ 0 - suc k = omega arith in ap zeros e
drop-zeros (suc k) (suc n) =
    let e : n - k ≡ suc n - suc k = omega arith in drop-zeros k n ∙ ap zeros e

-- The last of 32 zeros is the one that is left.
zeros_split : zeros 31 ++ zeros 1 ≡ zeros 32
unfolding zeros
zeros_split = refl

below_or_not : (n : ℕ) → (n < 31) ⊎ (31 ≤ n)
below_or_not n = ground arith

-- `strip_seed_leading_zeros` on every seed. It panics for each seed of less than 31 bytes. Of a seed
-- of at least 31 bytes it returns what begins with the first byte that is not zero and stands
-- behind zeros only, and if all bytes are zero, all but the first 31.
pub strip_seed_leading_zeros_cases :
    (seed : List U8)
    → ((length seed < 31) × (strip_seed_leading_zeros seed ≡ panicked))
      ⊎ (((k : ℕ) × (b : U8) × (rest : List U8) × (31 ≤ length seed)
            × ¬ (b ≡ of_ℕ 0)
            × (seed ≡ zeros k ++ (b ∷ rest))
            × (strip_seed_leading_zeros seed ≡ returned (b ∷ rest)))
          ⊎ ((31 ≤ length seed)
              × (seed ≡ zeros (length seed))
              × (strip_seed_leading_zeros seed ≡ returned (zeros (length seed - 31)))))
strip_seed_leading_zeros_cases seed = elim (below_or_not (length seed)) [
  | inl short ↦ inl (short, strip_short seed short)
  | inr long ↦ elim (first_nonzero-IsFirst seed) [
    | inl (pos, e, first) ↦ inr (
        inl (
          pos,
          first.byte,
          first.rest,
          long,
          first.nonzero,
          first.joined,
          strip_found seed pos e (first_within seed pos first) long ∙ ap returned first.found,
        ))
    | inr (e, all) ↦ inr (
        inr (
          long,
          all,
          strip_none seed e long ∙ ap returned (ap (drop 31) all ∙ drop-zeros 31 (length seed)),
        ))
  ]
]

-- Of a seed of 32 bytes, `strip_seed_leading_zeros` leaves at least one byte, without a panic, and
-- padding to 32 bytes the way `compute_address_seed` does gives the seed back.
pub copy_to_end-strip_seed_leading_zeros :
    (seed : List U8)
    → length seed ≡ 32
    → (stripped : List U8) × (strip_seed_leading_zeros seed ≡ returned stripped)
      × (0 < length stripped)
      × (copy_to_end stripped ≡ returned seed)
copy_to_end-strip_seed_leading_zeros seed size = elim (strip_seed_leading_zeros_cases seed) [
  | inl (short, _) ↦ absurd (omega arith)
  | inr (inl (k, b, rest, _, _, joined, e)) ↦ (
    b ∷ rest,
    e,
    omega arith,
    copy_to_end-fits (b ∷ rest) k
          (omega (arith, ap length joined, length-append (zeros k) (b ∷ rest), length-zeros k))
        ∙ ap returned (sym joined),
  )
  | inr (inr (_, all, e)) ↦ (
    zeros 1,
    e ∙ ap (λ n. returned (zeros (n - 31))) size,
    omega (arith, length-zeros 1),
    copy_to_end-fits (zeros 1) 31 (omega (arith, length-zeros 1))
        ∙ ap returned (zeros_split ∙ sym (all ∙ ap zeros size)),
  )
]

copy_to_end-too_long : (bs : List U8) → 32 < length bs → copy_to_end bs ≡ panicked
unfolding copy_to_end
copy_to_end-too_long bs h = rw (over (length bs) h) refl
  where
    over : (n : ℕ) → 32 < n → (32 - (32 - n) == n) ≡ false
    over n h = ground arith

short_or_long : (n : ℕ) → (n ≤ 32) ⊎ (32 < n)
short_or_long n = ground arith

-- Where `gen_address_seed` gives the decimal text of a number, `compute_address_seed` returns 32
-- bytes that end in the big-endian bytes of the number behind zeros only, if there are at most 32
-- of them. If there are more it panics.
pub compute_address_seed_lem :
    (lib : Libraries) (name value aud salt text : List U8) (n : ℕ)
    → lib.gen_address_seed salt name value aud ≡ some text
    → lib.parse_decimal text ≡ some n
    → ((seed : List U8) × (compute_address_seed lib name value aud salt ≡ returned seed)
        × (length seed ≡ 32)
        × (seed ≡ zeros (32 - length (lib.to_bytes_be n)) ++ lib.to_bytes_be n))
      ⊎ ((32 < length (lib.to_bytes_be n))
          × (compute_address_seed lib name value aud salt ≡ panicked))
unfolding compute_address_seed
compute_address_seed_lem lib name value aud salt text n e e' =
    elim (short_or_long (length (lib.to_bytes_be n))) [
      | inl short ↦
          let start = 32 - length (lib.to_bytes_be n) in
          inl (
            zeros start ++ lib.to_bytes_be n,
            rw (e, e') (copy_to_end-fits (lib.to_bytes_be n) start (omega arith)),
            length-append (zeros start) (lib.to_bytes_be n)
                ∙ ap (λ k. k + length (lib.to_bytes_be n)) (length-zeros start)
                ∙ room (length (lib.to_bytes_be n)) short,
            refl,
          )
      | inr long ↦ inr (long, rw (e, e') (copy_to_end-too_long (lib.to_bytes_be n) long))
    ]
  where
    room : (n : ℕ) → n ≤ 32 → 32 - n + n ≡ 32
    room n h = omega arith
