-- ===== src/Common/Slices.antt =====
-- The parts of a list before and after a position.
use Prim.Native.Nat.{ℕ, zero, suc, ◌-◌, ◌≤◌}
use mathlib.Core.Path.{◌≡◌, refl, sym, ap, ◌∙◌}
use mathlib.Core.Logic.{◌⊎◌, inl, inr}
use mathlib.Core.List.{List, [], ◌∷◌, ◌++◌}
use native.Mathlib.Omega.{arith}
use pysui_crypto.Common.Lists.{length, take, drop}

module _ {A : Type 0} where
  pub append-take-drop : (n : ℕ) (xs : List A) → take n xs ++ drop n xs ≡ xs
  append-take-drop zero xs = refl
  append-take-drop (suc n) [] = refl
  append-take-drop (suc n) (x ∷ xs) = ap (◌∷◌ x) (append-take-drop n xs)

  pub length-take-le : (n : ℕ) (xs : List A) → length (take n xs) ≤ n
  length-take-le zero xs = omega arith
  length-take-le (suc n) [] = omega arith
  length-take-le (suc n) (x ∷ xs) = omega (arith, length-take-le n xs)

  pub length-drop : (n : ℕ) (xs : List A) → length (drop n xs) ≡ length xs - n
  length-drop zero xs = omega arith
  length-drop (suc n) [] = omega arith
  length-drop (suc n) (x ∷ xs) = omega (arith, length-drop n xs)

  -- Either the first part is full, or nothing is behind it.
  pub take_full : (n : ℕ) (xs : List A) → (length (take n xs) ≡ n) ⊎ (drop n xs ≡ [])
  take_full zero xs = inl refl
  take_full (suc n) [] = inr refl
  take_full (suc n) (x ∷ xs) = elim (take_full n xs) [ inl e ↦ inl (ap suc e) | inr e ↦ inr e ]

  pub take-append : (n : ℕ) (xs ys : List A) → length xs ≡ n → take n (xs ++ ys) ≡ xs
  take-append zero [] ys e = refl
  take-append (suc n) [] ys e = absurd (omega arith)
  take-append zero (x ∷ xs) ys e = absurd (omega arith)
  take-append (suc n) (x ∷ xs) ys e = ap (◌∷◌ x) (take-append n xs ys (omega arith))

  pub drop-append : (n : ℕ) (xs ys : List A) → length xs ≡ n → drop n (xs ++ ys) ≡ ys
  drop-append zero [] ys e = refl
  drop-append (suc n) [] ys e = absurd (omega arith)
  drop-append zero (x ∷ xs) ys e = absurd (omega arith)
  drop-append (suc n) (x ∷ xs) ys e = drop-append n xs ys (omega arith)

  pub take_all : (n : ℕ) (xs : List A) → length xs ≤ n → take n xs ≡ xs
  take_all zero [] h = refl
  take_all (suc n) [] h = refl
  take_all zero (x ∷ xs) h = absurd (omega arith)
  take_all (suc n) (x ∷ xs) h = ap (◌∷◌ x) (take_all n xs (omega arith))

  pub drop_all : (n : ℕ) (xs : List A) → length xs ≤ n → drop n xs ≡ []
  drop_all zero [] h = refl
  drop_all (suc n) [] h = refl
  drop_all zero (x ∷ xs) h = absurd (omega arith)
  drop_all (suc n) (x ∷ xs) h = drop_all n xs (omega arith)

  pub length-take : (n : ℕ) (xs : List A) → n ≤ length xs → length (take n xs) ≡ n
  length-take zero xs h = refl
  length-take (suc n) [] h = absurd (omega arith)
  length-take (suc n) (x ∷ xs) h = ap suc (length-take n xs (omega arith))

-- Two joined texts that are equal have equal parts where the first parts are equally long.
pub append_injective :
    {A : Type 0} (xs xs' ys ys' : List A)
    → length xs ≡ length xs'
    → xs ++ ys ≡ xs' ++ ys'
    → (xs ≡ xs') × (ys ≡ ys')
append_injective xs xs' ys ys' e h = (
  sym (take-append (length xs) xs ys refl)
      ∙ ap (take (length xs)) h
      ∙ take-append (length xs) xs' ys' (sym e),
  sym (drop-append (length xs) xs ys refl)
      ∙ ap (drop (length xs)) h
      ∙ drop-append (length xs) xs' ys' (sym e),
)
