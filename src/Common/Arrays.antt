-- ===== src/Common/Arrays.antt =====
-- Arrays of a static size, `[T; N]`: a list with its length in the type.
use Prim.Native.Nat.{ℕ}
use mathlib.Core.Path.{◌≡◌, refl, ap}
use mathlib.Core.List.{List}
use mathlib.Core.HLevel.{is_prop→PathP}
use native.Mathlib.Decide.{ℕ_discrete}
use native.Mathlib.Nat.{ℕ_set}
use pysui_crypto.Common.Lists.{length}
use pysui_crypto.Common.Results.{Outcome, ok, panic}

pub record Array {ℓ} (A : Type ℓ) (n : ℕ) : Type ℓ where
  pub items : List A
  pub size : length items ≡ n

pub Array_ext {ℓ} : {A : Type ℓ} {n : ℕ} (a b : Array A n) → a.items ≡ b.items → a ≡ b
Array_ext {n} a b e i = record {
  items = e i;
  size = is_prop→PathP (λ j. length (e j) ≡ n) (λ j. ℕ_set (length (e j)) n) a.size b.size i;
}

-- `try_into::<[T; N]>().expect(…)`.
unfoldable pub to_array {ℓ} : {A : Type ℓ} (n : ℕ) → List A → Outcome (Array A n)
to_array n xs = elim (ℕ_discrete (length xs) n) [
  | yes e ↦ ok (record { items = xs; size = e })
  | no _ ↦ panic
]

pub to_array-ok {ℓ} :
    {A : Type ℓ} (n : ℕ) (xs : List A) (e : length xs ≡ n)
    → to_array n xs ≡ ok (record { items = xs; size = e })
unfolding to_array
to_array-ok {A} n xs e = go (ℕ_discrete (length xs) n)
  where
    go :
        (d : Dec (length xs ≡ n))
        → ◌≡◌ {A = Outcome (Array A n)}
            (elim d [ yes e ↦ ok (record { items = xs; size = e }) | no _ ↦ panic ])
            (ok (record { items = xs; size = e }))
    go (yes e') = ap ok (Array_ext _ _ refl)
    go (no ne) = absurd (ne e)
