-- ===== src/Common/Lists.antt =====
-- Lists indexed by native numbers, and the ranges and folds that the code iterates with.
use Prim.Native.Nat.{ℕ, zero, suc, ◌+◌, ◌≤◌, ◌<◌}
use mathlib.Core.Path.{◌≡◌, refl, ap, ap₂, ◌∙◌}
use mathlib.Core.Bool.{Bool, true, false, not}
use mathlib.Core.Option.{Option, none, some}
use mathlib.Core.List.{List, [], ◌∷◌, ◌++◌, map}
use pysui_crypto.Common.Tests.{if◌then◌else◌, ◌==◌}
use mathlib.Core.Logic.{◌⊎◌, inl, inr}
use native.Mathlib.Omega.{arith}

module _ {ℓ} {A : Type ℓ} where
  abbrev pub length : List A → ℕ
  length [] = 0
  length (x ∷ xs) = suc (length xs)

  abbrev pub get_elem? : List A → ℕ → Option A
  get_elem? [] i = none
  get_elem? (x ∷ xs) zero = some x
  get_elem? (x ∷ xs) (suc i) = get_elem? xs i

  abbrev pub get_or : List A → ℕ → A → A
  get_or [] i d = d
  get_or (x ∷ xs) zero d = x
  get_or (x ∷ xs) (suc i) d = get_or xs i d

  abbrev pub take : ℕ → List A → List A
  take zero xs = []
  take (suc n) [] = []
  take (suc n) (x ∷ xs) = x ∷ take n xs

  abbrev pub drop : ℕ → List A → List A
  drop zero xs = xs
  drop (suc n) [] = []
  drop (suc n) (x ∷ xs) = drop n xs

  abbrev pub is_empty : List A → Bool
  is_empty [] = true
  is_empty (x ∷ xs) = false

  -- `iter().enumerate()`, from a start index.
  abbrev pub enumerate_from : ℕ → List A → List (ℕ × A)
  enumerate_from n [] = []
  enumerate_from n (x ∷ xs) = (n, x) ∷ enumerate_from (suc n) xs

  pub get_or_beyond : (xs : List A) (i : ℕ) (d : A) → length xs ≤ i → get_or xs i d ≡ d
  get_or_beyond [] i d h = refl
  get_or_beyond (x ∷ xs) zero d h = absurd (omega arith)
  get_or_beyond (x ∷ xs) (suc i) d h = get_or_beyond xs i d (omega arith)

  -- `iter().filter(p)`.
  abbrev pub filter : (A → Bool) → List A → List A
  filter p [] = []
  filter p (x ∷ xs) = let rest = filter p xs in if p x then x ∷ rest else rest

  pub length-append : (xs ys : List A) → length (xs ++ ys) ≡ length xs + length ys
  length-append [] ys = omega arith
  length-append (x ∷ xs) ys = omega (arith, length-append xs ys)

pub length-map {ℓ κ} :
    {A : Type ℓ} {B : Type κ} (f : A → B) (xs : List A) → length (map f xs) ≡ length xs
length-map f [] = refl
length-map f (x ∷ xs) = ap suc (length-map f xs)

-- Every element of the list has the property.
abbrev pub All {ℓ κ} : {A : Type ℓ} → (A → Type κ) → List A → Type κ
All P [] = Unit
All P (x ∷ xs) = P x × All P xs

pub All-append {ℓ κ} :
    {A : Type ℓ} (P : A → Type κ) (xs ys : List A) → All P xs → All P ys → All P (xs ++ ys)
All-append P [] ys h k = k
All-append P (x ∷ xs) ys h k = (h.0, All-append P xs ys h.1 k)

pub All-append_right {ℓ κ} :
    {A : Type ℓ} (P : A → Type κ) (xs ys : List A) → All P (xs ++ ys) → All P ys
All-append_right P [] ys h = h
All-append_right P (x ∷ xs) ys h = All-append_right P xs ys h.1

pub All-map {ℓ κ μ} :
    {A : Type ℓ} {B : Type κ} (P : B → Type μ) (f : A → B) (xs : List A)
    → All P (map f xs)
    → All (λ x. P (f x)) xs
All-map P f [] h = tt
All-map P f (x ∷ xs) h = (h.0, All-map P f xs h.1)

pub All-implies {ℓ κ μ} :
    {A : Type ℓ} (P : A → Type κ) (Q : A → Type μ) (xs : List A)
    → ((x : A) → P x → Q x)
    → All P xs
    → All Q xs
All-implies P Q [] f h = tt
All-implies P Q (x ∷ xs) f h = (f x h.0, All-implies P Q xs f h.1)

test_here : (n j : ℕ) → j ≡ n → not (n == j) ≡ false
test_here n j h = ground arith

test_apart : (n j : ℕ) → (j < n) ⊎ (n < j) → not (n == j) ≡ true
test_apart n j h = ground arith

module _ {ℓ} {A : Type ℓ} (j : ℕ) where
  -- `iter().enumerate().filter(|(i, _)| i != j)`, from index n, with the indices left off.
  abbrev pub without_index : ℕ → List A → List A
  without_index n xs = map (λ e. e.1) (filter (λ e. not (e.0 == j)) (enumerate_from n xs))

  without_index_behind : (n : ℕ) (xs : List A) → j < n → without_index n xs ≡ xs
  without_index_behind n [] h = refl
  without_index_behind n (x ∷ xs) h =
      rw (test_apart n j (inl h)) (ap (◌∷◌ x) (without_index_behind (suc n) xs (omega arith)))

  -- It leaves out the element at index j.
  pub without_index_lem :
      (n : ℕ) (pre : List A) (p : A) (post : List A)
      → j ≡ n + length pre
      → without_index n (pre ++ p ∷ post) ≡ pre ++ post
  without_index_lem n [] p post e =
      rw (test_here n j (omega arith)) (without_index_behind (suc n) post (omega arith))
  without_index_lem n (q ∷ pre) p post e =
      rw (test_apart n j (inr (omega arith)))
        (ap (◌∷◌ q) (without_index_lem (suc n) pre p post (omega arith)))

-- The `n` numbers from `lo` up: `lo..lo + n`.
abbrev pub range_from : ℕ → ℕ → List ℕ
range_from lo zero = []
range_from lo (suc n) = lo ∷ range_from (suc lo) n

pub map-range_from {ℓ} :
    {A : Type ℓ} (f : ℕ → A) (lo n : ℕ)
    → map f (range_from (suc lo) n) ≡ map (λ i. f (suc i)) (range_from lo n)
map-range_from f lo zero = refl
map-range_from f lo (suc n) = ap (◌∷◌ (f (suc lo))) (map-range_from f (suc lo) n)

pub length-range_from : (lo n : ℕ) → length (range_from lo n) ≡ n
length-range_from lo zero = refl
length-range_from lo (suc n) = ap suc (length-range_from (suc lo) n)

-- What holds at every number of a range.
pub All-range_from {ℓ} :
    (P : ℕ → Type ℓ) (lo n : ℕ) → ((i : ℕ) → lo ≤ i → i < lo + n → P i) → All P (range_from lo n)
All-range_from P lo zero h = tt
All-range_from P lo (suc n) h = (
  h lo (omega arith) (omega arith),
  All-range_from P (suc lo) n (λ i p q. h i (omega arith) (omega arith)),
)

pub map-get_or {ℓ} :
    {A : Type ℓ} (xs : List A) (d : A) → map (λ i. get_or xs i d) (range_from 0 (length xs)) ≡ xs
map-get_or [] d = refl
map-get_or (x ∷ xs) d =
    ap (◌∷◌ x) (map-range_from (λ i. get_or (x ∷ xs) i d) 0 (length xs) ∙ map-get_or xs d)

pub map-All {ℓ κ} :
    {A : Type ℓ} {B : Type κ} (f g : A → B) (xs : List A)
    → All (λ x. f x ≡ g x) xs
    → map f xs ≡ map g xs
map-All f g [] h = refl
map-All f g (x ∷ xs) h = ap₂ ◌∷◌ h.0 (map-All f g xs h.1)

pub is_empty-map {ℓ κ} :
    {A : Type ℓ} {B : Type κ} (f : A → B) (xs : List A) → is_empty (map f xs) ≡ is_empty xs
is_empty-map f [] = refl
is_empty-map f (x ∷ xs) = refl

pub get_or-map {ℓ κ} :
    {A : Type ℓ} {B : Type κ} (f : A → B) (xs : List A) (i : ℕ) (d : A) (e : B)
    → i < length xs
    → get_or (map f xs) i e ≡ f (get_or xs i d)
get_or-map f [] i d e h = absurd (omega arith)
get_or-map f (x ∷ xs) zero d e h = refl
get_or-map f (x ∷ xs) (suc i) d e h = get_or-map f xs i d e (omega arith)

pub All-get_or {ℓ κ} :
    {A : Type ℓ} (P : A → Type κ) (xs : List A) (i : ℕ) (d : A)
    → i < length xs
    → All P xs
    → P (get_or xs i d)
All-get_or P [] i d h a = absurd (omega arith)
All-get_or P (x ∷ xs) zero d h a = a.0
All-get_or P (x ∷ xs) (suc i) d h a = All-get_or P xs i d (omega arith) a.1

pub All-always {ℓ κ} : {A : Type ℓ} (P : A → Type κ) (xs : List A) → ((x : A) → P x) → All P xs
All-always P [] h = tt
All-always P (x ∷ xs) h = (h x, All-always P xs h)

pub All-of_map {ℓ κ μ} :
    {A : Type ℓ} {B : Type κ} (P : B → Type μ) (f : A → B) (xs : List A)
    → All (λ x. P (f x)) xs
    → All P (map f xs)
All-of_map P f [] h = tt
All-of_map P f (x ∷ xs) h = (h.0, All-of_map P f xs h.1)

pub All-both {ℓ κ μ} :
    {A : Type ℓ} (P : A → Type κ) (Q : A → Type μ) (xs : List A)
    → All P xs
    → All Q xs
    → All (λ x. P x × Q x) xs
All-both P Q [] h k = tt
All-both P Q (x ∷ xs) h k = ((h.0, k.0), All-both P Q xs h.1 k.1)
