-- ===== src/Common/Results.antt =====
-- What a call of the crate comes to: `FastCryptoResult` (`Ok` and `Err`), and a panic beside it.
-- A panic is what an index out of bounds, an `unwrap` or `expect` that fails, a failed assertion
-- or a usize subtraction below zero (with overflow checks on) comes to.
use Prim.Native.String.{String}
use Prim.Native.Nat.{ℕ, zero, suc, ◌+◌, ◌<◌}
use mathlib.Core.Bool.{Bool, true}
use mathlib.Core.Path.{subst, ◌≡◌, refl, ap, ◌∙◌}
use mathlib.Core.Logic.{inl, inr}
use mathlib.Core.List.{List, [], ◌∷◌, map}
use native.Mathlib.Omega.{arith}
use pysui_crypto.Common.Tests.{Bool-cases}
use pysui_crypto.Common.Lists.{length, get_or, filter, All, range_from, enumerate_from}

-- The two errors of fastcrypto that the crate returns itself, and whatever else it passes on.
pub data FastCryptoError : Type 0 where
  invalid_input : FastCryptoError
  general_error : String → FastCryptoError

pub data Outcome {ℓ} (A : Type ℓ) : Type ℓ where
  ok : A → Outcome A
  err : FastCryptoError → Outcome A
  panic : Outcome A

infixl 5 ◌>>=◌
abbrev pub ◌>>=◌ {ℓ κ} : {A : Type ℓ} {B : Type κ} → Outcome A → (A → Outcome B) → Outcome B
ok a >>= f = f a
err e >>= f = err e
panic >>= f = panic

abbrev pub map_ok {ℓ κ} : {A : Type ℓ} {B : Type κ} → (A → B) → Outcome A → Outcome B
map_ok f (ok a) = ok (f a)
map_ok f (err e) = err e
map_ok f panic = panic

pub ok_injective {ℓ} : {A : Type ℓ} {a b : A} → ok a ≡ ok b → a ≡ b
ok_injective e = cc

-- `Result::unwrap` and `expect`.
abbrev pub unwrap {ℓ} : {A : Type ℓ} → Outcome A → Outcome A
unwrap (ok a) = ok a
unwrap (err e) = panic
unwrap panic = panic

-- `iter().map(f).collect::<FastCryptoResult<Vec<_>>>()`: stops at the first element that fails.
unfoldable pub traverse {ℓ κ} :
    {A : Type ℓ} {B : Type κ} → (A → Outcome B) → List A → Outcome (List B)
traverse f [] = ok []
traverse f (x ∷ xs) = f x >>= λ y. map_ok (◌∷◌ y) (traverse f xs)

-- `xs[i]`, which panics out of bounds.
unfoldable pub index {ℓ} : {A : Type ℓ} → List A → ℕ → Outcome A
index [] i = panic
index (x ∷ xs) zero = ok x
index (x ∷ xs) (suc i) = index xs i

-- `iter().fold(init, f)` with a step that can fail.
unfoldable pub fold_ok {ℓ κ} :
    {A : Type ℓ} {B : Type κ} → (B → A → Outcome B) → B → List A → Outcome B
fold_ok f acc [] = ok acc
fold_ok f acc (x ∷ xs) = f acc x >>= λ acc'. fold_ok f acc' xs

-- Where every element succeeds, so does the whole.
pub traverse-ok {ℓ κ} :
    {A : Type ℓ} {B : Type κ} (f : A → Outcome B) (g : A → B) (xs : List A)
    → ((x : A) → f x ≡ ok (g x))
    → traverse f xs ≡ ok (map g xs)
unfolding traverse
traverse-ok f g [] h = refl
traverse-ok f g (x ∷ xs) h = rw (h x, traverse-ok f g xs h)

pub traverse-filter-ok {ℓ κ} :
    {A : Type ℓ} {B : Type κ} (t : A → Bool) (f : A → Outcome B) (g : A → B) (xs : List A)
    → ((x : A) → t x ≡ true → f x ≡ ok (g x))
    → traverse f (filter t xs) ≡ ok (map g (filter t xs))
unfolding traverse
traverse-filter-ok t f g [] h = refl
traverse-filter-ok t f g (x ∷ xs) h = elim (Bool-cases (t x)) [
  | inl e ↦ rw e (rw (h x e, traverse-filter-ok t f g xs h))
  | inr e ↦ rw e (traverse-filter-ok t f g xs h)
]

pub index-get_or {ℓ} :
    {A : Type ℓ} (xs : List A) (i : ℕ) (d : A) → i < length xs → index xs i ≡ ok (get_or xs i d)
unfolding index
index-get_or [] i d h = absurd (omega arith)
index-get_or (x ∷ xs) zero d h = refl
index-get_or (x ∷ xs) (suc i) d h = index-get_or xs i d (omega arith)

pub traverse-map {ℓ κ μ} :
    {A : Type ℓ} {B : Type κ} {C : Type μ} (f : B → Outcome C) (g : A → B) (xs : List A)
    → traverse f (map g xs) ≡ traverse (λ x. f (g x)) xs
unfolding traverse
traverse-map f g [] = refl
traverse-map f g (x ∷ xs) = rw (traverse-map f g xs)

-- The elements that are there all succeed.
pub traverse-All-ok {ℓ κ} :
    {A : Type ℓ} {B : Type κ} (f : A → Outcome B) (g : A → B) (xs : List A)
    → All (λ x. f x ≡ ok (g x)) xs
    → traverse f xs ≡ ok (map g xs)
unfolding traverse
traverse-All-ok f g [] h = refl
traverse-All-ok f g (x ∷ xs) h = rw (h.0, traverse-All-ok f g xs h.1)

pub index-map {ℓ κ} :
    {A : Type ℓ} {B : Type κ} (f : A → B) (xs : List A) (i : ℕ) {x : A}
    → index xs i ≡ ok x
    → index (map f xs) i ≡ ok (f x)
unfolding index
index-map f [] i h = cc
index-map f (y ∷ xs) zero h = ap (map_ok f) h
index-map f (y ∷ xs) (suc i) h = index-map f xs i h

-- A loop over the indices of a list, where the round at an index depends on the element there.
pub traverse-range_from {ℓ κ} :
    {A : Type ℓ} {B : Type κ} (f : ℕ → Outcome B) (g : A → B) (lo : ℕ) (xs : List A)
    → ((i : ℕ) (x : A) → index xs i ≡ ok x → f (lo + i) ≡ ok (g x))
    → traverse f (range_from lo (length xs)) ≡ ok (map g xs)
unfolding traverse
traverse-range_from f g lo [] h = refl
traverse-range_from f g lo (x ∷ xs) h = rw (
  ap f {x = lo} {y = lo + 0} (omega arith) ∙ h 0 x (unfold index in refl),
  traverse-range_from f g (suc lo) xs (λ i y e.
      ap f {x = suc lo + i} {y = lo + suc i} (omega arith) ∙ h (suc i) y (unfold index in e)),
)

pub All-index {ℓ κ} :
    {A : Type ℓ} (P : A → Type κ) (xs : List A) (i : ℕ) (x : A) → All P xs → index xs i ≡ ok x → P x
unfolding index
All-index P [] i x h e = cc
All-index P (y ∷ xs) zero x h e = subst P (ok_injective e) h.0
All-index P (y ∷ xs) (suc i) x h e = All-index P xs i x h.1 e

-- An index of one list is an index of any list as long.
pub index-as_long {ℓ κ} :
    {A : Type ℓ} {B : Type κ} (xs : List A) (ys : List B) (i : ℕ) (x : A)
    → index xs i ≡ ok x
    → length ys ≡ length xs
    → (y : B) × (index ys i ≡ ok y)
unfolding index
index-as_long [] ys i x h e = cc
index-as_long (z ∷ xs) [] i x h e = absurd (omega arith)
index-as_long (z ∷ xs) (y ∷ ys) zero x h e = (y, refl)
index-as_long (z ∷ xs) (y ∷ ys) (suc i) x h e = index-as_long xs ys i x h (omega arith)

-- What holds at the positions of the elements that pass a test.
pub All-positions {ℓ κ} :
    {A : Type ℓ} (P : ℕ → Type κ) (test : A → Bool) (lo : ℕ) (xs : List A)
    → ((i : ℕ) (x : A) → index xs i ≡ ok x → test x ≡ true → P (lo + i))
    → All P (map (λ (e : ℕ × A). e.0) (filter (λ (e : ℕ × A). test e.1) (enumerate_from lo xs)))
unfolding index
All-positions P test lo [] h = tt
All-positions P test lo (x ∷ xs) h =
    let rest =
      All-positions P test (suc lo) xs
        (λ i y e t. subst P {x = lo + suc i} {y = suc lo + i} (omega arith) (h (suc i) y e t)) in
    elim (Bool-cases (test x)) [
      | inl e ↦ rw e (subst P {x = lo + 0} {y = lo} (omega arith) (h 0 x refl e), rest)
      | inr e ↦ rw e rest
    ]

pub traverse_some {ℓ κ} :
    {A : Type ℓ} {B : Type κ} (f : A → Outcome B) (xs : List A)
    → All (λ x. (y : B) × (f x ≡ ok y)) xs
    → (ys : List B) × (traverse f xs ≡ ok ys) × (length ys ≡ length xs)
unfolding traverse
traverse_some f [] h = ([], refl, refl)
traverse_some f (x ∷ xs) h =
    let (ys, e, n) = traverse_some f xs h.1 in (h.0.0 ∷ ys, rw (h.0.1, e) refl, ap suc n)

pub index_within {ℓ} :
    {A : Type ℓ} (xs : List A) (i : ℕ) → i < length xs → (x : A) × (index xs i ≡ ok x)
unfolding index
index_within [] i h = absurd (omega arith)
index_within (x ∷ xs) zero h = (x, refl)
index_within (x ∷ xs) (suc i) h = index_within xs i (omega arith)

-- A position that passes a test is among the positions that do.
pub index-positions {ℓ} :
    {A : Type ℓ} (test : A → Bool) (lo : ℕ) (xs : List A) (i : ℕ) (x : A)
    → index xs i ≡ ok x
    → test x ≡ true
    → (j : ℕ) × (index
          (map (λ (e : ℕ × A). e.0) (filter (λ (e : ℕ × A). test e.1) (enumerate_from lo xs)))
          j
        ≡ ok (lo + i))
unfolding index
index-positions test lo [] i x e t = cc
index-positions test lo (y ∷ xs) zero x e t =
    (0, rw (ap test (ok_injective e) ∙ t) (ap ok {x = lo} {y = lo + 0} (omega arith)))
index-positions test lo (y ∷ xs) (suc i) x e t =
    let (j, h) = index-positions test (suc lo) xs i x e t in
    elim (Bool-cases (test y)) [
      | inl p ↦ (suc j, rw p (h ∙ ap ok {x = suc lo + i} {y = lo + suc i} (omega arith)))
      | inr p ↦ (j, rw p (h ∙ ap ok {x = suc lo + i} {y = lo + suc i} (omega arith)))
    ]
