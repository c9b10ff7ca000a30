-- ===== src/Gf256/Sums.antt =====
-- `Sum` and `Product` over field elements, one element at a time, and rearrangement of terms.
use pysui_crypto.Common.{
  ◌≡◌, refl, sym, ap, ap₂, ◌∙◌, Bool, false, List, [], ◌∷◌, map, foldl, filter, Bool-cases, inl,
  inr,
}
use pysui_crypto.Gf256.{Gf256, zero as 𝟘, one as 𝟙, ◌⊕◌, ◌⊗◌, sum, product}
use pysui_crypto.Gf256.Field.{
  ⊕_comm, ⊕_assoc, zero-⊕, ⊕-zero, ⊕_self, ⊗_comm, ⊗_assoc, one-⊗, ⊗-one, ⊗-zero, ⊗-⊕,
}

pub ⊕_interchange : (a b c d : Gf256) → (a ⊕ b) ⊕ (c ⊕ d) ≡ (a ⊕ c) ⊕ (b ⊕ d)
⊕_interchange a b c d =
    ⊕_assoc a b (c ⊕ d)
    ∙ ap (◌⊕◌ a) (sym (⊕_assoc b c d) ∙ ap (λ t. t ⊕ d) (⊕_comm b c) ∙ ⊕_assoc c b d)
    ∙ sym (⊕_assoc a c (b ⊕ d))

pub ⊗_interchange : (a b c d : Gf256) → (a ⊗ b) ⊗ (c ⊗ d) ≡ (a ⊗ c) ⊗ (b ⊗ d)
⊗_interchange a b c d =
    ⊗_assoc a b (c ⊗ d)
    ∙ ap (◌⊗◌ a) (sym (⊗_assoc b c d) ∙ ap (λ t. t ⊗ d) (⊗_comm b c) ∙ ⊗_assoc c b d)
    ∙ sym (⊗_assoc a c (b ⊗ d))

pub ⊗_left_comm : (a b c : Gf256) → a ⊗ (b ⊗ c) ≡ b ⊗ (a ⊗ c)
⊗_left_comm a b c = sym (⊗_assoc a b c) ∙ ap (λ t. t ⊗ c) (⊗_comm a b) ∙ ⊗_assoc b a c

-- Adding an element twice does nothing.
pub ⊕_cancel : (a b : Gf256) → (a ⊕ b) ⊕ b ≡ a
⊕_cancel a b = ⊕_assoc a b b ∙ ap (◌⊕◌ a) (⊕_self b) ∙ ⊕-zero a

-- A difference is zero only between equal elements.
pub eq_of_⊕ : (a b : Gf256) → a ⊕ b ≡ 𝟘 → a ≡ b
eq_of_⊕ a b e = sym (⊕_cancel a b) ∙ ap (λ t. t ⊕ b) e ∙ zero-⊕ b

sum_from : (a : Gf256) (xs : List Gf256) → foldl (λ acc x. acc ⊕ x) a xs ≡ a ⊕ sum xs
unfolding sum
sum_from a [] = sym (⊕-zero a)
sum_from a (x ∷ xs) =
    sum_from (a ⊕ x) xs
    ∙ ⊕_assoc a x _
    ∙ ap (◌⊕◌ a) (sym (sum_from (𝟘 ⊕ x) xs ∙ ap (λ t. t ⊕ _) (zero-⊕ x)))

pub sum-nil : sum [] ≡ 𝟘
unfolding sum
sum-nil = refl

pub sum-cons : (x : Gf256) (xs : List Gf256) → sum (x ∷ xs) ≡ x ⊕ sum xs
sum-cons x xs = opened ∙ sum_from (𝟘 ⊕ x) xs ∙ ap (λ t. t ⊕ sum xs) (zero-⊕ x)
  where
    opened : sum (x ∷ xs) ≡ foldl (λ acc x. acc ⊕ x) (𝟘 ⊕ x) xs
    opened = unfold sum in refl

product_from : (a : Gf256) (xs : List Gf256) → foldl (λ acc x. acc ⊗ x) a xs ≡ a ⊗ product xs
unfolding product
product_from a [] = sym (⊗-one a)
product_from a (x ∷ xs) =
    product_from (a ⊗ x) xs
    ∙ ⊗_assoc a x _
    ∙ ap (◌⊗◌ a) (sym (product_from (𝟙 ⊗ x) xs ∙ ap (λ t. t ⊗ _) (one-⊗ x)))

pub product-nil : product [] ≡ 𝟙
unfolding product
product-nil = refl

pub product-cons : (x : Gf256) (xs : List Gf256) → product (x ∷ xs) ≡ x ⊗ product xs
product-cons x xs = opened ∙ product_from (𝟙 ⊗ x) xs ∙ ap (λ t. t ⊗ product xs) (one-⊗ x)
  where
    opened : product (x ∷ xs) ≡ foldl (λ acc x. acc ⊗ x) (𝟙 ⊗ x) xs
    opened = unfold product in refl

module _ {ℓ} {A : Type ℓ} where
  pub sum-map-⊕ :
      (f g : A → Gf256) (xs : List A)
      → sum (map (λ x. f x ⊕ g x) xs) ≡ sum (map f xs) ⊕ sum (map g xs)
  sum-map-⊕ f g [] = rw sum-nil (sym (⊕-zero 𝟘))
  sum-map-⊕ f g (x ∷ xs) = simp (sum-cons, sum-map-⊕ f g xs) (⊕_interchange _ _ _ _)

  pub ⊗-sum-map :
      (a : Gf256) (f : A → Gf256) (xs : List A) → a ⊗ sum (map f xs) ≡ sum (map (λ x. a ⊗ f x) xs)
  ⊗-sum-map a f [] = rw sum-nil (⊗-zero a)
  ⊗-sum-map a f (x ∷ xs) = simp (sum-cons, ⊗-⊕, ⊗-sum-map a f xs)

  pub sum-map-zero : (f : A → Gf256) (xs : List A) → ((x : A) → f x ≡ 𝟘) → sum (map f xs) ≡ 𝟘
  sum-map-zero f [] h = sum-nil
  sum-map-zero f (x ∷ xs) h = sum-cons _ _ ∙ ap₂ ◌⊕◌ (h x) (sum-map-zero f xs h) ∙ ⊕-zero 𝟘

  pub product-map-⊗ :
      (f g : A → Gf256) (xs : List A)
      → product (map (λ x. f x ⊗ g x) xs) ≡ product (map f xs) ⊗ product (map g xs)
  product-map-⊗ f g [] = rw product-nil (sym (⊗-one 𝟙))
  product-map-⊗ f g (x ∷ xs) = simp (product-cons, product-map-⊗ f g xs) (⊗_interchange _ _ _ _)

  -- Terms that vanish may be filtered out of a sum.
  pub sum-filter :
      (t : A → Bool) (f : A → Gf256) (xs : List A)
      → ((x : A) → t x ≡ false → f x ≡ 𝟘)
      → sum (map f (filter t xs)) ≡ sum (map f xs)
  sum-filter t f [] h = refl
  sum-filter t f (x ∷ xs) h = elim (Bool-cases (t x)) [
    | inl e ↦
        rw e (sum-cons (f x) _ ∙ ap (◌⊕◌ (f x)) (sum-filter t f xs h) ∙ sym (sum-cons (f x) _))
    | inr e ↦ rw e (
        sum-filter t f xs h
        ∙ sym (sum-cons (f x) _ ∙ ap (λ y. y ⊕ sum (map f xs)) (h x e) ∙ zero-⊕ _))
  ]
