-- ===== src/Polynomial/Product.antt =====
-- `Mul` of polynomials: the coefficients that it computes, and their value.
use pysui_crypto.Common.{
  ℕ, zero, suc, ◌+◌, ◌-◌, ◌≤◌, ◌<◌, ◌≡◌, refl, sym, ap, ap₂, fun_ext, ◌∙◌, true, false, ◌&&◌, inl,
  inr, ◌⊎◌, List, [], ◌∷◌, map, filter, length, length-map, length-range_from, get_or,
  get_or_beyond, range_from, map-range_from, leb, Outcome, ok, map_ok, ◌>>=◌, traverse, traverse-ok,
  traverse-filter-ok, index, index-get_or, arith,
}
use pysui_crypto.Gf256.{Gf256, zero as 𝟘, ◌⊕◌, ◌⊗◌, sum}
use pysui_crypto.Gf256.Field.{⊕_assoc, zero-⊕, ⊕-zero, ⊗_assoc, ⊗-zero, zero-⊗, ⊗-⊕, ⊕-⊗}
use pysui_crypto.Gf256.Sums.{
  sum-nil, sum-cons, sum-filter, sum-map-zero, ⊕_interchange, ⊗_left_comm,
}
use pysui_crypto.Polynomial.{poly, mul, degree, product_coefficient}
use pysui_crypto.Polynomial.Value.{value}

-- Coefficient i of the product, with 0 for the coefficients past the end.
unfoldable pub convolution : List Gf256 → List Gf256 → ℕ → Gf256
convolution as' bs i = sum (map (λ j. get_or as' j 𝟘 ⊗ get_or bs (i - j) 𝟘) (range_from 0 (suc i)))

-- The product as the list of its coefficients.
unfoldable pub times : List Gf256 → List Gf256 → List Gf256
times as' bs = map (convolution as' bs) (range_from 0 (length as' + length bs - 1))

pub length-times : (as' bs : List Gf256) → length (times as' bs) ≡ length as' + length bs - 1
unfolding times
length-times as' bs = length-map _ _ ∙ length-range_from 0 _

-- A test of `j` that passes keeps both indices in bounds, and one that fails drops a zero term.
product_coefficient-ok :
    (as' bs : List Gf256) (da db i : ℕ)
    → length as' ≡ suc da
    → length bs ≡ suc db
    → product_coefficient as' bs da db i ≡ ok (convolution as' bs i)
product_coefficient-ok as' bs da db i ea eb =
    opened
    ∙ ap (map_ok sum) (traverse-filter-ok _ _ term (range_from 0 (suc i)) in_bounds)
    ∙ ap ok (sum-filter _ term (range_from 0 (suc i)) dropped ∙ closed)
  where
    term : ℕ → Gf256
    term j = get_or as' j 𝟘 ⊗ get_or bs (i - j) 𝟘

    read : ℕ → Outcome Gf256
    read j = do a ← index as' j; b ← index bs (i - j); ok (a ⊗ b)

    opened :
        product_coefficient as' bs da db i
        ≡ map_ok sum
            (traverse read (filter (λ j. leb j da && leb (i - j) db) (range_from 0 (suc i))))
    opened = unfold product_coefficient in refl

    closed : sum (map term (range_from 0 (suc i))) ≡ convolution as' bs i
    closed = unfold convolution in refl

    in_range : (j : ℕ) → (leb j da && leb (i - j) db) ≡ true → (j ≤ da) × (i - j ≤ db)
    in_range j h = ground arith

    in_bounds : (j : ℕ) → (leb j da && leb (i - j) db) ≡ true → read j ≡ ok (term j)
    in_bounds j h = rw (
      index-get_or as' j 𝟘 (omega (arith, in_range j h)),
      index-get_or bs (i - j) 𝟘 (omega (arith, in_range j h)),
    )

    outside : (j : ℕ) → (leb j da && leb (i - j) db) ≡ false → (da < j) ⊎ (db < i - j)
    outside j h = ground arith

    dropped : (j : ℕ) → (leb j da && leb (i - j) db) ≡ false → term j ≡ 𝟘
    dropped j h = elim (outside j h) [
      | inl past ↦
          ap (λ t. t ⊗ get_or bs (i - j) 𝟘) (get_or_beyond as' j 𝟘 (omega arith)) ∙ zero-⊗ _
      | inr past ↦ ap (◌⊗◌ (get_or as' j 𝟘)) (get_or_beyond bs (i - j) 𝟘 (omega arith)) ∙ ⊗-zero _
    ]

-- On nonempty factors `Mul` returns: no index is out of bounds and no length falls below zero.
pub mul-times :
    (a b : Gf256) (as' bs : List Gf256)
    → mul (poly (a ∷ as')) (poly (b ∷ bs)) ≡ ok (poly (times (a ∷ as') (b ∷ bs)))
mul-times a b as' bs =
    opened
    ∙ ap (map_ok poly) (
        traverse-ok _ (convolution (a ∷ as') (b ∷ bs)) _
          (λ i. product_coefficient-ok (a ∷ as') (b ∷ bs) (length as') (length bs) i refl refl))
    ∙ closed
  where
    opened :
        mul (poly (a ∷ as')) (poly (b ∷ bs))
        ≡ map_ok poly (
            traverse
              (product_coefficient (a ∷ as') (b ∷ bs) (length as') (length bs))
              (range_from 0 (suc (length as' + length bs))))
    opened = unfold mul degree in refl

    closed :
        ok (
          poly (map (convolution (a ∷ as') (b ∷ bs)) (range_from 0 (suc (length as' + length bs)))))
        ≡ ok (poly (times (a ∷ as') (b ∷ bs)))
    closed =
        unfold times in
        ap (λ n. ok (poly (map (convolution (a ∷ as') (b ∷ bs)) (range_from 0 n))))
          {x = suc (length as' + length bs)} (omega arith)

value-map-⊕ :
    {A : Type 0} (f g : A → Gf256) (xs : List A) (x : Gf256)
    → value (map (λ i. f i ⊕ g i) xs) x ≡ value (map f xs) x ⊕ value (map g xs) x
unfolding value
value-map-⊕ f g [] x = sym (⊕-zero 𝟘)
value-map-⊕ f g (i ∷ is) x =
    ap (λ t. (f i ⊕ g i) ⊕ (x ⊗ t)) (value-map-⊕ f g is x)
    ∙ ap (◌⊕◌ (f i ⊕ g i)) (⊗-⊕ x _ _)
    ∙ ⊕_interchange (f i) (g i) _ _

value-⊗-map :
    {A : Type 0} (a : Gf256) (f : A → Gf256) (xs : List A) (x : Gf256)
    → value (map (λ i. a ⊗ f i) xs) x ≡ a ⊗ value (map f xs) x
unfolding value
value-⊗-map a f [] x = sym (⊗-zero a)
value-⊗-map a f (i ∷ is) x =
    ap (λ t. (a ⊗ f i) ⊕ (x ⊗ t)) (value-⊗-map a f is x)
    ∙ ap (◌⊕◌ (a ⊗ f i)) (⊗_left_comm x a _)
    ∙ sym (⊗-⊕ a _ _)

value-map-zero :
    {A : Type 0} (f : A → Gf256) (xs : List A) (x : Gf256)
    → ((i : A) → f i ≡ 𝟘)
    → value (map f xs) x ≡ 𝟘
unfolding value
value-map-zero f [] x h = refl
value-map-zero f (i ∷ is) x h =
    ap₂ (λ s t. s ⊕ (x ⊗ t)) (h i) (value-map-zero f is x h) ∙ zero-⊕ _ ∙ ⊗-zero x

-- A list read at the numbers below a bound past its end has its value.
value-get_or :
    (bs : List Gf256) (n : ℕ) (x : Gf256)
    → length bs ≤ n
    → value (map (λ i. get_or bs i 𝟘) (range_from 0 n)) x ≡ value bs x
unfolding value
value-get_or [] n x h = value-map-zero _ (range_from 0 n) x (λ i. refl)
value-get_or (b ∷ bs) zero x h = absurd (omega arith)
value-get_or (b ∷ bs) (suc n) x h =
    ap (λ t. b ⊕ (x ⊗ value t x)) (map-range_from (λ i. get_or (b ∷ bs) i 𝟘) 0 n)
    ∙ ap (λ t. b ⊕ (x ⊗ t)) (value-get_or bs n x (omega arith))

convolution-nil : (bs : List Gf256) (i : ℕ) → convolution [] bs i ≡ 𝟘
unfolding convolution
convolution-nil bs i = sum-map-zero _ (range_from 0 (suc i)) (λ j. zero-⊗ (get_or bs (i - j) 𝟘))

convolution-zero :
    (a : Gf256) (as' bs : List Gf256) → convolution (a ∷ as') bs 0 ≡ a ⊗ get_or bs 0 𝟘
unfolding convolution
convolution-zero a as' bs = sum-cons _ [] ∙ ap (◌⊕◌ (a ⊗ get_or bs 0 𝟘)) sum-nil ∙ ⊕-zero _

convolution-suc :
    (a : Gf256) (as' bs : List Gf256) (i : ℕ)
    → convolution (a ∷ as') bs (suc i) ≡ (a ⊗ get_or bs (suc i) 𝟘) ⊕ convolution as' bs i
unfolding convolution
convolution-suc a as' bs i =
    sum-cons (term 0) (map term (range_from 1 (suc i)))
    ∙ ap₂ ◌⊕◌ first (
        ap sum (
          map-range_from term 0 (suc i)
          ∙ ap (λ (f : ℕ → Gf256). map f (range_from 0 (suc i))) later))
  where
    term : ℕ → Gf256
    term j = get_or (a ∷ as') j 𝟘 ⊗ get_or bs (suc i - j) 𝟘

    first : term 0 ≡ a ⊗ get_or bs (suc i) 𝟘
    first = ap (λ k. a ⊗ get_or bs k 𝟘) {x = suc i - 0} (omega arith)

    later : ◌≡◌ {A = ℕ → Gf256} (λ j. term (suc j)) (λ j. get_or as' j 𝟘 ⊗ get_or bs (i - j) 𝟘)
    later = fun_ext λ j. ap (λ k. get_or as' j 𝟘 ⊗ get_or bs k 𝟘) {x = suc i - suc j} (omega arith)

-- a b₀ + x (a t + p b) is (a + x p) b, where b is b₀ + x t.
gather :
    (a b0 x t p b : Gf256)
    → b0 ⊕ (x ⊗ t) ≡ b
    → (a ⊗ b0) ⊕ (x ⊗ ((a ⊗ t) ⊕ (p ⊗ b))) ≡ (a ⊕ (x ⊗ p)) ⊗ b
gather a b0 x t p b e =
    ap (◌⊕◌ (a ⊗ b0)) (⊗-⊕ x (a ⊗ t) (p ⊗ b))
    ∙ sym (⊕_assoc (a ⊗ b0) (x ⊗ (a ⊗ t)) (x ⊗ (p ⊗ b)))
    ∙ ap₂ ◌⊕◌ (ap (◌⊕◌ (a ⊗ b0)) (⊗_left_comm x a t) ∙ sym (⊗-⊕ a b0 (x ⊗ t)) ∙ ap (◌⊗◌ a) e)
        (sym (⊗_assoc x p b))
    ∙ sym (⊕-⊗ a (x ⊗ p) b)

-- Enough coefficients of the convolution have the product of the two values.
value-convolution :
    (as' bs : List Gf256) (n : ℕ) (x : Gf256)
    → 0 < length bs
    → length as' + length bs ≤ suc n
    → value (map (convolution as' bs) (range_from 0 n)) x ≡ value as' x ⊗ value bs x
unfolding value
value-convolution [] bs n x nonempty fits =
    value-map-zero _ (range_from 0 n) x (convolution-nil bs) ∙ sym (zero-⊗ (value bs x))
value-convolution (a ∷ as') bs zero x nonempty fits = absurd (omega arith)
value-convolution (a ∷ as') bs (suc n) x nonempty fits =
    ap₂ (λ c cs. c ⊕ (x ⊗ value cs x)) (convolution-zero a as' bs)
      (map-range_from (convolution (a ∷ as') bs) 0 n
        ∙ ap (λ (f : ℕ → Gf256). map f (range_from 0 n)) (fun_ext (convolution-suc a as' bs)))
    ∙ ap (λ t. (a ⊗ get_or bs 0 𝟘) ⊕ (x ⊗ t))
        (value-map-⊕ (λ i. a ⊗ get_or bs (suc i) 𝟘) (convolution as' bs) (range_from 0 n) x
          ∙ ap₂ ◌⊕◌ (value-⊗-map a (λ i. get_or bs (suc i) 𝟘) (range_from 0 n) x)
              (value-convolution as' bs n x nonempty (omega arith)))
    ∙ gather a (get_or bs 0 𝟘) x _ (value as' x) (value bs x) reads_bs
  where
    -- The coefficients of `bs` are read one by one.
    reads_bs :
        get_or bs 0 𝟘 ⊕ (x ⊗ value (map (λ i. get_or bs (suc i) 𝟘) (range_from 0 n)) x) ≡ value bs x
    reads_bs =
        ap (λ t. get_or bs 0 𝟘 ⊕ (x ⊗ value t x)) (sym (map-range_from (λ i. get_or bs i 𝟘) 0 n))
        ∙ value-get_or bs (suc n) x (omega arith)

-- The value of the product is the product of the values.
pub value-times :
    (a b : Gf256) (as' bs : List Gf256) (x : Gf256)
    → value (times (a ∷ as') (b ∷ bs)) x ≡ value (a ∷ as') x ⊗ value (b ∷ bs) x
unfolding times
value-times a b as' bs x = value-convolution (a ∷ as') (b ∷ bs) _ x (omega arith) (omega arith)
