-- ===== src/Tss/Bytes.antt =====
-- Bytes as field elements: the guards of the sharing functions in terms of distinct points.
use pysui_crypto.Common.{
  ◌≡◌, refl, sym, ap, ◌∙◌, Bool, true, false, not, ◌&&◌, ◌||◌, inl, inr, List, [], ◌∷◌, ◌++◌, map,
  filter, All, Bool-cases, arith,
}
use pysui_crypto.Byte.{U8, eq}
use pysui_crypto.Byte.Numbers.{eq_iff, eq_self}
use pysui_crypto.Gf256.{Gf256, from_u8, is_zero, ◌⊕◌, ◌⊗◌, product}
use pysui_crypto.Gf256.Field.{⊕_self, is_zero_zero, ⊗-ne-zero, one_nonzero}
use pysui_crypto.Gf256.Sums.{product-nil, product-cons, eq_of_⊕, ⊗_left_comm}
use pysui_crypto.Gf256.Field.{is_zero_iff_eq}
use pysui_crypto.Polynomial.Lagrange.{Point, AreDistinct, IsApart}
use pysui_crypto.Tss.{contains, all_unique}

-- A share of one byte as a point.
abbrev pub point : U8 × U8 → Point
point s = (from_u8 s.0, from_u8 s.1)

eq_of_zero_difference : (a b : U8) → is_zero (from_u8 a ⊕ from_u8 b) ≡ true → a ≡ b
eq_of_zero_difference a b h =
    ap (λ (e : Gf256). e.byte) (eq_of_⊕ (from_u8 a) (from_u8 b) (is_zero_iff_eq _ h))

-- Different bytes are apart as field elements, and the other way round.
pub apart_of_eq : (a b : U8) → eq a b ≡ false → is_zero (from_u8 a ⊕ from_u8 b) ≡ false
apart_of_eq a b h = elim (Bool-cases (is_zero (from_u8 a ⊕ from_u8 b))) [
  | inl e ↦ absurd (clash ((eq_iff a b).1 (eq_of_zero_difference a b e)))
  | inr e ↦ e
]
  where
    clash : eq a b ≡ true → ⊥
    clash t = cc

pub eq_of_apart : (a b : U8) → is_zero (from_u8 a ⊕ from_u8 b) ≡ false → eq b a ≡ false
eq_of_apart a b h = elim (Bool-cases (eq b a)) [
  | inl e ↦ absurd (
      clash (
        ap is_zero (ap (λ t. from_u8 a ⊕ from_u8 t) ((eq_iff b a).0 e) ∙ ⊕_self (from_u8 a))
        ∙ is_zero_zero))
  | inr e ↦ e
]
  where
    clash : is_zero (from_u8 a ⊕ from_u8 b) ≡ true → ⊥
    clash t = cc

or_false : (p q : Bool) → (p || q) ≡ false → (p ≡ false) × (q ≡ false)
or_false p q h = ground arith

and_true : (p q : Bool) → (not p && q) ≡ true → (p ≡ false) × (q ≡ true)
and_true p q h = ground arith

pub contains-false : (a : U8) (bs : List U8) → contains a bs ≡ false → All (λ b. eq a b ≡ false) bs
unfolding contains
contains-false a [] h = tt
contains-false a (b ∷ bs) h =
    ((or_false (eq a b) _ h).0, contains-false a bs (or_false (eq a b) _ h).1)

module _ {A : Type 0} (index_of : A → U8) (value_of : A → U8) where
  abbrev pub as_point : A → Point
  as_point s = (from_u8 (index_of s), from_u8 (value_of s))

  All-apart :
      (a : U8) (ss : List A)
      → All (λ b. eq a b ≡ false) (map index_of ss)
      → All (λ y. is_zero (from_u8 a ⊕ y) ≡ false) (map (λ (p : Point). p.0) (map as_point ss))
  All-apart a [] h = tt
  All-apart a (s ∷ ss) h = (apart_of_eq a (index_of s) h.0, All-apart a ss h.1)

  -- Unique indices make distinct points.
  pub all_unique-AreDistinct :
      (ss : List A) → all_unique (map index_of ss) ≡ true → AreDistinct (map as_point ss)
  unfolding all_unique
  all_unique-AreDistinct [] h = tt
  all_unique-AreDistinct (s ∷ ss) h =
      let (fresh, rest) = and_true (contains (index_of s) (map index_of ss)) _ h in
      (
        All-apart (index_of s) ss (contains-false (index_of s) (map index_of ss) fresh),
        all_unique-AreDistinct ss rest,
      )

-- Filtering the indices by value leaves out the one share that has the index.
filter_apart :
    (a : U8) (ss : List (U8 × U8))
    → IsApart (from_u8 a) (map point ss)
    → filter (λ j. not (eq j a)) (map (λ t. t.0) ss) ≡ map (λ t. t.0) ss
filter_apart a [] h = refl
filter_apart a (s ∷ ss) h = rw (eq_of_apart a s.0 h.0) (ap (◌∷◌ s.0) (filter_apart a ss h.1))

pub filter_others :
    (pre : List (U8 × U8)) (s : U8 × U8) (post : List (U8 × U8))
    → IsApart (from_u8 s.0) (map point (pre ++ post))
    → filter (λ j. not (eq j s.0)) (map (λ t. t.0) (pre ++ s ∷ post)) ≡ map (λ t. t.0) (pre ++ post)
filter_others [] s post h = rw (eq_self s.0) (filter_apart s.0 post h)
filter_others (q ∷ pre) s post h =
    rw (eq_of_apart s.0 q.0 h.0) (ap (◌∷◌ q.0) (filter_others pre s post h.1))

pub product-ne-zero :
    {A : Type 0} (f : A → Gf256) (xs : List A)
    → All (λ x. is_zero (f x) ≡ false) xs
    → is_zero (product (map f xs)) ≡ false
product-ne-zero f [] h = ap is_zero product-nil ∙ one_nonzero
product-ne-zero f (x ∷ xs) h =
    ap is_zero (product-cons _ _) ∙ ⊗-ne-zero (f x) _ h.0 (product-ne-zero f xs h.1)

-- One factor comes out of a product.
pub product_middle :
    {A : Type 0} (f : A → Gf256) (pre : List A) (x : A) (post : List A)
    → product (map f (pre ++ x ∷ post)) ≡ f x ⊗ product (map f (pre ++ post))
product_middle f [] x post = product-cons _ _
product_middle f (q ∷ pre) x post =
    product-cons _ _
    ∙ ap (◌⊗◌ (f q)) (product_middle f pre x post)
    ∙ ⊗_left_comm (f q) (f x) _
    ∙ ap (◌⊗◌ (f x)) (sym (product-cons _ _))
