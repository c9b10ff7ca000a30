-- ===== src/Core/Recipients.antt =====
-- The recipients of the shares of an encryption: one share, one server and one index each.
use pysui_crypto.Common.{
  ℕ, suc, ◌+◌, ◌≤◌, ◌≡◌, refl, ap, ◌∙◌, Bool, true, false, not, ◌&&◌, ◌||◌, List, [], ◌∷◌, map,
  length, filter, All, enumerate_from, Outcome, ok, traverse, index, Bool-cases, arith, inl, inr,
}
use mathlib.Core.List.{Mem, mem-cons_of_mem, mem-cons_self, zip, zip_with}
use pysui_crypto.Byte.{U8, eq}
use pysui_crypto.Tss.{contains, all_unique}
use pysui_crypto.Ibe.{ObjectId, Block}

module _ {S : Type 0} where
  unfoldable pub recipients :
      List Block → List (ObjectId × S) → List U8 → List (Block × S × (ObjectId × U8))
  recipients (b ∷ shares) (s ∷ servers) (i ∷ indices) =
      (b, s.1, (s.0, i)) ∷ recipients shares servers indices
  recipients [] servers indices = []
  recipients (b ∷ shares) [] indices = []
  recipients (b ∷ shares) (s ∷ servers) [] = []

  -- What the recipients are made of, where there are as many of each.
  pub record AreRecipients (shares : List Block) (servers : List (ObjectId × S)) (indices : List U8)
      (ts : List (Block × S × (ObjectId × U8))) : Type 0 where
    pub same_shares : map (λ t. t.0) ts ≡ shares
    pub same_infos : map (λ t. t.2) ts ≡ zip (map (λ s. s.0) servers) indices
    pub same_ids : map (λ t. t.2.0) ts ≡ map (λ s. s.0) servers
    pub same_indices : map (λ t. t.2.1) ts ≡ indices
    pub same_pairs : map (λ t. (t.2.1, t.0)) ts ≡ zip indices shares

  pub recipients-AreRecipients :
      (shares : List Block) (servers : List (ObjectId × S)) (indices : List U8)
      → length shares ≡ length servers
      → length indices ≡ length servers
      → AreRecipients shares servers indices (recipients shares servers indices)
  unfolding recipients zip zip_with
  recipients-AreRecipients [] [] [] p q = record {
    same_shares = refl;
    same_infos = refl;
    same_ids = refl;
    same_indices = refl;
    same_pairs = refl;
  }
  recipients-AreRecipients [] [] (i ∷ indices) p q = absurd (omega arith)
  recipients-AreRecipients [] (s ∷ servers) indices p q = absurd (omega arith)
  recipients-AreRecipients (b ∷ shares) [] indices p q = absurd (omega arith)
  recipients-AreRecipients (b ∷ shares) (s ∷ servers) [] p q = absurd (omega arith)
  recipients-AreRecipients (b ∷ shares) (s ∷ servers) (i ∷ indices) p q =
      let rest = recipients-AreRecipients shares servers indices (omega arith) (omega arith) in
      record {
        same_shares = ap (◌∷◌ b) rest.same_shares;
        same_infos = ap (◌∷◌ (s.0, i)) rest.same_infos;
        same_ids = ap (◌∷◌ s.0) rest.same_ids;
        same_indices = ap (◌∷◌ i) rest.same_indices;
        same_pairs = ap (◌∷◌ (i, b)) rest.same_pairs;
      }

  -- A function of the servers, on the recipients.
  pub map-recipients :
      {B : Type 0} (f : ObjectId × S → B) (shares : List Block) (servers : List (ObjectId × S))
      (indices : List U8)
      → length shares ≡ length servers
      → length indices ≡ length servers
      → map (λ t. f (t.2.0, t.1)) (recipients shares servers indices) ≡ map f servers
  unfolding recipients
  map-recipients f [] [] indices p q = refl
  map-recipients f [] (s ∷ servers) indices p q = absurd (omega arith)
  map-recipients f (b ∷ shares) [] indices p q = absurd (omega arith)
  map-recipients f (b ∷ shares) (s ∷ servers) [] p q = absurd (omega arith)
  map-recipients f (b ∷ shares) (s ∷ servers) (i ∷ indices) p q =
      ap (◌∷◌ (f s)) (map-recipients f shares servers indices (omega arith) (omega arith))

  pub All-recipients :
      (P : ObjectId × S → Type 0) (shares : List Block) (servers : List (ObjectId × S))
      (indices : List U8)
      → All P servers
      → All (λ t. P (t.2.0, t.1)) (recipients shares servers indices)
  unfolding recipients
  All-recipients P [] servers indices h = tt
  All-recipients P (b ∷ shares) [] indices h = tt
  All-recipients P (b ∷ shares) (s ∷ servers) [] h = tt
  All-recipients P (b ∷ shares) (s ∷ servers) (i ∷ indices) h =
      (h.0, All-recipients P shares servers indices h.1)

-- Filters.
module _ {A : Type 0} (keep : A → Bool) where
  pub length-filter-map :
      {B : Type 0} (t : B → Bool) (f : A → B) (xs : List A)
      → ((x : A) → t (f x) ≡ keep x)
      → length (filter keep xs) ≡ length (filter t (map f xs))
  length-filter-map t f [] h = refl
  length-filter-map t f (x ∷ xs) h = elim (Bool-cases (keep x)) [
    | inl e ↦ rw (h x, e) (ap suc (length-filter-map t f xs h))
    | inr e ↦ rw (h x, e) (length-filter-map t f xs h)
  ]

  pub All-Mem-filter :
      {B : Type 0} (f : A → B) (xs : List A) → All (λ b. Mem b (map f xs)) (map f (filter keep xs))
  All-Mem-filter f [] = tt
  All-Mem-filter f (x ∷ xs) = elim (Bool-cases (keep x)) [
    | inl e ↦ rw e (mem-cons_self, weaken (filter keep xs) (All-Mem-filter f xs))
    | inr e ↦ rw e (weaken (filter keep xs) (All-Mem-filter f xs))
  ]
    where
      weaken :
          (ys : List A)
          → All (λ b. Mem b (map f xs)) (map f ys)
          → All (λ b. Mem b (map f (x ∷ xs))) (map f ys)
      weaken [] h = tt
      weaken (y ∷ ys) h = (mem-cons_of_mem (f x) h.0, weaken ys h.1)

  contains-filter :
      (f : A → U8) (a : U8) (xs : List A)
      → contains a (map f xs) ≡ false
      → contains a (map f (filter keep xs)) ≡ false
  unfolding contains
  contains-filter f a [] h = refl
  contains-filter f a (x ∷ xs) h = elim (Bool-cases (keep x)) [
    | inl e ↦ rw (e, (neither (eq a (f x)) _ h).0) (contains-filter f a xs (neither _ _ h).1)
    | inr e ↦ rw e (contains-filter f a xs (neither _ _ h).1)
  ]
    where
      neither : (p q : Bool) → (p || q) ≡ false → (p ≡ false) × (q ≡ false)
      neither p q h = ground arith

  pub all_unique-filter :
      (f : A → U8) (xs : List A)
      → all_unique (map f xs) ≡ true
      → all_unique (map f (filter keep xs)) ≡ true
  unfolding all_unique
  all_unique-filter f [] h = refl
  all_unique-filter f (x ∷ xs) h = elim (Bool-cases (keep x)) [
    | inl e ↦
        rw (e, contains-filter f (f x) xs (split_test (contains (f x) (map f xs)) _ h).0)
          (all_unique-filter f xs (split_test _ _ h).1)
    | inr e ↦ rw e (all_unique-filter f xs (split_test _ _ h).1)
  ]
    where
      split_test : (p q : Bool) → (not p && q) ≡ true → (p ≡ false) × (q ≡ true)
      split_test p q h = ground arith

  -- A loop over the positions of the elements that are kept.
  pub traverse-positions :
      {B C : Type 0} (t : C → Bool) (info : A → C) (round : ℕ → Outcome B) (g : A → B) (lo : ℕ)
      (xs : List A)
      → ((x : A) → t (info x) ≡ keep x)
      → ((i : ℕ) (x : A) → index xs i ≡ ok x → keep x ≡ true → round (lo + i) ≡ ok (g x))
      → traverse round (
          map
            (λ (e : ℕ × C). e.0)
            (filter (λ (e : ℕ × C). t e.1) (enumerate_from lo (map info xs))))
        ≡ ok (map g (filter keep xs))
  unfolding traverse index
  traverse-positions t info round g lo [] same h = refl
  traverse-positions t info round g lo (x ∷ xs) same h =
      let rest =
        traverse-positions t info round g (suc lo) xs same
          (λ i y e k. ap round {x = suc lo + i} {y = lo + suc i} (omega arith) ∙ h (suc i) y e k) in
      elim (Bool-cases (keep x)) [
        | inl e ↦
            rw (same x, e, ap round {x = lo} {y = lo + 0} (omega arith) ∙ h 0 x refl e, rest) refl
        | inr e ↦ rw (same x, e) rest
      ]

  pub length-positions :
      {C : Type 0} (t : C → Bool) (info : A → C) (lo : ℕ) (xs : List A)
      → ((x : A) → t (info x) ≡ keep x)
      → length (
          map
            (λ (e : ℕ × C). e.0)
            (filter (λ (e : ℕ × C). t e.1) (enumerate_from lo (map info xs))))
        ≡ length (filter keep xs)
  length-positions t info lo [] same = refl
  length-positions t info lo (x ∷ xs) same = elim (Bool-cases (keep x)) [
    | inl e ↦ rw (same x, e) (ap suc (length-positions t info (suc lo) xs same))
    | inr e ↦ rw (same x, e) (length-positions t info (suc lo) xs same)
  ]

  pub length-filter_within : (xs : List A) → length (filter keep xs) ≤ length xs
  length-filter_within [] = omega arith
  length-filter_within (x ∷ xs) = elim (Bool-cases (keep x)) [
    | inl e ↦ rw e (omega (arith, length-filter_within xs))
    | inr e ↦ rw e (omega (arith, length-filter_within xs))
  ]
