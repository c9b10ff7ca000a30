-- ===== src/Core/Agreement.antt =====
-- Two successful decryptions of one object against the public keys.
use pysui_crypto.Common.{
  ℕ, suc, ◌≤◌, ◌≡◌, refl, sym, ap, subst, ◌∙◌, ◌⊎◌, inl, inr, List, [], ◌∷◌, map, length, All,
  All-implies, All-of_map, All-index, ok, ok_injective, traverse, index, index-map, arith,
}
use mathlib.Core.List.{zip, zip_with}
use pysui_crypto.Byte.{U8, of_ℕ}
use pysui_crypto.Polynomial.{Polynomial}
use pysui_crypto.Tss.{evaluate_all}
use pysui_crypto.Tss.Total.{interpolate-eq-ok}
use pysui_crypto.Tss.Agree.{AreShort, polynomials-AreShort, length-polynomials, closures_agree}
use pysui_crypto.Dem.{Key}
use pysui_crypto.Groups.{Curve}
use pysui_crypto.Ibe.{ObjectId, Block}
use pysui_crypto.Core.{IbeEncryptions}
use pysui_crypto.Core.Consistency.{decrypt_one, indices_of_traverse, IsChecked}

map-zip :
    {A B C : Type 0} (f : B → C) (xs : List A) (ys : List B)
    → length xs ≡ length ys
    → map (λ (t : A × B). f t.1) (zip xs ys) ≡ map f ys
unfolding zip zip_with
map-zip f [] [] e = refl
map-zip f [] (y ∷ ys) e = absurd (omega arith)
map-zip f (x ∷ xs) [] e = absurd (omega arith)
map-zip f (x ∷ xs) (y ∷ ys) e = ap (◌∷◌ (f y)) (map-zip f xs ys (omega arith))

length-zip :
    {A B : Type 0} (xs : List A) (ys : List B)
    → length xs ≡ length ys
    → length (zip xs ys) ≡ length ys
unfolding zip zip_with
length-zip [] [] e = refl
length-zip [] (y ∷ ys) e = absurd (omega arith)
length-zip (x ∷ xs) [] e = absurd (omega arith)
length-zip (x ∷ xs) (y ∷ ys) e = ap suc (length-zip xs ys (omega arith))

one_way : (m n : ℕ) → (m ≤ n) ⊎ (n ≤ m)
one_way m n = ground arith

AreShort-weaken : (m n : ℕ) (ps : List Polynomial) → m ≤ n → AreShort m ps → AreShort n ps
AreShort-weaken m n ps h = All-implies _ _ ps (λ p s. omega arith)

-- The index of a share is that of a service.
abbrev pub IsServed : List (ObjectId × U8) → U8 × Block → Type 0
IsServed services s = (i : ℕ) × (t : ObjectId × U8) × (index services i ≡ ok t) × (s.0 ≡ t.1)

module _ (c : Curve)
    (unique : (r r' : c.Scalar) → c.g2.mul c.g2.generator r ≡ c.g2.mul c.g2.generator r' → r ≡ r')
    (e : IbeEncryptions c) (id : List U8) (services : List (ObjectId × U8))
    (public_keys : List c.g2.Elt) (served : length e.encrypted_shares ≡ length services) where
  -- A check gives each service a share that the closure meets.
  closure_at_services :
      (shares : List (U8 × Block)) (k : Key)
      (check : IsChecked c e shares id services public_keys k)
      → map (λ (s : U8 × Block). s.0) check.all ≡ map (λ (s : ObjectId × U8). s.1) services
  closure_at_services shares k check =
      indices_of_traverse c check.r id (zip (zip public_keys e.encrypted_shares) services) check.all
        check.decrypted
      ∙ map-zip (λ (s : ObjectId × U8). s.1) (zip public_keys e.encrypted_shares) services
          (length-zip public_keys e.encrypted_shares check.sizes ∙ served)

  same_shares :
      (as' bs : List (U8 × Block)) (k l : Key) (a : IsChecked c e as' id services public_keys k)
      (b : IsChecked c e bs id services public_keys l)
      → a.all ≡ b.all
  same_shares as' bs k l a b = ok_injective (
      sym a.decrypted
      ∙ ap (λ r. traverse (decrypt_one c r id) (zip (zip public_keys e.encrypted_shares) services))
          (unique a.r b.r (a.nonce ∙ sym b.nonce))
      ∙ b.decrypted)

  module _ (as' bs : List (U8 × Block)) (k l : Key)
      (a : IsChecked c e as' id services public_keys k)
      (b : IsChecked c e bs id services public_keys l) where
    both_match : All (λ s. evaluate_all 32 a.ps s.0 ≡ evaluate_all 32 b.ps s.0) a.all
    both_match = All-zip a.all a.matches (
        subst (λ all. All (λ s. evaluate_all 32 b.ps s.0 ≡ ok s.1) all)
          (sym (same_shares as' bs k l a b)) b.matches)
      where
        All-zip :
            (all : List (U8 × Block))
            → All (λ s. evaluate_all 32 a.ps s.0 ≡ ok s.1) all
            → All (λ s. evaluate_all 32 b.ps s.0 ≡ ok s.1) all
            → All (λ s. evaluate_all 32 a.ps s.0 ≡ evaluate_all 32 b.ps s.0) all
        All-zip [] g h = tt
        All-zip (s ∷ all) g h = (g.0 ∙ sym h.0, All-zip all g.1 h.1)

    at_services :
        All
          (λ x. evaluate_all 32 a.ps x ≡ evaluate_all 32 b.ps x)
          (map (λ (s : ObjectId × U8). s.1) services)
    at_services =
        subst (All (λ x. evaluate_all 32 a.ps x ≡ evaluate_all 32 b.ps x))
          (closure_at_services as' k a)
          (All-of_map (λ x. evaluate_all 32 a.ps x ≡ evaluate_all 32 b.ps x)
            (λ (s : U8 × Block). s.0) a.all both_match)

    at_served :
        (s : U8 × Block) → IsServed services s → evaluate_all 32 a.ps s.0 ≡ evaluate_all 32 b.ps s.0
    at_served s (i, t, e, same) =
        subst (λ x. evaluate_all 32 a.ps x ≡ evaluate_all 32 b.ps x) (sym same)
          (All-index (λ x. evaluate_all 32 a.ps x ≡ evaluate_all 32 b.ps x)
            (map (λ (s : ObjectId × U8). s.1) services) i t.1 at_services
            (index-map (λ (s : ObjectId × U8). s.1) services i e))

    agree_if_fewer : All (IsServed services) bs → length as' ≤ length bs → k ≡ l
    agree_if_fewer all_served fewer =
        let (ua, ea) = interpolate-eq-ok (omega arith) as' a.ps a.interpolated in
        let (ub, eb) = interpolate-eq-ok (omega arith) bs b.ps b.interpolated in
        ok_injective (
          sym a.at_zero
          ∙ closures_agree bs ub a.ps b.ps (ap length ea ∙ length-polynomials as' ua)
              (ap length eb ∙ length-polynomials bs ub)
              (AreShort-weaken _ _ a.ps fewer
                (subst (AreShort (length as')) (sym ea) (polynomials-AreShort as' ua)))
              (subst (AreShort (length bs)) (sym eb) (polynomials-AreShort bs ub))
              (All-implies _ _ bs at_served all_served) (of_ℕ 0)
          ∙ b.at_zero)

  pub same_base_key :
      (as' bs : List (U8 × Block)) (k l : Key)
      → All (IsServed services) as'
      → All (IsServed services) bs
      → IsChecked c e as' id services public_keys k
      → IsChecked c e bs id services public_keys l
      → k ≡ l
  same_base_key as' bs k l sa sb a b = elim (one_way (length as') (length bs)) [
    | inl h ↦ agree_if_fewer as' bs k l a b sb h
    | inr h ↦ sym (agree_if_fewer bs as' l k b a sa h)
  ]
