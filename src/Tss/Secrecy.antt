-- ===== src/Tss/Secrecy.antt =====
-- Fewer shares than the threshold tell nothing of the secret.
use pysui_crypto.Common.{
  ℕ, suc, ◌-◌, ◌*◌, ◌≤◌, ◌<◌, ◌≡◌, refl, sym, ap, ap₂, subst, ◌∙◌, inl, inr, Bool, true, false,
  List, [], ◌∷◌, map, length, length-map, filter, drop, length-take, length-drop, All, All-implies,
  All-map, ok, Array, Array_ext, Bool-cases, if◌then◌else◌, arith,
}
use mathlib.Core.List.{map-map, zip, zip_with}
use pysui_crypto.Byte.{U8, of_ℕ, eq}
use pysui_crypto.Gf256.{Gf256, from_u8, is_zero}
use pysui_crypto.Polynomial.Value.{value}
use pysui_crypto.Tss.{SecretSharing, split}
use pysui_crypto.Tss.Shamir.{evaluation}
use pysui_crypto.Tss.Tape.{tape, Fits, move, move_twice, length-move, same_values}
use pysui_crypto.Tss.Split.{Shared, drawn_polynomials, IsSharing, split-IsSharing}
use pysui_crypto.Tss.Bytes.{contains-false, apart_of_eq, eq_of_apart}
use pysui_crypto.Tss.Indices.{indices_to, contains_zero-indices_to}

-- The shares that the holders of the indices that pass a test see, with their indices.
abbrev pub view : {n : ℕ} → (U8 → Bool) → SecretSharing n → List (U8 × Array U8 n)
view keep sharing = filter (λ s. keep s.0) (zip sharing.indices sharing.shares)

-- Columns that agree at the kept indices.
same_views :
    {n : ℕ} (keep : U8 → Bool) (f g : U8 → List U8) (is : List U8) (as' bs : List (Array U8 n))
    → map (λ (a : Array U8 n). a.items) as' ≡ map f is
    → map (λ (a : Array U8 n). a.items) bs ≡ map g is
    → All (λ i. keep i ≡ true → f i ≡ g i) is
    → filter (λ (s : U8 × Array U8 n). keep s.0) (zip is as')
      ≡ filter (λ (s : U8 × Array U8 n). keep s.0) (zip is bs)
unfolding zip zip_with
same_views keep f g [] as' bs p q h = refl
same_views keep f g (i ∷ is) [] bs p q h = cc
same_views keep f g (i ∷ is) (a ∷ as') [] p q h = cc
same_views keep f g (i ∷ is) (a ∷ as') (b ∷ bs) p q h = elim (Bool-cases (keep i)) [
  | inl e ↦ rw e (
      ap₂ ◌∷◌ (ap (λ c. (i, c)) (Array_ext a b (cc (p, q, h.0 e))))
        (same_views keep f g is as' bs (cc p) (cc q) h.1))
  | inr e ↦ rw e (same_views keep f g is as' bs (cc p) (cc q) h.1)
]

kept_or_not :
    (keep : U8 → Bool) (P : U8 → Type 0) (is : List U8)
    → All P (filter keep is)
    → All (λ i. keep i ≡ true → P i) is
kept_or_not keep P [] h = tt
kept_or_not keep P (i ∷ is) h = elim (Bool-cases (keep i)) [
  | inl e ↦
      let h' = subst (λ b. All P (if b then i ∷ filter keep is else filter keep is)) e h in
      ((λ t. h'.0), kept_or_not keep P is h'.1)
  | inr e ↦
      let h' = subst (λ b. All P (if b then i ∷ filter keep is else filter keep is)) e h in
      ((λ t. cc (sym e ∙ t)), kept_or_not keep P is h')
]

length-Fits : (m : ℕ) (ss bs : List U8) → length bs ≡ length ss * m → Fits m ss bs
length-Fits m [] bs e = omega (arith, e)
length-Fits m (s ∷ ss) bs e = (
  length-take m bs (omega (arith, e)),
  length-Fits m ss (drop m bs) (length-drop m bs ∙ rest (length bs) (length ss * m) e),
)
  where
    rest : (n k : ℕ) → n ≡ suc (length ss) * m → n - m ≡ length ss * m
    rest n k h = omega (arith, h)

-- The kept indices are not zero.
kept_apart :
    (keep : U8 → Bool) (is : List U8)
    → All (λ i. eq (of_ℕ 0) i ≡ false) is
    → All (λ r. is_zero r ≡ false) (map from_u8 (filter keep is))
kept_apart keep [] h = tt
kept_apart keep (i ∷ is) h = elim (Bool-cases (keep i)) [
  | inl e ↦ rw e (nonzero, kept_apart keep is h.1)
  | inr e ↦ rw e (kept_apart keep is h.1)
]
  where
    nonzero : is_zero (from_u8 i) ≡ false
    nonzero = unfold is_zero in eq_of_apart (of_ℕ 0) i (apart_of_eq (of_ℕ 0) i h.0)

-- The values of the polynomials at an index, and as bytes.
abbrev values' : U8 → List Shared → List Gf256
values' i ps = map (λ (p : Shared). value (from_u8 p.0 ∷ p.1) (from_u8 i)) ps

same_evaluations :
    (i : U8) (ps qs : List Shared)
    → values' i ps ≡ values' i qs
    → map (λ p. evaluation p i) ps ≡ map (λ p. evaluation p i) qs
same_evaluations i ps qs e =
    sym (map-map (λ (v : Gf256). v.byte) (λ (p : Shared). value (from_u8 p.0 ∷ p.1) (from_u8 i)) ps)
    ∙ ap (map (λ (v : Gf256). v.byte)) e
    ∙ map-map (λ (v : Gf256). v.byte) (λ (p : Shared). value (from_u8 p.0 ∷ p.1) (from_u8 i)) qs

module _ (threshold k n : ℕ) (keep : U8 → Bool) (secret secret' : Array U8 n) where
  -- Each view is as likely with the one secret as with the other: a change of the bytes that
  -- `split` reads from the tape, with an inverse, so that splitting the one secret with any bytes
  -- and the other with the changed ones shows the same shares.
  pub record IsHidden : Type 0 where
    pub change : Array U8 (n * (threshold - 1)) → Array U8 (n * (threshold - 1))
    pub back : Array U8 (n * (threshold - 1)) → Array U8 (n * (threshold - 1))
    pub change_back : (bs : Array U8 (n * (threshold - 1))) → change (back bs) ≡ bs
    pub back_change : (bs : Array U8 (n * (threshold - 1))) → back (change bs) ≡ bs
    pub same_view :
        (bs : Array U8 (n * (threshold - 1)))
        → (sharing sharing' : SecretSharing n) × (rest rest' : List U8) × (split tape n bs.items
              secret threshold k
            ≡ ok (sharing, rest))
          × (split tape n (change bs).items secret' threshold k ≡ ok (sharing', rest'))
          × (view keep sharing ≡ view keep sharing')

  module _ (positive : 0 < threshold) (enough : threshold ≤ k) (fits : k ≤ 255) (nonempty : 0 < n)
      (few : length (filter keep (indices_to k)) < threshold) where
    points : List Gf256
    points = map from_u8 (filter keep (indices_to k))

    few_points : length points ≤ threshold - 1
    few_points =
        unfold points in
        omega (arith, few, positive, length-map from_u8 (filter keep (indices_to k)))

    enough_tape :
        (s : Array U8 n) (bs : List U8)
        → length bs ≡ n * (threshold - 1)
        → Fits (threshold - 1) s.items bs
    enough_tape s bs e =
        length-Fits (threshold - 1) s.items bs (e ∙ ap (λ l. l * (threshold - 1)) (sym s.size))

    sizes : length secret.items ≡ length secret'.items
    sizes = secret.size ∙ sym secret'.size

    moved : List U8 → List U8
    moved = move (threshold - 1) points few_points secret.items secret'.items

    same_shares :
        (bs : List U8)
        → length bs ≡ n * (threshold - 1)
        → (sharing sharing' : SecretSharing n) × (rest rest' : List U8) × (split tape n bs secret
              threshold k
            ≡ ok (sharing, rest))
          × (split tape n (moved bs) secret' threshold k ≡ ok (sharing', rest'))
          × (view keep sharing ≡ view keep sharing')
    same_shares bs e = (
      a.sharing,
      b.sharing,
      a.state,
      b.state,
      a.returns,
      b.returns,
      ap₂ (λ is js. filter (λ (s : U8 × Array U8 n). keep s.0) (zip is js)) a.same_indices refl
          ∙ same_views keep (λ i. map (λ p. evaluation p i) a.polynomials)
              (λ i. map (λ p. evaluation p i) b.polynomials) (indices_to k) a.sharing.shares
              b.sharing.shares a.columns b.columns (kept_or_not keep _ (indices_to k) agree)
          ∙ ap₂ (λ is js. filter (λ (s : U8 × Array U8 n). keep s.0) (zip is js))
              (sym b.same_indices) refl,
    )
      where
        a :
            IsSharing tape threshold k positive enough fits bs secret
              (split tape n bs secret threshold k)
        a = split-IsSharing tape threshold k positive enough fits n bs secret nonempty

        b :
            IsSharing tape threshold k positive enough fits
              (moved bs)
              secret'
              (split tape n (moved bs) secret' threshold k)
        b = split-IsSharing tape threshold k positive enough fits n (moved bs) secret' nonempty

        kept :
            All
              (λ i.
                values' i (drawn_polynomials tape (threshold - 1) (moved bs) secret'.items)
                ≡ values' i (drawn_polynomials tape (threshold - 1) bs secret.items))
              (filter keep (indices_to k))
        kept =
            unfold moved points in
            All-map _ from_u8 (filter keep (indices_to k)) (
              same_values (threshold - 1) (map from_u8 (filter keep (indices_to k))) few_points
                secret.items secret'.items bs sizes (enough_tape secret bs e)
                (kept_apart keep (indices_to k)
                  (contains-false (of_ℕ 0) (indices_to k) (contains_zero-indices_to k fits))))

        agree :
            All
              (λ i.
                map (λ p. evaluation p i) a.polynomials ≡ map (λ p. evaluation p i) b.polynomials)
              (filter keep (indices_to k))
        agree =
            All-implies _ _ (filter keep (indices_to k))
              (λ i t.
                same_evaluations i a.polynomials b.polynomials
                  (ap (values' i) a.drawn ∙ sym t ∙ ap (values' i) (sym b.drawn)))
              kept

    -- Perfect secrecy. For 1 ≤ threshold ≤ k ≤ 255, any two secrets of one nonzero length n, and
    -- fewer than `threshold` of the k indices: there is a change, one to one, of the n (threshold -
    -- 1) random bytes that `split` reads, such that for all bytes the holders of the indices see of
    -- the one secret, split with the bytes, the same shares as of the other, split with the changed
    -- bytes.
    pub split-IsHidden : IsHidden
    split-IsHidden = record {
      change = λ bs. record {
        items = moved bs.items;
        size =
            unfold moved in
            length-move (threshold - 1) points few_points secret.items secret'.items bs.items sizes
              (enough_tape secret bs.items bs.size)
            ∙ bs.size;
      };
      back = λ bs. record {
        items = move (threshold - 1) points few_points secret'.items secret.items bs.items;
        size =
            length-move (threshold - 1) points few_points secret'.items secret.items bs.items
              (sym sizes) (enough_tape secret' bs.items bs.size)
            ∙ bs.size;
      };
      change_back = λ bs. Array_ext _ bs (
          unfold moved in
          move_twice (threshold - 1) points few_points secret'.items secret.items bs.items
            (sym sizes) (enough_tape secret' bs.items bs.size));
      back_change = λ bs. Array_ext _ bs (
          unfold moved in
          move_twice (threshold - 1) points few_points secret.items secret'.items bs.items sizes
            (enough_tape secret bs.items bs.size));
      same_view = λ bs. same_shares bs.items bs.size;
    }
