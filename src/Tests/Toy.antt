-- ===== src/Tests/Toy.antt =====
-- A small instance of each parameter of the development. The groups are GF(256) with `⊕`, its
-- elements are the scalars, and the pairing is `⊗`.
use pysui_crypto.Common.{
  ℕ, suc, ◌+◌, ◌≡◌, refl, ap, ◌∙◌, sym, [], ◌∷◌, map, length, length-map, length-range_from,
  range_from, ok, map_ok, index, Array,
}
use pysui_crypto.Byte.{U8, of_ℕ, eq}
use pysui_crypto.Byte.Numbers.{eq_iff}
use pysui_crypto.Gf256.{Gf256, from_u8, zero as 𝟘, one as 𝟙, ◌⊕◌, ◌⊖◌, ◌⊗◌}
use pysui_crypto.Gf256.Field.{⊕_comm, ⊗_comm, ⊗_assoc, ⊕-⊗}
use pysui_crypto.Gf256.Division.{⊖-eq-⊕}
use pysui_crypto.Gf256.Sums.{⊕_cancel}
use pysui_crypto.Utils.{Rng}
use pysui_crypto.Dem.{Primitives}
use pysui_crypto.Groups.{Group, GroupLaws, Curve, CurveLaws}
use pysui_crypto.Ibe.{to_be_bytes}

-- An array with a byte for each position.
abbrev pub filled : (n : ℕ) → (ℕ → U8) → Array U8 n
filled n f = record {
  items = map f (range_from 0 n);
  size = length-map f (range_from 0 n) ∙ length-range_from 0 n;
}

abbrev pub counter : Rng
counter = record {
  State = ℕ;
  gen_byte = λ n. (of_ℕ n, suc n);
  fill_bytes = λ n st. (filled n (λ k. of_ℕ (st + k)), st + n);
}

abbrev pub primitives : Primitives
primitives = record {
  aes_encrypt = λ key iv aad msg. msg;
  aes_decrypt = λ key iv aad blob. ok blob;
  hmac_sha3_256 = λ key text. filled 32 (λ k. of_ℕ (length text + k));
  u64_bytes = to_be_bytes;
}

abbrev pub group : Group Gf256
group = record {
  Elt = Gf256;
  zero = 𝟘;
  generator = 𝟙;
  add = ◌⊕◌;
  sub = ◌⊖◌;
  mul = ◌⊗◌;
  is_eq = λ a b. eq a.byte b.byte;
}

abbrev pub group_laws : GroupLaws group
group_laws = record {
  sub-add = λ a b. ⊖-eq-⊕ (a ⊕ b) a ∙ ap (λ c. c ⊕ a) (⊕_comm a b) ∙ ⊕_cancel b a;
  add-sub = λ a b. ⊕_comm a (b ⊖ a) ∙ ap (λ c. c ⊕ a) (⊖-eq-⊕ b a) ∙ ⊕_cancel b a;
  mul_swap = mul_swap;
  is_eq_iff = λ a b. (
    λ h. ap from_u8 ((eq_iff a.byte b.byte).0 h),
    λ h. (eq_iff a.byte b.byte).1 (ap (λ (c : Gf256). c.byte) h),
  );
}
  where
    mul_swap : (a s t : Gf256) → (a ⊗ s) ⊗ t ≡ (a ⊗ t) ⊗ s
    mul_swap a s t = ⊗_assoc a s t ∙ ap (◌⊗◌ a) (⊗_comm s t) ∙ sym (⊗_assoc a t s)

abbrev pub curve : Curve
curve = record {
  Scalar = Gf256;
  g1 = group;
  g2 = group;
  gt = group;
  pairing = ◌⊗◌;
  hash_to_group_element = λ bs. from_u8 (of_ℕ (length bs));
  g1_bytes = λ a. a.byte ∷ [];
  g2_bytes = λ a. a.byte ∷ [];
  gt_bytes = λ a. a.byte ∷ [];
  scalar_bytes = λ s. filled 32 (λ k. s.byte);
  scalar_of_bytes = λ bs. map_ok from_u8 (index bs.items 0);
  sha3_256 = λ bs. filled 32 (λ k. of_ℕ (length bs + k));
  hkdf_sha3_256 = λ ikm salt info n. ikm;
  scalar_mod_r = λ bs. from_u8 (of_ℕ (length bs));
}

pub first_of_filled : (s : Gf256) → curve.scalar_of_bytes (curve.scalar_bytes s) ≡ ok s
unfolding index
first_of_filled s = refl

abbrev pub curve_laws : CurveLaws curve
curve_laws = record {
  g1_laws = group_laws;
  g2_laws = group_laws;
  gt_laws = group_laws;
  pairing-mul_left = λ a s b. swap a s b;
  pairing-mul_right = λ a b s. sym (⊗_assoc a b s);
  pairing-add = λ a a' b. ⊕-⊗ a a' b;
  scalar_round_trip = first_of_filled;
}
  where
    swap : (a s b : Gf256) → (a ⊗ s) ⊗ b ≡ (a ⊗ b) ⊗ s
    swap a s b = ⊗_assoc a s b ∙ ap (◌⊗◌ a) (⊗_comm s b) ∙ sym (⊗_assoc a b s)
