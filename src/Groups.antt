-- ===== src/Groups.antt =====
-- What the crate takes from fastcrypto: groups of prime order with a pairing (BLS12-381), hashing
-- and serialization. The operations are parameters; `GroupLaws` and `CurveLaws` state what is
-- documented of them and used here.
use pysui_crypto.Common.{ℕ, ◌≡◌, ◌↔◌, Bool, true, List, Outcome, ok, Array}
use pysui_crypto.Byte.{U8}

-- `GroupElement`, over a field of scalars.
pub record Group (S : Type 0) : Type 1 where
  pub Elt : Type 0
  pub zero : Elt
  pub generator : Elt
  pub add : Elt → Elt → Elt
  pub sub : Elt → Elt → Elt
  pub mul : Elt → S → Elt
  pub is_eq : Elt → Elt → Bool

pub record GroupLaws {S : Type 0} (g : Group S) : Type 0 where
  -- Subtraction undoes addition.
  pub sub-add : (a b : g.Elt) → g.sub (g.add a b) a ≡ b
  pub add-sub : (a b : g.Elt) → g.add a (g.sub b a) ≡ b
  -- Multiplications by two scalars commute.
  pub mul_swap : (a : g.Elt) (s t : S) → g.mul (g.mul a s) t ≡ g.mul (g.mul a t) s
  pub is_eq_iff : (a b : g.Elt) → (g.is_eq a b ≡ true) ↔ (a ≡ b)

-- The pairing groups, `Scalar`, the hash functions and the byte forms.
pub record Curve : Type 1 where
  pub Scalar : Type 0
  pub g1 : Group Scalar
  pub g2 : Group Scalar
  pub gt : Group Scalar
  pub pairing : g1.Elt → g2.Elt → gt.Elt
  pub hash_to_group_element : List U8 → g1.Elt
  pub g1_bytes : g1.Elt → List U8
  pub g2_bytes : g2.Elt → List U8
  pub gt_bytes : gt.Elt → List U8
  pub scalar_bytes : Scalar → Array U8 32
  pub scalar_of_bytes : Array U8 32 → Outcome Scalar
  pub sha3_256 : List U8 → Array U8 32
  -- `hkdf_sha3_256(ikm, salt, info, length)` and `buffer_to_scalar_mod_r`.
  pub hkdf_sha3_256 : List U8 → List U8 → List U8 → ℕ → List U8
  pub scalar_mod_r : List U8 → Scalar

pub record CurveLaws (c : Curve) : Type 0 where
  pub g1_laws : GroupLaws c.g1
  pub g2_laws : GroupLaws c.g2
  pub gt_laws : GroupLaws c.gt
  -- The pairing is linear in both arguments.
  pub pairing-mul_left :
      (a : c.g1.Elt) (s : c.Scalar) (b : c.g2.Elt)
      → c.pairing (c.g1.mul a s) b ≡ c.gt.mul (c.pairing a b) s
  pub pairing-mul_right :
      (a : c.g1.Elt) (b : c.g2.Elt) (s : c.Scalar)
      → c.pairing a (c.g2.mul b s) ≡ c.gt.mul (c.pairing a b) s
  pub pairing-add :
      (a a' : c.g1.Elt) (b : c.g2.Elt)
      → c.pairing (c.g1.add a a') b ≡ c.gt.add (c.pairing a b) (c.pairing a' b)
  -- A scalar can be read back from its bytes.
  pub scalar_round_trip : (s : c.Scalar) → c.scalar_of_bytes (c.scalar_bytes s) ≡ ok s
