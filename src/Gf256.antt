-- ===== src/Gf256.antt =====
-- seal/gf256.rs: the field with 256 elements, by tables of exponents and logarithms.
pub mod Tables
pub mod Powers
pub mod Field
pub mod Division
pub mod Laws
pub mod Reference
pub mod Sums
use pysui_crypto.Common.{
  ℕ, ◌+◌, ◌-◌, ◌%◌, Bool, ◌||◌, List, foldl, Outcome, ok, err, panic, ◌>>=◌, invalid_input,
  if◌then◌else◌, get_or,
}
use pysui_crypto.Utils.{Rng}
use pysui_crypto.Byte.{U8, to_ℕ, of_ℕ, ◌^^◌, eq}
use pysui_crypto.Gf256.Tables.{exp_table, log_table}

-- `Gf256(pub(crate) u8)`.
pub record Gf256 : Type 0 where
  pub byte : U8

abbrev pub from_u8 : U8 → Gf256
from_u8 a = record { byte = a }

abbrev pub zero : Gf256
zero = from_u8 (of_ℕ 0)

abbrev pub one : Gf256
one = from_u8 (of_ℕ 1)

-- The test `self.0 == 0`.
unfoldable pub is_zero : Gf256 → Bool
is_zero a = eq a.byte (of_ℕ 0)

-- `LOG[x.0 as usize - 1]`, the table read of `log`.
unfoldable pub log_entry : Gf256 → ℕ
log_entry a = get_or log_table (to_ℕ a.byte - 1) 0

-- `log`, with its assertion.
unfoldable pub log : Gf256 → Outcome ℕ
log a = if is_zero a then panic else ok (log_entry a)

-- `exp`: the index is below 255, so it is always in range.
unfoldable pub exp : ℕ → Gf256
exp n = from_u8 (of_ℕ (get_or exp_table (n % 255) 0))

infixl 65 ◌⊕◌ ◌⊖◌
infixl 70 ◌⊗◌
-- `Add` and `AddAssign`.
unfoldable pub ◌⊕◌ : Gf256 → Gf256 → Gf256
a ⊕ b = from_u8 (a.byte ^^ b.byte)

-- `Sub`.
unfoldable pub ◌⊖◌ : Gf256 → Gf256 → Gf256
a ⊖ b = a ⊕ b

-- `Neg`.
unfoldable pub neg : Gf256 → Gf256
neg a = zero ⊖ a

-- `Mul`, with the assertions of the two calls of `log`.
unfoldable pub mul : Gf256 → Gf256 → Outcome Gf256
mul a b = if is_zero a || is_zero b then ok zero else do x ← log a; y ← log b; ok (exp (x + y))

-- The value of `Mul` where the assertions hold.
unfoldable pub ◌⊗◌ : Gf256 → Gf256 → Gf256
a ⊗ b = if is_zero a || is_zero b then zero else exp (log_entry a + log_entry b)

-- `Div`.
unfoldable pub div : Gf256 → Gf256 → Outcome Gf256
div a b =
    if is_zero b
    then err invalid_input
    else if is_zero a
    then ok zero
    else do x ← log a; y ← log b; ok (exp (255 + x - y))

-- `Product`.
unfoldable pub product : List Gf256 → Gf256
product xs = foldl (λ acc x. acc ⊗ x) one xs

-- `Sum`.
unfoldable pub sum : List Gf256 → Gf256
sum xs = foldl (λ acc x. acc ⊕ x) zero xs

-- `GF256::rand`: a random byte.
abbrev pub rand : (g : Rng) → g.State → Gf256 × g.State
rand g st = let (b, st') = g.gen_byte st in (from_u8 b, st')
