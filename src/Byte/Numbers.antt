-- ===== src/Byte/Numbers.antt =====
-- A byte and its number: the cast wraps modulo 256, and loses nothing below.
use pysui_crypto.Common.{ℕ, ◌/◌, ◌%◌, ◌<◌, ◌≡◌, Bool, true, arith, ◌==◌, ◌↔◌, ap, ◌&&◌}
use pysui_crypto.Byte.{U8, to_ℕ, of_ℕ, bit, eq, bit_eq}
use pysui_crypto.Byte.Xor.{U8_ext}

bit-of_test : (n : ℕ) → bit (n % 2 == 1) ≡ n % 2
bit-of_test n = ground arith

pub to_ℕ-of_ℕ : (n : ℕ) → to_ℕ (of_ℕ n) ≡ n % 256
unfolding to_ℕ of_ℕ
to_ℕ-of_ℕ n = omega (
  arith,
  bit-of_test (n / 128),
  bit-of_test (n / 64),
  bit-of_test (n / 32),
  bit-of_test (n / 16),
  bit-of_test (n / 8),
  bit-of_test (n / 4),
  bit-of_test (n / 2),
  bit-of_test n,
)

bit_eq_iff : (a b : Bool) → (bit_eq a b ≡ true) ↔ (a ≡ b)
bit_eq_iff a b = ground arith

pub eq_self : (a : U8) → eq a a ≡ true
unfolding eq
eq_self a = ground arith

and_true : (a b : Bool) → (a && b) ≡ true → (a ≡ true) × (b ≡ true)
and_true a b h = ground arith

pub eq_sound : (a b : U8) → eq a b ≡ true → a ≡ b
unfolding eq
eq_sound a b h =
    let (h1, p0) = and_true _ _ h in
    let (h2, p1) = and_true _ _ h1 in
    let (h3, p2) = and_true _ _ h2 in
    let (h4, p3) = and_true _ _ h3 in
    let (h5, p4) = and_true _ _ h4 in
    let (h6, p5) = and_true _ _ h5 in
    let (p7, p6) = and_true _ _ h6 in
    U8_ext a b ((bit_eq_iff _ _).0 p7) ((bit_eq_iff _ _).0 p6) ((bit_eq_iff _ _).0 p5)
      ((bit_eq_iff _ _).0 p4) ((bit_eq_iff _ _).0 p3) ((bit_eq_iff _ _).0 p2)
      ((bit_eq_iff _ _).0 p1) ((bit_eq_iff _ _).0 p0)

-- `a == b` decides equality.
pub eq_iff : (a b : U8) → (eq a b ≡ true) ↔ (a ≡ b)
eq_iff a b = (eq_sound a b, λ p. rw p (eq_self b))

pub of_ℕ_injective : (m n : ℕ) → m < 256 → n < 256 → of_ℕ m ≡ of_ℕ n → m ≡ n
of_ℕ_injective m n hm hn e = omega (arith, ap to_ℕ e, to_ℕ-of_ℕ m, to_ℕ-of_ℕ n)
