-- ===== src/Bindings/Commas.antt =====
-- Which texts have no comma: digits, numbers and the package ids that are accepted.
use pysui_crypto.Common.{
  ℕ, zero, suc, ◌+◌, ◌/◌, ◌%◌, ◌≡◌, refl, sym, ap, subst, ◌∙◌, ◌⊎◌, inl, inr, Bool, true, false,
  not, ◌&&◌, ◌||◌, List, [], ◌∷◌, ◌++◌, length, if◌then◌else◌, ltb, ◌==◌, drop, arith, Bool-cases,
}
use pysui_crypto.Python.{value_error, PyResult, returned, raised}
use pysui_crypto.Byte.{U8, to_ℕ, of_ℕ, eq}
use pysui_crypto.Byte.Numbers.{to_ℕ-of_ℕ, eq_iff}
use pysui_crypto.Bindings.Message.{
  comma, is_ascii_hexdigit, all_hexdigits, contains_byte, starts_with_0x, validate_package_id,
  decimal,
}

-- Comma-free.
abbrev pub Free : List U8 → Type 0
Free bs = contains_byte comma bs ≡ false

pub Free-append : (xs ys : List U8) → Free xs → Free ys → Free (xs ++ ys)
unfolding contains_byte
Free-append [] ys h k = k
Free-append (x ∷ xs) ys h k = elim (Bool-cases (eq x comma)) [
  | inl e ↦ absurd (clash _ _ e h)
  | inr e ↦ rw e (Free-append xs ys (other _ _ h) k)
]
  where
    clash : (a b : Bool) → a ≡ true → (a || b) ≡ false → ⊥
    clash true b e h = cc
    clash false b e h = cc

    other : (a b : Bool) → (a || b) ≡ false → b ≡ false
    other true b h = cc
    other false b h = h

Free-cons : (b : U8) (bs : List U8) → eq b comma ≡ false → Free bs → Free (b ∷ bs)
unfolding contains_byte
Free-cons b bs e h = rw e h

hexdigit_not_comma : (b : U8) → is_ascii_hexdigit b ≡ true → eq b comma ≡ false
hexdigit_not_comma b h = elim (Bool-cases (eq b comma)) [
  | inl e ↦ absurd (comma_not (subst (λ b. is_ascii_hexdigit b ≡ true) ((eq_iff b comma).0 e) h))
  | inr e ↦ e
]
  where
    comma_not : is_ascii_hexdigit comma ≡ true → ⊥
    comma_not e = unfold is_ascii_hexdigit to_ℕ of_ℕ in cc e

and_parts : (a b : Bool) → (a && b) ≡ true → (a ≡ true) × (b ≡ true)
and_parts true b h = (refl, h)
and_parts false b h = cc

all_hexdigits-Free : (bs : List U8) → all_hexdigits bs ≡ true → Free bs
unfolding all_hexdigits contains_byte
all_hexdigits-Free [] h = refl
all_hexdigits-Free (b ∷ bs) h =
    let (p, q) = and_parts (is_ascii_hexdigit b) (all_hexdigits bs) h in
    Free-cons b bs (hexdigit_not_comma b p) (all_hexdigits-Free bs q)

digit-Free : (n : ℕ) → Free (of_ℕ (48 + n % 10) ∷ [])
digit-Free n = elim (Bool-cases (eq (of_ℕ (48 + n % 10)) comma)) [
  | inl e ↦ absurd (
      differ n (
        sym (to_ℕ-of_ℕ (48 + n % 10))
        ∙ ap to_ℕ ((eq_iff (of_ℕ (48 + n % 10)) comma).0 e)
        ∙ to_ℕ-of_ℕ 44))
  | inr e ↦ Free-cons (of_ℕ (48 + n % 10)) [] e (unfold contains_byte in refl)
]
  where
    differ : (n : ℕ) → (48 + n % 10) % 256 ≡ 44 % 256 → ⊥
    differ n h = omega arith

pub decimal-Free : (f n : ℕ) → Free (decimal f n)
unfolding decimal
decimal-Free zero n = digit-Free n
decimal-Free (suc f) n = elim (Bool-cases (ltb n 10)) [
  | inl e ↦ rw e (digit-Free n)
  | inr e ↦ rw e (Free-append (decimal f (n / 10)) _ (decimal-Free f (n / 10)) (digit-Free n))
]

-- A guard that lets pass.
guard : Bool → PyResult (Unit {0})
guard t = if t then raised value_error else returned tt

passed :
    (t x y : Bool)
    → (if t then guard x else guard y) ≡ returned tt
    → ((t ≡ true) × (x ≡ false)) ⊎ ((t ≡ false) × (y ≡ false))
unfolding guard
passed true true y h = cc
passed true false y h = inl (refl, refl)
passed false x true h = cc
passed false x false h = inr (refl, refl)

literal : (a : U8) (n : ℕ) → eq a (of_ℕ n) ≡ true → eq (of_ℕ n) comma ≡ false → eq a comma ≡ false
literal a n e k = ap (λ c. eq c comma) ((eq_iff a (of_ℕ n)).0 e) ∙ k

hex_id :
    (s : List U8)
    → starts_with_0x s ≡ true
    → (not (length (drop 2 s) == 64) || not (all_hexdigits (drop 2 s))) ≡ false
    → Free s × (length s ≡ 66)
unfolding starts_with_0x
hex_id [] h e = cc
hex_id (a ∷ []) h e = cc
hex_id (a ∷ b ∷ bs) h e =
    let (zero_x, x) = and_parts (eq a (of_ℕ 48)) (eq b (of_ℕ 120)) h in
    let (size, hex) = long (length bs) (all_hexdigits bs) e in
    (
      Free-cons a (b ∷ bs) (literal a 48 zero_x (unfold eq of_ℕ in refl))
          (Free-cons b bs (literal b 120 x (unfold eq of_ℕ in refl)) (all_hexdigits-Free bs hex)),
      omega (arith, size),
    )
  where
    long : (n : ℕ) (t : Bool) → (not (n == 64) || not t) ≡ false → (n ≡ 64) × (t ≡ true)
    long n t h = ground arith

-- A package id that is accepted contains no comma, and one that starts with 0x is of 66 bytes.
pub validate_package_id_lem :
    (s : List U8)
    → validate_package_id s ≡ returned tt
    → (contains_byte comma s ≡ false) × (starts_with_0x s ≡ true → length s ≡ 66)
unfolding validate_package_id guard
validate_package_id_lem s h =
    elim (passed (starts_with_0x s)
      (not (length (drop 2 s) == 64) || not (all_hexdigits (drop 2 s))) (contains_byte comma s) h) [
        | inl (prefix, hex) ↦ let (no_comma, size) = hex_id s prefix hex in (no_comma, (λ k. size))
        | inr (other, no_comma) ↦ (no_comma, (λ k. cc (sym other ∙ k)))
      ]
