-- ===== src/Gf256/Field.antt =====
-- The laws of addition and multiplication that the polynomials and the sharing rest on.
use pysui_crypto.Common.{
  ◌+◌, ◌≡◌, ◌≢◌, ◌⊎◌, inl, inr, refl, sym, ap, ap₂, ◌∙◌, true, false, arith, Bool-cases,
}
use pysui_crypto.Byte.{to_ℕ, of_ℕ, eq}
use pysui_crypto.Byte.Xor.{^^_comm, ^^_assoc, ^^_self, ^^-zero}
use pysui_crypto.Byte.Numbers.{eq_iff, eq_self}
use pysui_crypto.Gf256.{Gf256, from_u8, zero as 𝟘, one as 𝟙, is_zero, log_entry, exp, ◌⊕◌, ◌⊗◌}
use pysui_crypto.Gf256.Tables.{log_table}
use pysui_crypto.Gf256.Powers.{
  times_power, times_power-exp, times_power-^^, times_power-zero, exp-log_entry, exp-ne-zero,
}

pub ⊕_comm : (a b : Gf256) → a ⊕ b ≡ b ⊕ a
unfolding ◌⊕◌
⊕_comm a b = ap from_u8 (^^_comm a.byte b.byte)

pub ⊕_assoc : (a b c : Gf256) → (a ⊕ b) ⊕ c ≡ a ⊕ (b ⊕ c)
unfolding ◌⊕◌
⊕_assoc a b c = ap from_u8 (^^_assoc a.byte b.byte c.byte)

pub ⊕_self : (a : Gf256) → a ⊕ a ≡ 𝟘
unfolding ◌⊕◌
⊕_self a = ap from_u8 (^^_self a.byte)

pub ⊕-zero : (a : Gf256) → a ⊕ 𝟘 ≡ a
unfolding ◌⊕◌
⊕-zero a = ap from_u8 (^^-zero a.byte)

pub zero-⊕ : (a : Gf256) → 𝟘 ⊕ a ≡ a
zero-⊕ a = ⊕_comm 𝟘 a ∙ ⊕-zero a

pub is_zero_iff_eq : (a : Gf256) → is_zero a ≡ true → a ≡ 𝟘
unfolding is_zero
is_zero_iff_eq a h = ap from_u8 ((eq_iff _ _).0 h)

pub is_zero_zero : is_zero 𝟘 ≡ true
unfolding is_zero
is_zero_zero = eq_self _

pub is_zero_of_ne : (a : Gf256) → a ≢ 𝟘 → is_zero a ≡ false
is_zero_of_ne a h = elim (Bool-cases (is_zero a)) [
  | inl e ↦ absurd (h (is_zero_iff_eq a e))
  | inr e ↦ e
]

pub ne_of_is_zero : (a : Gf256) → is_zero a ≡ false → a ≢ 𝟘
ne_of_is_zero a h e = cc (ap is_zero e, is_zero_zero)

-- A case split on whether an element is zero.
pub zero_or_not : (a : Gf256) → (a ≡ 𝟘) ⊎ (is_zero a ≡ false)
zero_or_not a = elim (Bool-cases (is_zero a)) [ inl e ↦ inl (is_zero_iff_eq a e) | inr e ↦ inr e ]

pub zero-⊗ : (a : Gf256) → 𝟘 ⊗ a ≡ 𝟘
unfolding ◌⊗◌
zero-⊗ a = rw is_zero_zero

pub ⊗_comm : (a b : Gf256) → a ⊗ b ≡ b ⊗ a
unfolding ◌⊗◌
⊗_comm a b = elim (Bool-cases (is_zero a)) [
  | inl za ↦ elim (Bool-cases (is_zero b)) [ inl zb ↦ rw (za, zb) | inr nb ↦ rw (za, nb) ]
  | inr na ↦ elim (Bool-cases (is_zero b)) [
    | inl zb ↦ rw (na, zb)
    | inr nb ↦ rw (na, nb) (ap exp (omega arith))
  ]
]

pub ⊗-zero : (a : Gf256) → a ⊗ 𝟘 ≡ 𝟘
⊗-zero a = ⊗_comm a 𝟘 ∙ zero-⊗ a

exp-log : (a : Gf256) → is_zero a ≡ false → exp (log_entry a) ≡ a
unfolding is_zero
exp-log a h = exp-log_entry a.byte h

-- Multiplication by a nonzero `a` is `log a` multiplications by the generator.
pub ⊗_as_power :
    (a b : Gf256) → is_zero a ≡ false → a ⊗ b ≡ from_u8 (times_power (log_entry a) b.byte)
⊗_as_power a b na = elim (zero_or_not b) [
  | inl zb ↦ rw zb (⊗-zero a ∙ sym (ap from_u8 (times_power-zero (log_entry a))))
  | inr nb ↦
      nonzero nb
      ∙ sym (ap from_u8 (times_power-exp (log_entry a) (log_entry b)))
      ∙ ap (λ e. from_u8 (times_power (log_entry a) e.byte)) (exp-log b nb)
]
  where
    nonzero : is_zero b ≡ false → a ⊗ b ≡ exp (log_entry a + log_entry b)
    nonzero nb = unfold ◌⊗◌ in rw (na, nb)

-- Multiplication distributes over addition.
pub ⊗-⊕ : (a b c : Gf256) → a ⊗ (b ⊕ c) ≡ (a ⊗ b) ⊕ (a ⊗ c)
⊗-⊕ a b c = elim (zero_or_not a) [
  | inl za ↦ rw za (zero-⊗ _ ∙ sym (ap₂ ◌⊕◌ (zero-⊗ b) (zero-⊗ c) ∙ ⊕-zero 𝟘))
  | inr na ↦
      ⊗_as_power a (b ⊕ c) na ∙ linear ∙ sym (ap₂ ◌⊕◌ (⊗_as_power a b na) (⊗_as_power a c na))
]
  where
    linear :
        from_u8 (times_power (log_entry a) (b ⊕ c).byte)
        ≡ from_u8 (times_power (log_entry a) b.byte) ⊕ from_u8 (times_power (log_entry a) c.byte)
    linear = unfold ◌⊕◌ in ap from_u8 (times_power-^^ (log_entry a) b.byte c.byte)

pub ⊕-⊗ : (a b c : Gf256) → (a ⊕ b) ⊗ c ≡ (a ⊗ c) ⊕ (b ⊗ c)
⊕-⊗ a b c = ⊗_comm (a ⊕ b) c ∙ ⊗-⊕ c a b ∙ ap₂ ◌⊕◌ (⊗_comm c a) (⊗_comm c b)

pub ⊗-ne-zero : (a b : Gf256) → is_zero a ≡ false → is_zero b ≡ false → is_zero (a ⊗ b) ≡ false
unfolding ◌⊗◌
⊗-ne-zero a b na nb = rw (na, nb) (unfold is_zero in exp-ne-zero (log_entry a + log_entry b))

⊗_three :
    (a b c : Gf256)
    → is_zero a ≡ false
    → is_zero b ≡ false
    → is_zero c ≡ false
    → a ⊗ (b ⊗ c) ≡ exp (log_entry a + (log_entry b + log_entry c))
⊗_three a b c na nb nc =
    ⊗_as_power a (b ⊗ c) na
    ∙ ap (λ (e : Gf256). from_u8 (times_power (log_entry a) e.byte)) inner
    ∙ ap from_u8 (times_power-exp (log_entry a) (log_entry b + log_entry c))
  where
    inner : b ⊗ c ≡ exp (log_entry b + log_entry c)
    inner = unfold ◌⊗◌ in rw (nb, nc)

-- Multiplication is associative.
pub ⊗_assoc : (a b c : Gf256) → (a ⊗ b) ⊗ c ≡ a ⊗ (b ⊗ c)
⊗_assoc a b c = elim (zero_or_not a) [
  | inl za ↦ rw za (ap (λ t. t ⊗ c) (zero-⊗ b) ∙ zero-⊗ c ∙ sym (zero-⊗ _))
  | inr na ↦ elim (zero_or_not b) [
    | inl zb ↦
        rw zb (ap (λ t. t ⊗ c) (⊗-zero a) ∙ zero-⊗ c ∙ sym (ap (◌⊗◌ a) (zero-⊗ c) ∙ ⊗-zero a))
    | inr nb ↦ elim (zero_or_not c) [
      | inl zc ↦ rw zc (⊗-zero _ ∙ sym (ap (◌⊗◌ a) (⊗-zero b) ∙ ⊗-zero a))
      | inr nc ↦
          ⊗_comm (a ⊗ b) c
          ∙ ⊗_three c a b nc na nb
          ∙ ap exp (omega arith)
          ∙ sym (⊗_three a b c na nb nc)
    ]
  ]
]

pub one_nonzero : is_zero 𝟙 ≡ false
unfolding is_zero eq of_ℕ
one_nonzero = refl

pub ⊗-one : (a : Gf256) → a ⊗ 𝟙 ≡ a
⊗-one a = ⊗_comm a 𝟙 ∙ ⊗_as_power 𝟙 a one_nonzero ∙ no_power
  where
    no_power : from_u8 (times_power (log_entry 𝟙) a.byte) ≡ a
    no_power = unfold log_entry log_table to_ℕ of_ℕ times_power in refl

pub one-⊗ : (a : Gf256) → 𝟙 ⊗ a ≡ a
one-⊗ a = ⊗_comm 𝟙 a ∙ ⊗-one a
