-- ===== src/Zklogin/Bound.antt =====
-- What an address is bound to.
use pysui_crypto.Common.{
  ℕ, ◌+◌, ◌/◌, ◌%◌, ◌≤◌, ◌<◌, ◌≡◌, refl, sym, ap, ap₂, ◌∙◌, ◌⊎◌, inl, inr, Bool, true, false, List,
  [], ◌∷◌, ◌++◌, length, append_injective, if◌then◌else◌, ltb, ◌==◌, Array_ext, Bool-cases, arith,
}
use pysui_crypto.Python.{PyResult, returned_injective, returned, raised, value_error}
use pysui_crypto.Byte.{U8, to_ℕ, of_ℕ, eq}
use pysui_crypto.Byte.Numbers.{eq_iff, to_ℕ-of_ℕ, of_ℕ_injective}
use pysui_crypto.Byte.Every.{every_bit, every_byte, every_byte_sound}
use pysui_crypto.Dem.RoundTrip.{equal_or_not}
use pysui_crypto.Zklogin.{
  strip_seed_leading_zeros, zeros, copy_to_end, hex_digit, hex_text, Libraries,
  hash_zklogin_address, compute_zklogin_address,
}
use pysui_crypto.Zklogin.Seeds.{copy_to_end-strip_seed_leading_zeros, copy_to_end-fits}

same_number : U8 → Bool
same_number b = eq (of_ℕ (to_ℕ b)) b

every_same_number : every_byte same_number ≡ true
unfolding every_byte every_bit same_number eq to_ℕ of_ℕ
every_same_number = refl

of_ℕ-to_ℕ : (b : U8) → of_ℕ (to_ℕ b) ≡ b
of_ℕ-to_ℕ b =
    (eq_iff (of_ℕ (to_ℕ b)) b).0
      (unfold same_number in every_byte_sound same_number every_same_number b)

to_ℕ_bound : (b : U8) → to_ℕ b < 256
to_ℕ_bound b = omega (arith, ap to_ℕ (of_ℕ-to_ℕ b), to_ℕ-of_ℕ (to_ℕ b))

to_ℕ_injective : (a b : U8) → to_ℕ a ≡ to_ℕ b → a ≡ b
to_ℕ_injective a b e = sym (of_ℕ-to_ℕ a) ∙ ap of_ℕ e ∙ of_ℕ-to_ℕ b

digit_number : (d : ℕ) → d < 16 → to_ℕ (hex_digit d) ≡ (if ltb d 10 then 48 + d else 87 + d)
unfolding hex_digit
digit_number d h = elim (Bool-cases (ltb d 10)) [
  | inl e ↦ rw e (to_ℕ-of_ℕ (48 + d) ∙ small (48 + d) (omega (arith, h)))
  | inr e ↦ rw e (to_ℕ-of_ℕ (87 + d) ∙ small (87 + d) (omega (arith, h)))
]
  where
    small : (n : ℕ) → n < 256 → n % 256 ≡ n
    small n h = omega (arith, h)

hex_digit_injective : (d d' : ℕ) → d < 16 → d' < 16 → hex_digit d ≡ hex_digit d' → d ≡ d'
hex_digit_injective d d' h h' e =
    apart d d' h h' (sym (digit_number d h) ∙ ap to_ℕ e ∙ digit_number d' h')
  where
    apart :
        (d d' : ℕ)
        → d < 16
        → d' < 16
        → (if ltb d 10 then 48 + d else 87 + d) ≡ (if ltb d' 10 then 48 + d' else 87 + d')
        → d ≡ d'
    apart d d' h h' e = ground arith

hex_text_injective : (xs ys : List U8) → hex_text xs ≡ hex_text ys → xs ≡ ys
unfolding hex_text
hex_text_injective [] [] e = refl
hex_text_injective [] (y ∷ ys) e = cc
hex_text_injective (x ∷ xs) [] e = cc
hex_text_injective (x ∷ xs) (y ∷ ys) e =
    let high =
      hex_digit_injective (to_ℕ x / 16) (to_ℕ y / 16) (omega (arith, to_ℕ_bound x))
        (omega (arith, to_ℕ_bound y)) (cc e) in
    let low = hex_digit_injective (to_ℕ x % 16) (to_ℕ y % 16) (omega arith) (omega arith) (cc e) in
    ap₂ ◌∷◌ (to_ℕ_injective x y (omega (arith, high, low))) (hex_text_injective xs ys (cc e))

-- The bytes of a seed that are hashed.
abbrev pub seed_bytes : Bool → List U8 → PyResult (List U8)
seed_bytes legacy seed = if legacy then returned seed else strip_seed_leading_zeros seed

-- They give the seed back, in each mode.
copy_to_end-seed_bytes :
    (seed : List U8) (legacy : Bool)
    → length seed ≡ 32
    → (s : List U8) × (seed_bytes legacy seed ≡ returned s) × (copy_to_end s ≡ returned seed)
copy_to_end-seed_bytes seed true size =
    (seed, refl, copy_to_end-fits seed 0 (omega (arith, size)) ∙ unfold zeros in refl)
copy_to_end-seed_bytes seed false size =
    let (s, e, _, back) = copy_to_end-strip_seed_leading_zeros seed size in (s, e, back)

-- The text that is hashed.
abbrev pub address_text : List U8 → List U8 → List U8
address_text iss s = of_ℕ 5 ∷ (of_ℕ (length iss) ∷ (iss ++ s))

equal_parts :
    (iss iss' s s' : List U8)
    → length iss ≤ 255
    → length iss' ≤ 255
    → address_text iss s ≡ address_text iss' s'
    → (iss ≡ iss') × (s ≡ s')
equal_parts iss iss' s s' h h' e =
    append_injective iss iss' s s'
      (of_ℕ_injective (length iss) (length iss') (omega (arith, h)) (omega (arith, h')) (cc e))
      (cc e)

-- A returned address, taken apart.
address_inversion :
    (lib : Libraries) (iss seed : List U8) (legacy : Bool) (address : List U8)
    → compute_zklogin_address lib iss seed legacy ≡ returned address
    → (s : List U8) × (seed_bytes legacy seed ≡ returned s)
      × (copy_to_end s ≡ returned seed)
      × (address ≡ of_ℕ 48 ∷ (of_ℕ 120 ∷ hex_text (lib.blake2b256 (address_text iss s)).items))
address_inversion lib iss seed legacy address h = elim (Bool-cases (length seed == 32)) [
  | inl e ↦
      let (s, made, back) = copy_to_end-seed_bytes seed legacy (size (length seed) e) in
      (s, made, back, returned_injective (sym h ∙ runs s e made))
  | inr e ↦ absurd (refused e h)
]
  where
    size : (n : ℕ) → (n == 32) ≡ true → n ≡ 32
    size n h = ground arith

    runs :
        (s : List U8)
        → (length seed == 32) ≡ true
        → seed_bytes legacy seed ≡ returned s
        → compute_zklogin_address lib iss seed legacy
          ≡ returned (of_ℕ 48 ∷ (of_ℕ 120 ∷ hex_text (lib.blake2b256 (address_text iss s)).items))
    runs s e made = unfold compute_zklogin_address hash_zklogin_address in rw (e, made) refl

    refuses :
        (length seed == 32) ≡ false
        → compute_zklogin_address lib iss seed legacy ≡ raised value_error
    refuses e = unfold compute_zklogin_address in rw e refl

    refused :
        (length seed == 32) ≡ false
        → ¬ (compute_zklogin_address lib iss seed legacy ≡ returned address)
    refused e k = cc (sym k ∙ refuses e)

-- An address is bound to the issuer and the seed. For issuers of at most 255 bytes, if
-- `compute_zklogin_address` returns one address for two pairs of an issuer and a seed, in any
-- modes, then the issuers are equal and the seeds are equal, or the texts that it hashes for them
-- differ and have the same Blake2b256 hash.
pub compute_zklogin_address-binds :
    (lib : Libraries) (iss iss' seed seed' : List U8) (legacy legacy' : Bool) (address : List U8)
    → length iss ≤ 255
    → length iss' ≤ 255
    → compute_zklogin_address lib iss seed legacy ≡ returned address
    → compute_zklogin_address lib iss' seed' legacy' ≡ returned address
    → ((iss ≡ iss') × (seed ≡ seed'))
      ⊎ ((s s' : List U8) × (seed_bytes legacy seed ≡ returned s)
          × (seed_bytes legacy' seed' ≡ returned s')
          × ¬ (address_text iss s ≡ address_text iss' s')
          × (lib.blake2b256 (address_text iss s) ≡ lib.blake2b256 (address_text iss' s')))
compute_zklogin_address-binds lib iss iss' seed seed' legacy legacy' address h h' e e' =
    let (s, made, back, is) = address_inversion lib iss seed legacy address e in
    let (s', made', back', is') = address_inversion lib iss' seed' legacy' address e' in
    elim (equal_or_not (address_text iss s) (address_text iss' s')) [
      | inl same ↦
          let (p, q) = equal_parts iss iss' s s' h h' same in
          inl (p, returned_injective (sym back ∙ ap copy_to_end q ∙ back'))
      | inr other ↦
          inr
            (s, s', made, made', other, Array_ext _ _ (hex_text_injective _ _ (cc (sym is ∙ is'))))
    ]
