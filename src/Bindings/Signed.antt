-- ===== src/Bindings/Signed.antt =====
-- The message that a user signs names one session key.
use pysui_crypto.Common.{
  ℕ, ◌/◌, ◌≡◌, refl, sym, ap, ◌∙◌, Bool, true, false, ◌||◌, List, [], ◌∷◌, ◌++◌, Option, none, some,
}
use pysui_crypto.Python.{value_error, returned, ok_or, >>=-eq-returned, returned_injective}
use pysui_crypto.Byte.{U8, of_ℕ, eq}
use pysui_crypto.Byte.Numbers.{eq_self}
use pysui_crypto.Dem.{bytes_of}
use pysui_crypto.Bindings.Message.{
  comma, contains_byte, validate_package_id, decimal, Texts, message, seal_signed_message,
}
use pysui_crypto.Bindings.Commas.{Free, Free-append, decimal-Free, validate_package_id_lem}

comma_here : (x : U8) (xs : List U8) → Free (x ∷ xs) → comma ≡ x → ⊥
unfolding contains_byte
comma_here x xs h e = clash _ _ (ap (λ b. eq b comma) (sym e) ∙ eq_self comma) h
  where
    clash : (a b : Bool) → a ≡ true → (a || b) ≡ false → ⊥
    clash true b e h = cc
    clash false b e h = cc

Free-tail : (x : U8) (xs : List U8) → Free (x ∷ xs) → Free xs
unfolding contains_byte
Free-tail x xs h = other _ _ h
  where
    other : (a b : Bool) → (a || b) ≡ false → b ≡ false
    other true b h = cc
    other false b h = h

-- The first comma of a text tells what is behind it.
first_comma :
    (xs ys r s : List U8) → Free xs → Free ys → xs ++ (comma ∷ r) ≡ ys ++ (comma ∷ s) → r ≡ s
first_comma [] [] r s h k e = tail_eq e
  where
    tail_eq : comma ∷ r ≡ comma ∷ s → r ≡ s
    tail_eq e = cc
first_comma [] (y ∷ ys) r s h k e = absurd (comma_here y ys k cc)
first_comma (x ∷ xs) [] r s h k e = absurd (comma_here x xs h cc)
first_comma (x ∷ xs) (y ∷ ys) r s h k e =
    first_comma xs ys r s (Free-tail x xs h) (Free-tail y ys k) cc

append_cancel : (xs r s : List U8) → xs ++ r ≡ xs ++ s → r ≡ s
append_cancel [] r s e = e
append_cancel (x ∷ xs) r s e = append_cancel xs r s cc

module _ (texts : Texts)
    (dates : (t : texts.DateTime) → contains_byte comma (texts.date_text t) ≡ false) where
  -- The part of the message before its comma.
  before : List U8 → ℕ → texts.DateTime → List U8
  before package_id ttl_min ts =
      bytes_of "Accessing keys of package "
      ++ (package_id
          ++ (bytes_of " for "
              ++ (decimal 4 ttl_min ++ (bytes_of " mins from " ++ texts.date_text ts))))

  before-Free : (p : List U8) (n : ℕ) (t : texts.DateTime) → Free p → Free (before p n t)
  unfolding before
  before-Free p n t h =
      Free-append (bytes_of "Accessing keys of package ") _ (unfold contains_byte eq of_ℕ in refl) (
        Free-append p _ h (
          Free-append (bytes_of " for ") _ (unfold contains_byte eq of_ℕ in refl) (
            Free-append (decimal 4 n) _ (decimal-Free 4 n) (
              Free-append (bytes_of " mins from ") _ (unfold contains_byte eq of_ℕ in refl)
                (dates t)))))

  message_key :
      (p p' : List U8) (n n' : ℕ) (t t' : texts.DateTime) (k k' : texts.PublicKey)
      → Free p
      → Free p'
      → message texts p n t k ≡ message texts p' n' t' k'
      → texts.public_key_text k ≡ texts.public_key_text k'
  unfolding message before
  message_key p p' n n' t t' k k' h h' e = append_cancel (bytes_of " session key ") _ _ (
      first_comma (before p n t) (before p' n' t') _ _ (before-Free p n t h)
        (before-Free p' n' t' h') e)

  -- The message binds the session key. Where the text of a date has no comma and the text of a
  -- public key determines the key, two calls that return the same message were given bytes of the
  -- same public key, whatever the package ids, dates and lifetimes are.
  pub seal_signed_message-binds_key :
      ((k k' : texts.PublicKey) → texts.public_key_text k ≡ texts.public_key_text k' → k ≡ k')
      → (p p' vk vk' : List U8) (created created' ttl ttl' : ℕ) (m : List U8)
      → seal_signed_message texts p vk created ttl ≡ returned m
      → seal_signed_message texts p' vk' created' ttl' ≡ returned m
      → texts.public_key_from_bytes vk ≡ texts.public_key_from_bytes vk'
  seal_signed_message-binds_key injective p p' vk vk' created created' ttl ttl' m h h' =
      let (free, k, t, e, made) = parts p vk created ttl h in
      let (free', k', t', e', made') = parts p' vk' created' ttl' h' in
      e
      ∙ ap some (injective k k' (message_key p p' ttl ttl' t t' k k' free free' (made ∙ sym made')))
      ∙ sym e'
    where
      ok_or-eq-some :
          {A : Type 0} (o : Option A) (a : A) → ok_or value_error o ≡ returned a → o ≡ some a
      ok_or-eq-some none a h = cc
      ok_or-eq-some (some b) a h = ap some (returned_injective h)

      parts :
          (p vk : List U8) (created ttl : ℕ)
          → seal_signed_message texts p vk created ttl ≡ returned m
          → Free p
            × (k : texts.PublicKey) × (t : texts.DateTime) × (texts.public_key_from_bytes vk
                ≡ some k)
            × (message texts p ttl t k ≡ m)
      parts p vk created ttl h =
          unfold seal_signed_message in
          let (_, valid, h1) = >>=-eq-returned (validate_package_id p) _ m h in
          let (k, key, h2) =
            >>=-eq-returned (ok_or value_error (texts.public_key_from_bytes vk)) _ m h1 in
          let (t, _, h3) =
            >>=-eq-returned (ok_or value_error (texts.from_timestamp (created / 1000))) _ m h2 in
          ((validate_package_id_lem p valid).0, k, t, ok_or-eq-some _ k key, returned_injective h3)
