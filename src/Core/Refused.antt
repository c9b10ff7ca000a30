-- ===== src/Core/Refused.antt =====
-- What `seal_decrypt` refuses before it looks at the payload.
use pysui_crypto.Common.{
  ℕ, suc, ◌+◌, ◌<◌, ◌≡◌, refl, ap, ◌∙◌, inl, inr, Bool, true, false, not, ◌||◌, List, [], ◌∷◌, map,
  length, filter, enumerate_from, Option, none, some, Outcome, ok, err, traverse, index,
  index-as_long, invalid_input, ltb, ◌==◌, Bool-cases, arith,
}
use pysui_crypto.Byte.{U8, of_ℕ}
use pysui_crypto.Utils.Laws.{xor_array, xor-ok}
use pysui_crypto.Tss.{contains, all_unique}
use pysui_crypto.Tss.Guards.{AreRefused, combine-interpolate-err}
use pysui_crypto.Dem.{Primitives}
use pysui_crypto.Groups.{Curve}
use pysui_crypto.Ibe.{ObjectId, Block, hash_to_g1, kdf}
use pysui_crypto.Ibe
use pysui_crypto.Core.{
  create_full_id, is_some, expect, EncryptedObject, combine_and_verify_nonce,
  combine_and_check_share_consistency, decrypt_share, combine_shares, seal_decrypt,
}

abbrev positions : {A : Type 0} → (A → Bool) → ℕ → List A → List ℕ
positions {A} keep lo xs =
    map (λ (e : ℕ × A). e.0) (filter (λ (e : ℕ × A). keep e.1) (enumerate_from lo xs))

-- A loop over the positions of the elements that are kept yields an entry for each of them.
traverse_kept :
    {A B : Type 0} (keep : A → Bool) (round : ℕ → Outcome (U8 × B)) (name : A → U8) (lo : ℕ)
    (xs : List A)
    → ((i : ℕ) (x : A)
        → index xs i ≡ ok x
        → keep x ≡ true
        → (b : B) × (round (lo + i) ≡ ok (name x, b)))
    → (entries : List (U8 × B)) × (traverse round (positions keep lo xs) ≡ ok entries)
      × (map (λ (s : U8 × B). s.0) entries ≡ map name (filter keep xs))
unfolding traverse index
traverse_kept keep round name lo [] h = ([], refl, refl)
traverse_kept {A} {B} keep round name lo (x ∷ xs) h =
    let (entries, e, same) = traverse_kept keep round name (suc lo) xs (λ i y at_y k.
      let (b, r) = h (suc i) y at_y k in
      (b, ap round {x = suc lo + i} {y = lo + suc i} (omega arith) ∙ r)) in
    elim (Bool-cases (keep x)) [
      | inl k ↦
          let (b, r) = h 0 x refl k in
          (
            (name x, b) ∷ entries,
            rw (k, ap round {x = lo} {y = lo + 0} (omega arith) ∙ r, e) refl,
            rw k (ap (◌∷◌ (name x)) same),
          )
      | inr k ↦ (entries, rw k e, rw k same)
    ]

length-kept :
    {A : Type 0} (keep : A → Bool) (lo : ℕ) (xs : List A)
    → length (positions keep lo xs) ≡ length (filter keep xs)
length-kept keep lo [] = refl
length-kept keep lo (x ∷ xs) = elim (Bool-cases (keep x)) [
  | inl e ↦ rw e (ap suc (length-kept keep (suc lo) xs))
  | inr e ↦ rw e (length-kept keep (suc lo) xs)
]

passed : (v n m : ℕ) → (not (v == 0) || not (n == m)) ≡ false → (v ≡ 0) × (n ≡ m)
passed v n m h = ground arith

enough : (n m t : ℕ) → ltb n t ≡ false → n ≡ m → ¬ (m < t)
enough n m t h e = ground arith

nothing : {A B : Type 0} (f : A → B) (xs : List A) → map f xs ≡ [] → xs ≡ []
nothing f [] h = refl
nothing f (x ∷ xs) h = cc

module _ (c : Curve) (object : EncryptedObject c) (keys : ObjectId → Option c.g1.Elt) where
  -- The services that there is a user secret key for.
  abbrev pub held : List (ObjectId × U8)
  held = filter (λ (s : ObjectId × U8). is_some (keys s.0)) object.services

  abbrev id : List U8
  id = create_full_id object.package_id object.id

  -- The object is of another version, or has no encrypted share for some service or one too many, or
  -- the keys are fewer than the threshold, or none, or the indices of their services are zero or
  -- occur twice.
  pub data IsRefused : Type 0 where
    other_version : ¬ (object.version ≡ 0) → IsRefused
    other_size :
        ¬ (length object.encrypted_shares.encrypted_shares ≡ length object.services) → IsRefused
    too_few : length held < object.threshold → IsRefused
    none_held : held ≡ [] → IsRefused
    zero_index : contains (of_ℕ 0) (map (λ s. s.1) held) ≡ true → IsRefused
    same_index : all_unique (map (λ s. s.1) held) ≡ false → IsRefused

  some_key : (o : Option c.g1.Elt) → is_some o ≡ true → (k : c.g1.Elt) × (expect o ≡ ok k)
  some_key none h = cc
  some_key (some k) h = (k, refl)

  decrypted :
      (nonce : c.g2.Elt) (ct : Block) (usk : c.g1.Elt) (s : ObjectId × U8)
      → (b : Block) × (Ibe.decrypt c nonce ct usk id s ≡ ok b)
  unfolding Ibe.decrypt
  decrypted nonce ct usk s = (
    xor_array 32 ct (kdf c (c.pairing usk nonce) nonce (hash_to_g1 c id) s),
    xor-ok 32 ct (kdf c (c.pairing usk nonce) nonce (hash_to_g1 c id) s),
  )

  share_at :
      (i : ℕ) (s : ObjectId × U8) (ct : Block) (usk : c.g1.Elt) (b : Block)
      → index object.services i ≡ ok s
      → index object.encrypted_shares.encrypted_shares i ≡ ok ct
      → expect (keys s.0) ≡ ok usk
      → Ibe.decrypt c object.encrypted_shares.nonce ct usk id s ≡ ok b
      → decrypt_share c object keys id i ≡ ok (s.1, b)
  unfolding decrypt_share
  share_at i s ct usk b p q r e = rw (p, q, r, e) refl

  share_of :
      length object.encrypted_shares.encrypted_shares ≡ length object.services
      → (i : ℕ) (s : ObjectId × U8) → index object.services i ≡ ok s
      → is_some (keys s.0) ≡ true
      → (b : Block) × (decrypt_share c object keys id (0 + i) ≡ ok (s.1, b))
  share_of sizes i s e k =
      let (ct, there) =
        index-as_long object.services object.encrypted_shares.encrypted_shares i s e sizes in
      let (usk, found) = some_key (keys s.0) k in
      let (b, made) = decrypted object.encrypted_shares.nonce ct usk s in
      (
        b,
        ap (decrypt_share c object keys id) {x = 0 + i} {y = i} (omega arith)
            ∙ share_at i s ct usk b e there found made,
      )

  combine_shares-err :
      (public_keys : Option (List c.g2.Elt)) (shares : List (U8 × Block))
      → AreRefused shares
      → combine_shares c public_keys object shares id ≡ err invalid_input
  unfolding combine_shares combine_and_verify_nonce combine_and_check_share_consistency
  combine_shares-err none shares h = rw ((combine-interpolate-err 32 shares (omega arith) h).0) refl
  combine_shares-err (some public_keys) shares h =
      rw ((combine-interpolate-err 32 shares (omega arith) h).1) refl

  abbrev bad_object : Bool
  bad_object =
      not (object.version == 0)
      || not (length object.encrypted_shares.encrypted_shares == length object.services)

  abbrev too_few_keys : Bool
  too_few_keys =
      ltb (length (positions (λ (s : ObjectId × U8). is_some (keys s.0)) 0 object.services))
        object.threshold

  module _ (lib : Primitives) (public_keys : Option (List c.g2.Elt)) where
    at_first_guard :
        bad_object ≡ true → seal_decrypt c lib object keys public_keys ≡ err invalid_input
    unfolding seal_decrypt
    at_first_guard e = rw e refl

    at_second_guard :
        bad_object ≡ false
        → too_few_keys ≡ true
        → seal_decrypt c lib object keys public_keys ≡ err invalid_input
    unfolding seal_decrypt
    at_second_guard e f = rw (e, f) refl

    at_shares :
        (shares : List (U8 × Block))
        → bad_object ≡ false
        → too_few_keys ≡ false
        → traverse
            (decrypt_share c object keys id)
            (positions (λ (s : ObjectId × U8). is_some (keys s.0)) 0 object.services)
          ≡ ok shares
        → combine_shares c public_keys object shares id ≡ err invalid_input
        → seal_decrypt c lib object keys public_keys ≡ err invalid_input
    unfolding seal_decrypt
    at_shares shares e f read failed = rw (e, f, read, failed) refl

    refused_shares :
        (shares : List (U8 × Block))
        → map (λ (s : U8 × Block). s.0) shares ≡ map (λ (s : ObjectId × U8). s.1) held
        → bad_object ≡ false
        → too_few_keys ≡ false
        → IsRefused
        → AreRefused shares
    refused_shares shares same e f (other_version h) = absurd (h ((passed object.version _ _ e).0))
    refused_shares shares same e f (other_size h) = absurd (h ((passed object.version _ _ e).1))
    refused_shares shares same e f (too_few h) = absurd (
        enough _ _ object.threshold f
          (length-kept (λ (s : ObjectId × U8). is_some (keys s.0)) 0 object.services) h)
    refused_shares shares same e f (none_held h) =
        inl (nothing _ shares (same ∙ ap (map (λ (s : ObjectId × U8). s.1)) h))
    refused_shares shares same e f (zero_index h) = inr (inl (ap (contains (of_ℕ 0)) same ∙ h))
    refused_shares shares same e f (same_index h) = inr (inr (ap all_unique same ∙ h))

    -- `seal_decrypt` refuses as invalid input, without public keys and with any: an object whose
    -- version is not 0, or whose encrypted shares are not as many as its services; user secret keys
    -- of fewer services than the threshold, or of none; and user secret keys of services one of
    -- which has index zero, or two of which have the same index.
    pub seal_decrypt-IsRefused :
        IsRefused → seal_decrypt c lib object keys public_keys ≡ err invalid_input
    seal_decrypt-IsRefused h = elim (Bool-cases bad_object) [
      | inl e ↦ at_first_guard e
      | inr e ↦ elim (Bool-cases too_few_keys) [
        | inl f ↦ at_second_guard e f
        | inr f ↦
            let (shares, read, same) =
              traverse_kept (λ (s : ObjectId × U8). is_some (keys s.0))
                (decrypt_share c object keys id) (λ (s : ObjectId × U8). s.1) 0 object.services
                (share_of (passed object.version _ _ e).1) in
            at_shares shares e f read
              (combine_shares-err public_keys shares (refused_shares shares same e f h))
      ]
    ]
