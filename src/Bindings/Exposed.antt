-- ===== src/Bindings/Exposed.antt =====
-- What `seal_encrypt` of the bindings returns to Python.
use pysui_crypto.Common.{
  ℕ, suc, ◌≤◌, ◌≡◌, refl, sym, ap, subst, ◌∙◌, ◌⊎◌, inl, inr, false, List, [], ◌∷◌, map, length,
  length-map, Option, none, some, if◌then◌else◌, ltb, ok, err, ok_injective, invalid_input, arith,
  Bool-cases,
}
use pysui_crypto.Python.{
  value_error, runtime_error, PyResult, returned, raised, map_err, ok_or, collect,
  ok_or-eq-returned, map_err-eq-returned, >>=-eq-returned, returned_injective,
}
use pysui_crypto.Byte.{U8}
use pysui_crypto.Utils.{Rng, generate_random_bytes}
use pysui_crypto.Dem.{Key, Primitives, EncryptionInput}
use pysui_crypto.Dem
use pysui_crypto.Groups.{Curve}
use pysui_crypto.Ibe.{ObjectId}
use pysui_crypto.Core.{dem, EncryptedObject, derive_key}
use pysui_crypto.Core
use pysui_crypto.Core.WellFormed.{IsWellFormed, IsMade, seal_encrypt_lem}
use pysui_crypto.Bindings.{
  DemType, dem_type_eq, encryption_input, Bcs, parse_object_id, parse_g2, seal_encrypt,
}

length-collect {ℓ κ} :
    {A : Type ℓ} {B : Type κ} (f : A → PyResult B) (xs : List A) (ys : List B)
    → collect f xs ≡ returned ys
    → length ys ≡ length xs
unfolding collect
length-collect f [] ys e = ap length (sym (returned_injective e))
length-collect f (x ∷ xs) ys e =
    let (y, _, e1) = >>=-eq-returned (f x) _ ys e in
    let (zs, there, e2) = >>=-eq-returned (collect f xs) _ ys e1 in
    ap length (sym (returned_injective e2)) ∙ ap suc (length-collect f xs zs there)

-- The bytes that `seal_encrypt` returned are of a well-formed object, and the key beside them is
-- the derived key in plain mode, and else no key.
pub record IsSealed (c : Curve) (bcs : Bcs c) (lib : Primitives) (base_key : Key)
    (package_id id : List U8) (key_servers : List (List U8)) (threshold : ℕ) (text : List U8)
    (mode : DemType) (aad : Option (List U8)) (bytes : List U8) (exposed : Option (List U8))
    : Type 0 where
  pub few : length key_servers ≤ 255
  pub object : EncryptedObject c
  pub made : bcs.object_to_bytes object ≡ some bytes
  pub well_formed : IsWellFormed object
  pub same_threshold : object.threshold ≡ threshold
  pub same_package : parse_object_id c bcs package_id ≡ returned object.package_id
  pub same_id : object.id ≡ id
  pub same_servers :
      collect (parse_object_id c bcs) key_servers
      ≡ returned (map (λ (s : ObjectId × U8). s.0) object.services)
  pub same_count : length object.services ≡ length key_servers
  pub dem_key : Key
  pub derived :
      derive_key c dem base_key object.encrypted_shares.encrypted_shares threshold
        (map (λ (s : ObjectId × U8). s.0) object.services)
      ≡ ok dem_key
  pub encrypted : object.ciphertext ≡ Dem.encrypt lib (encryption_input mode text aad) dem_key
  pub exposed_or_not :
      ((mode ≡ DemType.plain) × (exposed ≡ some dem_key.items))
      ⊎ (¬ (mode ≡ DemType.plain) × (exposed ≡ none))

exposed_cases :
    (mode : DemType) (key : List U8) (exposed : Option (List U8))
    → (if dem_type_eq mode DemType.plain then some key else none) ≡ exposed
    → ((mode ≡ DemType.plain) × (exposed ≡ some key))
      ⊎ (¬ (mode ≡ DemType.plain) × (exposed ≡ none))
unfolding dem_type_eq
exposed_cases DemType.plain key exposed e = inl (refl, sym e)
exposed_cases DemType.aes_gcm256 key exposed e = inr ((λ h. cc h), sym e)
exposed_cases DemType.hmac256_ctr key exposed e = inr ((λ h. cc h), sym e)

guarded {ℓ} :
    {A : Type ℓ} (n : ℕ) (m : PyResult A) (a : A)
    → (if ltb 255 n then raised value_error else m) ≡ returned a
    → (n ≤ 255) × (m ≡ returned a)
guarded n m a h = elim (Bool-cases (ltb 255 n)) [
  | inl e ↦ absurd (refused (subst (λ t. (if t then raised value_error else m) ≡ returned a) e h))
  | inr e ↦ (within n e, subst (λ t. (if t then raised value_error else m) ≡ returned a) e h)
]
  where
    refused : raised value_error ≡ returned a → ⊥
    refused h = cc

    within : (n : ℕ) → ltb 255 n ≡ false → n ≤ 255
    within n e = ground arith

module _ (c : Curve) (bcs : Bcs c) (lib : Primitives) (g : Rng)
    (rand : g.State → c.Scalar × g.State) where
  -- What `seal_encrypt` returns to Python, it returns for at most 255 key servers, and is the BCS
  -- form of a well-formed object with the threshold given and as many services as key servers. Its
  -- ciphertext is the encryption of the text in the mode given, under the key that `derive_key`
  -- derives from the first 32 random bytes drawn. That key is returned in plain mode only.
  pub seal_encrypt-IsSealed :
      (st st' : g.State) (package_id id : List U8) (key_servers public_keys : List (List U8))
      (threshold : ℕ) (text : List U8) (mode : DemType) (aad : Option (List U8)) (bytes : List U8)
      (exposed : Option (List U8))
      → seal_encrypt c bcs lib g rand st package_id id key_servers public_keys threshold text mode
          aad
        ≡ returned ((bytes, exposed), st')
      → IsSealed c bcs lib
          (generate_random_bytes g 32 st).0
          package_id
          id
          key_servers
          threshold
          text
          mode
          aad
          bytes
          exposed
  unfolding seal_encrypt
  seal_encrypt-IsSealed st st' package_id id key_servers public_keys threshold text mode aad bytes
        exposed h =
      let (few, h0) = guarded (length key_servers) _ _ h in
      let (pkg_id, read_package, h1) = >>=-eq-returned (parse_object_id c bcs package_id) _ _ h0 in
      let (servers, read, h2) =
        >>=-eq-returned (collect (parse_object_id c bcs) key_servers) _ _ h1 in
      let (pks, _, h3) = >>=-eq-returned (collect (parse_g2 c bcs) public_keys) _ _ h2 in
      let (made, core, h4) =
        >>=-eq-returned
          (map_err runtime_error (
            Core.seal_encrypt c lib g rand st pkg_id id servers pks threshold
              (encryption_input mode text aad)))
          _ _ h3 in
      let (eo_bytes, encoded, h5) =
        >>=-eq-returned (ok_or runtime_error (bcs.object_to_bytes made.0)) _ _ h4 in
      let size = length-collect (parse_object_id c bcs) key_servers servers read in
      let result = returned_injective h5 in
      let facts =
        well st pkg_id id servers pks threshold (encryption_input mode text aad) made
          (omega (arith, few, size)) (map_err-eq-returned runtime_error _ made core) in
      record {
        few = few;
        object = made.0;
        made =
            ok_or-eq-returned runtime_error (bcs.object_to_bytes made.0) eo_bytes encoded
            ∙ ap (λ (r : (List U8 × Option (List U8)) × g.State). some r.0.0) result;
        well_formed = facts.well_formed;
        same_threshold = facts.same_threshold;
        same_package = read_package ∙ ap returned (sym facts.same_package);
        same_id = facts.same_id;
        same_servers = read ∙ ap returned (sym facts.same_ids);
        same_count =
            sym (length-map (λ (s : ObjectId × U8). s.0) (made.0).services)
            ∙ ap length facts.same_ids
            ∙ size;
        dem_key = made.1;
        derived =
            ap
              (derive_key c dem (generate_random_bytes g 32 st).0
                (made.0).encrypted_shares.encrypted_shares threshold)
              facts.same_ids
            ∙ facts.derived;
        encrypted = facts.encrypted;
        exposed_or_not =
            exposed_cases mode (made.1).items exposed
              (ap (λ (r : (List U8 × Option (List U8)) × g.State). r.0.1) result);
      }
    where
      differ : (made : EncryptedObject c × Key × g.State) → err invalid_input ≡ ok made → ⊥
      differ made h = cc

      well :
          (st : g.State) (pkg : ObjectId) (id : List U8) (servers : List ObjectId)
          (pks : List c.g2.Elt) (threshold : ℕ) (input : EncryptionInput)
          (made : EncryptedObject c × Key × g.State)
          → length servers ≤ 255
          → Core.seal_encrypt c lib g rand st pkg id servers pks threshold input ≡ ok made
          → IsMade c lib
              (generate_random_bytes g 32 st).0
              pkg
              id
              servers
              threshold
              input
              made.0
              made.1
      well st pkg id servers pks threshold input made few e =
          elim (seal_encrypt_lem c lib g rand st pkg id servers pks threshold input few) [
            | inl (accepted, (object, key, st', e', facts)) ↦
                subst
                  (λ (t : EncryptedObject c × Key × g.State).
                    IsMade c lib (generate_random_bytes g 32 st).0 pkg id servers threshold input
                      t.0 t.1)
                  (ok_injective (sym e' ∙ e)) facts
            | inr (refused, e') ↦ absurd (differ made (sym e' ∙ e))
          ]
