-- ===== src/Bindings/Shown.antt =====
-- What Python reads from an encrypted object.
use pysui_crypto.Common.{
  ℕ, ◌≡◌, refl, sym, ap, ap₂, subst, ◌∙◌, inl, inr, true, not, List, [], ◌∷◌, map, length, Option,
  some, if◌then◌else◌, ◌==◌, Bool-cases, arith,
}
use mathlib.Core.List.{map-map}
use pysui_crypto.Python.{
  value_error, returned, raised, ok_or, collect, ok_or-eq-returned, >>=-eq-returned,
  returned_injective,
}
use pysui_crypto.Byte.{U8}
use pysui_crypto.Utils.{Rng}
use pysui_crypto.Dem.{Primitives, EncryptionInput, Ciphertext, hmac_encrypt}
use pysui_crypto.Dem
use pysui_crypto.Groups.{Curve}
use pysui_crypto.Ibe.{ObjectId}
use pysui_crypto.Core.{EncryptedObject}
use pysui_crypto.Bindings.{
  DemType, encryption_input, Bcs, parse_object_id, dem_type, version, id, threshold, package_id,
  services, parse, to_bytes, seal_encrypt,
}
use pysui_crypto.Bindings.Exposed.{seal_encrypt-IsSealed}

module _ (c : Curve) (bcs : Bcs c)
    (restores_id : (o : ObjectId) → bcs.object_id_from_bytes o.items ≡ some o) where
  -- The bytes that an object id is read from are its bytes.
  parsed_items :
      (bytes : List U8) (o : ObjectId) → parse_object_id c bcs bytes ≡ returned o → o.items ≡ bytes
  unfolding parse_object_id
  parsed_items bytes o h = elim (Bool-cases (length bytes == 32)) [
    | inl e ↦
        let size = exact (length bytes) e in
        let read = ok_or-eq-returned value_error (bcs.object_id_from_bytes bytes) o (
          subst
            (λ b.
              (if not b
                then raised value_error
                else ok_or value_error (bcs.object_id_from_bytes bytes))
              ≡ returned o)
            e h) in
        ap (λ (o : ObjectId). o.items)
          (some_injective (sym read ∙ restores_id (record { items = bytes; size = size })))
    | inr e ↦ absurd (
        refused (
          subst
            (λ b.
              (if not b
                then raised value_error
                else ok_or value_error (bcs.object_id_from_bytes bytes))
              ≡ returned o)
            e h))
  ]
    where
      exact : (n : ℕ) → (n == 32) ≡ true → n ≡ 32
      exact n e = ground arith

      some_injective : {a b : ObjectId} → some a ≡ some b → a ≡ b
      some_injective e = cc

      refused : raised value_error ≡ returned o → ⊥
      refused e = cc

  collected_items :
      (bytes : List (List U8)) (os : List ObjectId)
      → collect (parse_object_id c bcs) bytes ≡ returned os
      → map (λ (o : ObjectId). o.items) os ≡ bytes
  unfolding collect
  collected_items [] os h = ap (map (λ (o : ObjectId). o.items)) (sym (returned_injective h))
  collected_items (b ∷ bytes) os h =
      let (o, here, h1) = >>=-eq-returned (parse_object_id c bcs b) _ os h in
      let (rest, there, h2) = >>=-eq-returned (collect (parse_object_id c bcs) bytes) _ os h1 in
      ap (map (λ (o : ObjectId). o.items)) (sym (returned_injective h2))
      ∙ ap₂ ◌∷◌ (parsed_items b o here) (collected_items bytes rest there)

  dem_type-encrypt :
      (lib : Primitives) (object : EncryptedObject c) (mode : DemType) (text : List U8)
      (aad : Option (List U8)) (key : Dem.Key)
      → object.ciphertext ≡ Dem.encrypt lib (encryption_input mode text aad) key
      → dem_type c object ≡ mode
  unfolding dem_type Dem.encrypt
  dem_type-encrypt lib object DemType.aes_gcm256 text aad key e = rw e refl
  dem_type-encrypt lib object DemType.hmac256_ctr text aad key e = rw e refl
  dem_type-encrypt lib object DemType.plain text aad key e = rw e refl

  -- Where the BCS forms of object ids and of encrypted objects are read back as what they are of:
  -- the bytes that `seal_encrypt` returned are parsed to a `PyEncryptedObject` whose getters show
  -- version 0, the package id, the id, the threshold, the key servers and the mode that
  -- `seal_encrypt` was given, and that is serialized to the same bytes.
  pub parse-seal_encrypt :
      ((o : EncryptedObject c) (bytes : List U8)
        → bcs.object_to_bytes o ≡ some bytes
        → bcs.object_from_bytes bytes ≡ some o)
      → (lib : Primitives) (g : Rng) (rand : g.State → c.Scalar × g.State) (st st' : g.State)
        (package_bytes name : List U8) (key_servers public_keys : List (List U8)) (t : ℕ)
        (text : List U8) (mode : DemType) (aad : Option (List U8)) (bytes : List U8)
        (exposed : Option (List U8))
      → seal_encrypt c bcs lib g rand st package_bytes name key_servers public_keys t text mode aad
        ≡ returned ((bytes, exposed), st')
      → (object : EncryptedObject c) × (parse c bcs bytes ≡ returned object)
        × (version c object ≡ 0)
        × (package_id c object ≡ package_bytes)
        × (id c object ≡ name)
        × (threshold c object ≡ t)
        × (map (λ (s : List U8 × U8). s.0) (services c object) ≡ key_servers)
        × (dem_type c object ≡ mode)
        × (to_bytes c bcs object ≡ returned bytes)
  unfolding parse version package_id id threshold services to_bytes
  parse-seal_encrypt decodes lib g rand st st' package_bytes name key_servers public_keys t text
        mode aad bytes exposed h =
      let x =
        seal_encrypt-IsSealed c bcs lib g rand st st' package_bytes name key_servers public_keys t
          text mode aad bytes exposed h in
      (
        x.object,
        ap (ok_or value_error) (decodes x.object bytes x.made),
        x.well_formed.version,
        parsed_items package_bytes x.object.package_id x.same_package,
        x.same_id,
        x.same_threshold,
        map-map (λ (s : List U8 × U8). s.0) (λ (s : ObjectId × U8). (s.0.items, s.1))
              x.object.services
            ∙ sym
                (map-map (λ (o : ObjectId). o.items) (λ (s : ObjectId × U8). s.0) x.object.services)
            ∙ collected_items key_servers (map (λ (s : ObjectId × U8). s.0) x.object.services)
                x.same_servers,
        dem_type-encrypt lib x.object mode text aad x.dem_key x.encrypted,
        ap (ok_or value_error) x.made,
      )
