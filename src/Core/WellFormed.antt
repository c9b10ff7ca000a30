-- ===== src/Core/WellFormed.antt =====
-- What `seal_encrypt` returns, on every branch.
use pysui_crypto.Common.{
  ℕ, ◌%◌, ◌≤◌, ◌<◌, ◌≡◌, refl, sym, ap, ◌∙◌, ◌⊎◌, inl, inr, true, false, ◌||◌, List, [], ◌∷◌, map,
  length, length-map, ok, err, invalid_input, ltb, ◌==◌, arith,
}
use mathlib.Core.List.{zip, zip_with}
use pysui_crypto.Byte.{U8, of_ℕ}
use pysui_crypto.Utils.{Rng, generate_random_bytes}
use pysui_crypto.Utils.Laws.{xor_array, xor-ok}
use pysui_crypto.Tss.{SecretSharing, contains, all_unique, split}
use pysui_crypto.Tss.Sharing.{split-ok}
use pysui_crypto.Dem.{Key, Primitives, EncryptionInput}
use pysui_crypto.Dem
use pysui_crypto.Groups.{Curve}
use pysui_crypto.Ibe.{ObjectId, encrypt_randomness}
use pysui_crypto.Ibe.Batch.{encrypt_batched_deterministic_some}
use pysui_crypto.Core.{
  encrypted_randomness, dem, create_full_id, EncryptedObject, derive_key, encrypt_shares,
  seal_encrypt,
}
use pysui_crypto.Core.Keys.{equal, derived, derive_key-ok}

-- A well-formed encrypted object: the current version, as many encrypted shares as services, a
-- threshold that they can meet, and indices that are not zero and occur once.
pub record IsWellFormed {c : Curve} (object : EncryptedObject c) : Type 0 where
  pub version : object.version ≡ 0
  pub shared : length object.encrypted_shares.encrypted_shares ≡ length object.services
  pub positive : 0 < object.threshold
  pub enough : object.threshold ≤ length object.services
  pub bounded : length object.services ≤ 255
  pub no_zero : contains (of_ℕ 0) (map (λ s. s.1) object.services) ≡ false
  pub unique : all_unique (map (λ s. s.1) object.services) ≡ true

map-zip :
    {A B : Type 0} (xs : List A) (ys : List B)
    → length xs ≡ length ys
    → (map (λ (t : A × B). t.0) (zip xs ys) ≡ xs) × (map (λ (t : A × B). t.1) (zip xs ys) ≡ ys)
unfolding zip zip_with
map-zip [] [] e = (refl, refl)
map-zip [] (y ∷ ys) e = absurd (omega arith)
map-zip (x ∷ xs) [] e = absurd (omega arith)
map-zip (x ∷ xs) (y ∷ ys) e =
    let (p, q) = map-zip xs ys (omega arith) in (ap (◌∷◌ x) p, ap (◌∷◌ y) q)

-- The conditions that `seal_encrypt` states on its arguments.
abbrev pub IsAccepted : {A B : Type 0} → List A → List B → ℕ → Type 0
IsAccepted key_servers public_keys threshold =
    (0 < threshold) × (threshold ≤ length key_servers) × (length public_keys ≡ length key_servers)

accepted_or_not :
    (n m t : ℕ)
    → (((0 < t) × (t ≤ n)) × (m ≡ n))
      ⊎ ((((0 < t) × (t ≤ n)) × ¬ (m ≡ n)) ⊎ (¬ ((0 < t) × (t ≤ n))))
accepted_or_not n m t = ground arith

-- An encrypted object and its key, made of the arguments: well-formed, with the ids and the
-- threshold, and the input encrypted under the key that is derived from the base key.
pub record IsMade (c : Curve) (lib : Primitives) (base_key : Key) (pkg : ObjectId) (id : List U8)
    (servers : List ObjectId) (threshold : ℕ) (input : EncryptionInput) (object : EncryptedObject c)
    (key : Key) : Type 0 where
  pub well_formed : IsWellFormed object
  pub same_threshold : object.threshold ≡ threshold
  pub same_ids : map (λ (s : ObjectId × U8). s.0) object.services ≡ servers
  pub derived :
      derive_key c dem base_key object.encrypted_shares.encrypted_shares threshold servers ≡ ok key
  pub encrypted : object.ciphertext ≡ Dem.encrypt lib input key
  pub same_package : object.package_id ≡ pkg
  pub same_id : object.id ≡ id

module _ (c : Curve) (lib : Primitives) (g : Rng) (rand : g.State → c.Scalar × g.State)
    (st : g.State) (package_id : ObjectId) (id : List U8) (key_servers : List ObjectId)
    (public_keys : List c.g2.Elt) (threshold : ℕ) (input : EncryptionInput)
    (fits : length key_servers ≤ 255) where
  -- A success with a well-formed object for the servers.
  abbrev pub Succeeds : Type 0
  Succeeds =
      (object : EncryptedObject c) × (dem_key : Key) × (st' : g.State) × (seal_encrypt c lib g rand
          st package_id id key_servers public_keys threshold input
        ≡ ok (object, dem_key, st'))
      × IsMade c lib (generate_random_bytes g 32 st).0 package_id id key_servers threshold input
          object dem_key

  small : (k : ℕ) → k ≤ 255 → k % 256 ≡ k
  small k h = omega arith

  passes : (k m : ℕ) → m ≤ k → 0 < m → (ltb k m || m == 0) ≡ false
  passes k m h pos = ground arith

  differ : (k m : ℕ) → ¬ (k ≡ m) → (k == m) ≡ false
  differ k m h = ground arith

  refused : (k m : ℕ) → ¬ ((0 < m) × (m ≤ k)) → (ltb k m || m == 0) ≡ true
  refused k m h = ground arith

  abbrev base : Key × g.State
  base = generate_random_bytes g 32 st

  bad_threshold :
      ¬ ((0 < threshold) × (threshold ≤ length key_servers))
      → seal_encrypt c lib g rand st package_id id key_servers public_keys threshold input
        ≡ err invalid_input
  unfolding seal_encrypt
  bad_threshold h =
      rw (small (length key_servers) fits, refused (length key_servers) threshold h) refl

  module _ (positive : 0 < threshold) (enough : threshold ≤ length key_servers)
      (sharing : SecretSharing 32) (st2 : g.State)
      (e : split g 32 base.1 base.0 threshold (length key_servers) ≡ ok (sharing, st2)) where
    bad_public_keys :
        ¬ (length public_keys ≡ length key_servers)
        → seal_encrypt c lib g rand st package_id id key_servers public_keys threshold input
          ≡ err invalid_input
    unfolding seal_encrypt encrypt_shares
    bad_public_keys h =
        rw
          (
            small (length key_servers) fits,
            passes (length key_servers) threshold enough positive,
            e,
            differ (length public_keys) (length key_servers) h,
          )
          refl

    succeeds :
        length public_keys ≡ length key_servers
        → length sharing.shares ≡ length key_servers
        → length sharing.indices ≡ length key_servers
        → contains (of_ℕ 0) sharing.indices ≡ false
        → all_unique sharing.indices ≡ true
        → Succeeds
    unfolding seal_encrypt encrypt_shares encrypt_randomness
    succeeds same p q no_zero unique =
        let services = zip key_servers sharing.indices in
        let projections = map-zip key_servers sharing.indices (sym q) in
        let wide : length services ≡ length key_servers =
          sym (length-map (λ (t : ObjectId × U8). t.0) services) ∙ ap length projections.0 in
        let (cts, made, size) =
          encrypt_batched_deterministic_some c (rand st2).0 sharing.shares public_keys
            (create_full_id package_id id) services (p ∙ sym same) (p ∙ sym wide) in
        let randomness_key = derived c encrypted_randomness base.0 cts threshold key_servers in
        let dem_key = derived c dem base.0 cts threshold key_servers in
        (
          record {
            version = 0;
            package_id = package_id;
            id = id;
            services = services;
            threshold = threshold;
            encrypted_shares = record {
              nonce = c.g2.mul c.g2.generator (rand st2).0;
              encrypted_shares = cts;
              encrypted_randomness = xor_array 32 randomness_key (c.scalar_bytes (rand st2).0);
            };
            ciphertext = Dem.encrypt lib input dem_key;
          },
          dem_key,
          (rand st2).1,
          rw
              (
                small (length key_servers) fits,
                passes (length key_servers) threshold enough positive,
                e,
                equal (length public_keys) (length key_servers) same,
                made,
                derive_key-ok c encrypted_randomness base.0 cts threshold key_servers (size ∙ p),
                xor-ok 32 randomness_key (c.scalar_bytes (rand st2).0),
                derive_key-ok c dem base.0 cts threshold key_servers (size ∙ p),
              )
              refl,
          record {
            well_formed = record {
              version = refl;
              shared = size ∙ p ∙ sym wide;
              positive = positive;
              enough = omega (arith, wide);
              bounded = omega (arith, wide);
              no_zero = ap (contains (of_ℕ 0)) projections.1 ∙ no_zero;
              unique = ap all_unique projections.1 ∙ unique;
            };
            same_threshold = refl;
            same_ids = projections.0;
            derived = derive_key-ok c dem base.0 cts threshold key_servers (size ∙ p);
            encrypted = refl;
            same_package = refl;
            same_id = refl;
          },
        )

  made :
      0 < threshold
      → threshold ≤ length key_servers
      → (sharing : SecretSharing 32) × (st2 : g.State) × (split g 32 base.1 base.0 threshold
            (length key_servers)
          ≡ ok (sharing, st2))
        × (length sharing.shares ≡ length key_servers)
        × (length sharing.indices ≡ length key_servers)
        × (contains (of_ℕ 0) sharing.indices ≡ false)
        × (all_unique sharing.indices ≡ true)
  made positive enough =
      let (sharing, st2, e, _, p, q, no_zero, unique) =
        split-ok g threshold (length key_servers) 32 base.1 base.0 positive enough fits
          (omega arith) in
      (sharing, st2, e, p, q, no_zero, unique)

  -- For up to 255 key servers, `seal_encrypt` accepts the arguments exactly where the threshold is
  -- positive, at most the number of servers, and there is a public key for each server: it then
  -- returns a well-formed object with the package id, the id, the threshold and the servers given,
  -- whose ciphertext is the encryption of the input under the key derived from the base key.
  -- Otherwise it refuses the arguments as invalid input.
  pub seal_encrypt_lem :
      (IsAccepted key_servers public_keys threshold × Succeeds)
      ⊎ (¬ (IsAccepted key_servers public_keys threshold)
          × (seal_encrypt c lib g rand st package_id id key_servers public_keys threshold input
              ≡ err invalid_input))
  seal_encrypt_lem = elim (accepted_or_not (length key_servers) (length public_keys) threshold) [
    | inl ((positive, enough), same) ↦
        let (sharing, st2, e, p, q, no_zero, unique) = made positive enough in
        inl
          ((positive, enough, same), succeeds positive enough sharing st2 e same p q no_zero unique)
    | inr (inl ((positive, enough), other)) ↦
        let (sharing, st2, e, _, _, _, _) = made positive enough in
        inr ((λ a. other a.2), bad_public_keys positive enough sharing st2 e other)
    | inr (inr low) ↦ inr ((λ a. low (a.0, a.1)), bad_threshold low)
  ]
