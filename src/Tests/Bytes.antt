-- ===== src/Tests/Bytes.antt =====
-- The bindings at concrete arguments.
use pysui_crypto.Common.{
  ℕ, suc, ◌≡◌, inl, inr, refl, sym, ap, subst, ◌∙◌, List, [], ◌∷◌, map, length, filter, All, Option,
  none, some, arith,
}
use mathlib.Core.List.{append-nil}
use pysui_crypto.Python.{returned, collect}
use pysui_crypto.Byte.{U8, of_ℕ, eq}
use pysui_crypto.Gf256.{Gf256, from_u8}
use pysui_crypto.Dem.{bytes_eq}
use pysui_crypto.Ibe.{ObjectId, public_key_from_master_key, extract}
use pysui_crypto.Core.{is_some, create_full_id, EncryptedObject}
use pysui_crypto.Core.Sealed.{Server, IsExtracted}
use pysui_crypto.Bindings.{
  DemType, collect_map, Bcs, parse_object_id, parse_g1, parse_g2, parse_user_secret_key,
  generate_elgamal_keypair, seal_encrypt,
}
use pysui_crypto.Bindings.RoundTrip.{RoundTrips, seal_decrypt-seal_encrypt_bytes}
use pysui_crypto.Utils.{generate_random_bytes}
use pysui_crypto.Elgamal
use pysui_crypto.Bindings.KeyRequest.{IsAnswered, verify_user_secret_key-elgamal_decrypt}
use pysui_crypto.Bindings
use pysui_crypto.Bindings.{version, id, threshold, services, dem_type, parse, to_bytes}
use pysui_crypto.Bindings.Shown.{parse-seal_encrypt}
use pysui_crypto.Bindings.Exposed.{IsSealed, seal_encrypt-IsSealed}
use pysui_crypto.Tests.Toy.{filled, counter, primitives, group, curve, curve_laws}
use pysui_crypto.Tests.Codec.{then_some, object, block_bytes, block_bytes-items}

abbrev pub draw : ℕ → Gf256 × ℕ
draw n = (from_u8 (of_ℕ n), suc n)

abbrev pub package_id : ObjectId
package_id = filled 32 (λ k. of_ℕ 7)

abbrev pub name : List U8
name = of_ℕ 1 ∷ of_ℕ 2 ∷ []

abbrev pub text : List U8
text = map of_ℕ (72 ∷ 101 ∷ 108 ∷ 108 ∷ 111 ∷ [])

abbrev pub servers : List (Server curve)
servers = (filled 32 of_ℕ, from_u8 (of_ℕ 11)) ∷ (filled 32 (λ k. of_ℕ 42), from_u8 (of_ℕ 12)) ∷ []

abbrev element_from_bytes : List U8 → Option Gf256
element_from_bytes [] = none
element_from_bytes (b ∷ bs) = some (from_u8 b)

abbrev two_elements : List U8 → Option (Gf256 × Gf256)
two_elements (a ∷ b ∷ []) = some (from_u8 a, from_u8 b)
two_elements _ = none

abbrev pub bcs : Bcs curve
bcs = record {
  object_to_bytes = λ o. some (object.enc o);
  object_from_bytes = λ bs. then_some (object.dec bs) (λ r. some r.0);
  object_id_from_bytes = block_bytes;
  g1_to_bytes = λ (a : Gf256). some (a.byte ∷ []);
  g1_from_bytes = element_from_bytes;
  g2_to_bytes = λ (a : Gf256). some (a.byte ∷ []);
  g2_from_bytes = element_from_bytes;
  scalar_to_bytes = λ (a : Gf256). some (a.byte ∷ []);
  scalar_from_bytes = element_from_bytes;
  encryption_from_bytes = two_elements;
}

pub decoded :
    (o : EncryptedObject curve) (bs : List U8)
    → bcs.object_to_bytes o ≡ some bs
    → bcs.object_from_bytes bs ≡ some o
decoded o bs e =
    subst (λ bs. bcs.object_from_bytes bs ≡ some o) (some_eq e)
      (ap (λ l. then_some (object.dec l) (λ (r : EncryptedObject curve × List U8). some r.0))
          (sym (append-nil (object.enc o)))
        ∙ ap (λ r. then_some r (λ (r : EncryptedObject curve × List U8). some r.0))
            (object.undo o []))
  where
    some_eq : {a b : List U8} → some a ≡ some b → a ≡ b
    some_eq h = cc

-- The key of the first server.
abbrev pub usk : Gf256
usk = extract curve (from_u8 (of_ℕ 11)) (create_full_id package_id name)

abbrev pub keys : List (ObjectId × Gf256)
keys = (filled 32 of_ℕ, usk) ∷ []

abbrev pub user_secret_keys : List (List U8 × List U8)
user_secret_keys = ((filled 32 of_ℕ).items, usk.byte ∷ []) ∷ []

abbrev pub public_keys : List (List U8)
public_keys = map (λ (s : Server curve). (public_key_from_master_key curve s.1).byte ∷ []) servers

held : All (IsExtracted curve (collect_map keys) (create_full_id package_id name)) servers
unfolding collect_map bytes_eq eq of_ℕ
held = (inr refl, (inl refl, tt))

pub one_key :
    length (filter (λ i. is_some (collect_map keys i)) (map (λ (s : Server curve). s.0) servers))
    ≡ 1
unfolding collect_map bytes_eq eq of_ℕ
one_key = refl

pub read_public :
    collect (parse_g2 curve bcs) public_keys
    ≡ returned (map (λ (s : Server curve). public_key_from_master_key curve s.1) servers)
unfolding collect parse_g2
read_public = refl

pub read_keys : collect (parse_user_secret_key curve bcs) user_secret_keys ≡ returned keys
unfolding collect parse_user_secret_key parse_object_id parse_g1
read_keys = rw (block_bytes-items (filled 32 of_ℕ)) refl

seal_decrypt-seal_encrypt_bytes_example :
    RoundTrips curve bcs block_bytes-items primitives counter draw curve_laws
      (λ key aad msg. refl)
      decoded
      package_id
      name
      servers
      public_keys
      user_secret_keys
      keys
      1
      text
      DemType.hmac256_ctr
      none
      5
seal_decrypt-seal_encrypt_bytes_example =
    seal_decrypt-seal_encrypt_bytes curve bcs block_bytes-items primitives counter draw curve_laws
      (λ key aad msg. refl) decoded package_id name servers public_keys user_secret_keys keys 1 text
      DemType.hmac256_ctr none 5 (omega arith) (omega arith) held (omega (arith, one_key))
      read_public read_keys

abbrev key_servers : List (List U8)
key_servers = map (λ (o : ObjectId). o.items) (map (λ (s : Server curve). s.0) servers)

returned_run :
    RoundTrips curve bcs block_bytes-items primitives counter draw curve_laws
      (λ key aad msg. refl)
      decoded
      package_id
      name
      servers
      public_keys
      user_secret_keys
      keys
      1
      text
      DemType.hmac256_ctr
      none
      5
returned_run =
    seal_decrypt-seal_encrypt_bytes curve bcs block_bytes-items primitives counter draw curve_laws
      (λ key aad msg. refl) decoded package_id name servers public_keys user_secret_keys keys 1 text
      DemType.hmac256_ctr none 5 (omega arith) (omega arith) held (omega (arith, one_key))
      read_public read_keys

-- What `seal_encrypt` returned there.
run :
    (bytes : List U8) × (exposed : Option (List U8)) × (st' : ℕ) × (seal_encrypt curve bcs
        primitives counter draw 5 package_id.items name key_servers public_keys 1 text
        DemType.hmac256_ctr none
      ≡ returned ((bytes, exposed), st'))
run =
    let (object, dem_key, st', _, outcome) = returned_run in
    elim outcome [
      | inl (missing, _) ↦ absurd (cc missing)
      | inr (bytes, e, _, _) ↦ (bytes, _, st', e)
    ]

seal_encrypt-IsSealed_example :
    IsSealed curve bcs primitives
      (generate_random_bytes counter 32 5).0
      package_id.items
      name
      key_servers
      1
      text
      DemType.hmac256_ctr
      none
      run.0
      run.1
seal_encrypt-IsSealed_example =
    seal_encrypt-IsSealed curve bcs primitives counter draw 5 run.2 package_id.items name
      key_servers public_keys 1 text DemType.hmac256_ctr none run.0 run.1 run.3

parse-seal_encrypt_example :
    (object : EncryptedObject curve) × (parse curve bcs run.0 ≡ returned object)
    × (version curve object ≡ 0)
    × (Bindings.package_id curve object ≡ package_id.items)
    × (id curve object ≡ name)
    × (threshold curve object ≡ 1)
    × (map (λ (s : List U8 × U8). s.0) (services curve object) ≡ key_servers)
    × (dem_type curve object ≡ DemType.hmac256_ctr)
    × (to_bytes curve bcs object ≡ returned run.0)
parse-seal_encrypt_example =
    parse-seal_encrypt curve bcs block_bytes-items decoded primitives counter draw 5 run.2
      package_id.items name key_servers public_keys 1 text DemType.hmac256_ctr none run.0 run.1
      run.3

element_read :
    (a : Gf256) (bs : List U8) → some (a.byte ∷ []) ≡ some bs → element_from_bytes bs ≡ some a
element_read a bs e = subst (λ bs. element_from_bytes bs ≡ some a) (some_eq e) refl
  where
    some_eq : {a b : List U8} → some a ≡ some b → a ≡ b
    some_eq h = cc

abbrev pair_of : (Gf256 × Gf256 × Gf256) × ℕ
pair_of = Elgamal.genkey draw group group 5

-- The answer of the first server.
abbrev answer : Gf256 × Gf256
answer = (Elgamal.encrypt draw group 9 usk pair_of.0.1).0

key_pair_made :
    generate_elgamal_keypair curve bcs counter draw 5
    ≡ returned ((pair_of.0.0.byte ∷ [], pair_of.0.1.byte ∷ [], pair_of.0.2.byte ∷ []), pair_of.1)
unfolding generate_elgamal_keypair
key_pair_made = refl

verify_user_secret_key-elgamal_decrypt_example :
    IsAnswered curve bcs counter draw curve_laws element_read element_read
      (from_u8 (of_ℕ 11))
      (create_full_id package_id name)
      5
      pair_of.1
      9
      (pair_of.0.0.byte ∷ [])
      (pair_of.0.1.byte ∷ [])
      (pair_of.0.2.byte ∷ [])
      pair_of.0.1
      (answer.0.byte ∷ (answer.1.byte ∷ []))
      ((public_key_from_master_key curve (from_u8 (of_ℕ 11))).byte ∷ [])
verify_user_secret_key-elgamal_decrypt_example =
    verify_user_secret_key-elgamal_decrypt curve bcs counter draw curve_laws element_read
      element_read (from_u8 (of_ℕ 11)) (create_full_id package_id name) 5 pair_of.1 9
      (pair_of.0.0.byte ∷ []) (pair_of.0.1.byte ∷ []) (pair_of.0.2.byte ∷ []) pair_of.0.1
      (answer.0.byte ∷ (answer.1.byte ∷ []))
      ((public_key_from_master_key curve (from_u8 (of_ℕ 11))).byte ∷ []) key_pair_made refl refl
      refl
