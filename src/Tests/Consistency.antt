-- ===== src/Tests/Consistency.antt =====
-- Decryptions of one encrypted object by two users, at concrete inputs.
use pysui_crypto.Common.{
  ℕ, suc, ◌≡◌, ◌⊎◌, inl, inr, refl, sym, ap, subst, ◌∙◌, List, [], ◌∷◌, map, length, filter, All,
  Option, none, some, ok, err, ok_injective, if◌then◌else◌, Array, Returns, Returns-ok, Returns-eq,
  Returns-map_ok, invalid_input, index, index_within, arith,
}
use pysui_crypto.Byte.{U8, of_ℕ, eq}
use pysui_crypto.Gf256.{Gf256, from_u8, one as 𝟙, ◌⊗◌}
use pysui_crypto.Gf256.Field.{one-⊗}
use pysui_crypto.Dem.{Key, EncryptionInput}
use pysui_crypto.Ibe.{ObjectId, public_key_from_master_key, extract}
use pysui_crypto.Core.{is_some, create_full_id, EncryptedObject, seal_encrypt, seal_decrypt}
use pysui_crypto.Core.Sealed.{Server, IsExtracted}
use pysui_crypto.Core.RoundTrip.{seal_decrypt-seal_encrypt}
use pysui_crypto.Core.Decrypted.{seal_decrypt_consistent}
use pysui_crypto.Core.Detected.{Agrees, seal_decrypt-Agrees}
use pysui_crypto.Core.Total.{seal_decrypt-Returns}
use pysui_crypto.Core.WellFormed.{IsAccepted, Succeeds, seal_encrypt_lem}
use pysui_crypto.Tests.Toy.{filled, counter, primitives, curve, curve_laws}

abbrev pub draw : ℕ → Gf256 × ℕ
draw n = (from_u8 (of_ℕ n), suc n)

abbrev pub package_id : ObjectId
package_id = filled 32 (λ k. of_ℕ 7)

abbrev pub name : List U8
name = of_ℕ 1 ∷ of_ℕ 2 ∷ []

abbrev pub text : List U8
text = map of_ℕ (72 ∷ 101 ∷ 108 ∷ 108 ∷ 111 ∷ [])

abbrev input : EncryptionInput
input = EncryptionInput.hmac256_ctr text none

abbrev pub servers : List (Server curve)
servers = (filled 32 of_ℕ, from_u8 (of_ℕ 11)) ∷ (filled 32 (λ k. of_ℕ 42), from_u8 (of_ℕ 12)) ∷ []

abbrev pub servers_ids : List ObjectId
servers_ids = map (λ (s : Server curve). s.0) servers

abbrev pub public_keys : List Gf256
public_keys = map (λ (s : Server curve). public_key_from_master_key curve s.1) servers

-- The first server gave a key to one user, the second server to the other.
abbrev pub key_of : ℕ → ℕ → ObjectId → Option Gf256
key_of first master o = elim o.items [
  | [] ↦ none
  | b ∷ bs ↦
      if eq b (of_ℕ first)
      then some (extract curve (from_u8 (of_ℕ master)) (create_full_id package_id name))
      else none
]

pub held_0 : All (IsExtracted curve (key_of 0 11) (create_full_id package_id name)) servers
unfolding eq of_ℕ
held_0 = (inr refl, (inl refl, tt))

held_1 : All (IsExtracted curve (key_of 42 12) (create_full_id package_id name)) servers
unfolding eq of_ℕ
held_1 = (inl refl, (inr refl, tt))

pub one_key_0 : length (filter (λ i. is_some (key_of 0 11 i)) servers_ids) ≡ 1
unfolding eq of_ℕ
one_key_0 = refl

one_key_1 : length (filter (λ i. is_some (key_of 42 12 i)) servers_ids) ≡ 1
unfolding eq of_ℕ
one_key_1 = refl

-- The services of the object are the servers.
ids_of :
    (made : EncryptedObject curve × Key × ℕ)
    → seal_encrypt curve primitives counter draw 5 package_id name servers_ids public_keys 1 input
      ≡ ok made
    → map (λ (s : ObjectId × U8). s.0) (made.0).services ≡ servers_ids
ids_of made e =
    elim (seal_encrypt_lem curve primitives counter draw 5 package_id name servers_ids public_keys 1
      input (omega arith)) [
        | inl (_, (object, key, st, e', facts)) ↦
            subst
              (λ (o : EncryptedObject curve).
                map (λ (s : ObjectId × U8). s.0) o.services ≡ servers_ids)
              (ap (λ (t : EncryptedObject curve × Key × ℕ). t.0) (ok_injective (sym e' ∙ e)))
              facts.same_ids
        | inr (_, e') ↦ absurd (differ made (sym e' ∙ e))
      ]
  where
    differ : (made : EncryptedObject curve × Key × ℕ) → err invalid_input ≡ ok made → ⊥
    differ made h = cc

-- Both users read the text.
object_read :
    (object : EncryptedObject curve) × (seal_decrypt curve primitives object
        (key_of 0 11)
        (some public_keys)
      ≡ ok text)
    × (seal_decrypt curve primitives object (key_of 42 12) (some public_keys) ≡ ok text)
    × (map (λ (s : ObjectId × U8). s.0) object.services ≡ servers_ids)
object_read =
    let (object, dem_key, st, e, _, read) =
      seal_decrypt-seal_encrypt curve primitives counter draw curve_laws (λ key aad msg. refl)
        package_id name 1 servers (key_of 0 11) 5 input (omega arith) (omega arith) held_0
        (omega (arith, one_key_0)) in
    let (object', dem_key', st', e', _, read') =
      seal_decrypt-seal_encrypt curve primitives counter draw curve_laws (λ key aad msg. refl)
        package_id name 1 servers (key_of 42 12) 5 input (omega arith) (omega arith) held_1
        (omega (arith, one_key_1)) in
    (
      object,
      read,
      subst
          (λ (o : EncryptedObject curve).
            seal_decrypt curve primitives o (key_of 42 12) (some public_keys) ≡ ok text)
          (ap (λ (t : EncryptedObject curve × Key × ℕ). t.0) (ok_injective (sym e' ∙ e))) read',
      ids_of (object, dem_key, st) e,
    )

one_multiple : (r r' : Gf256) → 𝟙 ⊗ r ≡ 𝟙 ⊗ r' → r ≡ r'
one_multiple r r' e = sym (one-⊗ r) ∙ e ∙ one-⊗ r'

seal_decrypt_consistent_example : text ≡ text
seal_decrypt_consistent_example =
    seal_decrypt_consistent curve curve_laws one_multiple primitives object_read.0 public_keys
      (key_of 0 11) (key_of 42 12) text text object_read.1 object_read.2

scalar_Returns : (b : Array U8 32) → Returns (curve.scalar_of_bytes b)
scalar_Returns b =
    let (s, e) = index_within b.items 0 (omega (arith, b.size)) in
    Returns-map_ok from_u8 (index b.items 0) (Returns-eq e (Returns-ok s))

seal_decrypt-Returns_example :
    Returns (seal_decrypt curve primitives object_read.0 (key_of 0 11) none)
seal_decrypt-Returns_example =
    seal_decrypt-Returns curve scalar_Returns primitives (λ key iv aad blob. Returns-ok blob)
      object_read.0 (key_of 0 11) none

seal_encrypt_lem_example :
    (IsAccepted servers_ids public_keys 1
      × Succeeds curve primitives counter draw 5 package_id name servers_ids public_keys 1 input
          (omega arith))
    ⊎ (¬ (IsAccepted servers_ids public_keys 1)
        × (seal_encrypt curve primitives counter draw 5 package_id name servers_ids public_keys 1
              input
            ≡ err invalid_input))
seal_encrypt_lem_example =
    seal_encrypt_lem curve primitives counter draw 5 package_id name servers_ids public_keys 1 input
      (omega arith)

seal_decrypt-Agrees_example :
    (r : Gf256) × (𝟙 ⊗ r ≡ object_read.0.encrypted_shares.nonce)
    × ((i : ℕ) (service : ObjectId × U8) (usk : Gf256)
        → index object_read.0.services i ≡ ok service
        → key_of 0 11 service.0 ≡ some usk
        → Agrees curve object_read.0 (key_of 0 11) public_keys r i service usk)
seal_decrypt-Agrees_example =
    seal_decrypt-Agrees curve object_read.0 (key_of 0 11) public_keys curve_laws primitives text
      object_read.1

agreed :
    (r : Gf256) × (𝟙 ⊗ r ≡ object_read.0.encrypted_shares.nonce)
    × ((i : ℕ) (service : ObjectId × U8) (usk : Gf256)
        → index object_read.0.services i ≡ ok service
        → key_of 0 11 service.0 ≡ some usk
        → Agrees curve object_read.0 (key_of 0 11) public_keys r i service usk)
agreed =
    seal_decrypt-Agrees curve object_read.0 (key_of 0 11) public_keys curve_laws primitives text
      object_read.1

first_service :
    (services : List (ObjectId × U8)) (o : ObjectId) (os : List ObjectId)
    → map (λ (s : ObjectId × U8). s.0) services ≡ o ∷ os
    → (service : ObjectId × U8) × (index services 0 ≡ ok service) × (service.0 ≡ o)
unfolding index
first_service [] o os e = cc
first_service (s ∷ services) o os e = (s, refl, cc)

-- The service of the key that the first user holds.
service :
    (service : ObjectId × U8) × (index object_read.0.services 0 ≡ ok service)
    × (service.0 ≡ filled 32 of_ℕ)
service = first_service object_read.0.services (filled 32 of_ℕ) _ object_read.3

abbrev usk : Gf256
usk = extract curve (from_u8 (of_ℕ 11)) (create_full_id package_id name)

held_by_first : key_of 0 11 (filled 32 of_ℕ) ≡ some usk
unfolding eq of_ℕ
held_by_first = refl

usk_held : key_of 0 11 service.0.0 ≡ some usk
usk_held = ap (key_of 0 11) service.2 ∙ held_by_first

-- The service is one of those that the statement speaks of.
first_agrees : Agrees curve object_read.0 (key_of 0 11) public_keys agreed.0 0 service.0 usk
first_agrees = agreed.2 0 service.0 usk service.1 usk_held
