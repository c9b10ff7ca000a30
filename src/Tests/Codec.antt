-- ===== src/Tests/Codec.antt =====
-- A serialization of encrypted objects with a decoder, in the place of BCS.
use pysui_crypto.Common.{
  ℕ, zero, suc, ◌≡◌, refl, ap, ◌∙◌, List, [], ◌∷◌, ◌++◌, length, Option, none, some, if◌then◌else◌,
}
use mathlib.Core.List.{append_assoc}
use pysui_crypto.Byte.{U8, of_ℕ, eq}
use pysui_crypto.Gf256.{Gf256, from_u8}
use pysui_crypto.Ibe.{ObjectId, Block}
use pysui_crypto.Dem.{Ciphertext}
use pysui_crypto.Core.{EncryptedObject}
use pysui_crypto.ObjectText.{try_array, try_array-items}
use pysui_crypto.Tests.Toy.{curve}

abbrev pub then_some : {A B : Type 0} → Option A → (A → Option B) → Option B
then_some none f = none
then_some (some a) f = f a

pub record Codec (A : Type 0) : Type 0 where
  pub enc : A → List U8
  pub dec : List U8 → Option (A × List U8)
  pub undo : (a : A) (rest : List U8) → dec (enc a ++ rest) ≡ some (a, rest)

abbrev take_byte : List U8 → Option (U8 × List U8)
take_byte [] = none
take_byte (b ∷ bs) = some (b, bs)

abbrev byte : Codec U8
byte = record { enc = λ b. b ∷ []; dec = take_byte; undo = λ b rest. refl }

abbrev marks : ℕ → List U8
marks zero = of_ℕ 0 ∷ []
marks (suc n) = of_ℕ 1 ∷ marks n

abbrev take_marks : List U8 → Option (ℕ × List U8)
take_marks [] = none
take_marks (b ∷ bs) =
    let rest = take_marks bs in
    if eq b (of_ℕ 0) then some (0, bs) else then_some rest (λ r. some (suc r.0, r.1))

marks_undo : (n : ℕ) (rest : List U8) → take_marks (marks n ++ rest) ≡ some (n, rest)
unfolding eq of_ℕ
marks_undo zero rest = refl
marks_undo (suc n) rest =
    ap (λ o. then_some o (λ (r : ℕ × List U8). some (suc r.0, r.1))) (marks_undo n rest)

abbrev number : Codec ℕ
number = record { enc = marks; dec = take_marks; undo = marks_undo }

module _ {A B : Type 0} (a : Codec A) where
  abbrev pair : Codec B → Codec (A × B)
  pair b = record {
    enc = λ t. a.enc t.0 ++ b.enc t.1;
    dec = λ bs. then_some (a.dec bs) (λ r. then_some (b.dec r.1) (λ s. some ((r.0, s.0), s.1)));
    undo = λ t rest.
        ap
          (λ bs. then_some (a.dec bs) (λ (r : A × List U8).
            then_some (b.dec r.1) (λ (s : B × List U8). some ((r.0, s.0), s.1))))
          (append_assoc (a.enc t.0) (b.enc t.1) rest)
        ∙ ap
            (λ o. then_some o (λ (r : A × List U8).
              then_some (b.dec r.1) (λ (s : B × List U8). some ((r.0, s.0), s.1))))
            (a.undo t.0 (b.enc t.1 ++ rest))
        ∙ ap (λ o. then_some o (λ (s : B × List U8). some ((t.0, s.0), s.1))) (b.undo t.1 rest);
  }

  -- A type that another represents.
  abbrev through : (f : A → Option B) (g : B → A) → ((b : B) → f (g b) ≡ some b) → Codec B
  through f g undo = record {
    enc = λ b. a.enc (g b);
    dec = λ bs. then_some (a.dec bs) (λ r. then_some (f r.0) (λ b. some (b, r.1)));
    undo = λ b rest.
        ap (λ o. then_some o (λ (r : A × List U8). then_some (f r.0) (λ b. some (b, r.1))))
          (a.undo (g b) rest)
        ∙ ap (λ o. then_some o (λ b. some (b, rest))) (undo b);
  }

module _ {A : Type 0} (a : Codec A) where
  abbrev each : List A → List U8
  each [] = []
  each (x ∷ xs) = a.enc x ++ each xs

  abbrev take_each : ℕ → List U8 → Option (List A × List U8)
  take_each zero bs = some ([], bs)
  take_each (suc n) bs =
      then_some (a.dec bs) (λ r. then_some (take_each n r.1) (λ s. some (r.0 ∷ s.0, s.1)))

  each_undo :
      (xs : List A) (rest : List U8) → take_each (length xs) (each xs ++ rest) ≡ some (xs, rest)
  each_undo [] rest = refl
  each_undo (x ∷ xs) rest =
      ap (λ bs. then_some (a.dec bs) next) (append_assoc (a.enc x) (each xs) rest)
      ∙ ap (λ o. then_some o next) (a.undo x (each xs ++ rest))
      ∙ ap (λ o. then_some o (λ (s : List A × List U8). some (x ∷ s.0, s.1))) (each_undo xs rest)
    where
      next : A × List U8 → Option (List A × List U8)
      next r = then_some (take_each (length xs) r.1) (λ s. some (r.0 ∷ s.0, s.1))

  abbrev list : Codec (List A)
  list = record {
    enc = λ xs. marks (length xs) ++ each xs;
    dec = λ bs. then_some (take_marks bs) (λ r. take_each r.0 r.1);
    undo = λ xs rest.
        ap (λ bs. then_some (take_marks bs) (λ (r : ℕ × List U8). take_each r.0 r.1))
          (append_assoc (marks (length xs)) (each xs) rest)
        ∙ ap (λ o. then_some o (λ (r : ℕ × List U8). take_each r.0 r.1))
            (marks_undo (length xs) (each xs ++ rest))
        ∙ each_undo xs rest;
  }

abbrev block : Codec ObjectId
block =
    through (list byte) try_array (λ (o : ObjectId). o.items)
      (λ o. (try_array-items o o.items).1 refl)

abbrev element : Codec Gf256
element = through byte (λ b. some (from_u8 b)) (λ (a : Gf256). a.byte) (λ a. refl)

abbrev first_of : List (List U8) → Option (List U8)
first_of [] = none
first_of (x ∷ xs) = some x

abbrev listed : Option (List U8) → List (List U8)
listed none = []
listed (some x) = x ∷ []

first_of-listed :
    (o : Option (List U8))
    → ◌≡◌ {A = Option (Option (List U8))} (some (first_of (listed o))) (some o)
first_of-listed none = refl
first_of-listed (some x) = refl

optional : Codec (Option (List U8))
optional = through (list (list byte)) (λ xs. some (first_of xs)) listed first_of-listed

abbrev Parts : Type 0
Parts = U8 × (List U8 × (Option (List U8) × List U8))

abbrev of_parts : Parts → Option Ciphertext
of_parts p =
    let (t, (blob, (aad, mac))) = p in
    if eq t (of_ℕ 0)
    then some (Ciphertext.aes256_gcm blob aad)
    else (if eq t (of_ℕ 1)
        then then_some (try_array mac) (λ m. some (Ciphertext.hmac256_ctr blob aad m))
        else some Ciphertext.plain)

abbrev parts : Ciphertext → Parts
parts (Ciphertext.aes256_gcm blob aad) = (of_ℕ 0, (blob, (aad, [])))
parts (Ciphertext.hmac256_ctr blob aad mac) = (of_ℕ 1, (blob, (aad, mac.items)))
parts Ciphertext.plain = (of_ℕ 2, ([], (none, [])))

of_parts-parts : (c : Ciphertext) → of_parts (parts c) ≡ some c
unfolding eq of_ℕ
of_parts-parts (Ciphertext.aes256_gcm blob aad) = refl
of_parts-parts (Ciphertext.hmac256_ctr blob aad mac) =
    ap (λ o. then_some o (λ (m : ObjectId). some (Ciphertext.hmac256_ctr blob aad m)))
      ((try_array-items mac mac.items).1 refl)
of_parts-parts Ciphertext.plain = refl

ciphertext : Codec Ciphertext
ciphertext =
    through (pair byte (pair (list byte) (pair optional (list byte)))) of_parts parts of_parts-parts

abbrev Fields : Type 0
Fields =
    ℕ
    × (ObjectId
        × (List U8 × (List (ObjectId × U8) × (ℕ × (Gf256 × (List Block × (Block × Ciphertext)))))))

pub object : Codec (EncryptedObject curve)
object =
    through
      (pair number (
        pair block (
          pair (list byte) (
            pair (list (pair block byte))
              (pair number (pair element (pair (list block) (pair block ciphertext))))))))
      (λ (f : Fields).
        let (
          version,
          (package_id, (id, (services, (threshold, (nonce, (shares, (randomness, ciphertext))))))),
        ) =
          f in
        some (record {
          version = version;
          package_id = package_id;
          id = id;
          services = services;
          threshold = threshold;
          encrypted_shares = record {
            nonce = nonce;
            encrypted_shares = shares;
            encrypted_randomness = randomness;
          };
          ciphertext = ciphertext;
        }))
      (λ (o : EncryptedObject curve). (
        o.version,
        (
          o.package_id,
          (
            o.id,
            (
              o.services,
              (
                o.threshold,
                (
                  o.encrypted_shares.nonce,
                  (
                    o.encrypted_shares.encrypted_shares,
                    (o.encrypted_shares.encrypted_randomness, o.ciphertext),
                  ),
                ),
              ),
            ),
          ),
        ),
      ))
      (λ o. refl)

pub block_bytes : List U8 → Option ObjectId
block_bytes = try_array

pub block_bytes-items : (o : ObjectId) → block_bytes o.items ≡ some o
unfolding block_bytes
block_bytes-items o = (try_array-items o o.items).1 refl
