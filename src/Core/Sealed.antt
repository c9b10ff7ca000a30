-- ===== src/Core/Sealed.antt =====
-- What `seal_encrypt` makes of the shares of a base key, and how `seal_decrypt` reads it.
use pysui_crypto.Common.{
  ℕ, ◌≡◌, refl, sym, ap, ◌∙◌, ◌⊎◌, List, map, length, length-map, Option, none, some, ok,
}
use mathlib.Core.List.{map-map, zip}
use pysui_crypto.Byte.{U8}
use pysui_crypto.Utils.{Rng}
use pysui_crypto.Tss.{SecretSharing}
use pysui_crypto.Dem.{Key, Primitives}
use pysui_crypto.Groups.{Curve}
use pysui_crypto.Utils.Laws.{xor_array, xor-ok}
use pysui_crypto.Ibe.{
  ObjectId, Block, public_key_from_master_key, extract, encrypt_batched_deterministic,
  encrypt_randomness,
}
use pysui_crypto.Ibe.Laws.{Recipient, sealed, encrypt_batched_deterministic-ok}
use pysui_crypto.Core.{encrypted_randomness, IbeEncryptions, encrypt_shares}
use pysui_crypto.Core.Recipients.{
  recipients, AreRecipients, recipients-AreRecipients, map-recipients,
}
use pysui_crypto.Core.Keys.{equal, derived, derive_key-ok}

-- A key server with its master key.
abbrev pub Server : Curve → Type 0
Server c = ObjectId × c.Scalar

-- A user holds no key of the server, or the one that it extracts for the identity.
abbrev pub IsExtracted : (c : Curve) → (ObjectId → Option c.g1.Elt) → List U8 → Server c → Type 0
IsExtracted c keys id s = (keys s.0 ≡ none) ⊎ (keys s.0 ≡ some (extract c s.1 id))

-- An encryption of shares: the full id, the randomness, the shared key and to whom it is shared.
pub record Sealing (c : Curve) : Type 0 where
  pub id : List U8
  pub r : c.Scalar
  pub base_key : Key
  pub threshold : ℕ
  pub servers : List (Server c)
  pub sharing : SecretSharing 32
  pub shares_size : length sharing.shares ≡ length servers
  pub indices_size : length sharing.indices ≡ length servers

module _ (c : Curve) (x : Sealing c) where
  open x use {id, r, base_key, threshold, servers, sharing, shares_size, indices_size}

  abbrev pub ids : List ObjectId
  ids = map (λ s. s.0) servers

  abbrev pub ts : List (Recipient c)
  ts = recipients sharing.shares servers sharing.indices

  pub made : AreRecipients sharing.shares servers sharing.indices ts
  made = recipients-AreRecipients sharing.shares servers sharing.indices shares_size indices_size

  abbrev pub cts : List Block
  cts = map (sealed c r id) ts

  pub length-cts : length cts ≡ length ids
  length-cts =
      length-map (sealed c r id) ts
      ∙ sym (length-map (λ (t : Recipient c). t.2.0) ts)
      ∙ ap length made.same_ids

  -- What `encrypt_shares` makes of the shares.
  abbrev pub encrypted : IbeEncryptions c
  encrypted = record {
    nonce = c.g2.mul c.g2.generator r;
    encrypted_shares = cts;
    encrypted_randomness =
        xor_array 32 (derived c encrypted_randomness base_key cts threshold ids) (c.scalar_bytes r);
  }

  batch-ok :
      encrypt_batched_deterministic c r sharing.shares
        (map (λ s. public_key_from_master_key c s.1) servers)
        id
        (zip ids sharing.indices)
      ≡ ok (c.g2.mul c.g2.generator r, cts)
  batch-ok =
      rw
        (
          sym made.same_infos,
          sym (
              map-recipients (λ (s : Server c). public_key_from_master_key c s.1) sharing.shares
                servers sharing.indices shares_size indices_size),
        )
        (ap
            (λ ss.
              encrypt_batched_deterministic c r ss
                (map (λ (t : Recipient c). public_key_from_master_key c t.1) ts) id
                (map (λ (t : Recipient c). t.2) ts))
            (sym made.same_shares)
          ∙ encrypt_batched_deterministic-ok c r id ts)

  pub same_servers : map (λ (s : ObjectId × U8). s.0) (zip ids sharing.indices) ≡ ids
  same_servers =
      ap (map (λ (s : ObjectId × U8). s.0)) (sym made.same_infos)
      ∙ map-map _ (λ (t : Recipient c). t.2) ts
      ∙ made.same_ids

  module _ (lib : Primitives) (g : Rng) (rand : g.State → c.Scalar × g.State) where
    pub encrypt_shares-ok :
        (st st' : g.State)
        → rand st ≡ (r, st')
        → encrypt_shares c lib g rand st id
            (zip ids sharing.indices)
            (map (λ s. public_key_from_master_key c s.1) servers)
            (length servers)
            base_key
            sharing.shares
            threshold
            ids
          ≡ ok (encrypted, st')
    unfolding encrypt_shares encrypt_randomness
    encrypt_shares-ok st st' e =
        rw
          (
            length-map (λ (s : Server c). public_key_from_master_key c s.1) servers,
            equal (length servers) (length servers) refl,
            e,
            batch-ok,
            derive_key-ok c encrypted_randomness base_key cts threshold ids length-cts,
            xor-ok 32 (derived c encrypted_randomness base_key cts threshold ids)
                (c.scalar_bytes r),
          )
          refl
