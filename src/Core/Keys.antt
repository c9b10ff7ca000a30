-- ===== src/Core/Keys.antt =====
-- The keys that `derive_key` derives.
use pysui_crypto.Common.{ℕ, ◌≡◌, refl, true, List, ◌∷◌, ◌++◌, length, ok, ◌==◌, arith}
use pysui_crypto.Byte.{U8, of_ℕ}
use pysui_crypto.Dem.{Key}
use pysui_crypto.Groups.{Curve}
use pysui_crypto.Ibe.{ObjectId, Block}
use pysui_crypto.Core.{dst_derive_key, tag, concat_bytes, KeyPurpose, derive_key}

pub equal : (n m : ℕ) → n ≡ m → (n == m) ≡ true
equal n m e = ground arith

-- The text that is hashed to a key.
abbrev pub derivation_text : KeyPurpose → Key → List Block → ℕ → List ObjectId → List U8
derivation_text purpose base_key shares threshold key_servers =
    dst_derive_key
    ++ (base_key.items
        ++ (tag purpose ++ (of_ℕ threshold ∷ (concat_bytes shares ++ concat_bytes key_servers))))

module _ (c : Curve) where
  -- The key that is derived where there are as many shares as servers.
  abbrev pub derived : KeyPurpose → Key → List Block → ℕ → List ObjectId → Key
  derived purpose base_key shares threshold key_servers =
      c.sha3_256 (derivation_text purpose base_key shares threshold key_servers)

  pub derive_key-ok :
      (purpose : KeyPurpose) (base_key : Key) (shares : List Block) (threshold : ℕ)
      (key_servers : List ObjectId)
      → length shares ≡ length key_servers
      → derive_key c purpose base_key shares threshold key_servers
        ≡ ok (derived purpose base_key shares threshold key_servers)
  unfolding derive_key
  derive_key-ok purpose base_key shares threshold key_servers e =
      rw (equal (length shares) (length key_servers) e) refl
