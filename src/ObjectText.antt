-- ===== src/ObjectText.antt =====
-- seal/mod.rs: the text forms of object ids, `FromStr` and `Display`. The hex crate is a parameter;
-- the text of an error is left out.
use pysui_crypto.Common.{
  ◌≡◌, ◌↔◌, refl, ap, ◌∙◌, List, ◌∷◌, length, Option, none, some, if◌then◌else◌, Array_ext, drop,
}
use native.Mathlib.Decide.{ℕ_discrete}
use pysui_crypto.Byte.{U8, of_ℕ, eq}
use pysui_crypto.Ibe.{ObjectId}
use pysui_crypto.Bindings.Message.{starts_with_0x}

-- `try_into::<[u8; 32]>()`.
unfoldable pub try_array : List U8 → Option ObjectId
try_array bytes = elim (ℕ_discrete (length bytes) 32) [
  | yes e ↦ some (record { items = bytes; size = e })
  | no _ ↦ none
]

-- `s.strip_prefix("0x").unwrap_or(s)`.
unfoldable pub without_prefix : List U8 → List U8
without_prefix s = if starts_with_0x s then drop 2 s else s

pub try_array-items : (o : ObjectId) (bs : List U8) → (try_array bs ≡ some o) ↔ (bs ≡ o.items)
unfolding try_array
try_array-items o bs = go (ℕ_discrete (length bs) 32)
  where
    go :
        (d : Dec (length bs ≡ 32))
        → (◌≡◌ {A = Option ObjectId}
            (elim d [ yes e ↦ some (record { items = bs; size = e }) | no _ ↦ none ])
            (some o))
          ↔ (bs ≡ o.items)
    go (yes e) =
        ((λ h. ap (λ (a : ObjectId). a.items) (some_eq h)), (λ h. ap some (Array_ext _ o h)))
      where
        some_eq : {a b : ObjectId} → some a ≡ some b → a ≡ b
        some_eq h = cc
    go (no differs) = ((λ h. cc h), (λ h. absurd (differs (ap length h ∙ o.size))))

-- What is used of the hex crate.
pub record Hex : Type 0 where
  pub encode : List U8 → List U8
  pub decode : List U8 → Option (List U8)

module _ (hex : Hex) where
  abbrev pub try_decoded : Option (List U8) → Option ObjectId
  try_decoded none = none
  try_decoded (some bytes) = try_array bytes

  unfoldable pub from_str : List U8 → Option ObjectId
  from_str s = try_decoded (hex.decode (without_prefix s))

  unfoldable pub fmt : ObjectId → List U8
  fmt id = of_ℕ 48 ∷ (of_ℕ 120 ∷ hex.encode id.items)

  fmt_prefix : (id : ObjectId) → without_prefix (fmt id) ≡ hex.encode id.items
  unfolding without_prefix fmt starts_with_0x eq of_ℕ
  fmt_prefix id = refl

  -- A text is of an object id exactly where it decodes, without a prefix 0x, to the 32 bytes of the
  -- id. Where decoding undoes encoding in hex, reading what `Display` writes gives the id back.
  pub from_str-fmt :
      ((bs : List U8) → hex.decode (hex.encode bs) ≡ some bs)
      → (id : ObjectId)
      → ((s : List U8) → (from_str s ≡ some id) ↔ (hex.decode (without_prefix s) ≡ some id.items))
        × (from_str (fmt id) ≡ some id)
  unfolding from_str
  from_str-fmt undo id = (
    (λ s. decoded (hex.decode (without_prefix s))),
    (decoded (hex.decode (without_prefix (fmt id)))).1
        (ap hex.decode (fmt_prefix id) ∙ undo id.items),
  )
    where
      some_eq : {a b : List U8} → some a ≡ some b → a ≡ b
      some_eq h = cc

      decoded : (o : Option (List U8)) → (try_decoded o ≡ some id) ↔ (o ≡ some id.items)
      decoded none = ((λ h. cc h), (λ h. cc h))
      decoded (some bs) = (
        (λ h. ap some ((try_array-items id bs).0 h)),
        (λ h. (try_array-items id bs).1 (some_eq h)),
      )
