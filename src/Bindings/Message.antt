-- ===== src/Bindings/Message.antt =====
-- The message that a user signs: `validate_package_id` and `seal_signed_message`. A string stands as
-- the bytes of its UTF-8 form. Ed25519 and dates are library code, and enter as parameters.
use pysui_crypto.Common.{
  ℕ, zero, suc, ◌+◌, ◌/◌, ◌%◌, Bool, true, false, not, ◌&&◌, ◌||◌, List, [], ◌∷◌, ◌++◌, length,
  Option, if◌then◌else◌, ltb, ◌==◌, drop,
}
use pysui_crypto.Python.{value_error, PyResult, returned, raised, ◌>>=◌, ok_or}
use pysui_crypto.Byte.{U8, to_ℕ, of_ℕ, eq}
use pysui_crypto.Dem.{bytes_of}

abbrev pub comma : U8
comma = of_ℕ 44

-- `char::is_ascii_hexdigit`.
unfoldable pub is_ascii_hexdigit : U8 → Bool
is_ascii_hexdigit b =
    let n = to_ℕ b in
    (not (ltb n 48) && ltb n 58) || ((not (ltb n 65) && ltb n 71) || (not (ltb n 97) && ltb n 103))

unfoldable pub all_hexdigits : List U8 → Bool
all_hexdigits [] = true
all_hexdigits (b ∷ bs) = is_ascii_hexdigit b && all_hexdigits bs

-- `s.contains(c)`.
unfoldable pub contains_byte : U8 → List U8 → Bool
contains_byte c [] = false
contains_byte c (b ∷ bs) = eq b c || contains_byte c bs

-- `s.starts_with("0x")`.
unfoldable pub starts_with_0x : List U8 → Bool
starts_with_0x (a ∷ b ∷ bs) = eq a (of_ℕ 48) && eq b (of_ℕ 120)
starts_with_0x _ = false

unfoldable pub validate_package_id : List U8 → PyResult (Unit {0})
validate_package_id s =
    if starts_with_0x s
    then (let hex_part = drop 2 s in
        if not (length hex_part == 64) || not (all_hexdigits hex_part)
        then raised value_error
        else returned tt)
    else (if contains_byte comma s then raised value_error else returned tt)

-- The decimal digits of a number below 10 ^ (fuel + 1).
unfoldable pub decimal : ℕ → ℕ → List U8
decimal zero n = of_ℕ (48 + n % 10) ∷ []
decimal (suc f) n =
    let rest = decimal f (n / 10) in
    if ltb n 10 then of_ℕ (48 + n % 10) ∷ [] else rest ++ (of_ℕ (48 + n % 10) ∷ [])

-- `Ed25519PublicKey` and `DateTime<Utc>`, with their text forms.
pub record Texts : Type 1 where
  pub PublicKey : Type 0
  pub public_key_from_bytes : List U8 → Option PublicKey
  pub public_key_text : PublicKey → List U8
  pub DateTime : Type 0
  pub from_timestamp : ℕ → Option DateTime
  pub date_text : DateTime → List U8

module _ (texts : Texts) where
  -- The text that is formatted.
  unfoldable pub message : List U8 → ℕ → texts.DateTime → texts.PublicKey → List U8
  message package_id ttl_min ts vk =
      (bytes_of "Accessing keys of package "
        ++ (package_id
            ++ (bytes_of " for "
                ++ (decimal 4 ttl_min ++ (bytes_of " mins from " ++ texts.date_text ts)))))
      ++ (bytes_of ", session key " ++ texts.public_key_text vk)

  unfoldable pub seal_signed_message : List U8 → List U8 → ℕ → ℕ → PyResult (List U8)
  seal_signed_message package_id session_vk creation_time ttl_min = do
    valid ← validate_package_id package_id
    vk ← ok_or value_error (texts.public_key_from_bytes session_vk)
    ts ← ok_or value_error (texts.from_timestamp (creation_time / 1000))
    returned (message package_id ttl_min ts vk)
