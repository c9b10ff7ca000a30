-- ===== src/Utils.antt =====
-- seal/utils.rs. itertools' `all_equal_value` is read as its documentation says: the common value of
-- a nonempty iterator whose elements are all equal, and an error otherwise.
pub mod Laws
pub mod Matrix
use pysui_crypto.Common.{
  ℕ, zero, suc, Bool, true, false, ◌||◌, List, [], ◌∷◌, map, length, Outcome, ok, err, panic, ◌>>=◌,
  map_ok, traverse, index, invalid_input, if◌then◌else◌, ◌==◌, range_from, Array, to_array,
  FastCryptoError, is_empty, not,
}
use pysui_crypto.Byte.{U8, ◌^^◌}

-- `zip` stops at the shorter of the two.
unfoldable pub xor_unchecked : List U8 → List U8 → List U8
xor_unchecked [] bs = []
xor_unchecked (a ∷ as') [] = []
xor_unchecked (a ∷ as') (b ∷ bs) = (a ^^ b) ∷ xor_unchecked as' bs

-- `xor`, whose conversion back to an array has to be shown not to fail.
unfoldable pub xor : (n : ℕ) → Array U8 n → Array U8 n → Outcome (Array U8 n)
xor n a b = to_array n (xor_unchecked a.items b.items)

-- `all_equal_value`.
unfoldable pub all_equal_to : ℕ → List ℕ → Bool
all_equal_to m [] = true
all_equal_to m (n ∷ ns) = let rest = all_equal_to m ns in if n == m then rest else false

unfoldable pub all_equal_value : List ℕ → Outcome ℕ
unfolding all_equal_to
all_equal_value [] = err invalid_input
all_equal_value (m ∷ ns) = if all_equal_to m ns then ok m else err invalid_input

-- `transpose`, over rows of any element type.
unfoldable pub transpose {ℓ} : {A : Type ℓ} (n : ℕ) → List (List A) → Outcome (List (Array A n))
transpose n matrix = if not (length matrix == n) || is_empty matrix then err invalid_input else do
  m ← all_equal_value (map length matrix)
  traverse (λ i. traverse (λ row. index row i) matrix >>= to_array n) (range_from 0 m)

-- A source of randomness, `AllowedRng`: its state, a random byte and a buffer of random bytes.
pub record Rng : Type 1 where
  pub State : Type 0
  pub gen_byte : State → U8 × State
  pub fill_bytes : (n : ℕ) → State → Array U8 n × State

-- `generate_random_bytes`.
unfoldable pub generate_random_bytes : (g : Rng) (n : ℕ) → g.State → Array U8 n × g.State
generate_random_bytes g n st = g.fill_bytes n st
