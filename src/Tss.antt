-- ===== src/Tss.antt =====
-- seal/tss.rs: Shamir's secret sharing, byte by byte. Counts (`threshold`, `number_of_shares`) are
-- numbers, and the indices and shares are bytes. itertools' `all_unique` and `contains` are read as
-- their documentation says.
pub mod Bytes
pub mod Terms
pub mod Combine
pub mod Shamir
pub mod Indices
pub mod Split
pub mod Picked
pub mod Sharing
pub mod Guards
pub mod Interpolate
pub mod Columns
pub mod Total
pub mod Check
pub mod Agree
pub mod Mask
pub mod Tape
pub mod Secrecy
use pysui_crypto.Common.{
  ℕ, zero, suc, ◌-◌, ◌%◌, Bool, true, false, not, ◌&&◌, ◌||◌, List, [], ◌∷◌, map, length, filter,
  is_empty, Outcome, ok, err, panic, ◌>>=◌, map_ok, unwrap, traverse, index, invalid_input,
  if◌then◌else◌, ltb, ◌==◌, range_from, Array, to_array,
}
use pysui_crypto.Byte.{U8, of_ℕ, eq}
use pysui_crypto.Gf256.{Gf256, rand, from_u8, ◌⊕◌, ◌⊖◌, ◌⊗◌, div, sum, product}
use pysui_crypto.Polynomial.{Polynomial, poly, evaluate}
use pysui_crypto.Polynomial
use pysui_crypto.Utils.{Rng, transpose}

pub record SecretSharing (n : ℕ) : Type 0 where
  pub secret : Array U8 n
  pub indices : List U8
  pub shares : List (Array U8 n)

-- itertools' `contains` and `all_unique`.
unfoldable pub contains : U8 → List U8 → Bool
contains a [] = false
contains a (b ∷ bs) = eq a b || contains a bs

unfoldable pub all_unique : List U8 → Bool
unfolding contains
all_unique [] = true
all_unique (a ∷ as') = not (contains a as') && all_unique as'

-- `repeat_with(|| Gf256::rand(rng)).take(k)`.
unfoldable pub random_elements : (g : Rng) → ℕ → g.State → List Gf256 × g.State
random_elements g zero st = ([], st)
random_elements g (suc k) st =
    let (c, st1) = rand g st in let (cs, st2) = random_elements g k st1 in (c ∷ cs, st2)

-- `split_byte`: a random polynomial with the secret as its constant term, at the indices.
unfoldable pub split_byte : (g : Rng) → g.State → U8 → ℕ → List U8 → Outcome (List U8 × g.State)
split_byte g st secret threshold indices =
    let number_of_shares = length indices % 256 in
    if threshold == 0
      || number_of_shares == 0
      || ltb number_of_shares threshold
      || contains (of_ℕ 0) indices
      || not (all_unique indices)
    then err invalid_input
    else let (cs, st') = random_elements g (threshold - 1) st in
      let polynomial = poly (from_u8 secret ∷ cs) in
      ok (map (λ i. (evaluate polynomial (from_u8 i)).byte) indices, st')

-- `secret.iter().map(|b| split_byte(rng, …)).collect()`, which threads the generator.
unfoldable pub split_bytes :
    (g : Rng) → g.State → List U8 → ℕ → List U8 → Outcome (List (List U8) × g.State)
split_bytes g st [] threshold indices = ok ([], st)
split_bytes g st (b ∷ bs) threshold indices = split_byte g st b threshold indices >>= λ r.
    split_bytes g r.1 bs threshold indices >>= λ rs. ok (r.0 ∷ rs.0, rs.1)

-- `split`.
unfoldable pub split :
    (g : Rng) (n : ℕ) → g.State → Array U8 n → ℕ → ℕ → Outcome (SecretSharing n × g.State)
split g n st secret threshold number_of_shares =
    if ltb number_of_shares threshold || threshold == 0
    then err invalid_input
    else let indices = map of_ℕ (range_from 1 number_of_shares) in
      do
        r ← split_bytes g st secret.items threshold indices
        shares ← transpose n r.0
        ok (record { secret = secret; indices = indices; shares = shares }, r.1)

-- `share[i]` with the index of the share.
unfoldable pub byte_of_share : {n : ℕ} → ℕ → U8 × Array U8 n → Outcome (U8 × U8)
byte_of_share i s = map_ok (λ b. (s.0, b)) (index s.1.items i)

-- `combine_byte`.
unfoldable pub combine_term : List (U8 × U8) → U8 × U8 → Outcome Gf256
combine_term shares s =
    let denominator =
      from_u8 s.0
      ⊗ product (
          map (λ j. from_u8 j ⊖ from_u8 s.0)
            (filter (λ j. not (eq j s.0)) (map (λ t. t.0) shares))) in
    unwrap (div (from_u8 s.1) denominator)

unfoldable pub combine_byte : List (U8 × U8) → Outcome U8
combine_byte shares =
    if is_empty shares
      || not (all_unique (map (λ t. t.0) shares))
      || contains (of_ℕ 0) (map (λ t. t.0) shares)
    then err invalid_input
    else let whole = product (map (λ t. from_u8 t.0) shares) in
      do terms ← traverse (combine_term shares) shares; ok (whole ⊗ sum terms).byte

-- `combine`.
unfoldable pub combine : (n : ℕ) → List (U8 × Array U8 n) → Outcome (Array U8 n)
combine n shares = do
  bytes ← traverse (λ i. traverse (byte_of_share i) shares >>= combine_byte) (range_from 0 n)
  to_array n bytes

-- `interpolate`: the polynomials of all bytes; the closure that it returns is `evaluate_all`.
unfoldable pub interpolate : (n : ℕ) → List (U8 × Array U8 n) → Outcome (List Polynomial)
interpolate n shares =
    if is_empty shares
      || contains (of_ℕ 0) (map (λ t. t.0) shares)
      || not (all_unique (map (λ t. t.0) shares))
    then err invalid_input
    else traverse
        (λ i. traverse (byte_of_share i) shares >>= λ ps.
          Polynomial.interpolate (map (λ t. (from_u8 t.0, from_u8 t.1)) ps))
        (range_from 0 n)

unfoldable pub evaluate_all : (n : ℕ) → List Polynomial → U8 → Outcome (Array U8 n)
evaluate_all n polynomials x = to_array n (map (λ p. (evaluate p (from_u8 x)).byte) polynomials)
