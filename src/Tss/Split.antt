-- ===== src/Tss/Split.antt =====
-- What `split` returns, in terms of the polynomials that it draws.
use pysui_crypto.Common.{
  ℕ, zero, suc, ◌-◌, ◌%◌, ◌≤◌, ◌<◌, ◌≡◌, refl, sym, ap, subst, ◌∙◌, false, not, ◌||◌, List, [], ◌∷◌,
  map, length, length-map, All, Outcome, ok, ◌>>=◌, ltb, ◌==◌, Array, arith,
}
use mathlib.Core.List.{map-map}
use pysui_crypto.Byte.{U8, of_ℕ}
use pysui_crypto.Gf256.{Gf256, from_u8}
use pysui_crypto.Polynomial.{poly, evaluate}
use pysui_crypto.Polynomial.Value.{evaluate-value}
use pysui_crypto.Utils.{Rng, transpose}
use pysui_crypto.Utils.Laws.{column, transpose_table}
use pysui_crypto.Tss.{
  SecretSharing, contains, all_unique, random_elements, split_byte, split_bytes, split,
}
use pysui_crypto.Tss.Shamir.{evaluation}
use pysui_crypto.Tss.Indices.{
  indices_to, length-indices_to, all_unique-indices_to, contains_zero-indices_to,
}

length-random_elements : (g : Rng) (k : ℕ) (st : g.State) → length (random_elements g k st).0 ≡ k
unfolding random_elements
length-random_elements g zero st = refl
length-random_elements g (suc k) st = ap suc (length-random_elements g k (g.gen_byte st).1)

-- The polynomial that a byte is shared by, as the byte and its random coefficients.
abbrev pub Shared : Type 0
Shared = U8 × List Gf256

-- The polynomials for the bytes of a secret, where `m` coefficients are drawn for each.
unfoldable pub drawn_polynomials : (g : Rng) → ℕ → g.State → List U8 → List Shared
drawn_polynomials g m st [] = []
drawn_polynomials g m st (b ∷ bs) =
    let (cs, st') = random_elements g m st in (b, cs) ∷ drawn_polynomials g m st' bs

module _ (g : Rng) (threshold k : ℕ) (positive : 0 < threshold) (enough : threshold ≤ k)
    (fits : k ≤ 255) where
  -- The row of shares of a byte.
  abbrev row : Shared → List U8
  row p = map (evaluation p) (indices_to k)

  split_byte-ok :
      (st : g.State) (secret : U8)
      → split_byte g st secret threshold (indices_to k)
        ≡ ok (
          row (secret, (random_elements g (threshold - 1) st).0),
          (random_elements g (threshold - 1) st).1,
        )
  split_byte-ok st secret =
      opened
      ∙ ap (λ f. ok (map f (indices_to k), (random_elements g (threshold - 1) st).1)) by_value
    where
      by_value :
          ◌≡◌ {A = U8 → U8}
            (λ i.
              (evaluate
                (poly (from_u8 secret ∷ (random_elements g (threshold - 1) st).0))
                (from_u8 i)).byte)
            (evaluation (secret, (random_elements g (threshold - 1) st).0))
      by_value j i =
          (evaluate-value (from_u8 secret ∷ (random_elements g (threshold - 1) st).0) (from_u8 i)
            j).byte

      guards :
          (threshold == 0
            || length (indices_to k) % 256 == 0
            || ltb (length (indices_to k) % 256) threshold
            || contains (of_ℕ 0) (indices_to k)
            || not (all_unique (indices_to k)))
          ≡ false
      guards =
          rw (length-indices_to k, contains_zero-indices_to k fits, all_unique-indices_to k fits)
            (ground arith)

      opened :
          split_byte g st secret threshold (indices_to k)
          ≡ ok (
            map
                (λ i.
                  (evaluate
                    (poly (from_u8 secret ∷ (random_elements g (threshold - 1) st).0))
                    (from_u8 i)).byte)
                (indices_to k),
            (random_elements g (threshold - 1) st).1,
          )
      opened = unfold split_byte in rw guards

  -- The polynomials that the bytes of a secret are shared by.
  record AreRows (st : g.State) (secret : List U8) (result : Outcome (List (List U8) × g.State))
      : Type 0 where
    polynomials : List Shared
    drawn : polynomials ≡ drawn_polynomials g (threshold - 1) st secret
    state : g.State
    returns : result ≡ ok (map row polynomials, state)
    constants : map (λ (p : Shared). p.0) polynomials ≡ secret
    degrees : All (λ (p : Shared). suc (length p.1) ≡ threshold) polynomials

  split_bytes-AreRows :
      (st : g.State) (secret : List U8)
      → AreRows st secret (split_bytes g st secret threshold (indices_to k))
  split_bytes-AreRows st [] = record {
    polynomials = [];
    drawn = unfold drawn_polynomials in refl;
    state = st;
    returns = unfold split_bytes in refl;
    constants = refl;
    degrees = tt;
  }
  split_bytes-AreRows st (b ∷ bs) =
      let rest = split_bytes-AreRows (random_elements g (threshold - 1) st).1 bs in
      record {
        polynomials = (b, (random_elements g (threshold - 1) st).0) ∷ rest.polynomials;
        drawn = grown rest.polynomials rest.drawn;
        state = rest.state;
        returns =
            opened
            ∙ ap
                (λ r. r >>= λ r.
                  split_bytes g r.1 bs threshold (indices_to k) >>= λ rs. ok (r.0 ∷ rs.0, rs.1))
                (split_byte-ok st b)
            ∙ ap
                (λ r.
                  r >>= λ rs. ok (row (b, (random_elements g (threshold - 1) st).0) ∷ rs.0, rs.1))
                rest.returns;
        constants = ap (◌∷◌ b) rest.constants;
        degrees = (omega (arith, length-random_elements g (threshold - 1) st), rest.degrees);
      }
    where
      grown :
          (ps : List Shared)
          → ps ≡ drawn_polynomials g (threshold - 1) (random_elements g (threshold - 1) st).1 bs
          → (b, (random_elements g (threshold - 1) st).0) ∷ ps
            ≡ drawn_polynomials g (threshold - 1) st (b ∷ bs)
      grown ps e =
          unfold drawn_polynomials in ap (◌∷◌ (b, (random_elements g (threshold - 1) st).0)) e

      opened : split_bytes g st (b ∷ bs) threshold (indices_to k) ≡ (
          split_byte g st b threshold (indices_to k) >>= λ r.
          split_bytes g r.1 bs threshold (indices_to k) >>= λ rs. ok (r.0 ∷ rs.0, rs.1))
      opened = unfold split_bytes in refl

  -- What `split` returns: the shares are the columns of the table of polynomials and indices.
  pub record IsSharing {n : ℕ} (st : g.State) (secret : Array U8 n)
      (result : Outcome (SecretSharing n × g.State)) : Type 0 where
    pub polynomials : List Shared
    pub drawn : polynomials ≡ drawn_polynomials g (threshold - 1) st secret.items
    pub sharing : SecretSharing n
    pub state : g.State
    pub returns : result ≡ ok (sharing, state)
    pub constants : map (λ (p : Shared). p.0) polynomials ≡ secret.items
    pub degrees : All (λ (p : Shared). suc (length p.1) ≡ threshold) polynomials
    pub same_secret : sharing.secret ≡ secret
    pub same_indices : sharing.indices ≡ indices_to k
    pub columns :
        map (λ (a : Array U8 n). a.items) sharing.shares
        ≡ map (λ i. map (λ p. evaluation p i) polynomials) (indices_to k)

  split_rest : (n : ℕ) → Array U8 n → List (List U8) × g.State → Outcome (SecretSharing n × g.State)
  split_rest n secret r = transpose n r.0 >>= λ shares.
      ok (record { secret = secret; indices = indices_to k; shares = shares }, r.1)

  shares_of :
      (n : ℕ) (ps : List Shared)
      → 0 < n
      → length ps ≡ n
      → (shares : List (Array U8 n)) × (transpose n (map row ps) ≡ ok shares)
        × (map (λ (a : Array U8 n). a.items) shares
            ≡ map (λ i. map (λ p. evaluation p i) ps) (indices_to k))
  shares_of n [] pos e = absurd (omega arith)
  shares_of n (p ∷ ps) pos e =
      subst
        (λ m.
          (shares : List (Array U8 m)) × (transpose m (map row (p ∷ ps)) ≡ ok shares)
          × (map (λ (a : Array U8 m). a.items) shares
              ≡ map (λ i. map (λ p. evaluation p i) (p ∷ ps)) (indices_to k)))
        e
        (
          map (column evaluation (p ∷ ps)) (indices_to k),
          transpose_table evaluation (indices_to k) p ps,
          map-map _ (column evaluation (p ∷ ps)) (indices_to k),
        )

  pub split-IsSharing :
      (n : ℕ) (st : g.State) (secret : Array U8 n)
      → 0 < n
      → IsSharing st secret (split g n st secret threshold k)
  split-IsSharing n st secret pos =
      let rows = split_bytes-AreRows st secret.items in
      let (shares, transposed, columns) = shares_of n rows.polynomials pos (
        sym (length-map (λ (p : Shared). p.0) rows.polynomials)
        ∙ ap length rows.constants
        ∙ secret.size) in
      record {
        polynomials = rows.polynomials;
        drawn = rows.drawn;
        sharing = record { secret = secret; indices = indices_to k; shares = shares };
        state = rows.state;
        returns =
            opened
            ∙ ap (λ r. r >>= split_rest n secret) rows.returns
            ∙ after rows.polynomials rows.state shares transposed;
        constants = rows.constants;
        degrees = rows.degrees;
        same_secret = refl;
        same_indices = refl;
        columns = columns;
      }
    where
      guards : (ltb k threshold || threshold == 0) ≡ false
      guards = ground arith

      opened :
          split g n st secret threshold k
          ≡ (split_bytes g st secret.items threshold (indices_to k) >>= split_rest n secret)
      opened = unfold split split_rest in rw guards

      after :
          (ps : List Shared) (st' : g.State) (shares : List (Array U8 n))
          → transpose n (map row ps) ≡ ok shares
          → split_rest n secret (map row ps, st')
            ≡ ok (record { secret = secret; indices = indices_to k; shares = shares }, st')
      after ps st' shares e = unfold split_rest in rw e
