-- ===== src/Core/Consistency.antt =====
-- What a successful check against the public keys fixes, on any encrypted object.
use pysui_crypto.Common.{
  ℕ, ◌≡◌, refl, sym, ap, ap₂, ◌∙◌, Bool, true, false, not, List, [], ◌∷◌, map, length, All, Outcome,
  ok, ok_injective, err, general_error, >>=-eq-ok, map_ok, map_ok-eq-ok, traverse, if◌then◌else◌,
  ◌==◌, Array_ext, arith, invalid_input,
}
use mathlib.Core.List.{zip}
use pysui_crypto.Byte.{U8, of_ℕ}
use pysui_crypto.Polynomial.{Polynomial}
use pysui_crypto.Tss.{interpolate, evaluate_all}
use pysui_crypto.Dem.{Key, bytes_eq}
use pysui_crypto.Dem.RoundTrip.{bytes_eq_sound}
use pysui_crypto.Groups.{Curve, CurveLaws}
use pysui_crypto.Ibe.{ObjectId, Block, decrypt_randomness, verify_nonce, decrypt_deterministic}
use pysui_crypto.Ibe.Laws.{verify_nonce_lem}
use pysui_crypto.Core.{
  encrypted_randomness, IbeEncryptions, derive_key, decrypt_all_shares_and_verify_nonce,
  any_differs, combine_and_check_share_consistency,
}

module _ (c : Curve) where
  -- Shares that do not differ from the closure are what it gives.
  any_differs-eq-false :
      (ps : List Polynomial) (shares : List (U8 × Block))
      → any_differs c ps shares ≡ ok false
      → All (λ s. evaluate_all 32 ps s.0 ≡ ok s.1) shares
  unfolding any_differs
  any_differs-eq-false ps [] h = tt
  any_differs-eq-false ps (s ∷ shares) h =
      let (v, e, test) = >>=-eq-ok (evaluate_all 32 ps s.0) _ false h in
      let both = passed v test in
      (
        e ∙ ap ok (Array_ext v s.1 (bytes_eq_sound v.items s.1.items both.0)),
        any_differs-eq-false ps shares both.1,
      )
    where
      passed :
          (v : Block)
          → (if bytes_eq v.items s.1.items then any_differs c ps shares else ok true) ≡ ok false
          → (bytes_eq v.items s.1.items ≡ true) × (any_differs c ps shares ≡ ok false)
      passed v t = ground arith

  -- The round of `decrypt_all_shares_and_verify_nonce` at one service.
  abbrev pub decrypt_one :
      c.Scalar → List U8 → (c.g2.Elt × Block) × (ObjectId × U8) → Outcome (U8 × Block)
  decrypt_one r id t =
      map_ok (λ plaintext. (t.1.1, plaintext)) (decrypt_deterministic c r t.0.1 t.0.0 id t.1)

  pub indices_of_traverse :
      (r : c.Scalar) (id : List U8) (ts : List ((c.g2.Elt × Block) × (ObjectId × U8)))
      (all : List (U8 × Block))
      → traverse (decrypt_one r id) ts ≡ ok all
      → map (λ (s : U8 × Block). s.0) all ≡ map (λ t. t.1.1) ts
  unfolding traverse
  indices_of_traverse r id [] all h = ap (map (λ (s : U8 × Block). s.0)) (sym (ok_injective h))
  indices_of_traverse r id (t ∷ ts) all h =
      let (s, e, rest) = >>=-eq-ok (decrypt_one r id t) _ all h in
      let (plain, _, same) =
        map_ok-eq-ok (λ plaintext. (t.1.1, plaintext))
          (decrypt_deterministic c r t.0.1 t.0.0 id t.1) s e in
      let (more, e', joined) = map_ok-eq-ok (◌∷◌ s) (traverse (decrypt_one r id) ts) all rest in
      ap (map (λ (s : U8 × Block). s.0)) (sym joined)
      ∙ ap₂ ◌∷◌ (ap (λ (s : U8 × Block). s.0) (sym same)) (indices_of_traverse r id ts more e')

  -- What the check found: the closure through the shares, the randomness and all shares.
  pub record IsChecked (e : IbeEncryptions c) (shares : List (U8 × Block)) (id : List U8)
      (services : List (ObjectId × U8)) (public_keys : List c.g2.Elt) (base_key : Key)
      : Type 0 where
    pub ps : List Polynomial
    pub interpolated : interpolate 32 shares ≡ ok ps
    pub at_zero : evaluate_all 32 ps (of_ℕ 0) ≡ ok base_key
    pub r : c.Scalar
    pub nonce : c.g2.mul c.g2.generator r ≡ e.nonce
    pub all : List (U8 × Block)
    pub sizes : length public_keys ≡ length e.encrypted_shares
    pub decrypted :
        traverse (decrypt_one r id) (zip (zip public_keys e.encrypted_shares) services) ≡ ok all
    pub matches : All (λ s. evaluate_all 32 ps s.0 ≡ ok s.1) all

  pub combine_and_check-IsChecked :
      (laws : CurveLaws c) (e : IbeEncryptions c) (shares : List (U8 × Block)) (id : List U8)
      (services : List (ObjectId × U8)) (threshold : ℕ) (public_keys : List c.g2.Elt)
      (base_key : Key)
      → combine_and_check_share_consistency c e shares id services threshold public_keys
        ≡ ok base_key
      → IsChecked e shares id services public_keys base_key
  unfolding combine_and_check_share_consistency decrypt_all_shares_and_verify_nonce
  combine_and_check-IsChecked laws e shares id services threshold public_keys base_key h =
      let (ps, interpolated, h1) = >>=-eq-ok (interpolate 32 shares) _ base_key h in
      let (k, at_zero, h2) = >>=-eq-ok (evaluate_all 32 ps (of_ℕ 0)) _ base_key h1 in
      let (all, decrypted, h3) =
        >>=-eq-ok (decrypt_all_shares_and_verify_nonce c e id services public_keys k threshold) _
          base_key h2 in
      let (inconsistent, compared, h4) = >>=-eq-ok (any_differs c ps all) _ base_key h3 in
      let (key, _, d1) =
        >>=-eq-ok
          (derive_key c encrypted_randomness k e.encrypted_shares threshold
            (map (λ s. s.0) services))
          _ all decrypted in
      let (r, _, d2) = >>=-eq-ok (decrypt_randomness c e.encrypted_randomness key) _ all d1 in
      let (done, checked, d3) = >>=-eq-ok (verify_nonce c r e.nonce) _ all d2 in
      let last = consistent inconsistent k h4 in
      let sized = same_sizes all _ d3 in
      record {
        ps = ps;
        interpolated = interpolated;
        at_zero = at_zero ∙ ap ok last.1;
        r = r;
        nonce = (verify_nonce_lem c laws r e.nonce).0 (checked ∙ ap ok refl);
        all = all;
        sizes = sized.0;
        decrypted = sized.1;
        matches = any_differs-eq-false ps all (compared ∙ ap ok last.0);
      }
    where
      consistent :
          (b : Bool) (k : Key)
          → (if b then err (general_error "Inconsistent shares") else ok k) ≡ ok base_key
          → (b ≡ false) × (k ≡ base_key)
      consistent true k t = cc
      consistent false k t = (refl, ok_injective t)

      same_sizes :
          (all : List (U8 × Block)) (y : Outcome (List (U8 × Block)))
          → (if not (length public_keys == length e.encrypted_shares) then err invalid_input else y)
            ≡ ok all
          → (length public_keys ≡ length e.encrypted_shares) × (y ≡ ok all)
      same_sizes all y t = ground arith
