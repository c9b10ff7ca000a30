-- ===== src/Core/PublicKeys.antt =====
-- The check of all shares against the public keys, in `seal_decrypt`, on what `seal_encrypt` made.
use pysui_crypto.Common.{
  ◌≡◌, refl, sym, ap, ap₂, ◌∙◌, false, List, [], ◌∷◌, map, length, length-map, All, ok, map_ok,
  traverse, traverse-map, traverse-ok,
}
use mathlib.Core.List.{zip, zip_with}
use pysui_crypto.Byte.{U8, of_ℕ}
use pysui_crypto.Polynomial.{Polynomial}
use pysui_crypto.Tss.{interpolate, evaluate_all}
use pysui_crypto.Dem.RoundTrip.{bytes_eq_self}
use pysui_crypto.Groups.{Curve, CurveLaws}
use pysui_crypto.Ibe.{ObjectId, Block, public_key_from_master_key, decrypt_deterministic}
use pysui_crypto.Ibe.Laws.{Recipient, sealed, decrypt_deterministic-sealed, verify_nonce_lem}
use pysui_crypto.Core.{
  encrypted_randomness, combine_and_check_share_consistency, decrypt_all_shares_and_verify_nonce,
  any_differs,
}
use pysui_crypto.Core.Recipients.{map-recipients}
use pysui_crypto.Core.Keys.{equal, derive_key-ok}
use pysui_crypto.Core.Sealed.{
  Server, Sealing, ids, ts, made, cts, length-cts, encrypted, same_servers,
}
use pysui_crypto.Core.Opened.{randomness-ok}

-- Two zips of columns of one list.
zip-map :
    {A B C D : Type 0} (f : A → B) (g : A → C) (h : A → D) (xs : List A)
    → zip (zip (map f xs) (map g xs)) (map h xs) ≡ map (λ x. ((f x, g x), h x)) xs
unfolding zip zip_with
zip-map f g h [] = refl
zip-map f g h (x ∷ xs) = ap (◌∷◌ ((f x, g x), h x)) (zip-map f g h xs)

-- Shares that the closure gives do not differ from it.
pub any_differs-false :
    (c : Curve) (ps : List Polynomial) (shares : List (U8 × Block))
    → All (λ s. evaluate_all 32 ps s.0 ≡ ok s.1) shares
    → any_differs c ps shares ≡ ok false
unfolding any_differs
any_differs-false c ps [] h = refl
any_differs-false c ps (s ∷ shares) h =
    rw (h.0, bytes_eq_self s.1.items, any_differs-false c ps shares h.1) refl

module _ (c : Curve) (laws : CurveLaws c) (x : Sealing c) where
  open x use {id, r, base_key, threshold, servers, sharing, shares_size, indices_size}

  abbrev pub public_keys : List c.g2.Elt
  public_keys = map (λ s. public_key_from_master_key c s.1) servers

  same_public_keys :
      map (λ (t : Recipient c). public_key_from_master_key c t.1) (ts c x) ≡ public_keys
  same_public_keys =
      map-recipients (λ (s : Server c). public_key_from_master_key c s.1) sharing.shares servers
        sharing.indices shares_size indices_size

  all_shares :
      traverse
        (λ (t : (c.g2.Elt × Block) × (ObjectId × U8)).
          map_ok (λ plaintext. (t.1.1, plaintext)) (decrypt_deterministic c r t.0.1 t.0.0 id t.1))
        (zip (zip public_keys (cts c x)) (zip (ids c x) sharing.indices))
      ≡ ok (zip sharing.indices sharing.shares)
  all_shares =
      ap (traverse _) (
        ap₂ (λ pks ss. zip (zip pks (cts c x)) ss) (sym same_public_keys)
          (sym (made c x).same_infos)
        ∙ zip-map (λ (t : Recipient c). public_key_from_master_key c t.1) (sealed c r id)
            (λ (t : Recipient c). t.2) (ts c x))
      ∙ traverse-map _ _ (ts c x)
      ∙ traverse-ok _ (λ (t : Recipient c). (t.2.1, t.0)) (ts c x)
          (λ t.
            ap (map_ok (λ plaintext. (t.2.1, plaintext)))
              (decrypt_deterministic-sealed c laws r id t))
      ∙ ap ok (made c x).same_pairs

  decrypt_all_shares-ok :
      decrypt_all_shares_and_verify_nonce c
        (encrypted c x)
        id
        (zip (ids c x) sharing.indices)
        public_keys
        base_key
        threshold
      ≡ ok (zip sharing.indices sharing.shares)
  unfolding decrypt_all_shares_and_verify_nonce
  decrypt_all_shares-ok =
      rw
        (
          same_servers c x,
          derive_key-ok c encrypted_randomness base_key (cts c x) threshold (ids c x)
              (length-cts c x),
          randomness-ok c x laws,
          (verify_nonce_lem c laws r _).1 refl,
          equal (length public_keys) (length (cts c x)) sizes,
        )
        all_shares
    where
      sizes : length public_keys ≡ length (cts c x)
      sizes =
          length-map (λ (s : Server c). public_key_from_master_key c s.1) servers
          ∙ sym (length-cts c x ∙ length-map (λ (s : Server c). s.0) servers)

  -- The check passes where the closure gives the base key at zero and all shares at their indices.
  pub combine_and_check-ok :
      (picked : List (U8 × Block)) (ps : List Polynomial)
      → interpolate 32 picked ≡ ok ps
      → evaluate_all 32 ps (of_ℕ 0) ≡ ok base_key
      → All (λ s. evaluate_all 32 ps s.0 ≡ ok s.1) (zip sharing.indices sharing.shares)
      → combine_and_check_share_consistency c
          (encrypted c x)
          picked
          id
          (zip (ids c x) sharing.indices)
          threshold
          public_keys
        ≡ ok base_key
  unfolding combine_and_check_share_consistency
  combine_and_check-ok picked ps h at_zero everywhere =
      rw
        (
          h,
          at_zero,
          decrypt_all_shares-ok,
          any_differs-false c ps (zip sharing.indices sharing.shares) everywhere,
        )
        refl
