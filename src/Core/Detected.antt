-- ===== src/Core/Detected.antt =====
-- A user secret key that decrypts a share wrongly is found out, with public keys.
use pysui_crypto.Common.{
  ℕ, zero, suc, ◌+◌, ◌≡◌, sym, ap, subst, ◌∙◌, List, [], ◌∷◌, All, All-index, Option, some, ok,
  ok_injective, ◌>>=◌, >>=-eq-ok, map_ok-eq-ok, index, index-as_long, index-traverse,
  index-positions, arith,
}
use mathlib.Core.List.{zip, zip_with}
use pysui_crypto.Byte.{U8}
use pysui_crypto.Polynomial.{Polynomial}
use pysui_crypto.Tss.{interpolate, evaluate_all}
use pysui_crypto.Tss.Interpolate.{interpolate-evaluate_all}
use pysui_crypto.Tss.Total.{interpolate-eq-ok}
use pysui_crypto.Dem.{Primitives}
use pysui_crypto.Groups.{Curve, CurveLaws}
use pysui_crypto.Ibe.{ObjectId, Block, decrypt_deterministic}
use pysui_crypto.Ibe
use pysui_crypto.Core.{
  create_full_id, is_some, expect, EncryptedObject, decrypt_share, seal_decrypt,
}
use pysui_crypto.Core.Consistency.{decrypt_one, IsChecked, combine_and_check-IsChecked}
use pysui_crypto.Core.Decrypted.{IsDecrypted, seal_decrypt-IsDecrypted}

index-zip :
    {A B : Type 0} (xs : List A) (ys : List B) (i : ℕ) (x : A) (y : B)
    → index xs i ≡ ok x
    → index ys i ≡ ok y
    → index (zip xs ys) i ≡ ok (x, y)
unfolding index zip zip_with
index-zip [] ys i x y h k = cc
index-zip (a ∷ xs) [] i x y h k = cc
index-zip (a ∷ xs) (b ∷ ys) zero x y h k = cc
index-zip (a ∷ xs) (b ∷ ys) (suc i) x y h k = index-zip xs ys i x y h k

-- The closure that `interpolate` returns gives the shares.
at_shares :
    (shares : List (U8 × Block)) (ps : List Polynomial)
    → interpolate 32 shares ≡ ok ps
    → All (λ s. evaluate_all 32 ps s.0 ≡ ok s.1) shares
at_shares shares ps h =
    let (usable, _) = interpolate-eq-ok (omega arith) shares ps h in
    let (ps', e, match, _) = interpolate-evaluate_all 32 shares usable in
    subst (λ ps. All (λ s. evaluate_all 32 ps s.0 ≡ ok s.1) shares) (ok_injective (sym e ∙ h)) match

module _ (c : Curve) (object : EncryptedObject c) (keys : ObjectId → Option c.g1.Elt)
    (public_keys : List c.g2.Elt) where
  abbrev id : List U8
  id = create_full_id object.package_id object.id

  -- The user secret key gives what the encryptor put under the public key of the service.
  abbrev pub Agrees : c.Scalar → ℕ → ObjectId × U8 → c.g1.Elt → Type 0
  Agrees r i service usk =
      (pk : c.g2.Elt) × (ct : Block) × (index public_keys i ≡ ok pk)
      × (index object.encrypted_shares.encrypted_shares i ≡ ok ct)
      × (Ibe.decrypt c object.encrypted_shares.nonce ct usk id service
          ≡ decrypt_deterministic c r ct pk id service)

  module _ (i : ℕ) (service : ObjectId × U8) (usk : c.g1.Elt)
      (at_service : index object.services i ≡ ok service) (held : keys service.0 ≡ some usk) where
    share_parts :
        (s : U8 × Block) (ct : Block)
        → index object.encrypted_shares.encrypted_shares i ≡ ok ct
        → decrypt_share c object keys id i ≡ ok s
        → (s.0 ≡ service.1)
          × (Ibe.decrypt c object.encrypted_shares.nonce ct usk id service ≡ ok s.1)
    unfolding decrypt_share
    share_parts s ct at_ct h =
        let opened =
          sym (
            ap
              (λ o. o >>= λ (service : ObjectId × U8).
                index object.encrypted_shares.encrypted_shares i >>= λ encrypted_share.
                expect (keys service.0) >>= λ key.
                Ibe.decrypt c object.encrypted_shares.nonce encrypted_share key id service
                >>= λ share. ok (service.1, share))
              at_service)
          ∙ h in
        let opened_ct =
          sym (
            ap
              (λ o. o >>= λ encrypted_share. expect (keys service.0) >>= λ key.
                Ibe.decrypt c object.encrypted_shares.nonce encrypted_share key id service
                >>= λ share. ok (service.1, share))
              at_ct)
          ∙ opened in
        let opened_key =
          sym (
            ap
              (λ o. expect o >>= λ key.
                Ibe.decrypt c object.encrypted_shares.nonce ct key id service >>= λ share.
                ok (service.1, share))
              held)
          ∙ opened_ct in
        let (share, e, same) =
          >>=-eq-ok (Ibe.decrypt c object.encrypted_shares.nonce ct usk id service) _ s
            opened_key in
        (
          ap (λ (s : U8 × Block). s.0) (sym (ok_injective same)),
          e ∙ ap (λ (s : U8 × Block). ok s.1) (ok_injective same),
        )

    agrees_at :
        (lib : Primitives) (out : List U8) (d : IsDecrypted c lib object public_keys keys out)
        (checked : IsChecked c object.encrypted_shares d.shares id object.services public_keys
          d.base_key)
        → Agrees checked.r i service usk
    agrees_at lib out d checked =
        let (j, position) =
          index-positions (λ (s : ObjectId × U8). is_some (keys s.0)) 0 object.services i service
            at_service (ap is_some held) in
        let (s, at_s, decrypted) =
          index-traverse (decrypt_share c object keys id) _ d.shares j (0 + i) d.read position in
        let (pk, at_pk) =
          index-as_long object.services public_keys i service at_service
            (checked.sizes ∙ d.served) in
        let (ct, at_ct) =
          index-as_long object.services object.encrypted_shares.encrypted_shares i service
            at_service d.served in
        let (t, at_t, one) =
          index-traverse (decrypt_one c checked.r id)
            (zip (zip public_keys object.encrypted_shares.encrypted_shares) object.services)
            checked.all i ((pk, ct), service) checked.decrypted
            (index-zip (zip public_keys object.encrypted_shares.encrypted_shares) object.services i
              (pk, ct) service
              (index-zip public_keys object.encrypted_shares.encrypted_shares i pk ct at_pk at_ct)
              at_service) in
        let (plain, opened, same) =
          map_ok-eq-ok (λ plaintext. (service.1, plaintext))
            (decrypt_deterministic c checked.r ct pk id service) t one in
        let (first, shared) =
          share_parts s ct at_ct
            (ap (decrypt_share c object keys id) {x = i} {y = 0 + i} (omega arith) ∙ decrypted) in
        let mine =
          All-index (λ (s : U8 × Block). evaluate_all 32 checked.ps s.0 ≡ ok s.1) d.shares j s
            (at_shares d.shares checked.ps checked.interpolated) at_s in
        let theirs =
          All-index (λ (s : U8 × Block). evaluate_all 32 checked.ps s.0 ≡ ok s.1) checked.all i t
            checked.matches at_t in
        (
          pk,
          ct,
          at_pk,
          at_ct,
          shared
              ∙ sym mine
              ∙ ap (evaluate_all 32 checked.ps) (first ∙ ap (λ (s : U8 × Block). s.0) same)
              ∙ theirs
              ∙ ap (λ (s : U8 × Block). ok s.1) (sym same)
              ∙ sym opened,
        )

  -- Over groups with the laws of `CurveLaws`, where `seal_decrypt` with public keys succeeds, there
  -- is one scalar behind the nonce such that, for every service of which the user holds a key, the
  -- key decrypts the share of the service to what the scalar and the public key of the service do.
  -- So a key server whose key gives another share makes decryption fail.
  pub seal_decrypt-Agrees :
      CurveLaws c
      → (lib : Primitives) (out : List U8)
      → seal_decrypt c lib object keys (some public_keys) ≡ ok out
      → (r : c.Scalar) × (c.g2.mul c.g2.generator r ≡ object.encrypted_shares.nonce)
        × ((i : ℕ) (service : ObjectId × U8) (usk : c.g1.Elt)
            → index object.services i ≡ ok service
            → keys service.0 ≡ some usk
            → Agrees r i service usk)
  seal_decrypt-Agrees laws lib out h = (
    checked.r,
    checked.nonce,
    (λ i service usk at_service held. agrees_at i service usk at_service held lib out d checked),
  )
    where
      d : IsDecrypted c lib object public_keys keys out
      d = seal_decrypt-IsDecrypted c lib object public_keys keys out h

      checked :
          IsChecked c object.encrypted_shares d.shares id object.services public_keys d.base_key
      checked =
          combine_and_check-IsChecked c laws object.encrypted_shares d.shares id object.services
            object.threshold public_keys d.base_key d.check
