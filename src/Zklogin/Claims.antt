-- ===== src/Zklogin/Claims.antt =====
-- The claims of a token, and their bounds.
use pysui_crypto.Common.{
  ℕ, zero, suc, ◌+◌, ◌%◌, ◌≤◌, ◌≡◌, refl, sym, ap, subst, ◌∙◌, inl, inr, Bool, true, false, List,
  [], ◌∷◌, ◌++◌, length, ltb, arith, Bool-cases,
}
use pysui_crypto.Python.{value_error, returned, ok_or, >>=-eq-returned, returned_injective}
use pysui_crypto.Byte.{U8, to_ℕ, of_ℕ, eq}
use pysui_crypto.Byte.Numbers.{to_ℕ-of_ℕ, eq_iff}
use pysui_crypto.Zklogin.{
  as_str, audience, splitn, Libraries, claim_iss, claim_sub, claim_aud, claim_nonce, refuse_if,
  read_claims, claims_of_parts, extract_jwt_claims,
}

-- The parts joined by dots.
abbrev pub join_dots : List (List U8) → List U8
join_dots [] = []
join_dots (x ∷ []) = x
join_dots (x ∷ (y ∷ rest)) = x ++ (of_ℕ 46 ∷ join_dots (y ∷ rest))

splitn_some : (n : ℕ) (s : List U8) → (x : List U8) × (xs : List (List U8)) × (splitn n s ≡ x ∷ xs)
unfolding splitn
splitn_some zero s = (s, [], refl)
splitn_some (suc n) [] = ([], [], refl)
splitn_some (suc n) (b ∷ bs) = elim (Bool-cases (eq b (of_ℕ 46))) [
  | inl e ↦ ([], splitn n bs, rw e refl)
  | inr e ↦ let (x, xs, h) = splitn_some (suc n) bs in (b ∷ x, xs, rw (e, h) refl)
]

join_dots-cons :
    (b : U8) (x : List U8) (xs : List (List U8)) → join_dots ((b ∷ x) ∷ xs) ≡ b ∷ join_dots (x ∷ xs)
join_dots-cons b x [] = refl
join_dots-cons b x (y ∷ xs) = refl

join_dots-splitn : (n : ℕ) (s : List U8) → join_dots (splitn n s) ≡ s
unfolding splitn
join_dots-splitn zero s = refl
join_dots-splitn (suc n) [] = refl
join_dots-splitn (suc n) (b ∷ bs) = elim (Bool-cases (eq b (of_ℕ 46))) [
  | inl e ↦
      let (x, xs, h) = splitn_some n bs in
      let rest = sym (ap join_dots h) ∙ join_dots-splitn n bs in
      rw (e, h) (ap (λ t. of_ℕ 46 ∷ t) rest ∙ ap (λ t. t ∷ bs) (sym ((eq_iff b (of_ℕ 46)).0 e)))
  | inr e ↦
      let (x, xs, h) = splitn_some (suc n) bs in
      rw (e, h)
        (join_dots-cons b x xs ∙ ap (◌∷◌ b) (sym (ap join_dots h) ∙ join_dots-splitn (suc n) bs))
]

-- The bounds of a token and of its claims.
pub record IsBounded (jwt iss aud : List U8) : Type 0 where
  pub header : List U8
  pub payload : List U8
  pub signature : List U8
  pub joined : jwt ≡ header ++ (of_ℕ 46 ∷ (payload ++ (of_ℕ 46 ∷ signature)))
  pub header_bound : length header ≤ 248
  pub signed_bound : length header + 1 + length payload ≤ 1600
  pub iss_bound : length iss ≤ 255
  pub aud_bound : length aud ≤ 145
  -- The length byte that `hash_zklogin_address` hashes before iss.
  pub iss_length : to_ℕ (of_ℕ (length iss)) ≡ length iss

module _ (lib : Libraries) where
  refuse_if-passed : (b n : ℕ) (u : Unit {0}) → refuse_if (ltb b n) ≡ returned u → n ≤ b
  refuse_if-passed b n u h = below b n (unpassed (ltb b n) h)
    where
      unpassed : (t : Bool) → refuse_if t ≡ returned u → t ≡ false
      unpassed true h = cc
      unpassed false h = refl

      below : (b n : ℕ) → ltb b n ≡ false → n ≤ b
      below b n h = ground arith

  read_claims_bounds :
      (payload : lib.Json) (iss sub aud nonce : List U8)
      → read_claims lib payload ≡ returned (iss, sub, aud, nonce)
      → (length iss ≤ 255) × (length aud ≤ 145)
  unfolding read_claims
  read_claims_bounds payload iss sub aud nonce h =
      let (iss', _, h1) =
        >>=-eq-returned (ok_or value_error (as_str (lib.member payload claim_iss))) _ _ h in
      let (u, fits, h2) = >>=-eq-returned (refuse_if (ltb 255 (length iss'))) _ _ h1 in
      let (sub', _, h3) =
        >>=-eq-returned (ok_or value_error (as_str (lib.member payload claim_sub))) _ _ h2 in
      let (aud', _, h4) =
        >>=-eq-returned (ok_or value_error (audience (lib.member payload claim_aud))) _ _ h3 in
      let (nonce', _, h5) =
        >>=-eq-returned (ok_or value_error (as_str (lib.member payload claim_nonce))) _ _ h4 in
      let (v, fits', h6) = >>=-eq-returned (refuse_if (ltb 145 (length aud'))) _ _ h5 in
      let result = returned_injective h6 in
      (
        subst (λ (t : List U8). length t ≤ 255)
            (ap (λ (r : List U8 × List U8 × List U8 × List U8). r.0) result)
            (refuse_if-passed 255 (length iss') u fits),
        subst (λ (t : List U8). length t ≤ 145)
            (ap (λ (r : List U8 × List U8 × List U8 × List U8). r.2) result)
            (refuse_if-passed 145 (length aud') v fits'),
      )

  parts_bounds :
      (jwt : List U8) (parts : List (List U8)) (iss sub aud nonce : List U8)
      → join_dots parts ≡ jwt
      → claims_of_parts lib parts ≡ returned (iss, sub, aud, nonce)
      → IsBounded jwt iss aud
  unfolding claims_of_parts
  parts_bounds jwt (header ∷ (payload ∷ (signature ∷ []))) iss sub aud nonce e h =
      let (u, fits, h1) = >>=-eq-returned (refuse_if (ltb 248 (length header))) _ _ h in
      let (v, fits', h2) =
        >>=-eq-returned (refuse_if (ltb 1600 (length header + 1 + length payload))) _ _ h1 in
      let (bytes, _, h3) =
        >>=-eq-returned (ok_or value_error (lib.base64_url_decode payload)) _ _ h2 in
      let (json, _, h4) = >>=-eq-returned (ok_or value_error (lib.json_from_slice bytes)) _ _ h3 in
      let (iss_bound, aud_bound) = read_claims_bounds json iss sub aud nonce h4 in
      record {
        header = header;
        payload = payload;
        signature = signature;
        joined = sym e;
        header_bound = refuse_if-passed 248 (length header) u fits;
        signed_bound = refuse_if-passed 1600 (length header + 1 + length payload) v fits';
        iss_bound = iss_bound;
        aud_bound = aud_bound;
        iss_length = to_ℕ-of_ℕ (length iss) ∙ small (length iss) iss_bound;
      }
    where
      small : (n : ℕ) → n ≤ 255 → n % 256 ≡ n
      small n h = omega arith
  parts_bounds jwt _ iss sub aud nonce e h = cc

  -- A token that `extract_jwt_claims` accepts is a header, a payload and a signature joined by
  -- dots, within these bounds: the header has at most 248 bytes, header and payload with their dot
  -- at most 1600, the claim iss at most 255 and aud at most 145. So the length of iss is not
  -- truncated to a byte.
  pub extract_jwt_claims-IsBounded :
      (jwt iss sub aud nonce : List U8)
      → extract_jwt_claims lib jwt ≡ returned (iss, sub, aud, nonce)
      → IsBounded jwt iss aud
  unfolding extract_jwt_claims
  extract_jwt_claims-IsBounded jwt iss sub aud nonce h =
      parts_bounds jwt (splitn 3 jwt) iss sub aud nonce (join_dots-splitn 3 jwt) h
