-- ===== src/Common/Panics.antt =====
-- Calls that return, with a value or an error, and do not panic; and what a success tells.
use Prim.Native.Nat.{ℕ, zero, suc}
use mathlib.Core.Path.{◌≡◌, refl, subst, sym, ap, ◌∙◌}
use mathlib.Core.List.{List, [], ◌∷◌}
use mathlib.Core.Bool.{Bool, true, false}
use pysui_crypto.Common.Tests.{if◌then◌else◌}
use pysui_crypto.Common.Lists.{length, All}
use pysui_crypto.Common.Results.{
  Outcome, ok, err, panic, FastCryptoError, ◌>>=◌, map_ok, traverse, index, ok_injective,
}

abbrev pub Returns {ℓ} : {A : Type ℓ} → Outcome A → Type ℓ
Returns r = ¬ (r ≡ panic)

pub Returns-ok {ℓ} : {A : Type ℓ} (a : A) → Returns (ok a)
Returns-ok a h = cc

pub Returns-err {ℓ} : {A : Type ℓ} (e : FastCryptoError) → Returns {A = A} (err e)
Returns-err e h = cc

pub Returns-eq {ℓ} : {A : Type ℓ} {r s : Outcome A} → r ≡ s → Returns s → Returns r
Returns-eq e h p = h (sym e ∙ p)

pub Returns->>= {ℓ κ} :
    {A : Type ℓ} {B : Type κ} (m : Outcome A) (f : A → Outcome B)
    → Returns m
    → ((a : A) → m ≡ ok a → Returns (f a))
    → Returns (m >>= f)
Returns->>= (ok a) f h k = k a refl
Returns->>= (err e) f h k = Returns-err e
Returns->>= panic f h k = absurd (h refl)

pub Returns-map_ok {ℓ κ} :
    {A : Type ℓ} {B : Type κ} (f : A → B) (m : Outcome A) → Returns m → Returns (map_ok f m)
Returns-map_ok f (ok a) h = Returns-ok (f a)
Returns-map_ok f (err e) h = Returns-err e
Returns-map_ok f panic h = absurd (h refl)

pub Returns-traverse {ℓ κ} :
    {A : Type ℓ} {B : Type κ} (f : A → Outcome B) (xs : List A)
    → All (λ x. Returns (f x)) xs
    → Returns (traverse f xs)
unfolding traverse
Returns-traverse f [] h = Returns-ok []
Returns-traverse f (x ∷ xs) h =
    Returns->>= (f x) _ h.0
      (λ y e. Returns-map_ok (◌∷◌ y) (traverse f xs) (Returns-traverse f xs h.1))

pub Returns-if {ℓ} :
    {A : Type ℓ} (b : Bool) (x y : Outcome A) → Returns x → Returns y → Returns (if b then x else y)
Returns-if true x y h k = h
Returns-if false x y h k = k

pub Returns-guard {ℓ} :
    {A : Type ℓ} (b : Bool) (x y : Outcome A)
    → Returns x
    → (b ≡ false → Returns y)
    → Returns (if b then x else y)
Returns-guard true x y h k = h
Returns-guard false x y h k = k refl

-- Inversion of a bind that succeeds.
pub >>=-eq-ok {ℓ κ} :
    {A : Type ℓ} {B : Type κ} (m : Outcome A) (f : A → Outcome B) (b : B)
    → (m >>= f) ≡ ok b
    → (a : A) × (m ≡ ok a) × (f a ≡ ok b)
>>=-eq-ok (ok a) f b h = (a, refl, h)
>>=-eq-ok (err e) f b h = cc
>>=-eq-ok panic f b h = cc

pub map_ok-eq-ok {ℓ κ} :
    {A : Type ℓ} {B : Type κ} (f : A → B) (m : Outcome A) (b : B)
    → map_ok f m ≡ ok b
    → (a : A) × (m ≡ ok a) × (f a ≡ b)
map_ok-eq-ok f (ok a) b h = (a, refl, ok_injective h)
map_ok-eq-ok f (err e) b h = cc
map_ok-eq-ok f panic b h = cc

pub length-traverse {ℓ κ} :
    {A : Type ℓ} {B : Type κ} (f : A → Outcome B) (xs : List A) (ys : List B)
    → traverse f xs ≡ ok ys
    → length ys ≡ length xs
unfolding traverse
length-traverse f [] ys h = ap length (sym (ok_injective h))
length-traverse f (x ∷ xs) ys h =
    let (y, _, rest) = >>=-eq-ok (f x) _ ys h in
    let (zs, more, e) = map_ok-eq-ok (◌∷◌ y) (traverse f xs) ys rest in
    ap length (sym e) ∙ ap suc (length-traverse f xs zs more)

-- A guard that let a success through.
pub guard-eq-ok {ℓ} :
    {A : Type ℓ} (b : Bool) (e : FastCryptoError) (y : Outcome A) (a : A)
    → (if b then err e else y) ≡ ok a
    → (b ≡ false) × (y ≡ ok a)
guard-eq-ok true e y a h = cc
guard-eq-ok false e y a h = (refl, h)

index_cons {ℓ κ} :
    {A : Type ℓ} {B : Type κ} (f : A → Outcome B) (z x : A) (xs : List A) (y : B) (zs : List B)
    (i : ℕ)
    → f z ≡ ok y
    → ((j : ℕ) → index xs j ≡ ok x → (b : B) × (index zs j ≡ ok b) × (f x ≡ ok b))
    → index (z ∷ xs) i ≡ ok x
    → (b : B) × (index (y ∷ zs) i ≡ ok b) × (f x ≡ ok b)
unfolding index
index_cons f z x xs y zs zero here there e = (y, refl, ap f (sym (ok_injective e)) ∙ here)
index_cons f z x xs y zs (suc i) here there e = there i e

-- The element of a traversal at a position.
pub index-traverse {ℓ κ} :
    {A : Type ℓ} {B : Type κ} (f : A → Outcome B) (xs : List A) (ys : List B) (i : ℕ) (x : A)
    → traverse f xs ≡ ok ys
    → index xs i ≡ ok x
    → (y : B) × (index ys i ≡ ok y) × (f x ≡ ok y)
unfolding traverse
index-traverse f [] ys i x h e = absurd (unfold index in cc e)
index-traverse {B} f (z ∷ xs) ys i x h e =
    let (y, here, rest) = >>=-eq-ok (f z) _ ys h in
    let (zs, there, joined) = map_ok-eq-ok (◌∷◌ y) (traverse f xs) ys rest in
    subst (λ ys. (b : B) × (index ys i ≡ ok b) × (f x ≡ ok b)) joined
      (index_cons f z x xs y zs i here (λ j e'. index-traverse f xs zs j x there e') e)
