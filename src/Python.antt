-- ===== src/Python.antt =====
-- What the functions for Python of lib.rs and seal/bindings.rs return: `PyResult`. An exception
-- stands by its class, without its message; a panic of the crate stands beside the exceptions.
use pysui_crypto.Common.{ap, ◌≡◌, refl, List, [], ◌∷◌, Option, none, some, Outcome, ok, err, panic}

pub data PyErr : Type 0 where
  value_error runtime_error : PyErr

pub data PyResult {ℓ} (A : Type ℓ) : Type ℓ where
  returned : A → PyResult A
  raised : PyErr → PyResult A
  panicked : PyResult A

infixl 5 ◌>>=◌
abbrev pub ◌>>=◌ {ℓ κ} : {A : Type ℓ} {B : Type κ} → PyResult A → (A → PyResult B) → PyResult B
returned a >>= f = f a
raised e >>= f = raised e
panicked >>= f = panicked

-- `map_err(…)` on a result of fastcrypto.
abbrev pub map_err {ℓ} : {A : Type ℓ} → PyErr → Outcome A → PyResult A
map_err e (ok a) = returned a
map_err e (err e') = raised e
map_err e panic = panicked

-- `map_err(…)` on a result of another library, which stands as an option, and `ok_or_else(…)`.
abbrev pub ok_or {ℓ} : {A : Type ℓ} → PyErr → Option A → PyResult A
ok_or e none = raised e
ok_or e (some a) = returned a

-- `iter().map(f).collect::<PyResult<_>>()`.
unfoldable pub collect {ℓ κ} :
    {A : Type ℓ} {B : Type κ} → (A → PyResult B) → List A → PyResult (List B)
collect f [] = returned []
collect f (x ∷ xs) = do y ← f x; ys ← collect f xs; returned (y ∷ ys)

-- `map(f).transpose()`.
abbrev pub transpose {ℓ κ} :
    {A : Type ℓ} {B : Type κ} → (A → PyResult B) → Option A → PyResult (Option B)
transpose f none = returned none
transpose f (some a) = f a >>= λ b. returned (some b)

pub returned_injective {ℓ} : {A : Type ℓ} {a b : A} → returned a ≡ returned b → a ≡ b
returned_injective e = cc

-- Inversion of a bind that returns.
pub >>=-eq-returned {ℓ κ} :
    {A : Type ℓ} {B : Type κ} (m : PyResult A) (f : A → PyResult B) (b : B)
    → (m >>= f) ≡ returned b
    → (a : A) × (m ≡ returned a) × (f a ≡ returned b)
>>=-eq-returned (returned a) f b h = (a, refl, h)
>>=-eq-returned (raised e) f b h = cc
>>=-eq-returned panicked f b h = cc

pub ok_or-eq-returned {ℓ} :
    {A : Type ℓ} (e : PyErr) (o : Option A) (a : A) → ok_or e o ≡ returned a → o ≡ some a
ok_or-eq-returned e none a h = cc
ok_or-eq-returned e (some b) a h = ap some (returned_injective h)

pub map_err-eq-returned {ℓ} :
    {A : Type ℓ} (e : PyErr) (o : Outcome A) (a : A) → map_err e o ≡ returned a → o ≡ ok a
map_err-eq-returned e (ok b) a h = ap ok (returned_injective h)
map_err-eq-returned e (err x) a h = cc
map_err-eq-returned e panic a h = cc
