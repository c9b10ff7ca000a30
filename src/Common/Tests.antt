-- ===== src/Common/Tests.antt =====
-- Boolean tests on native numbers, and the case split on a computed test.
use Prim.Native.Nat.{ℕ, zero, suc, ◌+◌, ◌≤◌, ◌<◌, compare, Ordering}
use mathlib.Core.Path.{◌≡◌, refl, sym}
use mathlib.Core.Logic.{◌↔◌, ◌⊎◌, inl, inr}
use mathlib.Core.Bool.{Bool, true, false, ◌&&◌}
use native.Mathlib.Omega.{arith}

abbrev pub ltb : ℕ → ℕ → Bool
ltb a b = elim (compare a b) [ Ordering.lt ↦ true | _ ↦ false ]

abbrev pub leb : ℕ → ℕ → Bool
leb a b = elim (compare a b) [ Ordering.gt ↦ false | _ ↦ true ]

infix 50 ◌==◌
abbrev pub ◌==◌ : ℕ → ℕ → Bool
a == b = elim (compare a b) [ Ordering.eq ↦ true | _ ↦ false ]

infix 1 if◌then◌else◌
abbrev pub if◌then◌else◌ {ℓ} : {A : Type ℓ} → Bool → A → A → A
if true then x else y = x
if false then x else y = y

pub ==_iff : (a b : ℕ) → ((a == b) ≡ true) ↔ (a ≡ b)
==_iff a b = ground arith

pub Bool-cases : (b : Bool) → (b ≡ true) ⊎ (b ≡ false)
Bool-cases true = inl refl
Bool-cases false = inr refl

first_or_later : (start k : ℕ) → start ≤ k → (start ≡ k) ⊎ (suc start ≤ k)
first_or_later start k from = ground arith

both : (a b : Bool) → (a && b) ≡ true → (a ≡ true) × (b ≡ true)
both a b h = ground arith

unfoldable pub count_holds : (test : ℕ → Bool) → ℕ → ℕ → Bool
count_holds test start zero = true
count_holds test start (suc more) = count_holds test (suc start) more && test start

-- A test that holds at `more` numbers from `start` on holds at each of them.
pub count_holds-at :
    (test : ℕ → Bool) (start more : ℕ)
    → count_holds test start more ≡ true
    → (k : ℕ) → start ≤ k
    → k < start + more
    → test k ≡ true
unfolding count_holds
count_holds-at test start zero h k from below = absurd (omega arith)
count_holds-at test start (suc more) h k from below = elim (first_or_later start k from) [
  | inl e ↦ rw (sym e) (both _ _ h).1
  | inr later ↦ count_holds-at test (suc start) more (both _ _ h).0 k later (omega arith)
]
