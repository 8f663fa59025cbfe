-- ===== src/Base/Count.antt =====
-- How often a number stands in a list, and membership by it.
use Prim.Native.Nat.{ℕ, ◌+◌, ◌<◌}
use mathlib.Core.Path.{◌≡◌, refl}
use mathlib.Core.List.{List, [], ◌∷◌, ◌++◌}
use mathlib.Core.Bool.{false}
use native.Mathlib.Omega.{arith}
use libkpnet.Base.Lists.{length}
use libkpnet.Base.Tests.{◌==◌, if◌then◌else◌, Bool-cases, ==_iff}
use mathlib.Core.Logic.{inl, inr}

abbrev pub count : ℕ → List ℕ → ℕ
count a [] = 0
count a (x ∷ xs) = (if x == a then 1 else 0) + count a xs

infix 50 ◌∈◌
abbrev pub ◌∈◌ : ℕ → List ℕ → Type 0
a ∈ xs = 0 < count a xs

pub count-append : (c : ℕ) (us vs : List ℕ) → count c (us ++ vs) ≡ count c us + count c vs
count-append c [] vs = omega arith
count-append c (u ∷ us) vs = omega (arith, count-append c us vs)

-- Taking the first occurrence out.
pub remove : ℕ → List ℕ → List ℕ
remove a [] = []
remove a (x ∷ xs) = if x == a then xs else x ∷ remove a xs

pub count-remove_self : (a : ℕ) (xs : List ℕ) → a ∈ xs → count a (remove a xs) + 1 ≡ count a xs
unfolding remove
count-remove_self a [] h = absurd (omega arith)
count-remove_self a (x ∷ xs) h = ground (arith, count-remove_self a xs)

pub count-remove_ne :
    (a b : ℕ) (xs : List ℕ) → (a == b) ≡ false → count b (remove a xs) ≡ count b xs
unfolding remove
count-remove_ne a b [] h = refl
count-remove_ne a b (x ∷ xs) h = ground (arith, count-remove_ne a b xs h)

pub length-remove : (a : ℕ) (xs : List ℕ) → a ∈ xs → length (remove a xs) + 1 ≡ length xs
unfolding remove
length-remove a [] h = absurd (omega arith)
length-remove a (x ∷ xs) h = ground (arith, length-remove a xs)

pub count-release :
    (a b : ℕ) (xs : List ℕ) → a ∈ xs → count b (remove a xs) + count b (a ∷ []) ≡ count b xs
count-release a b xs h = elim (Bool-cases (a == b)) [
  | inl e ↦ ground (arith, count-remove_self a xs h, ==_iff a b)
  | inr e ↦ rw e (omega (arith, count-remove_ne a b xs e))
]
