-- ===== src/Prelude/Members.antt =====
-- Membership, distinctness and removal for lists of addresses, as Boolean tests.
use Prim.Native.Nat.{ℕ, suc}
use mathlib.Core.Path.{◌≡◌, refl}
use mathlib.Core.Logic.{inl, inr}
use mathlib.Core.Bool.{Bool, true, false, ◌||◌}
use mathlib.Core.List.{List, [], ◌∷◌}
use native.Mathlib.Omega.{arith}
use bikeshed.Prelude.Tests.{◌==◌, ==_iff, if◌then◌else◌, Bool-cases}
use bikeshed.Prelude.Lists.{length, All}

abbrev pub has : ℕ → List ℕ → Bool
has a [] = false
has a (x ∷ xs) = (a == x) || has a xs

abbrev pub Distinct : List ℕ → Type 0
Distinct [] = Unit
Distinct (x ∷ xs) = (has x xs ≡ false) × Distinct xs

-- `xs` without the first occurrence of `a`.
abbrev pub erase : List ℕ → ℕ → List ℕ
erase [] a = []
erase (x ∷ xs) a = if a == x then xs else x ∷ erase xs a

-- No address stands in both lists.
abbrev pub Apart : List ℕ → List ℕ → Type 0
Apart xs ys = (a : ℕ) → has a xs ≡ true → has a ys ≡ false

pub has-erase_out : (a b : ℕ) (xs : List ℕ) → has a xs ≡ false → has a (erase xs b) ≡ false
has-erase_out a b [] h = refl
has-erase_out a b (x ∷ xs) h = ground (arith, has-erase_out a b xs)

pub has-erase : (a b : ℕ) (xs : List ℕ) → has a (erase xs b) ≡ true → has a xs ≡ true
has-erase a b [] h = h
has-erase a b (x ∷ xs) h = ground (arith, has-erase a b xs)

pub has-erase_self : (a : ℕ) (xs : List ℕ) → Distinct xs → has a (erase xs a) ≡ false
has-erase_self a [] d = refl
has-erase_self a (x ∷ xs) d = ground (arith, has-erase_self a xs)

pub Distinct-erase : (a : ℕ) (xs : List ℕ) → Distinct xs → Distinct (erase xs a)
Distinct-erase a [] d = tt
Distinct-erase a (x ∷ xs) d = ground (arith, Distinct-erase a xs, has-erase_out x a xs)

pub length-erase : (a : ℕ) (xs : List ℕ) → has a xs ≡ true → length xs ≡ suc (length (erase xs a))
length-erase a [] h = cc
length-erase a (x ∷ xs) h = ground (arith, length-erase a xs)

pub All-erase {ℓ} : (P : ℕ → Type ℓ) (a : ℕ) (xs : List ℕ) → All P xs → All P (erase xs a)
All-erase P a [] h = h
All-erase P a (x ∷ xs) h = elim (Bool-cases (a == x)) [
  | inl e ↦ rw e h.1
  | inr e ↦ rw e (h.0, All-erase P a xs h.1)
]

pub All-has {ℓ} : (P : ℕ → Type ℓ) (a : ℕ) (xs : List ℕ) → All P xs → has a xs ≡ true → P a
All-has P a [] h e = absurd (cc)
All-has P a (x ∷ xs) h e = elim (Bool-cases (a == x)) [
  | inl same ↦ rw ((==_iff a x).0 same) h.0
  | inr other ↦ All-has P a xs h.1 (ground arith)
]
