-- ===== src/Machine.antt =====
-- What the kernel's C code runs on: panic as a result, and memory as 64-bit words.
-- `panic` (kernel/src/arch/x86_64/panic.c) halts, so nothing runs after it.
use bikeshed.Prelude.{ℕ, ◌^◌, ◌≡◌, refl, ap, Bool, true, false, ◌==◌, if◌then◌else◌}

pub data Result {ℓ} (A : Type ℓ) : Type ℓ where
  panic : Result A
  ok : A → Result A

infixl 5 ◌>>=◌
abbrev pub ◌>>=◌ {ℓ κ} :
    {A : Type ℓ} {B : Type κ} (first : Result A) (next : A → Result B) → Result B
panic >>= next = panic
ok x >>= next = next x

-- A check, and what follows it.
infixl 5 ◌>>◌
abbrev pub ◌>>◌ {κ} : {B : Type κ} → Result (Unit {0}) → Result B → Result B
check >> next = check >>= λ _. next

-- A bind returns only if both parts do.
pub bind-ok {κ ℓ} :
    {B : Type κ} {A : Type ℓ} (first : Result A) (next : A → Result B) {out : B}
    → (first >>= next) ≡ ok out
    → (x : A) × (first ≡ ok x) × (next x ≡ ok out)
bind-ok panic next h = absurd (cc)
bind-ok (ok x) next h = (x, refl, h)

-- What is returned is determined.
pub from_ok {ℓ} : {A : Type ℓ} (x y : A) → ok x ≡ ok y → x ≡ y
from_ok {A = A} x y e = ap (λ (r : Result A). elim r [ panic ↦ x | ok z ↦ z ]) e

-- The result of a run that returns, and whether it does.
abbrev pub returned {ℓ} : {A : Type ℓ} → Result A → A → A
returned panic start = start
returned (ok s) start = s

abbrev pub returns {ℓ} : {A : Type ℓ} → Result A → Bool
returns panic = false
returns (ok s) = true

pub returns-ok {ℓ} :
    {A : Type ℓ} (r : Result A) (start : A) → returns r ≡ true → r ≡ ok (returned r start)
returns-ok panic start h = absurd (cc)
returns-ok (ok s) start h = refl

-- The macro ASSERT of safety.h.
abbrev pub assert : Bool → Result (Unit {0})
assert true = ok tt
assert false = panic

-- The 64-bit word at each address that is a multiple of 8.
abbrev pub Mem : Type 0
Mem = ℕ → ℕ

abbrev pub store : Mem → ℕ → ℕ → Mem
store m a v b = if b == a then v else m b

abbrev pub word : ℕ
word = 2 ^ 64
