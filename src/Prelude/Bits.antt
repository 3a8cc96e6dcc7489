-- ===== src/Prelude/Bits.antt =====
-- `&` with a contiguous mask and `|` of disjoint fields, as arithmetic at every width.
mod Digits
use Digits.{bit_or_step, bit_and_step}
use Prim.Native.Nat.{ℕ, zero, suc, ◌+◌, ◌-◌, ◌*◌, ◌/◌, ◌%◌, ◌^◌, ◌≤◌, ◌<◌, bit_and, bit_or}
use mathlib.Core.Bool.{Bool, true, ◌&&◌}
use mathlib.Core.Path.{◌≡◌, refl, ap}
use native.Mathlib.Nat.{pow-suc, one-le-pow}
use native.Mathlib.Omega.{arith}

bit_and-zero_upto : (n a : ℕ) → a ≤ n → bit_and a 0 ≡ 0
bit_and-zero_upto zero zero h = refl
bit_and-zero_upto zero (suc a) h = absurd (omega arith)
bit_and-zero_upto (suc n) zero h = refl
bit_and-zero_upto (suc n) (suc a) h =
    omega (arith, bit_and_step (suc a) 0, bit_and-zero_upto n (suc a / 2) (omega arith))

pub bit_and-zero : (a : ℕ) → bit_and a 0 ≡ 0
bit_and-zero a = bit_and-zero_upto a a (omega arith)

bit_or-zero_upto : (n a : ℕ) → a ≤ n → bit_or a 0 ≡ a
bit_or-zero_upto zero zero h = refl
bit_or-zero_upto zero (suc a) h = absurd (omega arith)
bit_or-zero_upto (suc n) zero h = refl
bit_or-zero_upto (suc n) (suc a) h =
    omega (arith, bit_or_step (suc a) 0, bit_or-zero_upto n (suc a / 2) (omega arith))

pub bit_or-zero : (a : ℕ) → bit_or a 0 ≡ a
bit_or-zero a = bit_or-zero_upto a a (omega arith)

double-pow : (q k : ℕ) → q * 2 ^ suc k ≡ 2 * (q * 2 ^ k)
double-pow q k = omega (arith, ap (λ (t : ℕ). q * t) (pow-suc 2 k))

bit_and_low_parts : (k q r : ℕ) → r < 2 ^ k → bit_and (q * 2 ^ k + r) (2 ^ k - 1) ≡ r
bit_and_low_parts zero q r h = ground (arith, bit_and-zero (q * 1 + r))
bit_and_low_parts (suc k) q r h = ground (
  arith,
  bit_and_step (q * 2 ^ suc k + r) (2 ^ suc k - 1),
  double-pow q k,
  pow-suc 2 k,
  one-le-pow k 2,
  bit_and_low_parts k q (r / 2),
)

-- A mask of the `k` lowest bits is the remainder by `2 ^ k`.
pub bit_and_low : (k a : ℕ) → bit_and a (2 ^ k - 1) ≡ a % 2 ^ k
bit_and_low k a = ground (arith, one-le-pow k 2, bit_and_low_parts k (a / 2 ^ k) (a % 2 ^ k))

bit_and_shift_parts :
    (k q r b : ℕ) → r < 2 ^ k → bit_and (q * 2 ^ k + r) (b * 2 ^ k) ≡ bit_and q b * 2 ^ k
bit_and_shift_parts zero q r b h =
    let e : q * 2 ^ 0 + r ≡ q = omega arith in
    let e' : b * 2 ^ 0 ≡ b = omega arith in rw (e, e') (omega arith)
bit_and_shift_parts (suc k) q r b h = ground (
  arith,
  bit_and_step (q * 2 ^ suc k + r) (b * 2 ^ suc k),
  double-pow q k,
  double-pow b k,
  double-pow (bit_and q b) k,
  bit_and_shift_parts k q (r / 2) b,
)

-- A mask shifted up by `k` places.
pub bit_and_shift : (k a b : ℕ) → bit_and a (b * 2 ^ k) ≡ bit_and (a / 2 ^ k) b * 2 ^ k
bit_and_shift k a b =
    ground (arith, one-le-pow k 2, bit_and_shift_parts k (a / 2 ^ k) (a % 2 ^ k) b)

-- A mask of `j` bits above the `k` lowest.
pub bit_and_field : (j k a : ℕ) → bit_and a ((2 ^ j - 1) * 2 ^ k) ≡ a / 2 ^ k % 2 ^ j * 2 ^ k
bit_and_field j k a = rw (bit_and_shift k a (2 ^ j - 1), bit_and_low j (a / 2 ^ k)) refl

-- `|` with a number below `2 ^ k` leaves what stands above.
pub bit_or_parts :
    (k q r s : ℕ) → r < 2 ^ k → s < 2 ^ k → bit_or (q * 2 ^ k + r) s ≡ q * 2 ^ k + bit_or r s
bit_or_parts zero q r s h h' = ground (arith, bit_or-zero (q * 2 ^ 0 + r), bit_or-zero r)
bit_or_parts (suc k) q r s h h' = ground (
  arith,
  bit_or_step (q * 2 ^ suc k + r) s,
  bit_or_step r s,
  double-pow q k,
  bit_or_parts k q (r / 2) (s / 2),
)

pub bit_or-lt : (k r s : ℕ) → r < 2 ^ k → s < 2 ^ k → bit_or r s < 2 ^ k
bit_or-lt zero r s h h' = ground (arith, bit_or-zero r)
bit_or-lt (suc k) r s h h' =
    ground (arith, bit_or_step r s, pow-suc 2 k, bit_or-lt k (r / 2) (s / 2))

-- `&` works on the two parts of its arguments apart.
pub bit_and_parts :
    (k q r b s : ℕ)
    → r < 2 ^ k
    → s < 2 ^ k
    → bit_and (q * 2 ^ k + r) (b * 2 ^ k + s) ≡ bit_and q b * 2 ^ k + bit_and r s
bit_and_parts zero q r b s h h' =
    let e : q * 2 ^ 0 + r ≡ q = omega arith in
    let e' : b * 2 ^ 0 + s ≡ b = omega arith in
    let zr : r ≡ 0 = omega arith in let zs : s ≡ 0 = omega arith in rw (e, e', zr, zs) (omega arith)
bit_and_parts (suc k) q r b s h h' = ground (
  arith,
  bit_and_step (q * 2 ^ suc k + r) (b * 2 ^ suc k + s),
  bit_and_step r s,
  double-pow q k,
  double-pow b k,
  double-pow (bit_and q b) k,
  bit_and_parts k q (r / 2) b (s / 2),
)

-- The same of `|`.
pub bit_or_both :
    (k q r b s : ℕ)
    → r < 2 ^ k
    → s < 2 ^ k
    → bit_or (q * 2 ^ k + r) (b * 2 ^ k + s) ≡ bit_or q b * 2 ^ k + bit_or r s
bit_or_both zero q r b s h h' =
    let e : q * 2 ^ 0 + r ≡ q = omega arith in
    let e' : b * 2 ^ 0 + s ≡ b = omega arith in
    let zr : r ≡ 0 = omega arith in let zs : s ≡ 0 = omega arith in rw (e, e', zr, zs) (omega arith)
bit_or_both (suc k) q r b s h h' = ground (
  arith,
  bit_or_step (q * 2 ^ suc k + r) (b * 2 ^ suc k + s),
  bit_or_step r s,
  double-pow q k,
  double-pow b k,
  double-pow (bit_or q b) k,
  bit_or_both k q (r / 2) b (s / 2),
)

pub bit_or_odd : (a b : ℕ) → a % 2 ≡ 1 → bit_or a b % 2 ≡ 1
bit_or_odd a b h = ground (arith, bit_or_step a b)

pub bit_or_odd_right : (a b : ℕ) → b % 2 ≡ 1 → bit_or a b % 2 ≡ 1
bit_or_odd_right a b h = ground (arith, bit_or_step a b)

pub bit_and-le : (n a b : ℕ) → b ≤ n → bit_and a b ≤ b
bit_and-le zero a b h = let z : b ≡ 0 = omega arith in rw z (omega (arith, bit_and-zero a))
bit_and-le (suc n) a zero h = omega (arith, bit_and-zero a)
bit_and-le (suc n) a (suc b) h =
    ground (arith, bit_and_step a (suc b), bit_and-le n (a / 2) (suc b / 2) (omega arith))
